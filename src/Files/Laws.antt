-- ===== src/Files/Laws.antt =====
-- What the calls of src/file_system.c promise, over any allocator that keeps its laws.
use sky_net_os.Base.{
  refl, inl, inr, none, some, sym, ap, subst, length, Option-cases, ℕ, List, ◌+◌, ◌≡◌, ◌∙◌, ◌∷◌,
  ◌++◌,
}
use sky_net_os.Files.Effects.{Ends, ok, Ends-bind, lift, Ends-lift}
use sky_net_os.Files.Allocator.{Allocator, one_at}
use sky_net_os.Files.Defs.{Item, Root, File, bytes, err_file_not_found, find_file_index}
use sky_net_os.Files.Calls.{delete_file, read_file, free_contents}
use sky_net_os.Files.Owners.{owners, IsRoot, AllSized-drop, AllSized, Owned-same, free_contents_lem}
use sky_net_os.Files.Lookup.{
  Absent, lookup, Distinct, find_file_index-Found, Found, lookup-Absent, lookup-other,
}
use sky_net_os.Files.Distinct.{Distinct-drop}
use sky_net_os.Files.Steps.{SameOthers, at_index_lem, get-found, owners_first, remove_at-found}

module _ (M : Allocator) (image : List ℕ → List Item → List ℕ) where
  -- What a successful write leaves in the entries `files`.
  abbrev WriteResult : Root M → List ℕ → List ℕ → M.Store → List File → Type 0
  WriteResult r name source s files =
      IsRoot M (record { files = files; store = s })
      × (read_file image name files ≡ ok (some source))
      × SameOthers name r.files files

  -- The entry `f` after a write.
  abbrev rewritten : File → ℕ → List ℕ → File
  rewritten f p source = record f { contents = bytes p source; size = length source }

  -- What a successful deletion leaves in the entries `files`.
  abbrev DeleteResult : Root M → List ℕ → M.Store → List File → Type 0
  DeleteResult r name s files =
      IsRoot M (record { files = files; store = s })
      × (lookup name files ≡ none)
      × SameOthers name r.files files

  deleted :
      (r : Root M) (name : List ℕ) (xs : List File) (f : File) (ys : List File) (s : M.Store)
      → IsRoot M r
      → r.files ≡ xs ++ (f ∷ ys)
      → f.name ≡ name
      → M.Owned s (owners (xs ++ ys))
      → DeleteResult r name s (xs ++ ys)
  deleted r name xs f ys s v e same own =
      let (distinct', gone) = Distinct-drop xs f ys (subst Distinct e v.distinct) in
      (
        record {
          distinct = distinct';
          sized = AllSized-drop xs f ys (subst AllSized e v.sized);
          owned = own;
        },
        lookup-Absent name (xs ++ ys) (subst (λ n. Absent n (xs ++ ys)) same gone),
        λ other apart. sym (ap (lookup other) e ∙ lookup-other other xs f ys (rw same apart)),
      )

  -- delete_file, on a directory whose names, sizes and ownership are in order, returns or halts; it
  -- halts only where no entry has the name. Otherwise the name
  -- stands for nothing, every other name stands for what it stood for, and names, sizes and
  -- ownership stay in order.
  pub delete_file-lookup :
      (name : List ℕ) (r : Root M)
      → IsRoot M r
      → Ends
          (λ code. (code ≡ err_file_not_found) × (lookup name r.files ≡ none))
          (λ r'. IsRoot M r' × (lookup name r'.files ≡ none) × SameOthers name r.files r'.files)
          (delete_file M name r)
  unfolding delete_file
  delete_file-lookup name r v =
      let H : ℕ → Type 0 = λ code. (code ≡ err_file_not_found) × (lookup name r.files ≡ none) in
      let found = find_file_index-Found name r.files in
      elim (Option-cases (find_file_index name r.files)) [
        | inl e ↦
            rw (delete_file, e)
              (refl, lookup-Absent name r.files (subst (Found name 0 r.files) e found))
        | inr (i, e) ↦
            let (xs, f, ys, e', at, absent, same) = subst (Found name 0 r.files) e found in
            rw (delete_file, e)
              (at_index_lem M H _ i r.files _ (get-found r.files xs f ys e' at) (
                Ends-bind H (λ s. M.Owned s (λ q. one_at f.self q + owners (xs ++ ys) q)) _
                  (free_contents M f.contents r.store) _
                  (free_contents_lem M H f.contents r.store _
                    (Owned-same M r.store (owners_first r.files xs f ys e') v.owned))
                  (λ s own.
                    Ends-bind H (λ s'. M.Owned s' (owners (xs ++ ys))) _ (lift (M.free f.self s)) _
                      (Ends-lift H (λ s'. M.Owned s' (owners (xs ++ ys))) (M.free f.self s)
                        (M.free_law f.self s (owners (xs ++ ys)) own))
                      (λ s' own'.
                        subst (DeleteResult r name s') (sym (remove_at-found r.files xs f ys e' at))
                          (deleted r name xs f ys s' v e' same own')))))
      ]
