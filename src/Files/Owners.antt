-- ===== src/Files/Owners.antt =====
-- Which pointers the entries of the root directory (src/file_system.c) own, and what allocating and
-- freeing them comes to.
use sky_net_os.Base.{
  refl, none, some, fun_ext, subst, done, fault, length, arith, Returns, Outcome, ℕ, Option, List,
  ◌+◌, ◌≡◌, ◌∷◌, ◌++◌, [],
}
use sky_net_os.Files.Effects.{◌>>=◌, halted}
use sky_net_os.Files.Defs.{null}
use sky_net_os.Files.Defs.{Contents, File, bytes, Root, subdirectory, err_out_of_memory}
use sky_net_os.Files.Allocator.{Allocator, one_at}
use sky_net_os.Files.Calls.{free_contents, allocate_or_halt}
use sky_net_os.Files.Lookup.{Distinct}
use sky_net_os.Files.Effects.{Ends, Effect, Ends-lift, lift}

abbrev pub contents_owned : Contents → ℕ → ℕ
contents_owned null q = 0
contents_owned (bytes p l) q = one_at p q
contents_owned (subdirectory p items) q = one_at p q

abbrev pub file_owned : File → ℕ → ℕ
file_owned f q = one_at f.self q + contents_owned f.contents q

unfoldable pub owners : List File → ℕ → ℕ
owners [] q = 0
owners (f ∷ fs) q = file_owned f q + owners fs q

pub owners-middle :
    (xs : List File) (f : File) (ys : List File) (q : ℕ)
    → owners (xs ++ (f ∷ ys)) q ≡ file_owned f q + owners (xs ++ ys) q
unfolding owners
owners-middle [] f ys q = refl
owners-middle (x ∷ xs) f ys q = omega (arith, owners-middle xs f ys q)

-- The sizes that are recorded are those of the data.
abbrev pub IsSized : File → Type 0
IsSized f = elim f.contents [
  | null ↦ f.size ≡ 0
  | bytes p l ↦ f.size ≡ length l
  | subdirectory p items ↦ items ≡ []
]

abbrev pub AllSized : List File → Type 0
AllSized [] = Unit
AllSized (f ∷ fs) = IsSized f × AllSized fs

pub AllSized-swap :
    (xs : List File) (f g : File) (ys : List File)
    → IsSized g
    → AllSized (xs ++ (f ∷ ys))
    → AllSized (xs ++ (g ∷ ys))
AllSized-swap [] f g ys s (h, hs) = (s, hs)
AllSized-swap (x ∷ xs) f g ys s (h, hs) = (h, AllSized-swap xs f g ys s hs)

pub AllSized-drop :
    (xs : List File) (f : File) (ys : List File) → AllSized (xs ++ (f ∷ ys)) → AllSized (xs ++ ys)
AllSized-drop [] f ys (h, hs) = hs
AllSized-drop (x ∷ xs) f ys (h, hs) = (h, AllSized-drop xs f ys hs)

pub AllSized-add : (xs : List File) (f : File) → IsSized f → AllSized xs → AllSized (xs ++ (f ∷ []))
AllSized-add [] f s h = (s, tt)
AllSized-add (x ∷ xs) f s (h, hs) = (h, AllSized-add xs f s hs)

module _ (M : Allocator) where
  -- Between calls the names are distinct, the sizes recorded, and the store knows all pointers.
  pub record IsRoot (r : Root M) : Type 0 where
    pub distinct : Distinct r.files
    pub sized : AllSized r.files
    pub owned : M.Owned r.store (owners r.files)

  -- Counts that are the same everywhere.
  pub Owned-same : (s : M.Store) {c d : ℕ → ℕ} → ((q : ℕ) → c q ≡ d q) → M.Owned s c → M.Owned s d
  Owned-same s same h = subst (M.Owned s) (fun_ext same) h

  pub free_contents_lem :
      (H : ℕ → Type 0) (k : Contents) (s : M.Store) (c : ℕ → ℕ)
      → M.Owned s (λ q. contents_owned k q + c q)
      → Ends H (λ s'. M.Owned s' c) (free_contents M k s)
  unfolding free_contents
  free_contents_lem H null s c h = Owned-same s (λ q. omega arith) h
  free_contents_lem H (bytes p l) s c h =
      Ends-lift H (λ s'. M.Owned s' c) (M.free p s) (M.free_law p s c h)
  free_contents_lem H (subdirectory p items) s c h =
      Ends-lift H (λ s'. M.Owned s' c) (M.free p s) (M.free_law p s c h)

  allocated :
      (H : ℕ → Type 0) (Q : Root M → Type 0) (c : ℕ → ℕ) (m : Outcome (M.Store × Option ℕ))
      (next : M.Store → ℕ → Effect (Root M))
      → H err_out_of_memory
      → Returns
          (λ r. elim r.1 [ none ↦ M.Owned r.0 c | some p ↦ M.Owned r.0 (λ q. one_at p q + c q) ])
          m
      → ((s : M.Store) (p : ℕ) → M.Owned s (λ q. one_at p q + c q) → Ends H Q (next s p))
      → Ends H Q (
          lift m
          >>= (λ got. elim got.1 [ none ↦ halted err_out_of_memory | some p ↦ next got.0 p ]))
  allocated H Q c (done (s, none)) next oom law rest = oom
  allocated H Q c (done (s, some p)) next oom law rest = rest s p law
  allocated H Q c fault next oom law rest = law

  pub allocate_or_halt_lem :
      (H : ℕ → Type 0) (Q : Root M → Type 0) (n : ℕ) (s : M.Store) (c : ℕ → ℕ)
      (next : M.Store → ℕ → Effect (Root M))
      → H err_out_of_memory
      → M.Owned s c
      → ((s' : M.Store) (p : ℕ) → M.Owned s' (λ q. one_at p q + c q) → Ends H Q (next s' p))
      → Ends H Q (allocate_or_halt M n s next)
  allocate_or_halt_lem H Q n s c next oom own rest =
      allocated H Q c (M.malloc n s) next oom (M.malloc_law n s c own) rest
