-- ===== src/Files/Steps.antt =====
-- Reading and changing one entry of the root directory (src/file_system.c).
use sky_net_os.Base.{
  suc, refl, true, false, some, sym, ap, ap₂, append-nil, length, get_elem?, set, take, leb, arith,
  ℕ, List, ◌+◌, ◌<◌, ◌≡◌, ◌⊎◌, ◌∙◌, ◌∷◌, ◌++◌, [], lt→ltb,
}
use sky_net_os.Files.Effects.{ok, Effect, Ends}
use sky_net_os.Files.Defs.{
  File, err_out_of_memory, find_from, find_file_index, add_file, copy_name, same_name, Item,
  max_files, max_name_length, remove_at, Root, bytes,
}
use sky_net_os.Files.Calls.{read_file, copy_out, at_index}
use sky_net_os.Files.Allocator.{Allocator, one_at}
use sky_net_os.Files.Lookup.{
  Absent, lookup-other, get_elem?-here, set-here, lookup, same_name_refl, remove_at-here,
}
use sky_net_os.Files.Owners.{owners, contents_owned, owners-middle}

-- Only what the name `name` stands for may differ.
abbrev pub SameOthers : List ℕ → List File → List File → Type 0
SameOthers name fs fs' =
    (other : List ℕ) → same_name name other ≡ false → lookup other fs' ≡ lookup other fs

-- The code is that of a failed allocation, or `code'`, and then `P`.
abbrev pub Halts : ℕ → Type 0 → ℕ → Type 0
Halts code' P code = (code ≡ err_out_of_memory) ⊎ ((code ≡ code') × P)

find_from-here :
    (name : List ℕ) (k : ℕ) (xs : List File) (f : File) (ys : List File)
    → Absent name xs
    → f.name ≡ name
    → find_from name k (xs ++ (f ∷ ys)) ≡ some (k + length xs)
unfolding find_from
find_from-here name k [] f ys h e =
    let hit : same_name f.name name ≡ true = rw e (same_name_refl name) in
    rw (find_from, hit) (ap some (omega arith))
find_from-here name k (x ∷ xs) f ys (other, h) e =
    rw (find_from, other) (find_from-here name (suc k) xs f ys h e ∙ ap some (omega arith))

find_file_index-here :
    (name : List ℕ) (xs : List File) (f : File) (ys : List File)
    → Absent name xs
    → f.name ≡ name
    → find_file_index name (xs ++ (f ∷ ys)) ≡ some (length xs)
unfolding find_file_index
find_file_index-here name xs f ys h e = find_from-here name 0 xs f ys h e ∙ ap some (omega arith)

-- Reading the entry of a name.
pub read_file-here :
    (image : List ℕ → List Item → List ℕ) (name : List ℕ) (xs : List File) (f : File)
    (ys : List File) {l : List ℕ}
    → Absent name xs
    → f.name ≡ name
    → copy_out image f ≡ ok l
    → read_file image name (xs ++ (f ∷ ys)) ≡ ok (some l)
unfolding read_file
read_file-here image name xs f ys h e got =
    rw (read_file, find_file_index-here name xs f ys h e, get_elem?-here xs f ys, got)

take-all : (l : List ℕ) → take (length l) l ≡ l
take-all [] = refl
take-all (x ∷ l) = ap (λ r. x ∷ r) (take-all l)

pub copy_out-bytes :
    (image : List ℕ → List Item → List ℕ) (f : File) (p : ℕ) (l : List ℕ)
    → copy_out image (record f { contents = bytes p l; size = length l }) ≡ ok l
unfolding copy_out
copy_out-bytes image f p l =
    let fits : leb (length l) (length l) ≡ true = ground arith in rw (fits, take-all l)

pub add_file-done :
    (f : File) (fs : List File) → length fs < max_files → add_file f fs ≡ ok (fs ++ (f ∷ []))
unfolding add_file
add_file-done f fs room = let t = lt→ltb (length fs) max_files room in rw (add_file, t)

pub copy_name-done : (name : List ℕ) → length name < max_name_length → copy_name name ≡ ok name
unfolding copy_name
copy_name-done name room = let t = lt→ltb (length name) max_name_length room in rw (copy_name, t)

pub SameOthers-add :
    (name : List ℕ) (xs : List File) (f : File)
    → f.name ≡ name
    → SameOthers name xs (xs ++ (f ∷ []))
SameOthers-add name xs f e other apart =
    lookup-other other xs f [] (rw e apart) ∙ ap (lookup other) (append-nil xs)

pub SameOthers-swap :
    (name : List ℕ) (xs : List File) (f g : File) (ys : List File)
    → f.name ≡ name
    → g.name ≡ name
    → SameOthers name (xs ++ (f ∷ ys)) (xs ++ (g ∷ ys))
SameOthers-swap name xs f g ys e e' other apart =
    lookup-other other xs g ys (rw e' apart) ∙ sym (lookup-other other xs f ys (rw e apart))

-- The entry that the search has found, under its index.
pub get-found :
    (files xs : List File) (f : File) (ys : List File) {i : ℕ}
    → files ≡ xs ++ (f ∷ ys)
    → 0 + length xs ≡ i
    → get_elem? files i ≡ some f
get-found files xs f ys e at = ap₂ get_elem? e (sym at ∙ omega arith) ∙ get_elem?-here xs f ys

pub set-found :
    (files xs : List File) (f g : File) (ys : List File) {i : ℕ}
    → files ≡ xs ++ (f ∷ ys)
    → 0 + length xs ≡ i
    → set files i g ≡ xs ++ (g ∷ ys)
set-found files xs f g ys e at =
    ap₂ (λ l j. set l j g) e (sym at ∙ omega arith) ∙ set-here xs f g ys

pub remove_at-found :
    (files xs : List File) (f : File) (ys : List File) {i : ℕ}
    → files ≡ xs ++ (f ∷ ys)
    → 0 + length xs ≡ i
    → remove_at i files ≡ xs ++ ys
remove_at-found files xs f ys e at = ap₂ remove_at (sym at ∙ omega arith) e ∙ remove_at-here xs f ys

pub owners_first :
    (files xs : List File) (f : File) (ys : List File)
    → files ≡ xs ++ (f ∷ ys)
    → (q : ℕ)
    → owners files q ≡ contents_owned f.contents q + (one_at f.self q + owners (xs ++ ys) q)
owners_first files xs f ys e q = ap (λ l. owners l q) e ∙ owners-middle xs f ys q ∙ omega arith

pub at_index_lem :
    (M : Allocator) (H : ℕ → Type 0) (Q : Root M → Type 0) (i : ℕ) (files : List File)
    (next : File → Effect (Root M)) {f : File}
    → get_elem? files i ≡ some f
    → Ends H Q (next f)
    → Ends H Q (at_index M i files next)
at_index_lem M H Q i files next e h = rw (at_index, e) h
