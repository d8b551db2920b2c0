-- ===== src/Files/Lookup.antt =====
-- The root directory of src/file_system.c as a map from names to entries.
use sky_net_os.Base.{
  suc, refl, true, false, none, some, length, arith, ℕ, Option, List, ◌≡◌, ◌∷◌, ◌++◌, [],
  if◌then◌else◌, inl, inr, ap, get_elem?, set, Bool-cases, ◌+◌,
}
use sky_net_os.Files.Defs.{File, same_name, find_from, find_file_index, remove_at}

-- The entry of a name.
unfoldable pub lookup : List ℕ → List File → Option File
lookup name [] = none
lookup name (f ∷ fs) = let rest = lookup name fs in if same_name f.name name then some f else rest

-- No entry has the name.
abbrev pub Absent : List ℕ → List File → Type 0
Absent name [] = Unit
Absent name (f ∷ fs) = (same_name f.name name ≡ false) × Absent name fs

-- No two entries have one name.
abbrev pub Distinct : List File → Type 0
Distinct [] = Unit
Distinct (f ∷ fs) = Absent f.name fs × Distinct fs

pub same_name-eq : (a b : List ℕ) → same_name a b ≡ true → a ≡ b
same_name-eq [] [] h = refl
same_name-eq [] (y ∷ b) h = absurd (ground arith)
same_name-eq (x ∷ a) [] h = absurd (ground arith)
same_name-eq (x ∷ a) (y ∷ b) h =
    let p : x ≡ y = ground arith in let q = same_name-eq a b (ground arith) in λ i. p i ∷ q i

pub same_name_refl : (a : List ℕ) → same_name a a ≡ true
same_name_refl [] = refl
same_name_refl (x ∷ a) = ground (arith, same_name_refl a)

-- What the search from index `k` on comes to: the first entry with the name, or none.
abbrev pub Found : List ℕ → ℕ → List File → Option ℕ → Type 0
Found name k files none = Absent name files
Found name k files (some i) =
    (xs : List File) × (f : File) × (ys : List File) × (files ≡ xs ++ (f ∷ ys))
    × (k + length xs ≡ i)
    × Absent name xs
    × (f.name ≡ name)

Found-cons :
    (name : List ℕ) (k : ℕ) (f : File) (fs : List File) (o : Option ℕ)
    → same_name f.name name ≡ false
    → Found name (suc k) fs o
    → Found name k (f ∷ fs) o
Found-cons name k f fs none other h = (other, h)
Found-cons name k f fs (some i) other (xs, g, ys, e, at, absent, same) =
    (f ∷ xs, g, ys, ap (λ l. f ∷ l) e, omega arith, (other, absent), same)

find_from-Found :
    (name : List ℕ) (k : ℕ) (files : List File) → Found name k files (find_from name k files)
unfolding find_from
find_from-Found name k [] = tt
find_from-Found name k (f ∷ fs) = elim (Bool-cases (same_name f.name name)) [
  | inl same ↦
      rw (find_from, same) ([], f, fs, refl, omega arith, tt, same_name-eq f.name name same)
  | inr other ↦
      rw (find_from, other)
        (Found-cons name k f fs (find_from name (suc k) fs) other (find_from-Found name (suc k) fs))
]

pub find_file_index-Found :
    (name : List ℕ) (files : List File) → Found name 0 files (find_file_index name files)
unfolding find_file_index
find_file_index-Found name files = find_from-Found name 0 files

pub lookup-Absent :
    (name : List ℕ) (files : List File) → Absent name files → lookup name files ≡ none
unfolding lookup
lookup-Absent name [] h = refl
lookup-Absent name (f ∷ fs) (other, h) = rw (lookup, other) (lookup-Absent name fs h)

pub lookup-here :
    (name : List ℕ) (xs : List File) (f : File) (ys : List File)
    → Absent name xs
    → f.name ≡ name
    → lookup name (xs ++ (f ∷ ys)) ≡ some f
unfolding lookup
lookup-here name [] f ys h e =
    let hit : same_name f.name name ≡ true = rw e (same_name_refl name) in rw (lookup, hit)
lookup-here name (x ∷ xs) f ys (other, h) e = rw (lookup, other) (lookup-here name xs f ys h e)

-- An entry of another name does not matter.
pub lookup-other :
    (name : List ℕ) (xs : List File) (f : File) (ys : List File)
    → same_name f.name name ≡ false
    → lookup name (xs ++ (f ∷ ys)) ≡ lookup name (xs ++ ys)
unfolding lookup
lookup-other name [] f ys h = rw (lookup, h)
lookup-other name (x ∷ xs) f ys h = elim (Bool-cases (same_name x.name name)) [
  | inl same ↦ rw (lookup, same)
  | inr other ↦ rw (lookup, other) (lookup-other name xs f ys h)
]

pub get_elem?-here :
    (xs : List File) (f : File) (ys : List File) → get_elem? (xs ++ (f ∷ ys)) (length xs) ≡ some f
get_elem?-here [] f ys = refl
get_elem?-here (x ∷ xs) f ys = get_elem?-here xs f ys

pub set-here :
    (xs : List File) (f g : File) (ys : List File)
    → set (xs ++ (f ∷ ys)) (length xs) g ≡ xs ++ (g ∷ ys)
set-here [] f g ys = refl
set-here (x ∷ xs) f g ys = ap (λ l. x ∷ l) (set-here xs f g ys)

pub remove_at-here :
    (xs : List File) (f : File) (ys : List File) → remove_at (length xs) (xs ++ (f ∷ ys)) ≡ xs ++ ys
unfolding remove_at
remove_at-here [] f ys = refl
remove_at-here (x ∷ xs) f ys = ap (λ l. x ∷ l) (remove_at-here xs f ys)
