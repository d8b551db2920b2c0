-- ===== src/Files/Distinct.antt =====
-- Names in the root directory of src/file_system.c: how changes of one entry keep them distinct.
use sky_net_os.Base.{
  inl, inr, true, false, sym, subst, Bool-cases, arith, ℕ, List, ◌≡◌, ◌∷◌, ◌++◌, [],
}
use sky_net_os.Files.Defs.{same_name, File}
use sky_net_os.Files.Lookup.{same_name-eq, Absent, Distinct, same_name_refl}

same_name_symm : (a b : List ℕ) → same_name a b ≡ false → same_name b a ≡ false
same_name_symm a b h = elim (Bool-cases (same_name b a)) [
  | inl same ↦ absurd (
      let e = same_name-eq b a same in
      let t = subst (λ x. same_name a x ≡ true) (sym e) (same_name_refl a) in ground arith)
  | inr other ↦ other
]

Absent-swap :
    (n : List ℕ) (xs : List File) (f g : File) (ys : List File)
    → g.name ≡ f.name
    → Absent n (xs ++ (f ∷ ys))
    → Absent n (xs ++ (g ∷ ys))
Absent-swap n [] f g ys e (other, h) = (rw e other, h)
Absent-swap n (x ∷ xs) f g ys e (other, h) = (other, Absent-swap n xs f g ys e h)

Absent-drop :
    (n : List ℕ) (xs : List File) (f : File) (ys : List File)
    → Absent n (xs ++ (f ∷ ys))
    → (same_name f.name n ≡ false) × Absent n (xs ++ ys)
Absent-drop n [] f ys h = h
Absent-drop n (x ∷ xs) f ys (other, h) = let (a, b) = Absent-drop n xs f ys h in (a, (other, b))

Absent-add :
    (n : List ℕ) (xs : List File) (f : File)
    → same_name f.name n ≡ false
    → Absent n xs
    → Absent n (xs ++ (f ∷ []))
Absent-add n [] f other h = (other, tt)
Absent-add n (x ∷ xs) f other (apart, h) = (apart, Absent-add n xs f other h)

-- Another entry takes the place of one with its name.
pub Distinct-swap :
    (xs : List File) (f g : File) (ys : List File)
    → g.name ≡ f.name
    → Distinct (xs ++ (f ∷ ys))
    → Distinct (xs ++ (g ∷ ys))
Distinct-swap [] f g ys e (h, d) = (rw e h, d)
Distinct-swap (x ∷ xs) f g ys e (h, d) =
    (Absent-swap x.name xs f g ys e h, Distinct-swap xs f g ys e d)

-- An entry is taken out: its name is gone.
pub Distinct-drop :
    (xs : List File) (f : File) (ys : List File)
    → Distinct (xs ++ (f ∷ ys))
    → Distinct (xs ++ ys) × Absent f.name (xs ++ ys)
Distinct-drop [] f ys (h, d) = (d, h)
Distinct-drop (x ∷ xs) f ys (h, d) =
    let (d', absent) = Distinct-drop xs f ys d in
    let (other, h') = Absent-drop x.name xs f ys h in
    ((h', d'), (same_name_symm f.name x.name other, absent))

-- An entry with a new name joins at the end.
pub Distinct-add :
    (xs : List File) (f : File) → Absent f.name xs → Distinct xs → Distinct (xs ++ (f ∷ []))
Distinct-add [] f absent d = (tt, tt)
Distinct-add (x ∷ xs) f (other, absent) (h, d) =
    (Absent-add x.name xs f (same_name_symm x.name f.name other) h, Distinct-add xs f absent d)
