-- ===== src/Desktop/Stacking.antt =====
-- Raising and hitting windows (src/gui.c).
use native.Mathlib.Decide.{ℕ_discrete}
use sky_net_os.Base.{
  refl, inl, inr, true, false, none, some, sym, ap, subst, Bool-cases, arith, if-true, if-false, ℕ,
  ℤ, Bool, Option, List, ◌+◌, ◌≡◌, ◌∷◌, ◌++◌, ◌==◌, [], if◌then◌else◌, ◌∙◌,
}
use sky_net_os.Desktop.Windows.{topmost, window_at, raise_window, without, Gui, stacked, covers}

-- No entry is hit.
abbrev pub NoHit : (ℕ → Bool) → List ℕ → Type 0
NoHit hit [] = Unit
NoHit hit (i ∷ z) = (hit i ≡ false) × NoHit hit z

-- What `window_at` comes to: the last entry that is hit, or none is.
abbrev pub Topmost : (ℕ → Bool) → List ℕ → Option ℕ → Type 0
Topmost hit z none = NoHit hit z
Topmost hit z (some i) =
    (xs : List ℕ) × (ys : List ℕ) × (z ≡ xs ++ (i ∷ ys)) × (hit i ≡ true) × NoHit hit ys

Topmost-cons :
    (hit : ℕ → Bool) (i : ℕ) (z : List ℕ) (o : Option ℕ)
    → Topmost hit z o
    → Topmost hit (i ∷ z) (elim o [ some j ↦ some j | none ↦ if hit i then some i else none ])
Topmost-cons hit i z (some j) (xs, ys, e, h, above) = (i ∷ xs, ys, ap (λ l. i ∷ l) e, h, above)
Topmost-cons hit i z none clear = elim (Bool-cases (hit i)) [
  | inl yes_hit ↦
      subst (Topmost hit (i ∷ z)) (sym (if-true _ _ yes_hit)) ([], z, refl, yes_hit, clear)
  | inr no_hit ↦ subst (Topmost hit (i ∷ z)) (sym (if-false _ _ no_hit)) (no_hit, clear)
]

topmost-Topmost : (hit : ℕ → Bool) (z : List ℕ) → Topmost hit z (topmost hit z)
unfolding topmost
topmost-Topmost hit [] = tt
topmost-Topmost hit (i ∷ z) = Topmost-cons hit i z (topmost hit z) (topmost-Topmost hit z)

-- window_at finds the frontmost active window that contains the point: every window in front of it
-- misses the point, and where it finds none, every window misses it.
pub window_at-Topmost :
    (px py : ℤ) (g : Gui) → Topmost (λ i. covers px py (g.windows i)) g.z_order (window_at px py g)
unfolding window_at
window_at-Topmost px py g = topmost-Topmost (λ i. covers px py (g.windows i)) g.z_order

topmost-last :
    (hit : ℕ → Bool) (z : List ℕ) (i : ℕ) → hit i ≡ true → topmost hit (z ++ i ∷ []) ≡ some i
unfolding topmost
topmost-last hit [] i h = if-true _ _ h
topmost-last hit (j ∷ z) i h = rw (topmost-last hit z i h)

-- A window of the stack that is raised gets the focus, and is the one that is hit at every point
-- that it contains.
pub window_at-raise_window :
    (idx : ℕ) (px py : ℤ) (g : Gui)
    → stacked idx g.z_order ≡ true
    → covers px py (g.windows idx) ≡ true
    → (window_at px py (raise_window idx g) ≡ some idx) × ((raise_window idx g).focused ≡ some idx)
unfolding raise_window window_at
window_at-raise_window idx px py g there hit =
    subst (λ g'. (window_at px py g' ≡ some idx) × (g'.focused ≡ some idx))
      (sym (if-true _ _ there))
      (topmost-last (λ i. covers px py (g.windows i)) (without idx g.z_order) idx hit, refl)

-- 1 for `p`, 0 for another window.
abbrev pub is_at : ℕ → ℕ → ℕ
is_at p i = if i == p then 1 else 0

-- How often a window is in the stack.
unfoldable pub times : ℕ → List ℕ → ℕ
times p [] = 0
times p (i ∷ z) = is_at p i + times p z

times-last : (p i : ℕ) (z : List ℕ) → times p (z ++ i ∷ []) ≡ times p z + is_at p i
unfolding times
times-last p i [] = omega arith
times-last p i (j ∷ z) = omega (arith, times-last p i z)

times-without :
    (p idx : ℕ) (z : List ℕ)
    → stacked idx z ≡ true
    → times p (without idx z) + is_at p idx ≡ times p z
unfolding times without stacked
times-without p idx [] h = absurd (ground arith)
times-without p idx (i ∷ z) h = elim (ℕ_discrete i idx) [
  | yes e ↦
      let same : (i == idx) ≡ true = ground arith in
      ap (λ l. times p l + is_at p idx) (if-true _ _ same) ∙ omega (arith, ap (is_at p) e)
  | no ne ↦
      let other : (i == idx) ≡ false = ground arith in
      let later : stacked idx z ≡ true = ground arith in
      ap (λ l. times p l + is_at p idx) (if-false _ _ other)
      ∙ omega (arith, times-without p idx z later)
]

-- raise_window, whatever it is asked to raise, leaves every window in the stack as often as it was.
pub raise_window-times :
    (idx p : ℕ) (g : Gui) → times p (raise_window idx g).z_order ≡ times p g.z_order
unfolding raise_window
raise_window-times idx p g = elim (Bool-cases (stacked idx g.z_order)) [
  | inl there ↦
      ap (λ g'. times p g'.z_order) (if-true _ g there)
      ∙ times-last p idx (without idx g.z_order)
      ∙ times-without p idx g.z_order there
  | inr gone ↦ ap (λ g'. times p g'.z_order) (if-false _ g gone)
]
