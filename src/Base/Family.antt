-- ===== src/Base/Family.antt =====
-- C arrays as families `ℕ → A`: the write of one element, and sums over the first `n`.
use Prim.Native.Nat.{ℕ, zero, suc, ◌+◌, ◌≤◌, ◌<◌}
use mathlib.Core.Path.{◌≡◌, refl, fun_ext, ap, ap₂, ◌∙◌}
use mathlib.Core.Bool.{true, false}
use mathlib.Core.Logic.{◌≢◌}
use native.Mathlib.Omega.{arith}
use native.Mathlib.Decide.{ℕ_discrete}
use sky_net_os.Base.Tests.{◌==◌, if◌then◌else◌}

abbrev pub update {ℓ} : {A : Type ℓ} → (ℕ → A) → ℕ → A → ℕ → A
update f i a j = if i == j then a else f j

pub update_same {ℓ} : {A : Type ℓ} (f : ℕ → A) (i : ℕ) (a : A) → update f i a i ≡ a
update_same f i a = ground arith

pub update_other {ℓ} : {A : Type ℓ} (f : ℕ → A) (i j : ℕ) (a : A) → i ≢ j → update f i a j ≡ f j
update_other f i j a h = ground arith

pub update_comm {ℓ} :
    {A : Type ℓ} (f : ℕ → A) {i j : ℕ} (a b : A)
    → i ≢ j
    → update (update f i a) j b ≡ update (update f j b) i a
update_comm f a b h = fun_ext λ k. ground arith

pub update-update {ℓ} :
    {A : Type ℓ} (f : ℕ → A) (i : ℕ) (a b : A) → update (update f i a) i b ≡ update f i b
update-update f i a b = fun_ext λ k. ground arith

pub update_self {ℓ} : {A : Type ℓ} (f : ℕ → A) (i : ℕ) → update f i (f i) ≡ f
update_self f i =
    fun_ext λ k. elim (ℕ_discrete i k) [ yes e ↦ rw e (ground arith) | no ne ↦ ground arith ]

-- What holds of every element, and of the one written, holds after the write.
pub update_all {ℓ κ} :
    {A : Type ℓ} (P : A → Type κ) (f : ℕ → A) (i : ℕ) (a : A)
    → ((j : ℕ) → P (f j))
    → P a
    → (j : ℕ) → P (update f i a j)
update_all P f i a old new j = elim (i == j) as (λ b. P (if b then a else f j)) [
  | true ↦ new
  | false ↦ old j
]

-- A write that keeps a view of the element keeps the view of the array.
pub update_view {ℓ κ} :
    {A : Type ℓ} {B : Type κ} (view : A → B) (f : ℕ → A) (i : ℕ) (a : A)
    → view a ≡ view (f i)
    → ◌≡◌ {A = ℕ → B} (λ j. view (update f i a j)) (λ j. view (f j))
update_view view f i a same =
    fun_ext
      λ j. elim (ℕ_discrete i j) [ yes e ↦ rw (← e, update_same f i a) same | no ne ↦ ground arith ]

pub update_map {ℓ κ} :
    {A : Type ℓ} {B : Type κ} (view : A → B) (f : ℕ → A) (i : ℕ) (a : A)
    → ◌≡◌ {A = ℕ → B} (λ j. view (update f i a j)) (update (λ j. view (f j)) i (view a))
update_map view f i a = fun_ext λ j. ground arith

-- Two writes to one place, the second of which puts back what was there.
pub update_undo {ℓ} :
    {A : Type ℓ} (f : ℕ → A) (i : ℕ) (a : A) (back : A → A)
    → back a ≡ f i
    → update (update f i a) i (back (update f i a i)) ≡ f
update_undo f i a back h = rw (update_same f i a, h) (update-update f i a (f i) ∙ update_self f i)

-- The sum of the weights of the first elements.
module _ {ℓ} {A : Type ℓ} (weight : A → ℕ) where
  unfoldable pub total : ℕ → (ℕ → A) → ℕ
  total zero g = 0
  total (suc k) g = weight (g k) + total k g

  -- Only the elements below the bound count.
  total_below : (k : ℕ) (g h : ℕ → A) → ((j : ℕ) → j < k → g j ≡ h j) → total k g ≡ total k h
  unfolding total
  total_below zero g h same = refl
  total_below (suc k) g h same =
      ap₂ (λ x y. weight x + y) (same k (omega arith))
        (total_below k g h (λ j lt. same j (omega arith)))

  pub total-update :
      (k : ℕ) (g : ℕ → A) (at : ℕ) (x : A)
      → at < k
      → total k (update g at x) + weight (g at) ≡ total k g + weight x
  unfolding total
  total-update zero g at x lt = absurd (omega arith)
  total-update (suc k) g at x lt = elim (ℕ_discrete at k) [
    | no other ↦
        omega (arith, total-update k g at x (omega arith), ap weight (update_other g at k x other))
    | yes e ↦ rw e (
        omega (
          arith,
          ap weight (update_same g k x),
          total_below k (update g k x) g
              (λ j below. update_other g k j x (λ eq. absurd (omega (arith, eq)))),
        ))
  ]

  pub total-le : (k : ℕ) (g : ℕ → A) → ((a : A) → weight a ≤ 1) → total k g ≤ k
  unfolding total
  total-le zero g light = omega arith
  total-le (suc k) g light = omega (arith, total-le k g light, light (g k))

  pub total-zero : (k : ℕ) (g : ℕ → A) → total k g ≡ 0 → (i : ℕ) → i < k → weight (g i) ≡ 0
  unfolding total
  total-zero zero g none_there i lt = absurd (omega arith)
  total-zero (suc k) g none_there i lt = elim (ℕ_discrete i k) [
    | yes e ↦ rw e (omega arith)
    | no ne ↦ total-zero k g (omega arith) i (omega arith)
  ]
