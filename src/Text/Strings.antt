-- ===== src/Text/Strings.antt =====
-- Strings that end within the fuel: `strlen` and `strcmp` of src/string.c.
use native.Mathlib.Decide.{ℕ_discrete}
use sky_net_os.Base.{
  zero, suc, some, ap, pos, length, arith, if-true, if-false, ℕ, ℤ, List, ◌+◌, ◌<◌, ◌≡◌, ◌↔◌, ◌∙◌,
  ◌∷◌, [], refl, get_or, drop, int_laws, ◌-ℤ◌, parts_of_eq, true, false, not, ◌&&◌, ◌==◌,
}
use sky_net_os.Text.Memory.{strlen, strcmp, Memory, Holds}

-- strlen of a string is its length, where the fuel covers the string and its NUL byte.
pub strlen-length :
    (fuel s : ℕ) (mem : Memory) (l : List ℕ)
    → Holds mem s l
    → length l < fuel
    → strlen fuel s mem ≡ some (length l)
unfolding strlen
strlen-length zero s mem l h enough = absurd (omega arith)
strlen-length (suc fuel) s mem [] h enough =
    (let e : (mem s == 0) ≡ true = ground arith in if-true _ _ e)
strlen-length (suc fuel) s mem (c ∷ l) (here, some_byte, h) enough =
    (let e : (mem s == 0) ≡ false = ground arith in if-false _ _ e)
    ∙ rw (strlen-length fuel (s + 1) mem l h (omega arith)) (ap some (omega arith))

-- What is returned where the two characters differ, or end the strings.
zero_iff : (c d : ℕ) → (pos c -ℤ pos d ≡ pos 0) ↔ (c ≡ d)
zero_iff c d = (λ e. omega (int_laws, parts_of_eq e), λ e. omega (int_laws, e))

cons_iff : (x y : ℕ) (a b : List ℕ) → x ≡ y → (a ≡ b) ↔ (x ∷ a ≡ y ∷ b)
cons_iff x y a b e = (λ h i. e i ∷ h i, λ h. ap (drop 1) h)

-- Where the loop stops at different characters, the strings differ.
stopped : (c d : ℕ) (a b : List ℕ) → ((c ≡ d) ↔ (a ≡ b)) → (pos c -ℤ pos d ≡ pos 0) ↔ (a ≡ b)
stopped c d a b iff = (λ e. iff.0 ((zero_iff c d).0 e), λ e. (zero_iff c d).1 (iff.1 e))

-- strcmp of two strings returns, where the fuel covers the first one and its NUL byte, and it returns
-- 0 exactly where they are equal.
pub strcmp-zero :
    (fuel s1 s2 : ℕ) (mem : Memory) (a b : List ℕ)
    → Holds mem s1 a
    → Holds mem s2 b
    → length a < fuel
    → (r : ℤ) × (strcmp fuel s1 s2 mem ≡ some r) × ((r ≡ pos 0) ↔ (a ≡ b))
unfolding strcmp
strcmp-zero zero s1 s2 mem a b h k enough = absurd (omega arith)
strcmp-zero (suc fuel) s1 s2 mem [] [] h k enough = (
  _,
  (let e : (not (mem s1 == 0) && (mem s1 == mem s2)) ≡ false = ground arith in if-false _ _ e),
  stopped (mem s1) (mem s2) [] [] (λ e. refl, λ e. omega arith),
)
strcmp-zero (suc fuel) s1 s2 mem [] (y ∷ b) h (k, some_byte, ks) enough = (
  _,
  (let e : (not (mem s1 == 0) && (mem s1 == mem s2)) ≡ false = ground arith in if-false _ _ e),
  stopped (mem s1) (mem s2) [] (y ∷ b)
      (λ e. absurd (omega arith), λ e. absurd (omega (arith, ap length e))),
)
strcmp-zero (suc fuel) s1 s2 mem (x ∷ a) [] (h, some_byte, hs) k enough = (
  _,
  (let e : (not (mem s1 == 0) && (mem s1 == mem s2)) ≡ false = ground arith in if-false _ _ e),
  stopped (mem s1) (mem s2) (x ∷ a) []
      (λ e. absurd (omega arith), λ e. absurd (omega (arith, ap length e))),
)
strcmp-zero (suc fuel) s1 s2 mem (x ∷ a) (y ∷ b) (h, some_byte, hs) (k, other_byte, ks) enough =
    elim (ℕ_discrete x y) [
      | yes e ↦
          let (r, run, iff) = strcmp-zero fuel (s1 + 1) (s2 + 1) mem a b hs ks (omega arith) in
          let both = cons_iff x y a b e in
          (
            r,
            (let e' : (not (mem s1 == 0) && (mem s1 == mem s2)) ≡ true = ground arith in
                  if-true _ _ e')
                ∙ run,
            (λ z. both.0 (iff.0 z), λ z. iff.1 (both.1 z)),
          )
      | no ne ↦ (
        _,
        (let e : (not (mem s1 == 0) && (mem s1 == mem s2)) ≡ false = ground arith in
            if-false _ _ e),
        stopped (mem s1) (mem s2) (x ∷ a) (y ∷ b)
            (λ e. absurd (ne (omega arith)), λ e. absurd (ne (ap (λ l. get_or l 0 0) e))),
      )
    ]
