-- ===== src/Text/Copies.antt =====
-- Where src/string.c writes.
use native.Mathlib.Decide.{ℕ_discrete}
use sky_net_os.Base.{
  zero, suc, ltb, leb, arith, update, ℕ, ◌+◌, ◌-◌, ◌%◌, ◌≤◌, ◌≡◌, ◌⊎◌, ◌∙◌, ◌&&◌, if◌then◌else◌,
  inl, inr, true, false, sym, ap, subst, update_other, update_same, Bool-cases, if-true, if-false,
  ◌<◌,
}
use sky_net_os.Text.Memory.{memset, memcpy, Memory}

-- memset writes the byte on the `n` addresses from `s` on, and nowhere else.
pub memset-bytes :
    (s c n : ℕ) (mem : Memory) (a : ℕ)
    → memset s c n mem a ≡ (if leb s a && ltb a (s + n) then c % 256 else mem a)
unfolding memset
memset-bytes s c zero mem a = ground arith
memset-bytes s c (suc n) mem a = memset-bytes (s + 1) c n (update mem s (c % 256)) a ∙ ground arith

moved :
    (dest src n : ℕ)
    → (dest + suc n ≤ src) ⊎ (src + suc n ≤ dest)
    → (dest + 1 + n ≤ src + 1) ⊎ (src + 1 + n ≤ dest + 1)
moved dest src n (inl h) = inl (omega arith)
moved dest src n (inr h) = inr (omega arith)

-- memcpy between ranges that do not overlap copies the `n` bytes, and writes nowhere else.
pub memcpy-bytes :
    (dest src n : ℕ) (mem : Memory) (a : ℕ)
    → (dest + n ≤ src) ⊎ (src + n ≤ dest)
    → memcpy dest src n mem a
      ≡ (if leb dest a && ltb a (dest + n) then mem (src + (a - dest)) else mem a)
unfolding memcpy
memcpy-bytes dest src zero mem a apart = ground arith
memcpy-bytes dest src (suc n) mem a apart =
    let mem' = update mem dest (mem src) in
    let ih = memcpy-bytes (dest + 1) (src + 1) n mem' a (moved dest src n apart) in
    elim (Bool-cases (leb (dest + 1) a && ltb a (dest + 1 + n))) [
      | inl inside ↦
          let after : dest < a = ground arith in
          let before : a < dest + suc n = ground arith in
          let within : (leb dest a && ltb a (dest + suc n)) ≡ true = ground arith in
          ih
          ∙ if-true _ _ inside
          ∙ update_other mem dest (src + 1 + (a - (dest + 1))) (mem src) (λ e. ground arith)
          ∙ ap mem (omega arith)
          ∙ sym (if-true _ _ within)
      | inr outside ↦ ih ∙ if-false _ _ outside ∙ elim (ℕ_discrete dest a) [
        | yes e ↦
            let within : (leb dest a && ltb a (dest + suc n)) ≡ true = ground arith in
            subst (λ x. update mem dest (mem src) x ≡ mem (src + (x - dest))) e
              (update_same mem dest (mem src) ∙ ap mem (omega arith))
            ∙ sym (if-true _ _ within)
        | no ne ↦
            let beyond : (leb dest a && ltb a (dest + suc n)) ≡ false = ground arith in
            update_other mem dest a (mem src) ne ∙ sym (if-false _ _ beyond)
      ]
    ]
