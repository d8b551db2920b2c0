-- ===== src/Text/Sanitize.antt =====
-- `sanitize_input` of src/security.c. A `char` from 128 on is negative, and so it is not printable.
use sky_net_os.Base.{
  zero, suc, refl, inl, inr, none, some, sym, ap, take, Bool-cases, leb, arith, if-true, if-false,
  ℕ, Bool, Option, List, ◌-◌, ◌<◌, ◌≡◌, ◌⊎◌, ◌∙◌, ◌∷◌, ◌&&◌, ◌==◌, [], if◌then◌else◌,
}

-- `input[i] >= 32 && input[i] <= 126`
abbrev pub is_printable : ℕ → Bool
is_printable c = leb 32 c && leb c 126

-- The loop, with `room` bytes left in the output.
unfoldable pub sanitize_from : ℕ → List ℕ → List ℕ
sanitize_from room [] = []
sanitize_from zero (c ∷ input) = []
sanitize_from (suc room) (c ∷ input) =
    let kept = c ∷ sanitize_from room input in
    let skipped = sanitize_from (suc room) input in if is_printable c then kept else skipped

-- The output up to its NUL byte; `none` where the buffer is left alone.
unfoldable pub sanitize_input : List ℕ → ℕ → Option (List ℕ)
sanitize_input input max_length =
    if max_length == 0 then none else some (sanitize_from (max_length - 1) input)

-- The printable characters of a text.
unfoldable pub printable : List ℕ → List ℕ
printable [] = []
printable (c ∷ l) = let rest = printable l in if is_printable c then c ∷ rest else rest

sanitize_from-printable :
    (room : ℕ) (input : List ℕ) → sanitize_from room input ≡ take room (printable input)
unfolding sanitize_from printable
sanitize_from-printable zero [] = refl
sanitize_from-printable (suc room) [] = refl
sanitize_from-printable zero (c ∷ input) = refl
sanitize_from-printable (suc room) (c ∷ input) = elim (Bool-cases (is_printable c)) [
  | inl yes_kept ↦
      if-true _ _ yes_kept
      ∙ ap (λ l. c ∷ l) (sanitize_from-printable room input)
      ∙ sym (ap (take (suc room)) (if-true _ _ yes_kept))
  | inr no_kept ↦
      if-false _ _ no_kept
      ∙ sanitize_from-printable (suc room) input
      ∙ sym (ap (take (suc room)) (if-false _ _ no_kept))
]

-- sanitize_input writes the printable characters of the input in order, as many as fit in front of
-- the NUL byte, and leaves a buffer without room alone.
pub sanitize_input-printable :
    (input : List ℕ) (max_length : ℕ)
    → ((max_length ≡ 0) × (sanitize_input input max_length ≡ none))
      ⊎ ((0 < max_length)
          × (sanitize_input input max_length ≡ some (take (max_length - 1) (printable input))))
unfolding sanitize_input
sanitize_input-printable input max_length = elim (Bool-cases (max_length == 0)) [
  | inl none_there ↦ inl (ground arith, if-true _ _ none_there)
  | inr some_there ↦ inr (
    ground arith,
    if-false _ _ some_there ∙ ap some (sanitize_from-printable (max_length - 1) input),
  )
]
