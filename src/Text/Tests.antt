-- ===== src/Text/Tests.antt =====
-- Runs of the string functions (src/string.c, src/security.c) at concrete values.
use sky_net_os.Base.{
  refl, none, some, pos, get_or, take, arith, ℕ, ℤ, List, ◌<◌, ◌≡◌, ◌⊎◌, ◌↔◌, ◌∷◌, [],
}
use sky_net_os.Text.Memory.{Memory, Holds, strcmp}
use sky_net_os.Text.Sanitize.{sanitize_input, printable, sanitize_input-printable}
use sky_net_os.Text.Strings.{strcmp-zero}

abbrev hi : Memory
hi a = get_or (72 ∷ 105 ∷ 0 ∷ 72 ∷ 105 ∷ 0 ∷ []) a 0

hi-Holds : Holds hi 0 (72 ∷ 105 ∷ [])
hi-Holds = (refl, omega arith, (refl, omega arith, refl))

hi-Holds_again : Holds hi 3 (72 ∷ 105 ∷ [])
hi-Holds_again = (refl, omega arith, (refl, omega arith, refl))

strcmp-zero_example :
    (r : ℤ) × (strcmp 3 0 3 hi ≡ some r)
    × ((r ≡ pos 0) ↔ ◌≡◌ {A = List ℕ} (72 ∷ 105 ∷ []) (72 ∷ 105 ∷ []))
strcmp-zero_example =
    strcmp-zero 3 0 3 hi (72 ∷ 105 ∷ []) (72 ∷ 105 ∷ []) hi-Holds hi-Holds_again (omega arith)

sanitize_input-printable_example :
    ((◌≡◌ {A = ℕ} 3 0) × (sanitize_input (72 ∷ 7 ∷ 105 ∷ 33 ∷ []) 3 ≡ none))
    ⊎ ((0 < 3)
        × (sanitize_input (72 ∷ 7 ∷ 105 ∷ 33 ∷ []) 3
            ≡ some (take 2 (printable (72 ∷ 7 ∷ 105 ∷ 33 ∷ [])))))
sanitize_input-printable_example = sanitize_input-printable (72 ∷ 7 ∷ 105 ∷ 33 ∷ []) 3
