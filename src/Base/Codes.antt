-- ===== src/Base/Codes.antt =====
-- Text literals of the source as the bytes of a C string, without the NUL byte (ASCII only).
use Prim.Native.Nat.{ℕ}
use mathlib.Core.Path.{◌≡◌, refl, ap₂}
use mathlib.Core.Bool.{Bool, true, false, ◌&&◌}
use native.Mathlib.Omega.{arith}
use sky_net_os.Base.Tests.{◌==◌}
use Prim.Native.Char.{code}
use Prim.Native.String.{String}
use mathlib.Core.List.{List, [], ◌∷◌}

abbrev pub codes : String → List ℕ
codes String.[] = []
codes (String.◌∷◌ c s) = code c ∷ codes s

-- `strcmp(a, b) == 0` for the texts of two C strings: that this is what `strcmp` computes is proved in
-- Text/Strings.
unfoldable pub same_text : List ℕ → List ℕ → Bool
same_text [] [] = true
same_text [] (d ∷ b) = false
same_text (c ∷ a) [] = false
same_text (c ∷ a) (d ∷ b) = c == d && same_text a b

pub same_text-eq : (a b : List ℕ) → same_text a b ≡ true → a ≡ b
unfolding same_text
same_text-eq [] [] h = refl
same_text-eq [] (d ∷ b) h = ground arith
same_text-eq (c ∷ a) [] h = ground arith
same_text-eq (c ∷ a) (d ∷ b) h =
    let e : c ≡ d = ground arith in
    let rest : same_text a b ≡ true = ground arith in ap₂ (λ x l. x ∷ l) e (same_text-eq a b rest)

pub same_text_refl : (a : List ℕ) → same_text a a ≡ true
unfolding same_text
same_text_refl [] = refl
same_text_refl (c ∷ a) = let rest = same_text_refl a in ground arith
