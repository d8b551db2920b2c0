-- ===== src/Text/Decimal.antt =====
-- The decimal digits that the loops of `print_int` in src/io.c and of `gui_draw_int` in src/gui.c put
-- into their buffers of 12 bytes.
use sky_net_os.Base.{zero, suc, ℕ, List, ◌+◌, ◌%◌, ◌/◌, ◌∷◌, ◌++◌, ◌==◌, [], if◌then◌else◌}

abbrev pub digit_bytes : ℕ
digit_bytes = 12

-- `while (n > 0) { buf[i++] = '0' + (n % 10); n /= 10; }`, for at most `fuel` rounds: the bytes of `buf`.
unfoldable pub low_digits : ℕ → ℕ → List ℕ
low_digits zero n = []
low_digits (suc fuel) n =
    let rest = (48 + n % 10) ∷ low_digits fuel (n / 10) in if n == 0 then [] else rest

-- The order in which `while (--i >= 0)` reads them.
unfoldable pub backwards : List ℕ → List ℕ
backwards [] = []
backwards (c ∷ l) = backwards l ++ c ∷ []
