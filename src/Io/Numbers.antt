-- ===== src/Io/Numbers.antt =====
-- The characters of `print_int` in src/io.c are the decimal notation of its number.
use sky_net_os.Base.{pos, ℕ, ℤ, List, ◌+◌, ◌-◌, ◌*◌, ◌≤◌, ◌∷◌, ◌==◌, ◌-ℤ◌, [], if◌then◌else◌}

-- The number that decimal digits denote, the lowest one first.
low_value : List ℕ → ℕ
low_value [] = 0
low_value (c ∷ l) = c - 48 + 10 * low_value l

-- The number that decimal digits denote after a number `acc`, the highest one first.
unfoldable pub read_digits : ℕ → List ℕ → ℕ
read_digits acc [] = acc
read_digits acc (c ∷ l) = read_digits (10 * acc + (c - 48)) l

-- The number that a text denotes: decimal digits after a minus sign, or without one.
unfoldable pub read_int : List ℕ → ℤ
read_int [] = pos 0
read_int (c ∷ l) = if c == 45 then pos 0 -ℤ pos (read_digits 0 l) else pos (read_digits 0 (c ∷ l))

-- Every character of the text is a decimal digit.
abbrev pub AllDigits : List ℕ → Type 0
AllDigits [] = Unit
AllDigits (c ∷ l) = (48 ≤ c) × (c ≤ 57) × AllDigits l
