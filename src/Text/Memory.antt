-- ===== src/Text/Memory.antt =====
-- The functions of src/string.c over memory, which is a byte for each address.
use sky_net_os.Base.{
  zero, suc, none, some, pos, not, update, ℕ, ℤ, Option, List, ◌+◌, ◌%◌, ◌<◌, ◌≡◌, ◌∷◌, ◌&&◌, ◌==◌,
  ◌-ℤ◌, [], if◌then◌else◌,
}

abbrev pub Memory : Type 0
Memory = ℕ → ℕ

-- The loops run `n` times.
unfoldable pub memset : ℕ → ℕ → ℕ → Memory → Memory
memset s c zero mem = mem
memset s c (suc n) mem = memset (s + 1) c n (update mem s (c % 256))

unfoldable pub memcpy : ℕ → ℕ → ℕ → Memory → Memory
memcpy dest src zero mem = mem
memcpy dest src (suc n) mem = memcpy (dest + 1) (src + 1) n (update mem dest (mem src))

-- The other loops run to a NUL byte; where none comes within the fuel, the result is `none`.
unfoldable pub strlen : ℕ → ℕ → Memory → Option ℕ
strlen zero s mem = none
strlen (suc fuel) s mem =
    let rest = strlen fuel (s + 1) mem in
    if mem s == 0 then some 0 else elim rest [ none ↦ none | some n ↦ some (n + 1) ]

unfoldable pub strcpy : ℕ → ℕ → ℕ → Memory → Option Memory
strcpy zero dest src mem = none
strcpy (suc fuel) dest src mem =
    let mem' = update mem dest (mem src) in
    let rest = strcpy fuel (dest + 1) (src + 1) mem' in if mem src == 0 then some mem' else rest

unfoldable pub strcmp : ℕ → ℕ → ℕ → Memory → Option ℤ
strcmp zero s1 s2 mem = none
strcmp (suc fuel) s1 s2 mem =
    let rest = strcmp fuel (s1 + 1) (s2 + 1) mem in
    if not (mem s1 == 0) && mem s1 == mem s2 then rest else some (pos (mem s1) -ℤ pos (mem s2))

-- `strncmp` needs no fuel: `n` bounds it.
unfoldable pub strncmp : ℕ → ℕ → ℕ → Memory → ℤ
strncmp s1 s2 zero mem = pos 0
strncmp s1 s2 (suc n) mem =
    let rest = strncmp (s1 + 1) (s2 + 1) n mem in
    if not (mem s1 == 0) && mem s1 == mem s2 then rest else pos (mem s1) -ℤ pos (mem s2)

-- `strncpy`: the text, and then NUL bytes.
unfoldable pub strncpy : ℕ → ℕ → ℕ → Memory → Memory
strncpy dest src zero mem = mem
strncpy dest src (suc n) mem =
    let filled = memset dest 0 (suc n) mem in
    let rest = strncpy (dest + 1) (src + 1) n (update mem dest (mem src)) in
    if mem src == 0 then filled else rest

-- At `p` stand the bytes of `l`, none of them NUL, and then a NUL byte.
abbrev pub Holds : Memory → ℕ → List ℕ → Type 0
Holds mem p [] = mem p ≡ 0
Holds mem p (c ∷ l) = (mem p ≡ c) × (0 < c) × Holds mem (p + 1) l
