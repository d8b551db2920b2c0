-- ===== src/Io/Keyboard.antt =====
-- The keyboard of src/io.c: the tables of scan codes and `read_char`. The scan codes that come from the
-- controller are a list; `none` is a call that still waits when the list has run out. The calls of
-- `system_tick` while it waits are left to the caller.
use sky_net_os.Base.{
  true, false, none, some, get_or, leb, codes, ℕ, Bool, Option, List, ◌∷◌, ◌||◌, ◌==◌, [],
  if◌then◌else◌,
}

unfoldable pub keymap : List ℕ
keymap =
    0 ∷ 27 ∷ 49 ∷ 50 ∷ 51 ∷ 52 ∷ 53 ∷ 54 ∷ 55 ∷ 56 ∷ 57 ∷ 48 ∷ 45 ∷ 61 ∷ 8 ∷ 9 ∷ 113 ∷ 119 ∷ 101
    ∷ 114 ∷ 116 ∷ 121 ∷ 117 ∷ 105 ∷ 111 ∷ 112 ∷ 91 ∷ 93 ∷ 10 ∷ 0 ∷ 97 ∷ 115 ∷ 100 ∷ 102 ∷ 103 ∷ 104
    ∷ 106 ∷ 107 ∷ 108 ∷ 59 ∷ 39 ∷ 96 ∷ 0 ∷ 92 ∷ 122 ∷ 120 ∷ 99 ∷ 118 ∷ 98 ∷ 110 ∷ 109 ∷ 44 ∷ 46 ∷ 47
    ∷ 0 ∷ 42 ∷ 0 ∷ 32 ∷ 0 ∷ 0 ∷ 0 ∷ 0 ∷ 0 ∷ 0 ∷ 0 ∷ 0 ∷ 0 ∷ 0 ∷ 0 ∷ 0 ∷ 0 ∷ 0 ∷ 0 ∷ 0 ∷ 45 ∷ 0 ∷ 0
    ∷ 0 ∷ 43 ∷ 0 ∷ 0 ∷ 0 ∷ 0 ∷ 0 ∷ 0 ∷ 0 ∷ 0 ∷ 0 ∷ 0 ∷ []

unfoldable pub keymap_shift : List ℕ
keymap_shift =
    0 ∷ 27 ∷ 33 ∷ 64 ∷ 35 ∷ 36 ∷ 37 ∷ 94 ∷ 38 ∷ 42 ∷ 40 ∷ 41 ∷ 95 ∷ 43 ∷ 8 ∷ 9 ∷ 81 ∷ 87 ∷ 69 ∷ 82
    ∷ 84 ∷ 89 ∷ 85 ∷ 73 ∷ 79 ∷ 80 ∷ 123 ∷ 125 ∷ 10 ∷ 0 ∷ 65 ∷ 83 ∷ 68 ∷ 70 ∷ 71 ∷ 72 ∷ 74 ∷ 75 ∷ 76
    ∷ 58 ∷ 34 ∷ 126 ∷ 0 ∷ 124 ∷ 90 ∷ 88 ∷ 67 ∷ 86 ∷ 66 ∷ 78 ∷ 77 ∷ 60 ∷ 62 ∷ 63 ∷ 0 ∷ 42 ∷ 0 ∷ 32
    ∷ 0 ∷ 0 ∷ 0 ∷ 0 ∷ 0 ∷ 0 ∷ 0 ∷ 0 ∷ 0 ∷ 0 ∷ 0 ∷ 0 ∷ 0 ∷ 0 ∷ 0 ∷ 0 ∷ 45 ∷ 0 ∷ 0 ∷ 0 ∷ 43 ∷ 0 ∷ 0
    ∷ 0 ∷ 0 ∷ 0 ∷ 0 ∷ 0 ∷ 0 ∷ 0 ∷ 0 ∷ []

-- What one round of `read_char` makes of a scan code, with `shift_held`: the new `shift_held`, and the
-- character, 0 where the loop goes on.
unfoldable pub on_key : ℕ → Bool → Bool × ℕ
on_key scancode shift_held =
    if scancode == 0x2A || scancode == 0x36
    then (true, 0)
    else if scancode == 0xAA || scancode == 0xB6
    then (false, 0)
    else if leb 0x80 scancode
    then (shift_held, 0)
    else (shift_held, get_or (if shift_held then keymap_shift else keymap) scancode 0)

-- The character, the codes that are left, and `shift_held`.
unfoldable pub read_char : List ℕ → Bool → Option (ℕ × List ℕ × Bool)
read_char [] shift_held = none
read_char (scancode ∷ codes) shift_held =
    let (held, c) = on_key scancode shift_held in
    let next = read_char codes held in if c == 0 then next else some (c, codes, held)
