-- ===== src/Io/Line.antt =====
-- `read_line` and `read_line_masked` of src/io.c, over the characters that their calls of `read_char`
-- return; `none` is a call that still waits when they have run out.
use sky_net_os.Base.{
  none, some, length, take, ltb, leb, ℕ, Option, List, ◌-◌, ◌∷◌, ◌++◌, ◌&&◌, ◌==◌, [],
  if◌then◌else◌,
}
use sky_net_os.Io.Screen.{Console, print_char}

-- The first `i` characters of `buffer`, after the character `c`.
unfoldable pub edit_line : ℕ → List ℕ → List ℕ
edit_line c line =
    if c == 8
    then take (length line - 1) line
    else if leb 32 c && leb c 126
    then line ++ c ∷ []
    else line

-- What the console shows for the character `c`; `echo` is the character itself or an asterisk.
unfoldable pub echo_char : (ℕ → ℕ) → ℕ → List ℕ → Console → Console
echo_char echo c line s =
    if c == 10
    then print_char 10 s
    else if c == 8
    then (if ltb 0 (length line) then print_char 8 s else s)
    else if leb 32 c && leb c 126
    then print_char (echo c) s
    else s

-- What a call writes to `buffer` in the end: the text and its NUL byte, whatever `max_len` is. For a
-- `max_len` of 0 there is no room for the NUL byte.
unfoldable pub stored : List ℕ → List ℕ
stored line = line ++ 0 ∷ []

-- The text, of which `buffer` holds the bytes `stored`, the characters that are left, and the console.
abbrev pub Line : Type 0
Line = List ℕ × List ℕ × Console

-- The loop; `room` is `max_len - 1`.
unfoldable pub read_loop : (ℕ → ℕ) → ℕ → List ℕ → List ℕ → Console → Option Line
read_loop echo room [] line s = if ltb (length line) room then none else some (line, [], s)
read_loop echo room (c ∷ chars) line s =
    let shown = echo_char echo c line s in
    let rest = read_loop echo room chars (edit_line c line) shown in
    if ltb (length line) room
    then (if c == 10 then some (line, chars, shown) else rest)
    else some (line, c ∷ chars, s)

unfoldable pub read_line : ℕ → List ℕ → Console → Option Line
read_line max_len chars s = read_loop (λ c. c) (max_len - 1) chars [] s

unfoldable pub read_line_masked : ℕ → List ℕ → Console → Option Line
read_line_masked max_len chars s = read_loop (λ c. 42) (max_len - 1) chars [] s
