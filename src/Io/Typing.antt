-- ===== src/Io/Typing.antt =====
-- What `read_line` and `read_line_masked` of src/io.c return for a line that is typed without a slip.
use sky_net_os.Base.{
  true, false, some, sym, ap, append-nil, append_assoc, length, length-append, ltb, leb, arith,
  if-true, if-false, ℕ, List, ◌+◌, ◌-◌, ◌≤◌, ◌<◌, ◌≡◌, ◌∙◌, ◌∷◌, ◌++◌, ◌&&◌, ◌==◌, [],
  if◌then◌else◌,
}
use sky_net_os.Io.Line.{edit_line, read_loop, read_line, read_line_masked, echo_char}
use sky_net_os.Io.Screen.{Console}
use sky_net_os.Io.Lines.{Printable, text_of}

edit_line-append : (c : ℕ) (line : List ℕ) → 32 ≤ c → c ≤ 126 → edit_line c line ≡ line ++ c ∷ []
unfolding edit_line
edit_line-append c line low high =
    if-false {b = c == 8} _ _ (ground arith)
    ∙ if-true {b = leb 32 c && leb c 126} _ line (ground arith)

-- A printable text that fits the buffer and a newline give that text, and leave what comes after.
read_loop-Printable :
    (echo : ℕ → ℕ) (room : ℕ) (text after line : List ℕ) (s : Console)
    → Printable text
    → length line + length text < room
    → text_of (read_loop echo room (text ++ 10 ∷ after) line s) ≡ some (line ++ text, after)
unfolding read_loop
read_loop-Printable echo room [] after line s h fits =
    let more : ltb (length line) room ≡ true = ground arith in
    ap text_of (if-true _ (some (line, 10 ∷ after, s)) more)
    ∙ ap (λ l. some (l, after)) (sym (append-nil line))
read_loop-Printable echo room (c ∷ text) after line s (low, high, h) fits =
    let shown = echo_char echo c line s in
    let chars = text ++ 10 ∷ after in
    let more : ltb (length line) room ≡ true = ground arith in
    let inner : (c == 10) ≡ false = ground arith in
    let longer = edit_line-append c line low high in
    let size = length-append line (c ∷ []) in
    ap text_of (
      if-true
        (if c == 10
          then some (line, chars, shown)
          else read_loop echo room chars (edit_line c line) shown)
        (some (line, c ∷ chars, s)) more
      ∙ if-false (some (line, chars, shown)) _ inner)
    ∙ ap (λ l. text_of (read_loop echo room chars l shown)) longer
    ∙ read_loop-Printable echo room text after (line ++ c ∷ []) shown h (omega arith)
    ∙ ap (λ l. some (l, after)) (append_assoc line (c ∷ []) text)

-- A printable text shorter than the room of the buffer, typed with a newline, is the text that read_line
-- and read_line_masked return; what is typed after it is left.
pub read_line-Printable :
    (max_len : ℕ) (text after : List ℕ) (s : Console)
    → Printable text
    → length text < max_len - 1
    → (text_of (read_line max_len (text ++ 10 ∷ after) s) ≡ some (text, after))
      × (text_of (read_line_masked max_len (text ++ 10 ∷ after) s) ≡ some (text, after))
unfolding read_line read_line_masked
read_line-Printable max_len text after s h fits = (
  read_loop-Printable _ (max_len - 1) text after [] s h (omega arith),
  read_loop-Printable _ (max_len - 1) text after [] s h (omega arith),
)
