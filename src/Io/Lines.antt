-- ===== src/Io/Lines.antt =====
-- What `read_line` and `read_line_masked` of src/io.c return.
use sky_net_os.Base.{
  zero, suc, inl, inr, none, some, sym, subst, length, take, length-append, length-take, Bool-cases,
  ltb, leb, arith, if-true, if-false, ℕ, Option, List, ◌+◌, ◌-◌, ◌≤◌, ◌≡◌, ◌∷◌, ◌++◌, ◌&&◌, ◌==◌,
  [], if◌then◌else◌, ltb→lt, refl, true, false, Bool, ◌<◌,
}
use sky_net_os.Io.Line.{Line, edit_line, read_loop, read_line, echo_char, read_line_masked, stored}
use sky_net_os.Io.Screen.{Console}

-- Every character is printable.
abbrev pub Printable : List ℕ → Type 0
Printable [] = Unit
Printable (c ∷ l) = (32 ≤ c) × (c ≤ 126) × Printable l

-- The text of a call that returns has at most `room` characters, all printable.
abbrev Short : ℕ → Option Line → Type 0
Short room none = Unit
Short room (some (line, chars, s)) = (length line ≤ room) × Printable line

Printable-append : (l : List ℕ) (c : ℕ) → Printable l → 32 ≤ c → c ≤ 126 → Printable (l ++ c ∷ [])
Printable-append [] c h low high = (low, high, tt)
Printable-append (d ∷ l) c (a, b, h) low high = (a, b, Printable-append l c h low high)

Printable-take : (n : ℕ) (l : List ℕ) → Printable l → Printable (take n l)
Printable-take zero [] h = tt
Printable-take (suc n) [] h = tt
Printable-take zero (c ∷ l) h = tt
Printable-take (suc n) (c ∷ l) (a, b, h) = (a, b, Printable-take n l h)

edit_line-Printable : (c : ℕ) (line : List ℕ) → Printable line → Printable (edit_line c line)
unfolding edit_line
edit_line-Printable c line h = elim (Bool-cases (c == 8)) [
  | inl back ↦ subst Printable (sym (if-true _ _ back)) (Printable-take (length line - 1) line h)
  | inr other ↦
      subst Printable
        (sym (if-false _ (if leb 32 c && leb c 126 then line ++ c ∷ [] else line) other))
        (elim (Bool-cases (leb 32 c && leb c 126)) [
          | inl shown ↦
              subst Printable (sym (if-true _ line shown))
                (Printable-append line c h (ground arith) (ground arith))
          | inr hidden ↦ subst Printable (sym (if-false (line ++ c ∷ []) line hidden)) h
        ])
]

edit_line-length : (c : ℕ) (line : List ℕ) → length (edit_line c line) ≤ length line + 1
unfolding edit_line
edit_line-length c line =
    let shorter = length-take (length line - 1) line in
    let longer = length-append line (c ∷ []) in ground arith

read_loop-Short :
    (echo : ℕ → ℕ) (room : ℕ) (chars line : List ℕ) (s : Console)
    → length line ≤ room
    → Printable line
    → Short room (read_loop echo room chars line s)
unfolding read_loop
read_loop-Short echo room [] line s fits shown = elim (Bool-cases (ltb (length line) room)) [
  | inl more ↦ subst (Short room) (sym (if-true none (some (line, [], s)) more)) tt
  | inr full ↦ subst (Short room) (sym (if-false none (some (line, [], s)) full)) (fits, shown)
]
read_loop-Short echo room (c ∷ chars) line s fits shown =
    let after = echo_char echo c line s in
    let rest = read_loop echo room chars (edit_line c line) after in
    let longer = edit_line-length c line in
    elim (Bool-cases (ltb (length line) room)) [
      | inl more ↦
          let short = ltb→lt (length line) room more in
          subst (Short room) (sym (if-true _ (some (line, c ∷ chars, s)) more))
            (elim (Bool-cases (c == 10)) [
              | inl end ↦
                  subst (Short room) (sym (if-true (some (line, chars, after)) rest end))
                    (fits, shown)
              | inr inner ↦
                  subst (Short room) (sym (if-false (some (line, chars, after)) rest inner)) (
                    read_loop-Short echo room chars (edit_line c line) after (omega arith)
                      (edit_line-Printable c line shown))
            ])
      | inr full ↦
          subst (Short room)
            (sym (
              if-false (if c == 10 then some (line, chars, after) else rest)
                (some (line, c ∷ chars, s)) full))
            (fits, shown)
    ]

-- What a call that returns has written fits into `buffer`, and its text is printable.
abbrev pub LineFits : ℕ → Option Line → Type 0
LineFits max_len none = Unit
LineFits max_len (some (line, chars, s)) = (length (stored line) ≤ max_len) × Printable line

Short-LineFits :
    (max_len : ℕ) (o : Option Line) → 0 < max_len → Short (max_len - 1) o → LineFits max_len o
unfolding stored
Short-LineFits max_len none room h = tt
Short-LineFits max_len (some (line, chars, s)) room (short, shown) =
    (omega (arith, length-append line (0 ∷ [])), shown)

-- What `read_line` writes to its buffer when it returns, the text and the NUL byte, fits into it, and the
-- text has printable characters only, whatever is typed, for a buffer of at least one byte; the same
-- holds of `read_line_masked`.
pub read_line-LineFits :
    (max_len : ℕ) (chars : List ℕ) (s : Console)
    → 0 < max_len
    → LineFits max_len (read_line max_len chars s)
      × LineFits max_len (read_line_masked max_len chars s)
unfolding read_line read_line_masked
read_line-LineFits max_len chars s room = (
  Short-LineFits max_len _ room (read_loop-Short _ (max_len - 1) chars [] s (omega arith) tt),
  Short-LineFits max_len _ room (read_loop-Short _ (max_len - 1) chars [] s (omega arith) tt),
)

-- The call does not wait.
abbrev pub Ends : Option Line → Type 0
Ends o = (r : Line) × (o ≡ some r)

Ends-if : (b : Bool) (o p : Option Line) → Ends o → Ends p → Ends (if b then o else p)
Ends-if true o p first second = first
Ends-if false o p first second = second

read_loop-Ends :
    (echo : ℕ → ℕ) (room : ℕ) (before after line : List ℕ) (s : Console)
    → Ends (read_loop echo room (before ++ 10 ∷ after) line s)
unfolding read_loop
read_loop-Ends echo room [] after line s =
    let shown = echo_char echo 10 line s in
    Ends-if (ltb (length line) room) (some (line, after, shown)) (some (line, 10 ∷ after, s))
      ((line, after, shown), refl) ((line, 10 ∷ after, s), refl)
read_loop-Ends echo room (c ∷ before) after line s =
    let shown = echo_char echo c line s in
    let chars = before ++ 10 ∷ after in
    let rest = read_loop echo room chars (edit_line c line) shown in
    Ends-if (ltb (length line) room) (if c == 10 then some (line, chars, shown) else rest)
      (some (line, c ∷ chars, s))
      (Ends-if (c == 10) (some (line, chars, shown)) rest ((line, chars, shown), refl)
        (read_loop-Ends echo room before after (edit_line c line) shown))
      ((line, c ∷ chars, s), refl)

-- A call of `read_line` or of `read_line_masked` returns, once the characters typed have a newline.
pub read_line-Ends :
    (max_len : ℕ) (before after : List ℕ) (s : Console)
    → Ends (read_line max_len (before ++ 10 ∷ after) s)
      × Ends (read_line_masked max_len (before ++ 10 ∷ after) s)
unfolding read_line read_line_masked
read_line-Ends max_len before after s = (
  read_loop-Ends _ (max_len - 1) before after [] s,
  read_loop-Ends _ (max_len - 1) before after [] s,
)

-- The text of a result, and the characters that are left.
abbrev pub text_of : Option Line → Option (List ℕ × List ℕ)
text_of none = none
text_of (some (line, chars, s)) = some (line, chars)

text_of_if :
    (b : Bool) (o p q r : Option Line)
    → text_of o ≡ text_of q
    → text_of p ≡ text_of r
    → text_of (if b then o else p) ≡ text_of (if b then q else r)
text_of_if true o p q r first second = first
text_of_if false o p q r first second = second

-- The echo does not change the text.
read_loop-text_of :
    (echo other : ℕ → ℕ) (room : ℕ) (chars line : List ℕ) (s t : Console)
    → text_of (read_loop echo room chars line s) ≡ text_of (read_loop other room chars line t)
unfolding read_loop
read_loop-text_of echo other room [] line s t =
    text_of_if (ltb (length line) room) none (some (line, [], s)) none (some (line, [], t)) refl
      refl
read_loop-text_of echo other room (c ∷ chars) line s t =
    let shown = echo_char echo c line s in
    let hidden = echo_char other c line t in
    let rest = read_loop echo room chars (edit_line c line) shown in
    let last = read_loop other room chars (edit_line c line) hidden in
    text_of_if (ltb (length line) room) (if c == 10 then some (line, chars, shown) else rest)
      (some (line, c ∷ chars, s)) (if c == 10 then some (line, chars, hidden) else last)
      (some (line, c ∷ chars, t))
      (text_of_if (c == 10) (some (line, chars, shown)) rest (some (line, chars, hidden)) last refl
        (read_loop-text_of echo other room chars (edit_line c line) shown hidden))
      refl

-- For the same characters, `read_line_masked` returns the text that `read_line` returns and leaves the
-- same characters unread, or both wait: the mask changes the console only.
pub read_line_masked-text_of :
    (max_len : ℕ) (chars : List ℕ) (s : Console)
    → text_of (read_line_masked max_len chars s) ≡ text_of (read_line max_len chars s)
unfolding read_line read_line_masked
read_line_masked-text_of max_len chars s = read_loop-text_of _ _ (max_len - 1) chars [] s s
