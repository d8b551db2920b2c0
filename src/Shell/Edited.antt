-- ===== src/Shell/Edited.antt =====
-- What the editor of src/shell.c keeps of the lines that are typed.
use sky_net_os.Base.{
  false, length, length-append, ltb, arith, if-either, codes, same_text, ℕ, List, ◌+◌, ◌<◌, ◌≡◌,
  ◌∷◌, ◌++◌, [], ltb→lt, true, sym, ap, append-nil, append_assoc, if-true, if-false, same_text_refl,
  ◌∙◌, lt→ltb,
}
use sky_net_os.Shell.Editor.{edit_bytes, edit_lines}
use sky_net_os.Shell.Texts.{Piece}

-- The lines with a newline after each.
unfoldable pub join_lines : List (List ℕ) → List ℕ
join_lines [] = []
join_lines (line ∷ lines) = line ++ 10 ∷ join_lines lines

-- No line ends the editor.
abbrev pub NoEnd : List (List ℕ) → Type 0
NoEnd [] = Unit
NoEnd (line ∷ lines) = (same_text line (codes ":wq") ≡ false) × NoEnd lines

longer :
    (buffer line : List ℕ)
    → length buffer + length line + 1 < edit_bytes
    → length (buffer ++ line ++ 10 ∷ []) < edit_bytes
longer buffer line fits =
    let whole = length-append (buffer ++ line) (10 ∷ []) in
    let front = length-append buffer line in omega arith

edit_lines-below :
    (lines : List (List ℕ)) (buffer : List ℕ)
    → length buffer < edit_bytes
    → length (edit_lines lines buffer).0 < edit_bytes
unfolding edit_lines
edit_lines-below [] buffer low = low
edit_lines-below (line ∷ lines) buffer low =
    if-either (λ (r : List ℕ × List Piece). length r.0 < edit_bytes) (same_text line (codes ":wq"))
      (buffer, []) _ (λ end. low)
      (λ more. edit_lines-below lines _ (
        if-either (λ l. length l < edit_bytes) (ltb (length buffer + length line + 1) edit_bytes)
          (buffer ++ line ++ 10 ∷ []) buffer (λ fits. longer buffer line (ltb→lt _ _ fits))
          (λ full. low)))

edit_lines-join :
    (lines : List (List ℕ)) (rest : List (List ℕ)) (buffer : List ℕ)
    → NoEnd lines
    → length buffer + length (join_lines lines) < edit_bytes
    → (edit_lines (lines ++ codes ":wq" ∷ rest) buffer).0 ≡ buffer ++ join_lines lines
unfolding edit_lines join_lines
edit_lines-join [] rest buffer h low =
    ap (λ (r : List ℕ × List Piece). r.0) (if-true (buffer, []) _ (same_text_refl (codes ":wq")))
    ∙ sym (append-nil buffer)
edit_lines-join (line ∷ lines) rest buffer (typed, h) low =
    let size = length-append line (10 ∷ join_lines lines) in
    let added = length-append (buffer ++ line) (10 ∷ []) in
    let one = length-append buffer line in
    let fits : ltb (length buffer + length line + 1) edit_bytes ≡ true = lt→ltb _ _ (omega arith) in
    ap (λ (r : List ℕ × List Piece). r.0) (if-false (buffer, []) _ typed)
    ∙ ap (λ l. (edit_lines (lines ++ codes ":wq" ∷ rest) l).0)
        (if-true (buffer ++ line ++ 10 ∷ []) buffer fits)
    ∙ edit_lines-join lines rest (buffer ++ line ++ 10 ∷ []) h (omega arith)
    ∙ append_assoc (buffer ++ line) (10 ∷ []) (join_lines lines)
    ∙ append_assoc buffer line (10 ∷ join_lines lines)

-- The editor's buffer ends as the old text and the lines typed before ":wq", each with a newline, where
-- they are shorter than 4096 bytes; and whatever is typed, it stays below 4096 bytes, from an old text
-- that is.
pub edit_lines-join_lines :
    (lines rest : List (List ℕ)) (old : List ℕ)
    → length old < edit_bytes
    → (length (edit_lines lines old).0 < edit_bytes)
      × (NoEnd lines
          → length old + length (join_lines lines) < edit_bytes
          → (edit_lines (lines ++ codes ":wq" ∷ rest) old).0 ≡ old ++ join_lines lines)
edit_lines-join_lines lines rest old low =
    (edit_lines-below lines old low, edit_lines-join lines rest old)
