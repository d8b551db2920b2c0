-- ===== src/Desktop/Terminal.antt =====
-- The terminal of src/gui.c: its text buffer, a character for each row and column, and the cursor.
use sky_net_os.Base.{
  zero, suc, done, fault, length, drop, ltb, leb, update, Outcome, ℕ, List, ◌+◌, ◌-◌, ◌*◌, ◌/◌, ◌∷◌,
  ◌&&◌, ◌||◌, ◌==◌, [], if◌then◌else◌, ◌>>=◌,
}

abbrev pub term_cols : ℕ
term_cols = 52

abbrev pub term_buf_rows : ℕ
term_buf_rows = 40

-- `term_buf`, `term_cur_row`, `term_cur_col`, and the first `term_input_len` characters of `term_input`.
pub record Terminal : Type 0 where
  pub buf : ℕ → ℕ → ℕ
  pub cur_row : ℕ
  pub cur_col : ℕ
  pub input : List ℕ

-- The loops that move every row up by one and clear the last one.
unfoldable pub scroll_buf : (ℕ → ℕ → ℕ) → ℕ → ℕ → ℕ
scroll_buf buf row col =
    if leb col term_cols
    then (if ltb row (term_buf_rows - 1)
        then buf (row + 1) col
        else if row == term_buf_rows - 1
        then 0
        else buf row col)
    else buf row col

-- The scrolling of `gui_term_putchar`.
unfoldable pub scroll_if_full : Terminal → Terminal
scroll_if_full t =
    if leb term_buf_rows t.cur_row
    then record t { buf = scroll_buf t.buf; cur_row = term_buf_rows - 1 }
    else t

-- The line break where the cursor is past the last column.
unfoldable pub wrap_line : Terminal → Terminal
wrap_line t =
    if leb term_cols t.cur_col then record t { cur_col = 0; cur_row = t.cur_row + 1 } else t

-- `term_buf[term_cur_row][term_cur_col++] = c`, a fault outside the array.
unfoldable pub put_at_cursor : ℕ → Terminal → Outcome Terminal
put_at_cursor c t =
    if ltb t.cur_row term_buf_rows && leb t.cur_col term_cols
    then done (record t {
      buf = update t.buf t.cur_row (update (t.buf t.cur_row) t.cur_col c);
      cur_col = t.cur_col + 1;
    })
    else fault

unfoldable pub gui_term_putchar : ℕ → Terminal → Outcome Terminal
gui_term_putchar c t =
    let newline = done (scroll_if_full (record t { cur_col = 0; cur_row = t.cur_row + 1 })) in
    let tab = done (scroll_if_full (wrap_line (record t { cur_col = (t.cur_col + 4) / 4 * 4 }))) in
    let other = done (scroll_if_full t) in
    if c == 10 || c == 13
    then newline
    else if c == 9
    then tab
    else if leb 32 c && leb c 126
    then (do t' ← put_at_cursor c (scroll_if_full (wrap_line t)); done (scroll_if_full t'))
    else other

unfoldable pub term_clear : Terminal → Terminal
term_clear t = record {
  buf = λ row col. if ltb row term_buf_rows && leb col term_cols then 0 else t.buf row col;
  cur_row = 0;
  cur_col = 0;
  input = [];
}

-- `gui_term_print` for a text, up to its NUL byte: the multi-byte characters of UTF-8 are skipped.
unfoldable pub gui_term_print : ℕ → List ℕ → Terminal → Outcome Terminal
gui_term_print fuel [] t = done t
gui_term_print zero (c ∷ l) t = fault
gui_term_print (suc fuel) (c ∷ l) t =
    let next : ℕ → Outcome Terminal = λ n. gui_term_print fuel (drop n l) t in
    if leb 0xE0 c && leb c 0xEF && leb 2 (length l)
    then next 2
    else if leb 0xC0 c && leb c 0xDF && leb 1 (length l)
    then next 1
    else if leb 0xF0 c && leb 3 (length l)
    then next 3
    else (do t' ← gui_term_putchar c t; gui_term_print fuel l t')
