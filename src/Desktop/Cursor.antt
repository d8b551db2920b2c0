-- ===== src/Desktop/Cursor.antt =====
-- The cursor of the terminal (src/gui.c) stays inside the text buffer.
use sky_net_os.Base.{
  inl, inr, true, sym, ap, subst, fault, Bool-cases, Returns-bind, ltb, leb, arith, if-true,
  if-false, Returns, ℕ, ◌+◌, ◌*◌, ◌/◌, ◌≤◌, ◌<◌, ◌≡◌, ◌&&◌, ◌||◌, ◌==◌, zero, suc, length, drop,
  length-drop, List, ◌∷◌, [],
}
use sky_net_os.Desktop.Terminal.{
  Terminal, scroll_if_full, wrap_line, put_at_cursor, gui_term_putchar, term_buf_rows, term_cols,
  gui_term_print,
}

-- Between calls the cursor is on a row of the buffer, and at most behind its last column.
pub record InBuffer (t : Terminal) : Type 0 where
  pub row : t.cur_row < term_buf_rows
  pub col : t.cur_col ≤ term_cols

scroll_if_full-InBuffer : (t : Terminal) → t.cur_col ≤ term_cols → InBuffer (scroll_if_full t)
unfolding scroll_if_full
scroll_if_full-InBuffer t h = elim (Bool-cases (leb term_buf_rows t.cur_row)) [
  | inl full ↦ subst InBuffer (sym (if-true _ t full)) (record { row = omega arith; col = h })
  | inr room ↦ subst InBuffer (sym (if-false _ t room)) (record { row = ground arith; col = h })
]

wrap_line-col : (t : Terminal) → (wrap_line t).cur_col < term_cols
unfolding wrap_line
wrap_line-col t = elim (Bool-cases (leb term_cols t.cur_col)) [
  | inl full ↦ subst (λ x. x.cur_col < term_cols) (sym (if-true _ t full)) (omega arith)
  | inr room ↦ subst (λ x. x.cur_col < term_cols) (sym (if-false _ t room)) (ground arith)
]

scroll_if_full-col : (t : Terminal) → (scroll_if_full t).cur_col ≡ t.cur_col
unfolding scroll_if_full
scroll_if_full-col t = elim (Bool-cases (leb term_buf_rows t.cur_row)) [
  | inl full ↦ ap (λ x. x.cur_col) (if-true _ t full)
  | inr room ↦ ap (λ x. x.cur_col) (if-false _ t room)
]

put_at_cursor-InBuffer :
    (c : ℕ) (t : Terminal)
    → InBuffer t
    → t.cur_col < term_cols
    → Returns (λ t'. t'.cur_col ≤ term_cols) (put_at_cursor c t)
unfolding put_at_cursor
put_at_cursor-InBuffer c t v lt =
    let inside : (ltb t.cur_row term_buf_rows && leb t.cur_col term_cols) ≡ true =
      ground (arith, v.row, v.col) in
    subst (Returns (λ t'. t'.cur_col ≤ term_cols)) (sym (if-true _ fault inside)) (omega arith)

-- gui_term_putchar of any character, with the cursor in the buffer, returns with the cursor in the
-- buffer, and never writes outside the buffer.
pub gui_term_putchar-InBuffer :
    (c : ℕ) (t : Terminal) → InBuffer t → Returns InBuffer (gui_term_putchar c t)
unfolding gui_term_putchar
gui_term_putchar-InBuffer c t v = elim (Bool-cases (c == 10 || c == 13)) [
  | inl a ↦ subst (Returns InBuffer) (sym (if-true _ _ a)) (scroll_if_full-InBuffer _ (omega arith))
  | inr a ↦ subst (Returns InBuffer) (sym (if-false _ _ a)) (elim (Bool-cases (c == 9)) [
    | inl b ↦ subst (Returns InBuffer) (sym (if-true _ _ b)) (
        scroll_if_full-InBuffer _
          (omega (arith, wrap_line-col (record t { cur_col = (t.cur_col + 4) / 4 * 4 }))))
    | inr b ↦
        subst (Returns InBuffer) (sym (if-false _ _ b)) (elim (Bool-cases (leb 32 c && leb c 126)) [
          | inl p ↦
              let t' = scroll_if_full (wrap_line t) in
              let room : t'.cur_col < term_cols =
                omega (arith, wrap_line-col t, scroll_if_full-col (wrap_line t)) in
              subst (Returns InBuffer) (sym (if-true _ _ p)) (
                Returns-bind (λ x. x.cur_col ≤ term_cols) InBuffer (put_at_cursor c t') _
                  (put_at_cursor-InBuffer c t'
                    (scroll_if_full-InBuffer (wrap_line t) (omega (arith, wrap_line-col t))) room)
                  (λ x h. scroll_if_full-InBuffer x h))
          | inr p ↦
              subst (Returns InBuffer) (sym (if-false _ _ p)) (scroll_if_full-InBuffer t v.col)
        ])
  ])
]

-- gui_term_print of any text, with the cursor in the buffer, returns with the cursor in the buffer,
-- and never writes outside the buffer, where the fuel is at least the length of the text.
pub gui_term_print-InBuffer :
    (fuel : ℕ) (l : List ℕ) (t : Terminal)
    → InBuffer t
    → length l ≤ fuel
    → Returns InBuffer (gui_term_print fuel l t)
unfolding gui_term_print
gui_term_print-InBuffer fuel [] t v enough = v
gui_term_print-InBuffer zero (c ∷ l) t v enough = absurd (omega arith)
gui_term_print-InBuffer (suc fuel) (c ∷ l) t v enough =
    let skip : (n : ℕ) → Returns InBuffer (gui_term_print fuel (drop n l) t) =
      λ n. gui_term_print-InBuffer fuel (drop n l) t v (omega (arith, length-drop n l)) in
    elim (Bool-cases (leb 0xE0 c && leb c 0xEF && leb 2 (length l))) [
      | inl three ↦ subst (Returns InBuffer) (sym (if-true _ _ three)) (skip 2)
      | inr a ↦
          subst (Returns InBuffer) (sym (if-false _ _ a))
            (elim (Bool-cases (leb 0xC0 c && leb c 0xDF && leb 1 (length l))) [
              | inl two ↦ subst (Returns InBuffer) (sym (if-true _ _ two)) (skip 1)
              | inr b ↦
                  subst (Returns InBuffer) (sym (if-false _ _ b))
                    (elim (Bool-cases (leb 0xF0 c && leb 3 (length l))) [
                      | inl four ↦ subst (Returns InBuffer) (sym (if-true _ _ four)) (skip 3)
                      | inr d ↦ subst (Returns InBuffer) (sym (if-false _ _ d)) (
                          Returns-bind InBuffer InBuffer (gui_term_putchar c t)
                            (λ t'. gui_term_print fuel l t') (gui_term_putchar-InBuffer c t v)
                            (λ t' v'. gui_term_print-InBuffer fuel l t' v' (omega arith)))
                    ])
            ])
    ]
