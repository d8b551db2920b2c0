-- ===== src/Desktop/Inside.antt =====
-- The drawing of src/gui.c writes to the 800 * 600 bytes of the frame buffer only.
use sky_net_os.Base.{
  zero, suc, refl, inl, inr, ap, pos, Bool-cases, if-true, if-false, ℕ, ℤ, List, ◌-◌, ◌*◌, ◌≤◌, ◌≡◌,
  ◌∙◌, ◌∷◌, ◌+ℤ◌, [], min, ◌+◌,
}
use sky_net_os.Vga.Pixels.{Buffer, vga_width, vga_height}
use sky_net_os.Desktop.Draw.{gui_draw_cursor, cursor_data}
use sky_net_os.Desktop.Windows.{sysmon, about, terminal, generic, Gui, Window, WindowType}
use sky_net_os.Desktop.Contents.{
  gui_draw_sysmon_content, gui_draw_about_content, draw_rows, draw_input, gui_draw_terminal_content,
  draw_kind, draw_stack, gui_full_render, row_fits, term_row, first_row,
}
use sky_net_os.Desktop.Terminal.{Terminal, term_buf_rows}
use sky_net_os.Desktop.Drawn.{
  AllKeep, Keeps, cursor_rows-Keeps, draw_all-Keeps, gui_draw_string-Keeps, keep_if,
  gui_draw_desktop-Keeps, vga_fill_rect-Keeps, gui_draw_char-Keeps, gui_draw_window-Keeps,
}

gui_draw_sysmon_content-Keeps : (win : Window) → Keeps (gui_draw_sysmon_content win)
unfolding gui_draw_sysmon_content AllKeep
gui_draw_sysmon_content-Keeps win = draw_all-Keeps _ (
  gui_draw_string-Keeps _ _ _ _,
  (
    vga_fill_rect-Keeps _ _ _ _ _,
    (
      gui_draw_string-Keeps _ _ _ _,
      (
        gui_draw_string-Keeps _ _ _ _,
        (
          gui_draw_string-Keeps _ _ _ _,
          (
            gui_draw_string-Keeps _ _ _ _,
            (gui_draw_string-Keeps _ _ _ _, (gui_draw_string-Keeps _ _ _ _, tt)),
          ),
        ),
      ),
    ),
  ),
)

gui_draw_about_content-Keeps : (win : Window) → Keeps (gui_draw_about_content win)
unfolding gui_draw_about_content AllKeep
gui_draw_about_content-Keeps win = draw_all-Keeps _ (
  gui_draw_string-Keeps _ _ _ _,
  (
    vga_fill_rect-Keeps _ _ _ _ _,
    (
      gui_draw_string-Keeps _ _ _ _,
      (
        gui_draw_string-Keeps _ _ _ _,
        (
          gui_draw_string-Keeps _ _ _ _,
          (gui_draw_string-Keeps _ _ _ _, (gui_draw_string-Keeps _ _ _ _, tt)),
        ),
      ),
    ),
  ),
)

draw_rows-Keeps :
    (win : Window) (t : Terminal) (n r : ℕ) (cy : ℤ) → Keeps (λ fb. (draw_rows win t n r cy fb).1)
unfolding draw_rows
draw_rows-Keeps win t zero r cy fb a out = refl
draw_rows-Keeps win t (suc n) r cy fb a out = elim (Bool-cases (row_fits cy win)) [
  | inl fits ↦
      ap (λ (p : ℤ × Buffer). p.1 a) (if-true _ (cy, fb) fits)
      ∙ draw_rows-Keeps win t n (r + 1) (cy +ℤ pos 9) _ a out
      ∙ gui_draw_string-Keeps (win.x +ℤ pos 4) cy (term_row r t) 2 fb a out
  | inr full ↦ ap (λ (p : ℤ × Buffer). p.1 a) (if-false _ (cy, fb) full)
]

draw_input-Keeps : (win : Window) (t : Terminal) (cy : ℤ) → Keeps (draw_input win t cy)
unfolding draw_input AllKeep
draw_input-Keeps win t cy fb a out = keep_if (row_fits cy win) _ fb a (
    draw_all-Keeps _
      (
        gui_draw_string-Keeps _ _ _ _,
        (gui_draw_string-Keeps _ _ _ _, (gui_draw_char-Keeps _ _ _ _, tt)),
      )
      fb a out)

gui_draw_terminal_content-Keeps :
    (win : Window) (t : Terminal) → Keeps (gui_draw_terminal_content win t)
unfolding gui_draw_terminal_content
gui_draw_terminal_content-Keeps win t fb a out =
    let drawn =
      draw_rows win t (min (t.cur_row + 1) term_buf_rows - first_row win t) (first_row win t)
        (win.y +ℤ pos 18) fb in
    draw_input-Keeps win t drawn.0 drawn.1 a out
    ∙ draw_rows-Keeps win t (min (t.cur_row + 1) term_buf_rows - first_row win t) (first_row win t)
        (win.y +ℤ pos 18) fb a out

draw_kind-Keeps : (t : Terminal) (win : Window) (kind : WindowType) → Keeps (draw_kind t win kind)
unfolding draw_kind
draw_kind-Keeps t win generic fb a out = refl
draw_kind-Keeps t win sysmon fb a out = gui_draw_sysmon_content-Keeps win fb a out
draw_kind-Keeps t win about fb a out = gui_draw_about_content-Keeps win fb a out
draw_kind-Keeps t win terminal fb a out = gui_draw_terminal_content-Keeps win t fb a out

draw_stack-Keeps : (g : Gui) (t : Terminal) (z : List ℕ) → Keeps (draw_stack g t z)
unfolding draw_stack
draw_stack-Keeps g t [] fb a out = refl
draw_stack-Keeps g t (idx ∷ z) fb a out =
    draw_stack-Keeps g t z _ a out
    ∙ keep_if (g.windows idx).active _ fb a (
        draw_kind-Keeps t (g.windows idx) (g.windows idx).kind _ a out
        ∙ gui_draw_window-Keeps g idx fb a out)

-- `gui_full_render` leaves every byte after the 800 * 600 of the frame buffer, whatever the windows'
-- places and sizes, titles, order and contents are and wherever the mouse is.
pub gui_full_render-Keeps :
    (g : Gui) (t : Terminal) (cursor_x cursor_y : ℤ) (fb : Buffer) (a : ℕ)
    → vga_width * vga_height ≤ a
    → gui_full_render g t cursor_x cursor_y fb a ≡ fb a
unfolding gui_full_render gui_draw_cursor
gui_full_render-Keeps g t cursor_x cursor_y fb a out =
    cursor_rows-Keeps cursor_data cursor_x cursor_y _ a out
    ∙ draw_stack-Keeps g t g.z_order _ a out
    ∙ gui_draw_desktop-Keeps g.desktop_color fb a out
