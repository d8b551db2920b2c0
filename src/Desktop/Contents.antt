-- ===== src/Desktop/Contents.antt =====
-- The contents of the windows of src/gui.c, and `gui_full_render`, which draws the whole screen.
use sky_net_os.Base.{
  zero, suc, pos, length, min, leb_ℤ, pos_part, neg_part, codes, ℕ, ℤ, Bool, List, ◌+◌, ◌-◌, ◌*◌,
  ◌/◌, ◌%◌, ◌∷◌, ◌==◌, ◌+ℤ◌, ◌-ℤ◌, [], if◌then◌else◌, sub_ℕ,
}
use sky_net_os.Desktop.Windows.{sysmon, about, terminal, generic, Window, Gui, WindowType}
use sky_net_os.Desktop.Terminal.{term_cols, Terminal, term_buf_rows}
use sky_net_os.Vga.Pixels.{Buffer, vga_fill_rect}
use sky_net_os.Desktop.Draw.{
  draw_all, gui_draw_string, gui_draw_window, gui_draw_cursor, gui_draw_char, gui_draw_desktop,
}

unfoldable pub gui_draw_sysmon_content : Window → Buffer → Buffer
gui_draw_sysmon_content win fb =
    let cx = win.x +ℤ pos 8 in
    let cy = win.y +ℤ pos 24 in
    draw_all
      (gui_draw_string cx cy (codes "PID  PRIO  STATE  THRDS") 0
        ∷ vga_fill_rect cx (cy +ℤ pos 12) (win.w -ℤ pos 16) (pos 1) 8
        ∷ gui_draw_string cx (cy +ℤ pos 16) (codes "0    0     RDY    1") 0
        ∷ gui_draw_string cx (cy +ℤ pos 26) (codes "1    0     RDY    1") 0
        ∷ gui_draw_string cx (cy +ℤ pos 44) (codes "CPU:  [##########      ] 62%") 2
        ∷ gui_draw_string cx (cy +ℤ pos 54) (codes "MEM:  [############    ] 75%") 4
        ∷ gui_draw_string cx (cy +ℤ pos 64) (codes "DISK: [####            ] 25%") 6
        ∷ gui_draw_string cx (cy +ℤ pos 82) (codes "Uptime: Tick-based scheduling") 8
        ∷ [])
      fb

unfoldable pub gui_draw_about_content : Window → Buffer → Buffer
gui_draw_about_content win fb =
    let cx = win.x +ℤ pos 8 in
    let cy = win.y +ℤ pos 24 in
    draw_all
      (gui_draw_string cx cy (codes "SkyNet OS v3.0") 0
        ∷ vga_fill_rect cx (cy +ℤ pos 12) (win.w -ℤ pos 16) (pos 1) 8
        ∷ gui_draw_string cx (cy +ℤ pos 18) (codes "MLFQ Scheduler") 0
        ∷ gui_draw_string cx (cy +ℤ pos 28) (codes "Banker's Deadlock Avoidance") 0
        ∷ gui_draw_string cx (cy +ℤ pos 38) (codes "800x600 SVGA Desktop") 0
        ∷ gui_draw_string cx (cy +ℤ pos 48) (codes "IPC + Mutexes + Spinlocks") 0
        ∷ gui_draw_string cx (cy +ℤ pos 62) (codes "\"I'll be back.\" - 2029") 4
        ∷ [])
      fb

-- Division by 9 in C rounds towards 0.
unfoldable pub ninth : ℤ → ℤ
ninth z = sub_ℕ (pos_part z / 9) (neg_part z / 9)

-- The text at the byte `k` of `term_buf`, up to its NUL byte or the end of the array, `fuel` bytes ahead.
unfoldable pub term_text : ℕ → ℕ → (ℕ → ℕ → ℕ) → List ℕ
term_text zero k buf = []
term_text (suc fuel) k buf =
    let c = buf (k / (term_cols + 1)) (k % (term_cols + 1)) in
    let rest = c ∷ term_text fuel (k + 1) buf in if c == 0 then [] else rest

-- `term_buf[r]` as a text.
unfoldable pub term_row : ℕ → Terminal → List ℕ
term_row r t =
    term_text (term_buf_rows * (term_cols + 1) - r * (term_cols + 1)) (r * (term_cols + 1)) t.buf

unfoldable pub row_fits : ℤ → Window → Bool
row_fits cy win = leb_ℤ (cy +ℤ pos 9) (win.y +ℤ win.h -ℤ pos 2)

-- The loop over the rows from `r` on, `n` of them: where it ends and what it has drawn.
unfoldable pub draw_rows : Window → Terminal → ℕ → ℕ → ℤ → Buffer → ℤ × Buffer
draw_rows win t zero r cy fb = (cy, fb)
draw_rows win t (suc n) r cy fb =
    let rest =
      draw_rows win t n (r + 1) (cy +ℤ pos 9)
        (gui_draw_string (win.x +ℤ pos 4) cy (term_row r t) 2 fb) in
    if row_fits cy win then rest else (cy, fb)

-- The input line; its cursor stands after the last character.
unfoldable pub draw_input : Window → Terminal → ℤ → Buffer → Buffer
draw_input win t cy fb =
    let cx = win.x +ℤ pos 4 in
    if row_fits cy win
    then draw_all
        (gui_draw_string cx cy (codes "> ") 10
          ∷ gui_draw_string (cx +ℤ pos 16) cy t.input 15
          ∷ gui_draw_char (cx +ℤ pos 16 +ℤ pos (8 * length t.input)) cy 95 15
          ∷ [])
        fb
    else fb

-- The first row to draw: one below 0 is 0.
unfoldable pub first_row : Window → Terminal → ℕ
first_row win t = pos_part (pos t.cur_row -ℤ ninth (win.h -ℤ pos 28) +ℤ pos 2)

unfoldable pub gui_draw_terminal_content : Window → Terminal → Buffer → Buffer
gui_draw_terminal_content win t fb =
    let start = first_row win t in
    let drawn =
      draw_rows win t (min (t.cur_row + 1) term_buf_rows - start) start (win.y +ℤ pos 18) fb in
    draw_input win t drawn.0 drawn.1

-- The `switch` of `gui_full_render`.
unfoldable pub draw_kind : Terminal → Window → WindowType → Buffer → Buffer
draw_kind t win sysmon fb = gui_draw_sysmon_content win fb
draw_kind t win about fb = gui_draw_about_content win fb
draw_kind t win terminal fb = gui_draw_terminal_content win t fb
draw_kind t win generic fb = fb

-- The loop of `gui_full_render`, over `z_order`.
unfoldable pub draw_stack : Gui → Terminal → List ℕ → Buffer → Buffer
draw_stack g t [] fb = fb
draw_stack g t (idx ∷ z) fb = draw_stack g t z (
    if (g.windows idx).active
    then draw_kind t (g.windows idx) (g.windows idx).kind (gui_draw_window g idx fb)
    else fb)

unfoldable pub gui_full_render : Gui → Terminal → ℤ → ℤ → Buffer → Buffer
gui_full_render g t cursor_x cursor_y fb =
    gui_draw_cursor cursor_x cursor_y
      (draw_stack g t g.z_order (gui_draw_desktop g.desktop_color fb))
