-- ===== src/Desktop/Draw.antt =====
-- Characters, texts and numbers, the mouse cursor, the background and the window frames of src/gui.c, as
-- functions on the frame buffer.
use sky_net_os.Base.{
  zero, suc, false, none, some, pos, length, get_or, ltb, ltb_ℤ, pos_part, neg_part, codes, ℕ, ℤ,
  Bool, Option, List, ◌+◌, ◌-◌, ◌/◌, ◌%◌, ◌^◌, ◌∷◌, ◌||◌, ◌==◌, ◌+ℤ◌, ◌-ℤ◌, [], if◌then◌else◌,
}
use sky_net_os.Vga.Pixels.{Buffer, vga_put_pixel, vga_width, vga_clear, vga_fill_rect, vga_height}
use sky_net_os.Desktop.Font.{rows, font8x8}
use sky_net_os.Desktop.Windows.{Window, Gui}
use sky_net_os.Text.Decimal.{backwards, low_digits, digit_bytes}

unfoldable pub draw_all : List (Buffer → Buffer) → Buffer → Buffer
draw_all [] fb = fb
draw_all (d ∷ l) fb = draw_all l (d fb)

-- One row of a glyph: `0x80 >> j` is `2 ^ k` where `k + 1` columns are left.
unfoldable pub draw_bits : ℕ → ℕ → ℤ → ℤ → ℕ → Buffer → Buffer
draw_bits zero row x y color fb = fb
draw_bits (suc k) row x y color fb =
    draw_bits k row (x +ℤ pos 1) y color
      (if row / 2 ^ k % 2 == 1 then vga_put_pixel x y color fb else fb)

-- The rows of a glyph.
unfoldable pub draw_glyph : List ℕ → ℤ → ℤ → ℕ → Buffer → Buffer
draw_glyph [] x y color fb = fb
draw_glyph (row ∷ l) x y color fb = draw_glyph l x (y +ℤ pos 1) color (draw_bits 8 row x y color fb)

-- A byte above 127 is negative as a `char`, so it is below 32.
unfoldable pub gui_draw_char : ℤ → ℤ → ℕ → ℕ → Buffer → Buffer
gui_draw_char x y c color fb =
    if ltb_ℤ (pos vga_width) (x +ℤ pos 8) || ltb_ℤ (pos vga_height) (y +ℤ pos 8)
    then fb
    else if ltb c 32 || ltb 126 c
    then fb
    else draw_glyph (get_or font8x8 (c - 32) []) x y color fb

unfoldable pub gui_draw_string : ℤ → ℤ → List ℕ → ℕ → Buffer → Buffer
gui_draw_string x y [] color fb = fb
gui_draw_string x y (c ∷ str) color fb =
    gui_draw_string (x +ℤ pos 8) y str color (gui_draw_char x y c color fb)

-- What `gui_draw_int` draws for a number above 0: the buffer of digits from its end on.
unfoldable pub draw_digits : ℤ → ℤ → ℕ → ℕ → Buffer → Buffer
draw_digits x y n color fb =
    if n == 0
    then gui_draw_char x y 48 color fb
    else gui_draw_string x y (backwards (low_digits digit_bytes n)) color fb

unfoldable pub gui_draw_int : ℤ → ℤ → ℤ → ℕ → Buffer → Buffer
gui_draw_int x y n color fb =
    if ltb_ℤ n (pos 0)
    then draw_digits (x +ℤ pos 8) y (neg_part n) color (gui_draw_char x y 45 color fb)
    else draw_digits x y (pos_part n) color fb

unfoldable pub cursor_data : List (List ℕ)
cursor_data =
    rows 1 0 0 0 0 0 0 0
    ∷ rows 1 1 0 0 0 0 0 0
    ∷ rows 1 2 1 0 0 0 0 0
    ∷ rows 1 2 2 1 0 0 0 0
    ∷ rows 1 2 2 2 1 0 0 0
    ∷ rows 1 2 2 2 2 1 0 0
    ∷ rows 1 2 2 2 2 2 1 0
    ∷ rows 1 2 2 2 1 1 1 0
    ∷ rows 1 2 2 1 0 0 0 0
    ∷ rows 1 2 1 0 0 0 0 0
    ∷ rows 1 1 0 0 0 0 0 0
    ∷ rows 1 0 0 0 0 0 0 0
    ∷ []

unfoldable pub cursor_row : List ℕ → ℤ → ℤ → Buffer → Buffer
cursor_row [] x y fb = fb
cursor_row (v ∷ l) x y fb =
    cursor_row l (x +ℤ pos 1) y
      (if v == 0 then fb else vga_put_pixel x y (if v == 1 then 0 else 15) fb)

unfoldable pub cursor_rows : List (List ℕ) → ℤ → ℤ → Buffer → Buffer
cursor_rows [] x y fb = fb
cursor_rows (r ∷ l) x y fb = cursor_rows l x (y +ℤ pos 1) (cursor_row r x y fb)

unfoldable pub gui_draw_cursor : ℤ → ℤ → Buffer → Buffer
gui_draw_cursor x y fb = cursor_rows cursor_data x y fb

unfoldable pub gui_draw_desktop : ℕ → Buffer → Buffer
gui_draw_desktop desktop_color fb =
    draw_all
      (vga_clear desktop_color
        ∷ vga_fill_rect (pos 0) (pos 576) (pos 800) (pos 24) 8
        ∷ vga_fill_rect (pos 0) (pos 576) (pos 800) (pos 1) 15
        ∷ gui_draw_string (pos 10) (pos 584) (codes "SkyNet OS") 15
        ∷ vga_fill_rect (pos 748) (pos 580) (pos 44) (pos 16) 4
        ∷ gui_draw_string (pos 752) (pos 584) (codes "Exit") 15
        ∷ [])
      fb

-- `&system_gui.windows[system_gui.focused] == win`, for the window at `idx`.
unfoldable pub is_focused : Option ℕ → ℕ → Bool
is_focused none idx = false
is_focused (some i) idx = i == idx

unfoldable pub window_frame : Bool → Window → List (Buffer → Buffer)
window_frame focused win =
    vga_fill_rect (win.x +ℤ pos 3) (win.y +ℤ pos 3) win.w win.h 0
    ∷ vga_fill_rect win.x win.y win.w win.h 7
    ∷ vga_fill_rect (win.x +ℤ pos 1) (win.y +ℤ pos 1) (win.w -ℤ pos 2) (pos 14) 1
    ∷ vga_fill_rect (win.x +ℤ pos 1) (win.y +ℤ pos 1) (win.w -ℤ pos 2) (pos 7)
        (if focused then 9 else 8)
    ∷ gui_draw_string (win.x +ℤ pos 8) (win.y +ℤ pos 4) win.title 15
    ∷ vga_fill_rect (win.x +ℤ win.w -ℤ pos 14) (win.y +ℤ pos 2) (pos 12) (pos 10) 4
    ∷ gui_draw_char (win.x +ℤ win.w -ℤ pos 12) (win.y +ℤ pos 4) 88 15
    ∷ vga_fill_rect (win.x +ℤ pos 1) (win.y +ℤ pos 15) (win.w -ℤ pos 2) (win.h -ℤ pos 16)
        win.bg_color
    ∷ []

-- `gui_draw_window`, for the window at `idx`.
unfoldable pub gui_draw_window : Gui → ℕ → Buffer → Buffer
gui_draw_window g idx fb =
    if (g.windows idx).active
    then draw_all (window_frame (is_focused g.focused idx) (g.windows idx)) fb
    else fb

unfoldable pub draw_windows : Gui → ℕ → ℕ → Buffer → Buffer
draw_windows g zero idx fb = fb
draw_windows g (suc n) idx fb = draw_windows g n (idx + 1) (gui_draw_window g idx fb)

unfoldable pub gui_render : Gui → Buffer → Buffer
gui_render g fb = draw_windows g (length g.z_order) 0 (gui_draw_desktop g.desktop_color fb)
