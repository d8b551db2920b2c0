-- ===== src/Desktop/Drawn.antt =====
-- The drawing primitives of src/gui.c and src/vga.c write to the frame buffer only.
use sky_net_os.Base.{
  zero, suc, refl, inl, inr, true, sym, ap, pos, get_or, update_other, Bool-cases, ltb, arith,
  if-true, if-false, ltb_ℤ, pos_part, ℕ, ℤ, Bool, List, ◌-◌, ◌*◌, ◌/◌, ◌%◌, ◌^◌, ◌≤◌, ◌<◌, ◌≡◌, ◌≢◌,
  ◌∙◌, ◌∷◌, ◌&&◌, ◌||◌, ◌==◌, ◌+ℤ◌, [], if◌then◌else◌, false,
}
use sky_net_os.Vga.Pixels.{
  Buffer, vga_width, on_screen, vga_fill_rect, vga_put_pixel, vga_clear, vga_height, pixel_at,
}
use sky_net_os.Desktop.Draw.{
  draw_bits, draw_glyph, gui_draw_char, gui_draw_string, cursor_row, cursor_rows, draw_all,
  gui_draw_desktop, gui_draw_window, window_frame, is_focused,
}
use sky_net_os.Vga.Rects.{vga_fill_rect-pixel_at, on_screen-pos}
use sky_net_os.Text.Copies.{memset-bytes}
use sky_net_os.Desktop.Font.{font8x8}
use sky_net_os.Desktop.Windows.{Gui}

-- `draw` leaves what stands after the frame buffer.
abbrev pub Keeps : (Buffer → Buffer) → Type 0
Keeps draw = (fb : Buffer) (a : ℕ) → vga_width * vga_height ≤ a → draw fb a ≡ fb a

pub keep_if : (b : Bool) (x fb : Buffer) (a : ℕ) → x a ≡ fb a → (if b then x else fb) a ≡ fb a
keep_if true x fb a e = e
keep_if false x fb a e = refl

pub keep_unless : (b : Bool) (x fb : Buffer) (a : ℕ) → x a ≡ fb a → (if b then fb else x) a ≡ fb a
keep_unless true x fb a e = refl
keep_unless false x fb a e = e

pixel_at_out :
    (x y a : ℕ) → x < vga_width → y < vga_height → vga_width * vga_height ≤ a → a ≢ pixel_at x y
pixel_at_out x y a fits low out e = omega arith

put_out :
    (x y : ℤ) (a : ℕ)
    → (on_screen x vga_width && on_screen y vga_height) ≡ true
    → vga_width * vga_height ≤ a
    → a ≢ pixel_at (pos_part x) (pos_part y)
put_out x y a seen out =
    let fits : on_screen x vga_width ≡ true = ground arith in
    let low : on_screen y vga_height ≡ true = ground arith in
    let left = on_screen-pos x vga_width fits in
    let upper = on_screen-pos y vga_height low in
    pixel_at_out (pos_part x) (pos_part y) a (omega arith) (omega arith) out

pub vga_fill_rect-Keeps : (x y w h : ℤ) (color : ℕ) → Keeps (vga_fill_rect x y w h color)
vga_fill_rect-Keeps x y w h color fb a out =
    (vga_fill_rect-pixel_at x y w h color fb).1 a
      (λ px py seen e. pixel_at_out px py a seen.0 seen.1 out e)

vga_put_pixel-Keeps : (x y : ℤ) (color : ℕ) → Keeps (vga_put_pixel x y color)
unfolding vga_put_pixel
vga_put_pixel-Keeps x y color fb a out =
    elim (Bool-cases (on_screen x vga_width && on_screen y vga_height)) [
      | inl seen ↦
          ap (λ f. f a) (if-true _ fb seen)
          ∙ update_other fb _ a color (λ e. put_out x y a seen out (sym e))
      | inr hidden ↦ ap (λ f. f a) (if-false _ fb hidden)
    ]

vga_clear-Keeps : (color : ℕ) → Keeps (vga_clear color)
unfolding vga_clear
vga_clear-Keeps color fb a out = memset-bytes 0 color (vga_width * vga_height) fb a ∙ ground arith

draw_bits-Keeps : (k row : ℕ) (x y : ℤ) (color : ℕ) → Keeps (draw_bits k row x y color)
unfolding draw_bits
draw_bits-Keeps zero row x y color fb a out = refl
draw_bits-Keeps (suc k) row x y color fb a out =
    draw_bits-Keeps k row (x +ℤ pos 1) y color _ a out
    ∙ keep_if (row / 2 ^ k % 2 == 1) (vga_put_pixel x y color fb) fb a
        (vga_put_pixel-Keeps x y color fb a out)

draw_glyph-Keeps : (l : List ℕ) (x y : ℤ) (color : ℕ) → Keeps (draw_glyph l x y color)
unfolding draw_glyph
draw_glyph-Keeps [] x y color fb a out = refl
draw_glyph-Keeps (row ∷ l) x y color fb a out =
    draw_glyph-Keeps l x (y +ℤ pos 1) color _ a out ∙ draw_bits-Keeps 8 row x y color fb a out

pub gui_draw_char-Keeps : (x y : ℤ) (c color : ℕ) → Keeps (gui_draw_char x y c color)
unfolding gui_draw_char
gui_draw_char-Keeps x y c color fb a out =
    keep_unless (ltb_ℤ (pos vga_width) (x +ℤ pos 8) || ltb_ℤ (pos vga_height) (y +ℤ pos 8)) _ fb a (
      keep_unless (ltb c 32 || ltb 126 c) _ fb a
        (draw_glyph-Keeps (get_or font8x8 (c - 32) []) x y color fb a out))

pub gui_draw_string-Keeps :
    (x y : ℤ) (str : List ℕ) (color : ℕ) → Keeps (gui_draw_string x y str color)
unfolding gui_draw_string
gui_draw_string-Keeps x y [] color fb a out = refl
gui_draw_string-Keeps x y (c ∷ str) color fb a out =
    gui_draw_string-Keeps (x +ℤ pos 8) y str color _ a out
    ∙ gui_draw_char-Keeps x y c color fb a out

cursor_row-Keeps : (l : List ℕ) (x y : ℤ) → Keeps (cursor_row l x y)
unfolding cursor_row
cursor_row-Keeps [] x y fb a out = refl
cursor_row-Keeps (v ∷ l) x y fb a out =
    cursor_row-Keeps l (x +ℤ pos 1) y _ a out
    ∙ keep_unless (v == 0) _ fb a (vga_put_pixel-Keeps x y (if v == 1 then 0 else 15) fb a out)

pub cursor_rows-Keeps : (l : List (List ℕ)) (x y : ℤ) → Keeps (cursor_rows l x y)
unfolding cursor_rows
cursor_rows-Keeps [] x y fb a out = refl
cursor_rows-Keeps (r ∷ l) x y fb a out =
    cursor_rows-Keeps l x (y +ℤ pos 1) _ a out ∙ cursor_row-Keeps r x y fb a out

-- Every drawing of a list leaves what stands after the frame buffer.
unfoldable pub AllKeep : List (Buffer → Buffer) → Type 0
AllKeep [] = Unit
AllKeep (d ∷ l) = Keeps d × AllKeep l

pub draw_all-Keeps : (l : List (Buffer → Buffer)) → AllKeep l → Keeps (draw_all l)
unfolding draw_all AllKeep
draw_all-Keeps [] each fb a out = refl
draw_all-Keeps (d ∷ l) (first, others) fb a out =
    draw_all-Keeps l others (d fb) a out ∙ first fb a out

pub gui_draw_desktop-Keeps : (color : ℕ) → Keeps (gui_draw_desktop color)
unfolding gui_draw_desktop AllKeep
gui_draw_desktop-Keeps color = draw_all-Keeps _ (
  vga_clear-Keeps color,
  (
    vga_fill_rect-Keeps _ _ _ _ _,
    (
      vga_fill_rect-Keeps _ _ _ _ _,
      (
        gui_draw_string-Keeps _ _ _ _,
        (vga_fill_rect-Keeps _ _ _ _ _, (gui_draw_string-Keeps _ _ _ _, tt)),
      ),
    ),
  ),
)

pub gui_draw_window-Keeps : (g : Gui) (idx : ℕ) → Keeps (gui_draw_window g idx)
unfolding gui_draw_window window_frame AllKeep
gui_draw_window-Keeps g idx fb a out = keep_if (g.windows idx).active _ fb a (
    draw_all-Keeps (window_frame (is_focused g.focused idx) (g.windows idx))
      (
        vga_fill_rect-Keeps _ _ _ _ _,
        (
          vga_fill_rect-Keeps _ _ _ _ _,
          (
            vga_fill_rect-Keeps _ _ _ _ _,
            (
              vga_fill_rect-Keeps _ _ _ _ _,
              (
                gui_draw_string-Keeps _ _ _ _,
                (
                  vga_fill_rect-Keeps _ _ _ _ _,
                  (gui_draw_char-Keeps _ _ _ _, (vga_fill_rect-Keeps _ _ _ _ _, tt)),
                ),
              ),
            ),
          ),
        ),
      )
      fb a out)
