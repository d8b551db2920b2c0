-- ===== src/Vga/Tests.antt =====
-- A run of the frame buffer on a small rectangle.
use sky_net_os.Base.{pos, negsuc, ℕ, ◌≡◌, ◌≢◌}
use sky_net_os.Vga.Pixels.{Buffer, vga_fill_rect, pixel_at}
use sky_net_os.Vga.Rects.{InRect, vga_fill_rect-pixel_at}

abbrev blank : Buffer
blank a = 0

vga_fill_rect-pixel_at_example :
    ((x y : ℕ)
      → InRect (negsuc 1) (pos 598) (pos 4) (pos 9) x y
      → vga_fill_rect (negsuc 1) (pos 598) (pos 4) (pos 9) 7 blank (pixel_at x y) ≡ 7)
    × ((a : ℕ)
        → ((x y : ℕ) → InRect (negsuc 1) (pos 598) (pos 4) (pos 9) x y → a ≢ pixel_at x y)
        → vga_fill_rect (negsuc 1) (pos 598) (pos 4) (pos 9) 7 blank a ≡ blank a)
vga_fill_rect-pixel_at_example = vga_fill_rect-pixel_at (negsuc 1) (pos 598) (pos 4) (pos 9) 7 blank
