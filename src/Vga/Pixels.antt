-- ===== src/Vga/Pixels.antt =====
-- The drawing primitives of src/vga.c in the 8-bit mode. The buffer is a byte for each offset from
-- `vga_mem`; a pixel of the screen stands at the offset `y * VGA_WIDTH + x`.
use sky_net_os.Base.{
  zero, suc, pos, update, ltb_ℤ, leb_ℤ, pos_part, ℕ, ℤ, Bool, ◌+◌, ◌*◌, ◌&&◌, ◌+ℤ◌, if◌then◌else◌,
}
use sky_net_os.Text.Memory.{memset}

abbrev pub vga_width : ℕ
vga_width = 800

abbrev pub vga_height : ℕ
vga_height = 600

abbrev pub Buffer : Type 0
Buffer = ℕ → ℕ

-- `y * VGA_WIDTH + x`, for coordinates on the screen.
abbrev pub pixel_at : ℕ → ℕ → ℕ
pixel_at x y = y * vga_width + x

abbrev pub on_screen : ℤ → ℕ → Bool
on_screen z size = leb_ℤ (pos 0) z && ltb_ℤ z (pos size)

unfoldable pub vga_put_pixel : ℤ → ℤ → ℕ → Buffer → Buffer
vga_put_pixel x y color fb =
    if on_screen x vga_width && on_screen y vga_height
    then update fb (pixel_at (pos_part x) (pos_part y)) color
    else fb

-- The inner loop of `vga_fill_rect`, over `n` columns from `col` on, in the row `row` of the screen.
unfoldable pub fill_row : ℕ → ℕ → ℤ → ℕ → Buffer → Buffer
fill_row row zero col color fb = fb
fill_row row (suc n) col color fb =
    fill_row row n (col +ℤ pos 1) color
      (if on_screen col vga_width then update fb (pixel_at (pos_part col) row) color else fb)

-- The outer loop, over `n` rows from `row` on; a row off the screen is skipped.
unfoldable pub fill_rows : ℕ → ℤ → ℕ → ℤ → ℕ → Buffer → Buffer
fill_rows zero row w x color fb = fb
fill_rows (suc n) row w x color fb =
    fill_rows n (row +ℤ pos 1) w x color
      (if on_screen row vga_height then fill_row (pos_part row) w x color fb else fb)

-- A width or height below 0 makes no round.
unfoldable pub vga_fill_rect : ℤ → ℤ → ℤ → ℤ → ℕ → Buffer → Buffer
vga_fill_rect x y w h color fb = fill_rows (pos_part h) y (pos_part w) x color fb

unfoldable pub vga_clear : ℕ → Buffer → Buffer
vga_clear color fb = memset 0 color (vga_width * vga_height) fb
