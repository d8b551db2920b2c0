-- ===== src/Vga/Rects.antt =====
-- What the drawing primitives of src/vga.c write.
use sky_net_os.Base.{
  zero, suc, refl, inl, inr, sym, ap, pos, update_other, Bool-cases, int_laws, if-true, if-false,
  pos_part, ℕ, ℤ, ◌<◌, ◌≡◌, ◌≢◌, ◌∙◌, ◌+ℤ◌, ◌≤ℤ◌, ◌<ℤ◌, true, negsuc, arith, neg_part, ◌+◌, subst,
  update_same, ltb_ℤ, ◌≤◌, ltb→lt, update,
}
use sky_net_os.Vga.Pixels.{
  vga_width, fill_row, pixel_at, Buffer, on_screen, vga_height, fill_rows, vga_fill_rect,
}

-- The offset `a` is that of no pixel in `n` columns from `col` on in the row `row`.
abbrev pub OffRow : ℕ → ℕ → ℕ → ℤ → Type 0
OffRow a row n col =
    (x : ℕ) → col ≤ℤ pos x → pos x <ℤ col +ℤ pos n → x < vga_width → a ≢ pixel_at x row

pub on_screen-pos : (z : ℤ) (size : ℕ) → on_screen z size ≡ true → pos_part z + neg_part z < size
on_screen-pos z size h = ground arith

on_screen-neg : (z : ℤ) (size : ℕ) → on_screen z size ≡ true → neg_part z ≡ 0
on_screen-neg (pos n) size h = refl
on_screen-neg (negsuc n) size h = ground arith

fill_row-off :
    (row n : ℕ) (col : ℤ) (color : ℕ) (fb : Buffer) (a : ℕ)
    → OffRow a row n col
    → fill_row row n col color fb a ≡ fb a
unfolding fill_row
fill_row-off row zero col color fb a off = refl
fill_row-off row (suc n) col color fb a off =
    fill_row-off row n (col +ℤ pos 1) color _ a
      (λ x le lt fits. off x (omega int_laws) (omega int_laws) fits)
    ∙ elim (Bool-cases (on_screen col vga_width)) [
      | inl seen ↦
          let low = on_screen-pos col vga_width seen in
          let sign = on_screen-neg col vga_width seen in
          ap (λ f. f a) (if-true _ fb seen)
          ∙ update_other fb (pixel_at (pos_part col) row) a color
              (λ e. off (pos_part col) (omega int_laws) (omega int_laws) (omega int_laws) (sym e))
      | inr hidden ↦ ap (λ f. f a) (if-false _ fb hidden)
    ]

fill_row-first :
    (row n x color : ℕ) (fb : Buffer)
    → x < vga_width
    → fill_row row (suc n) (pos x) color fb (pixel_at x row) ≡ color
unfolding fill_row
fill_row-first row n x color fb fits =
    fill_row-off row n (pos x +ℤ pos 1) color _ (pixel_at x row)
      (λ z le lt low e. absurd (omega int_laws))
    ∙ ap (λ f. f (pixel_at x row))
        (if-true {b = on_screen (pos x) vga_width} (update fb (pixel_at x row) color) fb
          (ground arith))
    ∙ update_same fb (pixel_at x row) color

fill_row-on :
    (row n : ℕ) (col : ℤ) (color : ℕ) (fb : Buffer) (x : ℕ)
    → col ≤ℤ pos x
    → pos x <ℤ col +ℤ pos n
    → x < vga_width
    → fill_row row n col color fb (pixel_at x row) ≡ color
unfolding fill_row
fill_row-on row zero col color fb x le lt fits = absurd (omega int_laws)
fill_row-on row (suc n) col color fb x le lt fits = elim (Bool-cases (ltb_ℤ col (pos x))) [
  | inl before ↦
      let less = ltb→lt (pos_part col + 0) (x + neg_part col) before in
      fill_row-on row n (col +ℤ pos 1) color _ x (omega int_laws) (omega int_laws) fits
  | inr reached ↦
      let more : x + neg_part col ≤ pos_part col = ground arith in
      let same : col ≡ pos x = omega int_laws in
      subst (λ c. fill_row row (suc n) c color fb (pixel_at x row) ≡ color) (sym same)
        (fill_row-first row n x color fb fits)
]

-- The offset `a` is that of no pixel in `n` rows from `row` on, `w` columns from `col` on.
abbrev pub OffRect : ℕ → ℕ → ℤ → ℕ → ℤ → Type 0
OffRect a n row w col =
    (x y : ℕ)
    → col ≤ℤ pos x
    → pos x <ℤ col +ℤ pos w
    → x < vga_width
    → row ≤ℤ pos y
    → pos y <ℤ row +ℤ pos n
    → y < vga_height
    → a ≢ pixel_at x y

fill_rows-off :
    (n : ℕ) (row : ℤ) (w : ℕ) (col : ℤ) (color : ℕ) (fb : Buffer) (a : ℕ)
    → OffRect a n row w col
    → fill_rows n row w col color fb a ≡ fb a
unfolding fill_rows
fill_rows-off zero row w col color fb a off = refl
fill_rows-off (suc n) row w col color fb a off =
    fill_rows-off n (row +ℤ pos 1) w col color _ a
      (λ x y le lt fits below above low. off x y le lt fits (omega int_laws) (omega int_laws) low)
    ∙ elim (Bool-cases (on_screen row vga_height)) [
      | inl seen ↦
          let low = on_screen-pos row vga_height seen in
          let sign = on_screen-neg row vga_height seen in
          ap (λ f. f a) (if-true _ fb seen)
          ∙ fill_row-off (pos_part row) w col color fb a (λ x le lt fits.
            off x (pos_part row) le lt fits (omega int_laws) (omega int_laws) (omega int_laws))
      | inr hidden ↦ ap (λ f. f a) (if-false _ fb hidden)
    ]

pixel_at_apart : (x y z v : ℕ) → x < vga_width → z < vga_width → y < v → pixel_at x y ≢ pixel_at z v
pixel_at_apart x y z v fits wide lt e = omega arith

fill_rows-first :
    (n y w : ℕ) (col : ℤ) (color : ℕ) (fb : Buffer) (x : ℕ)
    → col ≤ℤ pos x
    → pos x <ℤ col +ℤ pos w
    → x < vga_width
    → y < vga_height
    → fill_rows (suc n) (pos y) w col color fb (pixel_at x y) ≡ color
unfolding fill_rows
fill_rows-first n y w col color fb x le lt fits low =
    fill_rows-off n (pos y +ℤ pos 1) w col color _ (pixel_at x y)
      (λ z v from upto wide below above tall e. pixel_at_apart x y z v fits wide (omega int_laws) e)
    ∙ ap (λ f. f (pixel_at x y))
        (if-true {b = on_screen (pos y) vga_height} (fill_row y w col color fb) fb (ground arith))
    ∙ fill_row-on y w col color fb x le lt fits

fill_rows-on :
    (n : ℕ) (row : ℤ) (w : ℕ) (col : ℤ) (color : ℕ) (fb : Buffer) (x y : ℕ)
    → col ≤ℤ pos x
    → pos x <ℤ col +ℤ pos w
    → x < vga_width
    → row ≤ℤ pos y
    → pos y <ℤ row +ℤ pos n
    → y < vga_height
    → fill_rows n row w col color fb (pixel_at x y) ≡ color
unfolding fill_rows
fill_rows-on zero row w col color fb x y le lt fits below above low = absurd (omega int_laws)
fill_rows-on (suc n) row w col color fb x y le lt fits below above low =
    elim (Bool-cases (ltb_ℤ row (pos y))) [
      | inl before ↦
          let less = ltb→lt (pos_part row + 0) (y + neg_part row) before in
          fill_rows-on n (row +ℤ pos 1) w col color _ x y le lt fits (omega int_laws)
            (omega int_laws) low
      | inr reached ↦
          let more : y + neg_part row ≤ pos_part row = ground arith in
          let same : row ≡ pos y = omega int_laws in
          subst (λ r. fill_rows (suc n) r w col color fb (pixel_at x y) ≡ color) (sym same)
            (fill_rows-first n y w col color fb x le lt fits low)
    ]

-- A side below 0 has no rounds, so a pixel in one of its rounds is below the sum.
pos_part-lt : (a w : ℤ) (x : ℕ) → a ≤ℤ pos x → pos x <ℤ a +ℤ pos (pos_part w) → pos x <ℤ a +ℤ w
pos_part-lt a (pos n) x le lt = lt
pos_part-lt a (negsuc n) x le lt = absurd (omega int_laws)

lt-pos_part : (a w : ℤ) (x : ℕ) → pos x <ℤ a +ℤ w → pos x <ℤ a +ℤ pos (pos_part w)
lt-pos_part a w x lt = omega int_laws

-- The pixel (x, y) is on the screen and in the rectangle of `w` columns and `h` rows from (left, top).
abbrev pub InRect : ℤ → ℤ → ℤ → ℤ → ℕ → ℕ → Type 0
InRect left top w h x y =
    (x < vga_width)
    × (y < vga_height)
    × (left ≤ℤ pos x)
    × (pos x <ℤ left +ℤ w)
    × (top ≤ℤ pos y)
    × (pos y <ℤ top +ℤ h)

-- `vga_fill_rect` gives the color to every pixel of the screen in the rectangle, and leaves the byte at
-- every other offset of the frame buffer; the rectangle may stand partly or wholly off the screen, and its
-- sides may be negative.
pub vga_fill_rect-pixel_at :
    (left top w h : ℤ) (color : ℕ) (fb : Buffer)
    → ((x y : ℕ)
        → InRect left top w h x y
        → vga_fill_rect left top w h color fb (pixel_at x y) ≡ color)
      × ((a : ℕ)
          → ((x y : ℕ) → InRect left top w h x y → a ≢ pixel_at x y)
          → vga_fill_rect left top w h color fb a ≡ fb a)
unfolding vga_fill_rect
vga_fill_rect-pixel_at left top w h color fb =
    let on : (x y : ℕ)
        → InRect left top w h x y
        → fill_rows (pos_part h) top (pos_part w) left color fb (pixel_at x y) ≡ color =
      λ x y (fits, low, le, lt, below, above).
        fill_rows-on (pos_part h) top (pos_part w) left color fb x y le (lt-pos_part left w x lt)
          fits below (lt-pos_part top h y above) low in
    let off : (a : ℕ)
        → ((x y : ℕ) → InRect left top w h x y → a ≢ pixel_at x y)
        → fill_rows (pos_part h) top (pos_part w) left color fb a ≡ fb a =
      λ a apart.
        fill_rows-off (pos_part h) top (pos_part w) left color fb a
          (λ x y le lt fits below above low.
            apart x y (
              fits,
              low,
              le,
              pos_part-lt left w x le lt,
              below,
              pos_part-lt top h y below above,
            )) in
    (on, off)
