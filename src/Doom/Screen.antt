-- ===== src/Doom/Screen.antt =====
-- The picture of src/doom_port.c: the 320 * 200 pixels of PureDOOM, twice as large, in the middle of the
-- screen of 32-bit pixels. The picture and the frame buffer give a pixel for each index.
use native.Mathlib.Decide.{ℕ_discrete}
use sky_net_os.Base.{
  zero, suc, sym, arith, update, ℕ, ◌+◌, ◌*◌, ◌/◌, ◌%◌, ◌^◌, ◌<◌, ◌≡◌, ◌≢◌, ◌∙◌, refl, subst, ◌≤◌,
}

abbrev pub Pixels : Type 0
Pixels = ℕ → ℕ

-- RGBA to 0x00RRGGBB.
unfoldable pub vga_pixel : ℕ → ℕ
vga_pixel pixel =
    let r = pixel % 2 ^ 8 in
    let g = pixel / 2 ^ 8 % 2 ^ 8 in let b = pixel / 2 ^ 16 % 2 ^ 8 in r * 2 ^ 16 + g * 2 ^ 8 + b

-- The body of the two loops, for the pixel of the color `v` at (x, y).
unfoldable pub put_scaled : ℕ → ℕ → ℕ → Pixels → Pixels
put_scaled x y v fb =
    let draw_x = 80 + x * 2 in
    let draw_y = 100 + y * 2 in
    update
      (update (update (update fb (draw_y * 800 + draw_x) v) (draw_y * 800 + draw_x + 1) v)
        ((draw_y + 1) * 800 + draw_x) v)
      ((draw_y + 1) * 800 + draw_x + 1) v

-- The first `n` pixels of the row `y`.
unfoldable pub scaled_row : Pixels → ℕ → ℕ → Pixels → Pixels
scaled_row doom_fb y zero fb = fb
scaled_row doom_fb y (suc n) fb =
    put_scaled n y (vga_pixel (doom_fb (y * 320 + n))) (scaled_row doom_fb y n fb)

-- The first `n` rows.
unfoldable pub scaled_rows : Pixels → ℕ → Pixels → Pixels
scaled_rows doom_fb zero fb = fb
scaled_rows doom_fb (suc n) fb = scaled_row doom_fb n 320 (scaled_rows doom_fb n fb)

-- The rendering of `run_doom`.
unfoldable pub render_doom : Pixels → Pixels → Pixels
render_doom doom_fb fb = scaled_rows doom_fb 200 fb

-- The index on the screen of a quarter of the pixel (x, y); `i` and `j` are 0 or 1.
abbrev pub quarter : ℕ → ℕ → ℕ → ℕ → ℕ
quarter x y i j = (100 + y * 2 + j) * 800 + (80 + x * 2) + i

put_scaled-same :
    (x y v i j : ℕ) (fb : Pixels) → i < 2 → j < 2 → put_scaled x y v fb (quarter x y i j) ≡ v
unfolding put_scaled
put_scaled-same x y v i j fb low high = ground arith

put_scaled-other :
    (x y v a : ℕ) (fb : Pixels)
    → ((i j : ℕ) → i < 2 → j < 2 → a ≢ quarter x y i j)
    → put_scaled x y v fb a ≡ fb a
unfolding put_scaled
put_scaled-other x y v a fb off =
    let upper_left : a ≢ quarter x y 0 0 = off 0 0 (omega arith) (omega arith) in
    let upper_right : a ≢ quarter x y 1 0 = off 1 0 (omega arith) (omega arith) in
    let lower_left : a ≢ quarter x y 0 1 = off 0 1 (omega arith) (omega arith) in
    let lower_right : a ≢ quarter x y 1 1 = off 1 1 (omega arith) (omega arith) in ground arith

-- Different pixels have different quarters.
quarter_apart :
    (x y i j z w k l : ℕ)
    → x < 320
    → z < 320
    → i < 2
    → k < 2
    → j < 2
    → l < 2
    → quarter x y i j ≡ quarter z w k l
    → (x ≡ z) × (y ≡ w)
quarter_apart x y i j z w k l fits wide hi hk hj hl e = (omega arith, omega arith)

scaled_row-quarter :
    (doom_fb : Pixels) (y n : ℕ) (fb : Pixels) (x i j : ℕ)
    → n ≤ 320
    → x < n
    → i < 2
    → j < 2
    → scaled_row doom_fb y n fb (quarter x y i j) ≡ vga_pixel (doom_fb (y * 320 + x))
unfolding scaled_row
scaled_row-quarter doom_fb y zero fb x i j fits lt hi hj = absurd (omega arith)
scaled_row-quarter doom_fb y (suc n) fb x i j fits lt hi hj = elim (ℕ_discrete n x) [
  | yes e ↦
      subst
        (λ z.
          put_scaled n y (vga_pixel (doom_fb (y * 320 + n))) (scaled_row doom_fb y n fb)
            (quarter z y i j)
          ≡ vga_pixel (doom_fb (y * 320 + z)))
        e (put_scaled-same n y _ i j _ hi hj)
  | no ne ↦
      put_scaled-other n y _ (quarter x y i j) _ (λ k l hk hl e.
        absurd
          (ne (sym (quarter_apart x y i j n y k l (omega arith) (omega arith) hi hk hj hl e).0)))
      ∙ scaled_row-quarter doom_fb y n fb x i j (omega arith) (omega arith) hi hj
]

-- A row leaves what is not a quarter of one of its pixels.
scaled_row-other :
    (doom_fb : Pixels) (y n : ℕ) (fb : Pixels) (a : ℕ)
    → ((x i j : ℕ) → x < n → i < 2 → j < 2 → a ≢ quarter x y i j)
    → scaled_row doom_fb y n fb a ≡ fb a
unfolding scaled_row
scaled_row-other doom_fb y zero fb a off = refl
scaled_row-other doom_fb y (suc n) fb a off =
    put_scaled-other n y _ a _ (λ i j hi hj. off n i j (omega arith) hi hj)
    ∙ scaled_row-other doom_fb y n fb a (λ x i j lt hi hj. off x i j (omega arith) hi hj)

scaled_rows-quarter :
    (doom_fb : Pixels) (n : ℕ) (fb : Pixels) (x y i j : ℕ)
    → x < 320
    → y < n
    → i < 2
    → j < 2
    → scaled_rows doom_fb n fb (quarter x y i j) ≡ vga_pixel (doom_fb (y * 320 + x))
unfolding scaled_rows
scaled_rows-quarter doom_fb zero fb x y i j fits lt hi hj = absurd (omega arith)
scaled_rows-quarter doom_fb (suc n) fb x y i j fits lt hi hj = elim (ℕ_discrete n y) [
  | yes e ↦
      subst
        (λ z.
          scaled_row doom_fb n 320 (scaled_rows doom_fb n fb) (quarter x z i j)
          ≡ vga_pixel (doom_fb (z * 320 + x)))
        e (scaled_row-quarter doom_fb n 320 _ x i j (omega arith) fits hi hj)
  | no ne ↦
      scaled_row-other doom_fb n 320 _ (quarter x y i j) (λ z k l wide hk hl e.
        absurd (ne (sym (quarter_apart x y i j z n k l fits wide hi hk hj hl e).1)))
      ∙ scaled_rows-quarter doom_fb n fb x y i j fits (omega arith) hi hj
]

scaled_rows-other :
    (doom_fb : Pixels) (n : ℕ) (fb : Pixels) (a : ℕ)
    → ((x y i j : ℕ) → x < 320 → y < n → i < 2 → j < 2 → a ≢ quarter x y i j)
    → scaled_rows doom_fb n fb a ≡ fb a
unfolding scaled_rows
scaled_rows-other doom_fb zero fb a off = refl
scaled_rows-other doom_fb (suc n) fb a off =
    scaled_row-other doom_fb n 320 _ a (λ x i j lt hi hj. off x n i j lt (omega arith) hi hj)
    ∙ scaled_rows-other doom_fb n fb a
        (λ x y i j fits lt hi hj. off x y i j fits (omega arith) hi hj)

-- The rendering shows every pixel (x, y) of the 320 * 200 of the picture at its four places of the
-- screen, as a pixel of its red, green and blue, all of them among the 480000 pixels of the screen, and
-- leaves every other index of the frame buffer.
pub render_doom-quarter :
    (doom_fb fb : Pixels)
    → ((x y i j : ℕ)
        → x < 320
        → y < 200
        → i < 2
        → j < 2
        → (render_doom doom_fb fb (quarter x y i j) ≡ vga_pixel (doom_fb (y * 320 + x)))
          × (quarter x y i j < 480000))
      × ((a : ℕ)
          → ((x y i j : ℕ) → x < 320 → y < 200 → i < 2 → j < 2 → a ≢ quarter x y i j)
          → render_doom doom_fb fb a ≡ fb a)
unfolding render_doom
render_doom-quarter doom_fb fb = (
  λ x y i j fits low hi hj.
      (scaled_rows-quarter doom_fb 200 fb x y i j fits low hi hj, omega arith),
  scaled_rows-other doom_fb 200 fb,
)
