-- ===== src/Io/Screen.antt =====
-- The text screen of src/io.c: 25 rows of 80 characters with an attribute byte each.
use sky_net_os.Base.{
  zero, suc, ltb, leb, not, update, ℕ, ◌+◌, ◌-◌, ◌*◌, ◌%◌, ◌^◌, ◌&&◌, ◌==◌, if◌then◌else◌,
}

abbrev pub screen_cols : ℕ
screen_cols = 80

abbrev pub screen_rows : ℕ
screen_rows = 25

abbrev pub Video : Type 0
Video = ℕ → ℕ

-- `cursor_pos`, a `uint16_t`, and the bytes from `video_memory` on.
pub record Console : Type 0 where
  pub cursor_pos : ℕ
  pub video : Video

-- The first loop of `scroll_screen`, `n` bytes from `i` on.
unfoldable pub move_rows : ℕ → ℕ → Video → Video
move_rows zero i video = video
move_rows (suc n) i video = move_rows n (i + 1) (update video i (video (i + screen_cols * 2)))

-- A loop that clears `n` characters from the byte `i` on.
unfoldable pub blank_cells : ℕ → ℕ → Video → Video
blank_cells zero i video = video
blank_cells (suc n) i video = blank_cells n (i + 2) (update (update video i 32) (i + 1) 0x07)

unfoldable pub scroll_screen : Video → Video
scroll_screen video =
    blank_cells screen_cols ((screen_rows - 1) * screen_cols * 2)
      (move_rows ((screen_rows - 1) * screen_cols * 2) 0 video)

-- `cursor_pos` after an assignment, 16 bits wide.
abbrev pub u16 : ℕ → ℕ
u16 n = n % 2 ^ 16

-- A character and its attribute in the cell of the cursor.
unfoldable pub put_cell : ℕ → ℕ → Video → Video
put_cell p c video = update (update video (p * 2) c) (p * 2 + 1) 0x07

-- The branches of `print_char` before its loop.
unfoldable pub place_char : ℕ → Console → Console
place_char c s =
    let p = s.cursor_pos in
    if c == 10
    then record s { cursor_pos = u16 (p + (screen_cols - p % screen_cols)) }
    else if c == 8
    then (if ltb 0 p then record { cursor_pos = p - 1; video = put_cell (p - 1) 32 s.video } else s)
    else if c == 9
    then record s { cursor_pos = u16 (p + (8 - p % 8)) }
    else if leb 32 c && not (c == 127)
    then record { cursor_pos = u16 (p + 1); video = put_cell p c s.video }
    else s

-- The `while` loop of `print_char`, for at most `fuel` rounds.
unfoldable pub scroll_while : ℕ → Console → Console
scroll_while zero s = s
scroll_while (suc fuel) s =
    let next =
      scroll_while fuel
        (record { cursor_pos = s.cursor_pos - screen_cols; video = scroll_screen s.video }) in
    if leb (screen_cols * screen_rows) s.cursor_pos then next else s

-- 2 ^ 16 / 80 rounds are enough for every `cursor_pos`.
abbrev pub scroll_rounds : ℕ
scroll_rounds = 820

unfoldable pub print_char : ℕ → Console → Console
print_char c s = scroll_while scroll_rounds (place_char c s)

unfoldable pub clear_screen : Console → Console
clear_screen s = record {
  cursor_pos = 0;
  video = blank_cells (screen_cols * screen_rows) 0 s.video;
}
