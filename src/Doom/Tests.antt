-- ===== src/Doom/Tests.antt =====
-- Runs of the port of DOOM on small inputs.
use sky_net_os.Base.{
  refl, true, some, pos, negsuc, arith, int_laws, codes, same_text, ℕ, List, ◌+◌, ◌*◌, ◌<◌, ◌≡◌,
  ◌≢◌, ◌∷◌, ◌+ℤ◌, [],
}
use sky_net_os.Doom.Wad.{
  my_doom_read_file, my_doom_seek_file, is_wad, read_count, doom_seek_end, wad_size, u32_of, int_of,
}
use sky_net_os.Doom.Keys.{on_scancode, translate_key, key_call, key_up, up_arrow}
use sky_net_os.Doom.Screen.{render_doom, quarter, vga_pixel, render_doom-quarter}
use sky_net_os.Doom.Reading.{got, my_doom_read_file-take}
use sky_net_os.Doom.Seeking.{nearest, my_doom_seek_file-nearest}

abbrev bytes : List ℕ
bytes = 73 ∷ 87 ∷ 65 ∷ 68 ∷ 9 ∷ []

read_some : my_doom_read_file bytes (pos 1) (pos 2) ≡ got 2 (87 ∷ 65 ∷ []) 3
unfolding my_doom_read_file read_count wad_size u32_of int_of ◌+ℤ◌
read_some = refl

-- A count below 0 that reaches before the start reads all that is left.
read_negative : my_doom_read_file bytes (pos 0) (negsuc 0) ≡ got 5 bytes 5
unfolding my_doom_read_file read_count wad_size u32_of int_of ◌+ℤ◌
read_negative = refl

my_doom_read_file-take_example : my_doom_read_file bytes (pos 3) (pos 4) ≡ got 2 (68 ∷ 9 ∷ []) 5
my_doom_read_file-take_example =
    my_doom_read_file-take bytes 3 4 (omega arith) (omega arith) (omega arith)

my_doom_seek_file-nearest_example :
    my_doom_seek_file bytes (pos 2) (negsuc 0) doom_seek_end ≡ nearest 5 (pos 5 +ℤ negsuc 0)
my_doom_seek_file-nearest_example =
    my_doom_seek_file-nearest bytes (pos 2) (negsuc 0) doom_seek_end (omega arith) (omega arith)
      (omega arith) (omega int_laws)

wad_name : is_wad (codes "/doom1.wad") ≡ true
unfolding is_wad same_text
wad_name = refl

pedal : on_scancode 0x91 ≡ some (key_up up_arrow)
unfolding on_scancode translate_key key_call
pedal = refl

abbrev picture : ℕ → ℕ
picture k = k

abbrev black : ℕ → ℕ
black k = 0

render_doom-quarter_example :
    ((x y i j : ℕ)
      → x < 320
      → y < 200
      → i < 2
      → j < 2
      → (render_doom picture black (quarter x y i j) ≡ vga_pixel (picture (y * 320 + x)))
        × (quarter x y i j < 480000))
    × ((a : ℕ)
        → ((x y i j : ℕ) → x < 320 → y < 200 → i < 2 → j < 2 → a ≢ quarter x y i j)
        → render_doom picture black a ≡ black a)
render_doom-quarter_example = render_doom-quarter picture black
