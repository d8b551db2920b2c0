-- ===== src/Io/Tests.antt =====
-- Runs of the console, keyboard and mouse on small inputs.
use sky_net_os.Base.{
  refl, true, false, some, pos, negsuc, arith, codes, ◌≡◌, ◌∷◌, ◌++◌, ◌-ℤ◌, [], done,
}
use sky_net_os.Io.Screen.{Console, print_char, place_char, scroll_while, put_cell}
use sky_net_os.Io.Keyboard.{read_char, on_key, keymap, keymap_shift}
use sky_net_os.Io.Line.{read_line, read_loop, read_line_masked, edit_line}
use sky_net_os.Io.Print.{int_text, print_from}
use sky_net_os.Io.Scrolls.{InScreen, SameAbove, print_char-InScreen, print_from-InScreen}
use sky_net_os.Io.Lines.{
  LineFits, Ends, text_of, read_line-LineFits, read_line-Ends, read_line_masked-text_of,
}
use sky_net_os.Io.Mouse.{Mouse, input_poll, input_none, input_mouse}
use sky_net_os.Text.Decimal.{backwards, low_digits}
use sky_net_os.Io.Packets.{aux_status, head_byte, low_byte, input_poll-head_byte}

abbrev screen : Console
screen = record { cursor_pos = 81; video = λ a. 0 }

shown : (print_char 65 screen).video 162 ≡ 65
unfolding print_char place_char scroll_while put_cell
shown = refl

typed : read_char (0x2A ∷ 0x1E ∷ 0xAA ∷ []) false ≡ some (65, 0xAA ∷ [], true)
unfolding read_char on_key keymap keymap_shift
typed = refl

edited :
    text_of (read_line 8 (codes "abc" ++ 8 ∷ 10 ∷ 120 ∷ []) screen) ≡ some (codes "ab", 120 ∷ [])
unfolding read_line read_loop edit_line
edited = refl

minus : int_text (negsuc 41) ≡ done (codes "-42")
unfolding int_text backwards low_digits
minus = refl

abbrev lost : Console
lost = record { cursor_pos = 65535; video = λ a. 0 }

print_char-InScreen_example :
    InScreen (print_char 10 lost)
    × (InScreen lost → SameAbove lost.video (print_char 10 lost).video)
print_char-InScreen_example = print_char-InScreen 10 lost (omega arith)

print_from-InScreen_example :
    InScreen (print_from 0 (codes "hi\n") screen)
    × SameAbove screen.video (print_from 0 (codes "hi\n") screen).video
print_from-InScreen_example = print_from-InScreen 0 (codes "hi\n") screen (omega arith)

read_line-LineFits_example :
    LineFits 8 (read_line 8 (codes "overlong" ++ 10 ∷ []) screen)
    × LineFits 8 (read_line_masked 8 (codes "overlong" ++ 10 ∷ []) screen)
read_line-LineFits_example = read_line-LineFits 8 (codes "overlong" ++ 10 ∷ []) screen (omega arith)

read_line-Ends_example :
    Ends (read_line 8 (codes "ls" ++ 10 ∷ []) screen)
    × Ends (read_line_masked 8 (codes "ls" ++ 10 ∷ []) screen)
read_line-Ends_example = read_line-Ends 8 (codes "ls") [] screen

read_line_masked-text_of_example :
    text_of (read_line_masked 8 (codes "ls" ++ 10 ∷ []) screen)
    ≡ text_of (read_line 8 (codes "ls" ++ 10 ∷ []) screen)
read_line_masked-text_of_example = read_line_masked-text_of 8 (codes "ls" ++ 10 ∷ []) screen

abbrev still : Mouse
still = record { mouse_cycle = 0; mouse_packet = λ k. 0 }

input_poll-head_byte_example :
    (let first = input_poll aux_status (head_byte 1 (negsuc 2) (pos 5)) still in
      let second = input_poll aux_status (low_byte (negsuc 2)) first.1 in
      let third = input_poll aux_status (low_byte (pos 5)) second.1 in
      (first.0 ≡ input_none)
      × (second.0 ≡ input_none)
      × (third.0 ≡ input_mouse (negsuc 2) (pos 0 -ℤ pos 5) 1)
      × (third.1.mouse_cycle ≡ 0))
input_poll-head_byte_example =
    input_poll-head_byte (negsuc 2) (pos 5) 1 still refl (omega arith) (omega arith) (omega arith)
