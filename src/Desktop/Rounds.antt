-- ===== src/Desktop/Rounds.antt =====
-- What every round of the event loop of src/gui.c keeps.
use sky_net_os.Base.{
  true, false, pos, negsuc, length, Returns-bind, arith, Returns, codes, ℕ, ℤ, List, ◌≤◌, ◌<◌, ◌≡◌,
  done, get_or, take, length-append, length-take, ltb, leb, min, if-either, same_text, Bool, ◌-◌,
  ◌∷◌, ◌++◌, ◌&&◌, ◌||◌, ◌==◌, [], if◌then◌else◌, none, some, Option,
}
use sky_net_os.Desktop.Terminal.{Terminal, term_clear, gui_term_putchar}
use sky_net_os.Vga.Pixels.{on_screen, vga_width, vga_height}
use sky_net_os.Desktop.Cursor.{InBuffer, gui_term_print-InBuffer, gui_term_putchar-InBuffer}
use sky_net_os.Desktop.Keys.{
  as_text, as_chars, Desk, Round, print_term, echo_line, with_terminal, do_line, render, set_input,
  after_echo, on_enter, term_input_max, on_term_key, on_keyboard, gui_keymap_shift, term_focused,
  gui_keymap, run_command, Answer, after_line, show_printed, show_all, Printed,
}
use sky_net_os.Desktop.Events.{clamp}
use sky_net_os.Io.Print.{put_chars}

-- The mouse is on the screen, the cursor of the terminal in its buffer, and the input in `term_input`.
pub record IsDesk (d : Desk) : Type 0 where
  pub across : on_screen d.cursor_x vga_width ≡ true
  pub down : on_screen d.cursor_y vga_height ≡ true
  pub term_ok : InBuffer d.term
  pub input_ok : length d.term.input ≤ term_input_max

-- The same without the input, which Enter clears.
pub record IsShown (d : Desk) : Type 0 where
  pub across : on_screen d.cursor_x vga_width ≡ true
  pub down : on_screen d.cursor_y vga_height ≡ true
  pub term_ok : InBuffer d.term

-- A round that goes on leaves a desk in order.
abbrev pub RoundOk : Round → Type 0
RoundOk (true, d) = IsDesk d
RoundOk (false, d) = IsShown d

-- A command that comes back leaves a desk.
abbrev IsAnswered : Option Desk → Type 0
IsAnswered none = Unit
IsAnswered (some d) = IsShown d

pub clamp-on_screen : (size : ℕ) (v : ℤ) → 0 < size → on_screen (clamp size v) size ≡ true
unfolding clamp
clamp-on_screen size (pos n) some_room = ground arith
clamp-on_screen size (negsuc n) some_room = ground arith

print_term-InBuffer :
    (str : List ℕ) (t : Terminal) → InBuffer t → Returns InBuffer (print_term str t)
print_term-InBuffer str t h = gui_term_print-InBuffer (length str) str t h (omega arith)

echo_line-InBuffer :
    (input : List ℕ) (t : Terminal) → InBuffer t → Returns InBuffer (echo_line input t)
unfolding echo_line
echo_line-InBuffer input t h =
    Returns-bind InBuffer InBuffer (print_term (codes "> ") t) _
      (print_term-InBuffer (codes "> ") t h)
      (λ t1 h1.
        Returns-bind InBuffer InBuffer (print_term input t1) _ (print_term-InBuffer input t1 h1)
          (gui_term_putchar-InBuffer 10))

term_clear-InBuffer : (t : Terminal) → InBuffer (term_clear t)
unfolding term_clear
term_clear-InBuffer t = record { row = omega arith; col = omega arith }

IsShown-with_terminal :
    (d : Desk) (t : Terminal) → IsShown d → InBuffer t → IsShown (with_terminal d t)
unfolding with_terminal
IsShown-with_terminal d t h ok = record { across = h.across; down = h.down; term_ok = ok }

put_chars-InBuffer :
    (chars : List ℕ) (t : Terminal) → InBuffer t → Returns InBuffer (put_chars chars t)
unfolding put_chars
put_chars-InBuffer [] t h = h
put_chars-InBuffer (c ∷ chars) t h =
    Returns-bind InBuffer InBuffer (gui_term_putchar c t) _ (gui_term_putchar-InBuffer c t h)
      (put_chars-InBuffer chars)

show_printed-InBuffer :
    (p : Printed) (t : Terminal) → InBuffer t → Returns InBuffer (show_printed p t)
unfolding show_printed
show_printed-InBuffer (as_text text) t h = print_term-InBuffer text t h
show_printed-InBuffer (as_chars chars) t h = put_chars-InBuffer chars t h

show_all-InBuffer : (l : List Printed) (t : Terminal) → InBuffer t → Returns InBuffer (show_all l t)
unfolding show_all
show_all-InBuffer [] t h = h
show_all-InBuffer (p ∷ l) t h =
    Returns-bind InBuffer InBuffer (show_printed p t) _ (show_printed-InBuffer p t h)
      (show_all-InBuffer l)

run_command-IsAnswered :
    (answer : Answer) (d : Desk) → IsShown d → Returns IsAnswered (run_command answer d)
unfolding run_command
run_command-IsAnswered none d h = tt
run_command-IsAnswered (some l) d h =
    Returns-bind InBuffer IsAnswered (show_all l d.term) _ (show_all-InBuffer l d.term h.term_ok)
      (λ t ok. IsShown-with_terminal d t h ok)

do_line-IsAnswered :
    (answer : Answer) (input : List ℕ) (d : Desk)
    → IsShown d
    → Returns IsAnswered (do_line answer input d)
unfolding do_line
do_line-IsAnswered answer input d h =
    if-either (Returns IsAnswered) (same_text input (codes "gui")) _ _
      (λ gui.
        Returns-bind InBuffer IsAnswered (print_term (codes "Already in GUI mode.\n") d.term) _
          (print_term-InBuffer (codes "Already in GUI mode.\n") d.term h.term_ok)
          (λ t ok. IsShown-with_terminal d t h ok))
      (λ not_gui.
        if-either (Returns IsAnswered) (same_text input (codes "clear")) _ _
          (λ clear. IsShown-with_terminal d (term_clear d.term) h (term_clear-InBuffer d.term))
          (λ not_clear.
            if-either (Returns IsAnswered) (ltb 0 (length input)) (run_command answer d)
              (done (some d)) (λ typed. run_command-IsAnswered answer d h) (λ empty. h)))

-- Drawing keeps the desk in order.
pub render-IsDesk : (d : Desk) → IsDesk d → IsDesk (render d)
unfolding render
render-IsDesk d h = record {
  across = h.across;
  down = h.down;
  term_ok = h.term_ok;
  input_ok = h.input_ok;
}

with_input :
    (d : Desk) (input : List ℕ)
    → IsShown d
    → length input ≤ term_input_max
    → IsDesk (set_input input d)
unfolding set_input
with_input d input h fits = record {
  across = h.across;
  down = h.down;
  term_ok = record { row = h.term_ok.row; col = h.term_ok.col };
  input_ok = fits;
}

pub shown : (d : Desk) → IsDesk d → IsShown d
shown d h = record { across = h.across; down = h.down; term_ok = h.term_ok }

after_line-RoundOk :
    (d : Desk) → IsShown d → (o : Option Desk) → IsAnswered o → RoundOk (after_line d o)
unfolding after_line
after_line-RoundOk d h none k = h
after_line-RoundOk d h (some d') k =
    render-IsDesk (set_input [] d') (with_input d' [] k (omega arith))

after_echo-RoundOk :
    (answer : Answer) (input : List ℕ) (d : Desk)
    → IsShown d
    → Returns RoundOk (after_echo answer input d)
unfolding after_echo
after_echo-RoundOk answer input d h =
    if-either (Returns RoundOk) (same_text input (codes "exit")) (done (false, d)) _ (λ leave. h)
      (λ stay.
        Returns-bind IsAnswered RoundOk (do_line answer input d) _
          (do_line-IsAnswered answer input d h) (after_line-RoundOk d h))

on_enter-RoundOk : (answer : Answer) (d : Desk) → IsDesk d → Returns RoundOk (on_enter answer d)
unfolding on_enter
on_enter-RoundOk answer d h =
    Returns-bind InBuffer RoundOk (echo_line d.term.input d.term) _
      (echo_line-InBuffer d.term.input d.term h.term_ok)
      (λ t ok.
        after_echo-RoundOk answer d.term.input (with_terminal d t)
          (IsShown-with_terminal d t (shown d h) ok))

cut_fits : (n m : ℕ) → m ≡ min (n - 1) n → n ≤ term_input_max → m ≤ term_input_max
cut_fits n m e fits = ground arith

on_term_key-RoundOk :
    (answer : Answer) (scancode : ℕ) (d : Desk)
    → IsDesk d
    → Returns RoundOk (on_term_key answer scancode d)
unfolding on_term_key
on_term_key-RoundOk answer scancode d h =
    let input = d.term.input in
    let ch = get_or (if d.shift_held then gui_keymap_shift else gui_keymap) scancode 0 in
    let shorter = length-take (length input - 1) input in
    let longer = length-append input (ch ∷ []) in
    if-either (Returns RoundOk) (scancode == 0x1C) (on_enter answer d) _
      (λ enter. on_enter-RoundOk answer d h)
      (λ other.
        if-either (Returns RoundOk) (scancode == 0x0E) _ _
          (λ back. render-IsDesk _ (
            with_input d (take (length input - 1) input) (shown d h)
              (cut_fits (length input) _ shorter h.input_ok)))
          (λ key.
            if-either (Returns RoundOk)
              (leb 32 ch && leb ch 126 && ltb (length input) term_input_max) _ _
              (λ typed.
                render-IsDesk _ (with_input d (input ++ ch ∷ []) (shown d h) (ground arith)))
              (λ ignored. h)))

pub on_keyboard-RoundOk :
    (answer : Answer) (scancode : ℕ) (d : Desk)
    → IsDesk d
    → Returns RoundOk (on_keyboard answer scancode d)
unfolding on_keyboard
on_keyboard-RoundOk answer scancode d h =
    let held : (b : Bool) → IsDesk (record d { shift_held = b }) = λ b. record {
      across = h.across;
      down = h.down;
      term_ok = h.term_ok;
      input_ok = h.input_ok;
    } in
    if-either (Returns RoundOk) (scancode == 0x2A || scancode == 0x36) _ _ (λ e. held true)
      (λ e.
        if-either (Returns RoundOk) (scancode == 0xAA || scancode == 0xB6) _ _ (λ f. held false)
          (λ f.
            if-either (Returns RoundOk) (leb 0x80 scancode) _ _ (λ g. h)
              (λ g.
                if-either (Returns RoundOk) (scancode == 0x01) (done (false, d)) _ (λ i. shown d h)
                  (λ i.
                    if-either (Returns RoundOk) (term_focused d.gui) (on_term_key answer scancode d)
                      (done (true, d)) (λ j. on_term_key-RoundOk answer scancode d h) (λ j. h)))))
