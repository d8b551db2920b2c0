-- ===== src/Desktop/Keys.antt =====
-- The keyboard in the event loop of src/gui.c, and the state of the loop. What `handle_command` does with
-- a command is an input of the round, an `Answer`.
use sky_net_os.Base.{
  true, false, none, some, done, length, get_or, take, ltb, leb, Outcome, codes, same_text, ℕ, ℤ,
  Bool, Option, List, ◌-◌, ◌∷◌, ◌++◌, ◌&&◌, ◌||◌, ◌==◌, [], if◌then◌else◌, ◌>>=◌,
}
use sky_net_os.Desktop.Windows.{terminal, generic, sysmon, about, Gui, WindowType}
use sky_net_os.Desktop.Contents.{gui_full_render}
use sky_net_os.Desktop.Terminal.{Terminal, term_clear, gui_term_print, gui_term_putchar}
use sky_net_os.Vga.Pixels.{Buffer}
use sky_net_os.Io.Print.{put_chars}

unfoldable pub gui_keymap : List ℕ
gui_keymap =
    0 ∷ 27 ∷ 49 ∷ 50 ∷ 51 ∷ 52 ∷ 53 ∷ 54 ∷ 55 ∷ 56 ∷ 57 ∷ 48 ∷ 45 ∷ 61 ∷ 8 ∷ 9 ∷ 113 ∷ 119 ∷ 101
    ∷ 114 ∷ 116 ∷ 121 ∷ 117 ∷ 105 ∷ 111 ∷ 112 ∷ 91 ∷ 93 ∷ 10 ∷ 0 ∷ 97 ∷ 115 ∷ 100 ∷ 102 ∷ 103 ∷ 104
    ∷ 106 ∷ 107 ∷ 108 ∷ 59 ∷ 39 ∷ 96 ∷ 0 ∷ 92 ∷ 122 ∷ 120 ∷ 99 ∷ 118 ∷ 98 ∷ 110 ∷ 109 ∷ 44 ∷ 46 ∷ 47
    ∷ 0 ∷ 42 ∷ 0 ∷ 32 ∷ []

unfoldable pub gui_keymap_shift : List ℕ
gui_keymap_shift =
    0 ∷ 27 ∷ 33 ∷ 64 ∷ 35 ∷ 36 ∷ 37 ∷ 94 ∷ 38 ∷ 42 ∷ 40 ∷ 41 ∷ 95 ∷ 43 ∷ 8 ∷ 9 ∷ 81 ∷ 87 ∷ 69 ∷ 82
    ∷ 84 ∷ 89 ∷ 85 ∷ 73 ∷ 79 ∷ 80 ∷ 123 ∷ 125 ∷ 10 ∷ 0 ∷ 65 ∷ 83 ∷ 68 ∷ 70 ∷ 71 ∷ 72 ∷ 74 ∷ 75 ∷ 76
    ∷ 58 ∷ 34 ∷ 126 ∷ 0 ∷ 124 ∷ 90 ∷ 88 ∷ 67 ∷ 86 ∷ 66 ∷ 78 ∷ 77 ∷ 60 ∷ 62 ∷ 63 ∷ 0 ∷ 42 ∷ 0 ∷ 32
    ∷ []

abbrev pub term_input_max : ℕ
term_input_max = 80

-- The variables of src/gui.c, those of `gui_event_loop`, and the frame buffer; `drag_idx` is `none`
-- for -1.
pub record Desk : Type 0 where
  pub gui : Gui
  pub term : Terminal
  pub cursor_x : ℤ
  pub cursor_y : ℤ
  pub shift_held : Bool
  pub dragging : Bool
  pub drag_idx : Option ℕ
  pub drag_ox : ℤ
  pub drag_oy : ℤ
  pub prev_buttons : ℕ
  pub screen : Buffer

-- Whether the loop goes on, and the state.
abbrev pub Round : Type 0
Round = Bool × Desk

unfoldable pub render : Desk → Desk
render d = record d { screen = gui_full_render d.gui d.term d.cursor_x d.cursor_y d.screen }

unfoldable pub with_terminal : Desk → Terminal → Desk
with_terminal d t = record d { term = t }

unfoldable pub is_terminal : WindowType → Bool
is_terminal terminal = true
is_terminal generic = false
is_terminal sysmon = false
is_terminal about = false

-- The focused window is an active terminal.
unfoldable pub term_focused : Gui → Bool
term_focused g = elim g.focused [
  | none ↦ false
  | some i ↦ is_terminal (g.windows i).kind && (g.windows i).active
]

-- `gui_term_print`, with fuel for the whole text.
abbrev pub print_term : List ℕ → Terminal → Outcome Terminal
print_term str t = gui_term_print (length str) str t

-- The echo of the line that Enter ends.
unfoldable pub echo_line : List ℕ → Terminal → Outcome Terminal
echo_line input t = do
  t1 ← print_term (codes "> ") t
  t2 ← print_term input t1
  gui_term_putchar 10 t2

-- What a call of `print` or `print_int` puts on the terminal where `gui_output_mode` is on: a text by
-- `gui_term_print`, or the characters of a number by `gui_term_putchar`.
pub data Printed : Type 0 where
  as_text as_chars : List ℕ → Printed

-- What `handle_command` (Shell/Run) does with a line, as far as the desktop sees it: what it prints, or
-- `none` where it does not come back to the loop, or takes the screen ("gui &" and "doom").
abbrev pub Answer : Type 0
Answer = Option (List Printed)

unfoldable pub show_printed : Printed → Terminal → Outcome Terminal
show_printed (as_text text) t = print_term text t
show_printed (as_chars chars) t = put_chars chars t

unfoldable pub show_all : List Printed → Terminal → Outcome Terminal
show_all [] t = done t
show_all (p ∷ l) t = do t' ← show_printed p t; show_all l t'

unfoldable pub run_command : Answer → Desk → Outcome (Option Desk)
run_command none d = done none
run_command (some l) d = do t ← show_all l d.term; done (some (with_terminal d t))

-- What the line does, unless it is "exit".
unfoldable pub do_line : Answer → List ℕ → Desk → Outcome (Option Desk)
do_line answer input d =
    if same_text input (codes "gui")
    then (do
      t ← print_term (codes "Already in GUI mode.\n") d.term
      done (some (with_terminal d t)))
    else if same_text input (codes "clear")
    then done (some (with_terminal d (term_clear d.term)))
    else if ltb 0 (length input)
    then run_command answer d
    else done (some d)

unfoldable pub set_input : List ℕ → Desk → Desk
set_input input d = record d { term = record d.term { input = input } }

-- The end of a round with Enter; where the command does not come back, `d` is the desk before it.
unfoldable pub after_line : Desk → Option Desk → Round
after_line d none = (false, d)
after_line d (some d') = (true, render (set_input [] d'))

-- What follows the echo.
unfoldable pub after_echo : Answer → List ℕ → Desk → Outcome Round
after_echo answer input d =
    if same_text input (codes "exit")
    then done (false, d)
    else (do o ← do_line answer input d; done (after_line d o))

unfoldable pub on_enter : Answer → Desk → Outcome Round
on_enter answer d = do
  t ← echo_line d.term.input d.term
  after_echo answer d.term.input (with_terminal d t)

-- The keys that go to the terminal.
unfoldable pub on_term_key : Answer → ℕ → Desk → Outcome Round
on_term_key answer scancode d =
    let input = d.term.input in
    let ch = get_or (if d.shift_held then gui_keymap_shift else gui_keymap) scancode 0 in
    if scancode == 0x1C
    then on_enter answer d
    else if scancode == 0x0E
    then done (true, render (set_input (take (length input - 1) input) d))
    else if leb 32 ch && leb ch 126 && ltb (length input) term_input_max
    then done (true, render (set_input (input ++ ch ∷ []) d))
    else done (true, d)

unfoldable pub on_keyboard : Answer → ℕ → Desk → Outcome Round
on_keyboard answer scancode d =
    if scancode == 0x2A || scancode == 0x36
    then done (true, record d { shift_held = true })
    else if scancode == 0xAA || scancode == 0xB6
    then done (true, record d { shift_held = false })
    else if leb 0x80 scancode
    then done (true, d)
    else if scancode == 0x01
    then done (false, d)
    else if term_focused d.gui
    then on_term_key answer scancode d
    else done (true, d)
