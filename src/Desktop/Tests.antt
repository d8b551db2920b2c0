-- ===== src/Desktop/Tests.antt =====
-- Runs of the desktop (src/gui.c) at concrete states.
use sky_net_os.Desktop.Keys.{as_text, as_chars, Desk, Answer}
use sky_net_os.Io.Mouse.{input_mouse, input_keyboard, Input}
use sky_net_os.Base.{
  refl, true, none, some, pos, arith, Returns, ◌≡◌, ◌∷◌, [], negsuc, ℕ, false, List, codes,
}
use sky_net_os.Desktop.Windows.{terminal, Window, Gui, generic, covers, window_at}
use sky_net_os.Desktop.Stacking.{Topmost, window_at-Topmost}
use sky_net_os.Desktop.Terminal.{Terminal, gui_term_print}
use sky_net_os.Desktop.Cursor.{InBuffer, gui_term_print-InBuffer}
use sky_net_os.Desktop.Contents.{gui_full_render}
use sky_net_os.Desktop.Inside.{gui_full_render-Keeps}
use sky_net_os.Desktop.Rounds.{IsDesk, RoundOk}
use sky_net_os.Desktop.Mousing.{event_rounds-RoundOk}
use sky_net_os.Desktop.Events.{event_rounds, drag}
use sky_net_os.Desktop.Dragging.{Dragged, drag-Dragged}

abbrev blank : Window
blank = record {
  x = pos 0;
  y = pos 0;
  w = pos 100;
  h = pos 80;
  bg_color = 7;
  title = [];
  active = true;
  kind = generic;
}

-- Two windows, one over the other.
abbrev two_windows : Gui
two_windows = record {
  windows = λ i. blank;
  z_order = 0 ∷ 1 ∷ [];
  focused = none;
  desktop_color = 1;
}

window_at-Topmost_example :
    Topmost (λ i. covers (pos 5) (pos 6) blank) (0 ∷ 1 ∷ []) (window_at (pos 5) (pos 6) two_windows)
window_at-Topmost_example = window_at-Topmost (pos 5) (pos 6) two_windows

-- The cursor behind the last column of the last row.
abbrev full : Terminal
full = record { buf = λ row col. 0; cur_row = 39; cur_col = 52; input = [] }

gui_term_print-InBuffer_example : Returns InBuffer (gui_term_print 2 (65 ∷ 10 ∷ []) full)
gui_term_print-InBuffer_example =
    gui_term_print-InBuffer 2 (65 ∷ 10 ∷ []) full (record { row = omega arith; col = omega arith })
      (omega arith)

abbrev dark : ℕ → ℕ
dark a = 0

gui_full_render-Keeps_example :
    gui_full_render two_windows full (pos 790) (negsuc 4) dark 480000 ≡ dark 480000
gui_full_render-Keeps_example =
    gui_full_render-Keeps two_windows full (pos 790) (negsuc 4) dark 480000 (omega arith)

-- A desk with the two windows, the second one dragged.
abbrev desk : Desk
desk = record {
  gui = two_windows;
  term = full;
  cursor_x = pos 5;
  cursor_y = pos 6;
  shift_held = false;
  dragging = true;
  drag_idx = some 1;
  drag_ox = pos 2;
  drag_oy = pos 3;
  prev_buttons = 1;
  screen = dark;
}

desk-IsDesk : IsDesk desk
desk-IsDesk = record {
  across = refl;
  down = refl;
  term_ok = record { row = omega arith; col = omega arith };
  input_ok = omega arith;
}

-- A desk with a focused terminal, the line "ls" in it.
abbrev typing : Desk
typing = record desk {
  gui = record two_windows { windows = λ i. record blank { kind = terminal }; focused = some 0 };
  term = record full { input = codes "ls" };
}

typing-IsDesk : IsDesk typing
typing-IsDesk = record {
  across = refl;
  down = refl;
  term_ok = record { row = omega arith; col = omega arith };
  input_ok = omega arith;
}

-- The mouse moves, and Enter runs the line, which prints a text and a number.
abbrev evening : List (Input × Answer)
evening =
    (input_mouse (negsuc 9) (pos 4) 0, none)
    ∷ (input_keyboard 0x1C, some (as_text (codes "[FILE] a") ∷ as_chars (codes "12") ∷ []))
    ∷ []

event_rounds-RoundOk_example : Returns RoundOk (event_rounds evening typing)
event_rounds-RoundOk_example = event_rounds-RoundOk evening typing typing-IsDesk

drag-Dragged_example : Dragged 1 desk (drag desk)
drag-Dragged_example =
    drag-Dragged desk 1 refl refl (omega arith) (omega arith) (omega arith) (omega arith)
