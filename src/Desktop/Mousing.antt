-- ===== src/Desktop/Mousing.antt =====
-- The mouse in the event loop of src/gui.c, and the loop as a whole.
use sky_net_os.Base.{
  inl, inr, true, false, none, some, sym, subst, done, Returns-bind, Option-cases, not, arith,
  if-either, Returns, Outcome, ℕ, ℤ, Bool, Option, List, ◌-◌, ◌≡◌, ◌∷◌, ◌&&◌, ◌+ℤ◌, ◌-ℤ◌, [],
  if◌then◌else◌,
}
use sky_net_os.Desktop.Windows.{Gui, window_at, in_close_btn, in_title_bar}
use sky_net_os.Desktop.Rounds.{
  IsDesk, clamp-on_screen, render-IsDesk, RoundOk, on_keyboard-RoundOk, shown,
}
use sky_net_os.Io.Mouse.{input_none, Input, bit_set, input_keyboard, input_mouse}
use sky_net_os.Vga.Pixels.{vga_width, vga_height}
use sky_net_os.Desktop.Events.{
  move_cursor, press_window, press_at, press, drag, finish_mouse, on_mouse, on_input, event_rounds,
  place, set_window, release, on_exit,
}
use sky_net_os.Desktop.Keys.{Desk, Round, Answer}

move_cursor-IsDesk :
    (dx dy : ℤ) (buttons : ℕ) (d : Desk)
    → IsDesk d
    → IsDesk (record (move_cursor dx dy d) { prev_buttons = buttons })
unfolding move_cursor
move_cursor-IsDesk dx dy buttons d h = record {
  across = clamp-on_screen vga_width (d.cursor_x +ℤ dx) (omega arith);
  down = clamp-on_screen vga_height (d.cursor_y +ℤ dy) (omega arith);
  term_ok = h.term_ok;
  input_ok = h.input_ok;
}

-- The windows and the drag may change.
abbrev regrouped : Desk → Gui → Bool → Option ℕ → ℤ → ℤ → Desk
regrouped d g dragging idx ox oy = record d {
  gui = g;
  dragging = dragging;
  drag_idx = idx;
  drag_ox = ox;
  drag_oy = oy;
}

regrouped-IsDesk :
    (d : Desk) (g : Gui) (b : Bool) (i : Option ℕ) (ox oy : ℤ)
    → IsDesk d
    → IsDesk (regrouped d g b i ox oy)
regrouped-IsDesk d g b i ox oy h = record {
  across = h.across;
  down = h.down;
  term_ok = h.term_ok;
  input_ok = h.input_ok;
}

press_window-IsDesk : (i : ℕ) (d : Desk) → IsDesk d → IsDesk (press_window i d)
unfolding press_window
press_window-IsDesk i d h =
    if-either IsDesk (in_close_btn (d.gui.windows i) d.cursor_x d.cursor_y) _ _
      (λ close. regrouped-IsDesk d _ d.dragging d.drag_idx d.drag_ox d.drag_oy h)
      (λ other.
        if-either IsDesk (in_title_bar (d.gui.windows i) d.cursor_x d.cursor_y) _ _
          (λ title. regrouped-IsDesk d _ true (some i) _ _ h)
          (λ inner. regrouped-IsDesk d _ d.dragging d.drag_idx d.drag_ox d.drag_oy h))

press_at-IsDesk : (o : Option ℕ) (d : Desk) → IsDesk d → IsDesk (press_at o d)
unfolding press_at
press_at-IsDesk none d h = h
press_at-IsDesk (some i) d h = press_window-IsDesk i d h

press-IsDesk : (d : Desk) → IsDesk d → IsDesk (press d)
unfolding press
press-IsDesk d h = press_at-IsDesk (window_at d.cursor_x d.cursor_y d.gui) d h

drag-idle : (d : Desk) → d.drag_idx ≡ none → drag d ≡ d
unfolding drag
drag-idle d e = rw e

-- The place of the window `i` that is dragged.
abbrev pub dragged : Desk → ℕ → Desk
dragged d i =
    let w = d.gui.windows i in
    record d {
      gui =
          set_window i
            (record w {
              x = place vga_width w.w (d.cursor_x -ℤ d.drag_ox);
              y = place (vga_height - 24) w.h (d.cursor_y -ℤ d.drag_oy);
            })
            d.gui;
    }

pub drag-held :
    (d : Desk) (i : ℕ) → d.drag_idx ≡ some i → drag d ≡ (if d.dragging then dragged d i else d)
unfolding drag
drag-held d i e = rw e

drag-IsDesk : (d : Desk) → IsDesk d → IsDesk (drag d)
drag-IsDesk d h = elim (Option-cases d.drag_idx) [
  | inl idle ↦ subst IsDesk (sym (drag-idle d idle)) h
  | inr (i, held) ↦ subst IsDesk (sym (drag-held d i held)) (
      if-either IsDesk d.dragging _ _
        (λ on. regrouped-IsDesk d _ d.dragging d.drag_idx d.drag_ox d.drag_oy h) (λ off. h))
]

finish_mouse-IsDesk : (b : Bool) (d : Desk) → IsDesk d → IsDesk (finish_mouse b d)
unfolding finish_mouse release
finish_mouse-IsDesk b d h = render-IsDesk _ (
    drag-IsDesk _ (
      if-either IsDesk b _ d (λ let_go. regrouped-IsDesk d d.gui false none d.drag_ox d.drag_oy h)
        (λ still. h)))

on_mouse-RoundOk :
    (dx dy : ℤ) (buttons : ℕ) (d : Desk) → IsDesk d → RoundOk (on_mouse dx dy buttons d)
unfolding on_mouse
on_mouse-RoundOk dx dy buttons d h =
    let moved = record (move_cursor dx dy d) { prev_buttons = buttons } in
    let ok = move_cursor-IsDesk dx dy buttons d h in
    let pressed = bit_set 0 buttons && not (bit_set 0 d.prev_buttons) in
    if-either RoundOk (pressed && on_exit moved) (false, moved) _ (λ leave. shown moved ok)
      (λ stay.
        finish_mouse-IsDesk _ _
          (if-either IsDesk pressed _ moved (λ down. press-IsDesk moved ok) (λ up. ok)))

on_input-RoundOk :
    (answer : Answer) (input : Input) (d : Desk)
    → IsDesk d
    → Returns RoundOk (on_input answer input d)
unfolding on_input
on_input-RoundOk answer input_none d h = h
on_input-RoundOk answer (input_keyboard scancode) d h = on_keyboard-RoundOk answer scancode d h
on_input-RoundOk answer (input_mouse dx dy buttons) d h = on_mouse-RoundOk dx dy buttons d h

next_round :
    (rest : Desk → Outcome Round)
    → ((d : Desk) → IsDesk d → Returns RoundOk (rest d))
    → (r : Round) → RoundOk r
    → Returns RoundOk (if r.0 then rest r.1 else done r)
next_round rest ok (true, d) h = ok d h
next_round rest ok (false, d) h = h

-- From a desk in order, whatever the inputs are and whatever the commands print, the event loop
-- handles all of the inputs, or leaves at one: it never writes outside the terminal's buffer, and the
-- mouse stays on the screen, the terminal's cursor in its buffer and, while the loop goes on, the input line
-- in its 80 characters. A command that does not come back ends the loop.
pub event_rounds-RoundOk :
    (inputs : List (Input × Answer)) (d : Desk) → IsDesk d → Returns RoundOk (event_rounds inputs d)
unfolding event_rounds
event_rounds-RoundOk [] d h = h
event_rounds-RoundOk ((i, answer) ∷ l) d h =
    Returns-bind RoundOk RoundOk (on_input answer i d) _ (on_input-RoundOk answer i d h)
      (next_round (event_rounds l) (λ d' h'. event_rounds-RoundOk l d' h'))
