-- ===== src/Desktop/Events.antt =====
-- One round of the event loop of src/gui.c, for an input that `input_poll` returns and the answer of
-- `handle_command` to the line, if the input ends one.
use sky_net_os.Base.{
  true, false, none, some, done, pos, not, update, Outcome, ltb_ℤ, leb_ℤ, codes, ℕ, ℤ, Bool, Option,
  List, ◌-◌, ◌∷◌, ◌&&◌, ◌==◌, ◌+ℤ◌, ◌-ℤ◌, [], if◌then◌else◌, ◌>>=◌,
}
use sky_net_os.Desktop.Windows.{Gui, Window, in_close_btn, window_at, in_title_bar, raise_window}
use sky_net_os.Desktop.Terminal.{term_clear}
use sky_net_os.Vga.Pixels.{vga_width, vga_height}
use sky_net_os.Io.Mouse.{input_none, bit_set, Input, input_keyboard, input_mouse}
use sky_net_os.Desktop.Keys.{Desk, render, Round, on_keyboard, print_term, Answer}

-- `if (v < 0) v = 0; if (v >= size) v = size - 1;`
unfoldable pub clamp : ℕ → ℤ → ℤ
clamp size v =
    let low = if ltb_ℤ v (pos 0) then pos 0 else v in
    if leb_ℤ (pos size) low then pos (size - 1) else low

unfoldable pub set_window : ℕ → Window → Gui → Gui
set_window i w g = record g { windows = update g.windows i w }

unfoldable pub move_cursor : ℤ → ℤ → Desk → Desk
move_cursor dx dy d = record d {
  cursor_x = clamp vga_width (d.cursor_x +ℤ dx);
  cursor_y = clamp vga_height (d.cursor_y +ℤ dy);
}

-- The Exit button of the taskbar.
unfoldable pub on_exit : Desk → Bool
on_exit d =
    leb_ℤ (pos 748) d.cursor_x
    && ltb_ℤ d.cursor_x (pos 792)
    && leb_ℤ (pos 580) d.cursor_y
    && ltb_ℤ d.cursor_y (pos 596)

-- Closing takes the focus away from the window.
unfoldable pub close_window : ℕ → Gui → Gui
close_window i g =
    let closed = set_window i (record (g.windows i) { active = false }) g in
    elim g.focused [
      | none ↦ closed
      | some j ↦ if j == i then record closed { focused = none } else closed
    ]

-- A press on the window `i`.
unfoldable pub press_window : ℕ → Desk → Desk
press_window i d =
    let w = d.gui.windows i in
    if in_close_btn w d.cursor_x d.cursor_y
    then record d { gui = close_window i d.gui }
    else if in_title_bar w d.cursor_x d.cursor_y
    then record d {
      gui = raise_window i d.gui;
      dragging = true;
      drag_idx = some i;
      drag_ox = d.cursor_x -ℤ w.x;
      drag_oy = d.cursor_y -ℤ w.y;
    }
    else record d { gui = raise_window i d.gui }

-- A press on what `window_at` has found.
unfoldable pub press_at : Option ℕ → Desk → Desk
press_at none d = d
press_at (some i) d = press_window i d

unfoldable pub press : Desk → Desk
press d = press_at (window_at d.cursor_x d.cursor_y d.gui) d

-- The guards on the place of a dragged window, along one axis of `size` pixels.
unfoldable pub place : ℕ → ℤ → ℤ → ℤ
place size side at =
    let low = if ltb_ℤ at (pos 0) then pos 0 else at in
    if ltb_ℤ (pos size) (low +ℤ side) then pos size -ℤ side else low

unfoldable pub drag : Desk → Desk
drag d = elim d.drag_idx [
  | none ↦ d
  | some i ↦
      let w = d.gui.windows i in
      if d.dragging
      then record d {
        gui =
            set_window i
              (record w {
                x = place vga_width w.w (d.cursor_x -ℤ d.drag_ox);
                y = place (vga_height - 24) w.h (d.cursor_y -ℤ d.drag_oy);
              })
              d.gui;
      }
      else d
]

unfoldable pub release : Desk → Desk
release d = record d { dragging = false; drag_idx = none }

-- The part of a mouse event after the press.
unfoldable pub finish_mouse : Bool → Desk → Desk
finish_mouse just_released d = render (drag (if just_released then release d else d))

unfoldable pub on_mouse : ℤ → ℤ → ℕ → Desk → Round
on_mouse dx dy buttons d =
    let just_pressed = bit_set 0 buttons && not (bit_set 0 d.prev_buttons) in
    let just_released = not (bit_set 0 buttons) && bit_set 0 d.prev_buttons in
    let moved = record (move_cursor dx dy d) { prev_buttons = buttons } in
    if just_pressed && on_exit moved
    then (false, moved)
    else (true, finish_mouse just_released (if just_pressed then press moved else moved))

unfoldable pub on_input : Answer → Input → Desk → Outcome Round
on_input answer input_none d = done (true, d)
on_input answer (input_keyboard scancode) d = on_keyboard answer scancode d
on_input answer (input_mouse dx dy buttons) d = done (on_mouse dx dy buttons d)

-- The loop over the inputs; it ends early where a round leaves it.
unfoldable pub event_rounds : List (Input × Answer) → Desk → Outcome Round
event_rounds [] d = done (true, d)
event_rounds ((i, answer) ∷ l) d = do
  r ← on_input answer i d
  if r.0 then event_rounds l r.1 else done r

-- What `gui_event_loop` does before its loop.
unfoldable pub gui_event_loop : List (Input × Answer) → Desk → Outcome Round
gui_event_loop inputs d = do
  t ← print_term (codes "SkyNet Terminal v3.0\nType 'help' for commands.\n\n") d.term
  event_rounds inputs (
      render (record d {
        term = t;
        cursor_x = pos 400;
        cursor_y = pos 300;
        shift_held = false;
        dragging = false;
        drag_idx = none;
        drag_ox = pos 0;
        drag_oy = pos 0;
        prev_buttons = 0;
      }))

-- `gui_init`, but for the display mode and `io_set_gui_output`, which Io/Print has.
unfoldable pub gui_init : Desk → Desk
gui_init d = record d {
  gui = record d.gui { z_order = []; focused = none; desktop_color = 1 };
  term = term_clear d.term;
}
