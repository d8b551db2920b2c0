-- ===== src/Desktop/Dragging.antt =====
-- Where a window goes that is dragged in src/gui.c.
-- The window lies in the part of the screen above the taskbar.
use sky_net_os.Desktop.Mousing.{drag-held, dragged}
use sky_net_os.Base.{
  refl, inl, inr, true, false, some, sym, subst, pos, update_other, update_same, Bool-cases, arith,
  int_laws, if-true, if-either, ltb_ℤ, ℕ, ℤ, ◌-◌, ◌≡◌, ◌≢◌, ◌⊎◌, ◌∙◌, ◌+ℤ◌, ◌-ℤ◌, ◌≤ℤ◌, ◌<ℤ◌,
}
use sky_net_os.Desktop.Windows.{Window}
use sky_net_os.Desktop.Events.{place, set_window, drag}
use sky_net_os.Desktop.Keys.{Desk}
use sky_net_os.Vga.Pixels.{vga_width, vga_height}

abbrev pub InDesktop : Window → Type 0
InDesktop w = (pos 0 ≤ℤ w.x) × (w.x +ℤ w.w ≤ℤ pos 800) × (pos 0 ≤ℤ w.y) × (w.y +ℤ w.h ≤ℤ pos 576)

not_less : (a b : ℤ) → ltb_ℤ a b ≡ false → b ≤ℤ a
not_less a b h = ground arith

less : (a b : ℤ) → ltb_ℤ a b ≡ true → a <ℤ b
less a b h = ground arith

-- `v` is `at` where a side at `at` fits into `size`, and otherwise the end that is nearer to it.
abbrev pub Nearest : ℕ → ℤ → ℤ → ℤ → Type 0
Nearest size side at v =
    ((v ≡ at) × (pos 0 ≤ℤ at) × (at +ℤ side ≤ℤ pos size))
    ⊎ (((v ≡ pos 0) × (at <ℤ pos 0)) ⊎ ((v ≡ pos size -ℤ side) × (pos size <ℤ at +ℤ side)))

place-Nearest :
    (size : ℕ) (side at : ℤ)
    → pos 0 ≤ℤ side
    → side ≤ℤ pos size
    → Nearest size side at (place size side at)
unfolding place
place-Nearest size side at low high = elim (Bool-cases (ltb_ℤ at (pos 0))) [
  | inl neg ↦
      let under = less at (pos 0) neg in
      rw (place, neg)
        (if-either (Nearest size side at) (ltb_ℤ (pos size) (pos 0 +ℤ side)) (pos size -ℤ side)
          (pos 0) (λ over. absurd (let o = less (pos size) (pos 0 +ℤ side) over in omega int_laws))
          (λ inside. inr (inl (refl, under))))
  | inr fine ↦
      let above = not_less at (pos 0) fine in
      rw (place, fine)
        (if-either (Nearest size side at) (ltb_ℤ (pos size) (at +ℤ side)) (pos size -ℤ side) at
          (λ over. inr (inr (refl, less (pos size) (at +ℤ side) over)))
          (λ inside. inl (refl, above, not_less (pos size) (at +ℤ side) inside)))
]

-- A place by `Nearest` is in range.
Nearest-range :
    (size : ℕ) (side at v : ℤ)
    → pos 0 ≤ℤ side
    → side ≤ℤ pos size
    → Nearest size side at v
    → (pos 0 ≤ℤ v) × (v +ℤ side ≤ℤ pos size)
Nearest-range size side at v low high (inl (e, above, below)) = (rw e above, rw e below)
Nearest-range size side at v low high (inr (inl (e, under))) =
    (rw e (omega arith), rw e (omega int_laws))
Nearest-range size side at v low high (inr (inr (e, over))) =
    (rw e (omega int_laws), rw e (omega int_laws))

-- A drag of the window `i` changes its place only: it follows the mouse, at the distance where it was
-- taken, as far as the desktop reaches.
abbrev pub Dragged : ℕ → Desk → Desk → Type 0
Dragged i d d' =
    InDesktop (d'.gui.windows i)
    × Nearest vga_width (d.gui.windows i).w (d.cursor_x -ℤ d.drag_ox) (d'.gui.windows i).x
    × Nearest (vga_height - 24) (d.gui.windows i).h (d.cursor_y -ℤ d.drag_oy) (d'.gui.windows i).y
    × (d'.gui.windows i
        ≡ record (d.gui.windows i) { x = (d'.gui.windows i).x; y = (d'.gui.windows i).y })
    × ((j : ℕ) → i ≢ j → d'.gui.windows j ≡ d.gui.windows j)

-- A window that is dragged, if it is not larger than the part of the screen above the taskbar, lies inside
-- of that part afterwards, wherever the mouse is. Along each axis it stands at the mouse's
-- place less the offset of the drag where it fits there, and otherwise at the edge it passed; all else of it, its
-- size included, stays, and so do the other windows.
pub drag-Dragged :
    (d : Desk) (i : ℕ)
    → d.dragging ≡ true
    → d.drag_idx ≡ some i
    → pos 0 ≤ℤ (d.gui.windows i).w
    → (d.gui.windows i).w ≤ℤ pos 800
    → pos 0 ≤ℤ (d.gui.windows i).h
    → (d.gui.windows i).h ≤ℤ pos 576
    → Dragged i d (drag d)
unfolding set_window
drag-Dragged d i on held wide fits tall low =
    let w = d.gui.windows i in
    let x' = d.cursor_x -ℤ d.drag_ox in
    let y' = d.cursor_y -ℤ d.drag_oy in
    let near_x = place-Nearest vga_width w.w x' wide fits in
    let near_y = place-Nearest (vga_height - 24) w.h y' tall low in
    let across = Nearest-range vga_width w.w x' _ wide fits near_x in
    let down = Nearest-range (vga_height - 24) w.h y' _ tall low near_y in
    let moved = drag-held d i held ∙ if-true (dragged d i) d on in
    subst (Dragged i d) (sym moved) (
      subst
        (λ v.
          InDesktop v
          × Nearest vga_width w.w x' v.x
          × Nearest (vga_height - 24) w.h y' v.y
          × (v ≡ record w { x = v.x; y = v.y })
          × ((j : ℕ) → i ≢ j → (dragged d i).gui.windows j ≡ d.gui.windows j))
        (sym (update_same d.gui.windows i _))
        (
          (across.0, across.1, down.0, down.1),
          near_x,
          near_y,
          refl,
          λ j other. update_other d.gui.windows i j _ other,
        ))
