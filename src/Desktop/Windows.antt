-- ===== src/Desktop/Windows.antt =====
-- Windows, their stacking and the hit tests of src/gui.c.
use sky_net_os.Base.{
  true, false, none, some, pos, length, take, ltb, update, ltb_ℤ, leb_ℤ, ℕ, ℤ, Bool, Option, List,
  ◌∷◌, ◌++◌, ◌&&◌, ◌||◌, ◌==◌, ◌+ℤ◌, ◌-ℤ◌, [], if◌then◌else◌,
}

abbrev pub max_windows : ℕ
max_windows = 8

pub data WindowType : Type 0 where
  generic sysmon about terminal : WindowType

-- `window_t`; `title` is the text of `strncpy`, which copies at most 31 bytes.
pub record Window : Type 0 where
  pub x : ℤ
  pub y : ℤ
  pub w : ℤ
  pub h : ℤ
  pub bg_color : ℕ
  pub title : List ℕ
  pub active : Bool
  pub kind : WindowType

-- `gui_t`. `z_order` holds its first `window_count` entries, the back first; `focused` is `none` for
-- -1.
pub record Gui : Type 0 where
  pub windows : ℕ → Window
  pub z_order : List ℕ
  pub focused : Option ℕ
  pub desktop_color : ℕ

unfoldable pub gui_create_window : List ℕ → ℤ → ℤ → ℤ → ℤ → ℕ → WindowType → Gui → Gui
gui_create_window title x y w h color kind g =
    let idx = length g.z_order in
    if ltb idx max_windows
    then record g {
      windows = update g.windows idx (record {
        x = x;
        y = y;
        w = w;
        h = h;
        bg_color = color;
        title = take 31 title;
        active = true;
        kind = kind;
      });
      z_order = g.z_order ++ idx ∷ [];
    }
    else g

-- The search of `raise_window`.
unfoldable pub stacked : ℕ → List ℕ → Bool
stacked idx [] = false
stacked idx (i ∷ z) = i == idx || stacked idx z

-- The shift of `raise_window`, which takes out the entry that the search has found.
unfoldable pub without : ℕ → List ℕ → List ℕ
without idx [] = []
without idx (i ∷ z) = let rest = i ∷ without idx z in if i == idx then z else rest

unfoldable pub raise_window : ℕ → Gui → Gui
raise_window idx g =
    if stacked idx g.z_order
    then record g { z_order = without idx g.z_order ++ idx ∷ []; focused = some idx }
    else g

-- What the loop of `window_at` tests for one window.
unfoldable pub covers : ℤ → ℤ → Window → Bool
covers px py w =
    w.active && (leb_ℤ w.x px && ltb_ℤ px (w.x +ℤ w.w) && leb_ℤ w.y py && ltb_ℤ py (w.y +ℤ w.h))

-- The loop of `window_at`, from the last entry to the first.
unfoldable pub topmost : (ℕ → Bool) → List ℕ → Option ℕ
topmost hit [] = none
topmost hit (i ∷ z) = elim (topmost hit z) [
  | some j ↦ some j
  | none ↦ if hit i then some i else none
]

unfoldable pub window_at : ℤ → ℤ → Gui → Option ℕ
window_at px py g = topmost (λ i. covers px py (g.windows i)) g.z_order

unfoldable pub in_title_bar : Window → ℤ → ℤ → Bool
in_title_bar w px py =
    leb_ℤ w.x px && ltb_ℤ px (w.x +ℤ w.w -ℤ pos 14) && leb_ℤ w.y py && ltb_ℤ py (w.y +ℤ pos 15)

unfoldable pub in_close_btn : Window → ℤ → ℤ → Bool
in_close_btn w px py =
    leb_ℤ (w.x +ℤ w.w -ℤ pos 14) px
    && ltb_ℤ px (w.x +ℤ w.w -ℤ pos 2)
    && leb_ℤ (w.y +ℤ pos 2) py
    && ltb_ℤ py (w.y +ℤ pos 12)
