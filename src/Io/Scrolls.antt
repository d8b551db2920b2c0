-- ===== src/Io/Scrolls.antt =====
-- The text screen of src/io.c: what scrolling does to it, and that printing stays in it.
use native.Mathlib.Decide.{ℕ_discrete}
use sky_net_os.Base.{
  zero, suc, refl, inl, inr, ap, Bool-cases, ltb, leb, arith, update, if-true, if-false, ℕ, ◌+◌,
  ◌-◌, ◌*◌, ◌%◌, ◌^◌, ◌≤◌, ◌<◌, ◌≡◌, ◌∙◌, ◌&&◌, ◌==◌, if◌then◌else◌, none, some, sym, subst, Option,
  List, ◌∷◌, [],
}
use sky_net_os.Io.Screen.{
  move_rows, blank_cells, scroll_screen, Console, Video, scroll_while, place_char, print_char,
  screen_cols, put_cell, scroll_rounds,
}
use sky_net_os.Io.Print.{print_option, print_from, print_step}

-- The first byte of a loop of moves, and the others.
move_first :
    (n i : ℕ) (video : Video) (a : ℕ)
    → (if leb (i + 1) a && ltb a (i + 1 + n)
        then update video i (video (i + 160)) (a + 160)
        else update video i (video (i + 160)) a)
      ≡ (if leb i a && ltb a (i + suc n) then video (a + 160) else video a)
move_first n i video a = elim (ℕ_discrete i a) [
  | yes e ↦
      subst
        (λ b.
          (if leb (i + 1) b && ltb b (i + 1 + n)
            then update video i (video (i + 160)) (b + 160)
            else update video i (video (i + 160)) b)
          ≡ (if leb i b && ltb b (i + suc n) then video (b + 160) else video b))
        e (ground arith)
  | no ne ↦ ground arith
]

move_rows_lem :
    (n i : ℕ) (video : Video) (a : ℕ)
    → move_rows n i video a
      ≡ (if leb i a && ltb a (i + n) then video (a + screen_cols * 2) else video a)
unfolding move_rows
move_rows_lem zero i video a = ground arith
move_rows_lem (suc n) i video a =
    move_rows_lem n (i + 1) (update video i (video (i + screen_cols * 2))) a
    ∙ move_first n i video a

blank_cells_lem :
    (n i : ℕ) (video : Video) (a : ℕ)
    → blank_cells n i video a
      ≡ (if leb i a && ltb a (i + n * 2) then (if (a - i) % 2 == 0 then 32 else 7) else video a)
unfolding blank_cells
blank_cells_lem zero i video a = ground arith
blank_cells_lem (suc n) i video a =
    blank_cells_lem n (i + 2) (update (update video i 32) (i + 1) 7) a ∙ ground arith

-- The screen after one line of scrolling, as a formula: every row but the last holds the one below it,
-- the last row holds spaces, and what is not on the screen stays.
pub scroll_screen_lem :
    (video : Video) (a : ℕ)
    → scroll_screen video a ≡ (
        if ltb a 3840
        then video (a + 160)
        else if ltb a 4000
        then (if a % 2 == 0 then 32 else 7)
        else video a)
unfolding scroll_screen
scroll_screen_lem video a =
    let moved = move_rows_lem 3840 0 video a in
    blank_cells_lem 80 3840 (move_rows 3840 0 video) a ∙ ground arith

-- The cursor is on the screen.
abbrev pub InScreen : Console → Type 0
InScreen s = s.cursor_pos < 2000

-- The bytes after the screen's are those of `old`.
abbrev pub SameAbove : Video → Video → Type 0
SameAbove old new = (a : ℕ) → 4000 ≤ a → new a ≡ old a

-- One round of the loop.
abbrev scrolled : Console → Console
scrolled s = record { cursor_pos = s.cursor_pos - screen_cols; video = scroll_screen s.video }

scroll_while-InScreen :
    (fuel : ℕ) (s : Console) → s.cursor_pos < 2000 + 80 * fuel → InScreen (scroll_while fuel s)
unfolding scroll_while
scroll_while-InScreen zero s low = omega arith
scroll_while-InScreen (suc fuel) s low = elim (Bool-cases (leb 2000 s.cursor_pos)) [
  | inl beyond ↦
      subst InScreen (sym (if-true (scroll_while fuel (scrolled s)) s beyond))
        (scroll_while-InScreen fuel (scrolled s) (omega arith))
  | inr inside ↦
      subst InScreen (sym (if-false (scroll_while fuel (scrolled s)) s inside)) (ground arith)
]

scroll_while-SameAbove : (fuel : ℕ) (s : Console) → SameAbove s.video (scroll_while fuel s).video
unfolding scroll_while
scroll_while-SameAbove zero s a out = refl
scroll_while-SameAbove (suc fuel) s a out = elim (Bool-cases (leb 2000 s.cursor_pos)) [
  | inl beyond ↦
      ap (λ (r : Console). r.video a) (if-true _ s beyond)
      ∙ scroll_while-SameAbove fuel _ a out
      ∙ scroll_screen_lem s.video a
      ∙ ground arith
  | inr inside ↦ ap (λ (r : Console). r.video a) (if-false _ s inside)
]

place_char-below :
    (c : ℕ) (s : Console) → s.cursor_pos < 2 ^ 16 → (place_char c s).cursor_pos < 2 ^ 16
unfolding place_char
place_char-below c s low = ground arith

place_char-SameAbove : (c : ℕ) (s : Console) → InScreen s → SameAbove s.video (place_char c s).video
unfolding place_char put_cell
place_char-SameAbove c s low a out = ground arith

rounds_enough : (p : ℕ) → p < 2 ^ 16 → p < 2000 + 80 * scroll_rounds
rounds_enough p low = omega arith

-- Whatever the character and wherever a 16-bit cursor stands, the loop of `print_char` ends with the
-- cursor on the screen; from a cursor on the screen, it writes to the 4000 bytes of the screen only.
pub print_char-InScreen :
    (c : ℕ) (s : Console)
    → s.cursor_pos < 2 ^ 16
    → InScreen (print_char c s) × (InScreen s → SameAbove s.video (print_char c s).video)
unfolding print_char
print_char-InScreen c s low = (
  scroll_while-InScreen scroll_rounds (place_char c s) (rounds_enough _ (place_char-below c s low)),
  λ here a out.
      scroll_while-SameAbove scroll_rounds (place_char c s) a out
      ∙ place_char-SameAbove c s here a out,
)

print_option-InScreen :
    (o : Option ℕ) (s : Console)
    → InScreen s
    → InScreen (print_option o s) × SameAbove s.video (print_option o s).video
unfolding print_option
print_option-InScreen none s here = (here, λ a out. refl)
print_option-InScreen (some c) s here =
    let printed = print_char-InScreen c s (omega arith) in (printed.0, printed.1 here)

-- Printing a text from a cursor on the screen leaves the cursor on the screen and every byte after the
-- 4000 of the screen, whatever bytes the text has: multi-byte characters that it breaks off are no
-- exception.
pub print_from-InScreen :
    (skip : ℕ) (l : List ℕ) (s : Console)
    → InScreen s
    → InScreen (print_from skip l s) × SameAbove s.video (print_from skip l s).video
unfolding print_from
print_from-InScreen skip [] s here = (here, λ a out. refl)
print_from-InScreen (suc skip) (c ∷ l) s here = print_from-InScreen skip l s here
print_from-InScreen zero (c ∷ l) s here =
    let shown = print_option-InScreen (print_step c l).1 s here in
    let others =
      print_from-InScreen (print_step c l).0 l (print_option (print_step c l).1 s) shown.0 in
    (others.0, λ a out. others.1 a out ∙ shown.1 a out)
