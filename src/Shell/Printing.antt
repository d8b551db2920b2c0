-- ===== src/Shell/Printing.antt =====
-- What the calls of `print` and `print_int` in src/shell.c put on the terminal of the desktop, as
-- src/gui.c sees them.
use sky_net_os.Base.{
  refl, true, sym, ap, subst, done, fault, length, if-true, Outcome, ℕ, ℤ, List, ◌≡◌, ◌∷◌, ◌++◌,
  ◌&&◌, [], ◌>>=◌,
}
use sky_net_os.Desktop.Keys.{Printed, as_text, as_chars, show_printed, show_all}
use sky_net_os.Desktop.Terminal.{Terminal, gui_term_print}
use sky_net_os.Io.Print.{Output, print, print_int, put_text, put_chars, int_text, with_term}
use sky_net_os.Shell.Texts.{Piece, str, num, print_piece, print_pieces}

-- A result, if there is one, satisfies `P`.
abbrev pub Yields : {A : Type 0} → (A → Type 0) → Outcome A → Type 0
Yields P (done a) = P a
Yields P fault = Unit

Yields-bind :
    {A B : Type 0} (Q : B → Type 0) (m : Outcome A) (f : A → Outcome B)
    → ((a : A) → m ≡ done a → Yields Q (f a))
    → Yields Q (m >>= f)
Yields-bind Q (done a) f next = next a refl
Yields-bind Q fault f next = tt

Yields-at : {A : Type 0} (P : A → Type 0) (m : Outcome A) (a : A) → m ≡ done a → Yields P m → P a
Yields-at P m a e h = subst (Yields P) e h

-- Output goes to the terminal of the desktop.
abbrev pub OnTerminal : Output → Type 0
OnTerminal o = (o.gui_output_mode ≡ true) × (o.hooked ≡ true)

-- From the output `o` to `o'`, some things were printed on the terminal, and it stays in use.
abbrev pub ShownOn : Output → Output → Type 0
ShownOn o o' = OnTerminal o' × ((l : List Printed) × (show_all l o.term ≡ done o'.term))

one_shown :
    (p : Printed) (t t' : Terminal) → show_printed p t ≡ done t' → show_all (p ∷ []) t ≡ done t'
unfolding show_all
one_shown p t t' e = ap (λ m. m >>= (λ t1. done t1)) e

bind_then :
    (m : Outcome Terminal) (f g : Terminal → Outcome Terminal) (t' t'' : Terminal)
    → ((t : Terminal) → f t ≡ done t' → g t ≡ done t'')
    → m >>= f ≡ done t'
    → m >>= g ≡ done t''
bind_then (done t) f g t' t'' next e = next t e
bind_then fault f g t' t'' next e = absurd cc

show_all-append :
    (l k : List Printed) (t t' t'' : Terminal)
    → show_all l t ≡ done t'
    → show_all k t' ≡ done t''
    → show_all (l ++ k) t ≡ done t''
unfolding show_all
show_all-append [] k t t' t'' e e' =
    subst (λ (m : Outcome Terminal). (m >>= (λ x. show_all k x)) ≡ done t'') (sym e) e'
show_all-append (p ∷ l) k t t' t'' e e' =
    bind_then (show_printed p t) (show_all l) (show_all (l ++ k)) t' t''
      (λ x first. show_all-append l k x t' t'' first e') e

pub ShownOn-refl : (o : Output) → OnTerminal o → ShownOn o o
unfolding show_all
ShownOn-refl o on = (on, ([], refl))

pub ShownOn-trans : (o o1 o2 : Output) → ShownOn o o1 → ShownOn o1 o2 → ShownOn o o2
ShownOn-trans o o1 o2 (on, (l, e)) (on', (k, e')) =
    (on', (l ++ k, show_all-append l k o.term o1.term o2.term e e'))

print-ShownOn : (text : List ℕ) (o : Output) → OnTerminal o → Yields (ShownOn o) (print text o)
unfolding print with_term show_printed
print-ShownOn text o on =
    let both : (o.gui_output_mode && o.hooked) ≡ true = rw (on.0) on.1 in
    subst (Yields (ShownOn o)) (sym (if-true _ _ both)) (
      Yields-bind (ShownOn o) (gui_term_print (length text) text o.term) _
        (λ t e. (on, (as_text text ∷ [], one_shown (as_text text) o.term t e))))

print_int-ShownOn : (n : ℤ) (o : Output) → OnTerminal o → Yields (ShownOn o) (print_int n o)
unfolding print_int put_text with_term show_printed
print_int-ShownOn n o on =
    let both : (o.gui_output_mode && o.hooked) ≡ true = rw (on.0) on.1 in
    Yields-bind (ShownOn o) (int_text n) _ (λ chars digits.
      subst (Yields (ShownOn o)) (sym (if-true _ _ both)) (
        Yields-bind (ShownOn o) (put_chars chars o.term) _
          (λ t e. (on, (as_chars chars ∷ [], one_shown (as_chars chars) o.term t e)))))

print_piece-ShownOn : (p : Piece) (o : Output) → OnTerminal o → Yields (ShownOn o) (print_piece p o)
unfolding print_piece
print_piece-ShownOn (str text) o on = print-ShownOn text o on
print_piece-ShownOn (num n) o on = print_int-ShownOn n o on

-- Pieces that are printed are shown on the terminal.
pub print_pieces-ShownOn :
    (l : List Piece) (o : Output) → OnTerminal o → Yields (ShownOn o) (print_pieces l o)
unfolding print_pieces
print_pieces-ShownOn [] o on = ShownOn-refl o on
print_pieces-ShownOn (p ∷ l) o on =
    Yields-bind (ShownOn o) (print_piece p o) (print_pieces l) (λ o1 e.
      let first = Yields-at (ShownOn o) (print_piece p o) o1 e (print_piece-ShownOn p o on) in
      Yields-map (print_pieces l o1) (λ o2 second. ShownOn-trans o o1 o2 first second)
        (print_pieces-ShownOn l o1 first.0))
  where
    Yields-map :
        {P Q : Output → Type 0} (m : Outcome Output)
        → ((a : Output) → P a → Q a)
        → Yields P m
        → Yields Q m
    Yields-map (done a) f h = f a h
    Yields-map fault f h = tt
