-- ===== src/Io/Print.antt =====
-- `print` and `print_int` of src/io.c, on the text screen or, in the mode of the desktop, on its
-- terminal. `hooked` says that `io_set_gui_output` has set the two functions of src/gui.c.
use sky_net_os.Base.{
  zero, suc, true, none, some, done, pos, negsuc, length, get_or, ltb, leb, Outcome, ℕ, ℤ, Bool,
  Option, List, ◌∷◌, ◌&&◌, ◌==◌, [], if◌then◌else◌, ◌>>=◌, fault, ◌^◌,
}
use sky_net_os.Io.Screen.{Console, print_char}
use sky_net_os.Desktop.Terminal.{Terminal, gui_term_print, gui_term_putchar}
use sky_net_os.Text.Decimal.{backwards, low_digits, digit_bytes}

-- The character of code page 437 for the bytes after 0xE2, or 0.
unfoldable pub cp437 : ℕ → ℕ → ℕ
cp437 b1 b2 =
    if b1 == 0x95
    then (if b2 == 0x90
        then 0xCD
        else if b2 == 0x91
        then 0xBA
        else if b2 == 0x94
        then 0xC9
        else if b2 == 0x97
        then 0xBB
        else if b2 == 0x9A
        then 0xC8
        else if b2 == 0x9D
        then 0xBC
        else if b2 == 0xA0
        then 0xCC
        else if b2 == 0xA3
        then 0xB9
        else 0)
    else if b1 == 0x96 && b2 == 0x88
    then 0xDB
    else if b1 == 0x80 && b2 == 0x94
    then 45
    else 0

-- One round of `print` at the byte `c` with the text `l` after it: how many more bytes it takes, and the
-- character that it prints.
unfoldable pub print_step : ℕ → List ℕ → ℕ × Option ℕ
print_step c l =
    let cp = cp437 (get_or l 0 0) (get_or l 1 0) in
    if c == 0xE2 && leb 2 (length l) && ltb 0 cp
    then (2, some cp)
    else if leb 0xE0 c && leb c 0xEF && leb 2 (length l)
    then (2, none)
    else if leb 0xC0 c && leb c 0xDF && leb 1 (length l)
    then (1, none)
    else if leb 0xF0 c && leb c 0xF7 && leb 3 (length l)
    then (3, none)
    else (0, some c)

unfoldable pub print_option : Option ℕ → Console → Console
print_option none s = s
print_option (some c) s = print_char c s

-- The loop of `print`, where the next `skip` bytes are taken already.
unfoldable pub print_from : ℕ → List ℕ → Console → Console
print_from skip [] s = s
print_from (suc skip) (c ∷ l) s = print_from skip l s
print_from zero (c ∷ l) s =
    let (skip, out) = print_step c l in print_from skip l (print_option out s)

pub record Output : Type 0 where
  pub gui_output_mode : Bool
  pub hooked : Bool
  pub console : Console
  pub term : Terminal

unfoldable pub io_set_gui_output : Output → Output
io_set_gui_output o = record o { hooked = true }

unfoldable pub with_term : Output → Terminal → Output
with_term o t = record o { term = t }

-- `print`, for a text up to its NUL byte.
unfoldable pub print : List ℕ → Output → Outcome Output
print str o =
    if o.gui_output_mode && o.hooked
    then (do t ← gui_term_print (length str) str o.term; done (with_term o t))
    else done (record o { console = print_from 0 str o.console })

-- The characters that `print_int` prints, in both modes. -n has no value for the least `int`.
unfoldable pub int_text : ℤ → Outcome (List ℕ)
int_text (pos zero) = done (48 ∷ [])
int_text (pos (suc n)) = done (backwards (low_digits digit_bytes (suc n)))
int_text (negsuc n) =
    if ltb (suc n) (2 ^ 31) then done (45 ∷ backwards (low_digits digit_bytes (suc n))) else fault

unfoldable pub print_chars : List ℕ → Console → Console
print_chars [] s = s
print_chars (c ∷ l) s = print_chars l (print_char c s)

unfoldable pub put_chars : List ℕ → Terminal → Outcome Terminal
put_chars [] t = done t
put_chars (c ∷ l) t = do t' ← gui_term_putchar c t; put_chars l t'

unfoldable pub put_text : List ℕ → Output → Outcome Output
put_text text o =
    if o.gui_output_mode && o.hooked
    then (do t ← put_chars text o.term; done (with_term o t))
    else done (record o { console = print_chars text o.console })

unfoldable pub print_int : ℤ → Output → Outcome Output
print_int n o = do text ← int_text n; put_text text o
