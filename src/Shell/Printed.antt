-- ===== src/Shell/Printed.antt =====
-- `handle_command` of src/shell.c understands every command as it is written.
use sky_net_os.Base.{
  refl, true, false, ap, ap₂, pos, negsuc, length, get_or, ltb, arith, if-false, codes, same_text,
  ℕ, ℤ, Bool, List, ◌+◌, ◌-◌, ◌<◌, ◌≡◌, ◌≢◌, ◌∙◌, ◌∷◌, ◌++◌, ◌&&◌, ◌==◌, [], sub_ℕ, done, fault,
  if-true, lt→ltb,
}
use sky_net_os.Shell.Parse.{
  Command, help, clear, whoami, ls, ps, disk_test, exit, gui, doom, cat, touch, mkdir, rm, edit,
  unknown, kill, thread_add, ipc_recv, ipc_send, ipc_usage, sim_load, c_text, parse_text,
  parse_command, starts, cut_background, ipc_command, digit_at, cmd_bytes,
}

-- A pid as its digit.
unfoldable pub digit : ℤ → ℕ
digit (pos d) = 48 + d
digit (negsuc d) = 48

-- How a command is written.
unfoldable pub show_command : Command → List ℕ
show_command help = codes "help"
show_command clear = codes "clear"
show_command whoami = codes "whoami"
show_command ls = codes "ls"
show_command ps = codes "ps"
show_command disk_test = codes "disk-test"
show_command exit = codes "exit"
show_command gui = codes "gui"
show_command doom = codes "doom"
show_command (cat name) = codes "cat " ++ name
show_command (touch name) = codes "touch " ++ name
show_command (mkdir name) = codes "mkdir " ++ name
show_command (rm name) = codes "rm " ++ name
show_command (edit name) = codes "edit " ++ name
show_command (unknown text) = text
show_command (kill pid) = codes "kill " ++ digit pid ∷ []
show_command (thread_add pid) = codes "thread-add " ++ digit pid ∷ []
show_command (ipc_recv pid) = codes "ipc-recv " ++ digit pid ∷ []
show_command (ipc_send pid text) = codes "ipc-send " ++ digit pid ∷ 32 ∷ text
show_command ipc_usage = codes "ipc-send 0,"
show_command (sim_load background) = codes "sim-load"

-- A pid of one digit.
abbrev pub IsDigit : ℤ → Type 0
IsDigit (pos d) = d < 10
IsDigit (negsuc d) = ⊥

-- The text has no NUL byte.
abbrev pub NoNul : List ℕ → Type 0
NoNul [] = Unit
NoNul (c ∷ l) = (c ≢ 0) × NoNul l

-- The commands that can be written: pids of one digit, texts without a NUL byte, and no unknown ones.
abbrev pub Written : Command → Type 0
Written (unknown text) = ⊥
Written (sim_load true) = ⊥
Written (kill pid) = IsDigit pid
Written (thread_add pid) = IsDigit pid
Written (ipc_recv pid) = IsDigit pid
Written (ipc_send pid text) = IsDigit pid × NoNul text
Written _ = Unit

c_text_lem : (text rest : List ℕ) → NoNul text → c_text (text ++ 0 ∷ rest) ≡ text
unfolding c_text
c_text_lem [] rest h = refl
c_text_lem (c ∷ text) rest (some_byte, h) =
    let nonzero : (c == 0) ≡ false = ground arith in
    if-false [] _ nonzero ∙ ap (λ l. c ∷ l) (c_text_lem text rest h)

digit_lem : (pid : ℤ) → IsDigit pid → sub_ℕ (digit pid) 48 ≡ pid
unfolding digit
digit_lem (pos d) h = ground arith
digit_lem (negsuc d) h = absurd h

parse_text-show_command :
    (stale : List ℕ) (c : Command) → Written c → parse_text false stale (show_command c) ≡ c
unfolding parse_text show_command same_text starts ipc_command digit_at
parse_text-show_command stale help h = refl
parse_text-show_command stale clear h = refl
parse_text-show_command stale whoami h = refl
parse_text-show_command stale ls h = refl
parse_text-show_command stale ps h = refl
parse_text-show_command stale disk_test h = refl
parse_text-show_command stale exit h = refl
parse_text-show_command stale gui h = refl
parse_text-show_command stale doom h = refl
parse_text-show_command stale (cat name) h = refl
parse_text-show_command stale (touch name) h = refl
parse_text-show_command stale (mkdir name) h = refl
parse_text-show_command stale (rm name) h = refl
parse_text-show_command stale (edit name) h = refl
parse_text-show_command stale (unknown text) h = absurd h
parse_text-show_command stale (kill pid) h = ap kill (digit_lem pid h)
parse_text-show_command stale (thread_add pid) h = ap thread_add (digit_lem pid h)
parse_text-show_command stale (ipc_recv pid) h = ap ipc_recv (digit_lem pid h)
parse_text-show_command stale (ipc_send pid text) (h, bytes) =
    ap₂ ipc_send (digit_lem pid h) (c_text_lem text stale bytes)
parse_text-show_command stale ipc_usage h = refl
parse_text-show_command stale (sim_load true) h = absurd h
parse_text-show_command stale (sim_load false) h = refl

-- A command as it is written, in less than 100 bytes, is read as that command, where its text does not
-- end with an ampersand, whatever the buffer held before: pids have one digit, messages no NUL byte.
pub parse_command-show_command :
    (stale : List ℕ) (c : Command)
    → Written c
    → get_or (show_command c) (length (show_command c) - 1) 0 ≢ 38
    → length (show_command c) < cmd_bytes
    → parse_command stale (show_command c) ≡ done c
unfolding parse_command cut_background
parse_command-show_command stale c h quiet fits =
    let text = show_command c in
    let plain =
      if-false {b = ltb 2 (length text) && get_or text (length text - 1) 0 == 38} _ (false, text)
        (ground arith) in
    let short = lt→ltb (length text) cmd_bytes fits in
    if-true _ fault short
    ∙ ap done (
        ap (λ (p : Bool × List ℕ). parse_text p.0 stale p.1) plain
        ∙ parse_text-show_command stale c h)
