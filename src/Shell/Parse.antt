-- ===== src/Shell/Parse.antt =====
-- How `handle_command` of src/shell.c reads its command line. `stale` are the bytes of `cmd_buffer` that
-- stand after the NUL byte of the text, which the code can reach.
use sky_net_os.Base.{
  true, false, length, get_or, take, drop, ltb, codes, same_text, ℕ, ℤ, Bool, List, ◌-◌, ◌∷◌, ◌++◌,
  ◌&&◌, ◌==◌, [], if◌then◌else◌, sub_ℕ, done, fault, Outcome,
}

pub data Command : Type 0 where
  help clear whoami ls ps disk_test exit gui doom : Command
  cat touch mkdir rm edit unknown : List ℕ → Command
  kill thread_add ipc_recv : ℤ → Command
  ipc_send : ℤ → List ℕ → Command
  ipc_usage : Command
  sim_load : Bool → Command

-- `strncmp(text, prefix, strlen(prefix)) == 0`
unfoldable pub starts : List ℕ → List ℕ → Bool
starts [] text = true
starts (c ∷ prefix) [] = false
starts (c ∷ prefix) (d ∷ text) = c == d && starts prefix text

-- The text of the C string at the front of the bytes.
unfoldable pub c_text : List ℕ → List ℕ
c_text [] = []
c_text (c ∷ l) = let rest = c ∷ c_text l in if c == 0 then [] else rest

-- `background`, and the text without the `&` at its end and the space before it.
unfoldable pub cut_background : List ℕ → Bool × List ℕ
cut_background text =
    let len = length text in
    if ltb 2 len && get_or text (len - 1) 0 == 38
    then (true, take (if get_or text (len - 2) 0 == 32 then len - 2 else len - 1) text)
    else (false, text)

-- `cmd_buffer[i] - '0'`
unfoldable pub digit_at : ℕ → List ℕ → ℤ
digit_at i buffer = sub_ℕ (get_or buffer i 0) 48

unfoldable pub ipc_command : List ℕ → Command
ipc_command buffer =
    if get_or buffer 10 0 == 32
    then ipc_send (digit_at 9 buffer) (c_text (drop 11 buffer))
    else ipc_usage

-- The conditions of `handle_command` in order, for a text without `&`.
unfoldable pub parse_text : Bool → List ℕ → List ℕ → Command
parse_text background stale text =
    let buffer = text ++ 0 ∷ stale in
    if same_text text (codes "help")
    then help
    else if same_text text (codes "clear")
    then clear
    else if same_text text (codes "whoami")
    then whoami
    else if same_text text (codes "ls")
    then ls
    else if starts (codes "cat ") text
    then cat (drop 4 text)
    else if starts (codes "touch ") text
    then touch (drop 6 text)
    else if starts (codes "mkdir ") text
    then mkdir (drop 6 text)
    else if starts (codes "rm ") text
    then rm (drop 3 text)
    else if starts (codes "edit ") text
    then edit (drop 5 text)
    else if same_text text (codes "ps")
    then ps
    else if starts (codes "kill ") text
    then kill (digit_at 5 buffer)
    else if starts (codes "thread-add ") text
    then thread_add (digit_at 11 buffer)
    else if starts (codes "ipc-send ") text
    then ipc_command buffer
    else if starts (codes "ipc-recv ") text
    then ipc_recv (digit_at 9 buffer)
    else if same_text text (codes "disk-test")
    then disk_test
    else if same_text text (codes "exit")
    then exit
    else if same_text text (codes "sim-load")
    then sim_load background
    else if same_text text (codes "gui")
    then gui
    else if same_text text (codes "doom")
    then doom
    else unknown text

-- `char cmd_buffer[100]`
abbrev pub cmd_bytes : ℕ
cmd_bytes = 100

-- `strcpy` writes past the end of `cmd_buffer` for a command that does not fit with its NUL byte.
unfoldable pub parse_command : List ℕ → List ℕ → Outcome Command
parse_command stale command =
    let (background, text) = cut_background command in
    if ltb (length command) cmd_bytes then done (parse_text background stale text) else fault
