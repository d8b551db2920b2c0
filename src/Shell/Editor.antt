-- ===== src/Shell/Editor.antt =====
-- The editor and the disk test of src/shell.c. The editor takes the lines that are typed as a list, of
-- which it uses those before the first ":wq"; the end of the list counts as one. Their echo is left out.
use sky_net_os.Base.{
  done, pos, length, get_or, ltb, Outcome, codes, same_text, ℕ, ℤ, List, ◌+◌, ◌∷◌, ◌++◌, ◌==◌, [],
  if◌then◌else◌, ◌>>=◌,
}
use sky_net_os.Shell.Texts.{Piece, str}
use sky_net_os.Disk.Defs.{Disk, submit_disk_request, init_disk_scheduler, process_disk_requests}
use sky_net_os.Shell.Parse.{c_text}

abbrev pub edit_bytes : ℕ
edit_bytes = 4096

-- `System_Shutdown`
abbrev pub system_shutdown : ℕ
system_shutdown = 101

-- The loop of the editor: what `file_buffer` holds, and what is printed on the way.
unfoldable pub edit_lines : List (List ℕ) → List ℕ → List ℕ × List Piece
edit_lines [] buffer = (buffer, [])
edit_lines (line ∷ lines) buffer =
    let fits = ltb (length buffer + length line + 1) edit_bytes in
    let (kept, said) = edit_lines lines (if fits then buffer ++ line ++ 10 ∷ [] else buffer) in
    let full = str (codes "Buffer full! Cannot add more text.\n") ∷ said in
    if same_text line (codes ":wq") then (buffer, []) else (kept, (if fits then said else full))

-- What the editor prints of a file before its loop.
unfoldable pub edit_intro : List ℕ → List Piece
edit_intro [] = []
edit_intro (c ∷ l) =
    str (codes "--- Current File Contents ---\n")
    ∷ str (c_text (c ∷ l))
    ∷ (if get_or (c ∷ l) (length l) 0 == 10 then [] else str (codes "\n") ∷ [])

unfoldable pub edit_help : List Piece
edit_help =
    str (codes "--- Edit Mode ---\n")
    ∷ str (codes "Type your text. Type ':wq' on a new line to save and exit.\n")
    ∷ []

unfoldable pub disk_tracks : List ℤ
disk_tracks = pos 98 ∷ pos 183 ∷ pos 37 ∷ pos 122 ∷ pos 14 ∷ pos 124 ∷ pos 65 ∷ pos 67 ∷ []

unfoldable pub submit_all : List ℤ → Disk → Outcome Disk
submit_all [] d = done d
submit_all (t ∷ l) d = do r ← submit_disk_request t d; submit_all l r.0

unfoldable pub run_disk_test : Disk → Outcome Disk
run_disk_test d = do
  d' ← submit_all disk_tracks (init_disk_scheduler d)
  r ← process_disk_requests (pos 53) d'
  done r.0
