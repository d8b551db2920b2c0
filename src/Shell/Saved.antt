-- ===== src/Shell/Saved.antt =====
-- The command "edit" of src/shell.c, down to the file that it saves.
use sky_net_os.Base.{false, none, some, ℕ, List, ◌≡◌, ◌∷◌, []}
use sky_net_os.Files.Owners.{IsRoot}
use sky_net_os.Files.Effects.{ok}
use sky_net_os.Shell.Run.{Machine}
use sky_net_os.Shell.Texts.{Piece, str, num}
use sky_net_os.Files.Allocator.{Allocator}
use sky_net_os.Files.Defs.{Item, Root, err_file_not_found}
use sky_net_os.Files.Steps.{Halts, SameOthers}
use sky_net_os.Files.Lookup.{lookup}
use sky_net_os.Files.Calls.{read_file}

-- The pieces are texts.
abbrev AllStr : List Piece → Type 0
AllStr [] = Unit
AllStr (str text ∷ l) = AllStr l
AllStr (num n ∷ l) = ⊥

module _ (M : Allocator) (image : List ℕ → List Item → List ℕ) where
  -- Only the output may differ, and it stays on the text screen.
  abbrev SameRoot : Root M → Machine M image → Type 0
  SameRoot r m = (m.root ≡ r) × (m.out.gui_output_mode ≡ false)

  -- The directory `r` with the text of the name changed.
  abbrev pub Saved : List ℕ → List ℕ → Root M → Root M → Type 0
  Saved name text r r' =
      IsRoot M r'
      × (read_file image name r'.files ≡ ok (some text))
      × SameOthers name r.files r'.files

  -- How a save can halt: without memory, or without the file.
  abbrev pub SaveHalts : List ℕ → Root M → ℕ → Type 0
  SaveHalts name r = Halts err_file_not_found (lookup name r.files ≡ none)
