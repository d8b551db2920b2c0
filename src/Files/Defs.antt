-- ===== src/Files/Defs.antt =====
-- The operations of src/file_system.c on the root directory. A name is the list of its bytes, up to
-- the NUL byte.
use sky_net_os.Base.{
  zero, suc, true, false, none, some, length, ltb, ℕ, Bool, Option, List, ◌∷◌, ◌++◌, ◌&&◌, ◌==◌, [],
  if◌then◌else◌,
}
use sky_net_os.Files.Effects.{Effect, ok, undefined}
use sky_net_os.Files.Allocator.{Allocator}

abbrev pub max_name_length : ℕ
max_name_length = 255

abbrev pub max_files : ℕ
max_files = 100

abbrev pub err_out_of_memory : ℕ
err_out_of_memory = 2

abbrev pub err_file_not_found : ℕ
err_file_not_found = 3

abbrev pub err_file_exists : ℕ
err_file_exists = 10

-- `sizeof(file_t)` and `sizeof(directory_t)`.
abbrev pub file_size : ℕ
file_size = 268

abbrev pub directory_size : ℕ
directory_size = 660

-- An entry of a subdirectory: where its `file_t` and its data are.
pub record Item : Type 0 where
  pub self : ℕ
  pub data_ptr : Option ℕ

-- What `data` of a `file_t` points at.
pub data Contents : Type 0 where
  null : Contents
  bytes : ℕ → List ℕ → Contents
  subdirectory : ℕ → List Item → Contents

-- `file_t`, with the address where it stands.
pub record File : Type 0 where
  pub self : ℕ
  pub name : List ℕ
  pub size : ℕ
  pub contents : Contents
  pub is_directory : Bool

-- `strcmp(a, b) == 0`
abbrev pub same_name : List ℕ → List ℕ → Bool
same_name [] [] = true
same_name [] (b ∷ bs) = false
same_name (a ∷ l) [] = false
same_name (a ∷ l) (b ∷ bs) = (a == b) && same_name l bs

unfoldable pub find_from : List ℕ → ℕ → List File → Option ℕ
find_from name i [] = none
find_from name i (f ∷ fs) =
    let rest = find_from name (suc i) fs in if same_name f.name name then some i else rest

-- The index is `none` for -1.
unfoldable pub find_file_index : List ℕ → List File → Option ℕ
find_file_index name files = find_from name 0 files

-- `strcpy` into an array of `MAX_NAME_LENGTH` bytes.
unfoldable pub copy_name : List ℕ → Effect (List ℕ)
copy_name name = if ltb (length name) max_name_length then ok name else undefined

-- `files[file_count++] = f`
unfoldable pub add_file : File → List File → Effect (List File)
add_file f files = if ltb (length files) max_files then ok (files ++ f ∷ []) else undefined

-- The shift by one that takes the entry out of the array.
unfoldable pub remove_at : ℕ → List File → List File
remove_at i [] = []
remove_at zero (f ∷ fs) = fs
remove_at (suc i) (f ∷ fs) = f ∷ remove_at i fs

-- `root_directory`, and the state of the allocator.
pub record Root (M : Allocator) : Type 0 where
  pub files : List File
  pub store : M.Store
