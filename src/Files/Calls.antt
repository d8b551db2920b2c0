-- ===== src/Files/Calls.antt =====
-- The calls of src/file_system.c, over an allocator.
use sky_net_os.Base.{
  true, false, none, some, length, get_elem?, set, take, leb, ℕ, Option, List, ◌∷◌, ◌==◌, [],
  if◌then◌else◌,
}
use sky_net_os.Files.Defs.{
  File, Item, null, directory_size, Root, Contents, subdirectory, find_file_index, bytes,
  err_out_of_memory, err_file_exists, err_file_not_found, file_size, remove_at, copy_name, add_file,
}
use sky_net_os.Files.Allocator.{Allocator}
use sky_net_os.Files.Effects.{◌>>=◌, Effect, lift, ok, undefined, halted}

abbrev pub new_file : ℕ → List ℕ → File
new_file p name = record { self = p; name = name; size = 0; contents = null; is_directory = false }

abbrev pub new_directory : ℕ → ℕ → List ℕ → File
new_directory p subdir name = record {
  self = p;
  name = name;
  size = directory_size;
  contents = subdirectory subdir [];
  is_directory = true;
}

module _ (M : Allocator) where
  abbrev pub init_file_system : Root M → Root M
  init_file_system r = record r { files = [] }

  -- `malloc`, and what the caller does with the pointer; without memory the machine halts.
  abbrev pub allocate_or_halt : ℕ → M.Store → (M.Store → ℕ → Effect (Root M)) → Effect (Root M)
  allocate_or_halt n store next = do
    got ← lift (M.malloc n store)
    elim got.1 [ none ↦ halted err_out_of_memory | some p ↦ next got.0 p ]

  unfoldable pub create_file : List ℕ → Root M → Effect (Root M)
  create_file name r = elim (find_file_index name r.files) [
    | some i ↦ halted err_file_exists
    | none ↦ allocate_or_halt file_size r.store λ store p. do
      n ← copy_name name
      files ← add_file (new_file p n) r.files
      ok (record { files = files; store = store })
  ]

  unfoldable pub create_directory : List ℕ → Root M → Effect (Root M)
  create_directory name r = elim (find_file_index name r.files) [
    | some i ↦ halted err_file_exists
    | none ↦ allocate_or_halt file_size r.store λ store p. do
      n ← copy_name name
      got ← lift (M.malloc directory_size store)
      elim got.1 [
        | none ↦ do st ← lift (M.free p got.0); halted err_out_of_memory
        | some subdir ↦ do
          files ← add_file (new_directory p subdir n) r.files
          ok (record { files = files; store = got.0 })
      ]
  ]

  -- `free(files[idx]->data)`, which `free` skips where it is NULL.
  unfoldable pub free_contents : Contents → M.Store → Effect M.Store
  free_contents null store = ok store
  free_contents (bytes p l) store = lift (M.free p store)
  free_contents (subdirectory p items) store = lift (M.free p store)

  -- `files[idx]` for an index that the search has found.
  abbrev pub at_index : ℕ → List File → (File → Effect (Root M)) → Effect (Root M)
  at_index i files next = elim (get_elem? files i) [ none ↦ undefined | some f ↦ next f ]

  unfoldable pub write_file : List ℕ → List ℕ → Root M → Effect (Root M)
  write_file name source r = elim (find_file_index name r.files) [
    | none ↦ halted err_file_not_found
    | some i ↦ at_index i r.files λ f. do
      store ← free_contents f.contents r.store
      allocate_or_halt (length source) store λ store' p. ok (record {
        files = set r.files i (record f { contents = bytes p source; size = length source });
        store = store';
      })
  ]

  unfoldable pub delete_file : List ℕ → Root M → Effect (Root M)
  delete_file name r = elim (find_file_index name r.files) [
    | none ↦ halted err_file_not_found
    | some i ↦ at_index i r.files λ f. do
      store ← free_contents f.contents r.store
      store' ← lift (M.free f.self store)
      ok (record { files = remove_at i r.files; store = store' })
  ]

  -- The loop of `delete_directory` over the entries of a subdirectory.
  unfoldable pub free_items : List Item → M.Store → Effect M.Store
  free_items [] store = ok store
  free_items (x ∷ xs) store = do
    store' ← elim x.data_ptr [ none ↦ ok store | some p ↦ lift (M.free p store) ]
    store'' ← lift (M.free x.self store')
    free_items xs store''

  -- Data that is no `directory_t` is read as one, which is not defined.
  unfoldable pub free_subdirectory : Contents → M.Store → Effect M.Store
  free_subdirectory null store = ok store
  free_subdirectory (bytes p l) store = undefined
  free_subdirectory (subdirectory p items) store = do
    store' ← free_items items store
    lift (M.free p store')

  unfoldable pub delete_directory : List ℕ → Root M → Effect (Root M)
  delete_directory name r = elim (find_file_index name r.files) [
    | none ↦ halted err_file_not_found
    | some i ↦ at_index i r.files λ f.
        if f.is_directory
        then (do
          store ← free_subdirectory f.contents r.store
          store' ← lift (M.free f.self store)
          ok (record { files = remove_at i r.files; store = store' }))
        else halted err_file_not_found
  ]

-- The `size` bytes that `memcpy` takes from the data; `image` is a `directory_t` as bytes, which the
-- compiler lays out.
unfoldable pub copy_out : (List ℕ → List Item → List ℕ) → File → Effect (List ℕ)
copy_out image f = elim f.contents [
  | null ↦ if f.size == 0 then ok [] else undefined
  | bytes p l ↦ if leb f.size (length l) then ok (take f.size l) else undefined
  | subdirectory p items ↦ ok (take f.size (image f.name items))
]

-- What lands in `buffer`, `*size` bytes; `none` for `ERR_FILE_NOT_FOUND`.
unfoldable pub read_file :
    (List ℕ → List Item → List ℕ) → List ℕ → List File → Effect (Option (List ℕ))
read_file image name files = elim (find_file_index name files) [
  | none ↦ ok none
  | some i ↦ elim (get_elem? files i) [
    | none ↦ undefined
    | some f ↦ do l ← copy_out image f; ok (some l)
  ]
]
