-- ===== src/Files/Tests.antt =====
-- Runs of the file system (src/file_system.c) at concrete states, over the heap of the program.
use sky_net_os.Base.{refl, none, arith, ℕ, List, ◌≡◌, ◌∷◌, [], true, false, Returns}
use sky_net_os.Files.Defs.{Item, Root, err_file_not_found, bytes}
use sky_net_os.Files.Owners.{owners, IsRoot}
use sky_net_os.Files.Effects.{Ends}
use sky_net_os.Files.Calls.{new_file, delete_file}
use sky_net_os.Files.Steps.{SameOthers}
use sky_net_os.Files.Lookup.{lookup}
use sky_net_os.Files.Laws.{delete_file-lookup}
use sky_net_os.Memory.Heap.{Heap, block, malloc}
use sky_net_os.Memory.HeapLaws.{IsHeap}
use sky_net_os.Files.HeapAllocator.{heap_allocator, Handed, malloc-Handed}

-- A heap with two used blocks, at the pointers 12 and 724.
abbrev two_used : Heap
two_used = record {
  blocks = block 0 700 false ∷ block 712 100 false ∷ block 824 33553596 true ∷ [];
  heap_lock = false;
}

two_used-IsHeap : IsHeap two_used
two_used-IsHeap = record { unlocked = refl; tiles = (refl, (refl, (refl, refl))) }

abbrev image : List ℕ → List Item → List ℕ
image name items = name

-- A directory that holds one file, "a", in the two blocks.
abbrev small : Root heap_allocator
small = record {
  files = record (new_file 12 (97 ∷ [])) { contents = bytes 724 (5 ∷ 6 ∷ []); size = 2 } ∷ [];
  store = two_used;
}

small-IsRoot : IsRoot heap_allocator small
unfolding owners
small-IsRoot = record {
  distinct = (tt, tt);
  sized = (refl, tt);
  owned = (two_used-IsHeap, λ q. omega arith);
}

delete_file-lookup_example :
    Ends
      (λ code. (code ≡ err_file_not_found) × (lookup (97 ∷ []) small.files ≡ none))
      (λ r'.
        IsRoot heap_allocator r'
        × (lookup (97 ∷ []) r'.files ≡ none)
        × SameOthers (97 ∷ []) small.files r'.files)
      (delete_file heap_allocator (97 ∷ []) small)
delete_file-lookup_example = delete_file-lookup heap_allocator image (97 ∷ []) small small-IsRoot

malloc-Handed_example : Returns (Handed (owners small.files)) (malloc 64 two_used)
malloc-Handed_example = malloc-Handed 64 two_used (owners small.files) small-IsRoot.owned
