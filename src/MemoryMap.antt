-- ===== src/MemoryMap.antt =====
-- lib/mmp.c: files that are mapped into memory, as the code for a system with mmap has it.
pub mod Undone
use sufary.Base.{ℕ, ◌==◌, ◌&&◌, List, [], ◌∷◌, if◌then◌else◌, Option, none, some}
use sufary.Base.Run.{Run, done, ◌>>=◌}
use sufary.Memory.{Heap, sa_malloc_aux, sa_free_aux}

-- SA_MMAP_MODE; `other_mode` is any other number.
pub data SaMmapMode : Type 0 where
  sa_mmap_ro : SaMmapMode
  sa_mmap_rw : SaMmapMode
  other_mode : SaMmapMode

-- SA_MMAP, with the address `mm` at which it stands.
pub record SaMmap : Type 0 where
  pub mm : ℕ
  pub size : ℕ
  pub map : ℕ
  pub other : ℕ

-- SA_ERROR
pub data SaError : Type 0 where
  other_error : SaError
  memory_allocate_error : SaError
  file_open_error : SaError
  mmap_error : SaError
  keyword_parsing_error : SaError

-- What is allocated, the descriptors that are open, the mappings with their sizes, and `sa_error_no`.
pub record System : Type 0 where
  pub heap : Heap
  pub descriptors : List ℕ
  pub mappings : List (ℕ × ℕ)
  pub sa_error_no : SaError

-- What the system's functions return for one file: the two allocations of `sa_malloc`, `open`, the
-- size from `fstat`, and `mmap`; `none` stands for NULL and for -1.
pub record Outcome : Type 0 where
  pub allocated : Option ℕ
  pub node : Option ℕ
  pub opened : Option ℕ
  pub st_size : Option ℕ
  pub mapped : Option ℕ

-- `close(fd)`
unfoldable pub close : ℕ → List ℕ → List ℕ
close fd [] = []
close fd (x ∷ fds) = if fd == x then fds else x ∷ close fd fds

-- `munmap(map, size)`
unfoldable pub munmap : ℕ → ℕ → List (ℕ × ℕ) → List (ℕ × ℕ)
munmap map size [] = []
munmap map size ((p, n) ∷ ms) = if map == p && size == n then ms else (p, n) ∷ munmap map size ms

unfoldable pub close_fd : ℕ → System → System
unfolding close
close_fd fd s = record s { descriptors = close fd s.descriptors }

-- `mmap`, and what follows it.
unfoldable pub map_file : Option ℕ → ℕ → ℕ → ℕ → System → Option SaMmap × System
unfolding close_fd
map_file none mm fd size s = (none, close_fd fd s)
map_file (some map) mm fd size s = (
  some (record { mm = mm; size = size; map = map; other = 0 }),
  close_fd fd (record s { mappings = (map, size) ∷ s.mappings }),
)

-- `fstat`, and what follows it.
unfoldable pub stat_file : Outcome → Option ℕ → ℕ → ℕ → System → Option SaMmap × System
unfolding map_file
stat_file o none mm fd s = (none, close_fd fd s)
stat_file o (some size) mm fd s = map_file o.mapped mm fd size s

-- `open`, and what follows it.
unfoldable pub open_file : Outcome → Option ℕ → ℕ → System → Option SaMmap × System
unfolding stat_file
open_file o none mm s = (none, s)
open_file o (some fd) mm s =
    stat_file o o.st_size mm fd (record s { descriptors = fd ∷ s.descriptors })

-- `sa_open_mmap_aux`: `none` where it returns 1.
unfoldable pub sa_open_mmap_aux : SaMmapMode → Outcome → ℕ → System → Option SaMmap × System
unfolding open_file
sa_open_mmap_aux sa_mmap_ro o mm s = open_file o o.opened mm s
sa_open_mmap_aux sa_mmap_rw o mm s = open_file o o.opened mm s
sa_open_mmap_aux other_mode o mm s = (none, s)

-- `sa_free`
unfoldable pub sa_free : ℕ → System → Run System
unfolding sa_free_aux
sa_free p s = sa_free_aux p s.heap >>= λ h. done (record s { heap = h })

-- the end of `sa_open_mmap`
unfoldable pub opened_or_freed : ℕ → Option SaMmap × System → Run (Option SaMmap × System)
unfolding sa_free
opened_or_freed mm (none, s) = sa_free mm s >>= λ s'. done (none, s')
opened_or_freed mm (some m, s) = done (some m, s)

-- `sa_close_mmap`; `none` is NULL.
unfoldable pub sa_close_mmap : Option SaMmap → System → Run System
unfolding munmap sa_free
sa_close_mmap none s = done s
sa_close_mmap (some m) s = sa_free m.mm (record s { mappings = munmap m.map m.size s.mappings })

unfoldable pub sa_get_mmap_size : SaMmap → ℕ
sa_get_mmap_size mmr = mmr.size

unfoldable pub sa_get_mmap_ptr : SaMmap → ℕ
sa_get_mmap_ptr mmr = mmr.map

-- the blocks of a size that `sa_malloc` gives, with the file and the line of the call
unfoldable pub allocate : Option ℕ → Option ℕ → ℕ → List ℕ → ℕ → System → Run (Option ℕ × System)
unfolding sa_malloc_aux
allocate allocated node size file line s =
    sa_malloc_aux allocated node size file line s.heap >>= λ (r, h). done (r, record s { heap = h })

-- What `sa_open_mmap` does with what `sa_malloc` returns.
unfoldable pub with_struct : SaMmapMode → Outcome → Option ℕ × System → Run (Option SaMmap × System)
unfolding sa_open_mmap_aux opened_or_freed
with_struct mode o (none, s) = done (none, s)
with_struct mode o (some mm, s) = opened_or_freed mm (sa_open_mmap_aux mode o mm s)

-- `sizeof_mmap` is `sizeof(SA_MMAP)`, and `file` is `__FILE__`.
module _ (sizeof_mmap : ℕ) (file : List ℕ) where
  unfoldable pub sa_open_mmap : SaMmapMode → Outcome → System → Run (Option SaMmap × System)
  unfolding allocate with_struct
  sa_open_mmap mode o s = allocate o.allocated o.node sizeof_mmap file 68 s >>= with_struct mode o
