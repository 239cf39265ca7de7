-- ===== src/MemoryMap/Undone.antt =====
-- What lib/mmp.c allocates, opens and maps, and how it gives it back.
use sufary.Base.{ℕ, ◌∷◌, List, length, ◌<◌, ◌≡◌, refl, ◌==◌, true, Option, none, some, arith}
use sufary.Base.Run.{Ends, done, ◌>>=◌}
use sufary.Memory.{malloc_list_file_name_max, c_free, sa_malloc_aux}
use sufary.Memory.Sound.{sa_free_aux_last, copy_name-done}
use sufary.MemoryMap.{
  SaMmapMode, SaMmap, System, Outcome, sa_mmap_ro, sa_mmap_rw, other_mode, close_fd, munmap,
  map_file, stat_file, open_file, sa_open_mmap_aux, sa_free, opened_or_freed, sa_close_mmap,
  sa_open_mmap, allocate, with_struct,
}

-- What is open and mapped after a file has been: one mapping more, or nothing new.
abbrev Mapped : ℕ → System → Option SaMmap × System → Type 0
Mapped mm s (none, s') = s' ≡ s
Mapped mm s (some m, s') = (m.mm ≡ mm) × (s' ≡ record s { mappings = (m.map, m.size) ∷ s.mappings })

abbrev open_fd : ℕ → System → System
open_fd fd s = record s { descriptors = fd ∷ s.descriptors }

close_fd-open_fd : (fd : ℕ) (s : System) → close_fd fd (open_fd fd s) ≡ s
unfolding close_fd
close_fd-open_fd fd s = let same : (fd == fd) ≡ true = ground arith in rw same refl

map_file-Mapped :
    (mapped : Option ℕ) (mm fd size : ℕ) (s : System)
    → Mapped mm s (map_file mapped mm fd size (open_fd fd s))
unfolding map_file
map_file-Mapped none mm fd size s = close_fd-open_fd fd s
map_file-Mapped (some map) mm fd size s =
    (refl, close_fd-open_fd fd (record s { mappings = (map, size) ∷ s.mappings }))

stat_file-Mapped :
    (o : Outcome) (st_size : Option ℕ) (mm fd : ℕ) (s : System)
    → Mapped mm s (stat_file o st_size mm fd (open_fd fd s))
unfolding stat_file
stat_file-Mapped o none mm fd s = close_fd-open_fd fd s
stat_file-Mapped o (some size) mm fd s = map_file-Mapped o.mapped mm fd size s

open_file-Mapped :
    (o : Outcome) (opened : Option ℕ) (mm : ℕ) (s : System) → Mapped mm s (open_file o opened mm s)
unfolding open_file
open_file-Mapped o none mm s = refl
open_file-Mapped o (some fd) mm s = stat_file-Mapped o o.st_size mm fd s

sa_open_mmap_aux-Mapped :
    (mode : SaMmapMode) (o : Outcome) (mm : ℕ) (s : System)
    → Mapped mm s (sa_open_mmap_aux mode o mm s)
unfolding sa_open_mmap_aux
sa_open_mmap_aux-Mapped sa_mmap_ro o mm s = open_file-Mapped o o.opened mm s
sa_open_mmap_aux-Mapped sa_mmap_rw o mm s = open_file-Mapped o o.opened mm s
sa_open_mmap_aux-Mapped other_mode o mm s = refl

-- Closing gives the state `s`; with NULL for the file, the state is `s`.
abbrev pub Undone : System → Option SaMmap × System → Type 0
Undone s (none, s') = s' ≡ s
Undone s (some m, s') =
    (s'.descriptors ≡ s.descriptors)
    × (s'.mappings ≡ (m.map, m.size) ∷ s.mappings)
    × (sa_close_mmap (some m) s' ≡ done s)

munmap_first : (map size : ℕ) (ms : List (ℕ × ℕ)) → munmap map size ((map, size) ∷ ms) ≡ ms
unfolding munmap
munmap_first map size ms =
    let same : (map == map) ≡ true = ground arith in
    let same' : (size == size) ≡ true = ground arith in rw (same, same') refl

-- the state with `p` allocated
abbrev pub with_block : ℕ → ℕ → ℕ → List ℕ → ℕ → System → System
with_block p q size file line s = record s {
  heap = record {
    malloc_list =
        record { node = q; ptr = p; size = size; file = file; line = line } ∷ s.heap.malloc_list;
    live = q ∷ p ∷ s.heap.live;
  };
}

pub sa_free-with_block :
    (p q size : ℕ) (file : List ℕ) (line : ℕ) (s : System)
    → sa_free p (with_block p q size file line s) ≡ done s
unfolding sa_free sa_malloc_aux
sa_free-with_block p q size file line s =
    let freed = sa_free_aux_last p q size file line s.heap in rw freed refl

pub sa_close_mmap-with_block :
    (m : SaMmap) (q size : ℕ) (file : List ℕ) (line : ℕ) (s : System)
    → sa_close_mmap
        (some m)
        (with_block m.mm q size file line (record s { mappings = (m.map, m.size) ∷ s.mappings }))
      ≡ done s
unfolding sa_close_mmap
sa_close_mmap-with_block m q size file line s =
    rw (munmap_first m.map m.size s.mappings) (sa_free-with_block m.mm q size file line s)

opened_or_freed-Undone :
    (p q size : ℕ) (file : List ℕ) (line : ℕ) (s : System) (r : Option SaMmap × System)
    → Mapped p (with_block p q size file line s) r
    → Ends (opened_or_freed p r) (Undone s)
unfolding opened_or_freed
opened_or_freed-Undone p q size file line s (none, s') same =
    rw same (rw (sa_free-with_block p q size file line s) ((none, s), refl, refl))
opened_or_freed-Undone p q size file line s (some m, s') (at, same) = (
  (some m, s'),
  refl,
  rw same (refl, refl, rw (← at) (sa_close_mmap-with_block m q size file line s)),
)

module _ (sizeof_mmap : ℕ) (file : List ℕ) (short : length file < malloc_list_file_name_max) where
  allocated-Undone :
      (mode : SaMmapMode) (o : Outcome) (p q : Option ℕ) (s : System)
      → Ends (allocate p q sizeof_mmap file 68 s >>= with_struct mode o) (Undone s)
  unfolding allocate with_struct sa_malloc_aux c_free
  allocated-Undone mode o none q s = ((none, s), refl, refl)
  allocated-Undone mode o (some p) none s =
      let same : (p == p) ≡ true = ground arith in rw same ((none, s), refl, refl)
  allocated-Undone mode o (some p) (some q) s =
      let with = with_block p q sizeof_mmap file 68 s in
      rw (copy_name-done file short) (
        opened_or_freed-Undone p q sizeof_mmap file 68 s (sa_open_mmap_aux mode o p with)
          (sa_open_mmap_aux-Mapped mode o p with))

  -- For a name of the source file that fits in the list of allocations, and whatever the system's
  -- functions return, `sa_open_mmap` ends. If it returns NULL, everything is as
  -- it was before: what is allocated, the open descriptors, the mappings, and `sa_error_no`. If not, no
  -- descriptor stays open, one mapping is new, and `sa_close_mmap` gives the state as it was before.
  pub sa_open_mmap-Undone :
      (mode : SaMmapMode) (o : Outcome) (s : System)
      → Ends (sa_open_mmap sizeof_mmap file mode o s) (Undone s)
  unfolding sa_open_mmap
  sa_open_mmap-Undone mode o s = allocated-Undone mode o o.allocated o.node s
