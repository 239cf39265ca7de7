-- ===== src/Memory.antt =====
-- lib/my-malloc.c: the allocation functions that keep a list of what is allocated.
pub mod Sound
use sufary.Base.{
  ℕ, zero, suc, ◌==◌, Bool, true, false, List, [], ◌∷◌, length, ltb, if◌then◌else◌, Option, none,
  some,
}
use sufary.Base.Run.{Run, done, stop, assertion, out_of_bounds, buffer_overflow, ◌>>=◌}

-- MALLOC_LIST_FILE_NAME_MAX
abbrev pub malloc_list_file_name_max : ℕ
malloc_list_file_name_max = 20

-- SA_MALLOC_LIST. An address is a number, NULL is 0; `node` is the address of the list's entry.
-- `file` is the characters before the zero byte in an array of `malloc_list_file_name_max`.
pub record MallocList : Type 0 where
  pub node : ℕ
  pub ptr : ℕ
  pub size : ℕ
  pub file : List ℕ
  pub line : ℕ

-- `sa_malloc_list_top`, and the addresses that the C library has allocated and not freed.
pub record Heap : Type 0 where
  pub malloc_list : List MallocList
  pub live : List ℕ

-- `free` of the C library: freeing what is not allocated is undefined.
unfoldable pub c_free : ℕ → List ℕ → Run (List ℕ)
c_free p [] = stop out_of_bounds
c_free p (q ∷ live) =
    let rest = c_free p live >>= λ live'. done (q ∷ live') in if p == q then done live else rest

-- `strcpy` of a file name, with the zero byte that ends it, into the entry's array.
unfoldable pub copy_name {ℓ} : {A : Type ℓ} → List ℕ → A → Run A
copy_name file a =
    if ltb (length file) malloc_list_file_name_max then done a else stop buffer_overflow

-- `sa_malloc_aux` and `sa_calloc_aux`, which differ in the content of the block: `allocated` and
-- `node` are the results of their two calls of the C library. `size` is what the entry records, for
-- `sa_calloc` its second argument. The result is the pointer, or NULL.
unfoldable pub sa_malloc_aux : Option ℕ → Option ℕ → ℕ → List ℕ → ℕ → Heap → Run (Option ℕ × Heap)
unfolding c_free copy_name
sa_malloc_aux none _ size file line h = done (none, h)
sa_malloc_aux (some ptr) none size file line h =
    c_free ptr (ptr ∷ h.live) >>= λ live. done (none, record h { live = live })
sa_malloc_aux (some ptr) (some node) size file line h = copy_name file (
  some ptr,
  record {
    malloc_list =
        record { node = node; ptr = ptr; size = size; file = file; line = line } ∷ h.malloc_list;
    live = node ∷ ptr ∷ h.live;
  },
)

-- the entry in front stays in the list
abbrev pub keep_before :
    MallocList → Option (MallocList × List MallocList) → Option (MallocList × List MallocList)
keep_before cur none = none
keep_before cur (some (found, others)) = some (found, cur ∷ others)

-- The loop of `sa_free_aux`: the first entry of the list for the pointer, and the list without it.
unfoldable pub unlink : ℕ → List MallocList → Option (MallocList × List MallocList)
unlink ptr [] = none
unlink ptr (cur ∷ next) =
    let rest = keep_before cur (unlink ptr next) in
    if cur.ptr == ptr then some (cur, next) else rest

-- What is done with what the loop finds. A pointer that is not in the list is passed over, unless
-- it is NULL.
unfoldable pub release : ℕ → Heap → Option (MallocList × List MallocList) → Run Heap
unfolding c_free
release ptr h none = if ptr == 0 then stop assertion else done h
release ptr h (some (cur, others)) = do
  live ← c_free cur.node h.live
  live' ← c_free ptr live
  done (record { malloc_list = others; live = live' })

unfoldable pub sa_free_aux : ℕ → Heap → Run Heap
unfolding unlink release
sa_free_aux ptr h = release ptr h (unlink ptr h.malloc_list)

-- The loop of `sa_memory_leak_check`, which frees the entries of the list and not the blocks.
unfoldable pub leak_loop : List MallocList → List ℕ → Run (List ℕ)
unfolding c_free
leak_loop [] live = done live
leak_loop (cur ∷ next) live = c_free cur.node live >>= leak_loop next

unfoldable pub sa_memory_leak_check : Heap → Run (ℕ × Heap)
unfolding leak_loop
sa_memory_leak_check h = elim h.malloc_list [
  | [] ↦ done (1, h)
  | cur ∷ next ↦ do
    live ← leak_loop (cur ∷ next) h.live
    done (0, record { malloc_list = []; live = live })
]
