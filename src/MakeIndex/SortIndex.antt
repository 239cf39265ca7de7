-- ===== src/MakeIndex/SortIndex.antt =====
-- Sorting an index, in lib/make-index.c: all at once, or in blocks that are merged.
use sufary.Base.{
  ℕ, zero, suc, ◌+◌, ◌-◌, ◌*◌, ◌/◌, ◌%◌, Bool, true, false, List, [], ◌++◌, map, length, take, drop,
  ltb, ◌==◌, Option, none, some, if◌then◌else◌,
}
use sufary.Base.Run.{Run, done, stop, out_of_fuel, ◌>>=◌}
use sufary.Util.{reverse_word}
use sufary.MakeIndex.Heap.{Block, cached, insertheap, merge_loop}
use sufary.MakeIndex.MultikeyQsort.{multikey_qsort}

-- `sa_reverse_byte_order_all` on entries of 4 bytes
unfoldable pub sa_reverse_byte_order_all : List ℕ → List ℕ
sa_reverse_byte_order_all array = map reverse_word array

-- `text` is what can be read from `m_text_ptr` on, and `last` is `m_text_last_ptr`. `qsort` is what
-- the C library's function makes of entries with `suffix_compare`, and `rand_below n` is
-- `rand() % n`.
module _ (text : List ℕ) (last : ℕ) (rand_below : ℕ → ℕ) (qsort : List ℕ → List ℕ) where
  -- the index is mapped, so that its entries are changed in place
  unfoldable pub sa_sort_index_system_qsort : List ℕ → List ℕ
  unfolding sa_reverse_byte_order_all
  sa_sort_index_system_qsort array =
      sa_reverse_byte_order_all (qsort (sa_reverse_byte_order_all array))

  -- Each call of `multikey_qsort` has fewer entries, or the next character of the text.
  abbrev pub recursion_bound : List ℕ → ℕ
  recursion_bound array = suc (length array + length text)

  unfoldable pub sa_sort_index_multikey_qsort : List ℕ → Run (List ℕ)
  unfolding sa_reverse_byte_order_all multikey_qsort
  sa_sort_index_multikey_qsort array = do
    sorted ←
        multikey_qsort text last rand_below qsort (recursion_bound array)
          (sa_reverse_byte_order_all array) (length array) 0
    done (sa_reverse_byte_order_all sorted)

  -- The number of entries of the block that begins at `j`.
  abbrev pub block_size : ℕ → ℕ → ℕ → ℕ
  block_size bl_size num_of_indexes j =
      if ltb num_of_indexes (j + bl_size) then num_of_indexes - j else bl_size

  -- The loop of `sa_sort_each_block`, with fuel: the entries, and the heap.
  unfoldable pub block_loop :
      ℕ → ℕ → ℕ → ℕ → List ℕ → ℕ × List Block → Run (List ℕ × ℕ × List Block)
  unfolding multikey_qsort cached insertheap
  block_loop zero bl_size num_of_indexes j array (size_of_heap, bl) = stop out_of_fuel
  block_loop (suc fuel) bl_size num_of_indexes j array (size_of_heap, bl) =
      elim (ltb j num_of_indexes) [
        | false ↦ done (array, size_of_heap, bl)
        | true ↦ do
          let size = block_size bl_size num_of_indexes j
          sorted ←
              multikey_qsort text last rand_below qsort (recursion_bound array) (drop j array) size
                0
          let array' = take j array ++ sorted
          tmp ← cached text last array' (record { aryidx = j; max = j + size; strbuf = [] })
          heap ← insertheap text last array' size_of_heap bl tmp
          block_loop fuel bl_size num_of_indexes (j + bl_size) array' heap
      ]

  unfoldable pub sa_sort_each_block :
      ℕ → ℕ → List ℕ → ℕ × List Block → Run (List ℕ × ℕ × List Block)
  unfolding block_loop
  sa_sort_each_block bl_size num_of_indexes array heap =
      block_loop (suc num_of_indexes) bl_size num_of_indexes 0 array heap

  -- `created` is whether the file can be opened; the result is what it holds, or FAIL.
  unfoldable pub sa_merge_blocks : Bool → ℕ → List ℕ → ℕ × List Block → Run (Option (List ℕ))
  unfolding merge_loop
  sa_merge_blocks created num_of_indexes array (size_of_heap, bl) =
      let merged = merge_loop text last array num_of_indexes size_of_heap bl >>= λ entries.
      done (some entries) in
      if created then merged else done none

  abbrev pub number_of_blocks : ℕ → ℕ → ℕ
  number_of_blocks size_of_array_file bl_size =
      if size_of_array_file % bl_size == 0
      then size_of_array_file / bl_size
      else size_of_array_file / bl_size + 1

  -- `fresh n` is what `sa_malloc` returns for `n` blocks; `size_of_heap` is what earlier calls left;
  -- `renamed` is whether the merged file takes the place of the index. The memory is for
  -- `mega_byte` megabytes, a positive number.
  unfoldable pub sa_sort_index_divide_and_merge :
      (ℕ → List Block) → ℕ → Bool → Bool → ℕ → List ℕ → Run (Option (List ℕ))
  unfolding sa_reverse_byte_order_all sa_sort_each_block sa_merge_blocks
  sa_sort_index_divide_and_merge fresh size_of_heap created renamed mega_byte array = do
    let bl_size = 250000 * mega_byte
    let size = length array
    let bl = fresh (number_of_blocks size bl_size + 1)
    (array', size', bl') ←
        sa_sort_each_block bl_size size (sa_reverse_byte_order_all array) (size_of_heap, bl)
    merged ← sa_merge_blocks created size array' (size', bl')
    done (if renamed then merged else none)
