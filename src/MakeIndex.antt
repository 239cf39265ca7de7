-- ===== src/MakeIndex.antt =====
-- lib/make-index.c: writing an index, and checking that it is sorted.
pub mod Strcmp
pub mod IsSorted
pub mod WriteIndex
pub mod Heap
pub mod UpHeap
pub mod TwoLevel
pub mod HeapSlots
pub mod DownHeap
pub mod Runs
pub mod Merge
pub mod MultikeyQsort
pub mod Swaps
pub mod SplitSteps
pub mod Partition
pub mod Parts
pub mod SortIndex
use Prim.Native.Nat.{bit_and}
use sufary.Base.{
  ℕ, zero, suc, ◌+◌, ◌-◌, List, min, get_elem?, ltb, not, Bool, true, false, ◌∷◌, [], ◌==◌,
  if◌then◌else◌, ◌&&◌,
}
use sufary.Base.Int.{ℤ, pos, negsuc, sub_ℕ, less_int}
use sufary.Base.Run.{Run, done, stop, out_of_fuel, or_fault, assert, ◌>>=◌, ◌>>◌}
use sufary.File.{Sufary, sa_get_text_size, sa_get_array_size, sa_aryidx2txtptr}

module _ (text : List ℕ) where
  -- The loop of `sa_strcmp` and the `return` behind it, with `rounds` bytes left to compare.
  unfoldable pub strcmp_loop : ℕ → ℕ → ℕ → Run ℤ
  strcmp_loop zero p1 p2 = done (if ltb p2 p1 then negsuc 4648 else pos 4649)
  strcmp_loop (suc rounds) p1 p2 = do
    t1 ← or_fault (get_elem? text p1)
    t2 ← or_fault (get_elem? text p2)
    let rest = strcmp_loop rounds (p1 + 1) (p2 + 1)
    if t1 == t2 then rest else done (sub_ℕ t1 t2)

  -- `sa_strcmp`; `last` is `m_text_last_ptr`.
  unfoldable pub sa_strcmp : ℕ → ℕ → ℕ → Run ℤ
  unfolding strcmp_loop
  sa_strcmp last p1 p2 = do
    assert (not (p1 == p2))
    assert (ltb p1 last && ltb p2 last)
    strcmp_loop (min (last - p1) (last - p2)) p1 p2

abbrev pub is_positive : ℤ → Bool
is_positive (pos n) = ltb 0 n
is_positive (negsuc _) = false

module _ (ary : Sufary) where
  -- The loop of `sa_is_sorted`, with `rounds` entries left; `pre` is `pre_str`.
  unfoldable pub is_sorted_loop : ℕ → ℕ → ℕ → Run ℕ
  is_sorted_loop zero i pre = done 1
  is_sorted_loop (suc rounds) i pre = do
    now ← sa_aryidx2txtptr ary i
    r ← sa_strcmp ary.text (0 + sa_get_text_size ary) pre now
    let rest = is_sorted_loop rounds (i + 1) now
    if is_positive r then done 0 else rest

  -- `sa_is_sorted`, without the progress meter.
  unfoldable pub sa_is_sorted : Run ℕ
  unfolding is_sorted_loop
  sa_is_sorted = do pre ← sa_aryidx2txtptr ary 0; is_sorted_loop (sa_get_array_size ary - 1) 1 pre

-- SA_CUT_TOP
abbrev pub cut_top : ℕ
cut_top = 8

module _ (next : ℤ → Run ℕ) (size_of_text_file : ℕ) where
  -- The `for` of `sa_write_index`, with fuel; `i` begins at -1. The result is the entries that
  -- `sa_fwrite` writes to the index, in order.
  unfoldable pub write_loop : ℕ → ℤ → Run (List ℕ)
  write_loop zero i = stop out_of_fuel
  write_loop (suc fuel) i = elim (less_int i size_of_text_file) [
    | false ↦ done []
    | true ↦ do
      i' ← next i
      rest ← write_loop fuel (pos i')
      done (if ltb i' size_of_text_file then i' ∷ rest else rest)
  ]

  -- `sa_write_index` from the open text on; `get_next_ip_func` is `next`.
  unfoldable pub sa_write_index : ℕ → Run (List ℕ)
  unfolding write_loop
  sa_write_index sa_mki_mode =
      write_loop (size_of_text_file + 2)
        (if bit_and sa_mki_mode cut_top == 0 then negsuc 0 else pos 0)
