-- ===== src/MakeIndex/Heap.antt =====
-- The heap of lib/make-index.c, which merges sorted blocks.
use sufary.Base.{
  ℕ, zero, suc, ◌+◌, ◌-◌, ◌*◌, ◌/◌, Bool, true, false, List, [], ◌∷◌, ◌++◌, length, get_elem?, set,
  drop, ltb, leb, ◌==◌, if◌then◌else◌,
}
use sufary.Base.Int.{ℤ, pos, negsuc, sub_ℕ}
use sufary.Base.Run.{Run, done, stop, out_of_fuel, out_of_bounds, or_fault, ◌>>=◌}
use sufary.MakeIndex.{sa_strcmp, is_positive}

-- STR_CACHE_SIZE
abbrev pub str_cache_size : ℕ
str_cache_size = 20

-- BLOCK. Each block stands in the heap once, so the heap's pointers are the blocks themselves.
pub record Block : Type 0 where
  pub aryidx : ℕ
  pub max : ℕ
  pub strbuf : List ℕ

-- r >= 0
abbrev pub is_natural : ℤ → Bool
is_natural (pos _) = true
is_natural (negsuc _) = false

-- `strcmp` of the C library, which reads up to the first difference or the end of the strings.
unfoldable pub strcmp : List ℕ → List ℕ → Run ℤ
strcmp [] ys = stop out_of_bounds
strcmp (x ∷ xs) [] = stop out_of_bounds
strcmp (x ∷ xs) (y ∷ ys) =
    let rest = strcmp xs ys in
    if x == y then (if x == 0 then done (pos 0) else rest) else done (sub_ℕ x y)

-- `strncpy` of `n` characters: those up to the end of the string, and zeros.
unfoldable pub strncpy : ℕ → List ℕ → Run (List ℕ)
strncpy zero s = done []
strncpy (suc n) [] = stop out_of_bounds
strncpy (suc n) (c ∷ s) = strncpy n (if c == 0 then c ∷ s else s) >>= λ cs. done (c ∷ cs)

-- `a[k] = v`
unfoldable pub put_block : List Block → ℕ → Block → Run (List Block)
put_block a k v = if ltb k (length a) then done (set a k v) else stop out_of_bounds

-- `text` is what can be read from `m_text_ptr` on, `last` is `m_text_last_ptr` and `array` is what
-- stands at `m_array_ptr`.
module _ (text : List ℕ) (last : ℕ) (array : List ℕ) where
  unfoldable pub suffix_compare : ℕ → ℕ → Run ℤ
  unfolding sa_strcmp
  suffix_compare a b = do
    x ← or_fault (get_elem? array a)
    y ← or_fault (get_elem? array b)
    sa_strcmp text last x y

  unfoldable pub two_level_compare : Block → Block → Run ℤ
  unfolding strcmp
  two_level_compare a b = do
    r ← strcmp a.strbuf b.strbuf
    let second = or_fault (get_elem? array a.aryidx) >>= λ aa.
        or_fault (get_elem? array b.aryidx) >>= λ bb.
        strcmp (drop (aa + str_cache_size) text) (drop (bb + str_cache_size) text)
    elim r [ pos zero ↦ second | pos (suc n) ↦ done (pos (suc n)) | negsuc n ↦ done (negsuc n) ]

  -- The first characters of the block's present string.
  unfoldable pub cached : Block → Run Block
  unfolding strncpy
  cached b = do
    p ← or_fault (get_elem? array b.aryidx)
    s ← strncpy str_cache_size (drop p text)
    done (record b { strbuf = s ++ 0 ∷ [] })

  -- The `while` of `upheap`, with fuel, and the `a[k] = v` behind it.
  unfoldable pub up_loop : ℕ → ℕ → Block → List Block → Run (List Block)
  unfolding suffix_compare put_block
  up_loop zero k v a = stop out_of_fuel
  up_loop (suc fuel) k v a = elim (ltb 1 k) [
    | false ↦ put_block a k v
    | true ↦ do
      parent ← or_fault (get_elem? a (k / 2))
      r ← suffix_compare parent.aryidx v.aryidx
      let up = put_block a k parent >>= up_loop fuel (k / 2) v
      if is_positive r then up else put_block a k v
  ]

  unfoldable pub upheap : List Block → ℕ → Run (List Block)
  unfolding up_loop
  upheap a k = do v ← or_fault (get_elem? a k); up_loop (suc k) k v a

  -- `m_size_of_heap` is an argument and part of the result.
  unfoldable pub insertheap : ℕ → List Block → Block → Run (ℕ × List Block)
  unfolding put_block upheap
  insertheap size_of_heap a v = do
    a' ← put_block a (size_of_heap + 1) v
    a'' ← upheap a' (size_of_heap + 1)
    done (size_of_heap + 1, a'')

  -- The child of `k` that comes first.
  unfoldable pub smaller_child : ℕ → List Block → ℕ → Run ℕ
  unfolding two_level_compare
  smaller_child size_of_heap a k =
      let j = k * 2 in
      let both = or_fault (get_elem? a j) >>= λ x. or_fault (get_elem? a (j + 1)) >>= λ y.
      two_level_compare x y >>= λ r. done (if is_natural r then j + 1 else j) in
      if ltb j size_of_heap then both else done j

  -- The `while` of `downheap`, with fuel, and the `a[k] = v` behind it.
  unfoldable pub down_loop : ℕ → ℕ → ℕ → Block → List Block → Run (List Block)
  unfolding smaller_child two_level_compare put_block
  down_loop zero size_of_heap k v a = stop out_of_fuel
  down_loop (suc fuel) size_of_heap k v a = elim (leb k (size_of_heap / 2)) [
    | false ↦ put_block a k v
    | true ↦ do
      j ← smaller_child size_of_heap a k
      child ← or_fault (get_elem? a j)
      r ← two_level_compare v child
      let down = put_block a k child >>= down_loop fuel size_of_heap j v
      if is_positive r then down else put_block a k v
  ]

  unfoldable pub downheap : ℕ → List Block → ℕ → Run (List Block)
  unfolding down_loop
  downheap size_of_heap a k = do
    v ← or_fault (get_elem? a k)
    down_loop (suc size_of_heap) size_of_heap k v a

  -- `hremove`: its result is the block that is taken out.
  unfoldable pub hremove : ℕ → List Block → Run (Block × ℕ × List Block)
  unfolding put_block downheap
  hremove size_of_heap a = do
    r ← or_fault (get_elem? a 1)
    end ← or_fault (get_elem? a size_of_heap)
    a' ← put_block a 1 end
    a'' ← downheap (size_of_heap - 1) a' 1
    done (r, size_of_heap - 1, a'')

  -- One round of `sa_merge_blocks`: the entry that is written, and the heap.
  unfoldable pub merge_round : ℕ → List Block → Run (ℕ × ℕ × List Block)
  unfolding hremove cached put_block downheap
  merge_round size_of_heap bl = do
    tmp ← or_fault (get_elem? bl 1)
    entry ← or_fault (get_elem? array tmp.aryidx)
    let tmp' = record tmp { aryidx = tmp.aryidx + 1 }
    let remove =
        put_block bl 1 tmp' >>= hremove size_of_heap >>= λ (_, size', bl'). done (entry, size', bl')
    let advance = cached tmp' >>= put_block bl 1 >>= λ bl'.
        downheap size_of_heap bl' 1 >>= λ bl''. done (entry, size_of_heap, bl'')
    if leb tmp'.max tmp'.aryidx then remove else advance

  -- The loop, with `rounds` left: the entries that `sa_fwrite` writes, in order.
  unfoldable pub merge_loop : ℕ → ℕ → List Block → Run (List ℕ)
  unfolding merge_round
  merge_loop zero size_of_heap bl = done []
  merge_loop (suc rounds) size_of_heap bl = do
    (entry, size', bl') ← merge_round size_of_heap bl
    rest ← merge_loop rounds size' bl'
    done (entry ∷ rest)
