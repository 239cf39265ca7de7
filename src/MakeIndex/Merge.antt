-- ===== src/MakeIndex/Merge.antt =====
-- `sa_merge_blocks` of lib/make-index.c: the sorted blocks become one list of entries.
use sufary.Base.{
  ℕ, zero, suc, ◌+◌, ◌-◌, ◌<◌, ◌≡◌, refl, ◌∙◌, ap, inl, inr, List, [], ◌∷◌, length, get_or,
  get_elem?-eq-get_or, set, take, drop, drop-get_or, Bool-cases, Bool, if◌then◌else◌, some, none,
  true, false, leb, one_if, count, arith,
}
use sufary.Base.Run.{Ends, Ends-bind, done}
use sufary.Search.Suffix.{LexLe}
use sufary.MakeIndex.Strcmp.{tail_of}
use sufary.MakeIndex.Heap.{Block, downheap, hremove, merge_round, merge_loop}
use sufary.MakeIndex.UpHeap.{string, put_block-set}
use sufary.MakeIndex.TwoLevel.{IsCString, cached-IsCached}
use sufary.MakeIndex.HeapSlots.{no_block, block_at, weigh}
use sufary.MakeIndex.SortIndex.{sa_merge_blocks}
use sufary.MakeIndex.DownHeap.{IsOrderedHeap}
use sufary.MakeIndex.Runs.{
  Apart, size, IsIndex, IsRun, rest_of, advance-IsOrderedHeap, hremove-Removed,
}

module _ (text : List ℕ) (last : ℕ) (array : List ℕ) where
  -- the entries that are left in a block
  abbrev pub slice : Block → List ℕ
  slice b = take (size b) (drop b.aryidx array)

  -- The strings of the entries ascend from `s` on.
  abbrev pub IsAscending : List ℕ → List ℕ → Type 0
  IsAscending s [] = Unit
  IsAscending s (e ∷ es) = LexLe s (tail_of text last e) × IsAscending (tail_of text last e) es

  -- What the loop writes: all entries of the blocks, in alphabetical order from `s` on.
  abbrev pub Merged : List ℕ → ℕ → List Block → List ℕ → Type 0
  Merged s n a out =
      IsAscending s out × ((x : ℕ) → count x out ≡ weigh (λ b. count x (slice b)) n a)

  module _ (c : IsCString text last) (ix : IsIndex text last array) where
    -- What one round of the loop makes of the heap and the entry that it writes.
    abbrev Written : ℕ → List Block → ℕ × ℕ × List Block → Type 0
    Written n a (e, m, out) =
        (e ≡ get_or array (block_at a 1).aryidx 0)
        × IsOrderedHeap text last array
            (IsRun text last array (string text last array (block_at a 1))) Apart m out
        × (weigh size m out + 1 ≡ weigh size n a)
        × ((x : ℕ)
            → weigh (λ b. count x (slice b)) m out + one_if x e
              ≡ weigh (λ b. count x (slice b)) n a)

    count-slice :
        (s : List ℕ) (x : ℕ) (b : Block)
        → IsRun text last array s b
        → count x (slice b)
          ≡ one_if x (get_or array b.aryidx 0) + count x (slice (rest_of text last array b))
    count-slice s x b r =
        let e : size b ≡ suc (b.max - (b.aryidx + 1)) = omega (arith, r.has_entry) in
        let e' : b.aryidx + 1 ≡ suc b.aryidx = omega arith in
        let long : b.aryidx < length array = omega (arith, r.has_entry, r.inside) in
        rw e (rw (drop-get_or b.aryidx array 0 long) (rw e' refl))

    merge_round-Written :
        (s : List ℕ) (n : ℕ) (a : List Block)
        → IsOrderedHeap text last array (IsRun text last array s) Apart (suc n) a
        → Ends (merge_round text last array (suc n) a) (Written (suc n) a)
    unfolding merge_round
    merge_round-Written s n a h =
        let b = block_at a 1 in
        let room = h.room in
        let r = h.holds.good 1 (omega arith) (omega arith) in
        let here : b.aryidx < length array = omega (arith, r.has_entry, r.inside) in
        let next = record b { aryidx = b.aryidx + 1 } in
        let one_less = r.has_entry in
        let count-slice_end : (x : ℕ)
            → leb b.max (b.aryidx + 1) ≡ true
            → count x (slice (rest_of text last array b)) ≡ 0 =
          λ x gone. let none : b.max - (b.aryidx + 1) ≡ 0 = ground arith in rw none refl in
        rw
          (
            get_elem?-eq-get_or a 1 no_block (omega arith),
            get_elem?-eq-get_or array b.aryidx 0 here,
          )
          (elim (Bool-cases (leb b.max (b.aryidx + 1))) [
            | inl gone ↦ rw gone (
                rw (put_block-set a 1 next (omega arith)) (
                  Ends-bind (hremove text last array (suc n) (set a 1 next)) _
                    (hremove-Removed text last array c ix s n a h next)
                    (λ (r', m, out) (e, heap, weighs). (
                      _,
                      refl,
                      (
                        refl,
                        rw e heap,
                        rw e (ground (arith, weighs size)),
                        λ x. rw e (
                            omega (
                              arith,
                              weighs (λ b'. count x (slice b')),
                              count-slice s x b r,
                              count-slice_end x gone,
                            )),
                      ),
                    ))))
            | inr more ↦
                let (next', ran, cut) =
                  cached-IsCached text last array c next (ground (arith, r.inside))
                    (omega (arith, ix.in_text (b.aryidx + 1) (ground (arith, r.inside)))) in
                rw more (
                  rw (ran ∙ ap done cut) (
                    rw (put_block-set a 1 (rest_of text last array b) (omega arith)) (
                      Ends-bind
                        (downheap text last array (suc n) (set a 1 (rest_of text last array b)) 1) _
                        (advance-IsOrderedHeap text last array c ix s n a h (ground arith))
                        (λ out (heap, weighs). (
                          _,
                          refl,
                          (
                            refl,
                            heap,
                            ground (arith, weighs size),
                            λ x.
                                omega
                                  (arith, weighs (λ b'. count x (slice b')), count-slice s x b r),
                          ),
                        )))))
          ])

    merge_loop-Merged :
        (rounds : ℕ) (s : List ℕ) (n : ℕ) (a : List Block)
        → IsOrderedHeap text last array (IsRun text last array s) Apart n a
        → rounds ≡ weigh size n a
        → Ends (merge_loop text last array rounds n a) (Merged s n a)
    unfolding merge_loop
    merge_loop-Merged zero s zero a h e = ([], refl, (tt, λ x. refl))
    merge_loop-Merged zero s (suc n) a h e =
        let r = h.holds.good (suc n) (omega arith) (omega arith) in
        absurd (omega (arith, r.has_entry))
    merge_loop-Merged (suc rounds) s zero a h e = absurd (omega arith)
    merge_loop-Merged (suc rounds) s (suc n) a h e =
        let root = h.holds.good 1 (omega arith) (omega arith) in
        let b = block_at a 1 in
        Ends-bind (merge_round text last array (suc n) a) _ (merge_round-Written s n a h)
          (λ (x, m, a') (same, heap, fewer, counts).
            Ends-bind (merge_loop text last array rounds m a') _
              (merge_loop-Merged rounds (string text last array b) m a' heap (omega arith))
              (λ out (ascends, counted). (
                x ∷ out,
                refl,
                ((rw same root.behind, rw same ascends), λ y. omega (arith, counts y, counted y)),
              )))

    -- For a heap of blocks of different positions of a text without zero bytes, whose entries are
    -- each in alphabetical order and have no entry in common, `sa_merge_blocks` with the number of
    -- their entries ends; if the file can be created it holds the entries of all blocks, each as often
    -- as they do, in alphabetical order.
    pub sa_merge_blocks-Merged :
        (rand_below : ℕ → ℕ) (qsort : List ℕ → List ℕ) (created : Bool) (n : ℕ) (bl : List Block)
        → IsOrderedHeap text last array (IsRun text last array []) Apart n bl
        → Ends
            (sa_merge_blocks text last rand_below qsort created (weigh size n bl) array (n, bl))
            (λ r.
              if created
              then ((out : List ℕ) × (r ≡ some out) × Merged [] n bl out)
              else (r ≡ none))
    unfolding sa_merge_blocks
    sa_merge_blocks-Merged rand_below qsort true n bl h =
        let (out, ran, merged) = merge_loop-Merged (weigh size n bl) [] n bl h refl in
        rw ran (some out, refl, (out, refl, merged))
    sa_merge_blocks-Merged rand_below qsort false n bl h = (none, refl, refl)
