-- ===== src/Tests/MergeTests.antt =====
-- The merging of lib/make-index.c on the text "aba", with the strings "a" and "ba" in one block and
-- "aba" in another.
use sufary.Base.{
  ℕ, zero, suc, ◌≤◌, ◌<◌, List, ◌≡◌, ◌≢◌, refl, [], ◌∷◌, inl, inr, true, some, get_or, arith,
}
use sufary.Base.Run.{Ends, done}
use sufary.MakeIndex.Heap.{Block, downheap}
use sufary.MakeIndex.TwoLevel.{IsCString, window}
use sufary.MakeIndex.HeapSlots.{no_block, block_at, Holds, weigh, exchange-Holds}
use sufary.MakeIndex.DownHeap.{IsOrderedHeap, downheap-IsOrderedHeap}
use sufary.MakeIndex.Runs.{Apart, IsIndex, IsRun, IsRun-Admits}
use sufary.MakeIndex.SortIndex.{sa_merge_blocks}
use sufary.MakeIndex.Merge.{Merged, sa_merge_blocks-Merged}

abbrev aba_text : List ℕ
aba_text =
    97 ∷ 98 ∷ 97 ∷ 0 ∷ 0 ∷ 0 ∷ 0 ∷ 0 ∷ 0 ∷ 0 ∷ 0 ∷ 0 ∷ 0 ∷ 0 ∷ 0 ∷ 0 ∷ 0 ∷ 0 ∷ 0 ∷ 0 ∷ 0 ∷ 0 ∷ 0 ∷ 0
    ∷ []

abbrev entries : List ℕ
entries = 2 ∷ 1 ∷ 0 ∷ []

abbrev first_block : Block
first_block = record { aryidx = 0; max = 2; strbuf = window aba_text 3 20 2 }

abbrev second_block : Block
second_block = record { aryidx = 2; max = 3; strbuf = window aba_text 3 20 0 }

abbrev two_blocks : List Block
two_blocks = no_block ∷ first_block ∷ second_block ∷ []

merge_aba :
    sa_merge_blocks aba_text 3 (λ n. 0) (λ xs. xs) true 3 entries (2, two_blocks)
    ≡ done (some (2 ∷ 0 ∷ 1 ∷ []))
unfolding sa_merge_blocks
merge_aba = refl

aba-no_zero : (p : ℕ) → p < 3 → 0 < get_or aba_text p 0
aba-no_zero zero h = omega arith
aba-no_zero (suc zero) h = omega arith
aba-no_zero (suc (suc zero)) h = omega arith
aba-no_zero (suc (suc (suc p))) h = absurd (omega arith)

pub aba-IsCString : IsCString aba_text 3
aba-IsCString = record { ends_inside = omega arith; is_terminated = refl; no_zero = aba-no_zero }

entries-distinct : (i j : ℕ) → i < 3 → j < 3 → get_or entries i 0 ≡ get_or entries j 0 → i ≡ j
entries-distinct zero zero h k e = refl
entries-distinct zero (suc zero) h k e = absurd (omega arith)
entries-distinct zero (suc (suc zero)) h k e = absurd (omega arith)
entries-distinct (suc zero) zero h k e = absurd (omega arith)
entries-distinct (suc zero) (suc zero) h k e = refl
entries-distinct (suc zero) (suc (suc zero)) h k e = absurd (omega arith)
entries-distinct (suc (suc zero)) zero h k e = absurd (omega arith)
entries-distinct (suc (suc zero)) (suc zero) h k e = absurd (omega arith)
entries-distinct (suc (suc zero)) (suc (suc zero)) h k e = refl
entries-distinct (suc (suc (suc i))) j h k e = absurd (omega arith)
entries-distinct i (suc (suc (suc j))) h k e = absurd (omega arith)

entries-in_text : (i : ℕ) → i < 3 → get_or entries i 0 < 3
entries-in_text zero h = omega arith
entries-in_text (suc zero) h = omega arith
entries-in_text (suc (suc zero)) h = omega arith
entries-in_text (suc (suc (suc i))) h = absurd (omega arith)

entries-IsIndex : IsIndex aba_text 3 entries
entries-IsIndex = record { in_text = entries-in_text; distinct = entries-distinct }

first_block-IsRun : IsRun aba_text 3 entries [] first_block
first_block-IsRun = record {
  has_entry = omega arith;
  inside = omega arith;
  ascends = elim [ zero ↦ λ p q. inl (omega arith) | suc i ↦ λ p q. absurd (omega arith) ];
  is_cached = refl;
  behind = tt;
}

second_block-IsRun : IsRun aba_text 3 entries [] second_block
second_block-IsRun = record {
  has_entry = omega arith;
  inside = omega arith;
  ascends = λ i p q. absurd (omega arith);
  is_cached = refl;
  behind = tt;
}

blocks_good : (j : ℕ) → 1 ≤ j → j ≤ 2 → IsRun aba_text 3 entries [] (block_at two_blocks j)
blocks_good zero p q = absurd (omega arith)
blocks_good (suc zero) p q = first_block-IsRun
blocks_good (suc (suc zero)) p q = second_block-IsRun
blocks_good (suc (suc (suc j))) p q = absurd (omega arith)

blocks-Apart :
    (i j : ℕ)
    → 1 ≤ i
    → i ≤ 2
    → 1 ≤ j
    → j ≤ 2
    → i ≢ j
    → Apart (block_at two_blocks i) (block_at two_blocks j)
blocks-Apart zero j p q p' q' d = absurd (omega arith)
blocks-Apart (suc zero) zero p q p' q' d = absurd (omega arith)
blocks-Apart (suc zero) (suc zero) p q p' q' d = absurd (d refl)
blocks-Apart (suc zero) (suc (suc zero)) p q p' q' d = inl (omega arith)
blocks-Apart (suc zero) (suc (suc (suc j))) p q p' q' d = absurd (omega arith)
blocks-Apart (suc (suc zero)) zero p q p' q' d = absurd (omega arith)
blocks-Apart (suc (suc zero)) (suc zero) p q p' q' d = inr (omega arith)
blocks-Apart (suc (suc zero)) (suc (suc zero)) p q p' q' d = absurd (d refl)
blocks-Apart (suc (suc zero)) (suc (suc (suc j))) p q p' q' d = absurd (omega arith)
blocks-Apart (suc (suc (suc i))) j p q p' q' d = absurd (omega arith)

blocks-Holds : Holds (IsRun aba_text 3 entries []) Apart 2 two_blocks
blocks-Holds = record { good = blocks_good; apart = blocks-Apart }

two_blocks-IsOrderedHeap :
    IsOrderedHeap aba_text 3 entries (IsRun aba_text 3 entries []) Apart 2 two_blocks
two_blocks-IsOrderedHeap = record {
  room = omega arith;
  order = λ j p q. let e : j ≡ 2 = omega arith in rw e (inr (refl, tt));
  holds = blocks-Holds;
}

sa_merge_blocks-Merged_example :
    Ends
      (sa_merge_blocks aba_text 3 (λ n. 0) (λ xs. xs) true 3 entries (2, two_blocks))
      (λ r. (out : List ℕ) × (r ≡ some out) × Merged aba_text 3 entries [] 2 two_blocks out)
sa_merge_blocks-Merged_example =
    sa_merge_blocks-Merged aba_text 3 entries aba-IsCString entries-IsIndex (λ n. 0) (λ xs. xs) true
      2 two_blocks two_blocks-IsOrderedHeap

-- The string "aba" stands in front of "a".
abbrev exchanged_blocks : List Block
exchanged_blocks = no_block ∷ second_block ∷ first_block ∷ []

sink_aba : downheap aba_text 3 entries 2 exchanged_blocks 1 ≡ done two_blocks
unfolding downheap
sink_aba = refl

downheap-IsOrderedHeap_example : Ends (downheap aba_text 3 entries 2 exchanged_blocks 1) (λ out.
    IsOrderedHeap aba_text 3 entries (IsRun aba_text 3 entries []) Apart 2 out
    × ((f : Block → ℕ) → weigh f 2 out ≡ weigh f 2 exchanged_blocks))
downheap-IsOrderedHeap_example =
    downheap-IsOrderedHeap aba_text 3 entries (IsRun aba_text 3 entries []) Apart aba-IsCString
      (IsRun-Admits aba_text 3 entries aba-IsCString entries-IsIndex []) 2 exchanged_blocks
      (omega arith) (omega arith) (λ j p q ne. absurd (ne (omega arith)))
      (exchange-Holds (IsRun aba_text 3 entries []) Apart 2 two_blocks 2 1 first_block (omega arith)
        (omega arith) (omega arith) (omega arith) (omega arith) (omega arith) blocks-Holds)
