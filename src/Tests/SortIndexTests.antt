-- ===== src/Tests/SortIndexTests.antt =====
-- The sorting of lib/make-index.c on the text "aba", in three blocks of one entry.
use sufary.Base.{
  ℕ, zero, suc, ◌+◌, ◌<◌, get_or, ◌≤◌, List, Option, ◌≡◌, ◌≢◌, refl, [], ◌∷◌, true, some, arith,
}
use sufary.Base.Run.{Run, Ends, done, ◌>>=◌}
use sufary.MakeIndex.Heap.{Block, insertheap}
use sufary.MakeIndex.UpHeap.{position, IsUsable, IsHeap, insertheap-IsHeap}
use sufary.MakeIndex.HeapSlots.{weigh, no_block, block_at}
use sufary.MakeIndex.MultikeyQsort.{partition}
use sufary.MakeIndex.Parts.{IsPartition, partition-IsPartition}
use sufary.Tests.MergeTests.{aba-IsCString}
use sufary.MakeIndex.SortIndex.{sa_sort_each_block, sa_merge_blocks}

abbrev aba_page : List ℕ
aba_page =
    97 ∷ 98 ∷ 97 ∷ 0 ∷ 0 ∷ 0 ∷ 0 ∷ 0 ∷ 0 ∷ 0 ∷ 0 ∷ 0 ∷ 0 ∷ 0 ∷ 0 ∷ 0 ∷ 0 ∷ 0 ∷ 0 ∷ 0 ∷ 0 ∷ 0 ∷ 0 ∷ 0
    ∷ []

abbrev sorted_aba : Run (Option (List ℕ))
sorted_aba = do
  (array, size, bl) ←
      sa_sort_each_block aba_page 3 (λ n. 0) (λ xs. xs) 1 3 (0 ∷ 1 ∷ 2 ∷ [])
        (0, no_block ∷ no_block ∷ no_block ∷ no_block ∷ [])
  sa_merge_blocks aba_page 3 (λ n. 0) (λ xs. xs) true 3 array (size, bl)

sort_aba : sorted_aba ≡ done (some (2 ∷ 0 ∷ 1 ∷ []))
unfolding sa_sort_each_block sa_merge_blocks
sort_aba = refl

-- The string "aba" at position 0 is in the heap, and "a" at position 2 is put in it.
abbrev one_block : List Block
one_block = no_block ∷ record { aryidx = 0; max = 2; strbuf = [] } ∷ no_block ∷ []

abbrev new_block : Block
new_block = record { aryidx = 2; max = 3; strbuf = [] }

one_block-IsUsable :
    (j : ℕ) → 1 ≤ j → j ≤ 1 → IsUsable aba_page 3 (0 ∷ 1 ∷ 2 ∷ []) (block_at one_block j)
one_block-IsUsable zero p q = absurd (omega arith)
one_block-IsUsable (suc zero) p q = (omega arith, omega arith)
one_block-IsUsable (suc (suc j)) p q = absurd (omega arith)

own_position : (j : ℕ) → 1 ≤ j → j ≤ 1 → position (0 ∷ 1 ∷ 2 ∷ []) (block_at one_block j) ≢ 2
own_position zero p q e = absurd (omega arith)
own_position (suc zero) p q e = omega arith
own_position (suc (suc j)) p q e = absurd (omega arith)

insertheap-IsHeap_example :
    Ends (insertheap aba_page 3 (0 ∷ 1 ∷ 2 ∷ []) 1 one_block new_block) (λ (size, out).
      (size ≡ 2)
      × IsHeap aba_page 3 (0 ∷ 1 ∷ 2 ∷ []) 2 out
      × ((f : Block → ℕ) → weigh f 2 out ≡ f new_block + weigh f 1 one_block))
insertheap-IsHeap_example =
    insertheap-IsHeap aba_page 3 (0 ∷ 1 ∷ 2 ∷ []) (omega arith) new_block (omega arith, omega arith)
      1 one_block
      (record {
        room = omega arith;
        order = λ j p q. absurd (omega arith);
        usable = one_block-IsUsable;
      })
      (omega arith) own_position

-- One step by the first characters of "aba", "ba" and "a", with "ba" as the pivot.
partition_aba :
    partition aba_page 3 (λ n. 1) (λ xs. xs) 3 (0 ∷ 1 ∷ 2 ∷ []) 0
    ≡ done (record { x = 2 ∷ 0 ∷ 1 ∷ []; a = 1; b = 3; c = 2; d = 2 })
unfolding partition
partition_aba = refl

aba_entries-reach : (i : ℕ) → i < 3 → get_or (0 ∷ 1 ∷ 2 ∷ []) i 0 + 0 ≤ 3
aba_entries-reach zero h = omega arith
aba_entries-reach (suc zero) h = omega arith
aba_entries-reach (suc (suc zero)) h = omega arith
aba_entries-reach (suc (suc (suc i))) h = absurd (omega arith)

partition-IsPartition_example :
    Ends
      (partition aba_page 3 (λ n. 1) (λ xs. xs) 3 (0 ∷ 1 ∷ 2 ∷ []) 0)
      (IsPartition aba_page 3 0 3 aba-IsCString (0 ∷ 1 ∷ 2 ∷ []))
partition-IsPartition_example =
    partition-IsPartition aba_page 3 0 3 aba-IsCString (λ n. 1) (λ xs. xs) (0 ∷ 1 ∷ 2 ∷ [])
      (omega arith) (omega arith, aba_entries-reach)
