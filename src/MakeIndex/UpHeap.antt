-- ===== src/MakeIndex/UpHeap.antt =====
-- The order of the heap of lib/make-index.c, and `insertheap`.
use sufary.Base.{
  ℕ, zero, suc, ◌+◌, ◌/◌, ◌≤◌, ◌<◌, ◌≡◌, ◌≢◌, refl, sym, ◌∙◌, ◌⊎◌, inl, inr, List, length,
  length-set, get_or, get_or-set_same, get_or-set_other, get_elem?-eq-get_or, set, Bool-cases, true,
  false, ltb, arith,
}
use native.Mathlib.Decide.{ℕ_discrete}
use sufary.Base.Int.{ℤ, pos, negsuc}
use sufary.Base.Run.{Ends, done}
use sufary.Search.Suffix.{LexLe}
use sufary.Search.LexOrder.{LexLe-trans}
use sufary.MakeIndex.{is_positive}
use sufary.MakeIndex.Strcmp.{tail_of, Sign, sa_strcmp-Sign}
use sufary.MakeIndex.HeapSlots.{no_block, block_at, weigh, weigh-set_out, weigh-exchange}
use sufary.MakeIndex.Heap.{Block, suffix_compare, put_block, up_loop, upheap, insertheap}

-- The same blocks at the places 1 to `n`, in any order.
abbrev SameBlocks : ℕ → List Block → List Block → Type 0
SameBlocks n a b = (f : Block → ℕ) → weigh f n a ≡ weigh f n b

-- where the block's present string begins in the text
abbrev pub position : List ℕ → Block → ℕ
position array b = get_or array b.aryidx 0

pub put_block-set :
    (a : List Block) (k : ℕ) (b : Block) → k < length a → put_block a k b ≡ done (set a k b)
unfolding put_block
put_block-set a k b h = let fits : ltb k (length a) ≡ true = ground arith in rw fits refl

module _ (text : List ℕ) (last : ℕ) (array : List ℕ) where
  -- The block's present string does not come behind the other one's.
  abbrev pub BlockLe : Block → Block → Type 0
  BlockLe x y = LexLe (tail_of text last (position array x)) (tail_of text last (position array y))

  abbrev pub string : Block → List ℕ
  string b = tail_of text last (position array b)

  abbrev pub IsUsable : Block → Type 0
  IsUsable b = (b.aryidx < length array) × (position array b < last)

  abbrev pub Ordered : Block → Block → ℤ → Type 0
  Ordered x y r = ((is_positive r ≡ true) × BlockLe y x) ⊎ ((is_positive r ≡ false) × BlockLe x y)

  pub Sign-Ordered :
      (x y : Block) (r : ℤ)
      → Sign (tail_of text last (position array x)) (tail_of text last (position array y)) r
      → Ordered x y r
  Sign-Ordered x y (negsuc n) (le, _) = inr (refl, le)
  Sign-Ordered x y (pos zero) h = elim h [ ]
  Sign-Ordered x y (pos (suc n)) (le, _) = inl (ground arith, le)

  -- A heap of `n` blocks: each of them comes behind its parent.
  pub record IsHeap (n : ℕ) (a : List Block) : Type 0 where
    pub room : n < length a
    pub order : (j : ℕ) → 2 ≤ j → j ≤ n → BlockLe (block_at a (j / 2)) (block_at a j)
    pub usable : (j : ℕ) → 1 ≤ j → j ≤ n → IsUsable (block_at a j)

  module _ (fits : last ≤ length text) where
    suffix_compare-Ordered :
        (x y : Block)
        → IsUsable x
        → IsUsable y
        → position array x ≢ position array y
        → Ends (suffix_compare text last array x.aryidx y.aryidx) (Ordered x y)
    unfolding suffix_compare
    suffix_compare-Ordered x y (a, b) (c, d) ne =
        let (r, ran, sign) =
          sa_strcmp-Sign text last fits (position array x) (position array y) ne b d in
        rw (get_elem?-eq-get_or array x.aryidx 0 a)
          (rw (get_elem?-eq-get_or array y.aryidx 0 c) (r, ran, Sign-Ordered x y r sign))

  module _ (fits : last ≤ length text) (v : Block) (is_usable : IsUsable v) where
    -- A heap but for place `k`, where `v` may go unless it comes before the parent.
    record Hole (n k : ℕ) (a : List Block) : Type 0 where
      room : n < length a
      low : 1 ≤ k
      high : k ≤ n
      away :
          (j : ℕ) → 2 ≤ j → j ≤ n → j ≢ k → j / 2 ≢ k → BlockLe (block_at a (j / 2)) (block_at a j)
      below : (j : ℕ) → j ≤ n → j / 2 ≡ k → BlockLe v (block_at a j)
      across : 2 ≤ k → (j : ℕ) → j ≤ n → j / 2 ≡ k → BlockLe (block_at a (k / 2)) (block_at a j)
      usable :
          (j : ℕ)
          → 1 ≤ j
          → j ≤ n
          → j ≢ k
          → IsUsable (block_at a j) × (position array (block_at a j) ≢ position array v)

    fill-IsHeap :
        (n k : ℕ) (a : List Block)
        → Hole n k a
        → (2 ≤ k → BlockLe (block_at a (k / 2)) v)
        → IsHeap n (set a k v)
    fill-IsHeap n k a hole parent =
        let here = get_or-set_same a k v no_block (omega (arith, hole.room, hole.high)) in
        let there = λ (j : ℕ) (ne : k ≢ j). get_or-set_other a k j v no_block ne in
        record {
          room = omega (arith, hole.room, length-set a k v);
          order = λ j p q. elim (ℕ_discrete k j) [
            | yes e ↦
                let ne : k ≢ j / 2 = λ e'. omega arith in
                rw (there (j / 2) ne) (rw (← e) (rw here (parent (omega arith))))
            | no ne ↦ elim (ℕ_discrete k (j / 2)) [
              | yes e ↦ rw (there j ne) (rw (← e) (rw here (hole.below j q (sym e))))
              | no ne' ↦
                  rw (there j ne)
                    (rw (there (j / 2) ne') (hole.away j p q (λ e. ne (sym e)) (λ e. ne' (sym e))))
            ]
          ];
          usable = λ j p q. elim (ℕ_discrete k j) [
            | yes e ↦ rw (← e) (rw here is_usable)
            | no ne ↦ rw (there j ne) ((hole.usable j p q (λ e. ne (sym e))).0)
          ];
        }

    raise-Hole :
        (n k : ℕ) (a : List Block)
        → Hole n k a
        → 2 ≤ k
        → BlockLe v (block_at a (k / 2))
        → Hole n (k / 2) (set a k (block_at a (k / 2)))
    raise-Hole n k a hole h le =
        let p = block_at a (k / 2) in
        let here = get_or-set_same a k p no_block (omega (arith, hole.room, hole.high)) in
        let there = λ (j : ℕ) (ne : k ≢ j). get_or-set_other a k j p no_block ne in
        let parent = there (k / 2) (λ e. omega arith) in
        let child = λ (j : ℕ) (q : j ≤ n) (e : j / 2 ≡ k / 2) (ne : k ≢ j).
          let from_parent = hole.away j (omega arith) q (λ e'. ne (sym e')) (λ e'. omega arith) in
          rw e at from_parent in
        record {
          room = omega (arith, hole.room, length-set a k p);
          low = omega arith;
          high = omega (arith, hole.high);
          away = λ j low q ne ne'.
              let other : k ≢ j = λ e. ne' (sym (rw e refl)) in
              elim (ℕ_discrete k (j / 2)) [
                | yes e ↦ rw (there j other) (rw (← e) (rw here (hole.across h j q (sym e))))
                | no more ↦ rw (there j other) (
                    rw (there (j / 2) more)
                      (hole.away j low q (λ e. other (sym e)) (λ e. more (sym e))))
              ];
          below = λ j q e. elim (ℕ_discrete k j) [
            | yes same ↦ rw (← same) (rw here le)
            | no other ↦
                rw (there j other)
                  (LexLe-trans (string v) (string p) (string (block_at a j)) le (child j q e other))
          ];
          across = λ h' j q e.
              let grand =
                hole.away (k / 2) h' (omega (arith, hole.high)) (λ e'. omega arith)
                  (λ e'. omega arith) in
              rw (there (k / 2 / 2) (λ e'. omega arith)) (elim (ℕ_discrete k j) [
                | yes same ↦ rw (← same) (rw here grand)
                | no other ↦ rw (there j other) (
                    LexLe-trans (string (block_at a (k / 2 / 2))) (string p) (string (block_at a j))
                      grand (child j q e other))
              ]);
          usable = λ j low q ne. elim (ℕ_discrete k j) [
            | yes same ↦ rw (← same) (
                rw here
                  (hole.usable (k / 2) (omega arith) (omega (arith, hole.high)) (λ e. omega arith)))
            | no other ↦ rw (there j other) (hole.usable j low q (λ e. other (sym e)))
          ];
        }

    -- What `upheap` makes of a heap with a hole.
    abbrev Raised : ℕ → ℕ → List Block → List Block → Type 0
    Raised n k a out = IsHeap n out × SameBlocks n out (set a k v)

    fill-Raised :
        (n k : ℕ) (a : List Block)
        → Hole n k a
        → (2 ≤ k → BlockLe (block_at a (k / 2)) v)
        → Ends (put_block a k v) (Raised n k a)
    fill-Raised n k a hole parent =
        rw (put_block-set a k v (omega (arith, hole.room, hole.high)))
          (set a k v, refl, (fill-IsHeap n k a hole parent, λ f. refl))

    up_loop-Raised :
        (fuel n k : ℕ) (a : List Block)
        → k < fuel
        → Hole n k a
        → Ends (up_loop text last array fuel k v a) (Raised n k a)
    unfolding up_loop
    up_loop-Raised zero n k a f hole = absurd (omega arith)
    up_loop-Raised (suc fuel) n k a f hole = elim (Bool-cases (ltb 1 k)) [
      | inr top ↦ rw (top, up_loop) (fill-Raised n k a hole (λ h. ground arith))
      | inl inner ↦
          let h : 2 ≤ k = ground arith in
          let inside : k / 2 < length a = omega (arith, hole.room, hole.high) in
          let (good, ne) =
            hole.usable (k / 2) (omega arith) (omega (arith, hole.high)) (λ e. omega arith) in
          let (r, ran, ordered) =
            suffix_compare-Ordered fits (block_at a (k / 2)) v good is_usable ne in
          rw (inner, up_loop)
            (rw (get_elem?-eq-get_or a (k / 2) no_block inside) (
              rw ran (elim ordered [
                | inr (stay, le) ↦ rw stay (fill-Raised n k a hole (λ _. le))
                | inl (up, le) ↦
                    let moved = set a k (block_at a (k / 2)) in
                    let (out, ran', (heap, same)) =
                      up_loop-Raised fuel n (k / 2) moved (omega arith)
                        (raise-Hole n k a hole h le) in
                    let at_k =
                      put_block-set a k (block_at a (k / 2))
                        (omega (arith, hole.room, hole.high)) in
                    let swapped = λ (f : Block → ℕ).
                      weigh-exchange f n a (k / 2) k v hole.room (omega arith)
                        (omega (arith, hole.high)) hole.low hole.high (λ e. omega arith) in
                    rw up (rw at_k (out, ran', (heap, λ f. same f ∙ swapped f)))
              ])))
    ]

    -- For a heap with room for one more block, and a block of an entry in the text that none of the
    -- heap's blocks is at, `insertheap` ends, and its result is a heap of one block more, whose places
    -- hold the blocks of the heap before and this one, each as often.
    pub insertheap-IsHeap :
        (n : ℕ) (a : List Block)
        → IsHeap n a
        → suc n < length a
        → ((j : ℕ) → 1 ≤ j → j ≤ n → position array (block_at a j) ≢ position array v)
        → Ends (insertheap text last array n a v) (λ (size, out).
          (size ≡ suc n)
          × IsHeap (suc n) out
          × ((f : Block → ℕ) → weigh f (suc n) out ≡ f v + weigh f n a))
    unfolding insertheap upheap
    insertheap-IsHeap n a heap room own =
        let e : n + 1 ≡ suc n = omega arith in
        let a' = set a (suc n) v in
        let size = length-set a (suc n) v in
        let at_end = get_or-set_same a (suc n) v no_block room in
        let there =
          λ (j : ℕ) (h : j ≤ n). get_or-set_other a (suc n) j v no_block (λ e'. omega arith) in
        let hole : Hole (suc n) (suc n) a' = record {
          room = omega arith;
          low = omega arith;
          high = omega arith;
          away = λ j p q ne ne'.
              rw (there j (omega arith))
                (rw (there (j / 2) (omega arith)) (heap.order j p (omega arith)));
          below = λ j q e'. absurd (omega arith);
          across = λ _ j q e'. absurd (omega arith);
          usable = λ j p q ne.
              rw (there j (omega arith)) (heap.usable j p (omega arith), own j p (omega arith));
        } in
        let (out, ran, (heap', same)) =
          up_loop-Raised (suc (suc n)) (suc n) (suc n) a' (omega arith) hole in
        rw e (
          rw (put_block-set a (suc n) v room) (
            rw (get_elem?-eq-get_or a' (suc n) no_block (omega arith))
              (rw at_end (rw ran ((suc n, out), refl, (refl, heap', λ f. same f ∙ twice f))))))
      where
        twice :
            (f : Block → ℕ) → weigh f (suc n) (set (set a (suc n) v) (suc n) v) ≡ f v + weigh f n a
        twice f =
            let a' = set a (suc n) v in
            let at_end =
              get_or-set_same a' (suc n) v no_block (omega (arith, length-set a (suc n) v)) in
            rw at_end (
              rw (weigh-set_out f n a' (suc n) v (omega arith))
                (rw (weigh-set_out f n a (suc n) v (omega arith)) refl))
