-- ===== src/MakeIndex/DownHeap.antt =====
-- `downheap` of lib/make-index.c, on a heap whose blocks have a property, and are pairwise apart.
use sufary.Base.{
  ℕ, zero, suc, ◌+◌, ◌*◌, ◌/◌, ◌≤◌, ◌<◌, ◌≡◌, ◌≢◌, refl, sym, ◌∙◌, ◌⊎◌, inl, inr, List, length,
  length-set, get_or-set_same, get_or-set_other, get_elem?-eq-get_or, set, Bool-cases, true, false,
  ltb, leb, if◌then◌else◌, arith,
}
use native.Mathlib.Decide.{ℕ_discrete}
use sufary.Base.Int.{ℤ, pos, negsuc}
use sufary.Base.Run.{Ends, Ends-bind, done, ◌>>=◌}
use sufary.Search.LexOrder.{LexLe-refl, LexLe-trans}
use sufary.MakeIndex.Strcmp.{Sign}
use sufary.MakeIndex.Heap.{
  Block, is_natural, two_level_compare, put_block, smaller_child, down_loop, downheap,
}
use sufary.MakeIndex.UpHeap.{position, string, BlockLe, Ordered, Sign-Ordered, put_block-set}
use sufary.MakeIndex.TwoLevel.{IsCString, IsCached, two_level_compare-Sign}
use sufary.MakeIndex.HeapSlots.{
  no_block, block_at, set-get_or, weigh, weigh-exchange, Holds, exchange-Holds,
}

-- `c` is about the mapped text. The property `P` and the relation `R` of the blocks are enough for
-- two of them to be compared.
pub record IsComparable (text : List ℕ) (last : ℕ) (array : List ℕ) (b : Block) : Type 0 where
  pub has_entry : b.aryidx < length array
  pub in_text : position array b < last
  pub is_cached : IsCached text last array b

module _ (text : List ℕ) (last : ℕ) (array : List ℕ) where
  pub record Admits (P : Block → Type 0) (R : Block → Block → Type 0) : Type 0 where
    pub comparable : (b : Block) → P b → IsComparable text last array b
    pub differ : (x y : Block) → P x → P y → R x y → position array x ≢ position array y

  Sign-cases :
      (x y : Block) (r : ℤ)
      → Sign (string text last array x) (string text last array y) r
      → ((is_natural r ≡ true) × BlockLe text last array y x)
        ⊎ ((is_natural r ≡ false) × BlockLe text last array x y)
  Sign-cases x y (negsuc m) (le, _) = inr (refl, le)
  Sign-cases x y (pos zero) h = elim h [ ]
  Sign-cases x y (pos (suc m)) (le, _) = inl (refl, le)

  module _ (P : Block → Type 0) (R : Block → Block → Type 0) where
    -- A heap of `n` blocks: each of them comes behind its parent.
    pub record IsOrderedHeap (n : ℕ) (a : List Block) : Type 0 where
      pub room : n < length a
      pub order :
          (j : ℕ) → 2 ≤ j → j ≤ n → BlockLe text last array (block_at a (j / 2)) (block_at a j)
      pub holds : Holds P R n a

    module _ (c : IsCString text last) (ad : Admits P R) where
      compare-Sign :
          (x y : Block)
          → P x
          → P y
          → R x y
          → Ends
              (two_level_compare text last array x y)
              (Sign (string text last array x) (string text last array y))
      compare-Sign x y p q r =
          let cx = ad.comparable x p in
          let cy = ad.comparable y q in
          two_level_compare-Sign text last array c x y
            (cx.has_entry, omega (arith, cx.in_text), cx.is_cached)
            (cy.has_entry, omega (arith, cy.in_text), cy.is_cached) (ad.differ x y p q r)

      module _ (n : ℕ) (v : Block) where
        -- A heap but for place `k`, where `v` may go unless it comes behind a child.
        record Hole (k : ℕ) (a : List Block) : Type 0 where
          room : n < length a
          low : 1 ≤ k
          high : k ≤ n
          away :
              (j : ℕ)
              → 2 ≤ j
              → j ≤ n
              → j ≢ k
              → j / 2 ≢ k
              → BlockLe text last array (block_at a (j / 2)) (block_at a j)
          above : 2 ≤ k → BlockLe text last array (block_at a (k / 2)) v
          across :
              2 ≤ k
              → (j : ℕ) → j ≤ n
              → j / 2 ≡ k
              → BlockLe text last array (block_at a (k / 2)) (block_at a j)
          holds : Holds P R n (set a k v)

        -- Child `j` comes first of the children of `k`.
        FirstChild : ℕ → List Block → ℕ → Type 0
        FirstChild k a j =
            (j / 2 ≡ k)
            × (j ≤ n)
            × ((i : ℕ) → i ≤ n → i / 2 ≡ k → BlockLe text last array (block_at a j) (block_at a i))

        other_good :
            (k : ℕ) (a : List Block) → Hole k a → (i : ℕ) → 1 ≤ i → i ≤ n → i ≢ k → P (block_at a i)
        other_good k a hole i l h ne =
            let there = get_or-set_other a k i v no_block (λ e. ne (sym e)) in
            let p = hole.holds.good i l h in rw there at p

        Holds-at : (k : ℕ) (a : List Block) → Hole k a → P v
        Holds-at k a hole =
            let here = get_or-set_same a k v no_block (omega (arith, hole.room, hole.high)) in
            let p = hole.holds.good k hole.low hole.high in rw here at p

        fill-IsOrderedHeap :
            (k : ℕ) (a : List Block)
            → Hole k a
            → ((j : ℕ) → j ≤ n → j / 2 ≡ k → BlockLe text last array v (block_at a j))
            → IsOrderedHeap n (set a k v)
        fill-IsOrderedHeap k a hole below =
            let here = get_or-set_same a k v no_block (omega (arith, hole.room, hole.high)) in
            let there = λ (j : ℕ) (ne : k ≢ j). get_or-set_other a k j v no_block ne in
            record {
              room = omega (arith, hole.room, length-set a k v);
              holds = hole.holds;
              order = λ j p q. elim (ℕ_discrete k j) [
                | yes e ↦
                    let ne : k ≢ j / 2 = λ e'. omega arith in
                    rw (there (j / 2) ne) (rw (← e) (rw here (hole.above (omega arith))))
                | no ne ↦ elim (ℕ_discrete k (j / 2)) [
                  | yes e ↦ rw (there j ne) (rw (← e) (rw here (below j q (sym e))))
                  | no ne' ↦ rw (there j ne) (
                      rw (there (j / 2) ne') (hole.away j p q (λ e. ne (sym e)) (λ e. ne' (sym e))))
                ]
              ];
            }

        sink-Hole :
            (k j : ℕ) (a : List Block)
            → Hole k a
            → FirstChild k a j
            → BlockLe text last array (block_at a j) v
            → Hole j (set a k (block_at a j))
        unfolding FirstChild
        sink-Hole k j a hole (child, inside, first) le =
            let b = block_at a j in
            let here = get_or-set_same a k b no_block (omega (arith, hole.room, hole.high)) in
            let there = λ (i : ℕ) (ne : k ≢ i). get_or-set_other a k i b no_block ne in
            let ne : k ≢ j = λ e. omega (arith, hole.low) in
            record {
              room = omega (arith, hole.room, length-set a k b);
              low = omega (arith, hole.low);
              high = inside;
              away = λ i p q d d'. elim (ℕ_discrete k i) [
                | yes e ↦
                    rw (there (i / 2) (λ e'. omega arith))
                      (rw (← e) (rw here (hole.across (omega arith) j inside child)))
                | no other ↦ elim (ℕ_discrete k (i / 2)) [
                  | yes e ↦ rw (there i other) (rw (← e) (rw here (first i q (sym e))))
                  | no more ↦ rw (there i other) (
                      rw (there (i / 2) more)
                        (hole.away i p q (λ e. other (sym e)) (λ e. more (sym e))))
                ]
              ];
              above = λ h. rw child (rw here le);
              across = λ h i q e.
                  let under =
                    hole.away i (omega (arith, hole.low)) q (λ e'. omega (arith, hole.low))
                      (λ e'. ne (sym e' ∙ e)) in
                  rw child (rw here (rw (there i (λ e'. omega (arith, hole.low))) (rw e at under)));
              holds =
                  exchange-Holds P R n a j k v hole.room (omega (arith, hole.low)) inside hole.low
                    hole.high (λ e. ne (sym e)) hole.holds;
            }

        compare_others :
            (k : ℕ) (a : List Block)
            → Hole k a
            → (i j : ℕ) → 1 ≤ i
            → i ≤ n
            → 1 ≤ j
            → j ≤ n
            → i ≢ k
            → j ≢ k
            → i ≢ j
            → Ends (two_level_compare text last array (block_at a i) (block_at a j)) (
                Sign
                  (string text last array (block_at a i))
                  (string text last array (block_at a j)))
        compare_others k a hole i j l h l' h' ne ne' d =
            let there =
              λ (x : ℕ) (e : x ≢ k). get_or-set_other a k x v no_block (λ e'. e (sym e')) in
            let r = hole.holds.apart i j l h l' h' d in
            compare-Sign (block_at a i) (block_at a j) (other_good k a hole i l h ne)
              (other_good k a hole j l' h' ne') (rw (there i ne, there j ne') at r)

        child_cases : (k i : ℕ) → i / 2 ≡ k → (i ≡ k * 2) ⊎ (i ≡ k * 2 + 1)
        child_cases k i e = elim (ℕ_discrete i (k * 2)) [
          | yes at_left ↦ inl at_left
          | no ne ↦ inr (omega arith)
        ]

        first_of_two :
            (k : ℕ) (a : List Block)
            → Hole k a
            → k * 2 + 1 ≤ n
            → Ends
                (two_level_compare text last array (block_at a (k * 2)) (block_at a (k * 2 + 1))
                  >>= λ r. done (if is_natural r then k * 2 + 1 else k * 2))
                (FirstChild k a)
        unfolding FirstChild
        first_of_two k a hole l =
            let low = hole.low in
            let x = block_at a (k * 2) in
            let y = block_at a (k * 2 + 1) in
            Ends-bind (two_level_compare text last array x y)
              (λ r. done (if is_natural r then k * 2 + 1 else k * 2))
              (compare_others k a hole (k * 2) (k * 2 + 1) (omega arith) (omega arith) (omega arith)
                l (λ e. omega arith) (λ e. omega arith) (λ e. omega arith))
              λ r sign. elim (Sign-cases x y r sign) [
                | inl (right, le) ↦
                    let least : (i : ℕ)
                        → i ≤ n
                        → i / 2 ≡ k
                        → BlockLe text last array y (block_at a i) =
                      λ i p e. elim (child_cases k i e) [
                        | inl at_left ↦ rw at_left le
                        | inr at_right ↦ rw at_right (LexLe-refl (string text last array y))
                      ] in
                    rw right (k * 2 + 1, refl, (omega arith, l, least))
                | inr (left, le) ↦
                    let least : (i : ℕ)
                        → i ≤ n
                        → i / 2 ≡ k
                        → BlockLe text last array x (block_at a i) =
                      λ i p e. elim (child_cases k i e) [
                        | inl at_left ↦ rw at_left (LexLe-refl (string text last array x))
                        | inr at_right ↦ rw at_right le
                      ] in
                    rw left (k * 2, refl, (omega arith, omega arith, least))
              ]

        smaller_child-FirstChild :
            (k : ℕ) (a : List Block)
            → Hole k a
            → k ≤ n / 2
            → Ends (smaller_child text last array n a k) (FirstChild k a)
        unfolding smaller_child FirstChild
        smaller_child-FirstChild k a hole h = elim (Bool-cases (ltb (k * 2) n)) [
          | inr only ↦ rw only (
            k * 2,
            refl,
            (
              omega arith,
              omega arith,
              λ i p e.
                  let same : i ≡ k * 2 = ground arith in
                  rw same (LexLe-refl (string text last array (block_at a (k * 2)))),
            ),
          )
          | inl two ↦
              let room = hole.room in
              let l : k * 2 + 1 ≤ n = ground arith in
              rw
                (
                  two,
                  get_elem?-eq-get_or a (k * 2) no_block (omega arith),
                  get_elem?-eq-get_or a (k * 2 + 1) no_block (omega arith),
                )
                (first_of_two k a hole l)
        ]

        compare_child :
            (k j : ℕ) (a : List Block)
            → Hole k a
            → FirstChild k a j
            → Ends
                (two_level_compare text last array v (block_at a j))
                (Ordered text last array v (block_at a j))
        unfolding FirstChild
        compare_child k j a hole (child, inside, first) =
            let low = hole.low in
            let room = hole.room in
            let ne : j ≢ k = λ e. omega arith in
            let here = get_or-set_same a k v no_block (omega (arith, hole.high)) in
            let there = get_or-set_other a k j v no_block (λ e. ne (sym e)) in
            let r = hole.holds.apart k j low hole.high (omega arith) inside (λ e. ne (sym e)) in
            let (r', ran, sign) =
              compare-Sign v (block_at a j) (Holds-at k a hole)
                (other_good k a hole j (omega arith) inside ne) (rw (here, there) at r) in
            (r', ran, Sign-Ordered text last array v (block_at a j) r' sign)

        child_in : (k j : ℕ) (a : List Block) → Hole k a → FirstChild k a j → j < length a
        unfolding FirstChild
        child_in k j a hole child = omega (arith, hole.room, child.1)

        -- What `downheap` makes of a heap with a hole.
        abbrev Sunk : ℕ → List Block → List Block → Type 0
        Sunk k a out =
            IsOrderedHeap n out × ((f : Block → ℕ) → weigh f n out ≡ weigh f n (set a k v))

        fill-Sunk :
            (k : ℕ) (a : List Block)
            → Hole k a
            → ((j : ℕ) → j ≤ n → j / 2 ≡ k → BlockLe text last array v (block_at a j))
            → Ends (put_block a k v) (Sunk k a)
        fill-Sunk k a hole below =
            rw (put_block-set a k v (omega (arith, hole.room, hole.high)))
              (set a k v, refl, (fill-IsOrderedHeap k a hole below, λ f. refl))

        down_loop-Sunk :
            (fuel k : ℕ) (a : List Block)
            → n < k + fuel
            → Hole k a
            → Ends (down_loop text last array fuel n k v a) (Sunk k a)
        unfolding down_loop FirstChild
        down_loop-Sunk zero k a f hole = absurd (omega (arith, hole.high))
        down_loop-Sunk (suc fuel) k a f hole = elim (Bool-cases (leb k (n / 2))) [
          | inr leaf ↦ rw (leaf, down_loop) (fill-Sunk k a hole (λ j p e. absurd (ground arith)))
          | inl inner ↦
              rw (inner, down_loop)
                (Ends-bind (smaller_child text last array n a k) _
                  (smaller_child-FirstChild k a hole (ground arith))
                  λ j child. rw (get_elem?-eq-get_or a j no_block (child_in k j a hole child)) (
                    Ends-bind (two_level_compare text last array v (block_at a j)) _
                      (compare_child k j a hole child)
                      λ r ordered. elim ordered [
                        | inr (stay, le) ↦ rw stay (
                            fill-Sunk k a hole (λ i p e.
                              LexLe-trans (string text last array v)
                                (string text last array (block_at a j))
                                (string text last array (block_at a i)) le (child.2 i p e)))
                        | inl (down, le) ↦
                            let moved = set a k (block_at a j) in
                            let (out, ran', (heap, same)) =
                              down_loop-Sunk fuel j moved (omega (arith, child.0))
                                (sink-Hole k j a hole child le) in
                            rw
                              (
                                down,
                                put_block-set a k (block_at a j)
                                    (omega (arith, hole.room, hole.high)),
                              )
                              (
                                out,
                                ran',
                                (
                                  heap,
                                  λ g.
                                      same g
                                      ∙ weigh-exchange g n a j k v hole.room
                                          (omega (arith, child.0, hole.low)) child.1 hole.low
                                          hole.high (λ e. omega (arith, child.0, hole.low)),
                                ),
                              )
                      ]))
        ]

      -- For a heap but for its first block, of blocks that have the property and are pairwise apart,
      -- `downheap` ends, and its result is a heap of the same blocks.
      pub downheap-IsOrderedHeap :
          (n : ℕ) (a : List Block)
          → 1 ≤ n
          → n < length a
          → ((j : ℕ)
              → 2 ≤ j
              → j ≤ n
              → j / 2 ≢ 1
              → BlockLe text last array (block_at a (j / 2)) (block_at a j))
          → Holds P R n a
          → Ends
              (downheap text last array n a 1)
              (λ out. IsOrderedHeap n out × ((f : Block → ℕ) → weigh f n out ≡ weigh f n a))
      unfolding downheap
      downheap-IsOrderedHeap n a h room order holds =
          let v = block_at a 1 in
          let same = set-get_or a 1 no_block (omega arith) in
          let hole : Hole n v 1 a = record {
            room = room;
            low = omega arith;
            high = h;
            away = λ j p q _ ne. order j p q ne;
            above = λ p. absurd (omega arith);
            across = λ p. absurd (omega arith);
            holds = rw same holds;
          } in
          let (out, ran, (heap, weighs)) = down_loop-Sunk n v (suc n) 1 a (omega arith) hole in
          rw (get_elem?-eq-get_or a 1 no_block (omega arith))
            (out, ran, (heap, λ f. rw same at weighs f))
