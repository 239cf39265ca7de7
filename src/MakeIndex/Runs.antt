-- ===== src/MakeIndex/Runs.antt =====
-- The sorted blocks in the heap of lib/make-index.c, when the first of them loses an entry.
use sufary.Base.{
  ℕ, zero, suc, ◌+◌, ◌-◌, ◌/◌, ◌≤◌, ◌<◌, ◌≡◌, ◌≢◌, refl, sym, ◌∙◌, ap, ◌⊎◌, inl, inr, List, [], ◌∷◌,
  length, length-set, get_or, get_or-set_same, get_or-set_other, get_elem?-eq-get_or, set, arith,
}
use native.Mathlib.Decide.{ℕ_discrete}
use sufary.Base.Run.{Ends, Ends-bind}
use sufary.Search.Suffix.{LexLe}
use sufary.Search.LexOrder.{LexLe-refl, LexLe-trans}
use sufary.MakeIndex.Strcmp.{tail_of}
use sufary.MakeIndex.Heap.{Block, downheap, hremove, str_cache_size}
use sufary.MakeIndex.UpHeap.{string, BlockLe, put_block-set}
use sufary.MakeIndex.TwoLevel.{IsCString, IsCached, window}
use sufary.MakeIndex.HeapSlots.{no_block, block_at, weigh, weigh-set}
use sufary.MakeIndex.DownHeap.{Admits, IsOrderedHeap, downheap-IsOrderedHeap}

-- The blocks have no entry in common.
abbrev pub Apart : Block → Block → Type 0
Apart x y = (x.max ≤ y.aryidx) ⊎ (y.max ≤ x.aryidx)

-- the number of the block's entries that are left
abbrev pub size : Block → ℕ
size b = b.max - b.aryidx

set-set : (a : List Block) (k : ℕ) (v w : Block) → set (set a k v) k w ≡ set a k w
set-set [] k v w = refl
set-set (x ∷ a) zero v w = refl
set-set (x ∷ a) (suc k) v w = ap (λ b. x ∷ b) (set-set a k v w)

module _ (text : List ℕ) (last : ℕ) (array : List ℕ) where
  abbrev pub entry_at : ℕ → ℕ
  entry_at i = get_or array i 0

  abbrev string_at : ℕ → List ℕ
  string_at i = tail_of text last (entry_at i)

  -- The entries are different positions in the text.
  pub record IsIndex : Type 0 where
    pub in_text : (i : ℕ) → i < length array → get_or array i 0 < last
    pub distinct :
        (i j : ℕ)
        → i < length array
        → j < length array
        → get_or array i 0 ≡ get_or array j 0
        → i ≡ j

  -- A block of entries in alphabetical order, none of which comes before `s`.
  pub record IsRun (s : List ℕ) (b : Block) : Type 0 where
    pub has_entry : b.aryidx < b.max
    pub inside : b.max ≤ length array
    pub ascends :
        (i : ℕ)
        → b.aryidx ≤ i
        → suc i < b.max
        → LexLe (tail_of text last (get_or array i 0)) (tail_of text last (get_or array (suc i) 0))
    pub is_cached : IsCached text last array b
    pub behind : LexLe s (string text last array b)

  -- the block, when its first entry is taken out
  abbrev pub rest_of : Block → Block
  rest_of b = record {
    aryidx = b.aryidx + 1;
    max = b.max;
    strbuf = window text last str_cache_size (entry_at (b.aryidx + 1));
  }

  module _ (c : IsCString text last) (ix : IsIndex) where
    pub IsRun-Admits : (s : List ℕ) → Admits text last array (IsRun s) Apart
    IsRun-Admits s = record {
      comparable = λ b r. record {
        has_entry = omega (arith, r.has_entry, r.inside);
        in_text = ix.in_text b.aryidx (omega (arith, r.has_entry, r.inside));
        is_cached = r.is_cached;
      };
      differ = λ x y r r' d e.
          let same =
            ix.distinct x.aryidx y.aryidx (omega (arith, r.has_entry, r.inside))
              (omega (arith, r'.has_entry, r'.inside)) e in
          elim d [ inl l ↦ omega (arith, r.has_entry) | inr l ↦ omega (arith, r'.has_entry) ];
    }

    root_least :
        (s : List ℕ) (fuel n : ℕ) (a : List Block)
        → IsOrderedHeap text last array (IsRun s) Apart n a
        → (j : ℕ) → j ≤ fuel
        → 1 ≤ j
        → j ≤ n
        → BlockLe text last array (block_at a 1) (block_at a j)
    root_least s zero n a h j f l m = absurd (omega arith)
    root_least s (suc fuel) n a h j f l m = elim (ℕ_discrete j 1) [
      | yes e ↦ rw e (LexLe-refl (string text last array (block_at a 1)))
      | no ne ↦
          LexLe-trans (string text last array (block_at a 1))
            (string text last array (block_at a (j / 2))) (string text last array (block_at a j))
            (root_least s fuel n a h (j / 2) (omega arith) (omega arith) (omega arith))
            (h.order j (omega arith) m)
    ]

    rest-IsRun :
        (s : List ℕ) (b : Block)
        → IsRun s b
        → suc b.aryidx < b.max
        → IsRun (string text last array b) (rest_of b)
    rest-IsRun s b r h =
        let e : b.aryidx + 1 ≡ suc b.aryidx = omega arith in
        record {
          has_entry = omega arith;
          inside = r.inside;
          ascends = λ i p q. r.ascends i (omega arith) q;
          is_cached = refl;
          behind = rw e (r.ascends b.aryidx (omega arith) h);
        }

    rest-Apart : (b x : Block) → Apart b x → Apart (rest_of b) x
    rest-Apart b x (inl l) = inl l
    rest-Apart b x (inr l) = inr (omega arith)

    Apart-rest : (b x : Block) → Apart x b → Apart x (rest_of b)
    Apart-rest b x (inl l) = inl (omega arith)
    Apart-rest b x (inr l) = inr l

    module _ (s : List ℕ) (n : ℕ) (a : List Block)
        (h : IsOrderedHeap text last array (IsRun s) Apart (suc n) a) where
      other-IsRun :
          (j : ℕ) → 1 ≤ j → j ≤ suc n → IsRun (string text last array (block_at a 1)) (block_at a j)
      other-IsRun j l m =
          let r = h.holds.good j l m in
          record {
            has_entry = r.has_entry;
            inside = r.inside;
            ascends = r.ascends;
            is_cached = r.is_cached;
            behind = root_least s j (suc n) a h j (omega arith) l m;
          }

      -- The first block's place is taken by a block `b`, and the heap has `m` blocks.
      replace-IsOrderedHeap :
          (m : ℕ) (b : Block)
          → 1 ≤ m
          → m ≤ suc n
          → IsRun (string text last array (block_at a 1)) b
          → ((j : ℕ) → 2 ≤ j → j ≤ m → Apart b (block_at a j) × Apart (block_at a j) b)
          → Ends (downheap text last array m (set a 1 b) 1) (λ out.
            IsOrderedHeap text last array
              (IsRun (string text last array (block_at a 1)))
              Apart
              m
              out
            × ((f : Block → ℕ) → weigh f m out ≡ weigh f m (set a 1 b)))
      replace-IsOrderedHeap m b l p r apart =
          let room = h.room in
          let here = get_or-set_same a 1 b no_block (omega arith) in
          let there = λ (j : ℕ) (ne : 1 ≢ j). get_or-set_other a 1 j b no_block ne in
          let s' = string text last array (block_at a 1) in
          downheap-IsOrderedHeap text last array (IsRun s') Apart c (IsRun-Admits s') m (set a 1 b)
            l (omega (arith, length-set a 1 b))
            (λ j q q' ne.
              rw (there j (λ e. omega arith))
                (rw (there (j / 2) (λ e. ne (sym e))) (h.order j q (omega arith))))
            (record {
              good = λ j q q'. elim (ℕ_discrete 1 j) [
                | yes e ↦ rw (← e) (rw here r)
                | no ne ↦ rw (there j ne) (other-IsRun j q (omega arith))
              ];
              apart = λ i j q q' t t' d. elim (ℕ_discrete 1 i) [
                | yes e ↦
                    let ne : 1 ≢ j = λ e'. d (sym e ∙ e') in
                    rw (← e) (rw here (rw (there j ne) ((apart j (omega arith) t').0)))
                | no ne ↦ elim (ℕ_discrete 1 j) [
                  | yes e ↦ rw (← e) (rw here (rw (there i ne) ((apart i (omega arith) q').1)))
                  | no ne' ↦
                      rw (there i ne)
                        (rw (there j ne') (h.holds.apart i j q (omega arith) t (omega arith) d))
                ]
              ];
            })

      pub advance-IsOrderedHeap :
          suc (block_at a 1).aryidx < (block_at a 1).max
          → Ends (downheap text last array (suc n) (set a 1 (rest_of (block_at a 1))) 1) (λ out.
            IsOrderedHeap text last array
              (IsRun (string text last array (block_at a 1)))
              Apart
              (suc n)
              out
            × ((f : Block → ℕ)
                → weigh f (suc n) out + f (block_at a 1)
                  ≡ weigh f (suc n) a + f (rest_of (block_at a 1))))
      advance-IsOrderedHeap more =
          let b = block_at a 1 in
          let room = h.room in
          let r = h.holds.good 1 (omega arith) (omega arith) in
          let (out, ran, (heap, weighs)) =
            replace-IsOrderedHeap (suc n) (rest_of b) (omega arith) (omega arith)
              (rest-IsRun s b r more)
              (λ j p q.
                let d =
                  h.holds.apart 1 j (omega arith) (omega arith) (omega arith) q
                    (λ e. omega arith) in
                let d' =
                  h.holds.apart j 1 (omega arith) q (omega arith) (omega arith)
                    (λ e. omega arith) in
                (rest-Apart b (block_at a j) d, Apart-rest b (block_at a j) d')) in
          (
            out,
            ran,
            (
              heap,
              λ f. omega (
                arith,
                weighs f,
                weigh-set f (suc n) a 1 (rest_of b) (omega arith) (omega arith) room,
              ),
            ),
          )

      -- What `hremove` makes of the heap.
      abbrev pub Removed : Block × ℕ × List Block → Type 0
      Removed (r, m, out) =
          (m ≡ n)
          × IsOrderedHeap text last array (IsRun (string text last array (block_at a 1))) Apart n
              out
          × ((f : Block → ℕ) → weigh f n out + f (block_at a 1) ≡ weigh f (suc n) a)

      -- The last block takes the first place.
      last_first :
          1 ≤ n
          → Ends (downheap text last array n (set a 1 (block_at a (suc n))) 1) (λ out.
            IsOrderedHeap text last array
              (IsRun (string text last array (block_at a 1)))
              Apart
              n
              out
            × ((f : Block → ℕ) → weigh f n out + f (block_at a 1) ≡ weigh f (suc n) a))
      last_first l =
          let b = block_at a (suc n) in
          let room = h.room in
          let (out, ran, (heap, weighs)) =
            replace-IsOrderedHeap n b l (omega arith)
              (other-IsRun (suc n) (omega arith) (omega arith))
              (λ j p q. (
                h.holds.apart (suc n) j (omega arith) (omega arith) (omega arith) (omega arith)
                    (λ e. omega arith),
                h.holds.apart j (suc n) (omega arith) (omega arith) (omega arith) (omega arith)
                    (λ e. omega arith),
              )) in
          (
            out,
            ran,
            (heap, λ f. omega (arith, weighs f, weigh-set f n a 1 b (omega arith) l (omega arith))),
          )

      only_first :
          n ≡ 0
          → (b : Block)
          → Ends (downheap text last array n (set a 1 b) 1) (λ out.
            IsOrderedHeap text last array
              (IsRun (string text last array (block_at a 1)))
              Apart
              n
              out
            × ((f : Block → ℕ) → weigh f n out + f (block_at a 1) ≡ weigh f (suc n) a))
      unfolding downheap
      only_first e b =
          let room = h.room in
          let size = length-set a 1 b in
          let none : ℕ → ℕ → Type 0 = λ j m. 1 ≤ j → j ≤ m → ⊥ in
          rw e (
            rw (get_elem?-eq-get_or (set a 1 b) 1 no_block (omega arith)) (
              rw (put_block-set (set a 1 b) 1 (block_at (set a 1 b) 1) (omega arith)) (
                set (set a 1 b) 1 (block_at (set a 1 b) 1),
                refl,
                (
                  record {
                    room = omega (arith, length-set (set a 1 b) 1 (block_at (set a 1 b) 1));
                    order = λ j p q. absurd (omega arith);
                    holds = record {
                      good = λ j p q. absurd (omega arith);
                      apart = λ i j p q p' q' d. absurd (omega arith);
                    };
                  },
                  λ f. omega arith,
                ),
              )))

      replaced :
          (v : Block)
          → Ends
              (downheap text last array n (set (set a 1 v) 1 (block_at (set a 1 v) (suc n))) 1)
              (λ out.
                IsOrderedHeap text last array
                  (IsRun (string text last array (block_at a 1)))
                  Apart
                  n
                  out
                × ((f : Block → ℕ) → weigh f n out + f (block_at a 1) ≡ weigh f (suc n) a))
      replaced v = rw (set-set a 1 v (block_at (set a 1 v) (suc n))) (elim (ℕ_discrete n 0) [
        | yes e ↦ only_first e (block_at (set a 1 v) (suc n))
        | no ne ↦
            rw (get_or-set_other a 1 (suc n) v no_block (λ e. ne (omega arith)))
              (last_first (omega arith))
      ])

      pub hremove-Removed : (v : Block) → Ends (hremove text last array (suc n) (set a 1 v)) Removed
      unfolding hremove
      hremove-Removed v =
          let e : suc n - 1 ≡ n = omega arith in
          let room = h.room in
          let size = length-set a 1 v in
          let b = block_at (set a 1 v) (suc n) in
          rw
            (
              get_elem?-eq-get_or (set a 1 v) 1 no_block (omega arith),
              get_elem?-eq-get_or (set a 1 v) (suc n) no_block (omega arith),
              e,
            )
            (rw (put_block-set (set a 1 v) 1 b (omega arith)) (
              Ends-bind (downheap text last array n (set (set a 1 v) 1 b) 1) _ (replaced v)
                λ out (heap, weighs). (_, refl, (refl, heap, weighs))))
