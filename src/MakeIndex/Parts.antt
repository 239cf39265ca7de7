-- ===== src/MakeIndex/Parts.antt =====
-- The three parts that one step of the multikey quicksort of lib/make-index.c makes.
use sufary.Base.{ℕ, suc, ◌+◌, ◌-◌, ◌≤◌, ◌<◌, ◌≡◌, refl, inl, inr, List, get_or, min, arith}
use native.Mathlib.Decide.{dec_lt}
use sufary.Base.Run.{Ends, Ends-bind, done, ◌>>=◌}
use sufary.MakeIndex.TwoLevel.{IsCString}
use sufary.MakeIndex.MultikeyQsort.{swap_vector, Split, partition_loop, partition}
use sufary.MakeIndex.Swaps.{
  Kept, Kept-trans, Exchanged, swapped, swap-swapped, swapped-Kept, swap_vector-Exchanged,
}
use sufary.MakeIndex.Partition.{partition_loop-Parted}
use sufary.MakeIndex.SplitSteps.{letter, AllReach, IsSplit, char_at_depth-letter, swapped-AllReach}

module _ (text : List ℕ) (last depth n : ℕ) where
  -- With `v` at the depth are the entries between the parts of `low` and of `high` entries, which have
  -- a smaller and a larger character.
  pub record InParts (v low high : ℕ) (x : List ℕ) : Type 0 where
    pub size : low + high < n
    pub less : (i : ℕ) → i < low → letter text depth (get_or x i 0) < v
    pub equal : (i : ℕ) → low ≤ i → i + high < n → letter text depth (get_or x i 0) ≡ v
    pub more : (i : ℕ) → n ≤ i + high → i < n → v < letter text depth (get_or x i 0)

  -- The equal entries at the left go to the middle.
  module _ (v : ℕ) (s : Split) (h : IsSplit text last depth n v s) (e : s.b ≡ suc s.c) where
    abbrev L : ℕ → ℕ
    L = letter text depth

    -- the letters of the entries that are not larger, behind the first `swap_vector`
    record LeftMoved (x : List ℕ) : Type 0 where
      less : (i : ℕ) → i < s.b - s.a → L (get_or x i 0) < v
      equal : (i : ℕ) → s.b - s.a ≤ i → i < s.b → L (get_or x i 0) ≡ v
      others : (i : ℕ) → s.b ≤ i → get_or x i 0 ≡ get_or s.x i 0

    left_moved :
        (y : List ℕ) (r d : ℕ)
        → r ≡ min s.a (s.b - s.a)
        → d ≡ s.b - r
        → Exchanged 0 d r d s.x y
        → LeftMoved y
    left_moved y r d is_r is_d ex =
        let ab = h.ab in
        record {
          less = λ i l. elim (dec_lt i r) [
            | yes inside ↦
                rw (ex.first i (omega arith) (omega arith))
                  (h.less (i + d) (omega arith) (omega arith))
            | no out ↦
                rw (ex.others i (inr (omega arith)) (inl (omega arith)))
                  (h.less i (omega arith) (omega arith))
          ];
          equal = λ i l u. elim (dec_lt i d) [
            | yes before ↦
                rw (ex.others i (inr (omega arith)) (inl before)) (h.equal_left i (omega arith))
            | no inside ↦
                rw (ex.second i (omega arith) (omega arith)) (h.equal_left (i - d) (omega arith))
          ];
          others = λ i l. ex.others i (inr (omega arith)) (inr (omega arith));
        }

    right_moved :
        (y z : List ℕ) (r d : ℕ)
        → LeftMoved y
        → r ≡ min (s.d - s.c) (n - s.d - 1)
        → n - r ≡ s.b + d
        → Exchanged s.b (n - r) r d y z
        → InParts v (s.b - s.a) (s.d - s.c) z
    right_moved y z r d left is_r is_d ex =
        let ab = h.ab in
        let low = h.low in
        let cd = h.cd in
        let dn = h.dn in
        record {
          size = omega arith;
          less = λ i l. rw (ex.others i (inl (omega arith)) (inl (omega arith))) (left.less i l);
          equal = λ i l u. elim (dec_lt i s.b) [
            | yes at_left ↦
                rw (ex.others i (inl at_left) (inl (omega arith))) (left.equal i l at_left)
            | no behind ↦ elim (dec_lt i (s.b + r)) [
              | yes inside ↦ rw (ex.first i (omega arith) (omega arith)) (
                  rw (left.others (i + d) (omega arith))
                    (h.equal_right (i + d) (omega arith) (omega arith)))
              | no out ↦
                  rw (ex.others i (inr (omega arith)) (inl (omega arith)))
                    (rw (left.others i (omega arith)) (h.equal_right i (omega arith) (omega arith)))
            ]
          ];
          more = λ i l u. elim (dec_lt i (n - r)) [
            | yes before ↦
                rw (ex.others i (inr (omega arith)) (inl before))
                  (rw (left.others i (omega arith)) (h.more i (omega arith) (omega arith)))
            | no inside ↦ rw (ex.second i (omega arith) (omega arith)) (
                rw (left.others (i - d) (omega arith)) (h.more (i - d) (omega arith) (omega arith)))
          ];
        }

  module _ (c : IsCString text last) where
    -- What a step makes of the entries.
    abbrev pub IsPartition : List ℕ → Split → Type 0
    IsPartition x s =
        Kept n x s.x
        × (1 ≤ s.a)
        × (s.a ≤ s.b)
        × (s.b ≡ suc s.c)
        × (s.c ≤ s.d)
        × (s.d < n)
        × ((v : ℕ) × InParts v (s.b - s.a) (s.d - s.c) s.x)

    start-IsSplit :
        (x : List ℕ)
        → 1 ≤ n
        → AllReach text last depth n x
        → IsSplit text last depth n
            (letter text depth (get_or x 0 0))
            (record { x = x; a = 1; b = 1; c = n - 1; d = n - 1 })
    start-IsSplit x h reach = record {
      reach = reach;
      low = omega arith;
      ab = omega arith;
      bc = omega arith;
      cd = omega arith;
      dn = omega arith;
      equal_left = λ i l. let e : i ≡ 0 = omega arith in rw e refl;
      less = λ i l u. absurd (omega arith);
      more = λ i l u. absurd (omega arith);
      equal_right = λ i l u. absurd (omega arith);
    }

    moved-IsPartition :
        (v : ℕ) (x : List ℕ) (s : Split)
        → IsSplit text last depth n v s
        → Kept n x s.x
        → s.b ≡ suc s.c
        → Ends
            (swap_vector 0 (s.b - min s.a (s.b - s.a)) (min s.a (s.b - s.a)) s.x >>= λ y.
              swap_vector s.b (n - min (s.d - s.c) (n - s.d - 1)) (min (s.d - s.c) (n - s.d - 1)) y
              >>= λ z. done (record s { x = z }))
            (IsPartition x)
    moved-IsPartition v x s h kept e =
        let ab = h.ab in
        let low = h.low in
        let cd = h.cd in
        let dn = h.dn in
        let long = h.reach.0 in
        let r = min s.a (s.b - s.a) in
        let r' = min (s.d - s.c) (n - s.d - 1) in
        Ends-bind (swap_vector 0 (s.b - r) r s.x) _
          (swap_vector-Exchanged n r 0 (s.b - r) (s.b - r) s.x (omega arith) (omega arith)
            (omega arith) long)
          (λ y (kept1, ex).
            Ends-bind (swap_vector s.b (n - r') r' y) _
              (swap_vector-Exchanged n r' s.b (n - r') (n - r' - s.b) y (omega arith) (omega arith)
                (omega arith) (omega (arith, kept1.long)))
              (λ z (kept2, ex').
                let left = left_moved v s h e y r (s.b - r) refl refl ex in
                let parts = right_moved v s h e y z r' (n - r' - s.b) left refl (omega arith) ex' in
                (
                  record s { x = z },
                  refl,
                  (
                    Kept-trans n x s.x z kept (Kept-trans n s.x y z kept1 kept2),
                    low,
                    ab,
                    e,
                    cd,
                    dn,
                    (v, parts),
                  ),
                )))

    -- For a random number below the number of the entries, whose strings all reach the depth, the step
    -- ends: the first `n` entries are the same in another order, and the entries with a smaller, the
    -- same and a larger character at the depth follow one another.
    pub partition-IsPartition :
        (rand_below : ℕ → ℕ) (qsort : List ℕ → List ℕ) (x : List ℕ)
        → rand_below n < n
        → AllReach text last depth n x
        → Ends (partition text last rand_below qsort n x depth) (IsPartition x)
    unfolding partition
    partition-IsPartition rand_below qsort x pick reach =
        let k = rand_below n in
        let long = reach.0 in
        let x' = swapped x 0 k in
        let kept = swapped-Kept x 0 k (omega arith) (omega arith) n (omega arith) pick in
        let reach' = swapped-AllReach text last depth n c x 0 k reach (omega arith) pick in
        let v = letter text depth (get_or x' 0 0) in
        let s : Split = record { x = x'; a = 1; b = 1; c = n - 1; d = n - 1 } in
        rw (swap-swapped x 0 k (omega arith) (omega arith)) (
          rw (char_at_depth-letter text last depth n c x' 0 reach' (omega arith)) (
            Ends-bind (partition_loop text last (suc n) (suc n) depth v s) _
              (partition_loop-Parted text last depth n c v (suc n) (suc n) s (omega arith)
                (omega arith) (start-IsSplit x' (omega arith) reach'))
              (λ s' ((h, kept'), e).
                moved-IsPartition v x s' h (Kept-trans n x x' s'.x kept kept') e)))
