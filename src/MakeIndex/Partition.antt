-- ===== src/MakeIndex/Partition.antt =====
-- The partition of the multikey quicksort of lib/make-index.c, by one character of each string.
use sufary.Base.{
  ℕ, zero, suc, ◌+◌, ◌-◌, ◌≤◌, ◌<◌, ◌≡◌, ◌≢◌, refl, ◌⊎◌, inl, inr, List, get_or, Bool-cases, ltb,
  leb, ◌==◌, arith,
}
use native.Mathlib.Decide.{ℕ_discrete}
use sufary.Base.Run.{Ends, Ends-bind}
use sufary.MakeIndex.TwoLevel.{IsCString}
use sufary.MakeIndex.MultikeyQsort.{Split, left_loop, right_loop, partition_loop}
use sufary.MakeIndex.Swaps.{Kept-refl, Kept-trans, swapped, swap-swapped, at_swapped, swapped-Kept}
use sufary.MakeIndex.SplitSteps.{
  letter, IsSplit, char_at_depth-letter, Goes, left_equal, right_equal, both_wrong, pass_less,
  pass_more,
}

module _ (text : List ℕ) (last depth n : ℕ) where
  module _ (c : IsCString text last) where
    module _ (v : ℕ) where
      -- where the first inner loop ends
      abbrev LeftEnd : Split → Split → Type 0
      LeftEnd s s' =
          Goes text last depth n c v s.x s'
          × (s'.b ≤ s'.c → v < letter text depth (get_or s'.x s'.b 0))
          × (s'.c + s.b ≤ s.c + s'.b)

      left_loop-LeftEnd :
          (fuel : ℕ) (s : Split)
          → s.c + 1 < s.b + fuel
          → IsSplit text last depth n v s
          → Ends (left_loop text last fuel depth v s) (LeftEnd s)
      unfolding left_loop
      left_loop-LeftEnd zero s f h = absurd (omega (arith, h.bc))
      left_loop-LeftEnd (suc fuel) s f h = elim (Bool-cases (leb s.b s.c)) [
        | inr over ↦
            rw (over, left_loop)
              (s, refl, ((h, Kept-refl n s.x), (λ l. absurd (ground arith)), omega arith))
        | inl more ↦
            let l : s.b ≤ s.c = ground arith in
            let x = s.x in
            let t = letter text depth (get_or x s.b 0) in
            let a_n : s.a < n = omega (arith, h.ab, h.cd, h.dn) in
            let b_n : s.b < n = omega (arith, h.cd, h.dn) in
            let long = h.reach.0 in
            rw (more, left_loop)
              (rw (char_at_depth-letter text last depth n c x s.b h.reach b_n)
                (elim (Bool-cases (t == v)) [
                  | inl same ↦
                      let e : t ≡ v = ground arith in
                      let s1 = record s { x = swapped x s.a s.b; a = s.a + 1; b = s.b + 1 } in
                      let (s', ran, ((split, kept), stop, width)) =
                        left_loop-LeftEnd fuel s1 (omega arith)
                          (left_equal text last depth n c v s h l e) in
                      let kept' = swapped-Kept x s.a s.b (omega arith) (omega arith) n a_n b_n in
                      rw same (
                        rw (swap-swapped x s.a s.b (omega arith) (omega arith)) (
                          s',
                          ran,
                          ((split, Kept-trans n x s1.x s'.x kept' kept), stop, omega arith),
                        ))
                  | inr differ ↦ rw differ (elim (Bool-cases (ltb t v)) [
                    | inl below ↦
                        let (s', ran, ((split, kept), stop, width)) =
                          left_loop-LeftEnd fuel (record s { b = s.b + 1 }) (omega arith)
                            (pass_less text last depth n c v s h l (ground arith)) in
                        rw below (s', ran, ((split, kept), stop, omega arith))
                    | inr above ↦
                        rw above (s, refl, ((h, Kept-refl n x), (λ _. ground arith), omega arith))
                  ])
                ]))
      ]

      -- Unless all is looked at, the entry at `b` belongs behind the ones with `v`.
      abbrev Open : Split → Type 0
      Open s = s.b ≤ s.c → v < letter text depth (get_or s.x s.b 0)

      -- where the second inner loop ends
      abbrev RightEnd : Split → Split → Type 0
      RightEnd s s' =
          Goes text last depth n c v s.x s'
          × ((s'.c < s'.b)
              ⊎ ((v < letter text depth (get_or s'.x s'.b 0))
                  × (letter text depth (get_or s'.x s'.c 0) < v)))
          × (s'.c + s.b ≤ s.c + s'.b)

      right_loop-RightEnd :
          (fuel : ℕ) (s : Split)
          → s.c + 1 < s.b + fuel
          → IsSplit text last depth n v s
          → Open s
          → Ends (right_loop text last fuel depth v s) (RightEnd s)
      unfolding right_loop
      right_loop-RightEnd zero s f h open_b = absurd (omega (arith, h.bc))
      right_loop-RightEnd (suc fuel) s f h open_b = elim (Bool-cases (leb s.b s.c)) [
        | inr over ↦
            rw (over, right_loop) (s, refl, ((h, Kept-refl n s.x), inl (ground arith), omega arith))
        | inl more ↦
            let l : s.b ≤ s.c = ground arith in
            let x = s.x in
            let t = letter text depth (get_or x s.c 0) in
            let c_n : s.c < n = omega (arith, h.cd, h.dn) in
            let d_n : s.d < n = h.dn in
            let long = h.reach.0 in
            let positive : 1 ≤ s.c = omega (arith, h.low, h.ab) in
            rw (more, right_loop)
              (rw (char_at_depth-letter text last depth n c x s.c h.reach c_n)
                (elim (Bool-cases (t == v)) [
                  | inl same ↦
                      let e : t ≡ v = ground arith in
                      let s1 = record s { x = swapped x s.c s.d; d = s.d - 1; c = s.c - 1 } in
                      let apart : s.b ≢ s.c =
                        λ e'. let above = open_b l in omega (arith, rw e' at above) in
                      let open_b' : Open s1 = λ l'.
                        at_swapped x s.c s.d (omega arith) (omega arith)
                          (λ y. v < letter text depth y) s.b (λ at_c. absurd (apart at_c))
                          (λ at_d. absurd (omega (arith, h.cd))) (λ _ _. open_b l) in
                      let (s', ran, ((split, kept), stop, width)) =
                        right_loop-RightEnd fuel s1 (omega arith)
                          (right_equal text last depth n c v s h l e) open_b' in
                      let kept' = swapped-Kept x s.c s.d (omega arith) (omega arith) n c_n d_n in
                      rw same (
                        rw (swap-swapped x s.c s.d (omega arith) (omega arith)) (
                          s',
                          ran,
                          ((split, Kept-trans n x s1.x s'.x kept' kept), stop, omega arith),
                        ))
                  | inr differ ↦ rw differ (elim (Bool-cases (ltb v t)) [
                    | inl above ↦
                        let (s', ran, ((split, kept), stop, width)) =
                          right_loop-RightEnd fuel (record s { c = s.c - 1 }) (omega arith)
                            (pass_more text last depth n c v s h l (ground arith))
                            (λ l'. open_b l) in
                        rw above (s', ran, ((split, kept), stop, omega arith))
                    | inr below ↦
                        rw below
                          (s, refl, ((h, Kept-refl n x), inr (open_b l, ground arith), omega arith))
                  ])
                ]))
      ]

      -- All is looked at.
      abbrev pub Parted : Split → Split → Type 0
      Parted s s' = Goes text last depth n c v s.x s' × (s'.b ≡ suc s'.c)

      -- Both ends of what is not looked at are on the wrong side.
      abbrev BothWrong : Split → Type 0
      BothWrong s =
          (v < letter text depth (get_or s.x s.b 0)) × (letter text depth (get_or s.x s.c 0) < v)

      still_open : (s : Split) → (s.c < s.b) ⊎ BothWrong s → s.b ≤ s.c → BothWrong s
      still_open s (inl l) h = absurd (omega arith)
      still_open s (inr both) h = both

      open-lt :
          (s : Split)
          → s.b ≤ s.c
          → v < letter text depth (get_or s.x s.b 0)
          → letter text depth (get_or s.x s.c 0) < v
          → s.b < s.c
      open-lt s h above under = elim (ℕ_discrete s.b s.c) [
        | yes e ↦ absurd (omega (arith, rw e at above))
        | no ne ↦ omega arith
      ]

      pub partition_loop-Parted :
          (fuel inner : ℕ) (s : Split)
          → s.c + 1 < s.b + fuel
          → n < inner
          → IsSplit text last depth n v s
          → Ends (partition_loop text last fuel inner depth v s) (Parted s)
      unfolding partition_loop
      partition_loop-Parted zero inner s f g h = absurd (omega (arith, h.bc))
      partition_loop-Parted (suc fuel) inner s f g h =
          Ends-bind (left_loop text last inner depth v s) _
            (left_loop-LeftEnd inner s (omega (arith, h.low, h.ab, h.cd, h.dn)) h)
            (λ s1 ((h1, k1), open_b, width1).
              Ends-bind (right_loop text last inner depth v s1) _
                (right_loop-RightEnd inner s1 (omega (arith, h1.low, h1.ab, h1.cd, h1.dn)) h1
                  open_b)
                (λ s2 ((h2, k2), stop, width2).
                  let kept = Kept-trans n s.x s1.x s2.x k1 k2 in
                  elim (Bool-cases (ltb s2.c s2.b)) [
                    | inl over ↦ rw over (s2, refl, ((h2, kept), ground (arith, h2.bc)))
                    | inr more ↦
                        let (above, under) = still_open s2 stop (ground arith) in
                        let wide : s2.b < s2.c = open-lt s2 (ground arith) above under in
                        let x = s2.x in
                        let b_n : s2.b < n = omega (arith, h2.cd, h2.dn) in
                        let c_n : s2.c < n = omega (arith, h2.cd, h2.dn) in
                        let long = h2.reach.0 in
                        let s3 = record s2 {
                          x = swapped x s2.b s2.c;
                          b = s2.b + 1;
                          c = s2.c - 1;
                        } in
                        let kept' =
                          swapped-Kept x s2.b s2.c (omega arith) (omega arith) n b_n c_n in
                        let (s', ran, ((split, kept2), e)) =
                          partition_loop-Parted fuel inner s3 (omega arith) g
                            (both_wrong text last depth n c v s2 h2 wide above under) in
                        rw more (
                          rw (swap-swapped x s2.b s2.c (omega arith) (omega arith)) (
                            s',
                            ran,
                            (
                              (
                                split,
                                Kept-trans n s.x x s'.x kept (Kept-trans n x s3.x s'.x kept' kept2),
                              ),
                              e,
                            ),
                          ))
                  ]))
