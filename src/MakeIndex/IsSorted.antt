-- ===== src/MakeIndex/IsSorted.antt =====
-- `sa_is_sorted` of lib/make-index.c decides the order that `sa_find` relies on.
use sufary.Base.{
  ℕ, zero, suc, ◌+◌, ◌-◌, ◌≤◌, ◌<◌, ◌≡◌, ◌≢◌, refl, ◌⊎◌, inl, inr, get_elem?-eq-get_or, lt→ltb,
  arith, if◌then◌else◌, drop, take, ap,
}
use native.Mathlib.Decide.{ℕ_discrete}
use sufary.Base.Int.{ℤ, pos, negsuc}
use sufary.Base.Run.{Run, Ends, done}
use sufary.File.{Sufary, sa_aryidx2txtptr, sa_get_text_size, sa_get_array_size}
use sufary.Search.Round.{entry}
use sufary.Search.Suffix.{LexLe, IsOpened, IsOrdered, suffix}
use sufary.Search.LexOrder.{LexLe-refl, LexLe-trans}
use sufary.MakeIndex.{is_sorted_loop, sa_is_sorted, is_positive}
use sufary.MakeIndex.Strcmp.{tail_of, Sign, sa_strcmp-Sign}

module _ (ary : Sufary) where
  -- Entries `j` and `j + 1` are in order.
  abbrev StepLe : ℕ → Type 0
  StepLe j =
      LexLe (tail_of ary.text ary.textsize (entry ary j))
        (tail_of ary.text ary.textsize (entry ary (suc j)))

  -- No two neighbours are one position, which `sa_strcmp` would refuse to compare.
  abbrev pub Distinct : Type 0
  Distinct = (j : ℕ) → suc j < ary.arraysize → entry ary j ≢ entry ary (suc j)

  abbrev Checks : ℕ → ℕ → Type 0
  Checks k r =
      ((r ≡ 1) × ((j : ℕ) → k ≤ j → suc j < ary.arraysize → StepLe j))
      ⊎ ((r ≡ 0) × ((j : ℕ) × (k ≤ j) × (suc j < ary.arraysize) × (¬ StepLe j)))

  module _ (opened : IsOpened ary) (distinct : Distinct) where
    Sign-Checks :
        (k : ℕ) (c : ℤ) {rest : Run ℕ}
        → suc k < ary.arraysize
        → Sign
            (tail_of ary.text ary.textsize (entry ary k))
            (tail_of ary.text ary.textsize (entry ary (suc k)))
            c
        → Ends rest (Checks (suc k))
        → Ends (if is_positive c then done 0 else rest) (Checks k)
    Sign-Checks k (pos zero) h sign rest = elim sign [ ]
    Sign-Checks k (pos (suc n)) h sign rest =
        rw (lt→ltb 0 (suc n) (omega arith)) (0, refl, inr (refl, (k, omega arith, h, sign.1)))
    Sign-Checks k (negsuc n) h sign (r, ran, inr (e, (j, a, b, d))) =
        (r, ran, inr (e, (j, omega arith, b, d)))
    Sign-Checks k (negsuc n) h sign (r, ran, inl (e, sorted)) = (
      r,
      ran,
      inl (
        e,
        λ j a b. elim (ℕ_discrete k j) [
          | yes here ↦ rw (← here) sign.0
          | no later ↦ sorted j (omega arith) b
        ],
      ),
    )

    is_sorted_loop-Checks :
        (n k : ℕ)
        → n + suc k ≡ ary.arraysize
        → Ends (is_sorted_loop ary n (suc k) (0 + entry ary k)) (Checks k)
    unfolding is_sorted_loop sa_aryidx2txtptr sa_get_text_size
    is_sorted_loop-Checks zero k e = (1, refl, inl (refl, λ j a b. absurd (omega arith)))
    is_sorted_loop-Checks (suc n) k e =
        let inside : suc k < ary.arraysize = omega arith in
        let next = is_sorted_loop-Checks n (suc k) (omega arith) in
        let (c, ran, sign) =
          sa_strcmp-Sign ary.text ary.textsize (omega (arith, opened.ends_inside)) (entry ary k)
            (entry ary (suc k)) (distinct k inside) (opened.is_position k (omega arith))
            (opened.is_position (suc k) inside) in
        let e1 : 0 + ary.textsize ≡ ary.textsize = omega arith in
        let e2 : 0 + entry ary k ≡ entry ary k = omega arith in
        let e3 : 0 + entry ary (suc k) ≡ entry ary (suc k) = omega arith in
        let e4 : suc k + 1 ≡ suc (suc k) = omega arith in
        rw (get_elem?-eq-get_or ary.array (suc k) 0 (omega (arith, opened.has_array)))
          (rw (e1, e2, e3, e4) (rw ran (Sign-Checks k c inside sign (rw e3 at next))))

    same_suffix : (i : ℕ) → suffix ary 0 i ≡ tail_of ary.text ary.textsize (entry ary i)
    same_suffix i =
        let e : entry ary i + 0 ≡ entry ary i = omega arith in
        ap (λ p. drop p (take ary.textsize ary.text)) e

    -- neighbours in order are enough
    steps-LexLe :
        (d i j : ℕ)
        → i + d ≡ j
        → j < ary.arraysize
        → ((m : ℕ) → 0 ≤ m → suc m < ary.arraysize → StepLe m)
        → LexLe (suffix ary 0 i) (suffix ary 0 j)
    steps-LexLe zero i j e h steps =
        let e' : i ≡ j = omega arith in rw e' (LexLe-refl (suffix ary 0 j))
    steps-LexLe (suc d) i j e h steps =
        let step : LexLe (suffix ary 0 i) (suffix ary 0 (suc i)) =
          rw (same_suffix i, same_suffix (suc i)) (steps i (omega arith) (omega arith)) in
        LexLe-trans (suffix ary 0 i) (suffix ary 0 (suc i)) (suffix ary 0 j) step
          (steps-LexLe d (suc i) j (omega arith) h steps)

    conclude :
        (r : ℕ)
        → 0 < ary.arraysize
        → Checks 0 r
        → ((r ≡ 1) × IsOrdered ary 0 0 (ary.arraysize - 1))
          ⊎ ((r ≡ 0) × ¬ IsOrdered ary 0 0 (ary.arraysize - 1))
    conclude r h (inl (e, steps)) = inl (
      e,
      record {
        long = λ i a b. omega (arith, opened.is_position i (omega arith));
        ascends = λ i j a b c. steps-LexLe (j - i) i j (omega arith) (omega arith) steps;
      },
    )
    conclude r h (inr (e, (j, _, b, out))) = inr (
      e,
      λ o. out (
          rw (same_suffix j, same_suffix (suc j)) at
            (o.ascends j (suc j) (omega arith) (omega arith) (omega arith))),
    )

    -- Of an index of distinct positions that is not empty, `sa_is_sorted` returns 1 if the whole
    -- index is in alphabetical order, and 0 if it is not.
    pub sa_is_sorted-IsOrdered :
        0 < ary.arraysize
        → Ends (sa_is_sorted ary) (λ r.
          ((r ≡ 1) × IsOrdered ary 0 0 (ary.arraysize - 1))
          ⊎ ((r ≡ 0) × ¬ IsOrdered ary 0 0 (ary.arraysize - 1)))
    unfolding sa_is_sorted sa_aryidx2txtptr sa_get_array_size
    sa_is_sorted-IsOrdered h =
        let (r, ran, checks) = is_sorted_loop-Checks (ary.arraysize - 1) 0 (omega arith) in
        rw (get_elem?-eq-get_or ary.array 0 0 (omega (arith, opened.has_array)))
          (rw ran (r, refl, conclude r h checks))
