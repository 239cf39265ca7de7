-- ===== src/Search/Loop.antt =====
-- The `while` of `sa_bsearch` and what it leaves behind, in lib/search.c.
use sufary.Base.{
  ℕ, zero, suc, ◌-◌, ◌≤◌, ◌<◌, ◌≡◌, refl, ◌⊎◌, inl, inr, List, arith, true, false, Bool, Bool-cases,
  ltb, leb, ltb→lt, ◌∙◌,
}
use sufary.Base.Int.{ℤ}
use sufary.Base.Run.{Ends}
use sufary.File.{Sufary, sa_get_array_size}
use sufary.Search.{unless_stopped, BsearchResult, fail, bsearch_loop, finish, sa_bsearch, midpoint}
use sufary.Search.Lex.{Lt}
use sufary.Search.Compare.{key_at}
use sufary.Search.Midpoint.{midpoint_exact}
use sufary.Search.Round.{suffix_at, Searchable, Inv, Hit, Narrowed, bsearch_round-Narrowed}

module _ (ary : Sufary) (key : List ℤ) (keylen base lo hi : ℕ) where
  -- The loop ran to its end: the range that is left is empty.
  abbrev pub Stopped : BsearchResult → Type 0
  Stopped s =
      Inv ary key keylen base lo hi s
      × (Hit ary key keylen base lo hi s ⊎ ((s.state ≡ fail) × (s.left ≡ s.right)))

  -- No string of the range begins with the key: `center` parts those below it from those above.
  pub record Missed (s : BsearchResult) : Type 0 where
    pub missed_state : s.state ≡ fail
    pub lo_le : lo ≤ s.center
    pub le_hi : s.center ≤ hi
    pub below : (i : ℕ) → lo ≤ i → i < s.center → Lt keylen (suffix_at ary base i) (key_at key)
    pub above : (i : ℕ) → s.center ≤ i → i < hi → Lt keylen (key_at key) (suffix_at ary base i)

  abbrev pub Searched : BsearchResult → Type 0
  Searched s = (Inv ary key keylen base lo hi s × Hit ary key keylen base lo hi s) ⊎ Missed s

module _ {ary : Sufary} {key : List ℤ} {keylen base lo hi : ℕ}
    (ok : Searchable ary key keylen base lo hi) where
  unless_stopped-Stopped :
      (fuel : ℕ) (s : BsearchResult) (r : BsearchResult × Bool)
      → Narrowed ary key keylen base lo hi s r
      → s.state ≡ fail
      → s.right - s.left < suc fuel
      → ((s' : BsearchResult)
          → Inv ary key keylen base lo hi s'
          → s'.state ≡ fail
          → s'.right - s'.left < fuel
          → Ends (bsearch_loop ary key keylen fuel s') (Stopped ary key keylen base lo hi))
      → Ends
          (unless_stopped (bsearch_loop ary key keylen fuel) r)
          (Stopped ary key keylen base lo hi)
  unless_stopped-Stopped fuel s (s', true) (inv, hit) st f again = (s', refl, (inv, inl hit))
  unless_stopped-Stopped fuel s (s', false) (inv, kept, less) st f again =
      again s' inv (kept ∙ st) (omega arith)

  bsearch_loop-Stopped :
      (fuel : ℕ) (s : BsearchResult)
      → Inv ary key keylen base lo hi s
      → s.state ≡ fail
      → s.right - s.left < fuel
      → Ends (bsearch_loop ary key keylen fuel s) (Stopped ary key keylen base lo hi)
  unfolding bsearch_loop
  bsearch_loop-Stopped zero s inv st f = elim f [ ]
  bsearch_loop-Stopped (suc fuel) s inv st f = elim (Bool-cases (ltb s.left s.right)) [
    | inr empty ↦ rw (empty, bsearch_loop) (s, refl, (inv, inr (st, ground (arith, inv.ordered))))
    | inl more ↦
        let (r, ran, narrowed) = bsearch_round-Narrowed ok s inv (ltb→lt _ _ more) in
        rw (more, bsearch_loop)
          (rw ran (unless_stopped-Stopped fuel s r narrowed st f (bsearch_loop-Stopped fuel)))
  ]

  finish-Searched :
      (s : BsearchResult)
      → Stopped ary key keylen base lo hi s
      → Searched ary key keylen base lo hi (finish ary key keylen s)
  finish-Searched s (inv, inl hit) = rw (hit.hit_state, finish) (inl (inv, hit))
  finish-Searched s (inv, inr (failed, empty)) =
      let center : midpoint s.left s.right ≡ s.left =
        omega (arith, midpoint_exact s.left s.right) in
      rw (failed, finish)
        (inr (record {
          missed_state = failed;
          lo_le = omega (arith, inv.lo_le);
          le_hi = omega (arith, inv.hi_le);
          below = λ i l r. inv.below i l (omega arith);
          above = λ i l r. inv.above i (omega arith) r;
        }))

  -- The binary search ends: at an entry whose string begins with the key, or with the place that
  -- parts the strings below the key from those above it.
  pub sa_bsearch-Searched :
      (s : BsearchResult)
      → Inv ary key keylen base lo hi (record s { state = fail })
      → s.left < s.right
      → Ends (sa_bsearch ary key keylen s) (Searched ary key keylen base lo hi)
  unfolding sa_bsearch sa_get_array_size
  sa_bsearch-Searched s inv h =
      let small : leb s.right ary.arraysize ≡ true = ground (arith, inv.hi_le, ok.within) in
      let some_left : ltb s.left s.right ≡ true = ground arith in
      let (s', ran, stopped) =
        bsearch_loop-Stopped (suc (s.right - s.left)) (record s { state = fail }) inv refl
          (omega arith) in
      rw small (rw some_left (rw ran (finish ary key keylen s', refl, finish-Searched s' stopped)))
