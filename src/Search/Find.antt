-- ===== src/Search/Find.antt =====
-- `sa_find` of lib/search.c finds exactly the entries whose strings begin with the key.
use native.Mathlib.Decide.{dec_lt}
use sufary.Base.{
  ℕ, suc, ◌+◌, ◌-◌, ◌≤◌, ◌<◌, ◌≡◌, refl, ◌⊎◌, inl, inr, ◌↔◌, List, [], ◌∷◌, ◌++◌, map, length, All,
  arith, lt→ltb,
}
use sufary.Base.Int.{pos, negsuc}
use sufary.Base.Run.{Ends}
use sufary.File.{Sufary}
use sufary.Search.{success, fail, SufResult, BsearchResult, sa_find, find_ends, keyword_max_length}
use sufary.Search.Lex.{Lt-mono, Agree, Agree-sym}
use sufary.Search.Compare.{key_at}
use sufary.Search.Round.{entry, suffix_at, Inv, Hit}
use sufary.Search.Loop.{Missed, Searched, sa_bsearch-Searched}
use sufary.Search.Suffix.{Occurs, IsOpened, IsOrdered}
use sufary.Search.Boundary.{
  Lt-irrefl_Agree, below_high, above_high, above_low, below_low, key_at-append, key_at-append_at,
}
use sufary.Search.Block.{
  start_of, Occurs-iff_Agree, whole-Searchable, part-Searchable, start-Inv, from_hit-Inv,
  up_to_hit-Inv, after_hit, before_hit,
}

-- What a search of the entries from `left` to `right` has to return.
abbrev pub Finds : Sufary → ℕ → ℕ → List ℕ → ℕ → SufResult → Type 0
Finds ary left right key base r =
    ((r.stat ≡ fail) × ((i : ℕ) → left ≤ i → i ≤ right → ¬ Occurs ary base key i))
    ⊎ ((r.stat ≡ success)
        × (left ≤ r.left)
        × (r.left ≤ r.right)
        × (r.right ≤ right)
        × ((i : ℕ) → left ≤ i → i ≤ right → Occurs ary base key i ↔ ((r.left ≤ i) × (i ≤ r.right))))

module _ (ary : Sufary) (left right base : ℕ) (key : List ℕ) (opened : IsOpened ary)
    (ordered : IsOrdered ary base left right) (in_array : right < ary.arraysize)
    (nonzero : All (λ b. 0 < b) key) where
  -- The string at entry `i` agrees with the key.
  abbrev Matches : ℕ → Type 0
  Matches i = Agree (length key) (suffix_at ary base i) (key_at (map pos key))

  module _ (s : BsearchResult) (inv : Inv ary (map pos key) (length key) base left (right + 1) s)
      (hit : Hit ary (map pos key) (length key) base left (right + 1) s) where
    high_char :
        (i : ℕ)
        → suffix_at ary base i (length key) < key_at (map pos key ++ pos 256 ∷ []) (length key)
    high_char i =
        omega
          (arith, key_at-append_at key (pos 256), opened.is_byte (entry ary i + base + length key))

    low_char :
        (i : ℕ)
        → key_at (map pos key ++ negsuc 0 ∷ []) (length key) < suffix_at ary base i (length key)
    low_char i = omega (arith, key_at-append_at key (negsuc 0))

    -- the end of the block to the right of the hit
    record RightEnd (t : BsearchResult) : Type 0 where
      past_hit : s.center < t.center
      in_range : t.center ≤ s.right
      block : (i : ℕ) → s.center ≤ i → i < t.center → Matches i
      beyond : (i : ℕ) → t.center ≤ i → i < s.right → ¬ Matches i

    record LeftEnd (t : BsearchResult) : Type 0 where
      to_hit : t.center ≤ s.center
      in_range : s.left ≤ t.center
      block : (i : ℕ) → t.center ≤ i → i ≤ s.center → Matches i
      beyond : (i : ℕ) → s.left ≤ i → i < t.center → ¬ Matches i

    Searched-RightEnd :
        (t : BsearchResult)
        → Searched ary (map pos key ++ pos 256 ∷ []) (length key + 1) base s.center s.right t
        → RightEnd t
    Searched-RightEnd t (inl (_, h)) =
        absurd (omega (arith, h.agrees (length key) (omega arith), high_char t.center))
    Searched-RightEnd t (inr m) =
        let same = key_at-append key (pos 256) in
        let k = length key in
        let beyond : (i : ℕ) → t.center ≤ i → i < s.right → ¬ Matches i = λ i a b.
          above_high k same (high_char i) (Lt-mono {n = suc k} (omega arith) (m.above i a b)) in
        record {
          past_hit = elim (dec_lt s.center t.center) [
            | yes p ↦ p
            | no p ↦ absurd (beyond s.center (omega arith) hit.lt_right hit.agrees)
          ];
          in_range = m.le_hi;
          block = λ i a b. below_high k same (Lt-mono {n = suc k} (omega arith) (m.below i a b)) (
              after_hit ary left right base key opened ordered in_array nonzero s inv hit i a
                (omega (arith, inv.hi_le, m.le_hi)));
          beyond = beyond;
        }

    Searched-LeftEnd :
        (t : BsearchResult)
        → Searched ary (map pos key ++ negsuc 0 ∷ []) (length key + 1) base s.left (s.center + 1) t
        → LeftEnd t
    Searched-LeftEnd t (inl (_, h)) =
        absurd (omega (arith, h.agrees (length key) (omega arith), low_char t.center))
    Searched-LeftEnd t (inr m) =
        let same = key_at-append key (negsuc 0) in
        let k = length key in
        record {
          to_hit = elim (dec_lt s.center t.center) [
            | no p ↦ omega arith
            | yes p ↦ absurd (
                below_low k same (low_char s.center)
                  (Lt-mono {n = suc k} (omega arith) (m.below s.center hit.left_le p)) hit.agrees)
          ];
          in_range = m.lo_le;
          block = λ i a b.
              above_low k same (Lt-mono {n = suc k} (omega arith) (m.above i a (omega arith))) (
                before_hit ary left right base key opened ordered in_array nonzero s inv hit i
                  (omega (arith, inv.lo_le, m.lo_le)) b);
          beyond = λ i a b.
              below_low k same (low_char i) (Lt-mono {n = suc k} (omega arith) (m.below i a b));
        }

    -- Both ends together.
    ends-Finds :
        (t u : BsearchResult)
        → RightEnd t
        → LeftEnd u
        → Finds ary left right key base
            (record { left = u.center; right = t.center - 1; stat = success })
    ends-Finds t u r l = inr (
      refl,
      omega (arith, inv.lo_le, l.in_range),
      omega (arith, l.to_hit, r.past_hit),
      omega (arith, inv.hi_le, r.in_range, r.past_hit),
      λ i a b. (
        (λ o.
            inside i a b
              ((Occurs-iff_Agree ary left right base key opened ordered in_array nonzero i).0 o)),
        λ (p, q).
            (Occurs-iff_Agree ary left right base key opened ordered in_array nonzero i).1
              (elim (dec_lt i s.center) [
                | yes before ↦ l.block i p (omega arith)
                | no after ↦ r.block i (omega arith) (omega (arith, r.past_hit))
              ]),
      ),
    )
      where
        k : ℕ
        k = length key

        inside : (i : ℕ) → left ≤ i → i ≤ right → Matches i → (u.center ≤ i) × (i ≤ t.center - 1)
        inside i a b found = (
          elim (dec_lt i u.center) [
            | no p ↦ omega arith
            | yes p ↦ elim (dec_lt i s.left) [
              | yes q ↦ absurd (Lt-irrefl_Agree k (inv.below i a q) found)
              | no q ↦ absurd (l.beyond i (omega arith) p found)
            ]
          ],
          elim (dec_lt i t.center) [
            | yes p ↦ omega arith
            | no p ↦ elim (dec_lt i s.right) [
              | yes q ↦ absurd (r.beyond i (omega arith) q found)
              | no q ↦
                  absurd (
                    Lt-irrefl_Agree k (inv.above i (omega arith) (omega arith)) (Agree-sym k found))
            ]
          ],
        )

  Missed-Finds :
      (s : BsearchResult)
      → Missed ary (map pos key) (length key) base left (right + 1) s
      → Finds ary left right key base (record { left = 0; right = 0; stat = fail })
  Missed-Finds s m = inl (
    refl,
    λ i a b o.
        let found =
          (Occurs-iff_Agree ary left right base key opened ordered in_array nonzero i).0 o in
        let k = length key in
        elim (dec_lt i s.center) [
          | yes p ↦ Lt-irrefl_Agree k (m.below i a p) found
          | no p ↦ Lt-irrefl_Agree k (m.above i (omega arith) (omega arith)) (Agree-sym k found)
        ],
  )

  found-Ends :
      (s : BsearchResult)
      → length key < keyword_max_length
      → Searched ary (map pos key) (length key) base left (right + 1) s
      → Ends (find_ends ary key base s) (Finds ary left right key base)
  unfolding find_ends
  found-Ends s small (inl (inv, hit)) =
      let (t, ran_r, searched_r) =
        sa_bsearch-Searched
          (part-Searchable ary left right base key opened ordered in_array nonzero (pos 256)
            s.center s.right (omega (arith, inv.lo_le, hit.left_le)) inv.hi_le)
          (record s { left = s.center; left_prefix_len = length key + base })
          (from_hit-Inv ary left right base key opened ordered in_array nonzero s inv hit (pos 256))
          hit.lt_right in
      let (u, ran_l, searched_l) =
        sa_bsearch-Searched
          (part-Searchable ary left right base key opened ordered in_array nonzero (negsuc 0) s.left
            (s.center + 1) inv.lo_le (omega (arith, hit.lt_right, inv.hi_le)))
          (record s { right = s.center + 1; right_prefix_len = length key + base })
          (up_to_hit-Inv ary left right base key opened ordered in_array nonzero s inv hit
            (negsuc 0))
          (omega (arith, hit.left_le)) in
      rw (hit.hit_state, find_ends)
        (rw (lt→ltb (length key) keyword_max_length small) (
          rw ran_r (
            rw ran_l (
              record { left = u.center; right = t.center - 1; stat = success },
              refl,
              ends-Finds s inv hit t u (Searched-RightEnd s inv hit t searched_r)
                  (Searched-LeftEnd s inv hit u searched_l),
            ))))
  found-Ends s small (inr m) =
      rw (m.missed_state, find_ends)
        (record { left = 0; right = 0; stat = fail }, refl, Missed-Finds s m)

  -- In an opened index whose entries from `left` to `right` exist and are in alphabetical order, the
  -- search for a key of fewer bytes than KEYWORD_MAX_LENGTH, none of them 0, ends. It returns the
  -- first and the last of the entries whose strings begin with the key, and every entry between them
  -- is one; or it returns FAIL, and there is none.
  pub sa_find-Finds :
      left ≤ right
      → length key < keyword_max_length
      → Ends (sa_find ary left right key base) (Finds ary left right key base)
  unfolding sa_find
  sa_find-Finds h small =
      let (s, ran, searched) =
        sa_bsearch-Searched
          (whole-Searchable ary left right base key opened ordered in_array nonzero)
          (start_of left right base)
          (start-Inv ary left right base key opened ordered in_array nonzero h) (omega arith) in
      rw (lt→ltb right ary.arraysize in_array) (
        rw (lt→ltb (length key) (keyword_max_length + 1) (omega arith))
          (rw ran (found-Ends s small searched)))
