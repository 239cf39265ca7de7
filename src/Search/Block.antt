-- ===== src/Search/Block.antt =====
-- The ranges that `sa_find` of lib/search.c hands to `sa_bsearch`, and why it may search them.
use native.Mathlib.Decide.{dec_lt}
use sufary.Base.{
  ℕ, zero, suc, ◌+◌, ◌-◌, ◌≤◌, ◌<◌, ◌≡◌, refl, sym, ◌∙◌, inr, ◌↔◌, List, [], ◌∷◌, ◌++◌, map, ap,
  length, get_or, length-map, All, arith,
}
use sufary.Base.Int.{ℤ, pos}
use sufary.File.{Sufary}
use sufary.Search.{fail, BsearchResult}
use sufary.Search.Lex.{Agree, Le, Agree-sym, Agree-mono, Agree-Le, Le-Agree, Agree-trans}
use sufary.Search.Compare.{key_at}
use sufary.Search.Round.{entry, suffix_at, Searchable, Inv, Hit}
use sufary.Search.Suffix.{
  suffix, Occurs, IsOpened, IsOrdered, padded, suffix_at-padded, LexLe-Le, Agree→take, take→Agree,
}
use sufary.Search.Boundary.{key_at-append, length-key_append}

-- what `sa_find` puts into `sbr`
abbrev pub start_of : ℕ → ℕ → ℕ → BsearchResult
start_of left right base = record {
  center = 0;
  left = left;
  right = right + 1;
  left_prefix_len = base;
  right_prefix_len = base;
  base_txt_skip = base;
  state = fail;
}

key_at-positive :
    (key : List ℕ) (j : ℕ) → All (λ b. 0 < b) key → j < length key → 1 < key_at (map pos key) j
key_at-positive [] j h b = elim b [ ]
key_at-positive (k ∷ key) zero h b = omega arith
key_at-positive (k ∷ key) (suc j) h b = key_at-positive key j h.1 (omega arith)

module _ (ary : Sufary) (left right base : ℕ) (key : List ℕ) (opened : IsOpened ary)
    (ordered : IsOrdered ary base left right) (in_array : right < ary.arraysize)
    (nonzero : All (λ b. 0 < b) key) where
  suffix_at-same : (i n : ℕ) → Agree n (suffix_at ary base i) (padded (suffix ary base i))
  suffix_at-same i n j b = suffix_at-padded ary base i opened j

  pub suffix_at-Le :
      (i j n : ℕ)
      → left ≤ i
      → i ≤ j
      → j < right + 1
      → Le n (suffix_at ary base i) (suffix_at ary base j)
  suffix_at-Le i j n l h r = Agree-Le {n = n} (suffix_at-same i n) (
      Le-Agree {n = n}
        (LexLe-Le n (suffix ary base i) (suffix ary base j) (ordered.ascends i j l h (omega arith)))
        (Agree-sym n (suffix_at-same j n)))

  pub Occurs-iff_Agree :
      (i : ℕ)
      → Occurs ary base key i ↔ Agree (length key) (suffix_at ary base i) (key_at (map pos key))
  Occurs-iff_Agree i = (
    λ o.
        Agree-trans {n = length key} (suffix_at-same i (length key))
          (take→Agree key (suffix ary base i) o),
    λ a.
        Agree→take key (suffix ary base i) nonzero
          (Agree-trans {n = length key} (Agree-sym (length key) (suffix_at-same i (length key))) a),
  )

  -- A string that agrees with nonzero characters has not come to the end of the text.
  pub suffix_at-readable :
      (i j : ℕ)
      → left ≤ i
      → i ≤ right
      → j ≤ length key
      → Agree j (suffix_at ary base i) (key_at (map pos key))
      → entry ary i + base + j < length ary.text
  suffix_at-readable i j l r b a = elim (dec_lt ary.textsize (entry ary i + base + j)) [
    | no inside ↦ omega (arith, opened.ends_inside)
    | yes past ↦
        let d = ary.textsize - (entry ary i + base) in
        let at_end : entry ary i + base + d ≡ ary.textsize = omega (arith, ordered.long i l r) in
        let zero_byte : suffix_at ary base i d ≡ 1 =
          ap (λ p. suc (get_or ary.text p 0)) at_end
          ∙ ap suc (opened.padding ary.textsize (omega arith)) in
        absurd (omega (arith, a d (omega arith), key_at-positive key d nonzero (omega arith)))
  ]

  pub whole-Searchable : Searchable ary (map pos key) (length key) base left (right + 1)
  whole-Searchable = record {
    fits = omega (arith, opened.has_array);
    within = omega arith;
    has_key = omega (arith, length-map pos key);
    ascend = suffix_at-Le;
    readable = λ i j l r b a. suffix_at-readable i j l (omega arith) (omega arith) a;
  }

  -- The same with one more character, on a part of the range.
  pub part-Searchable :
      (c : ℤ) (lo hi : ℕ)
      → left ≤ lo
      → hi ≤ right + 1
      → Searchable ary (map pos key ++ c ∷ []) (length key + 1) base lo hi
  part-Searchable c lo hi l r = record {
    fits = omega (arith, opened.has_array);
    within = omega arith;
    has_key = omega (arith, length-key_append key c);
    ascend = λ i j n a b d. suffix_at-Le i j n (omega arith) b (omega arith);
    readable = λ i j a b d agree.
        suffix_at-readable i j (omega arith) (omega arith) (omega arith)
          (λ m e. agree m e ∙ sym (key_at-append key c m (omega arith)));
  }

  pub start-Inv :
      left ≤ right
      → Inv ary (map pos key) (length key) base left (right + 1) (start_of left right base)
  start-Inv h = record {
    p = 0;
    q = 0;
    base_kept = refl;
    left_len = omega arith;
    right_len = omega arith;
    p_le = omega arith;
    q_le = omega arith;
    lo_le = omega arith;
    ordered = omega arith;
    hi_le = omega arith;
    below = λ i a b. absurd (omega arith);
    above = λ i a b. absurd (omega arith);
    from_left = λ i a b. inr (λ j c. elim c [ ]);
    from_right = λ i a b. inr (λ j c. elim c [ ]);
  }

  -- The search for the right end of the block, from a hit on.
  module _ (s : BsearchResult) (inv : Inv ary (map pos key) (length key) base left (right + 1) s)
      (hit : Hit ary (map pos key) (length key) base left (right + 1) s) where
    pub after_hit :
        (i : ℕ)
        → s.center ≤ i
        → i < right + 1
        → Le (length key) (key_at (map pos key)) (suffix_at ary base i)
    after_hit i l r =
        Agree-Le {n = length key} (Agree-sym (length key) hit.agrees)
          (suffix_at-Le s.center i (length key) (omega (arith, inv.lo_le, hit.left_le)) l r)

    pub before_hit :
        (i : ℕ)
        → left ≤ i
        → i ≤ s.center
        → Le (length key) (suffix_at ary base i) (key_at (map pos key))
    before_hit i l r =
        Le-Agree {n = length key}
          (suffix_at-Le i s.center (length key) l r (omega (arith, inv.hi_le, hit.lt_right)))
          hit.agrees

    pub from_hit-Inv :
        (c : ℤ)
        → Inv ary
            (map pos key ++ c ∷ [])
            (length key + 1)
            base
            s.center
            s.right
            (record s { left = s.center; left_prefix_len = length key + base; state = fail })
    from_hit-Inv c = record {
      p = length key;
      q = inv.q;
      base_kept = inv.base_kept;
      left_len = omega arith;
      right_len = inv.right_len;
      p_le = omega arith;
      q_le = omega (arith, inv.q_le);
      lo_le = omega arith;
      ordered = omega (arith, hit.lt_right);
      hi_le = omega arith;
      below = λ i a b. absurd (omega arith);
      above = λ i a b. absurd (omega arith);
      from_left = λ i a b.
          Agree-Le {n = length key} (Agree-sym (length key) (key_at-append key c))
            (after_hit i a (omega (arith, inv.hi_le)));
      from_right = λ i a b.
          Le-Agree {n = inv.q} (inv.from_right i (omega (arith, hit.left_le)) b)
            (Agree-mono inv.q_le (key_at-append key c));
    }

    pub up_to_hit-Inv :
        (c : ℤ)
        → Inv ary
            (map pos key ++ c ∷ [])
            (length key + 1)
            base
            s.left
            (s.center + 1)
            (record s { right = s.center + 1; right_prefix_len = length key + base; state = fail })
    up_to_hit-Inv c = record {
      p = inv.p;
      q = length key;
      base_kept = inv.base_kept;
      left_len = inv.left_len;
      right_len = omega arith;
      p_le = omega (arith, inv.p_le);
      q_le = omega arith;
      lo_le = omega arith;
      ordered = omega (arith, hit.left_le);
      hi_le = omega arith;
      below = λ i a b. absurd (omega arith);
      above = λ i a b. absurd (omega arith);
      from_left = λ i a b.
          Agree-Le {n = inv.p} (Agree-sym inv.p (Agree-mono inv.p_le (key_at-append key c)))
            (inv.from_left i a (omega (arith, hit.lt_right)));
      from_right = λ i a b.
          Le-Agree {n = length key} (before_hit i (omega (arith, inv.lo_le)) (omega arith))
            (key_at-append key c);
    }
