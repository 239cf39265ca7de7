-- ===== src/Regex/Exact.antt =====
-- The search of lib/regex.c for patterns of characters and full stops, and their matches.
use sufary.Base.{
  ℕ, zero, suc, ◌+◌, ◌-◌, ◌≤◌, ◌<◌, ◌≡◌, ◌≢◌, refl, ◌⊎◌, inl, inr, ◌↔◌, List, [], ◌∷◌, length,
  get_or, Bool, true, false, ◌==◌, Option, leb, arith,
}
use sufary.Base.Int.{ℤ, pos, less_by, eq_int}
use sufary.Base.Run.{Run, Ends, Ends-bind, done}
use sufary.File.{Sufary}
use sufary.Region.{bytes_at}
use sufary.IndexPoint.{msb_on}
use sufary.Search.{SufResult, success}
use sufary.Search.Round.{entry}
use sufary.Search.Suffix.{Occurs, IsOpened, IsOrdered}
use sufary.Regex.Bits.{bit_found, BitVectors, sa_regex_free_all_2nd_char_bv}
use sufary.Regex.Sub.{
  SaResult, SaResultList, Again, without_item, first_byte, vector_loop, match_vectors,
  sa_regex_match_one_char, one_char, by_char, char_len, match_item, sa_regex_sub, sa_regex,
}
use sufary.Regex.Results.{
  Adds, Adds-trans, Adds-iff, result_at, sa_regex_store_result-Adds, Listed, vector_loop-Adds,
  InVector,
}
use sufary.Regex.Narrow.{IsRange, Occurs-get_or, Within, find_then-Adds}
use sufary.Regex.Pattern.{
  Atom, char, any, Pattern, Plain, IsPlain, sign_of, key_of, key_length, Accepts, Matches, wild,
  positive_bit, IsWild, wild-IsWild, ascii_msb,
}

-- A plain character has none of the signs that the code tests for.
char_chosen {ℓ κ} :
    {A : Type ℓ} (P : A → Type κ) (c : ℕ) (w k q l o : A) → Plain c → P o → P (by_char c w k q l o)
char_chosen P c w k q l o h p =
    let (_, _, a, b, d, e, _) = h in
    let a' : (c == 46) ≡ false = ground arith in
    let b' : (c == 91) ≡ false = ground arith in
    let d' : (c == 63) ≡ false = ground arith in
    let e' : (c == 40) ≡ false = ground arith in rw (a', b', d', e') p

less_by_one : (n : ℕ) → less_by (pos (suc n)) 1 ≡ pos n
less_by_one n = let e : suc n - 1 ≡ n = omega arith in ground (arith, e)

less_by_two : (n : ℕ) → less_by (pos (suc (suc n))) 2 ≡ pos n
less_by_two n = let e : suc (suc n) - 2 ≡ n = omega arith in ground (arith, e)

-- the key behind an atom: with the question mark, or without
abbrev rest_key : Bool → Pattern → List ℕ
rest_key true ps = 63 ∷ key_of ps
rest_key false ps = key_of ps

abbrev rest_length : Bool → Pattern → ℕ
rest_length true ps = suc (key_length ps)
rest_length false ps = key_length ps

module _ (ary : Sufary) (opened : IsOpened ary) (ascii : (p : ℕ) → get_or ary.text p 0 < 128)
    (scan_hex : List ℕ → Option ℕ) (junk : ℕ) where
  -- The result tells of entry `i` that it matches, and up to where.
  abbrev pub Found : Pattern → ℕ → ℕ → SaResult → Type 0
  Found ps base i x = (n : ℕ) × (x ≡ result_at ary i n) × Matches ary ps base i n

  -- A search for what is left of a pattern does what it should.
  abbrev Searches : Again → Pattern → List ℕ → ℕ → Type 0
  Searches go ps key keylen =
      (sr : SufResult) (base : ℕ) (xs : SaResultList)
      → IsRange ary base sr
      → Ends (go sr key (pos keylen) base xs) (Adds (Within ary sr (Found ps base)) xs)

  abbrev ByAtom : Atom → Pattern → ℕ → ℕ → SaResult → Type 0
  ByAtom a ps base i x =
      (t : ℕ) × Accepts a t × Occurs ary base (t ∷ []) i × Found ps (base + 1) i x

  -- An item is matched by its atom, or left out.
  item_iff :
      (a : Atom) (optional : Bool) (ps : Pattern) (base : ℕ) (sr : SufResult) (x : SaResult)
      → Within ary sr (Found ((a, optional) ∷ ps) base) x ↔ (
          Within ary sr (ByAtom a ps base) x
          ⊎ ((optional ≡ true) × Within ary sr (Found ps base) x))
  item_iff a optional ps base sr x = (
    λ (i, p, q, (n, e, m)). elim m [
      | inl (t, acc, occ, m') ↦ inl (i, p, q, (t, acc, occ, (n, e, m')))
      | inr (o, m') ↦ inr (o, (i, p, q, (n, e, m')))
    ],
    elim [
      | inl (i, p, q, (t, acc, occ, (n, e, m))) ↦ (i, p, q, (n, e, inl (t, acc, occ, m)))
      | inr (o, (i, p, q, (n, e, m))) ↦ (i, p, q, (n, e, inr (o, m)))
    ],
  )

  module _ (go : Again) (sr : SufResult) (base : ℕ) (xs : SaResultList) where
    -- Without a question mark nothing is left out.
    without_none :
        (s : ℕ) (keylen : ℤ) (ps : Pattern)
        → IsPlain ps
        → without_item ary go sr (s ∷ key_of ps) keylen 1 base xs ≡ done xs
    unfolding without_item
    without_none s keylen [] h = refl
    without_none s keylen ((char c, true) ∷ ps) h =
        let e : (c == 63) ≡ false = ground arith in rw e refl
    without_none s keylen ((char c, false) ∷ ps) h =
        let e : (c == 63) ≡ false = ground arith in rw e refl
    without_none s keylen ((any, true) ∷ ps) h = refl
    without_none s keylen ((any, false) ∷ ps) h = refl

    without-Adds :
        (s : ℕ) (ps : Pattern)
        → Searches go ps (key_of ps) (key_length ps)
        → IsRange ary base sr
        → Ends
            (without_item ary go sr
              (s ∷ 63 ∷ key_of ps)
              (pos (suc (suc (key_length ps))))
              1
              base
              xs)
            (Adds (Within ary sr (Found ps base)) xs)
    unfolding without_item
    without-Adds s ps searches range =
        let (out, ran, adds) = searches sr base xs range in
        rw (less_by_two (key_length ps)) (out, ran, adds)

    one_char-Plain :
        (c : ℕ) (key : List ℕ) (keylen : ℤ)
        → Plain c
        → one_char ary scan_hex junk go (c ∷ key) keylen ≡ done (c ∷ [], 1)
    unfolding one_char char_len bytes_at
    one_char-Plain c key keylen (_, h, _, _, _, _, ne) =
        let low = ascii_msb c h in
        let low' : msb_on c ≡ false = ground arith in
        let room : leb (0 + 1) (length (c ∷ key)) ≡ true = ground arith in
        let plain : (c == 92) ≡ false = ground arith in rw (low', room, plain) refl

  module _ (go : Again) (ps : Pattern) (plain : IsPlain ps)
      (searches : Searches go ps (key_of ps) (key_length ps)) where
    -- The end of an item: the atom's results are there, and those without it follow.
    item_end :
        (s : ℕ) (a : Atom) (optional : Bool) (sr : SufResult) (base : ℕ) (xs ys : SaResultList)
        → IsRange ary base sr
        → Adds (Within ary sr (ByAtom a ps base)) xs ys
        → Ends
            (without_item ary go sr
              (s ∷ rest_key optional ps)
              (pos (suc (rest_length optional ps)))
              1
              base
              ys)
            (Adds (Within ary sr (Found ((a, optional) ∷ ps) base)) xs)
    item_end s a true sr base xs ys range adds =
        let (out, ran, adds') = without-Adds go sr base ys s ps searches range in
        (
          out,
          ran,
          Adds-trans (Within ary sr (ByAtom a ps base)) (Within ary sr (Found ps base))
              (Within ary sr (Found ((a, true) ∷ ps) base)) xs ys out adds adds'
              (λ x. (
                λ w. elim ((item_iff a true ps base sr x).0 w) [
                  | inl f ↦ inl f
                  | inr (_, f) ↦ inr f
                ],
                elim [
                  | inl f ↦ (item_iff a true ps base sr x).1 (inl f)
                  | inr f ↦ (item_iff a true ps base sr x).1 (inr (refl, f))
                ],
              )),
        )
    item_end s a false sr base xs ys range adds = (
      ys,
      without_none go sr base ys s (pos (suc (key_length ps))) ps plain,
      Adds-iff (Within ary sr (ByAtom a ps base)) (Within ary sr (Found ((a, false) ∷ ps) base)) xs
          ys adds
          (λ x. (
            λ f. (item_iff a false ps base sr x).1 (inl f),
            λ w. elim ((item_iff a false ps base sr x).0 w) [
              | inl f ↦ f
              | inr (e, _) ↦ absurd (cc)
            ],
          )),
    )

    module _ (optional : Bool)
        (onward : Searches go ps (rest_key optional ps) (rest_length optional ps)) where
      -- A range of entries with a character in common goes on with the rest of the key.
      onward-Adds :
          (t base : ℕ) (xs : SaResultList) (sr sr' : SufResult)
          → IsRange ary base sr
          → IsRange ary (base + 1) sr'
          → Ends
              (go sr'
                (rest_key optional ps)
                (less_by (pos (suc (rest_length optional ps))) 1)
                (base + 1)
                xs)
              (Adds (Within ary sr' (Found ps (base + 1))) xs)
      onward-Adds t base xs sr sr' range range' =
          rw (less_by_one (rest_length optional ps)) (onward sr' (base + 1) xs range')

      char-Adds :
          (c : ℕ) (sr : SufResult) (base : ℕ) (xs : SaResultList)
          → Plain c
          → IsRange ary base sr
          → Ends
              (sa_regex_match_one_char ary scan_hex junk go sr
                (c ∷ rest_key optional ps)
                (pos (suc (rest_length optional ps)))
                base
                xs)
              (Adds (Within ary sr (Found ((char c, optional) ∷ ps) base)) xs)
      unfolding sa_regex_match_one_char
      char-Adds c sr base xs h range =
          let (ys, ran, adds) =
            find_then-Adds ary opened sr base c
              (λ sr'.
                go sr' (rest_key optional ps) (less_by (pos (suc (rest_length optional ps))) 1)
                  (base + 1) xs)
              (Found ps (base + 1)) xs range h.0
              (λ sr' range' all. onward-Adds c base xs sr sr' range range') in
          let by_atom =
            Adds-iff (Within ary sr (λ i x. Occurs ary base (c ∷ []) i × Found ps (base + 1) i x))
              (Within ary sr (ByAtom (char c) ps base)) xs ys adds
              (λ x. (
                λ (i, p, q, (o, f)). (i, p, q, (c, refl, o, f)),
                λ (i, p, q, (t, e, o, f)). (i, p, q, (rw e at o, f)),
              )) in
          rw
            (one_char-Plain go sr base xs c (rest_key optional ps)
              (pos (suc (rest_length optional ps))) h)
            (rw ran (item_end c (char c) optional sr base xs ys range by_atom))

      module _ (bvs : BitVectors) (is_wild : IsWild bvs) where
        first_byte-Adds :
            (t : ℕ) (sr : SufResult) (base : ℕ) (xs : SaResultList)
            → 0 < t
            → IsRange ary base sr
            → Ends
                (first_byte ary scan_hex junk go sr base
                  (rest_key optional ps)
                  (less_by (pos (suc (rest_length optional ps))) 1)
                  bvs
                  t
                  xs)
                (Adds
                  (Within ary sr (λ i x. Occurs ary base (t ∷ []) i × Found ps (base + 1) i x))
                  xs)
        unfolding first_byte
        first_byte-Adds t sr base xs h range =
            find_then-Adds ary opened sr base t _ (Found ps (base + 1)) xs range h
              (λ sr' range' all.
                let c = all sr'.left (omega arith) range'.some_entry in
                let low : t < 128 =
                  omega (
                    arith,
                    ascii (entry ary sr'.left + base),
                    Occurs-get_or ary base t sr'.left c,
                  ) in
                rw (ascii_msb t low) (onward-Adds t base xs sr sr' range range'))

        any_iff :
            (f : ℕ → SaResultList → Run SaResultList) (sr : SufResult) (base : ℕ) (x : SaResult)
            → InVector ary f
                (λ t y.
                  Within ary sr (λ i z. Occurs ary base (t ∷ []) i × Found ps (base + 1) i z) y)
                bvs.bv
                0
                x
              ↔ Within ary sr (ByAtom any ps base) x
        any_iff f sr base x = (
          λ (u, h, bit, (i, p, q, (o, found))).
              let e : 0 + u ≡ u = omega arith in
              let small : u < 256 = omega (arith, is_wild.size) in
              let shown = is_wild.bits u small in
              let first : 0 < u = ground arith in
              let second : u ≢ 10 = λ same. ground arith in
              (i, p, q, (u, (first, second), rw e at o, found)),
          λ (i, p, q, (t, (a, b), o, found)).
              let e : 0 + t ≡ t = omega arith in
              let low : t < 128 =
                omega (arith, ascii (entry ary i + base), Occurs-get_or ary base t i o) in
              let shown = is_wild.bits t (omega arith) in
              let bit : bit_found bvs.bv t ≡ true = ground arith in
              (t, omega (arith, is_wild.size), bit, (i, p, q, (rw e o, found))),
        )

        any-Adds :
            (sr : SufResult) (base : ℕ) (xs : SaResultList)
            → IsRange ary base sr
            → Ends
                (match_vectors ary scan_hex junk go sr
                  (46 ∷ rest_key optional ps)
                  (pos (suc (rest_length optional ps)))
                  base
                  xs
                  (1, bvs))
                (Adds (Within ary sr (Found ((any, optional) ∷ ps) base)) xs)
        unfolding match_vectors
        any-Adds sr base xs range =
            let f =
              first_byte ary scan_hex junk go sr base (rest_key optional ps)
                (less_by (pos (suc (rest_length optional ps))) 1) bvs in
            let each = λ (t : ℕ) (y : SaResult).
              Within ary sr (λ i z. Occurs ary base (t ∷ []) i × Found ps (base + 1) i z) y in
            Ends-bind (vector_loop ary f bvs.bv 0 xs) _
              (vector_loop-Adds ary f each bvs.bv 0 xs (λ u h bit zs.
                let first : 0 < u = positive_bit bvs is_wild u (omega (arith, is_wild.size)) bit in
                first_byte-Adds (0 + u) sr base zs (omega arith) range))
              (λ ys adds.
                let by_atom =
                  Adds-iff (InVector ary f each bvs.bv 0) (Within ary sr (ByAtom any ps base)) xs ys
                    adds (any_iff f sr base) in
                Ends-bind {P = λ b. b ≡ bvs} (sa_regex_free_all_2nd_char_bv bvs) _
                  (bvs, is_wild.frees, refl)
                  (λ _ _. item_end 46 any optional sr base xs ys range by_atom))

      item-Adds :
          (a : Atom) (sr : SufResult) (base : ℕ) (xs : SaResultList)
          → IsPlain ((a, optional) ∷ ps)
          → IsRange ary base sr
          → Ends
              (match_item ary scan_hex junk go [] sr
                (sign_of a ∷ rest_key optional ps)
                (pos (suc (rest_length optional ps)))
                base
                xs)
              (Adds (Within ary sr (Found ((a, optional) ∷ ps) base)) xs)
      unfolding match_item
      item-Adds any sr base xs h range = any-Adds wild wild-IsWild sr base xs range
      item-Adds (char c) sr base xs (h, _) range =
          char_chosen (λ r. Ends r (Adds (Within ary sr (Found ((char c, optional) ∷ ps) base)) xs))
            c _ _ _ _ _ h (char-Adds c sr base xs h range)

  abbrev sub : ℕ → Again
  sub fuel = sa_regex_sub ary scan_hex junk fuel

  end-Searches : (fuel : ℕ) → 0 < fuel → Searches (sub fuel) [] (key_of []) 0
  unfolding sa_regex_sub
  end-Searches zero h = absurd (omega arith)
  end-Searches (suc fuel) h = λ sr base xs range.
      let (out, ran, adds) =
        sa_regex_store_result-Adds ary sr base xs range.some_entry
          (omega (arith, range.in_array, opened.has_array)) in
      (
        out,
        ran,
        Adds-iff _ (Within ary sr (Found [] base)) xs out adds (λ x. (
          λ (i, p, q, e). (i, p, q, (base, e, refl)),
          λ (i, p, q, (n, e, same)). (i, p, q, rw same at e),
        )),
      )

  rest-Searches :
      (optional : Bool) (ps : Pattern) (fuel : ℕ)
      → length (rest_key optional ps) ≤ fuel
      → ((fuel' : ℕ)
          → length (key_of ps) ≤ fuel'
          → Searches (sub fuel') ps (key_of ps) (key_length ps))
      → Searches (sub fuel) ps (rest_key optional ps) (rest_length optional ps)
  unfolding sa_regex_sub match_item
  rest-Searches false ps fuel h all = all fuel h
  rest-Searches true ps zero h all = absurd (omega arith)
  rest-Searches true ps (suc fuel) h all = λ sr base xs range.
      let more : eq_int 0 (pos (suc (key_length ps))) ≡ false = ground arith in
      let (out, ran, adds) = all fuel (omega arith) sr base xs range in
      rw more (rw (less_by_one (key_length ps)) (out, ran, adds))

  IsPlain-tail : (a : Atom) (o : Bool) (ps : Pattern) → IsPlain ((a, o) ∷ ps) → IsPlain ps
  IsPlain-tail (char c) o ps h = h.1
  IsPlain-tail any o ps h = h

  -- A call for a key that begins with an item.
  some_item :
      (a : Atom) (optional : Bool) (ps : Pattern) (fuel : ℕ)
      → IsPlain ((a, optional) ∷ ps)
      → length (rest_key optional ps) ≤ fuel
      → ((fuel' : ℕ)
          → length (key_of ps) ≤ fuel'
          → Searches (sub fuel') ps (key_of ps) (key_length ps))
      → (sr : SufResult) (base : ℕ) (xs : SaResultList) → IsRange ary base sr
      → Ends
          (sub
            (suc fuel)
            sr
            (sign_of a ∷ rest_key optional ps)
            (pos (suc (rest_length optional ps)))
            base
            xs)
          (Adds (Within ary sr (Found ((a, optional) ∷ ps) base)) xs)
  unfolding sa_regex_sub
  some_item a optional ps fuel plain h all sr base xs range =
      let enough : length (key_of ps) ≤ fuel = length_rest optional ps fuel h in
      let more : eq_int 0 (pos (suc (rest_length optional ps))) ≡ false = ground arith in
      rw more (
        item-Adds (sub fuel) ps (IsPlain-tail a optional ps plain) (all fuel enough) optional
          (rest-Searches optional ps fuel h all) a sr base xs plain range)
    where
      length_rest :
          (o : Bool) (ps : Pattern) (n : ℕ) → length (rest_key o ps) ≤ n → length (key_of ps) ≤ n
      length_rest true ps n h = omega arith
      length_rest false ps n h = h

  pub sa_regex_sub-Adds :
      (ps : Pattern) (fuel : ℕ)
      → IsPlain ps
      → length (key_of ps) ≤ fuel
      → Searches (sub fuel) ps (key_of ps) (key_length ps)
  sa_regex_sub-Adds [] fuel plain h = end-Searches fuel (omega arith)
  sa_regex_sub-Adds ((a, true) ∷ ps) zero plain h = absurd (omega arith)
  sa_regex_sub-Adds ((a, false) ∷ ps) zero plain h = absurd (omega arith)
  sa_regex_sub-Adds ((a, true) ∷ ps) (suc fuel) plain h =
      some_item a true ps fuel plain (omega arith)
        (λ fuel' h'. sa_regex_sub-Adds ps fuel' (IsPlain-tail a true ps plain) h')
  sa_regex_sub-Adds ((a, false) ∷ ps) (suc fuel) plain h =
      some_item a false ps fuel plain (omega arith)
        (λ fuel' h'. sa_regex_sub-Adds ps fuel' (IsPlain-tail a false ps plain) h')

  -- On an opened ASCII text, for a range of ordered entries that is not empty: `sa_regex` ends for
  -- every pattern of characters that are no signs and full stops, each followed by a question mark
  -- or not, and lists exactly the entries of the range whose strings begin with a match, each with
  -- the length of that match.
  pub sa_regex-Adds :
      (ps : Pattern) (left right : ℕ)
      → IsPlain ps
      → left ≤ right
      → right < ary.arraysize
      → IsOrdered ary 0 left right
      → Ends (sa_regex ary scan_hex junk left right (key_of ps) (key_length ps)) (λ out.
        (x : SaResult)
        → Listed x out ↔ (
            (i : ℕ) × (left ≤ i)
            × (i ≤ right)
            × ((n : ℕ) × (x ≡ result_at ary i n) × Matches ary ps 0 i n)))
  unfolding sa_regex
  sa_regex-Adds ps left right plain a b ordered =
      let (out, ran, adds) =
        sa_regex_sub-Adds ps (suc (length (key_of ps))) plain (omega arith)
          (record { left = left; right = right; stat = success }) 0 []
          (record { some_entry = a; in_array = b; ordered = ordered }) in
      (
        out,
        ran,
        λ x. (λ h. elim ((adds x).0 h) [ inl f ↦ elim f [ ] | inr w ↦ w ], λ w. (adds x).1 (inr w)),
      )
