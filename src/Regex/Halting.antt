-- ===== src/Regex/Halting.antt =====
-- The search of lib/regex.c ends on any index and any pattern.
use sufary.Base.{
  Bool, ℕ, zero, suc, ◌+◌, ◌-◌, ◌%◌, ◌^◌, ◌≤◌, ◌<◌, ◌≢◌, true, false, List, [], ◌∷◌, ◌++◌, drop,
  length, length-drop, leb, get_elem?, ◌==◌, ◌&&◌, not, Option, none, some, if◌then◌else◌, arith,
}
use Prim.Native.Nat.{bit_and}
use sufary.Base.Int.{ℤ, pos, above, eq_int, less_by, rounds_to}
use sufary.Base.Run.{Run, done, stop, out_of_fuel, or_fault, ◌>>=◌}
use sufary.Base.Halting.{
  Finishes, finished, Halts, halted, Halts-ne, Finishes-bind, Finishes-if, or_fault-Halts,
  out_of_bounds-Finishes, assertion-Finishes, exit_failure-Finishes,
}
use sufary.File.{Sufary, sa_aryidx2txtidx}
use sufary.Region.{bytes_at}
use sufary.Search.{Stat, success, fail, SufResult, sa_find}
use sufary.Search.Halting.{sa_find-Halts}
use sufary.IndexPoint.{msb_on}
use sufary.Regex.Bits.{
  BitVectors, no_vectors, bit_found, sa_regex_wild_card, sa_regex_free_all_2nd_char_bv, pointer_at,
}
use sufary.Regex.Class.{escape_char, char_of, is_close, sa_regex_character_class}
use sufary.Regex.ClassHalting.{Takes, char_of-Halts, is_close-Halts, class-Takes, free_all-Halts}
use sufary.Regex.Sub.{
  SaResultList, Again, or_assert, store_loop, find_then, without_item, bit_loop, vector_loop,
  second_loop, second_byte, sa_regex_wchar_search, first_byte, match_vectors, escaped, char_len,
  one_char, sa_regex_match_one_char, close_loop, alternative_loop, sa_regex_match_alternation,
  match_item, sa_regex_sub, sa_regex,
}

or_assert-Halts {ℓ} : {A : Type ℓ} (o : Option A) → Halts (or_assert o)
or_assert-Halts none = assertion-Finishes
or_assert-Halts (some a) = halted a

bytes_at-Halts : (text : List ℕ) (p len : ℕ) → Halts (bytes_at text p len)
unfolding bytes_at
bytes_at-Halts text p len =
    Finishes-if (leb (p + len) (length text)) _ _ (λ _. halted _) (λ _. out_of_bounds-Finishes)

by_stat-Halts :
    (st : Stat) (x y : Run SaResultList)
    → Halts x
    → Halts y
    → Halts (elim st [ success ↦ x | fail ↦ y ])
by_stat-Halts success x y h k = h
by_stat-Halts fail x y h k = k

by_test-Halts :
    (b : Bool) (x y : Run SaResultList)
    → Halts x
    → Halts y
    → Halts (elim b [ true ↦ x | false ↦ y ])
by_test-Halts true x y h k = h
by_test-Halts false x y h k = k

-- something that is done for each character
abbrev ForEach : Type 0
ForEach = ℕ → SaResultList → Run SaResultList

module _ (ary : Sufary) (f : ForEach) (each : (t : ℕ) (rl : SaResultList) → Halts (f t rl)) where
  bit_loop-Halts :
      (byte rounds bit_idx t : ℕ) (rl : SaResultList)
      → Halts (bit_loop ary f byte rounds bit_idx t rl)
  unfolding bit_loop
  bit_loop-Halts byte zero bit_idx t rl = halted rl
  bit_loop-Halts byte (suc rounds) bit_idx t rl =
      Finishes-bind _ _
        (Finishes-if (bit_and byte (2 ^ bit_idx) == 0) (done rl) (f t rl) (λ _. halted rl)
          (λ _. each t rl))
        (λ rl' _. bit_loop-Halts byte rounds (bit_idx + 1) (t + 1) rl')

  vector_loop-Halts :
      (bytes : List ℕ) (t : ℕ) (rl : SaResultList) → Halts (vector_loop ary f bytes t rl)
  unfolding vector_loop
  vector_loop-Halts [] t rl = halted rl
  vector_loop-Halts (byte ∷ bytes) t rl =
      Finishes-bind _ _
        (Finishes-if (byte == 0) (done rl) (bit_loop ary f byte 8 0 t rl) (λ _. halted rl)
          (λ _. bit_loop-Halts byte 8 0 t rl))
        (λ rl' _. vector_loop-Halts bytes (t + 8) rl')

  second_loop-Halts : (rounds c12 : ℕ) (rl : SaResultList) → Halts (second_loop ary f rounds c12 rl)
  unfolding second_loop
  second_loop-Halts zero c12 rl = halted rl
  second_loop-Halts (suc rounds) c12 rl =
      Finishes-bind (f c12 rl) _ (each c12 rl) (λ rl' _. second_loop-Halts rounds (c12 + 1) rl')

module _ (ary : Sufary) where
  sa_aryidx2txtidx-Halts : (i : ℕ) → Halts (sa_aryidx2txtidx ary i)
  unfolding sa_aryidx2txtidx
  sa_aryidx2txtidx-Halts i =
      Finishes-bind (or_fault (get_elem? ary.array i)) _ (or_fault-Halts (get_elem? ary.array i))
        (λ w _. halted _)

  store_loop-Halts : (rounds i len : ℕ) (rl : SaResultList) → Halts (store_loop ary rounds i len rl)
  unfolding store_loop
  store_loop-Halts zero i len rl = halted rl
  store_loop-Halts (suc rounds) i len rl =
      Finishes-bind (sa_aryidx2txtidx ary i) _ (sa_aryidx2txtidx-Halts i) (λ value _.
        store_loop-Halts rounds (i + 1) len (rl ++ record { value = value; len = len } ∷ []))

  find_then-Halts :
      (srslt : SufResult) (bytes : List ℕ) (txt_skip : ℕ) (next : SufResult → Run SaResultList)
      (rl : SaResultList)
      → ((sr : SufResult) → Halts (next sr))
      → Halts (find_then ary srslt bytes txt_skip next rl)
  unfolding find_then
  find_then-Halts srslt bytes txt_skip next rl h =
      Finishes-bind (sa_find ary srslt.left srslt.right bytes txt_skip) _
        (sa_find-Halts ary srslt.left srslt.right bytes txt_skip)
        (λ sr _. by_stat-Halts sr.stat (next sr) (done rl) (h sr) (halted rl))

  module _ (scan_hex : List ℕ → Option ℕ) (junk : ℕ) (again : Again) where
    -- Every search for the rest `key` of the pattern ends.
    abbrev Goes : List ℕ → Type 0
    Goes key =
        (srslt : SufResult) (keylen : ℤ) (txt_skip : ℕ) (rl : SaResultList)
        → Halts (again srslt key keylen txt_skip rl)

    second_byte-Halts :
        (sr : SufResult) (txt_skip : ℕ) (key : List ℕ) (keylen : ℤ)
        → Goes key
        → (c : ℕ) (rl : SaResultList)
        → Halts (second_byte ary scan_hex junk again sr txt_skip key keylen c rl)
    unfolding second_byte
    second_byte-Halts sr txt_skip key keylen goes c rl =
        find_then-Halts sr (c ∷ []) (txt_skip + 1) _ rl (λ ssr. goes ssr keylen (txt_skip + 2) rl)

    wchar_search-Halts :
        (c : ℕ) (sr : SufResult) (txt_skip : ℕ) (key : List ℕ) (keylen : ℤ) (bvs : BitVectors)
        (rl : SaResultList)
        → Goes key
        → Halts (sa_regex_wchar_search ary scan_hex junk again c sr txt_skip key keylen bvs rl)
    unfolding sa_regex_wchar_search
    wchar_search-Halts c sr txt_skip key keylen bvs rl goes =
        let f = second_byte ary scan_hex junk again sr txt_skip key keylen in
        let each = second_byte-Halts sr txt_skip key keylen goes in
        Finishes-if (bit_found bvs.has_bv_2nd (c % 128)) _ _
          (λ _.
            Finishes-bind (or_assert (pointer_at bvs (c % 128))) _
              (or_assert-Halts (pointer_at bvs (c % 128)))
              (λ p _. vector_loop-Halts ary f each p 128 rl))
          (λ _. second_loop-Halts ary f each 94 161 rl)

    first_byte-Halts :
        (srslt : SufResult) (txt_skip : ℕ) (key : List ℕ) (keylen : ℤ) (bvs : BitVectors)
        → Goes key
        → (t : ℕ) (rl : SaResultList)
        → Halts (first_byte ary scan_hex junk again srslt txt_skip key keylen bvs t rl)
    unfolding first_byte
    first_byte-Halts srslt txt_skip key keylen bvs goes t rl =
        find_then-Halts srslt (t ∷ []) txt_skip _ rl (λ sr.
          Finishes-if (not (msb_on t)) _ _ (λ _. goes sr keylen (txt_skip + 1) rl)
            (λ _. wchar_search-Halts t sr txt_skip key keylen bvs rl goes))

    -- `key` is not at its end, and every search for a shorter rest ends.
    module _ (key : List ℕ) (shorter : (key' : List ℕ) → length key' < length key → Goes key')
        (more : 0 < length key) where
      drop-Goes : (n : ℕ) → 1 ≤ n → Goes (drop n key)
      drop-Goes n h = shorter (drop n key) (omega (arith, length-drop n key))

      without_item-Halts :
          (srslt : SufResult) (keylen : ℤ) (key_skip txt_skip : ℕ) (rl : SaResultList)
          → Halts (without_item ary again srslt key keylen key_skip txt_skip rl)
      unfolding without_item
      without_item-Halts srslt keylen key_skip txt_skip rl =
          Finishes-bind (char_of key keylen key_skip) _ (char_of-Halts key keylen key_skip) (λ c _.
            Finishes-if (c == 63) _ _
              (λ _.
                drop-Goes (key_skip + 1) (omega arith) srslt (less_by keylen (key_skip + 1))
                  txt_skip rl)
              (λ _. halted rl))

      match_vectors-Halts :
          (srslt : SufResult) (keylen : ℤ) (txt_skip : ℕ) (rl : SaResultList) (r : ℕ × BitVectors)
          → Takes r
          → Halts (match_vectors ary scan_hex junk again srslt key keylen txt_skip rl r)
      unfolding match_vectors
      match_vectors-Halts srslt keylen txt_skip rl (key_skip, bvs) takes =
          let f =
            first_byte ary scan_hex junk again srslt txt_skip (drop key_skip key)
              (less_by keylen key_skip) bvs in
          let each =
            first_byte-Halts srslt txt_skip (drop key_skip key) (less_by keylen key_skip) bvs
              (drop-Goes key_skip takes) in
          Finishes-bind (vector_loop ary f bvs.bv 0 rl) _ (vector_loop-Halts ary f each bvs.bv 0 rl)
            (λ rl' _.
              Finishes-bind (sa_regex_free_all_2nd_char_bv bvs) _ (free_all-Halts bvs)
                (λ freed _. without_item-Halts srslt keylen key_skip txt_skip rl'))

      escaped-Finishes :
          (keylen : ℤ)
          → Finishes (λ (dcc, key_skip). 1 ≤ key_skip) (escaped ary scan_hex junk again key keylen)
      unfolding escaped
      escaped-Finishes keylen =
          Finishes-if (above keylen 1) _ _
            (λ _. Finishes-bind (char_of key keylen 1) _ (char_of-Halts key keylen 1) (λ c _.
              Finishes-if (c == 110) _ _ (λ _. finished (10, 2) (omega arith))
                (λ _.
                  Finishes-if (c == 116) _ _ (λ _. finished (9, 2) (omega arith))
                    (λ _.
                      Finishes-if (c == 120) _ _
                        (λ _.
                          Finishes-bind (or_assert (scan_hex (drop 2 key))) _
                            (or_assert-Halts (scan_hex (drop 2 key)))
                            (λ n _. finished (n % 256, 4) (omega arith)))
                        (λ _. finished (c, 2) (omega arith))))))
            (λ _. finished (junk, 2) (omega arith))

      char_len-Finishes :
          (keylen : ℤ) (c : ℕ)
          → Finishes (λ len. 1 ≤ len) (char_len ary scan_hex junk again key keylen c)
      unfolding char_len
      char_len-Finishes keylen c =
          Finishes-if (msb_on c && above keylen 1) _ _
            (λ _.
              Finishes-bind (char_of key keylen 1) _ (char_of-Halts key keylen 1)
                (λ d _. finished (if msb_on d then 2 else 1) (ground arith)))
            (λ _. finished 1 (omega arith))

      one_char-Finishes :
          (keylen : ℤ)
          → Finishes
              (λ (bytes, key_skip). 1 ≤ key_skip)
              (one_char ary scan_hex junk again key keylen)
      unfolding one_char
      one_char-Finishes keylen =
          Finishes-bind (char_of key keylen 0) _ (char_of-Halts key keylen 0) (λ c _.
            Finishes-bind (char_len ary scan_hex junk again key keylen c) _
              (char_len-Finishes keylen c)
              (λ len long.
                Finishes-if (c == escape_char) _ _
                  (λ _.
                    Finishes-bind (escaped ary scan_hex junk again key keylen) _
                      (escaped-Finishes keylen)
                      (λ (dcc, key_skip) takes. finished (dcc ∷ [], key_skip) takes))
                  (λ _.
                    Finishes-bind (bytes_at key 0 len) _ (bytes_at-Halts key 0 len)
                      (λ bytes _. finished (bytes, len) long))))

      match_one_char-Halts :
          (srslt : SufResult) (keylen : ℤ) (txt_skip : ℕ) (rl : SaResultList)
          → Halts (sa_regex_match_one_char ary scan_hex junk again srslt key keylen txt_skip rl)
      unfolding sa_regex_match_one_char
      match_one_char-Halts srslt keylen txt_skip rl =
          Finishes-bind (one_char ary scan_hex junk again key keylen) _ (one_char-Finishes keylen)
            (λ (bytes, key_skip) takes.
              Finishes-bind _ _
                (find_then-Halts srslt bytes txt_skip
                  (λ sr.
                    again sr (drop key_skip key) (less_by keylen key_skip) (txt_skip + length bytes)
                      rl)
                  rl
                  (λ sr.
                    drop-Goes key_skip takes sr (less_by keylen key_skip) (txt_skip + length bytes)
                      rl))
                (λ rl' _. without_item-Halts srslt keylen key_skip txt_skip rl'))

      close_loop-Halts :
          (keylen : ℤ) (rounds i : ℕ)
          → Halts (close_loop ary scan_hex junk again key keylen rounds i)
      unfolding close_loop
      close_loop-Halts keylen zero i = halted i
      close_loop-Halts keylen (suc rounds) i =
          Finishes-bind (is_close key keylen 41 i) _ (is_close-Halts key keylen 41 i) (λ closes _.
            Finishes-if closes _ _ (λ _. halted i) (λ _. close_loop-Halts keylen rounds (i + 1)))

      alternative_loop-Halts :
          (srslt : SufResult) (keylen : ℤ) (txt_skip key_skip rounds i start : ℕ)
          (rl : SaResultList)
          → 1 ≤ key_skip
          → Halts (
              alternative_loop ary scan_hex junk again srslt key keylen txt_skip key_skip rounds i
                start rl)
      unfolding alternative_loop
      alternative_loop-Halts srslt keylen txt_skip key_skip zero i start rl h = halted rl
      alternative_loop-Halts srslt keylen txt_skip key_skip (suc rounds) i start rl h =
          let len = i - start in
          let next_search = λ (bytes : List ℕ).
            find_then ary srslt bytes txt_skip
              (λ sr. again sr (drop key_skip key) (less_by keylen key_skip) (txt_skip + len) rl)
              rl in
          let search = bytes_at key start len >>= next_search in
          let next =
            Finishes-bind search
              (alternative_loop ary scan_hex junk again srslt key keylen txt_skip key_skip rounds
                (i + 1) (i + 1))
              (Finishes-bind (bytes_at key start len) next_search (bytes_at-Halts key start len)
                (λ bytes _.
                  find_then-Halts srslt bytes txt_skip _ rl
                    (λ sr. drop-Goes key_skip h sr (less_by keylen key_skip) (txt_skip + len) rl)))
              (λ rl' _.
                alternative_loop-Halts srslt keylen txt_skip key_skip rounds (i + 1) (i + 1) rl'
                  h) in
          let skip =
            alternative_loop-Halts srslt keylen txt_skip key_skip rounds (i + 1) start rl h in
          Finishes-bind (is_close key keylen 41 i) _ (is_close-Halts key keylen 41 i) (λ closes _.
            Finishes-bind (is_close key keylen 124 i) _ (is_close-Halts key keylen 124 i)
              (λ bar _. by_test-Halts closes _ _ next (by_test-Halts bar _ _ next skip)))

      match_alternation-Halts :
          (srslt : SufResult) (keylen : ℤ) (txt_skip : ℕ) (rl : SaResultList)
          → Halts (sa_regex_match_alternation ary scan_hex junk again srslt key keylen txt_skip rl)
      unfolding sa_regex_match_alternation
      match_alternation-Halts srslt keylen txt_skip rl =
          Finishes-bind (close_loop ary scan_hex junk again key keylen (rounds_to keylen - 1) 1) _
            (close_loop-Halts keylen (rounds_to keylen - 1) 1)
            (λ i _. Finishes-bind (char_of key keylen i) _ (char_of-Halts key keylen i) (λ c _.
              Finishes-if (not (c == 41)) _ _ (λ _. exit_failure-Finishes)
                (λ _.
                  Finishes-bind
                    (alternative_loop ary scan_hex junk again srslt key keylen txt_skip (i + 1) i 1
                      1 rl)
                    _ (alternative_loop-Halts srslt keylen txt_skip (i + 1) i 1 1 rl (omega arith))
                    (λ rl' _. without_item-Halts srslt keylen (i + 1) txt_skip rl'))))

      match_item-Halts :
          (bv_junk : List ℕ) (srslt : SufResult) (keylen : ℤ) (txt_skip : ℕ) (rl : SaResultList)
          → Halts (match_item ary scan_hex junk again bv_junk srslt key keylen txt_skip rl)
      unfolding match_item
      match_item-Halts bv_junk srslt keylen txt_skip rl =
          let bvs = no_vectors bv_junk in
          Finishes-bind (char_of key keylen 0) _ (char_of-Halts key keylen 0) (λ c _.
            Finishes-if (c == 46) _ _
              (λ _.
                match_vectors-Halts srslt keylen txt_skip rl (1, sa_regex_wild_card bvs)
                  (omega arith))
              (λ _.
                Finishes-if (c == 91) _ _
                  (λ _.
                    Finishes-bind (sa_regex_character_class key keylen bvs) _
                      (class-Takes key keylen bvs)
                      (λ r takes. match_vectors-Halts srslt keylen txt_skip rl r takes))
                  (λ _.
                    Finishes-if (c == 63) _ _
                      (λ _. drop-Goes 1 (omega arith) srslt (less_by keylen 1) txt_skip rl)
                      (λ _.
                        Finishes-if (c == 40) _ _
                          (λ _. match_alternation-Halts srslt keylen txt_skip rl)
                          (λ _. match_one_char-Halts srslt keylen txt_skip rl)))))

  module _ (scan_hex : List ℕ → Option ℕ) (junk : ℕ) where
    item-Halts :
        (again : Again) (key : List ℕ)
        → ((key' : List ℕ) → length key' < length key → Goes scan_hex junk again key')
        → (srslt : SufResult) (keylen : ℤ) (txt_skip : ℕ) (rl : SaResultList)
        → Halts (match_item ary scan_hex junk again [] srslt key keylen txt_skip rl)
    unfolding match_item
    item-Halts again [] shorter srslt keylen txt_skip rl = out_of_bounds-Finishes
    item-Halts again (c ∷ key) shorter srslt keylen txt_skip rl =
        match_item-Halts scan_hex junk again (c ∷ key) shorter (omega arith) [] srslt keylen
          txt_skip rl

    sub-Halts :
        (fuel : ℕ) (key : List ℕ)
        → length key < fuel
        → Goes scan_hex junk (sa_regex_sub ary scan_hex junk fuel) key
    unfolding sa_regex_sub
    sub-Halts zero key f srslt keylen txt_skip rl = absurd (omega arith)
    sub-Halts (suc fuel) key f srslt keylen txt_skip rl =
        Finishes-if (eq_int 0 keylen) _ _
          (λ _. store_loop-Halts (srslt.right + 1 - srslt.left) srslt.left txt_skip rl)
          (λ _.
            item-Halts (sa_regex_sub ary scan_hex junk fuel) key
              (λ key' less. sub-Halts fuel key' (omega arith)) srslt keylen txt_skip rl)

    -- On any index, sorted or not, and for any range and any pattern, well formed or not, the recursion
    -- of `sa_regex` and the searches in it come to an end: it returns, or ends with one of the faults of
    -- the program, and never for want of fuel.
    pub sa_regex-ne-out_of_fuel :
        (left right : ℕ) (key : List ℕ) (keylen : ℕ)
        → sa_regex ary scan_hex junk left right key keylen ≢ stop out_of_fuel
    unfolding sa_regex
    sa_regex-ne-out_of_fuel left right key keylen =
        Halts-ne (sa_regex ary scan_hex junk left right key keylen) (
          sub-Halts (suc (length key)) key (omega arith)
            (record { left = left; right = right; stat = success }) (pos keylen) 0 [])
