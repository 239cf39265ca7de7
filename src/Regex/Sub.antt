-- ===== src/Regex/Sub.antt =====
-- The search of lib/regex.c: one item of a pattern after the other narrows the range of the index,
-- as in a trie.
use Prim.Native.Nat.{bit_and}
use sufary.Base.{
  ℕ, zero, suc, ◌+◌, ◌-◌, ◌%◌, ◌^◌, true, false, List, [], ◌∷◌, ◌++◌, drop, length, ◌==◌, ◌&&◌, not,
  Option, none, some, if◌then◌else◌,
}
use sufary.Base.Int.{ℤ, pos, above, eq_int, less_by, rounds_to}
use sufary.Base.Run.{Run, done, stop, assertion, out_of_fuel, exit_failure, ◌>>=◌}
use sufary.File.{Sufary, sa_aryidx2txtidx}
use sufary.Region.{bytes_at}
use sufary.Search.{success, fail, SufResult, sa_find}
use sufary.IndexPoint.{msb_on}
use sufary.Regex.Bits.{
  BitVectors, no_vectors, bit_found, sa_regex_wild_card, sa_regex_free_all_2nd_char_bv, pointer_at,
}
use sufary.Regex.Class.{escape_char, char_of, is_close, sa_regex_character_class}

-- SA_RESULT_LIST. The module's pointer to the last item serves to add one behind it.
pub record SaResult : Type 0 where
  pub value : ℕ
  pub len : ℕ

abbrev pub SaResultList : Type 0
SaResultList = List SaResult

-- How a search goes on: on a range of entries, with what is left of the key, its length, the
-- characters of the text that are matched, and the results so far.
abbrev pub Again : Type 0
Again = SufResult → List ℕ → ℤ → ℕ → SaResultList → Run SaResultList

-- what an assertion finds not to be NULL, or not to be 0
abbrev pub or_assert {ℓ} : {A : Type ℓ} → Option A → Run A
or_assert none = stop assertion
or_assert (some a) = done a

-- the tests of `sa_regex_sub` for `.`, `[`, `?` and `(`
abbrev pub by_char {ℓ} : {A : Type ℓ} → ℕ → A → A → A → A → A → A
by_char c wild class question alternation char =
    if c == 46
    then wild
    else if c == 91
    then class
    else if c == 63
    then question
    else if c == 40
    then alternation
    else char

module _ (ary : Sufary) where
  -- The loop of `sa_regex_store_result`, with `rounds` left.
  unfoldable pub store_loop : ℕ → ℕ → ℕ → SaResultList → Run SaResultList
  unfolding sa_aryidx2txtidx
  store_loop zero result_idx len result_list = done result_list
  store_loop (suc rounds) result_idx len result_list = do
    value ← sa_aryidx2txtidx ary result_idx
    store_loop rounds (result_idx + 1) len (result_list ++ record { value = value; len = len } ∷ [])

  unfoldable pub sa_regex_store_result : SufResult → ℕ → SaResultList → Run SaResultList
  unfolding store_loop
  sa_regex_store_result sr found_str_len result_list =
      store_loop (sr.right + 1 - sr.left) sr.left found_str_len result_list

  -- A search for the bytes, and what follows if they are found.
  unfoldable pub find_then :
      SufResult → List ℕ → ℕ → (SufResult → Run SaResultList) → SaResultList → Run SaResultList
  unfolding sa_find
  find_then srslt bytes txt_skip next result_list = do
    sr ← sa_find ary srslt.left srslt.right bytes txt_skip
    elim sr.stat [ success ↦ next sr | fail ↦ done result_list ]

  -- `key[key_skip] == '?'`: the item may also be left out.
  unfoldable pub without_item :
      Again → SufResult → List ℕ → ℤ → ℕ → ℕ → SaResultList → Run SaResultList
  without_item again srslt key keylen key_skip txt_skip result_list = do
    c ← char_of key keylen key_skip
    let without =
        again srslt (drop (key_skip + 1) key) (less_by keylen (key_skip + 1)) txt_skip result_list
    if c == 63 then without else done result_list

  -- The bits of one byte of a vector, from `t` on.
  unfoldable pub bit_loop :
      (ℕ → SaResultList → Run SaResultList) → ℕ → ℕ → ℕ → ℕ → SaResultList → Run SaResultList
  bit_loop f byte zero bit_idx t result_list = done result_list
  bit_loop f byte (suc rounds) bit_idx t result_list = do
    let found = bit_and byte (2 ^ bit_idx)
    result_list' ← if found == 0 then done result_list else f t result_list
    bit_loop f byte rounds (bit_idx + 1) (t + 1) result_list'

  -- The loop over the bytes of a vector: `f` is done for each character of it, in order.
  unfoldable pub vector_loop :
      (ℕ → SaResultList → Run SaResultList) → List ℕ → ℕ → SaResultList → Run SaResultList
  unfolding bit_loop
  vector_loop f [] t result_list = done result_list
  vector_loop f (byte ∷ bytes) t result_list = do
    let each = bit_loop f byte 8 0 t result_list
    result_list' ← if byte == 0 then done result_list else each
    vector_loop f bytes (t + 8) result_list'

  -- The loop over all second bytes, 0xA1 to 0xFE.
  unfoldable pub second_loop :
      (ℕ → SaResultList → Run SaResultList) → ℕ → ℕ → SaResultList → Run SaResultList
  second_loop f zero c12 result_list = done result_list
  second_loop f (suc rounds) c12 result_list = f c12 result_list >>= second_loop f rounds (c12 + 1)

  -- `again` is `sa_regex_sub`. `scan_hex` is what `sscanf` makes of the text behind `\x`: the number,
  -- or `none` where it reads none. `junk` is what an unset variable holds.
  module _ (scan_hex : List ℕ → Option ℕ) (junk : ℕ) (again : Again) where
    -- What is done with a second byte.
    unfoldable pub second_byte : SufResult → ℕ → List ℕ → ℤ → ℕ → SaResultList → Run SaResultList
    unfolding find_then
    second_byte sr txt_skip key keylen c result_list =
        find_then sr (c ∷ []) (txt_skip + 1)
          (λ ssr. again ssr key keylen (txt_skip + 2) result_list) result_list

    -- `key` and `keylen` are those behind the item.
    unfoldable pub sa_regex_wchar_search :
        ℕ → SufResult → ℕ → List ℕ → ℤ → BitVectors → SaResultList → Run SaResultList
    unfolding bit_found second_byte vector_loop second_loop
    sa_regex_wchar_search first_char sr txt_skip key keylen bvs result_list =
        let own = or_assert (pointer_at bvs (first_char % 128)) >>= λ p.
        vector_loop (second_byte sr txt_skip key keylen) p 128 result_list in
        let all = second_loop (second_byte sr txt_skip key keylen) 94 0xa1 result_list in
        if bit_found bvs.has_bv_2nd (first_char % 128) then own else all

    -- What is done with a character of the item's vector.
    unfoldable pub first_byte :
        SufResult → ℕ → List ℕ → ℤ → BitVectors → ℕ → SaResultList → Run SaResultList
    unfolding find_then sa_regex_wchar_search
    first_byte srslt txt_skip key keylen bvs t result_list =
        find_then srslt (t ∷ []) txt_skip
          (λ sr.
            if not (msb_on t)
            then again sr key keylen (txt_skip + 1) result_list
            else sa_regex_wchar_search t sr txt_skip key keylen bvs result_list)
          result_list

    -- The end of `sa_regex_sub`, for an item of `key_skip` bytes with its vectors.
    unfoldable pub match_vectors :
        SufResult → List ℕ → ℤ → ℕ → SaResultList → ℕ × BitVectors → Run SaResultList
    unfolding first_byte vector_loop sa_regex_free_all_2nd_char_bv without_item
    match_vectors srslt key keylen txt_skip result_list (key_skip, bvs) = do
      result_list' ←
          vector_loop (first_byte srslt txt_skip (drop key_skip key) (less_by keylen key_skip) bvs)
            bvs.bv 0 result_list
      freed ← sa_regex_free_all_2nd_char_bv bvs
      without_item again srslt key keylen key_skip txt_skip result_list'

    -- The character behind the escape character, and the length of the item.
    unfoldable pub escaped : List ℕ → ℤ → Run (ℕ × ℕ)
    escaped key keylen =
        let hex = or_assert (scan_hex (drop 2 key)) >>= λ n. done (n % 256, 4) in
        let other = char_of key keylen 1 >>= λ c.
        if c == 110
        then done (10, 2)
        else (if c == 116 then done (9, 2) else (if c == 120 then hex else done (c, 2))) in
        if above keylen 1 then other else done (junk, 2)

    -- the number of bytes of the character at the head of the key
    unfoldable pub char_len : List ℕ → ℤ → ℕ → Run ℕ
    char_len key keylen c =
        let second = char_of key keylen 1 >>= λ d. done (if msb_on d then 2 else 1) in
        if msb_on c && above keylen 1 then second else done 1

    -- `sa_regex_match_one_char`: the bytes to search for, and the length of the item.
    unfoldable pub one_char : List ℕ → ℤ → Run (List ℕ × ℕ)
    unfolding escaped char_len bytes_at
    one_char key keylen = do
      c ← char_of key keylen 0
      len ← char_len key keylen c
      let decoded = escaped key keylen >>= λ (dcc, key_skip). done (dcc ∷ [], key_skip)
      let plain = bytes_at key 0 len >>= λ bytes. done (bytes, len)
      if c == escape_char then decoded else plain

    unfoldable pub sa_regex_match_one_char :
        SufResult → List ℕ → ℤ → ℕ → SaResultList → Run SaResultList
    unfolding one_char find_then without_item
    sa_regex_match_one_char srslt key keylen txt_skip result_list = do
      (bytes, key_skip) ← one_char key keylen
      result_list' ←
          find_then srslt bytes txt_skip
            (λ sr.
              again sr (drop key_skip key) (less_by keylen key_skip) (txt_skip + length bytes)
                result_list)
            result_list
      without_item again srslt key keylen key_skip txt_skip result_list'

    -- The first loop of `sa_regex_match_alternation`, with `rounds` left: where the parenthesis is.
    unfoldable pub close_loop : List ℕ → ℤ → ℕ → ℕ → Run ℕ
    unfolding is_close
    close_loop key keylen zero i = done i
    close_loop key keylen (suc rounds) i = do
      closes ← is_close key keylen 41 i
      let rest = close_loop key keylen rounds (i + 1)
      if closes then done i else rest

    -- The second loop, with `rounds` left; `start` is where an alternative begins.
    unfoldable pub alternative_loop :
        SufResult → List ℕ → ℤ → ℕ → ℕ → ℕ → ℕ → ℕ → SaResultList → Run SaResultList
    unfolding is_close find_then bytes_at
    alternative_loop srslt key keylen txt_skip key_skip zero i start result_list = done result_list
    alternative_loop srslt key keylen txt_skip key_skip (suc rounds) i start result_list = do
      closes ← is_close key keylen 41 i
      bar ← is_close key keylen 124 i
      let len = i - start
      let search = bytes_at key start len >>= λ bytes.
          find_then srslt bytes txt_skip
            (λ sr.
              again sr (drop key_skip key) (less_by keylen key_skip) (txt_skip + len) result_list)
            result_list
      let next = search >>= λ result_list'.
          alternative_loop srslt key keylen txt_skip key_skip rounds (i + 1) (i + 1) result_list'
      let skip =
          alternative_loop srslt key keylen txt_skip key_skip rounds (i + 1) start result_list
      elim closes [ true ↦ next | false ↦ elim bar [ true ↦ next | false ↦ skip ] ]

    unfoldable pub sa_regex_match_alternation :
        SufResult → List ℕ → ℤ → ℕ → SaResultList → Run SaResultList
    unfolding close_loop alternative_loop without_item
    sa_regex_match_alternation srslt key keylen txt_skip result_list = do
      i ← close_loop key keylen (rounds_to keylen - 1) 1
      c ← char_of key keylen i
      let key_skip = i + 1
      let search =
          alternative_loop srslt key keylen txt_skip key_skip i 1 1 result_list
          >>= without_item again srslt key keylen key_skip txt_skip
      if not (c == 41) then stop exit_failure else search

    -- The body of `sa_regex_sub` for a key that is not at its end, by its first character.
    unfoldable pub match_item :
        List ℕ → SufResult → List ℕ → ℤ → ℕ → SaResultList → Run SaResultList
    unfolding match_vectors sa_regex_wild_card sa_regex_character_class sa_regex_match_alternation
        sa_regex_match_one_char no_vectors
    match_item bv_junk srslt key keylen txt_skip result_list = do
      c ← char_of key keylen 0
      let wild =
          match_vectors srslt key keylen txt_skip result_list
            (1, sa_regex_wild_card (no_vectors bv_junk))
      let class =
          sa_regex_character_class key keylen (no_vectors bv_junk)
          >>= match_vectors srslt key keylen txt_skip result_list
      let question = again srslt (drop 1 key) (less_by keylen 1) txt_skip result_list
      let alternation = sa_regex_match_alternation srslt key keylen txt_skip result_list
      let char = sa_regex_match_one_char srslt key keylen txt_skip result_list
      by_char c wild class question alternation char

  -- `sa_regex_sub`, with fuel: each call is given a shorter key.
  unfoldable pub sa_regex_sub : (List ℕ → Option ℕ) → ℕ → ℕ → Again
  unfolding match_item sa_regex_store_result
  sa_regex_sub scan_hex junk zero srslt key keylen txt_skip result_list = stop out_of_fuel
  sa_regex_sub scan_hex junk (suc fuel) srslt key keylen txt_skip result_list =
      let item =
        match_item scan_hex junk (sa_regex_sub scan_hex junk fuel) [] srslt key keylen txt_skip
          result_list in
      if eq_int 0 keylen then sa_regex_store_result srslt txt_skip result_list else item

  -- `key` is what can be read of the key: its bytes, and the zero behind them.
  unfoldable pub sa_regex : (List ℕ → Option ℕ) → ℕ → ℕ → ℕ → List ℕ → ℕ → Run SaResultList
  unfolding sa_regex_sub
  sa_regex scan_hex junk left right key keylen =
      sa_regex_sub scan_hex junk (suc (length key))
        (record { left = left; right = right; stat = success }) key (pos keylen) 0 []
