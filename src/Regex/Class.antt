-- ===== src/Regex/Class.antt =====
-- `sa_regex_character_class` of lib/regex.c: the characters that an item like [a-z] matches.
use sufary.Base.{
  ℕ, zero, suc, ◌+◌, ◌-◌, ◌%◌, Bool, true, false, List, get_elem?, leb, ◌==◌, ◌&&◌, not,
  if◌then◌else◌,
}
use sufary.Base.Int.{ℤ, above, rounds_to}
use sufary.Base.Run.{Run, done, stop, out_of_fuel, exit_failure, or_fault, ◌>>=◌}
use sufary.IndexPoint.{msb_on}
use sufary.Regex.Bits.{
  BitVectors, bit_set, bit_unset, bit_found, free_vector, sa_regex_set_bits, replicate,
  sa_regex_negate_character_class,
}

abbrev pub escape_char : ℕ
escape_char = 92

-- `for (ri = key[i - 1]; ri <= key[i + 1]; ri++)`, with `rounds` left
unfoldable pub set_range : ℕ → ℕ → List ℕ → List ℕ
unfolding bit_set
set_range zero ri bv = bv
set_range (suc rounds) ri bv = set_range rounds (ri + 1) (bit_set bv ri)

-- `ri` is an unsigned char, and its bound a signed one: one with the highest bit set is negative.
abbrev pub range_rounds : ℕ → ℕ → ℕ
range_rounds from to = if leb 128 to then 0 else to + 1 - from

-- one round of the loop that is marked ALL BIT ON
unfoldable pub all_bit_on : ℕ → BitVectors → Run BitVectors
unfolding bit_found free_vector bit_unset bit_set
all_bit_on c_idx bvs =
    let unset =
      λ (b : BitVectors). done (record b { has_bv_2nd = bit_unset b.has_bv_2nd (c_idx % 128) }) in
    if bit_found bvs.has_bv_2nd (c_idx % 128)
    then free_vector (c_idx % 128) bvs >>= unset
    else done (record bvs { bv = bit_set bvs.bv c_idx })

unfoldable pub all_on_loop : ℕ → ℕ → BitVectors → Run BitVectors
unfolding all_bit_on
all_on_loop zero c_idx bvs = done bvs
all_on_loop (suc rounds) c_idx bvs = all_bit_on c_idx bvs >>= all_on_loop rounds (c_idx + 1)

-- The two characters of two bytes of a range. `c_idx` is an unsigned char.
unfoldable pub wide_range : ℕ → ℕ → ℕ → ℕ → BitVectors → Run BitVectors
unfolding sa_regex_set_bits all_on_loop
wide_range c11 c12 c21 c22 bvs =
    let first = (c11 + 1) % 256 in
    let apart = sa_regex_set_bits c11 c12 0xff bvs >>= λ bvs'.
    sa_regex_set_bits c21 0 c22 bvs' >>= all_on_loop (c21 - first) first in
    if c11 == c21 then sa_regex_set_bits c11 c12 c22 bvs else apart

module _ (key : List ℕ) (keylen : ℤ) where
  -- `key[i]`, which ends the run behind the zero byte that ends the key
  abbrev pub char_of : ℕ → Run ℕ
  char_of i = or_fault (get_elem? key i)

  -- Whether a range of two-byte characters begins at `i`.
  unfoldable pub is_wide_range : ℕ → Run Bool
  is_wide_range i =
      if above keylen (i + 4) then (do c ← char_of (i + 2); done (c == 45)) else done false

  -- A character of two bytes, or a range of them, from `i` on; the number of bytes that it takes.
  unfoldable pub wide_item : ℕ → BitVectors → Run (ℕ × BitVectors)
  unfolding is_wide_range wide_range sa_regex_set_bits
  wide_item i bvs = do
    c11 ← char_of i
    c12 ← char_of (i + 1)
    is_range ← is_wide_range i
    let range = char_of (i + 3) >>= λ c21.
        char_of (i + 4) >>= λ c22. wide_range c11 c12 c21 c22 bvs >>= λ bvs'. done (5, bvs')
    let single = sa_regex_set_bits c11 c12 c12 bvs >>= λ bvs'. done (2, bvs')
    if is_range then range else single

  -- What follows the tests for `^` and for the end.
  unfoldable pub class_item : ℕ → ℕ → BitVectors → Run (ℕ × BitVectors)
  unfolding set_range bit_set wide_item
  class_item i c bvs =
      let range = char_of (i - 1) >>= λ from. char_of (i + 1) >>= λ to.
      done (2, record bvs { bv = set_range (range_rounds from to) from bvs.bv }) in
      if c == 45 && above keylen (i + 1)
      then range
      else if not (msb_on c)
      then done (1, record bvs { bv = bit_set bvs.bv c })
      else wide_item i bvs

  -- `key[i] == c && i >= 2 && key[i - 1] != ESCAPE_CHAR`
  unfoldable pub is_close : ℕ → ℕ → Run Bool
  is_close close i = do
    c ← char_of i
    let before = char_of (i - 1) >>= λ b. done (not (b == escape_char))
    if c == close && leb 2 i then before else done false

  -- The loop, with fuel: where it ends, and whether the class is negated.
  unfoldable pub class_loop : ℕ → ℕ → Bool → BitVectors → Run (ℕ × Bool × BitVectors)
  unfolding is_close class_item
  class_loop zero i not_op bvs = stop out_of_fuel
  class_loop (suc fuel) i not_op bvs = elim (above keylen i) [
    | false ↦ done (i, not_op, bvs)
    | true ↦ do
      c ← char_of i
      ends ← is_close 93 i
      let item = class_item i c bvs >>= λ (n, bvs'). class_loop fuel (i + n) not_op bvs'
      let negated = class_loop fuel (i + 1) true bvs
      if i == 1 && c == 94 then negated else (if ends then done (i, not_op, bvs) else item)
  ]

  -- The result is the length of the item, and the vectors. An item without an end stops the program.
  unfoldable pub sa_regex_character_class : BitVectors → Run (ℕ × BitVectors)
  unfolding class_loop replicate sa_regex_negate_character_class
  sa_regex_character_class bvs = do
    (i, not_op, bvs') ←
        class_loop (suc (rounds_to keylen)) 1 false (record bvs { bv = replicate 32 0 })
    c ← char_of i
    let negated = sa_regex_negate_character_class bvs' >>= λ b. done (i + 1, b)
    let result = if not_op then negated else done (i + 1, bvs')
    if c == 93 then result else stop exit_failure
