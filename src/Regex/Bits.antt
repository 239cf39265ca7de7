-- ===== src/Regex/Bits.antt =====
-- The bit vectors of lib/regex.c: which characters an item of a pattern matches.
use Prim.Native.Nat.{bit_and, bit_or}
use sufary.Base.{
  ℕ, zero, suc, ◌+◌, ◌-◌, ◌*◌, ◌/◌, ◌%◌, ◌^◌, Bool, List, [], ◌∷◌, get_or, set, ◌==◌, not,
  if◌then◌else◌, Option, none, some,
}
use sufary.Base.Run.{Run, done, stop, assertion, out_of_bounds, ◌>>=◌}

-- A bit index is an unsigned char. `BITVECTOR[i >> 3] |= 1 << (i & 7)`
unfoldable pub bit_set : List ℕ → ℕ → List ℕ
bit_set bv i = set bv (i / 8) (bit_or (get_or bv (i / 8) 0) (2 ^ (i % 8)))

-- the complement of a byte
abbrev pub flip : ℕ → ℕ
flip b = 255 - b

unfoldable pub bit_unset : List ℕ → ℕ → List ℕ
bit_unset bv i = set bv (i / 8) (bit_and (get_or bv (i / 8) 0) (flip (2 ^ (i % 8))))

unfoldable pub bit_found : List ℕ → ℕ → Bool
bit_found bv i = not (bit_and (get_or bv (i / 8) 0) (2 ^ (i % 8)) == 0)

-- `bitvector[i] |= mask`, the mask cut to a byte
unfoldable pub or_into : List ℕ → ℕ → ℕ → List ℕ
or_into bv i mask = set bv i (bit_or (get_or bv i 0) (mask % 256))

-- the loop `for (i = start_char + 1; i < stop_char; i++)`, with `rounds` left
unfoldable pub fill_loop : ℕ → ℕ → List ℕ → List ℕ
fill_loop zero i bv = bv
fill_loop (suc rounds) i bv = fill_loop rounds (i + 1) (set bv i 255)

unfoldable pub bit_multi_set : List ℕ → ℕ → ℕ → List ℕ
unfolding or_into fill_loop
bit_multi_set bv start end =
    let start_char = start / 8 in
    let stop_char = end / 8 in
    let from_start = 255 * 2 ^ (start % 8) in
    let to_stop = 255 / 2 ^ (7 - end % 8) in
    if start_char == stop_char
    then or_into bv start_char (bit_and from_start to_stop)
    else or_into
        (or_into (fill_loop (stop_char - (start_char + 1)) (start_char + 1) bv) start_char
          from_start)
        stop_char to_stop

-- BIT_VECTORS. `none` is a pointer that is not set, or whose block is freed.
pub record BitVectors : Type 0 where
  pub bv : List ℕ
  pub has_bv_2nd : List ℕ
  pub bvs_2nd : List (Option (List ℕ))

unfoldable pub replicate {ℓ} : {A : Type ℓ} → ℕ → A → List A
replicate zero a = []
replicate (suc n) a = a ∷ replicate n a

abbrev pub pointer_at : BitVectors → ℕ → Option (List ℕ)
pointer_at bvs i = get_or bvs.bvs_2nd i none

-- How `sa_regex_sub` finds them: `has_bv_2nd` is cleared, the rest is not initialised.
unfoldable pub no_vectors : List ℕ → BitVectors
unfolding replicate
no_vectors junk = record { bv = junk; has_bv_2nd = replicate 16 0; bvs_2nd = replicate 128 none }

-- `free(bvs->bvs_2nd[i])`
unfoldable pub free_vector : ℕ → BitVectors → Run BitVectors
free_vector i bvs = elim (pointer_at bvs i) [
  | none ↦ stop out_of_bounds
  | some _ ↦ done (record bvs { bvs_2nd = set bvs.bvs_2nd i none })
]

-- The loops of `sa_regex_free_all_2nd_char_bv`, over the bits that are left; a byte of zeros, which
-- the code skips, has none to free.
unfoldable pub free_loop : ℕ → ℕ → BitVectors → Run BitVectors
unfolding free_vector bit_found
free_loop zero t bvs = done bvs
free_loop (suc rounds) t bvs =
    let freed = free_vector t bvs >>= free_loop rounds (t + 1) in
    let kept = free_loop rounds (t + 1) bvs in if bit_found bvs.has_bv_2nd t then freed else kept

unfoldable pub sa_regex_free_all_2nd_char_bv : BitVectors → Run BitVectors
unfolding free_loop
sa_regex_free_all_2nd_char_bv bvs = free_loop 128 0 bvs

-- The end of `sa_regex_set_bits`, with the vector that was found or made.
unfoldable pub set_second : ℕ → ℕ → ℕ → BitVectors → Run BitVectors
unfolding bit_multi_set
set_second uc7 from to bvs = elim (pointer_at bvs uc7) [
  | none ↦ stop assertion
  | some p ↦ done (record bvs {
    bvs_2nd = set bvs.bvs_2nd uc7 (some (bit_multi_set p (from % 128) (to % 128)));
  })
]

-- A new vector of zeros for the second byte. `malloc` is taken to succeed, as the code takes it.
unfoldable pub make_second : ℕ → BitVectors → BitVectors
unfolding bit_set replicate
make_second uc bvs = record {
  bv = bit_set bvs.bv uc;
  has_bv_2nd = bit_set bvs.has_bv_2nd (uc % 128);
  bvs_2nd = set bvs.bvs_2nd (uc % 128) (some (replicate 16 0));
}

unfoldable pub sa_regex_set_bits : ℕ → ℕ → ℕ → BitVectors → Run BitVectors
unfolding bit_found set_second make_second
sa_regex_set_bits uc from to bvs =
    if bit_found bvs.has_bv_2nd (uc % 128)
    then set_second (uc % 128) from to bvs
    else if not (bit_found bvs.bv uc)
    then set_second (uc % 128) from to (make_second uc bvs)
    else done bvs

-- `~` of each byte of a vector
abbrev pub flip_all : List ℕ → List ℕ
flip_all [] = []
flip_all (b ∷ bs) = flip b ∷ flip_all bs

-- the first loop of `sa_regex_negate_character_class`
unfoldable pub flip_loop : ℕ → ℕ → List ℕ → List ℕ
flip_loop zero c_idx bv = bv
flip_loop (suc rounds) c_idx bv =
    flip_loop rounds (c_idx + 1) (set bv c_idx (flip (get_or bv c_idx 0)))

unfoldable pub flip_second : ℕ → BitVectors → Run BitVectors
flip_second uc7 bvs = elim (pointer_at bvs uc7) [
  | none ↦ stop assertion
  | some p ↦ done (record bvs { bvs_2nd = set bvs.bvs_2nd uc7 (some (flip_all p)) })
]

-- `bvs->bv[c_idx] ^= (1 << bit_idx)`
unfoldable pub flip_bit : ℕ → List ℕ → List ℕ
unfolding bit_found bit_unset bit_set
flip_bit t bv = if bit_found bv t then bit_unset bv t else bit_set bv t

-- One round over `bit_idx`, for a byte of `bv` that is not 0: a character with a vector of its own
-- has that negated, any other its bit.
unfoldable pub negate_bit : ℕ → BitVectors → Run BitVectors
unfolding bit_found flip_second flip_bit
negate_bit t bvs =
    if bit_found bvs.has_bv_2nd (t - 128)
    then flip_second (t % 128) bvs
    else done (record bvs { bv = flip_bit t bvs.bv })

unfoldable pub negate_bits : ℕ → ℕ → BitVectors → Run BitVectors
unfolding negate_bit
negate_bits zero t bvs = done bvs
negate_bits (suc rounds) t bvs = negate_bit t bvs >>= negate_bits rounds (t + 1)

-- the second loop
unfoldable pub negate_loop : ℕ → ℕ → BitVectors → Run BitVectors
unfolding negate_bits
negate_loop zero c_idx bvs = done bvs
negate_loop (suc rounds) c_idx bvs =
    let byte =
      if get_or bvs.bv c_idx 0 == 0
      then done (record bvs { bv = set bvs.bv c_idx 255 })
      else negate_bits 8 (c_idx * 8) bvs in
    byte >>= negate_loop rounds (c_idx + 1)

unfoldable pub sa_regex_negate_character_class : BitVectors → Run BitVectors
unfolding flip_loop bit_unset negate_loop
sa_regex_negate_character_class bvs =
    negate_loop 16 16 (record bvs { bv = bit_unset (bit_unset (flip_loop 16 0 bvs.bv) 0) 10 })

-- The result is `bvs`; the function returns 1, the length of the item.
unfoldable pub sa_regex_wild_card : BitVectors → BitVectors
unfolding bit_unset replicate
sa_regex_wild_card bvs = record bvs { bv = bit_unset (bit_unset (replicate 32 255) 0) 10 }
