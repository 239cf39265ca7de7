-- ===== src/Regex/ClassHalting.antt =====
-- The items of lib/regex.c that are read from the key end, whatever the key is.
use sufary.Base.{
  ℕ, zero, suc, ◌+◌, ◌-◌, ◌*◌, ◌%◌, ◌≤◌, ◌<◌, ◌≡◌, Bool, true, false, Bool-cases, inl, inr, List,
  get_elem?, get_or, set, leb, ◌==◌, ◌&&◌, not, Option, none, some, arith,
}
use sufary.Base.Int.{ℤ, pos, negsuc, above, rounds_to}
use sufary.Base.Run.{Run, done}
use sufary.Base.Halting.{
  Finishes, finished, Halts, halted, Finishes-bind, Finishes-if, or_fault-Halts,
  out_of_bounds-Finishes, assertion-Finishes, exit_failure-Finishes,
}
use sufary.IndexPoint.{msb_on}
use sufary.Regex.Bits.{
  BitVectors, bit_unset, bit_found, pointer_at, free_vector, free_loop,
  sa_regex_free_all_2nd_char_bv, set_second, make_second, sa_regex_set_bits, flip_loop, flip_second,
  negate_bit, negate_bits, negate_loop, sa_regex_negate_character_class, replicate,
}
use sufary.Regex.Class.{
  all_bit_on, all_on_loop, wide_range, char_of, is_wide_range, wide_item, class_item, is_close,
  class_loop, sa_regex_character_class,
}

-- what is done with a pointer, if it is set
by_pointer-Halts :
    (o : Option (List ℕ)) (x : Run BitVectors) (f : List ℕ → Run BitVectors)
    → Halts x
    → ((p : List ℕ) → Halts (f p))
    → Halts (elim o [ none ↦ x | some p ↦ f p ])
by_pointer-Halts none x f h k = h
by_pointer-Halts (some p) x f h k = k p

free_vector-Halts : (i : ℕ) (bvs : BitVectors) → Halts (free_vector i bvs)
unfolding free_vector
free_vector-Halts i bvs =
    by_pointer-Halts (pointer_at bvs i) _ _ out_of_bounds-Finishes (λ _. halted _)

free_loop-Halts : (rounds t : ℕ) (bvs : BitVectors) → Halts (free_loop rounds t bvs)
unfolding free_loop
free_loop-Halts zero t bvs = halted bvs
free_loop-Halts (suc rounds) t bvs =
    Finishes-if (bit_found bvs.has_bv_2nd t) _ _
      (λ _.
        Finishes-bind (free_vector t bvs) _ (free_vector-Halts t bvs)
          (λ b _. free_loop-Halts rounds (t + 1) b))
      (λ _. free_loop-Halts rounds (t + 1) bvs)

pub free_all-Halts : (bvs : BitVectors) → Halts (sa_regex_free_all_2nd_char_bv bvs)
unfolding sa_regex_free_all_2nd_char_bv
free_all-Halts bvs = free_loop-Halts 128 0 bvs

set_second-Halts : (uc7 from to : ℕ) (bvs : BitVectors) → Halts (set_second uc7 from to bvs)
unfolding set_second
set_second-Halts uc7 from to bvs =
    by_pointer-Halts (pointer_at bvs uc7) _ _ assertion-Finishes (λ _. halted _)

set_bits-Halts : (uc from to : ℕ) (bvs : BitVectors) → Halts (sa_regex_set_bits uc from to bvs)
unfolding sa_regex_set_bits
set_bits-Halts uc from to bvs =
    Finishes-if (bit_found bvs.has_bv_2nd (uc % 128)) _ _
      (λ _. set_second-Halts (uc % 128) from to bvs)
      (λ _.
        Finishes-if (not (bit_found bvs.bv uc)) _ _
          (λ _. set_second-Halts (uc % 128) from to (make_second uc bvs)) (λ _. halted bvs))

flip_second-Halts : (uc7 : ℕ) (bvs : BitVectors) → Halts (flip_second uc7 bvs)
unfolding flip_second
flip_second-Halts uc7 bvs =
    by_pointer-Halts (pointer_at bvs uc7) _ _ assertion-Finishes (λ _. halted _)

negate_bit-Halts : (t : ℕ) (bvs : BitVectors) → Halts (negate_bit t bvs)
unfolding negate_bit
negate_bit-Halts t bvs =
    Finishes-if (bit_found bvs.has_bv_2nd (t - 128)) _ _ (λ _. flip_second-Halts (t % 128) bvs)
      (λ _. halted _)

negate_bits-Halts : (rounds t : ℕ) (bvs : BitVectors) → Halts (negate_bits rounds t bvs)
unfolding negate_bits
negate_bits-Halts zero t bvs = halted bvs
negate_bits-Halts (suc rounds) t bvs =
    Finishes-bind (negate_bit t bvs) _ (negate_bit-Halts t bvs)
      (λ b _. negate_bits-Halts rounds (t + 1) b)

negate_loop-Halts : (rounds c_idx : ℕ) (bvs : BitVectors) → Halts (negate_loop rounds c_idx bvs)
unfolding negate_loop
negate_loop-Halts zero c_idx bvs = halted bvs
negate_loop-Halts (suc rounds) c_idx bvs =
    Finishes-bind _ _
      (Finishes-if (get_or bvs.bv c_idx 0 == 0) (done (record bvs { bv = set bvs.bv c_idx 255 }))
        (negate_bits 8 (c_idx * 8) bvs) (λ _. halted _) (λ _. negate_bits-Halts 8 (c_idx * 8) bvs))
      (λ b _. negate_loop-Halts rounds (c_idx + 1) b)

negate-Halts : (bvs : BitVectors) → Halts (sa_regex_negate_character_class bvs)
unfolding sa_regex_negate_character_class
negate-Halts bvs =
    negate_loop-Halts 16 16 (record bvs { bv = bit_unset (bit_unset (flip_loop 16 0 bvs.bv) 0) 10 })

all_bit_on-Halts : (c_idx : ℕ) (bvs : BitVectors) → Halts (all_bit_on c_idx bvs)
unfolding all_bit_on
all_bit_on-Halts c_idx bvs =
    Finishes-if (bit_found bvs.has_bv_2nd (c_idx % 128)) _ _
      (λ _.
        Finishes-bind (free_vector (c_idx % 128) bvs) _ (free_vector-Halts (c_idx % 128) bvs)
          (λ b _. halted _))
      (λ _. halted _)

all_on_loop-Halts : (rounds c_idx : ℕ) (bvs : BitVectors) → Halts (all_on_loop rounds c_idx bvs)
unfolding all_on_loop
all_on_loop-Halts zero c_idx bvs = halted bvs
all_on_loop-Halts (suc rounds) c_idx bvs =
    Finishes-bind (all_bit_on c_idx bvs) _ (all_bit_on-Halts c_idx bvs)
      (λ b _. all_on_loop-Halts rounds (c_idx + 1) b)

wide_range-Halts : (c11 c12 c21 c22 : ℕ) (bvs : BitVectors) → Halts (wide_range c11 c12 c21 c22 bvs)
unfolding wide_range
wide_range-Halts c11 c12 c21 c22 bvs =
    let first = (c11 + 1) % 256 in
    Finishes-if (c11 == c21) _ _ (λ _. set_bits-Halts c11 c12 c22 bvs)
      (λ _.
        Finishes-bind (sa_regex_set_bits c11 c12 255 bvs) _ (set_bits-Halts c11 c12 255 bvs) (λ b _.
          Finishes-bind (sa_regex_set_bits c21 0 c22 b) _ (set_bits-Halts c21 0 c22 b)
            (λ b' _. all_on_loop-Halts (c21 - first) first b')))

-- an item takes at least one byte of the key
abbrev pub Takes : ℕ × BitVectors → Type 0
Takes (n, bvs) = 1 ≤ n

module _ (key : List ℕ) (keylen : ℤ) where
  pub char_of-Halts : (i : ℕ) → Halts (char_of key keylen i)
  char_of-Halts i = or_fault-Halts (get_elem? key i)

  is_wide_range-Halts : (i : ℕ) → Halts (is_wide_range key keylen i)
  unfolding is_wide_range
  is_wide_range-Halts i =
      Finishes-if (above keylen (i + 4)) _ _
        (λ _.
          Finishes-bind (char_of key keylen (i + 2)) _ (char_of-Halts (i + 2)) (λ c _. halted _))
        (λ _. halted _)

  wide_item-Takes : (i : ℕ) (bvs : BitVectors) → Finishes Takes (wide_item key keylen i bvs)
  unfolding wide_item
  wide_item-Takes i bvs = Finishes-bind (char_of key keylen i) _ (char_of-Halts i) (λ c11 _.
      Finishes-bind (char_of key keylen (i + 1)) _ (char_of-Halts (i + 1)) (λ c12 _.
        Finishes-bind (is_wide_range key keylen i) _ (is_wide_range-Halts i) (λ is_range _.
          Finishes-if is_range _ _
            (λ _. Finishes-bind (char_of key keylen (i + 3)) _ (char_of-Halts (i + 3)) (λ c21 _.
              Finishes-bind (char_of key keylen (i + 4)) _ (char_of-Halts (i + 4)) (λ c22 _.
                Finishes-bind (wide_range c11 c12 c21 c22 bvs) _
                  (wide_range-Halts c11 c12 c21 c22 bvs) (λ b _. finished (5, b) (omega arith)))))
            (λ _.
              Finishes-bind (sa_regex_set_bits c11 c12 c12 bvs) _ (set_bits-Halts c11 c12 c12 bvs)
                (λ b _. finished (2, b) (omega arith))))))

  class_item-Takes : (i c : ℕ) (bvs : BitVectors) → Finishes Takes (class_item key keylen i c bvs)
  unfolding class_item
  class_item-Takes i c bvs =
      Finishes-if (c == 45 && above keylen (i + 1)) _ _
        (λ _. Finishes-bind (char_of key keylen (i - 1)) _ (char_of-Halts (i - 1)) (λ from _.
          Finishes-bind (char_of key keylen (i + 1)) _ (char_of-Halts (i + 1))
            (λ to _. finished _ (omega arith))))
        (λ _.
          Finishes-if (not (msb_on c)) _ _ (λ _. finished _ (omega arith))
            (λ _. wide_item-Takes i bvs))

  pub is_close-Halts : (close i : ℕ) → Halts (is_close key keylen close i)
  unfolding is_close
  is_close-Halts close i = Finishes-bind (char_of key keylen i) _ (char_of-Halts i) (λ c _.
      Finishes-if (c == close && leb 2 i) _ _
        (λ _.
          Finishes-bind (char_of key keylen (i - 1)) _ (char_of-Halts (i - 1)) (λ b _. halted _))
        (λ _. halted _))

  above-lt : (k : ℤ) (i : ℕ) → above k i ≡ true → i < rounds_to k
  above-lt (pos n) i h = ground arith
  above-lt (negsuc n) i h = absurd (ground arith)

  class_loop-Halts :
      (fuel i : ℕ) (not_op : Bool) (bvs : BitVectors)
      → rounds_to keylen - i < fuel
      → Halts (class_loop key keylen fuel i not_op bvs)
  unfolding class_loop
  class_loop-Halts zero i not_op bvs f = absurd (omega arith)
  class_loop-Halts (suc fuel) i not_op bvs f = elim (Bool-cases (above keylen i)) [
    | inr over ↦ rw (over, class_loop) (halted _)
    | inl more ↦
        let inside = above-lt keylen i more in
        rw (more, class_loop)
          (Finishes-bind (char_of key keylen i) _ (char_of-Halts i) (λ c _.
            Finishes-bind (is_close key keylen 93 i) _ (is_close-Halts 93 i) (λ ends _.
              Finishes-if (i == 1 && c == 94) _ _
                (λ _. class_loop-Halts fuel (i + 1) true bvs (omega arith))
                (λ _.
                  Finishes-if ends _ _ (λ _. halted _)
                    (λ _.
                      Finishes-bind (class_item key keylen i c bvs) _ (class_item-Takes i c bvs)
                        (λ (n, b) takes. class_loop-Halts fuel (i + n) not_op b (omega arith)))))))
  ]

  pub class-Takes : (bvs : BitVectors) → Finishes Takes (sa_regex_character_class key keylen bvs)
  unfolding sa_regex_character_class
  class-Takes bvs =
      let start = record bvs { bv = replicate 32 0 } in
      Finishes-bind (class_loop key keylen (suc (rounds_to keylen)) 1 false start) _
        (class_loop-Halts (suc (rounds_to keylen)) 1 false start (omega arith))
        (λ (i, not_op, b) _. Finishes-bind (char_of key keylen i) _ (char_of-Halts i) (λ c _.
          Finishes-if (c == 93) _ _
            (λ _.
              Finishes-if not_op _ _
                (λ _.
                  Finishes-bind (sa_regex_negate_character_class b) _ (negate-Halts b)
                    (λ b' _. finished _ (omega arith)))
                (λ _. finished _ (omega arith)))
            (λ _. exit_failure-Finishes)))
