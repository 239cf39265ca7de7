-- ===== src/Regex/BitLaws.antt =====
-- What the operations on bit vectors do, bit by bit.
use Prim.Native.Nat.{bit_and, bit_or, digits, bit_and-bitwise, bit_or-bitwise, max}
use sufary.Base.{
  ℕ, zero, suc, ◌+◌, ◌*◌, ◌/◌, ◌%◌, ◌^◌, ◌≤◌, ◌<◌, min, ◌≡◌, refl, ◌∙◌, ap, Bool, true, false,
  Bool-cases, inl, inr, ◌==◌, not, ◌||◌, ◌&&◌, arith,
}
use native.Mathlib.Omega.{pow_step}

-- bit `k` of a number
unfoldable pub test_bit : ℕ → ℕ → Bool
test_bit zero a = a % 2 == 1
test_bit (suc k) a = test_bit k (a / 2)

pub test_bit-zero : (k : ℕ) → test_bit k 0 ≡ false
unfolding test_bit
test_bit-zero zero = refl
test_bit-zero (suc k) = test_bit-zero k

pub test_bit-pow : (k b : ℕ) → test_bit k (2 ^ b) ≡ (k == b)
unfolding test_bit
test_bit-pow zero zero = refl
test_bit-pow zero (suc b) = ground (arith, pow_step 2 b)
test_bit-pow (suc k) zero = ground (arith, test_bit-zero k)
test_bit-pow (suc k) (suc b) =
    let e : 2 ^ suc b / 2 ≡ 2 ^ b = omega (arith, pow_step 2 b) in
    rw e (ground (arith, test_bit-pow k b))

-- A number is known by its bits.
same_bits_below :
    (bound a b : ℕ) → a < bound → b < bound → ((k : ℕ) → test_bit k a ≡ test_bit k b) → a ≡ b
unfolding test_bit
same_bits_below zero a b p q h = absurd (omega arith)
same_bits_below (suc zero) a b p q h = omega arith
same_bits_below (suc (suc n)) a b p q h =
    let odd = h 0 in
    let half =
      same_bits_below (suc n) (a / 2) (b / 2) (omega arith) (omega arith) (λ k. h (suc k)) in
    ground arith

pub same_bits : (a b : ℕ) → ((k : ℕ) → test_bit k a ≡ test_bit k b) → a ≡ b
same_bits a b = same_bits_below (suc (a + b)) a b (omega arith) (omega arith)

-- An operation that works digit by digit does `bit` to each pair of bits.
module _ (rest : ℕ → ℕ) (digit : ℕ → ℕ → ℕ) (bit : Bool → Bool → Bool)
    (at_end : (k b : ℕ) → test_bit k (rest b) ≡ bit false (test_bit k b))
    (small : (x y : ℕ) → x < 2 → y < 2 → digit x y < 2)
    (lowest : (x y : ℕ) → x < 2 → y < 2 → (digit x y == 1) ≡ bit (x == 1) (y == 1)) where
  test_bit-end : (k b : ℕ) → test_bit k (rest b) ≡ bit (test_bit k 0) (test_bit k b)
  test_bit-end k b = rw (test_bit-zero k) (at_end k b)

  test_bit-digits :
      (room k a b : ℕ)
      → a ≤ room
      → test_bit k (digits rest digit room a b) ≡ bit (test_bit k a) (test_bit k b)
  unfolding test_bit
  test_bit-digits zero k zero b h = test_bit-end k b
  test_bit-digits zero k (suc a) b h = absurd (omega arith)
  test_bit-digits (suc room) k zero b h = test_bit-end k b
  test_bit-digits (suc room) zero (suc a) b h =
      let low = digit (suc a % 2) (b % 2) in
      let fits : low < 2 = small _ _ (omega arith) (omega arith) in
      let high = digits rest digit room (suc a / 2) (b / 2) in
      let e : (high * 2 + low) % 2 ≡ low = omega arith in
      rw e (lowest _ _ (omega arith) (omega arith))
  test_bit-digits (suc room) (suc k) (suc a) b h =
      let low = digit (suc a % 2) (b % 2) in
      let fits : low < 2 = small _ _ (omega arith) (omega arith) in
      let high = digits rest digit room (suc a / 2) (b / 2) in
      let e : (high * 2 + low) / 2 ≡ high = omega arith in
      rw e (test_bit-digits room k (suc a / 2) (b / 2) (omega arith))

pub test_bit-bit_or : (k a b : ℕ) → test_bit k (bit_or a b) ≡ (test_bit k a || test_bit k b)
test_bit-bit_or k a b =
    ap (test_bit k) (bit_or-bitwise a b)
    ∙ test_bit-digits (λ b. b) max ◌||◌ (λ k b. refl) (λ x y p q. omega arith)
        (λ x y p q. ground arith) a k a b (omega arith)

pub test_bit-bit_and : (k a b : ℕ) → test_bit k (bit_and a b) ≡ (test_bit k a && test_bit k b)
test_bit-bit_and k a b =
    ap (test_bit k) (bit_and-bitwise a b)
    ∙ test_bit-digits (λ b. 0) min ◌&&◌ (λ k b. test_bit-zero k) (λ x y p q. omega arith)
        (λ x y p q. ground arith) a k a b (omega arith)

pub zero-bit_and : (b : ℕ) → bit_and 0 b ≡ 0
zero-bit_and b =
    same_bits (bit_and 0 b) 0
      (λ k. let zero_bit = test_bit-zero k in ground (arith, test_bit-bit_and k 0 b))

-- The test of the code, `byte & (1 << k)`.
pub bit_and-pow : (k a : ℕ) → not (bit_and a (2 ^ k) == 0) ≡ test_bit k a
bit_and-pow k a = elim (Bool-cases (test_bit k a)) [
  | inl set ↦ elim (Bool-cases (bit_and a (2 ^ k) == 0)) [
    | inr some_bit ↦ ground arith
    | inl no_bit ↦
        let e : bit_and a (2 ^ k) ≡ 0 = ground arith in
        let shown = test_bit-bit_and k a (2 ^ k) in
        let pow_bit : test_bit k (2 ^ k) ≡ true = ground (arith, test_bit-pow k k) in
        let zero_bit = test_bit-zero k in absurd (ground (arith, ap (test_bit k) e))
  ]
  | inr unset ↦ let e : bit_and a (2 ^ k) ≡ 0 = same_bits _ 0 (other_bit unset) in ground arith
]
  where
    other_bit : test_bit k a ≡ false → (j : ℕ) → test_bit j (bit_and a (2 ^ k)) ≡ test_bit j 0
    other_bit unset j =
        let zero_bit = test_bit-zero j in
        let shown = test_bit-bit_and j a (2 ^ k) in
        let pow_bit = test_bit-pow j k in
        elim (Bool-cases (j == k)) [
          | inr other ↦ ground arith
          | inl same ↦
              let e : j ≡ k = ground arith in
              let off : test_bit j a ≡ false = rw e unset in ground arith
        ]
