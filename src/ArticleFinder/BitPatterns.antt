-- ===== src/ArticleFinder/BitPatterns.antt =====
-- The bits of the check bytes of src/af.c.
use sufary.Base.{
  ℕ, zero, suc, ◌+◌, ◌-◌, ◌*◌, ◌/◌, ◌%◌, ◌^◌, ◌≤◌, ◌<◌, ◌≡◌, refl, leb, ltb, ◌&&◌, arith,
}
use native.Mathlib.Omega.{pow_step}
use sufary.Regex.BitLaws.{test_bit, test_bit-zero}

pow_positive : (m : ℕ) → 0 < 2 ^ m
pow_positive zero = omega arith
pow_positive (suc m) = omega (arith, pow_step 2 m, pow_positive m)

test_bit-ones : (k m : ℕ) → test_bit k (2 ^ m - 1) ≡ ltb k m
unfolding test_bit
test_bit-ones zero zero = refl
test_bit-ones zero (suc m) = ground (arith, pow_step 2 m, pow_positive m)
test_bit-ones (suc k) zero = ground (arith, test_bit-zero k)
test_bit-ones (suc k) (suc m) =
    let e : (2 ^ suc m - 1) / 2 ≡ 2 ^ m - 1 = omega (arith, pow_step 2 m, pow_positive m) in
    rw e (ground (arith, test_bit-ones k m))

-- The byte of a document with the first `m` wanted keywords and no unwanted one.
abbrev pub pattern_of : ℕ → ℕ
pattern_of m = 2 ^ suc m - 2

pub test_bit-pattern_of : (k m : ℕ) → test_bit k (pattern_of m) ≡ (leb 1 k && leb k m)
unfolding test_bit
test_bit-pattern_of zero m = ground (arith, pow_step 2 m, pow_positive m)
test_bit-pattern_of (suc k) m =
    let e : (2 ^ suc m - 2) / 2 ≡ 2 ^ m - 1 = omega (arith, pow_step 2 m, pow_positive m) in
    rw e (ground (arith, test_bit-ones k m))

-- What the code computes with unsigned chars is exact for up to eight keywords.
pub pattern_of_checker : (m : ℕ) → m ≤ 7 → (2 ^ m * 2 + 254) % 256 ≡ pattern_of m
pattern_of_checker zero h = refl
pattern_of_checker (suc zero) h = refl
pattern_of_checker (suc (suc zero)) h = refl
pattern_of_checker (suc (suc (suc zero))) h = refl
pattern_of_checker (suc (suc (suc (suc zero)))) h = refl
pattern_of_checker (suc (suc (suc (suc (suc zero))))) h = refl
pattern_of_checker (suc (suc (suc (suc (suc (suc zero)))))) h = refl
pattern_of_checker (suc (suc (suc (suc (suc (suc (suc zero))))))) h = refl
pattern_of_checker (suc (suc (suc (suc (suc (suc (suc (suc m)))))))) h = absurd (omega arith)

pub next_checker : (m : ℕ) → m < 7 → 2 ^ m * 2 % 256 ≡ 2 ^ suc m
next_checker zero h = refl
next_checker (suc zero) h = refl
next_checker (suc (suc zero)) h = refl
next_checker (suc (suc (suc zero))) h = refl
next_checker (suc (suc (suc (suc zero)))) h = refl
next_checker (suc (suc (suc (suc (suc zero))))) h = refl
next_checker (suc (suc (suc (suc (suc (suc zero)))))) h = refl
next_checker (suc (suc (suc (suc (suc (suc (suc m))))))) h = absurd (omega arith)
