-- ===== src/Regex/Pattern.antt =====
-- What `sa_regex` of lib/regex.c finds, for patterns of characters and full stops, each of which a
-- question mark may make optional.
use native.Mathlib.Decide.{ℕ_discrete}
use sufary.Base.{
  Bool-cases, inl, inr, if◌then◌else◌, ℕ, zero, suc, ◌+◌, ◌<◌, ◌≡◌, ◌≢◌, refl, ◌⊎◌, List, [], ◌∷◌,
  length, Bool, true, false, ◌==◌, ◌&&◌, not, arith,
}
use sufary.Base.Run.{done}
use sufary.File.{Sufary}
use sufary.IndexPoint.{msb_on}
use sufary.Search.Suffix.{Occurs}
use sufary.Regex.Bits.{
  bit_found, no_vectors, sa_regex_wild_card, sa_regex_free_all_2nd_char_bv, BitVectors,
}

pub data Atom : Type 0 where
  char : ℕ → Atom
  any : Atom

-- An item is an atom, and whether a question mark follows it.
abbrev pub Pattern : Type 0
Pattern = List (Atom × Bool)

-- an ASCII character that is not written with a sign of its own in a pattern
abbrev pub Plain : ℕ → Type 0
Plain c = (0 < c) × (c < 128) × (c ≢ 46) × (c ≢ 91) × (c ≢ 63) × (c ≢ 40) × (c ≢ 92)

abbrev pub IsPlain : Pattern → Type 0
IsPlain [] = Unit
IsPlain ((char c, _) ∷ ps) = Plain c × IsPlain ps
IsPlain ((any, _) ∷ ps) = IsPlain ps

abbrev pub sign_of : Atom → ℕ
sign_of (char c) = c
sign_of any = 46

-- How a pattern is written, with the zero byte behind it.
abbrev pub key_of : Pattern → List ℕ
key_of [] = 0 ∷ []
key_of ((a, true) ∷ ps) = sign_of a ∷ 63 ∷ key_of ps
key_of ((a, false) ∷ ps) = sign_of a ∷ key_of ps

abbrev pub key_length : Pattern → ℕ
key_length [] = 0
key_length ((a, true) ∷ ps) = suc (suc (key_length ps))
key_length ((a, false) ∷ ps) = suc (key_length ps)

-- A full stop stands for any character but the line end.
abbrev pub Accepts : Atom → ℕ → Type 0
Accepts (char c) t = t ≡ c
Accepts any t = (0 < t) × (t ≢ 10)

-- The string of entry `i`, from its character `base` on, matches the pattern up to character `n`.
abbrev pub Matches : Sufary → Pattern → ℕ → ℕ → ℕ → Type 0
Matches ary [] base i n = n ≡ base
Matches ary ((a, optional) ∷ ps) base i n =
    ((t : ℕ) × Accepts a t × Occurs ary base (t ∷ []) i × Matches ary ps (base + 1) i n)
    ⊎ ((optional ≡ true) × Matches ary ps base i n)

abbrev pub wild : BitVectors
wild = sa_regex_wild_card (no_vectors [])

-- A test of all numbers below a bound, by evaluation.
all_pass : (ℕ → Bool) → ℕ → Bool
all_pass test zero = true
all_pass test (suc last) = if test last then all_pass test last else false

all_pass→test :
    (test : ℕ → Bool) (bound t : ℕ) → all_pass test bound ≡ true → t < bound → test t ≡ true
unfolding all_pass
all_pass→test test zero t passed h = absurd (omega arith)
all_pass→test test (suc last) t passed h = elim (Bool-cases (test last)) [
  | inr out ↦ absurd (ground arith)
  | inl at ↦ elim (ℕ_discrete t last) [
    | yes e ↦ rw e at
    | no ne ↦ all_pass→test test last t (rw at at passed) (omega arith)
  ]
]

abbrev same_bool : Bool → Bool → Bool
same_bool true b = b
same_bool false b = not b

same_bool→eq : (a b : Bool) → same_bool a b ≡ true → a ≡ b
same_bool→eq true b h = ground arith
same_bool→eq false true h = ground arith
same_bool→eq false false h = refl

wild_table :
    all_pass (λ t. same_bool (bit_found wild.bv t) (not (t == 0) && not (t == 10))) 256 ≡ true
unfolding all_pass bit_found sa_regex_wild_card no_vectors
wild_table = refl

wild_bit : (t : ℕ) → t < 256 → bit_found wild.bv t ≡ (not (t == 0) && not (t == 10))
wild_bit t h = same_bool→eq _ _ (all_pass→test _ 256 t wild_table h)

length-wild : length wild.bv ≡ 32
unfolding sa_regex_wild_card no_vectors
length-wild = refl

wild_freed : sa_regex_free_all_2nd_char_bv wild ≡ done wild
unfolding sa_regex_free_all_2nd_char_bv sa_regex_wild_card no_vectors
wild_freed = refl

-- All that a search for a full stop needs of its vectors.
pub record IsWild (bvs : BitVectors) : Type 0 where
  pub bits : (t : ℕ) → t < 256 → bit_found bvs.bv t ≡ (not (t == 0) && not (t == 10))
  pub size : length bvs.bv ≡ 32
  pub frees : sa_regex_free_all_2nd_char_bv bvs ≡ done bvs

pub wild-IsWild : IsWild wild
wild-IsWild = record { bits = wild_bit; size = length-wild; frees = wild_freed }

pub positive_bit :
    (bvs : BitVectors) → IsWild bvs → (t : ℕ) → t < 256 → bit_found bvs.bv t ≡ true → 0 < t
positive_bit bvs is_wild t h bit = let shown = is_wild.bits t h in ground arith

ascii_table : all_pass (λ t. not (msb_on t)) 128 ≡ true
unfolding all_pass
ascii_table = refl

pub ascii_msb : (t : ℕ) → t < 128 → not (msb_on t) ≡ true
ascii_msb t h = all_pass→test (λ t. not (msb_on t)) 128 t ascii_table h
