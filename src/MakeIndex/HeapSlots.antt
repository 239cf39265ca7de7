-- ===== src/MakeIndex/HeapSlots.antt =====
-- The blocks of the heap of lib/make-index.c, by their places.
use sufary.Base.{
  ℕ, zero, suc, ◌+◌, ◌≤◌, ◌<◌, ◌≡◌, ◌≢◌, refl, sym, List, [], ◌∷◌, get_or, ap, length, length-set,
  get_or-set_same, get_or-set_other, set, true, false, ◌==◌, if◌then◌else◌, arith,
}
use native.Mathlib.Decide.{ℕ_discrete}
use sufary.MakeIndex.Heap.{Block}

abbrev pub no_block : Block
no_block = record { aryidx = 0; max = 0; strbuf = [] }

abbrev pub block_at : List Block → ℕ → Block
block_at a k = get_or a k no_block

-- a number of each of the blocks 1 to `n`, added up
abbrev pub weigh : (Block → ℕ) → ℕ → List Block → ℕ
weigh f zero a = 0
weigh f (suc n) a = f (block_at a (suc n)) + weigh f n a

pub weigh-set_out :
    (f : Block → ℕ) (n : ℕ) (a : List Block) (k : ℕ) (v : Block)
    → n < k
    → weigh f n (set a k v) ≡ weigh f n a
weigh-set_out f zero a k v h = refl
weigh-set_out f (suc n) a k v h =
    rw (get_or-set_other a k (suc n) v no_block (λ e. omega arith))
      (rw (weigh-set_out f n a k v (omega arith)) refl)

pub weigh-set :
    (f : Block → ℕ) (n : ℕ) (a : List Block) (k : ℕ) (v : Block)
    → 1 ≤ k
    → k ≤ n
    → n < length a
    → weigh f n (set a k v) + f (block_at a k) ≡ weigh f n a + f v
weigh-set f zero a k v l h r = absurd (omega arith)
weigh-set f (suc n) a k v l h r = elim (ℕ_discrete k (suc n)) [
  | yes e ↦
      let here = get_or-set_same a (suc n) v no_block r in
      rw e (rw here (omega (arith, weigh-set_out f n a (suc n) v (omega arith))))
  | no ne ↦
      let there = get_or-set_other a k (suc n) v no_block ne in
      rw there (omega (arith, weigh-set f n a k v l (omega arith) (omega arith)))
]

-- `i`, with `j` and `k` exchanged
abbrev exchange : ℕ → ℕ → ℕ → ℕ
exchange j k i = if i == j then k else if i == k then j else i

exchange-at :
    (a : List Block) (j k i : ℕ) (v : Block)
    → j < length a
    → k < length a
    → j ≢ k
    → block_at (set (set a k (block_at a j)) j v) i ≡ block_at (set a k v) (exchange j k i)
exchange-at a j k i v p q ne =
    let moved = set a k (block_at a j) in
    elim (ℕ_discrete j i) [
      | yes e ↦
          let first : (i == j) ≡ true = ground arith in
          rw first (
            rw (get_or-set_same a k v no_block q) (
              rw (← e) (
                get_or-set_same moved j v no_block (omega (arith, length-set a k (block_at a j))))))
      | no other ↦
          let first : (i == j) ≡ false = ground arith in
          rw first (
            rw (get_or-set_other moved j i v no_block other) (elim (ℕ_discrete k i) [
              | yes e ↦
                  let second : (i == k) ≡ true = ground arith in
                  rw second (
                    rw (get_or-set_other a k j v no_block (λ e'. ne (sym e')))
                      (rw (← e) (get_or-set_same a k (block_at a j) no_block q)))
              | no more ↦
                  let second : (i == k) ≡ false = ground arith in
                  rw second (
                    rw (get_or-set_other a k i v no_block more)
                      (get_or-set_other a k i (block_at a j) no_block more))
            ]))
    ]

pub weigh-exchange :
    (f : Block → ℕ) (n : ℕ) (a : List Block) (j k : ℕ) (v : Block)
    → n < length a
    → 1 ≤ j
    → j ≤ n
    → 1 ≤ k
    → k ≤ n
    → j ≢ k
    → weigh f n (set (set a k (block_at a j)) j v) ≡ weigh f n (set a k v)
weigh-exchange f n a j k v r p p' q q' ne =
    let moved = set a k (block_at a j) in
    let same = get_or-set_other a k j (block_at a j) no_block (λ e. ne (sym e)) in
    let first = weigh-set f n moved j v p p' (omega (arith, length-set a k (block_at a j))) in
    omega
      (arith, rw same at first, weigh-set f n a k (block_at a j) q q' r, weigh-set f n a k v q q' r)

pub set-get_or : (a : List Block) (k : ℕ) (d : Block) → k < length a → set a k (get_or a k d) ≡ a
set-get_or [] k d h = absurd (omega arith)
set-get_or (x ∷ a) zero d h = refl
set-get_or (x ∷ a) (suc k) d h = ap (λ b. x ∷ b) (set-get_or a k d (omega arith))

module _ (P : Block → Type 0) (R : Block → Block → Type 0) where
  -- The blocks 1 to `n` have the property, and are pairwise apart.
  pub record Holds (n : ℕ) (a : List Block) : Type 0 where
    pub good : (j : ℕ) → 1 ≤ j → j ≤ n → P (block_at a j)
    pub apart : (i j : ℕ) → 1 ≤ i → i ≤ n → 1 ≤ j → j ≤ n → i ≢ j → R (block_at a i) (block_at a j)

  pub exchange-Holds :
      (n : ℕ) (a : List Block) (j k : ℕ) (v : Block)
      → n < length a
      → 1 ≤ j
      → j ≤ n
      → 1 ≤ k
      → k ≤ n
      → j ≢ k
      → Holds n (set a k v)
      → Holds n (set (set a k (block_at a j)) j v)
  exchange-Holds n a j k v r p p' q q' ne h =
      let same = λ (i : ℕ). exchange-at a j k i v (omega arith) (omega arith) ne in
      record {
        good = λ i l m. rw (same i) (h.good (exchange j k i) (ground arith) (ground arith));
        apart = λ i i' l m l' m' d.
            rw (same i, same i')
              (h.apart (exchange j k i) (exchange j k i') (ground arith) (ground arith)
                (ground arith) (ground arith) (λ e. d (ground arith)));
      }
