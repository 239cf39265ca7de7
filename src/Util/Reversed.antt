-- ===== src/Util/Reversed.antt =====
-- The loop of `sa_reverse_byte_order` in lib/util.c turns the order of the bytes round.
use sufary.Base.{
  ℕ, zero, suc, ◌+◌, ◌-◌, ◌/◌, ◌≤◌, ◌<◌, ◌≡◌, ◌≢◌, ◌⊎◌, inl, inr, ◌∙◌, refl, List, length,
  length-set, get_or, get_or-set_same, get_or-set_other, set, arith,
}
use native.Mathlib.Decide.{dec_lt, ℕ_discrete}
use sufary.Util.{exchange, reverse_loop, sa_reverse_byte_order}

-- The bytes up to `size` in reverse order, and what is behind them.
abbrev pub IsReversed : List ℕ → ℕ → List ℕ → Type 0
IsReversed c size out =
    (length out ≡ length c)
    × ((i : ℕ) → i < size → get_or out i 0 ≡ get_or c (size - 1 - i) 0)
    × ((i : ℕ) → size ≤ i → get_or out i 0 ≡ get_or c i 0)

module _ (c : List ℕ) (size : ℕ) (inside : size ≤ length c) where
  -- After `j` rounds the first and the last `j` bytes have changed places, and no others.
  record Turned (j : ℕ) (c' : List ℕ) : Type 0 where
    same_length : length c' ≡ length c
    turned :
        (i : ℕ) → i < size → (i < j) ⊎ (size ≤ i + j) → get_or c' i 0 ≡ get_or c (size - 1 - i) 0
    kept : (i : ℕ) → j ≤ i → i + j < size → get_or c' i 0 ≡ get_or c i 0
    behind : (i : ℕ) → size ≤ i → get_or c' i 0 ≡ get_or c i 0

  module _ (j : ℕ) (c' : List ℕ) (round : j < size / 2) (h : Turned j c') where
    abbrev k : ℕ
    k = size - 1 - j

    at_k : get_or (exchange c' size j) k 0 ≡ get_or c j 0
    unfolding exchange
    at_k =
        get_or-set_same (set c' j (get_or c' k 0)) k (get_or c' j 0) 0
          (omega (arith, length-set c' j (get_or c' k 0), h.same_length))
        ∙ h.kept j (omega arith) (omega arith)

    at_j : get_or (exchange c' size j) j 0 ≡ get_or c k 0
    unfolding exchange
    at_j =
        get_or-set_other (set c' j (get_or c' k 0)) k j (get_or c' j 0) 0 (λ e. omega arith)
        ∙ get_or-set_same c' j (get_or c' k 0) 0 (omega (arith, h.same_length))
        ∙ h.kept k (omega arith) (omega arith)

    elsewhere : (i : ℕ) → j ≢ i → k ≢ i → get_or (exchange c' size j) i 0 ≡ get_or c' i 0
    unfolding exchange
    elsewhere i ne ne' =
        get_or-set_other (set c' j (get_or c' k 0)) k i (get_or c' j 0) 0 ne'
        ∙ get_or-set_other c' j i (get_or c' k 0) 0 ne

    exchange-Turned : Turned (j + 1) (exchange c' size j)
    unfolding exchange
    exchange-Turned = record {
      same_length =
          length-set (set c' j (get_or c' k 0)) k (get_or c' j 0)
          ∙ length-set c' j (get_or c' k 0)
          ∙ h.same_length;
      turned = λ i b part. elim (ℕ_discrete k i) [
        | yes e ↦ let mirror : size - 1 - i ≡ j = omega arith in rw mirror (rw (← e) at_k)
        | no ne ↦ elim (ℕ_discrete j i) [
          | yes e ↦ rw (← e) at_j
          | no ne' ↦
              elsewhere i ne' ne
              ∙ h.turned i b (elim part [ inl l ↦ inl (omega arith) | inr l ↦ inr (omega arith) ])
        ]
      ];
      kept = λ i l m.
          elsewhere i (λ e. omega arith) (λ e. omega arith) ∙ h.kept i (omega arith) (omega arith);
      behind = λ i l. elsewhere i (λ e. omega arith) (λ e. omega arith) ∙ h.behind i l;
    }

  reverse_loop-Turned :
      (rounds j : ℕ) (c' : List ℕ)
      → j + rounds ≡ size / 2
      → Turned j c'
      → Turned (size / 2) (reverse_loop rounds c' size j)
  unfolding reverse_loop
  reverse_loop-Turned zero j c' e h = let done : j ≡ size / 2 = omega arith in rw done at h
  reverse_loop-Turned (suc rounds) j c' e h =
      reverse_loop-Turned rounds (j + 1) (exchange c' size j) (omega arith)
        (exchange-Turned j c' (omega arith) h)

  start-Turned : Turned 0 c
  start-Turned = record {
    same_length = refl;
    turned = λ i b part. elim part [ inl l ↦ absurd (omega arith) | inr l ↦ absurd (omega arith) ];
    kept = λ i l m. refl;
    behind = λ i l. refl;
  }

  -- For any size up to the number of the bytes, `sa_reverse_byte_order` puts the first `size` bytes
  -- in reverse order, and leaves those behind them as they are.
  pub sa_reverse_byte_order-IsReversed : IsReversed c size (sa_reverse_byte_order c size)
  unfolding sa_reverse_byte_order
  sa_reverse_byte_order-IsReversed =
      let h = reverse_loop-Turned (size / 2) 0 c (omega arith) start-Turned in
      (
        h.same_length,
        λ i b. elim (dec_lt i (size / 2)) [
          | yes l ↦ h.turned i b (inl l)
          | no l ↦ elim (dec_lt (i + size / 2) size) [
            | no m ↦ h.turned i b (inr (omega arith))
            | yes m ↦
                let middle : size - 1 - i ≡ i = omega arith in rw middle (h.kept i (omega arith) m)
          ]
        ],
        h.behind,
      )
