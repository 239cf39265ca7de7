-- ===== src/MakeIndex/Swaps.antt =====
-- The exchanges of entries in the multikey quicksort of lib/make-index.c.
use sufary.Base.{
  ℕ, zero, suc, ◌+◌, ◌-◌, ◌≤◌, ◌<◌, ◌≡◌, ◌≢◌, refl, sym, ◌∙◌, ◌⊎◌, inl, inr, List, [], ◌∷◌, length,
  length-set, get_or, get_or-set_same, get_or-set_other, get_elem?-eq-get_or, set, one_if, count,
  arith,
}
use native.Mathlib.Decide.{ℕ_discrete}
use sufary.Base.Run.{Ends, done}
use sufary.MakeIndex.MultikeyQsort.{swap, swap_vector}

pub count-set :
    (e : ℕ) (x : List ℕ) (i v : ℕ)
    → i < length x
    → count e (set x i v) + one_if e (get_or x i 0) ≡ count e x + one_if e v
count-set e [] i v h = absurd (omega arith)
count-set e (y ∷ x) zero v h = omega arith
count-set e (y ∷ x) (suc i) v h = omega (arith, count-set e x i v (omega arith))

abbrev pub swapped : List ℕ → ℕ → ℕ → List ℕ
swapped x i j = set (set x i (get_or x j 0)) j (get_or x i 0)

-- The entries from `n` on are the same, and the others are the same in any order.
pub record Kept (n : ℕ) (x y : List ℕ) : Type 0 where
  pub long : length y ≡ length x
  pub counts : (e : ℕ) → count e y ≡ count e x
  pub behind : (i : ℕ) → n ≤ i → get_or y i 0 ≡ get_or x i 0

pub Kept-refl : (n : ℕ) (x : List ℕ) → Kept n x x
Kept-refl n x = record { long = refl; counts = λ e. refl; behind = λ i h. refl }

pub Kept-trans : (n : ℕ) (x y z : List ℕ) → Kept n x y → Kept n y z → Kept n x z
Kept-trans n x y z h k = record {
  long = k.long ∙ h.long;
  counts = λ e. k.counts e ∙ h.counts e;
  behind = λ i l. k.behind i l ∙ h.behind i l;
}

module _ (x : List ℕ) (i j : ℕ) (p : i < length x) (q : j < length x) where
  pub swap-swapped : swap x i j ≡ done (swapped x i j)
  unfolding swap
  swap-swapped = rw (get_elem?-eq-get_or x i 0 p) (rw (get_elem?-eq-get_or x j 0 q) refl)

  -- What holds of the entry at `k` behind the exchange.
  pub at_swapped :
      (P : ℕ → Type 0) (k : ℕ)
      → (k ≡ i → P (get_or x j 0))
      → (k ≡ j → P (get_or x i 0))
      → (k ≢ i → k ≢ j → P (get_or x k 0))
      → P (get_or (swapped x i j) k 0)
  at_swapped P k at_i at_j other =
      let moved = set x i (get_or x j 0) in
      let size = length-set x i (get_or x j 0) in
      elim (ℕ_discrete j k) [
        | yes e ↦
            rw (← e) (rw (get_or-set_same moved j (get_or x i 0) 0 (omega arith)) (at_j (sym e)))
        | no ne ↦ rw (get_or-set_other moved j k (get_or x i 0) 0 ne) (elim (ℕ_discrete i k) [
          | yes e ↦ rw (← e) (rw (get_or-set_same x i (get_or x j 0) 0 p) (at_i (sym e)))
          | no ne' ↦
              rw (get_or-set_other x i k (get_or x j 0) 0 ne')
                (other (λ e. ne' (sym e)) (λ e. ne (sym e)))
        ])
      ]

  pub swapped-Kept : (n : ℕ) → i < n → j < n → Kept n x (swapped x i j)
  swapped-Kept n h k =
      let moved = set x i (get_or x j 0) in
      let size = length-set x i (get_or x j 0) in
      let there : get_or moved j 0 ≡ get_or x j 0 = elim (ℕ_discrete i j) [
        | yes same ↦ rw (← same) (get_or-set_same x i (get_or x i 0) 0 p)
        | no ne ↦ get_or-set_other x i j (get_or x j 0) 0 ne
      ] in
      record {
        long = omega (arith, length-set moved j (get_or x i 0));
        counts = λ e.
            let second = count-set e moved j (get_or x i 0) (omega arith) in
            omega (arith, rw there at second, count-set e x i (get_or x j 0) p);
        behind = λ l m.
            at_swapped (λ e. e ≡ get_or x l 0) l (λ e. absurd (omega arith))
              (λ e. absurd (omega arith)) (λ _ _. refl);
      }

-- `k` is not in the block of `m` entries at `i`.
abbrev pub Outside : ℕ → ℕ → ℕ → Type 0
Outside i m k = (k < i) ⊎ (i + m ≤ k)

Outside-suc : (i m k : ℕ) → Outside i (suc m) k → Outside (i + 1) m k
Outside-suc i m k (inl l) = inl (omega arith)
Outside-suc i m k (inr l) = inr (omega arith)

Outside-ne : (i m k : ℕ) → Outside i (suc m) k → k ≢ i
Outside-ne i m k (inl l) e = omega arith
Outside-ne i m k (inr l) e = omega arith

-- What `swap_vector i j m` makes of `x`, for blocks of `m` entries at the distance `d`.
pub record Exchanged (i j m d : ℕ) (x y : List ℕ) : Type 0 where
  pub first : (k : ℕ) → i ≤ k → k < i + m → get_or y k 0 ≡ get_or x (k + d) 0
  pub second : (k : ℕ) → j ≤ k → k < j + m → get_or y k 0 ≡ get_or x (k - d) 0
  pub others : (k : ℕ) → Outside i m k → Outside j m k → get_or y k 0 ≡ get_or x k 0

pub swap_vector-Exchanged :
    (n m i j d : ℕ) (x : List ℕ)
    → j ≡ i + d
    → m ≤ d
    → j + m ≤ n
    → n ≤ length x
    → Ends (swap_vector i j m x) (λ y. Kept n x y × Exchanged i j m d x y)
unfolding swap_vector
swap_vector-Exchanged n zero i j d x e h b long = (
  x,
  refl,
  (
    Kept-refl n x,
    record {
      first = λ k l u. absurd (omega arith);
      second = λ k l u. absurd (omega arith);
      others = λ k _ _. refl;
    },
  ),
)
swap_vector-Exchanged n (suc m) i j d x e h b long =
    let x1 = swapped x i j in
    let i_in : i < length x = omega arith in
    let j_in : j < length x = omega arith in
    let kept1 = swapped-Kept x i j i_in j_in n (omega arith) (omega arith) in
    let (y, ran, (kept, ex)) =
      swap_vector-Exchanged n m (i + 1) (j + 1) d x1 (omega arith) (omega arith) (omega arith)
        (omega (arith, kept1.long)) in
    let there : (k : ℕ) → k ≢ i → k ≢ j → get_or x1 k 0 ≡ get_or x k 0 = λ k ne ne'.
      at_swapped x i j i_in j_in (λ e. e ≡ get_or x k 0) k (λ at. absurd (ne at))
        (λ at. absurd (ne' at)) (λ _ _. refl) in
    let at_i : get_or x1 i 0 ≡ get_or x j 0 =
      at_swapped x i j i_in j_in (λ e. e ≡ get_or x j 0) i (λ _. refl) (λ at. absurd (omega arith))
        (λ ne _. absurd (ne refl)) in
    let at_j : get_or x1 j 0 ≡ get_or x i 0 =
      at_swapped x i j i_in j_in (λ e. e ≡ get_or x i 0) j (λ at. absurd (omega arith)) (λ _. refl)
        (λ _ ne. absurd (ne refl)) in
    rw (swap-swapped x i j i_in j_in) (
      y,
      ran,
      (
        Kept-trans n x x1 y kept1 kept,
        record {
          first = λ k l u. elim (ℕ_discrete k i) [
            | yes at ↦
                let e' : i + d ≡ j = omega arith in
                rw at (rw e' (ex.others i (inl (omega arith)) (inl (omega arith)) ∙ at_i))
            | no ne ↦
                ex.first k (omega arith) (omega arith)
                ∙ there (k + d) (λ at. omega arith) (λ at. omega arith)
          ];
          second = λ k l u. elim (ℕ_discrete k j) [
            | yes at ↦
                let e' : j - d ≡ i = omega arith in
                rw at (rw e' (ex.others j (inr (omega arith)) (inl (omega arith)) ∙ at_j))
            | no ne ↦
                ex.second k (omega arith) (omega arith)
                ∙ there (k - d) (λ at. omega arith) (λ at. omega arith)
          ];
          others = λ k p q.
              ex.others k (Outside-suc i m k p) (Outside-suc j m k q)
              ∙ there k (Outside-ne i m k p) (Outside-ne j m k q);
        },
      ),
    )
