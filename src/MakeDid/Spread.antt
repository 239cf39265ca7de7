-- ===== src/MakeDid/Spread.antt =====
-- The loops of lib/make-did.c that collect the starts of the documents and pair them with ends.
use sufary.Base.{
  ℕ, zero, suc, ◌+◌, ◌-◌, ◌*◌, ◌≤◌, ◌<◌, ◌≡◌, ◌≢◌, refl, List, length, get_or, get_elem?-eq-get_or,
  set, length-set, get_or-set_same, get_or-set_other, lt→ltb, arith, ◌∙◌,
}
use native.Mathlib.Decide.{ℕ_discrete}
use sufary.Base.Run.{Ends, done}
use sufary.File.{Sufary, sa_aryidx2txtidx}
use sufary.Search.Round.{entry}
use sufary.MakeDid.{store, position_loop, spread_loop}

pub store-done : (rslt : List ℕ) (i v : ℕ) → i < length rslt → store rslt i v ≡ done (set rslt i v)
store-done rslt i v h = rw (lt→ltb i (length rslt) h) refl

-- The words are the starts, each but the first also as the end before it, and the last end.
abbrev pub IsPaired : ℕ → (ℕ → ℕ) → ℕ → List ℕ → Type 0
IsPaired n start last rslt =
    (length rslt ≡ 2 * n)
    × ((k : ℕ) → k < n → get_or rslt (2 * k) 0 ≡ start k)
    × ((k : ℕ) → k + 1 < n → get_or rslt (2 * k + 1) 0 ≡ start (k + 1))
    × (get_or rslt (2 * n - 1) 0 ≡ last)

module _ (n : ℕ) (start : ℕ → ℕ) (last : ℕ) (some_start : 0 < n) where
  -- with `k` rounds left
  pub record Spread (k : ℕ) (rslt : List ℕ) : Type 0 where
    pub has_room : length rslt ≡ 2 * n
    pub below : (j : ℕ) → j ≤ k → get_or rslt j 0 ≡ start j
    pub odd : (m : ℕ) → k < m → m < n → get_or rslt (2 * m - 1) 0 ≡ start m
    pub even : (m : ℕ) → k < m → m < n → get_or rslt (2 * m) 0 ≡ start m
    pub end : get_or rslt (2 * n - 1) 0 ≡ last

  Spread-IsPaired : (rslt : List ℕ) → Spread 0 rslt → IsPaired n start last rslt
  Spread-IsPaired rslt s = (s.has_room, even_at, odd_at, s.end)
    where
      even_at : (k : ℕ) → k < n → get_or rslt (2 * k) 0 ≡ start k
      even_at zero h = s.below 0 (omega arith)
      even_at (suc k) h = s.even (suc k) (omega arith) h

      odd_at : (k : ℕ) → k + 1 < n → get_or rslt (2 * k + 1) 0 ≡ start (k + 1)
      odd_at k h =
          let e : 2 * k + 1 ≡ 2 * (k + 1) - 1 = omega arith in rw e (s.odd (k + 1) (omega arith) h)

  -- two writes that leave the other places alone
  module _ (k : ℕ) (rslt : List ℕ) (v : ℕ) (room : 2 * suc k < length rslt) where
    abbrev twice : List ℕ
    twice = set (set rslt (2 * suc k - 1) v) (2 * suc k) v

    twice_other : (j : ℕ) → j ≢ 2 * suc k - 1 → j ≢ 2 * suc k → get_or twice j 0 ≡ get_or rslt j 0
    twice_other j p q =
        get_or-set_other (set rslt (2 * suc k - 1) v) (2 * suc k) j v 0 (λ e. omega arith)
        ∙ get_or-set_other rslt (2 * suc k - 1) j v 0 (λ e. omega arith)

    twice_first : get_or twice (2 * suc k - 1) 0 ≡ v
    twice_first =
        get_or-set_other (set rslt (2 * suc k - 1) v) (2 * suc k) (2 * suc k - 1) v 0
          (λ e. omega arith)
        ∙ get_or-set_same rslt (2 * suc k - 1) v 0 (omega arith)

    twice_second : get_or twice (2 * suc k) 0 ≡ v
    twice_second =
        get_or-set_same (set rslt (2 * suc k - 1) v) (2 * suc k) v 0
          (omega (arith, length-set rslt (2 * suc k - 1) v))

  Spread-step :
      (k : ℕ) (rslt : List ℕ) (v : ℕ) (h : suc k < n) (room : 2 * suc k < length rslt)
      → v ≡ start (suc k)
      → Spread (suc k) rslt
      → Spread k (twice k rslt v room)
  Spread-step k rslt v h room e s = record {
    has_room =
        length-set (set rslt (2 * suc k - 1) v) (2 * suc k) v
        ∙ length-set rslt (2 * suc k - 1) v
        ∙ s.has_room;
    below =
        λ j p. twice_other k rslt v room j (omega arith) (omega arith) ∙ s.below j (omega arith);
    odd = λ m p q. elim (ℕ_discrete m (suc k)) [
      | yes same ↦ rw same (twice_first k rslt v room ∙ e)
      | no ne ↦
          twice_other k rslt v room (2 * m - 1) (omega arith) (omega arith)
          ∙ s.odd m (omega arith) q
    ];
    even = λ m p q. elim (ℕ_discrete m (suc k)) [
      | yes same ↦ rw same (twice_second k rslt v room ∙ e)
      | no ne ↦
          twice_other k rslt v room (2 * m) (omega arith) (omega arith) ∙ s.even m (omega arith) q
    ];
    end = twice_other k rslt v room (2 * n - 1) (omega arith) (omega arith) ∙ s.end;
  }

  pub spread_loop-IsPaired :
      (k : ℕ) (rslt : List ℕ)
      → k < n
      → Spread k rslt
      → Ends (spread_loop k rslt) (IsPaired n start last)
  unfolding spread_loop
  spread_loop-IsPaired zero rslt h s = (rslt, refl, Spread-IsPaired rslt s)
  spread_loop-IsPaired (suc k) rslt h s =
      let v = get_or rslt (suc k) 0 in
      let room : 2 * suc k < length rslt = omega (arith, s.has_room) in
      let room' : 2 * suc k < length (set rslt (2 * suc k - 1) v) =
        omega (arith, length-set rslt (2 * suc k - 1) v) in
      rw (get_elem?-eq-get_or rslt (suc k) 0 (omega arith)) (
        rw (lt→ltb (2 * suc k - 1) (length rslt) (omega arith)) (
          rw (lt→ltb (2 * suc k) (length (set rslt (2 * suc k - 1) v)) room') (
            spread_loop-IsPaired k (twice k rslt v room) (omega arith)
              (Spread-step k rslt v h room (s.below (suc k) (omega arith)) s))))

-- What the loops that read positions leave: the positions from place `to` + `i` on.
pub record Stored (ary : Sufary) (left plus to rounds i : ℕ) (before rslt : List ℕ) : Type 0 where
  pub same_length : length rslt ≡ length before
  pub kept : (j : ℕ) → j < to + i → get_or rslt j 0 ≡ get_or before j 0
  pub read : (j : ℕ) → i ≤ j → j < i + rounds → get_or rslt (to + j) 0 ≡ entry ary (left + j) + plus

module _ (ary : Sufary) (left plus to : ℕ) where
  pub position_loop-Stored :
      (rounds i : ℕ) (rslt : List ℕ)
      → left + (i + rounds) ≤ length ary.array
      → to + (i + rounds) ≤ length rslt
      → Ends (position_loop ary left plus to rounds i rslt) (Stored ary left plus to rounds i rslt)
  unfolding position_loop sa_aryidx2txtidx
  position_loop-Stored zero i rslt a b = (
    rslt,
    refl,
    record { same_length = refl; kept = λ j h. refl; read = λ j p q. absurd (omega arith) },
  )
  position_loop-Stored (suc rounds) i rslt a b =
      let v = entry ary (left + i) + plus in
      let next = set rslt (to + i) v in
      let (out, ran, s) =
        position_loop-Stored rounds (i + 1) next (omega arith)
          (omega (arith, length-set rslt (to + i) v)) in
      rw (get_elem?-eq-get_or ary.array (left + i) 0 (omega arith)) (
        rw (lt→ltb (to + i) (length rslt) (omega arith)) (
          out,
          ran,
          record {
            same_length = s.same_length ∙ length-set rslt (to + i) v;
            kept =
                λ j h. s.kept j (omega arith) ∙ get_or-set_other rslt (to + i) j v 0 (omega arith);
            read = λ j p q. elim (ℕ_discrete j i) [
              | yes e ↦
                  rw e (
                    s.kept (to + i) (omega arith) ∙ get_or-set_same rslt (to + i) v 0 (omega arith))
              | no ne ↦ s.read j (omega arith) (omega arith)
            ];
          },
        ))
