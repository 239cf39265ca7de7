-- ===== src/Search/Boundary.antt =====
-- The two searches for the ends of the block of matches, in lib/search.c: the key is followed by
-- a character above every byte, or below.
use sufary.Base.{
  ℕ, suc, ◌+◌, ◌<◌, ◌≡◌, sym, ◌⊎◌, inl, inr, List, [], ◌∷◌, ◌++◌, map, ap, length,
  get_or-append_left, get_or-append_at, length-map, length-append, arith,
}
use native.Mathlib.Decide.{dec_lt}
use sufary.Base.Int.{ℤ, pos, negsuc}
use sufary.Search.Lex.{Agree, Le, Lt, Agree-sym, Agree-trans, Lt-Agree, Agree-Lt, Lt-Le-absurd}
use sufary.Search.Compare.{key_char, key_at}

Lt-suc : {f g : ℕ → ℕ} (n : ℕ) → Lt (suc n) f g → Lt n f g ⊎ (Agree n f g × (f n < g n))
Lt-suc {f} {g} n (d, b, a, l) = elim (dec_lt d n) [
  | yes p ↦ inl (d, p, a, l)
  | no p ↦ let e : d ≡ n = omega arith in inr (rw (← e) a, rw (← e) l)
]

pub Lt-irrefl_Agree : {f g : ℕ → ℕ} (n : ℕ) → Lt n f g → Agree n f g → ⊥
Lt-irrefl_Agree n (d, b, a, l) h = omega (arith, h d b)

-- `g` is the key, `h` the key with one more character at `n`.
module _ {f g h : ℕ → ℕ} (n : ℕ) (same : Agree n g h) where
  -- That character is above all of `f`.
  pub below_high : Lt (suc n) f h → Le n g f → Agree n f g
  below_high lt le = elim (Lt-suc n lt) [
    | inl less ↦ absurd (Lt-Le-absurd {n = n} (Lt-Agree {n = n} less (Agree-sym n same)) le)
    | inr (a, _) ↦ Agree-trans {n = n} a (Agree-sym n same)
  ]

  pub above_high : f n < h n → Lt (suc n) h f → Agree n f g → ⊥
  above_high small lt a = elim (Lt-suc n lt) [
    | inl less ↦ Lt-irrefl_Agree n less (Agree-trans {n = n} (Agree-sym n same) (Agree-sym n a))
    | inr (_, l) ↦ omega arith
  ]

  -- That character is below all of `f`.
  pub above_low : Lt (suc n) h f → Le n f g → Agree n f g
  above_low lt le = elim (Lt-suc n lt) [
    | inl less ↦ absurd (Lt-Le-absurd {n = n} (Agree-Lt {n = n} same less) le)
    | inr (a, _) ↦ Agree-sym n (Agree-trans {n = n} same a)
  ]

  pub below_low : h n < f n → Lt (suc n) f h → Agree n f g → ⊥
  below_low large lt a = elim (Lt-suc n lt) [
    | inl less ↦ Lt-irrefl_Agree n less (Agree-trans {n = n} a same)
    | inr (_, l) ↦ omega arith
  ]

module _ (key : List ℕ) (c : ℤ) where
  pub key_at-append : Agree (length key) (key_at (map pos key)) (key_at (map pos key ++ c ∷ []))
  key_at-append j b = ap key_char (
      sym (
        get_or-append_left (map pos key) (c ∷ []) j (negsuc 0) (omega (arith, length-map pos key))))

  pub key_at-append_at : key_at (map pos key ++ c ∷ []) (length key) ≡ key_char c
  key_at-append_at =
      let at = get_or-append_at (map pos key) c (negsuc 0) in
      ap key_char (rw (length-map pos key) at at)

  pub length-key_append : length (map pos key ++ c ∷ []) ≡ length key + 1
  length-key_append = omega (arith, length-append (map pos key) (c ∷ []), length-map pos key)
