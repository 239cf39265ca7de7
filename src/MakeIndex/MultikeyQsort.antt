-- ===== src/MakeIndex/MultikeyQsort.antt =====
-- The multikey quicksort of lib/make-index.c.
use sufary.Base.{
  ℕ, zero, suc, ◌+◌, ◌-◌, true, false, List, ◌++◌, get_elem?, set, take, drop, min, ltb, leb, ◌==◌,
  if◌then◌else◌,
}
use sufary.Base.Run.{Run, done, stop, out_of_fuel, or_fault, ◌>>=◌}

-- the macro `swap`
unfoldable pub swap : List ℕ → ℕ → ℕ → Run (List ℕ)
swap x a b = do
  t ← or_fault (get_elem? x a)
  u ← or_fault (get_elem? x b)
  done (set (set x a u) b t)

unfoldable pub swap_vector : ℕ → ℕ → ℕ → List ℕ → Run (List ℕ)
unfolding swap
swap_vector i j zero x = done x
swap_vector i j (suc n) x = swap x i j >>= swap_vector (i + 1) (j + 1) n

-- The entries before `a` and behind `d` have the pivot's character; those from `a` on before `b` have
-- a smaller one, those behind `c` a larger one. `d` and `c` are never below 0.
pub record Split : Type 0 where
  pub x : List ℕ
  pub a : ℕ
  pub b : ℕ
  pub c : ℕ
  pub d : ℕ

-- `last` is `m_text_last_ptr`, and a pointer is its distance from `txt`.
module _ (txt : List ℕ) (last : ℕ) where
  unfoldable pub get_char_inside_text : ℕ → Run ℕ
  get_char_inside_text ptr = if leb last ptr then done 0 else or_fault (get_elem? txt ptr)

  -- the character of entry `i` at the depth
  unfoldable pub char_at_depth : ℕ → List ℕ → ℕ → Run ℕ
  unfolding get_char_inside_text
  char_at_depth depth x i = do p ← or_fault (get_elem? x i); get_char_inside_text (p + depth)

  -- The first inner `while`, with fuel.
  unfoldable pub left_loop : ℕ → ℕ → ℕ → Split → Run Split
  unfolding char_at_depth swap
  left_loop zero depth v s = stop out_of_fuel
  left_loop (suc fuel) depth v s = elim (leb s.b s.c) [
    | false ↦ done s
    | true ↦ do
      t ← char_at_depth depth s.x s.b
      let equal = swap s.x s.a s.b >>= λ x'.
          left_loop fuel depth v (record s { x = x'; a = s.a + 1; b = s.b + 1 })
      let less = left_loop fuel depth v (record s { b = s.b + 1 })
      if t == v then equal else if ltb t v then less else done s
  ]

  -- The second one.
  unfoldable pub right_loop : ℕ → ℕ → ℕ → Split → Run Split
  unfolding char_at_depth swap
  right_loop zero depth v s = stop out_of_fuel
  right_loop (suc fuel) depth v s = elim (leb s.b s.c) [
    | false ↦ done s
    | true ↦ do
      t ← char_at_depth depth s.x s.c
      let equal = swap s.x s.c s.d >>= λ x'.
          right_loop fuel depth v (record s { x = x'; d = s.d - 1; c = s.c - 1 })
      let more = right_loop fuel depth v (record s { c = s.c - 1 })
      if t == v then equal else if ltb v t then more else done s
  ]

  -- The `for (;;)`, with fuel.
  unfoldable pub partition_loop : ℕ → ℕ → ℕ → ℕ → Split → Run Split
  unfolding left_loop right_loop swap
  partition_loop zero inner depth v s = stop out_of_fuel
  partition_loop (suc fuel) inner depth v s = do
    s' ← left_loop inner depth v s
    s'' ← right_loop inner depth v s'
    let again = swap s''.x s''.b s''.c >>= λ x'.
        partition_loop fuel inner depth v (record s'' { x = x'; b = s''.b + 1; c = s''.c - 1 })
    if ltb s''.c s''.b then done s'' else again

  -- `rand_below n` is `rand() % n`, and `qsort` what the C library's function makes of the entries
  -- with `suffix_compare`.
  module _ (rand_below : ℕ → ℕ) (qsort : List ℕ → List ℕ) where
    -- From the choice of the pivot to the moves of the equal entries to the middle.
    unfoldable pub partition : ℕ → List ℕ → ℕ → Run Split
    unfolding swap char_at_depth partition_loop swap_vector
    partition n x depth = do
      x' ← swap x 0 (rand_below n)
      v ← char_at_depth depth x' 0
      s ←
          partition_loop (suc n) (suc n) depth v
            (record { x = x'; a = 1; b = 1; c = n - 1; d = n - 1 })
      let r = min s.a (s.b - s.a)
      x'' ← swap_vector 0 (s.b - r) r s.x
      let r' = min (s.d - s.c) (n - s.d - 1)
      x''' ← swap_vector s.b (n - r') r' x''
      done (record s { x = x''' })

    -- `multikey_qsort` on the first `n` entries of `x`, with fuel for the recursion.
    unfoldable pub multikey_qsort : ℕ → List ℕ → ℕ → ℕ → Run (List ℕ)
    unfolding partition
    multikey_qsort zero x n depth = stop out_of_fuel
    multikey_qsort (suc fuel) x n depth = elim (leb n 1000) [
      | true ↦ done (qsort (take n x) ++ drop n x)
      | false ↦ do
        s ← partition n x depth
        let r = s.b - s.a
        x' ← multikey_qsort fuel s.x r depth
        p ← or_fault (get_elem? x' r)
        c ← or_fault (get_elem? txt (p + depth))
        let middle = multikey_qsort fuel (drop r x') (s.a + n - s.d - 1) (depth + 1) >>= λ y.
            done (take r x' ++ y)
        x'' ← if c == 0 then done x' else middle
        let r' = s.d - s.c
        y ← multikey_qsort fuel (drop (n - r') x'') r' depth
        done (take (n - r') x'' ++ y)
    ]
