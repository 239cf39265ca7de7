-- ===== src/IndexPoint/Walk.antt =====
-- The functions of lib/index-point.c that step through the text find its points in order.
use sufary.Base.{
  ℕ, zero, suc, ◌+◌, ◌-◌, ◌≤◌, ◌<◌, ◌≡◌, refl, ◌⊎◌, inl, inr, List, length, get_or,
  get_elem?-eq-get_or, Bool, true, false, Bool-cases, ltb, lt→ltb, not, ◌||◌, if◌then◌else◌, arith,
  sym, ◌∙◌,
}
use mathlib.Core.Bool.{false≢true}
use native.Mathlib.Decide.{dec_lt}
use sufary.Base.Run.{Run, done, Ends, ◌>>=◌}
use sufary.IndexPoint.{
  Settings, skip_byte, acceptable_byte, msb_on, point_loop, sa_is_skip, sa_is_acceptable, from_int,
  sa_skip_one_char, skip_one_byte, sa_get_next_ip_char, sa_get_next_ip_byte,
}
use sufary.IndexPoint.Contract.{IsNext, NextPoint}

-- The byte is taken for a point.
abbrev pub wanted : Settings → List ℕ → ℕ → Bool
wanted g text ip = acceptable_byte g (get_or text ip 0) || not (skip_byte g (get_or text ip 0))

-- From the one position the steps lead to the other.
pub data Walk (move : ℕ → ℕ) : ℕ → ℕ → Type 0 where
  here : {a : ℕ} → Walk move a a
  on : {a b : ℕ} → Walk move (move a) b → Walk move a b

-- A point is a position that the steps from the top of the text lead to, with a wanted byte.
abbrev pub PointOn : Settings → List ℕ → (ℕ → ℕ) → ℕ → Type 0
PointOn g text move j = Walk move 0 j × (wanted g text j ≡ true)

-- one byte, or two where the first has its highest bit set
abbrev pub char_move : List ℕ → ℕ → ℕ
char_move text ip = if msb_on (get_or text ip 0) then ip + 2 else ip + 1

-- one byte
abbrev pub byte_move : ℕ → ℕ
byte_move ip = ip + 1

module _ (move : ℕ → ℕ) (grows : (a : ℕ) → a < move a) where
  Walk-le : {a b : ℕ} → Walk move a b → a ≤ b
  Walk-le here = omega arith
  Walk-le (on {a = x} w) = omega (arith, grows x, Walk-le w)

  -- Of two positions on one walk the later is reached from the earlier.
  Walk-linear : {s a j : ℕ} → Walk move s a → Walk move s j → a ≤ j → Walk move a j
  Walk-linear here v h = v
  Walk-linear (on {a = x} w) here h = absurd (omega (arith, grows x, Walk-le w))
  Walk-linear (on w) (on v) h = Walk-linear w v h

  Walk-step : {a j : ℕ} → Walk move a j → a < j → Walk move (move a) j
  Walk-step here h = absurd (omega arith)
  Walk-step (on w) h = w

  Walk-append : {s a b : ℕ} → Walk move s a → Walk move a b → Walk move s b
  Walk-append here v = v
  Walk-append (on w) v = on (Walk-append w v)

module _ (g : Settings) (text : List ℕ) (len : ℕ) (fits : len ≤ length text) (step : ℕ → Run ℕ)
    (move : ℕ → ℕ) (grows : (a : ℕ) → a < move a)
    (moves : (a : ℕ) → a < len → step a ≡ done (move a)) where
  -- The loop passes over the positions that are not wanted.
  data Passed : ℕ → ℕ → Type 0 where
    stay : {a : ℕ} → Passed a a
    pass : {a b : ℕ} → wanted g text a ≡ false → Passed (move a) b → Passed a b

  Passed-Walk : {a b : ℕ} → Passed a b → Walk move a b
  Passed-Walk stay = here
  Passed-Walk (pass _ p) = on (Passed-Walk p)

  Passed-none : {a b j : ℕ} → Passed a b → Walk move a j → j < b → wanted g text j ≡ false
  Passed-none stay w h = absurd (omega (arith, Walk-le move grows w))
  Passed-none (pass e p) here h = e
  Passed-none (pass e p) (on w) h = Passed-none p w h

  abbrev Scans : ℕ → ℕ → Type 0
  Scans ip r =
      (b : ℕ) × Passed ip b
      × (((b < len) × (wanted g text b ≡ true) × (r ≡ b)) ⊎ ((len ≤ b) × (r ≡ len)))

  point_loop-Scans :
      (fuel ip : ℕ) → len - ip < fuel → Ends (point_loop g text len step fuel ip) (Scans ip)
  unfolding point_loop sa_is_skip sa_is_acceptable
  point_loop-Scans zero ip f = elim f [ ]
  point_loop-Scans (suc fuel) ip f = elim (dec_lt ip len) [
    | no out ↦
        let stop : ltb ip len ≡ false = ground arith in
        rw stop (len, refl, (ip, stay, inr (omega arith, refl)))
    | yes inside ↦
        rw (lt→ltb ip len inside, get_elem?-eq-get_or text ip 0 (omega arith))
          (elim (Bool-cases (wanted g text ip)) [
            | inl take ↦ rw take (ip, refl, (ip, stay, inl (inside, take, refl)))
            | inr leave ↦
                let (r, ran, (b, passed, means)) =
                  point_loop-Scans fuel (move ip) (omega (arith, grows ip)) in
                rw leave (rw (moves ip inside) (rw ran (r, refl, (b, pass leave passed, means))))
          ])
  ]

  Scans-IsNext :
      (start first r : ℕ)
      → Walk move 0 start
      → first ≤ start
      → first ≤ len
      → ((j : ℕ) → first ≤ j → Walk move 0 j → Walk move start j)
      → Scans start r
      → IsNext len (PointOn g text move) first r
  Scans-IsNext start first r w h k reach (b, passed, inl (inside, take, e)) =
      let ahead = Walk-le move grows (Passed-Walk passed) in
      rw e (
        omega arith,
        omega arith,
        λ _. (Walk-append move grows w (Passed-Walk passed), take),
        λ j p q (v, t). false≢true (sym (Passed-none passed (reach j p v) q) ∙ t),
      )
  Scans-IsNext start first r w h k reach (b, passed, inr (out, e)) = rw e (
    k,
    omega arith,
    λ i. absurd (omega arith),
    λ j p q (v, t). false≢true (sym (Passed-none passed (reach j p v) (omega arith)) ∙ t),
  )

  -- The three functions with such a loop have this shape.
  steps-NextPoint :
      NextPoint len
        (λ ip.
          from_int g text len step ip >>= λ ip'. point_loop g text len step (suc (len - ip')) ip')
        (PointOn g text move)
        (Walk move 0)
  steps-NextPoint = record {
    from_zero = here;
    from_point = λ j p. p.0;
    top =
        let (r, ran, scans) = point_loop-Scans (suc (len - 0)) 0 (omega arith) in
        (r, ran, Scans-IsNext 0 0 r here (omega arith) (omega arith) (λ j _ v. v) scans);
    after = λ n inside from.
        let (r, ran, scans) = point_loop-Scans (suc (len - move n)) (move n) (omega arith) in
        rw (lt→ltb n len inside, moves n inside)
          (
            r,
            ran,
            Scans-IsNext (move n) (n + 1) r (Walk-append move grows from (on here))
                (omega (arith, grows n)) (omega arith)
                (λ j p v.
                  Walk-step move grows (Walk-linear move grows from v (omega arith)) (omega arith))
                scans,
          );
  }

module _ (g : Settings) (text : List ℕ) (len : ℕ) (fits : len ≤ length text) where
  char_move_grows : (a : ℕ) → a < char_move text a
  char_move_grows a = elim (Bool-cases (msb_on (get_or text a 0))) [
    | inl e ↦ rw e (omega arith)
    | inr e ↦ rw e (omega arith)
  ]

  char_moves : (a : ℕ) → a < len → sa_skip_one_char g text len a ≡ done (char_move text a)
  unfolding sa_skip_one_char
  char_moves a h = rw (get_elem?-eq-get_or text a 0 (omega arith))

  -- In a text of `len` bytes at least, `sa_get_next_ip_char` ends whenever it is called at -1 or at a
  -- position that the steps over one- and two-byte characters lead to, and returns the next of these
  -- positions whose byte is acceptable or not to be skipped, or the length of the text.
  pub sa_get_next_ip_char-NextPoint :
      NextPoint len
        (sa_get_next_ip_char g text len)
        (PointOn g text (char_move text))
        (Walk (char_move text) 0)
  unfolding sa_get_next_ip_char
  sa_get_next_ip_char-NextPoint =
      steps-NextPoint g text len fits (sa_skip_one_char g text len) (char_move text) char_move_grows
        char_moves

  -- In a text of `len` bytes at least, `sa_get_next_ip_byte` ends whenever it is called at -1 or at a
  -- position, and returns the next position whose byte is acceptable or not to be skipped, or the
  -- length of the text.
  pub sa_get_next_ip_byte-NextPoint :
      NextPoint len (sa_get_next_ip_byte g text len) (PointOn g text byte_move) (Walk byte_move 0)
  unfolding sa_get_next_ip_byte
  sa_get_next_ip_byte-NextPoint =
      steps-NextPoint g text len fits (skip_one_byte g text len) byte_move (λ a. omega arith)
        (λ a h. refl)
