-- ===== src/ArticleFinder/SplitKeys.antt =====
-- The loop of `parse_keys` in src/af.c over a query with `&` between its terms.
use sufary.Base.{
  ℕ, suc, ◌+◌, ◌<◌, ◌≡◌, ◌≢◌, refl, sym, ap, ◌∙◌, List, [], ◌∷◌, ◌++◌, length, length-append,
  get_elem?, set, drop, true, false, ltb, ◌==◌, some, All, arith,
}
use sufary.Base.Run.{Ends, done}
use sufary.ArticleFinder.{Keys, string_at, store_key, parse_keys_sub, split_loop}

-- a keyword that a document has to hold, and one that it must not hold
pub data Term : Type 0 where
  wanted : List ℕ → Term
  unwanted : List ℕ → Term

abbrev pub written : Term → List ℕ
written (wanted w) = w
written (unwanted w) = 94 ∷ w

-- characters of a keyword
abbrev pub IsWord : List ℕ → Type 0
IsWord w = All (λ c. (0 < c) × (c ≢ 38)) w

-- A keyword that fits in its row, and is not taken for one of the other kind.
abbrev pub IsTerm : Term → Type 0
IsTerm (wanted []) = ⊥
IsTerm (wanted (c ∷ w)) = (c ≢ 94) × IsWord (c ∷ w) × (length (c ∷ w) < 80)
IsTerm (unwanted w) = IsWord w × (length w < 80)

abbrev pub joined : Term → List Term → List ℕ
joined t [] = written t
joined t (u ∷ us) = written t ++ 38 ∷ joined u us

abbrev pub add : Term → Keys → Keys
add (wanted w) ks = record ks { keys = ks.keys ++ w ∷ [] }
add (unwanted w) ks = record ks { nkeys = ks.nkeys ++ w ∷ [] }

abbrev pub add_all : Term → List Term → Keys → Keys
add_all t [] ks = add t ks
add_all t (u ∷ us) ks = add_all u us (add t ks)

abbrev load : Keys → ℕ
load ks = length ks.nkeys + length ks.keys

load-add : (t : Term) (ks : Keys) → load (add t ks) ≡ suc (load ks)
load-add (wanted w) ks = omega (arith, length-append ks.keys (w ∷ []))
load-add (unwanted w) ks = omega (arith, length-append ks.nkeys (w ∷ []))

module _ {ℓ} {A : Type ℓ} where
  pub append_assoc : (xs ys zs : List A) → (xs ++ ys) ++ zs ≡ xs ++ (ys ++ zs)
  append_assoc [] ys zs = refl
  append_assoc (x ∷ xs) ys zs = ap (λ l. x ∷ l) (append_assoc xs ys zs)

  pub get_elem?-append :
      (xs ys : List A) (k : ℕ) → get_elem? (xs ++ ys) (length xs + k) ≡ get_elem? ys k
  get_elem?-append [] ys k = let e : 0 + k ≡ k = omega arith in ap (get_elem? ys) e
  get_elem?-append (x ∷ xs) ys k =
      let e : suc (length xs) + k ≡ suc (length xs + k) = omega arith in
      rw e (get_elem?-append xs ys k)

  drop-append : (xs ys : List A) (k : ℕ) → drop (length xs + k) (xs ++ ys) ≡ drop k ys
  drop-append [] ys k = let e : 0 + k ≡ k = omega arith in ap (λ n. drop n ys) e
  drop-append (x ∷ xs) ys k =
      let e : suc (length xs) + k ≡ suc (length xs + k) = omega arith in rw e (drop-append xs ys k)

  set-append : (xs ys : List A) (x v : A) → set (xs ++ x ∷ ys) (length xs) v ≡ xs ++ v ∷ ys
  set-append [] ys x v = refl
  set-append (z ∷ xs) ys x v = ap (λ l. z ∷ l) (set-append xs ys x v)

pub here : (xs ys : List ℕ) (x : ℕ) → get_elem? (xs ++ x ∷ ys) (length xs) ≡ some x
here xs ys x =
    let e : length xs + 0 ≡ length xs = omega arith in
    let at = get_elem?-append xs (x ∷ ys) 0 in rw e at at

string_at-append : (w tail : List ℕ) → IsWord w → string_at (w ++ 0 ∷ tail) ≡ done w
unfolding string_at
string_at-append [] tail h = refl
string_at-append (c ∷ w) tail ((p, _), h) =
    let some_char : (c == 0) ≡ false = ground arith in
    rw some_char (rw (string_at-append w tail h) refl)

store_key-append :
    (rows : List (List ℕ)) (w : List ℕ)
    → length rows < 100
    → length w < 80
    → store_key rows w ≡ done (rows ++ w ∷ [])
unfolding store_key
store_key-append rows w h k =
    let a : ltb (length rows) 100 ≡ true = ground arith in
    let b : ltb (length w) 80 ≡ true = ground arith in rw (a, b) refl

-- A term that stands in the string, with a zero byte behind it, is added.
pub parse_keys_sub-add :
    (t : Term) (pre tail : List ℕ) (ks : Keys)
    → IsTerm t
    → load ks < 100
    → parse_keys_sub (pre ++ (written t ++ 0 ∷ tail)) (length pre) ks ≡ done (add t ks)
unfolding parse_keys_sub
parse_keys_sub-add (wanted []) pre tail ks h room = elim h [ ]
parse_keys_sub-add (wanted (c ∷ w)) pre tail ks (ne, h, short) room =
    let plain : (c == 94) ≡ false = ground arith in
    let e : length pre + 0 ≡ length pre = omega arith in
    let from = drop-append pre ((c ∷ w) ++ 0 ∷ tail) 0 in
    let from' : drop (length pre) (pre ++ ((c ∷ w) ++ 0 ∷ tail)) ≡ (c ∷ w) ++ 0 ∷ tail =
      rw e at from in
    rw (here pre (w ++ 0 ∷ tail) c) (
      rw plain (
        rw from' (
          rw (string_at-append (c ∷ w) tail h)
            (rw (store_key-append ks.keys (c ∷ w) (omega arith) short) refl))))
parse_keys_sub-add (unwanted w) pre tail ks (h, short) room =
    let from = drop-append pre (94 ∷ (w ++ 0 ∷ tail)) 1 in
    rw (here pre (w ++ 0 ∷ tail) 94) (
      rw from (
        rw (string_at-append w tail h) (rw (store_key-append ks.nkeys w (omega arith) short) refl)))

-- The loop passes over the characters of a term.
split_loop-append :
    (w pre tail : List ℕ) (start rounds : ℕ) (ks : Keys)
    → IsWord w
    → split_loop (length w + rounds) (length pre) (pre ++ (w ++ tail)) start ks
      ≡ split_loop rounds (length (pre ++ w)) (pre ++ (w ++ tail)) start ks
unfolding split_loop
split_loop-append [] pre tail start rounds ks h =
    let e : 0 + rounds ≡ rounds = omega arith in
    let e' : length (pre ++ []) ≡ length pre = omega (arith, length-append pre []) in
    rw (e, e') refl
split_loop-append (c ∷ w) pre tail start rounds ks ((_, ne), h) =
    let e : suc (length w) + rounds ≡ suc (length w + rounds) = omega arith in
    let plain : (c == 38) ≡ false = ground arith in
    let next = split_loop-append w (pre ++ c ∷ []) tail start rounds ks h in
    let same = append_assoc pre (c ∷ []) (w ++ tail) in
    let one_more : length (pre ++ c ∷ []) ≡ length pre + 1 = length-append pre (c ∷ []) in
    let whole = append_assoc pre (c ∷ []) w in
    rw e (rw (here pre (w ++ tail) c) (rw plain (rw whole at (rw one_more at (rw same at next)))))

pub written-IsWord : (t : Term) → IsTerm t → IsWord (written t)
written-IsWord (wanted []) h = elim h [ ]
written-IsWord (wanted (c ∷ w)) (_, h, _) = h
written-IsWord (unwanted w) (h, _) = ((omega arith, λ e. omega arith), h)

-- At the sign between two terms, the term before it is added.
split_loop-sub :
    (front tail : List ℕ) (start rounds : ℕ) (ks ks' : Keys)
    → parse_keys_sub (front ++ 0 ∷ tail) start ks ≡ done ks'
    → split_loop (suc rounds) (length front) (front ++ 38 ∷ tail) start ks
      ≡ split_loop rounds
          (length (front ++ 0 ∷ []))
          ((front ++ 0 ∷ []) ++ tail)
          (length (front ++ 0 ∷ []))
          ks'
unfolding split_loop
split_loop-sub front tail start rounds ks ks' sub =
    let one_more : length (front ++ 0 ∷ []) ≡ length front + 1 = length-append front (0 ∷ []) in
    rw (here front tail 38) (
      rw (set-append front tail 38 0)
        (rw sub (rw one_more (rw (append_assoc front (0 ∷ []) tail) refl))))

split_loop_end :
    (i : ℕ) (kstr : List ℕ) (start : ℕ) (ks : Keys)
    → split_loop 0 i kstr start ks ≡ done (kstr, start, ks)
unfolding split_loop
split_loop_end i kstr start ks = refl

-- What the loop leaves: the last term is there, and those before it are added.
pub record Split (t : Term) (us : List Term) (ks : Keys) (r : List ℕ × ℕ × Keys) : Type 0 where
  pub before : List ℕ
  pub last : Term
  pub is_term : IsTerm last
  pub string : r.0 ≡ before ++ (written last ++ 0 ∷ [])
  pub start : r.1 ≡ length before
  pub room : load r.2 < 100
  pub added : add last r.2 ≡ add_all t us ks

pub split_loop-Split :
    (us : List Term) (t : Term) (pre : List ℕ) (ks : Keys)
    → IsTerm t
    → All IsTerm us
    → load ks + length us < 100
    → Ends
        (split_loop
          (length (joined t us))
          (length pre)
          (pre ++ (joined t us ++ 0 ∷ []))
          (length pre)
          ks)
        (Split t us ks)
split_loop-Split [] t pre ks h hs room =
    let w = written t in
    let passed = split_loop-append w pre (0 ∷ []) (length pre) 0 ks (written-IsWord t h) in
    let e : length w + 0 ≡ length w = omega arith in
    (
      (pre ++ (w ++ 0 ∷ []), length pre, ks),
      rw e at passed ∙ split_loop_end _ _ _ ks,
      record {
        before = pre;
        last = t;
        is_term = h;
        string = refl;
        start = refl;
        room = omega arith;
        added = refl;
      },
    )
split_loop-Split (u ∷ us) t pre ks h (k, hs) room =
    let w = written t in
    let rest = joined u us in
    let tail = rest ++ 0 ∷ [] in
    let passed =
      split_loop-append w pre (38 ∷ tail) (length pre) (suc (length rest)) ks
        (written-IsWord t h) in
    let sub = parse_keys_sub-add t pre tail ks h (omega arith) in
    let outer' = append_assoc pre w (0 ∷ tail) in
    let sub' : parse_keys_sub ((pre ++ w) ++ 0 ∷ tail) (length pre) ks ≡ done (add t ks) =
      rw outer' sub in
    let outer = append_assoc pre w (38 ∷ tail) in
    let next = split_loop-sub (pre ++ w) tail (length pre) (length rest) ks (add t ks) sub' in
    let pre2 = (pre ++ w) ++ 0 ∷ [] in
    let (r, ran, split) =
      split_loop-Split us u pre2 (add t ks) k hs (omega (arith, load-add t ks)) in
    (
      r,
      rw (length-append w (38 ∷ rest)) (
          rw (append_assoc w (38 ∷ rest) (0 ∷ [])) (
            passed
            ∙ ap (λ b. split_loop (suc (length rest)) (length (pre ++ w)) b (length pre) ks)
                (sym outer)
            ∙ next
            ∙ ran)),
      record {
        before = split.before;
        last = split.last;
        is_term = split.is_term;
        string = split.string;
        start = split.start;
        room = split.room;
        added = split.added;
      },
    )
