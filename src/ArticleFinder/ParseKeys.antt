-- ===== src/ArticleFinder/ParseKeys.antt =====
-- `parse_keys` of src/af.c on a query that is written with `&` and `^`.
use sufary.Base.{
  ℕ, suc, ◌+◌, ◌-◌, ◌<◌, ◌≡◌, ◌≢◌, refl, sym, ap, ◌∙◌, List, [], ◌∷◌, ◌++◌, length, length-append,
  get_elem?, Bool, false, ltb, if◌then◌else◌, ◌==◌, ◌&&◌, some, All, arith,
}
use native.Mathlib.Decide.{ℕ_discrete}
use sufary.Base.Run.{Run, done, or_fault, ◌>>=◌}
use sufary.ArticleFinder.{
  Keys, no_keys, string_at, parse_keys_sub, double_loop, split_keys, parse_keys,
}
use sufary.ArticleFinder.SplitKeys.{
  Term, wanted, unwanted, IsWord, IsTerm, written, joined, add_all, append_assoc, get_elem?-append,
  here, parse_keys_sub-add, written-IsWord, Split, split_loop-Split,
}

-- No two signs stand next to each other.
abbrev NoDouble : List ℕ → Type 0
NoDouble [] = Unit
NoDouble (c ∷ []) = Unit
NoDouble (c ∷ d ∷ s) = (¬ ((c ≡ 38) × (d ≡ 38))) × NoDouble (d ∷ s)

double_loop-NoDouble :
    (s pre tail : List ℕ)
    → NoDouble s
    → double_loop (pre ++ (s ++ tail)) (length s - 1) (length pre) ≡ done false
unfolding double_loop
double_loop-NoDouble [] pre tail h = refl
double_loop-NoDouble (c ∷ []) pre tail h = refl
double_loop-NoDouble (c ∷ d ∷ s) pre tail (ne, h) =
    let one_more : length (pre ++ c ∷ []) ≡ length pre + 1 = length-append pre (c ∷ []) in
    let same = append_assoc pre (c ∷ []) ((d ∷ s) ++ tail) in
    let next = double_loop-NoDouble (d ∷ s) (pre ++ c ∷ []) tail h in
    let next' = rw same at (rw one_more at next) in
    let first = here pre ((d ∷ s) ++ tail) c in
    let second = get_elem?-append pre (c ∷ (d ∷ s) ++ tail) 1 in
    let single : ((c == 38) && (d == 38)) ≡ false = not_both c d ne in
    let rounds : suc (suc (length s)) - 1 ≡ suc (length s) = omega arith in
    let rounds' : suc (length s) - 1 ≡ length s = omega arith in
    rw rounds (rw first (rw second (rw single (rw rounds' at next'))))
  where
    not_both : (c d : ℕ) → ¬ ((c ≡ 38) × (d ≡ 38)) → ((c == 38) && (d == 38)) ≡ false
    not_both c d h = elim (ℕ_discrete c 38) [
      | no ne ↦ ground arith
      | yes e ↦ elim (ℕ_discrete d 38) [ yes e' ↦ absurd (h (e, e')) | no ne ↦ ground arith ]
    ]

-- The string begins and ends with a character that is no sign.
record Ended (s : List ℕ) : Type 0 where
  first : ℕ
  rest : List ℕ
  begins : s ≡ first ∷ rest
  first_ne : first ≢ 38
  front : List ℕ
  last : ℕ
  ends : s ≡ front ++ last ∷ []
  last_ne : last ≢ 38

word-Ended : (c : ℕ) (w : List ℕ) → IsWord (c ∷ w) → Ended (c ∷ w)
word-Ended c [] ((_, ne), _) = record {
  first = c;
  rest = [];
  begins = refl;
  first_ne = ne;
  front = [];
  last = c;
  ends = refl;
  last_ne = ne;
}
word-Ended c (d ∷ w) ((_, ne), h) =
    let e = word-Ended d w h in
    record {
      first = c;
      rest = d ∷ w;
      begins = refl;
      first_ne = ne;
      front = c ∷ e.front;
      last = e.last;
      ends = ap (λ l. c ∷ l) e.ends;
      last_ne = e.last_ne;
    }

written-Ended : (t : Term) → IsTerm t → Ended (written t)
written-Ended (wanted []) h = elim h [ ]
written-Ended (wanted (c ∷ w)) (_, h, _) = word-Ended c w h
written-Ended (unwanted w) h = word-Ended 94 w (written-IsWord (unwanted w) h)

joined-Ended : (us : List Term) (t : Term) → IsTerm t → All IsTerm us → Ended (joined t us)
joined-Ended [] t h hs = written-Ended t h
joined-Ended (u ∷ us) t h (k, hs) =
    let a = written-Ended t h in
    let b = joined-Ended us u k hs in
    record {
      first = a.first;
      rest = a.rest ++ 38 ∷ joined u us;
      begins = ap (λ l. l ++ 38 ∷ joined u us) a.begins;
      first_ne = a.first_ne;
      front = written t ++ 38 ∷ b.front;
      last = b.last;
      ends =
          ap (λ l. written t ++ 38 ∷ l) b.ends
          ∙ sym (append_assoc (written t) (38 ∷ b.front) (b.last ∷ []));
      last_ne = b.last_ne;
    }

word-NoDouble : (w : List ℕ) → IsWord w → NoDouble w
word-NoDouble [] h = tt
word-NoDouble (c ∷ []) h = tt
word-NoDouble (c ∷ d ∷ w) ((_, ne), h) = ((λ (e, _). ne e), word-NoDouble (d ∷ w) h)

append-NoDouble : (w s : List ℕ) → IsWord w → Ended s → NoDouble s → NoDouble (w ++ 38 ∷ s)
append-NoDouble [] s h e n = rw e.begins ((λ (_, e'). e.first_ne e'), rw e.begins at n)
append-NoDouble (c ∷ []) s ((_, ne), _) e n = ((λ (e', _). ne e'), append-NoDouble [] s tt e n)
append-NoDouble (c ∷ d ∷ w) s ((_, ne), h) e n =
    ((λ (e', _). ne e'), append-NoDouble (d ∷ w) s h e n)

joined-NoDouble : (us : List Term) (t : Term) → IsTerm t → All IsTerm us → NoDouble (joined t us)
joined-NoDouble [] t h hs = word-NoDouble (written t) (written-IsWord t h)
joined-NoDouble (u ∷ us) t h (k, hs) =
    append-NoDouble (written t) (joined u us) (written-IsWord t h) (joined-Ended us u k hs)
      (joined-NoDouble us u k hs)

abbrev IsString : List ℕ → Type 0
IsString s = All (λ c. 0 < c) s

word-append-IsString : (w s : List ℕ) → IsWord w → IsString s → IsString (w ++ s)
word-append-IsString [] s h k = k
word-append-IsString (c ∷ w) s ((p, _), h) k = (p, word-append-IsString w s h k)

word-IsString : (w : List ℕ) → IsWord w → IsString w
word-IsString [] h = tt
word-IsString (c ∷ w) ((p, _), h) = (p, word-IsString w h)

joined-IsString : (us : List Term) (t : Term) → IsTerm t → All IsTerm us → IsString (joined t us)
joined-IsString [] t h hs = word-IsString (written t) (written-IsWord t h)
joined-IsString (u ∷ us) t h (k, hs) =
    word-append-IsString (written t) (38 ∷ joined u us) (written-IsWord t h)
      (omega arith, joined-IsString us u k hs)

string_at-IsString : (s tail : List ℕ) → IsString s → string_at (s ++ 0 ∷ tail) ≡ done s
unfolding string_at
string_at-IsString [] tail h = refl
string_at-IsString (c ∷ s) tail (p, h) =
    let some_char : (c == 0) ≡ false = ground arith in
    rw some_char (rw (string_at-IsString s tail h) refl)

-- the end of `parse_keys`, where the last term is added
abbrev read_last : List ℕ → ℕ → Keys → Run (Bool × Keys)
read_last kstr start ks = or_fault (get_elem? kstr start) >>= λ d.
    (if d == 0 then done ks else parse_keys_sub kstr start ks) >>= λ ks'.
    done (ltb 0 (length ks'.keys), ks')

split_keys_end :
    (t : Term) (us : List Term) (r : List ℕ × ℕ × Keys)
    → Split t us no_keys r
    → read_last r.0 r.1 r.2
      ≡ done (ltb 0 (length (add_all t us no_keys).keys), add_all t us no_keys)
split_keys_end t us (kstr, start, ks) split =
    let e = written-Ended split.last split.is_term in
    let word = written-IsWord split.last split.is_term in
    let positive : 0 < e.first = (rw e.begins at word).0.0 in
    let some_char : (e.first == 0) ≡ false = ground arith in
    let at = here split.before (e.rest ++ 0 ∷ []) e.first in
    let sub = parse_keys_sub-add split.last split.before [] ks split.is_term split.room in
    let at' : get_elem? kstr start ≡ some e.first =
      rw split.string (rw split.start (rw e.begins at)) in
    let sub' : parse_keys_sub kstr start ks ≡ done (add_all t us no_keys) =
      rw split.string (rw split.start (rw (← split.added) sub)) in
    rw at' (rw some_char (rw sub' refl))

-- Of one to a hundred terms without `&` and the byte 0 that fit in their rows, the wanted ones
-- neither empty nor beginning with `^`, written one behind the other with `&` between them and `^`
-- before each unwanted one: `parse_keys` stores the wanted keywords and the unwanted ones in their
-- order, and returns whether any is wanted.
pub parse_keys-joined :
    (t : Term) (us : List Term)
    → IsTerm t
    → All IsTerm us
    → length us < 100
    → parse_keys (joined t us ++ 0 ∷ []) no_keys
      ≡ done (ltb 0 (length (add_all t us no_keys).keys), add_all t us no_keys)
unfolding parse_keys split_keys
parse_keys-joined t us h hs room =
    let s = joined t us in
    let e = joined-Ended us t h hs in
    let (r, ran, split) = split_loop-Split us t [] no_keys h hs (omega arith) in
    let size : length s ≡ suc (length e.front) =
      ap length e.ends ∙ (omega (arith, length-append e.front (e.last ∷ []))) in
    let at : get_elem? (s ++ 0 ∷ []) (length e.front) ≡ some e.last =
      ap (λ l. get_elem? (l ++ 0 ∷ []) (length e.front)) e.ends
      ∙ (ap (λ l. get_elem? l (length e.front)) (append_assoc e.front (e.last ∷ []) (0 ∷ []))
          ∙ here e.front (0 ∷ []) e.last) in
    let plain : (e.last == 38) ≡ false = let ne = e.last_ne in ground arith in
    rw (string_at-IsString s [] (joined-IsString us t h hs)) (
      rw (double_loop-NoDouble s [] (0 ∷ []) (joined-NoDouble us t h hs))
        (rw size (rw at (rw plain (rw (rw size at ran) (split_keys_end t us r split))))))
