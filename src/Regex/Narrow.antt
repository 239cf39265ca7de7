-- ===== src/Regex/Narrow.antt =====
-- Calls of `sa_find` in lib/regex.c, one behind the other: the order of the strings of a range behind
-- a character that all of them share.
use sufary.Base.{
  ℕ, zero, suc, ◌+◌, ◌≤◌, ◌<◌, ◌≡◌, refl, inl, inr, ◌∙◌, ap, sym, List, [], ◌∷◌, length, get_or,
  take, drop, length-take, length-drop, get_or-take, get_or-drop, arith,
}
use sufary.Base.Run.{Run, Ends, done}
use sufary.File.{Sufary}
use sufary.Search.{SufResult, success, fail}
use sufary.Search.Round.{entry}
use sufary.Search.Suffix.{suffix, LexLe, Occurs, IsOpened, IsOrdered}
use sufary.Search.Find.{Finds, sa_find-Finds}
use sufary.Regex.Sub.{SaResult, SaResultList, find_then}
use sufary.Regex.Results.{Adds, Adds-refl, Adds-iff}

module _ {ℓ} {A : Type ℓ} where
  drop-suc : (n : ℕ) (xs : List A) → drop (suc n) xs ≡ drop 1 (drop n xs)
  drop-suc zero [] = refl
  drop-suc zero (x ∷ xs) = refl
  drop-suc (suc n) [] = refl
  drop-suc (suc n) (x ∷ xs) = drop-suc n xs

  get_or-take_one : (xs : List A) (c d : A) → take 1 xs ≡ c ∷ [] → get_or xs 0 d ≡ c
  get_or-take_one [] c d h = cc
  get_or-take_one (x ∷ xs) c d h = cc

LexLe-tail :
    (xs ys : List ℕ) (c : ℕ)
    → take 1 xs ≡ c ∷ []
    → take 1 ys ≡ c ∷ []
    → LexLe xs ys
    → LexLe (drop 1 xs) (drop 1 ys)
LexLe-tail [] ys c h k l = tt
LexLe-tail (x ∷ xs) [] c h k l = elim l [ ]
LexLe-tail (x ∷ xs) (y ∷ ys) c h k (inl l) =
    let e : x ≡ c = cc in let e' : y ≡ c = cc in absurd (omega arith)
LexLe-tail (x ∷ xs) (y ∷ ys) c h k (inr (_, l)) = l

module _ (ary : Sufary) where
  -- The range is not empty, lies in the index, and its strings from `base` on are in order.
  pub record IsRange (base : ℕ) (sr : SufResult) : Type 0 where
    pub some_entry : sr.left ≤ sr.right
    pub in_array : sr.right < ary.arraysize
    pub ordered : IsOrdered ary base sr.left sr.right

  suffix-suc : (base i : ℕ) → suffix ary (base + 1) i ≡ drop 1 (suffix ary base i)
  suffix-suc base i =
      let e : entry ary i + (base + 1) ≡ suc (entry ary i + base) = omega arith in
      rw e (drop-suc (entry ary i + base) (take ary.textsize ary.text))

  Occurs-lt : (base c i : ℕ) → Occurs ary base (c ∷ []) i → entry ary i + base < ary.textsize
  Occurs-lt base c i h =
      let text = take ary.textsize ary.text in
      omega (
        arith,
        ap length h,
        length-take 1 (suffix ary base i),
        length-drop (entry ary i + base) text,
        length-take ary.textsize ary.text,
      )

  -- The character that occurs is the text's.
  pub Occurs-get_or :
      (base c i : ℕ) → Occurs ary base (c ∷ []) i → get_or ary.text (entry ary i + base) 0 ≡ c
  Occurs-get_or base c i h =
      let n = entry ary i + base in
      let text = take ary.textsize ary.text in
      let z : n + 0 ≡ n = omega arith in
      sym (get_or-take ary.textsize ary.text n 0 (Occurs-lt base c i h))
      ∙ sym (rw z at (get_or-drop n text 0 0))
      ∙ get_or-take_one (suffix ary base i) c 0 h

  -- Behind a character that all strings of a part of a range begin with, they are in order.
  pub IsOrdered-narrow :
      (base c left right left' right' : ℕ)
      → IsOrdered ary base left right
      → left ≤ left'
      → right' ≤ right
      → ((i : ℕ) → left' ≤ i → i ≤ right' → Occurs ary base (c ∷ []) i)
      → IsOrdered ary (base + 1) left' right'
  IsOrdered-narrow base c left right left' right' o a b occurs = record {
    long = λ i p q. omega (arith, Occurs-lt base c i (occurs i p q));
    ascends = λ i j p q r.
        rw (suffix-suc base i, suffix-suc base j)
          (LexLe-tail (suffix ary base i) (suffix ary base j) c (occurs i p (omega arith))
            (occurs j (omega arith) r) (o.ascends i j (omega arith) q (omega arith)));
  }

  -- What is added for each entry of a range.
  abbrev pub Within : SufResult → (ℕ → SaResult → Type 0) → SaResult → Type 0
  Within sr R x = (i : ℕ) × (sr.left ≤ i) × (i ≤ sr.right) × R i x

  -- A search for one character, with what follows it, adds what belongs to the entries that have it.
  pub find_then-Adds :
      (opened : IsOpened ary) (sr : SufResult) (base c : ℕ) (next : SufResult → Run SaResultList)
      (R : ℕ → SaResult → Type 0) (xs : SaResultList)
      → IsRange base sr
      → 0 < c
      → ((sr' : SufResult)
          → IsRange (base + 1) sr'
          → ((i : ℕ) → sr'.left ≤ i → i ≤ sr'.right → Occurs ary base (c ∷ []) i)
          → Ends (next sr') (Adds (Within sr' R) xs))
      → Ends
          (find_then ary sr (c ∷ []) base next xs)
          (Adds (Within sr (λ i x. Occurs ary base (c ∷ []) i × R i x)) xs)
  unfolding find_then
  find_then-Adds opened sr base c next R xs range h go =
      let (sr', ran, finds) =
        sa_find-Finds ary sr.left sr.right base (c ∷ []) opened range.ordered range.in_array (h, tt)
          range.some_entry (omega arith) in
      rw ran (found sr' finds)
    where
      found :
          (sr' : SufResult)
          → Finds ary sr.left sr.right (c ∷ []) base sr'
          → Ends
              (elim sr'.stat as (λ s. Run SaResultList) [ success ↦ next sr' | fail ↦ done xs ])
              (Adds (Within sr (λ i x. Occurs ary base (c ∷ []) i × R i x)) xs)
      found sr' (inl (e, none)) =
          rw e (xs, refl, Adds-refl _ xs (λ x (i, a, b, (o, _)). none i a b o))
      found sr' (inr (e, a, b, d, iff)) =
          let all = λ (i : ℕ) (p : sr'.left ≤ i) (q : i ≤ sr'.right).
            (iff i (omega arith) (omega arith)).1 (p, q) in
          let range' : IsRange (base + 1) sr' = record {
            some_entry = b;
            in_array = omega (arith, range.in_array);
            ordered =
                IsOrdered-narrow base c sr.left sr.right sr'.left sr'.right range.ordered a d all;
          } in
          let (out, ran, adds) = go sr' range' all in
          rw e (
            out,
            ran,
            Adds-iff (Within sr' R) (Within sr (λ i x. Occurs ary base (c ∷ []) i × R i x)) xs out
                adds
                (λ x. (
                  λ (i, p, q, r). (i, omega arith, omega arith, (all i p q, r)),
                  λ (i, p, q, (o, r)). let (p', q') = (iff i p q).0 o in (i, p', q', r),
                )),
          )
