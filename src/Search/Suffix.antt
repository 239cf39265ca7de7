-- ===== src/Search/Suffix.antt =====
-- The strings that an index orders, as lists, and as the characters that lib/search.c compares.
use sufary.Base.{
  ℕ, zero, suc, ◌+◌, ◌≤◌, ◌<◌, ◌≡◌, refl, sym, ap, ◌∙◌, ◌⊎◌, inl, inr, List, [], ◌∷◌, map, length,
  get_or, take, drop, get_or-drop, get_or-take, All, arith,
}
use native.Mathlib.Decide.{dec_lt, ℕ_discrete}
use sufary.Base.Int.{pos}
use sufary.File.{Sufary}
use sufary.Search.Lex.{Agree, Le, Agree-suc, Lt-mono}
use sufary.Search.Compare.{key_at}
use sufary.Search.Round.{entry, suffix_at}

-- The text from the position of entry `i` on, without its first `base` characters.
abbrev pub suffix : Sufary → ℕ → ℕ → List ℕ
suffix ary base i = drop (entry ary i + base) (take ary.textsize ary.text)

-- The alphabetical order of byte strings: one that another one continues comes first.
abbrev pub LexLe : List ℕ → List ℕ → Type 0
LexLe [] ys = Unit
LexLe (x ∷ xs) [] = ⊥
LexLe (x ∷ xs) (y ∷ ys) = (x < y) ⊎ ((x ≡ y) × LexLe xs ys)

-- The string at entry `i` begins with the key.
abbrev pub Occurs : Sufary → ℕ → List ℕ → ℕ → Type 0
Occurs ary base key i = take (length key) (suffix ary base i) ≡ key

-- An opened text: bytes, with the zeros behind the end of the file that its last page holds, and
-- an index of positions in it.
pub record IsOpened (ary : Sufary) : Type 0 where
  pub ends_inside : ary.textsize < length ary.text
  pub is_byte : (p : ℕ) → get_or ary.text p 0 < 256
  pub padding : (p : ℕ) → ary.textsize ≤ p → get_or ary.text p 0 ≡ 0
  pub has_array : ary.arraysize ≤ length ary.array
  pub is_position : (i : ℕ) → i < ary.arraysize → entry ary i < ary.textsize

-- The entries from `left` to `right` are in alphabetical order, apart from the first `base`
-- characters of their strings, which exist.
pub record IsOrdered (ary : Sufary) (base left right : ℕ) : Type 0 where
  pub long : (i : ℕ) → left ≤ i → i ≤ right → entry ary i + base ≤ ary.textsize
  pub ascends :
      (i j : ℕ) → left ≤ i → i ≤ j → j ≤ right → LexLe (suffix ary base i) (suffix ary base j)

abbrev pub padded : List ℕ → ℕ → ℕ
padded xs j = suc (get_or xs j 0)

module _ {ℓ} {A : Type ℓ} where
  pub get_or-take_out : (n : ℕ) (xs : List A) (i : ℕ) (d : A) → n ≤ i → get_or (take n xs) i d ≡ d
  get_or-take_out zero xs i d h = refl
  get_or-take_out (suc n) [] i d h = refl
  get_or-take_out (suc n) (x ∷ xs) zero d h = absurd (omega arith)
  get_or-take_out (suc n) (x ∷ xs) (suc i) d h = get_or-take_out n xs i d (omega arith)

pub suffix_at-padded :
    (ary : Sufary) (base i : ℕ)
    → IsOpened ary
    → (j : ℕ) → suffix_at ary base i j ≡ padded (suffix ary base i) j
suffix_at-padded ary base i o j =
    let p = entry ary i + base + j in
    ap suc (
      sym (
        get_or-drop (entry ary i + base) (take ary.textsize ary.text) j 0
        ∙ (elim (dec_lt p ary.textsize) [
          | yes inside ↦ get_or-take ary.textsize ary.text p 0 inside
          | no out ↦
              get_or-take_out ary.textsize ary.text p 0 (omega arith)
              ∙ sym (o.padding p (omega arith))
        ])))

Le-pointwise : (n : ℕ) {f g : ℕ → ℕ} → ((j : ℕ) → f j ≤ g j) → Le n f g
Le-pointwise zero h = inr (λ j b. elim b [ ])
Le-pointwise (suc n) {f} {g} h = elim (Le-pointwise n h) as (λ l. Le (suc n) f g) [
  | inl less ↦ inl (Lt-mono (omega arith) less)
  | inr same ↦ elim (ℕ_discrete (f n) (g n)) [
    | yes e ↦ inr (Agree-suc n same e)
    | no ne ↦ inl (n, omega arith, same, omega (arith, h n))
  ]
]

Le-cons :
    (n x : ℕ) (xs ys : List ℕ)
    → Le n (padded xs) (padded ys)
    → Le (suc n) (padded (x ∷ xs)) (padded (x ∷ ys))
Le-cons n x xs ys (inl (d, b, a, l)) =
    inl (suc d, omega arith, elim [ zero ↦ λ c. refl | suc j ↦ λ c. a j (omega arith) ], l)
Le-cons n x xs ys (inr a) = inr (elim [ zero ↦ λ c. refl | suc j ↦ λ c. a j (omega arith) ])

-- The order of strings is the order of their characters, with zeros behind their ends.
pub LexLe-Le : (n : ℕ) (xs ys : List ℕ) → LexLe xs ys → Le n (padded xs) (padded ys)
LexLe-Le n [] ys h = Le-pointwise n (λ j. omega arith)
LexLe-Le n (x ∷ xs) [] h = elim h [ ]
LexLe-Le zero (x ∷ xs) (y ∷ ys) h = inr (λ j b. elim b [ ])
LexLe-Le (suc n) (x ∷ xs) (y ∷ ys) (inl l) = inl (0, omega arith, (λ j b. elim b [ ]), omega arith)
LexLe-Le (suc n) (x ∷ xs) (y ∷ ys) (inr (e, h)) = rw e (Le-cons n y xs ys (LexLe-Le n xs ys h))

-- A key without zero bytes is found character by character exactly where it is a prefix.
pub Agree→take :
    (key xs : List ℕ)
    → All (λ b. 0 < b) key
    → Agree (length key) (padded xs) (key_at (map pos key))
    → take (length key) xs ≡ key
Agree→take [] xs h a = refl
Agree→take (k ∷ key) [] h a = absurd (omega (arith, a 0 (omega arith)))
Agree→take (k ∷ key) (x ∷ xs) h a =
    let head : x ≡ k = omega (arith, a 0 (omega arith)) in
    rw (head, Agree→take key xs h.1 (λ j b. a (suc j) (omega arith)))

pub take→Agree :
    (key xs : List ℕ)
    → take (length key) xs ≡ key
    → Agree (length key) (padded xs) (key_at (map pos key))
take→Agree [] xs e j b = elim b [ ]
take→Agree (k ∷ key) [] e j b = ground arith
take→Agree (k ∷ key) (x ∷ xs) e zero b = ground arith
take→Agree (k ∷ key) (x ∷ xs) e (suc j) b = take→Agree key xs (ground arith) j (omega arith)
