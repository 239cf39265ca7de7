-- ===== src/ArticleFinder/HasKey.antt =====
-- The documents that hold a keyword, and what `sa_find` tells of them to `do_kensaku` of src/af.c.
use sufary.Base.{ℕ, ◌+◌, ◌-◌, ◌≤◌, ◌<◌, ◌≡◌, ◌⊎◌, inl, inr, ◌↔◌, List, [], ◌∷◌, length, All, arith}
use sufary.Base.Run.{Ends}
use sufary.File.{Sufary}
use sufary.Search.{SufResult, success, fail, sa_find, keyword_max_length}
use sufary.Search.Round.{entry}
use sufary.Search.Suffix.{IsOpened, IsOrdered, Occurs}
use sufary.Search.Find.{Finds, sa_find-Finds}
use sufary.Did.{Did}
use sufary.Did.Locate.{IsRegions}
use sufary.ArticleFinder.Marks.{Holds, HoldsFrom}

-- A keyword that the search can be given: no zero byte, and it fits in the search's buffer.
abbrev pub IsKey : List ℕ → Type 0
IsKey key = All (λ b. 0 < b) key × (length key < keyword_max_length)

module _ (ary : Sufary) (did : Did) where
  -- The keyword begins at a position that document `i` contains.
  abbrev pub HasKey : List ℕ → ℕ → Type 0
  HasKey key i = (j : ℕ) × (j < ary.arraysize) × Occurs ary 0 key j × Holds did (entry ary j) i

  abbrev pub HasSome : List (List ℕ) → ℕ → Type 0
  HasSome [] i = ⊥
  HasSome (key ∷ keys) i = HasKey key i ⊎ HasSome keys i

  abbrev pub HasAll : List (List ℕ) → ℕ → Type 0
  HasAll [] i = Unit
  HasAll (key ∷ keys) i = HasKey key i × HasAll keys i

  module _ (junk : ℕ) (opened : IsOpened ary) (ordered : IsOrdered ary 0 0 (ary.arraysize - 1))
      (some_entry : 0 < ary.arraysize) (regions : IsRegions did) where
    -- The entries that a search finds are those of the documents that have the key.
    found_iff :
        (key : List ℕ) (sr : SufResult)
        → sr.right ≤ ary.arraysize - 1
        → ((j : ℕ)
            → 0 ≤ j
            → j ≤ ary.arraysize - 1
            → Occurs ary 0 key j ↔ ((sr.left ≤ j) × (j ≤ sr.right)))
        → (i : ℕ) → HoldsFrom did ary sr.left (sr.right + 1 - sr.left) i ↔ HasKey key i
    found_iff key sr b iff i = (
      λ (j, p, q, h). (j, omega arith, (iff j (omega arith) (omega arith)).1 (p, omega arith), h),
      λ (j, p, o, h).
          let (q, r) = (iff j (omega arith) (omega arith)).0 o in (j, q, omega arith, h),
    )

    -- What a search for a keyword means for the documents: none has it, or the range found is that
    -- of those that have it.
    abbrev pub Search : List ℕ → SufResult → Type 0
    Search key sr =
        ((sr.stat ≡ fail) × ((i : ℕ) → ¬ HasKey key i))
        ⊎ ((sr.stat ≡ success)
            × (sr.left ≤ sr.right)
            × (sr.right < ary.arraysize)
            × ((i : ℕ) → HoldsFrom did ary sr.left (sr.right + 1 - sr.left) i ↔ HasKey key i))

    pub find_key :
        (key : List ℕ) → IsKey key → Ends (sa_find ary 0 (ary.arraysize - 1) key 0) (Search key)
    find_key key (nonzero, short) =
        let (sr, ran, finds) =
          sa_find-Finds ary 0 (ary.arraysize - 1) 0 key opened ordered (omega arith) nonzero
            (omega arith) short in
        (sr, ran, as_search sr finds)
      where
        as_search : (sr : SufResult) → Finds ary 0 (ary.arraysize - 1) key 0 sr → Search key sr
        as_search sr (inl (e, none)) =
            inl (e, λ i (j, p, o, _). none j (omega arith) (omega arith) o)
        as_search sr (inr (e, a, b, c, iff)) = inr (e, b, omega arith, found_iff key sr c iff)
