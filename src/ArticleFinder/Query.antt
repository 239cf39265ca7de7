-- ===== src/ArticleFinder/Query.antt =====
-- `do_kensaku` of src/af.c on a query that is written with `&` and `^`.
use sufary.Base.{
  ℕ, ◌-◌, ◌/◌, ◌≤◌, ◌<◌, ◌≡◌, List, [], ◌∷◌, ◌++◌, length, get_or, true, ltb, All, arith,
}
use sufary.Base.Run.{Ends}
use sufary.File.{Sufary}
use sufary.Search.Suffix.{IsOpened, IsOrdered}
use sufary.Did.{Did}
use sufary.Did.Locate.{IsRegions}
use sufary.ArticleFinder.{Keys, no_keys, search_keys, do_kensaku}
use sufary.ArticleFinder.HasKey.{IsKey, HasSome, HasAll}
use sufary.ArticleFinder.Wanted.{Answers, search_keys-Answers}
use sufary.ArticleFinder.SplitKeys.{Term, wanted, unwanted, IsWord, IsTerm, joined, add, add_all}
use sufary.ArticleFinder.ParseKeys.{parse_keys-joined}

abbrev AreKeys : Keys → Type 0
AreKeys ks = All IsKey ks.nkeys × All IsKey ks.keys

All-append :
    (rows : List (List ℕ)) (w : List ℕ) → All IsKey rows → IsKey w → All IsKey (rows ++ w ∷ [])
All-append [] w h k = (k, tt)
All-append (r ∷ rows) w (p, h) k = (p, All-append rows w h k)

word-IsKey : (w : List ℕ) → IsWord w → length w < 80 → IsKey w
word-IsKey w h short = (positive w h, omega arith)
  where
    positive : (w : List ℕ) → IsWord w → All (λ b. 0 < b) w
    positive [] h = tt
    positive (c ∷ w) ((p, _), h) = (p, positive w h)

add-AreKeys : (t : Term) (ks : Keys) → IsTerm t → AreKeys ks → AreKeys (add t ks)
add-AreKeys (wanted []) ks h k = elim h [ ]
add-AreKeys (wanted (c ∷ w)) ks (_, h, short) (a, b) =
    (a, All-append ks.keys (c ∷ w) b (word-IsKey (c ∷ w) h short))
add-AreKeys (unwanted w) ks (h, short) (a, b) = (All-append ks.nkeys w a (word-IsKey w h short), b)

add_all-AreKeys :
    (us : List Term) (t : Term) (ks : Keys)
    → IsTerm t
    → All IsTerm us
    → AreKeys ks
    → AreKeys (add_all t us ks)
add_all-AreKeys [] t ks h hs k = add-AreKeys t ks h k
add_all-AreKeys (u ∷ us) t ks h (g, hs) k =
    add_all-AreKeys us u (add t ks) g hs (add-AreKeys t ks h k)

module _ (ary : Sufary) (did : Did) (junk : ℕ) (opened : IsOpened ary)
    (ordered : IsOrdered ary 0 0 (ary.arraysize - 1)) (some_entry : 0 < ary.arraysize)
    (regions : IsRegions did) (small : ary.textsize < 2147483648) (c : List ℕ)
    (size : did.didsize / 2 ≤ length c) (clear : (i : ℕ) → get_or c i 0 ≡ 0) where
  search_some :
      (nkeys keys : List (List ℕ))
      → All IsKey nkeys
      → All IsKey keys
      → 1 ≤ length keys
      → length keys ≤ 8
      → Ends
          (search_keys ary did junk true (record { nkeys = nkeys; keys = keys }) c)
          (Answers did (λ i. (¬ HasSome ary did nkeys i) × HasAll ary did keys i))
  search_some nkeys [] a b some_key few = absurd (omega arith)
  search_some nkeys (key ∷ keys) a (b, h) some_key few =
      search_keys-Answers ary did junk opened ordered some_entry regions small nkeys key keys c a b
        h (omega arith) size clear

  -- On an opened, ordered index that is not empty, of a text that an int can measure, with documents
  -- that do not overlap and cleared check bytes, where the memory for the areas is found, for a query of up to a hundred terms that fit in their rows, one to eight of them
  -- wanted: `do_kensaku` ends, and its areas are exactly the documents that hold each wanted keyword
  -- of the query and no unwanted one, once each and in full.
  pub do_kensaku-Answers :
      (t : Term) (us : List Term)
      → IsTerm t
      → All IsTerm us
      → length us < 100
      → 1 ≤ length (add_all t us no_keys).keys
      → length (add_all t us no_keys).keys ≤ 8
      → Ends (do_kensaku ary did junk true (joined t us ++ 0 ∷ []) c) (
          Answers did (λ i.
            (¬ HasSome ary did (add_all t us no_keys).nkeys i)
            × HasAll ary did (add_all t us no_keys).keys i))
  unfolding do_kensaku
  do_kensaku-Answers t us h hs room some_key few =
      let ks = add_all t us no_keys in
      let (a, b) = add_all-AreKeys us t no_keys h hs (tt, tt) in
      let well : ltb 0 (length ks.keys) ≡ true = ground arith in
      rw (parse_keys-joined t us h hs room)
        (rw well (search_some ks.nkeys ks.keys a b some_key few))
