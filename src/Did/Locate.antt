-- ===== src/Did/Locate.antt =====
-- `sa_didsearch` of lib/did.c finds the document that contains a position, if there is one.
use sufary.Base.{
  ◌∙◌, ℕ, zero, suc, ◌+◌, ◌-◌, ◌*◌, ◌/◌, ◌≤◌, ◌<◌, ◌≡◌, refl, ◌⊎◌, inl, inr, Bool, true, false,
  get_or, length, get_elem?-eq-get_or, ltb, leb, ◌&&◌, Bool-cases, ltb→lt, arith,
}
use native.Mathlib.Decide.{dec_lt, ℕ_discrete}
use sufary.Base.Run.{Ends}
use sufary.Base.Int.{is_negative, ltb_int, leb_int, sub_int}
use sufary.Util.{reverse_word}
use sufary.Search.{success, fail, midpoint}
use sufary.Search.Midpoint.{midpoint_exact}
use sufary.Did.{
  Did, DidResult, Scan, step_to, unless_found, scan_round, scan_loop, result_of, sa_didsearch,
}

abbrev pub from_of : Did → ℕ → ℕ
from_of did i = reverse_word (get_or did.docid (i * 2) 0)

abbrev pub to_of : Did → ℕ → ℕ
to_of did i = reverse_word (get_or did.docid (i * 2 + 1) 0)

-- The documents follow one another in the text and do not overlap, and an `int` holds their ends.
pub record IsRegions (did : Did) : Type 0 where
  pub has_docid : did.didsize ≤ length did.docid
  pub apart : (i j : ℕ) → i < j → j < did.didsize / 2 → to_of did i ≤ from_of did j
  pub is_int : (i : ℕ) → i < did.didsize → reverse_word (get_or did.docid i 0) < 2147483648
  pub forward : (i : ℕ) → i < did.didsize / 2 → from_of did i ≤ to_of did i

-- Document `i` contains the position.
abbrev pub Contains : Did → ℕ → ℕ → Type 0
Contains did target i = (from_of did i ≤ target) × (target < to_of did i)

abbrev pub Located : Did → ℕ → DidResult → Type 0
Located did target r =
    ((r.stat ≡ success)
      × (r.no < did.didsize / 2)
      × Contains did target r.no
      × (r.start ≡ from_of did r.no)
      × (r.start + r.size ≡ to_of did r.no))
    ⊎ ((r.stat ≡ fail) × ((i : ℕ) → i < did.didsize / 2 → ¬ Contains did target i))

ltb_int-ltb : (a b : ℕ) → a < 2147483648 → b < 2147483648 → ltb_int a b ≡ ltb a b
ltb_int-ltb a b p q =
    let e : is_negative a ≡ false = ground arith in
    let e' : is_negative b ≡ false = ground arith in rw e (rw e' refl)

leb_int-leb : (a b : ℕ) → a < 2147483648 → b < 2147483648 → leb_int a b ≡ leb a b
leb_int-leb a b p q =
    let e : is_negative a ≡ false = ground arith in
    let e' : is_negative b ≡ false = ground arith in rw e (rw e' refl)

sub_int-small : (a b : ℕ) → b ≤ a → a < 2147483648 → sub_int a b ≡ a - b
sub_int-small a b h s = omega arith

module _ (did : Did) (target : ℕ) (regions : IsRegions did) (small : target < 2147483648) where
  from_of-small : (i : ℕ) → i < did.didsize / 2 → from_of did i < 2147483648
  from_of-small i h = regions.is_int (i * 2) (omega arith)

  to_of-small : (i : ℕ) → i < did.didsize / 2 → to_of did i < 2147483648
  to_of-small i h = regions.is_int (i * 2 + 1) (omega arith)

  to_of_mono : (i j : ℕ) → i ≤ j → j < did.didsize / 2 → to_of did i ≤ to_of did j
  to_of_mono i j h b = elim (ℕ_discrete i j) [
    | yes e ↦ rw e (omega arith)
    | no ne ↦ omega (arith, regions.apart i j (omega arith) b, regions.forward j b)
  ]

  from_of_mono : (i j : ℕ) → i ≤ j → j < did.didsize / 2 → from_of did i ≤ from_of did j
  from_of_mono i j h b = elim (ℕ_discrete i j) [
    | yes e ↦ rw e (omega arith)
    | no ne ↦ omega (arith, regions.apart i j (omega arith) b, regions.forward i (omega arith))
  ]

  -- Documents outside [li, ri) do not contain the position, nor does the one looked at last.
  record Inv (s : Scan) : Type 0 where
    ordered : s.li ≤ s.ri
    inside : s.ri ≤ did.didsize / 2
    before : (i : ℕ) → i < s.li → ¬ Contains did target i
    after : (i : ℕ) → s.ri ≤ i → i < did.didsize / 2 → ¬ Contains did target i
    not_last : ¬ ((s.region_from ≤ target) × (target < s.region_to))
    small_from : s.region_from < 2147483648
    small_to : s.region_to < 2147483648

  record Hit (s : Scan) : Type 0 where
    number : s.cur < did.didsize / 2
    is_from : s.region_from ≡ from_of did s.cur
    is_to : s.region_to ≡ to_of did s.cur
    from_le : s.region_from ≤ target
    lt_to : target < s.region_to

  abbrev Narrowed : Scan → Scan × Bool → Type 0
  Narrowed s (s', true) = Hit s'
  Narrowed s (s', false) = Inv s' × (s'.ri - s'.li < s.ri - s.li)

  module _ (s : Scan) (inv : Inv s) (more : s.li < s.ri) where
    looked : Scan
    looked = record s {
      cur = midpoint s.li s.ri;
      region_from = from_of did (midpoint s.li s.ri);
      region_to = to_of did (midpoint s.li s.ri);
    }

    step_to-Narrowed : Narrowed s (step_to target looked)
    unfolding looked
    step_to-Narrowed =
        let m = midpoint s.li s.ri in
        let low : s.li ≤ m = omega (arith, midpoint_exact s.li s.ri) in
        let high : m < s.ri = omega (arith, midpoint_exact s.li s.ri) in
        let inside : m < did.didsize / 2 = omega (arith, inv.inside) in
        rw (leb_int-leb (to_of did m) target (to_of-small m inside) small) (
          rw (ltb_int-ltb target (from_of did m) small (from_of-small m inside))
            (elim (Bool-cases (leb (to_of did m) target)) [
              | inl past ↦ rw past (
                record {
                  ordered = omega arith;
                  inside = inv.inside;
                  before = λ i h c. elim (dec_lt i s.li) [
                    | yes old ↦ inv.before i old c
                    | no new ↦
                        ground (arith, to_of_mono i m (omega arith) (omega (arith, inv.inside)))
                  ];
                  after = inv.after;
                  not_last = λ c. ground arith;
                  small_from = from_of-small m inside;
                  small_to = to_of-small m inside;
                },
                omega arith,
              )
              | inr not_past ↦ elim (Bool-cases (ltb target (from_of did m))) [
                | inl early ↦
                    rw (not_past, early)
                      (
                        record {
                          ordered = low;
                          inside = omega (arith, inv.inside);
                          before = inv.before;
                          after = λ i h b c. elim (dec_lt i s.ri) [
                            | no old ↦ inv.after i (omega arith) b c
                            | yes new ↦ ground (arith, from_of_mono m i h b)
                          ];
                          not_last = λ c. ground arith;
                          small_from = from_of-small m inside;
                          small_to = to_of-small m inside;
                        },
                        omega arith,
                      )
                | inr here ↦
                    rw (not_past, here)
                      (record {
                        number = omega (arith, inv.inside);
                        is_from = refl;
                        is_to = refl;
                        from_le = ground arith;
                        lt_to = ground arith;
                      })
              ]
            ]))

  scan_round-Narrowed :
      (s : Scan) → Inv s → s.li < s.ri → Ends (scan_round did target s) (Narrowed s)
  unfolding scan_round looked
  scan_round-Narrowed s inv more =
      let m = midpoint s.li s.ri in
      let inside : m < did.didsize / 2 = omega (arith, midpoint_exact s.li s.ri, inv.inside) in
      rw
        (
          get_elem?-eq-get_or did.docid (m * 2) 0 (omega (arith, regions.has_docid)),
          get_elem?-eq-get_or did.docid (m * 2 + 1) 0 (omega (arith, regions.has_docid)),
        )
        (step_to target (looked s inv more), refl, step_to-Narrowed s inv more)

  -- The loop has stopped: at a document that contains the position, or with nothing left.
  abbrev Stopped : Scan → Type 0
  Stopped s = Hit s ⊎ (Inv s × (s.li ≡ s.ri))

  unless_found-Stopped :
      (fuel : ℕ) (s : Scan) (r : Scan × Bool)
      → Narrowed s r
      → s.ri - s.li < suc fuel
      → ((s' : Scan) → Inv s' → s'.ri - s'.li < fuel → Ends (scan_loop did target fuel s') Stopped)
      → Ends (unless_found (scan_loop did target fuel) r) Stopped
  unless_found-Stopped fuel s (s', true) hit f again = (s', refl, inl hit)
  unless_found-Stopped fuel s (s', false) (inv, less) f again = again s' inv (omega arith)

  scan_loop-Stopped :
      (fuel : ℕ) (s : Scan)
      → Inv s
      → s.ri - s.li < fuel
      → Ends (scan_loop did target fuel s) Stopped
  unfolding scan_loop
  scan_loop-Stopped zero s inv f = elim f [ ]
  scan_loop-Stopped (suc fuel) s inv f = elim (Bool-cases (ltb s.li s.ri)) [
    | inr empty ↦ rw (empty, scan_loop) (s, refl, inr (inv, ground (arith, inv.ordered)))
    | inl more ↦
        let (r, ran, narrowed) = scan_round-Narrowed s inv (ltb→lt _ _ more) in
        rw (more, scan_loop)
          (rw ran (unless_found-Stopped fuel s r narrowed f (scan_loop-Stopped fuel)))
  ]

  result_of-Located : (s : Scan) → Stopped s → Located did target (result_of target s)
  result_of-Located s (inl hit) =
      let f : s.region_from < 2147483648 = omega (arith, hit.from_le, small) in
      let t : s.region_to < 2147483648 = omega (arith, hit.is_to, to_of-small s.cur hit.number) in
      let first : leb_int s.region_from target ≡ true =
        leb_int-leb _ _ f small ∙ ground (arith, hit.from_le) in
      let second : ltb_int target s.region_to ≡ true =
        ltb_int-ltb _ _ small t ∙ ground (arith, hit.lt_to) in
      let size =
        sub_int-small s.region_to s.region_from (omega (arith, hit.from_le, hit.lt_to)) t in
      rw (first, second)
        (inl (
          refl,
          hit.number,
          (omega (arith, hit.from_le, hit.is_from), omega (arith, hit.lt_to, hit.is_to)),
          hit.is_from,
          omega (arith, size, hit.from_le, hit.lt_to, hit.is_to),
        ))
  result_of-Located s (inr (inv, empty)) =
      let none_left : (i : ℕ) → i < did.didsize / 2 → ¬ Contains did target i = λ i b.
        elim (dec_lt i s.li) [ yes p ↦ inv.before i p | no p ↦ inv.after i (omega arith) b ] in
      let out : (leb_int s.region_from target && ltb_int target s.region_to) ≡ false =
        rw (leb_int-leb s.region_from target inv.small_from small) (
          rw (ltb_int-ltb target s.region_to small inv.small_to)
            (elim (Bool-cases (leb s.region_from target)) [
              | inr p ↦ rw p
              | inl p ↦ elim (Bool-cases (ltb target s.region_to)) [
                | inr q ↦ rw (p, q)
                | inl q ↦ absurd (inv.not_last (ground arith, ground arith))
              ]
            ])) in
      rw out (inr (refl, none_left))

  -- Of a file of regions, and for a position below 2 ^ 31, `sa_didsearch` ends, and returns the number and the extent of the document that
  -- contains the position, or FAIL where none does, whatever the uninitialised variable holds.
  pub sa_didsearch-Located : (junk : ℕ) → Ends (sa_didsearch junk did target) (Located did target)
  unfolding sa_didsearch
  sa_didsearch-Located junk =
      let (s, ran, stopped) =
        scan_loop-Stopped (suc (did.didsize / 2))
          (record { li = 0; ri = did.didsize / 2; cur = junk; region_from = 0; region_to = 0 })
          (record {
            ordered = omega arith;
            inside = omega arith;
            before = λ i h. absurd (omega arith);
            after = λ i h b. absurd (omega arith);
            not_last = λ c. omega arith;
            small_from = omega arith;
            small_to = omega arith;
          })
          (omega arith) in
      let natural : is_negative target ≡ false = ground (arith, small) in
      rw (natural, sa_didsearch) (rw ran (result_of target s, refl, result_of-Located s stopped))
