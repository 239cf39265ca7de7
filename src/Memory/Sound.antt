-- ===== src/Memory/Sound.antt =====
-- The list that lib/my-malloc.c keeps is what is allocated.
use sufary.Base.{
  ◌⊎◌, ℕ, ◌+◌, ◌≤◌, ◌<◌, ◌≡◌, ◌≢◌, refl, inl, inr, length, ltb, ◌==◌, Bool-cases, true, false, List,
  [], ◌∷◌, Option, none, some, arith, one_if, count,
}
use sufary.Base.Run.{Ends, done}
use sufary.Memory.{
  malloc_list_file_name_max, MallocList, Heap, copy_name, c_free, sa_malloc_aux, unlink,
  keep_before, release, sa_free_aux, leak_loop, sa_memory_leak_check,
}

-- the addresses that the list of allocations names: of its entries, and of their blocks
abbrev pub owned : List MallocList → List ℕ
owned [] = []
owned (e ∷ es) = e.node ∷ e.ptr ∷ owned es

-- What the list names is what is allocated, each address as often.
abbrev pub IsSound : Heap → Type 0
IsSound h = (a : ℕ) → count a h.live ≡ count a (owned h.malloc_list)

one_if_same : (a : ℕ) → one_if a a ≡ 1
one_if_same a = ground arith

-- Freeing an address that is allocated takes one occurrence of it away.
c_free-Ends :
    (p : ℕ) (live : List ℕ)
    → 0 < count p live
    → Ends (c_free p live) (λ live'. (a : ℕ) → count a live ≡ one_if a p + count a live')
unfolding c_free
c_free-Ends p [] h = absurd (omega arith)
c_free-Ends p (q ∷ live) h = elim (Bool-cases (p == q)) [
  | inl e ↦ let same : q ≡ p = ground arith in rw e (live, refl, λ a. rw same refl)
  | inr e ↦
      let there : 0 < count p live = ground arith in
      let (live', ran, counts) = c_free-Ends p live there in
      rw e (rw ran (q ∷ live', refl, λ a. omega (arith, counts a)))
]

-- A name that fits is copied.
pub copy_name-done {ℓ} :
    {A : Type ℓ} (file : List ℕ) {a : A}
    → length file < malloc_list_file_name_max
    → copy_name file a ≡ done a
unfolding copy_name
copy_name-done file short =
    let fits : ltb (length file) malloc_list_file_name_max ≡ true = ground arith in rw fits refl

-- What the loop of `sa_free_aux` finds.
abbrev Unlinked : ℕ → List MallocList → Option (MallocList × List MallocList) → Type 0
Unlinked p es none = Unit
Unlinked p es (some (e, others)) =
    (e.ptr ≡ p)
    × ((a : ℕ) → count a (owned es) ≡ one_if a e.node + (one_if a p + count a (owned others)))

Unlinked-cons :
    (p : ℕ) (c : MallocList) (es : List MallocList) (r : Option (MallocList × List MallocList))
    → Unlinked p es r
    → Unlinked p (c ∷ es) (keep_before c r)
Unlinked-cons p c es none u = tt
Unlinked-cons p c es (some (e, others)) u = (u.0, λ a. omega (arith, u.1 a))

unlink-Unlinked : (p : ℕ) (es : List MallocList) → Unlinked p es (unlink p es)
unfolding unlink
unlink-Unlinked p [] = tt
unlink-Unlinked p (c ∷ es) = elim (Bool-cases (c.ptr == p)) [
  | inl e ↦ let same : c.ptr ≡ p = ground arith in rw e (same, λ a. rw same refl)
  | inr e ↦ rw e (Unlinked-cons p c es (unlink p es) (unlink-Unlinked p es))
]

-- For the name of a file that fits in an entry of the list, an allocation ends, whatever the C
-- library's two results are, and the list is still what is allocated.
pub sa_malloc_aux-IsSound :
    (allocated node : Option ℕ) (size : ℕ) (file : List ℕ) (line : ℕ) (h : Heap)
    → length file < malloc_list_file_name_max
    → IsSound h
    → Ends (sa_malloc_aux allocated node size file line h) (λ (r, h'). IsSound h')
unfolding sa_malloc_aux c_free
sa_malloc_aux-IsSound none _ size file line h short s = ((none, h), refl, s)
sa_malloc_aux-IsSound (some p) none size file line h short s =
    let same : (p == p) ≡ true = ground arith in rw same ((none, h), refl, s)
sa_malloc_aux-IsSound (some p) (some q) size file line h short s =
    rw (copy_name-done file short) (_, refl, λ a. omega (arith, s a))

release-IsSound :
    (p : ℕ) (h : Heap) (r : Option (MallocList × List MallocList))
    → p ≢ 0
    → IsSound h
    → Unlinked p h.malloc_list r
    → Ends (release p h r) IsSound
unfolding release
release-IsSound p h none ne s u =
    let named : (p == 0) ≡ false = ground arith in rw named (h, refl, s)
release-IsSound p h (some (e, others)) ne s u =
    let (live, ran, counts) =
      c_free-Ends e.node h.live (omega (arith, s e.node, u.1 e.node, one_if_same e.node)) in
    let (live', ran', counts') =
      c_free-Ends p live (omega (arith, s p, u.1 p, counts p, one_if_same p)) in
    rw ran (rw ran' (_, refl, λ a. omega (arith, s a, u.1 a, counts a, counts' a)))

-- Freeing any pointer but NULL ends, where the list is what is allocated: nothing is freed that is
-- not allocated, and the list is what is allocated afterwards too.
pub sa_free_aux-IsSound : (p : ℕ) (h : Heap) → p ≢ 0 → IsSound h → Ends (sa_free_aux p h) IsSound
unfolding sa_free_aux
sa_free_aux-IsSound p h ne s =
    release-IsSound p h (unlink p h.malloc_list) ne s (unlink-Unlinked p h.malloc_list)

-- What was allocated last is freed, and nothing else: the heap is as it was before.
pub sa_free_aux_last :
    (p q size : ℕ) (file : List ℕ) (line : ℕ) (h : Heap)
    → sa_free_aux p (record {
      malloc_list =
          record { node = q; ptr = p; size = size; file = file; line = line } ∷ h.malloc_list;
      live = q ∷ p ∷ h.live;
    })
      ≡ done h
unfolding sa_free_aux unlink release c_free
sa_free_aux_last p q size file line h =
    let same_p : (p == p) ≡ true = ground arith in
    let same_q : (q == q) ≡ true = ground arith in rw same_p (rw same_q (rw same_p refl))

-- the entries of the list, and the blocks that it names
abbrev pub nodes : List MallocList → List ℕ
nodes [] = []
nodes (e ∷ es) = e.node ∷ nodes es

abbrev pub blocks : List MallocList → List ℕ
blocks [] = []
blocks (e ∷ es) = e.ptr ∷ blocks es

count-owned :
    (a : ℕ) (es : List MallocList) → count a (owned es) ≡ count a (nodes es) + count a (blocks es)
count-owned a [] = omega arith
count-owned a (e ∷ es) = omega (arith, count-owned a es)

leak_loop-Ends :
    (es : List MallocList) (live : List ℕ)
    → ((a : ℕ) → count a (owned es) ≤ count a live)
    → Ends
        (leak_loop es live)
        (λ live'. (a : ℕ) → count a live ≡ count a (nodes es) + count a live')
unfolding leak_loop
leak_loop-Ends [] live h = (live, refl, λ a. omega arith)
leak_loop-Ends (e ∷ es) live h =
    let (live', ran, counts) =
      c_free-Ends e.node live (omega (arith, h e.node, one_if_same e.node)) in
    let (live'', ran', counts') = leak_loop-Ends es live' (λ a. omega (arith, h a, counts a)) in
    rw ran (live'', ran', λ a. omega (arith, counts a, counts' a))

-- What the check tells of the heap, and what it leaves.
abbrev pub Reports : Heap → ℕ × Heap → Type 0
Reports h (r, h') =
    ((r ≡ 1) × (h' ≡ h) × ((a : ℕ) → count a h.live ≡ 0))
    ⊎ ((r ≡ 0)
        × ((a : ℕ) × (0 < count a h.live))
        × (h'.malloc_list ≡ [])
        × ((a : ℕ) → count a h'.live ≡ count a (blocks h.malloc_list)))

leak_check-Reports :
    (es : List MallocList) (live : List ℕ)
    → IsSound (record { malloc_list = es; live = live })
    → Ends
        (sa_memory_leak_check (record { malloc_list = es; live = live }))
        (Reports (record { malloc_list = es; live = live }))
unfolding sa_memory_leak_check
leak_check-Reports [] live s = (_, refl, inl (refl, refl, s))
leak_check-Reports (e ∷ es) live s =
    let (live', ran, counts) = leak_loop-Ends (e ∷ es) live (λ a. omega (arith, s a)) in
    rw ran (
      _,
      refl,
      inr (
        refl,
        (e.node, omega (arith, s e.node, one_if_same e.node)),
        refl,
        λ a. omega (arith, s a, counts a, count-owned a (e ∷ es)),
      ),
    )

-- Where the list is what is allocated, the leak check ends. It returns 1 if nothing is allocated, and
-- changes nothing; else it returns 0, frees the entries of the list, and leaves exactly the blocks.
pub sa_memory_leak_check-Reports :
    (h : Heap) → IsSound h → Ends (sa_memory_leak_check h) (Reports h)
sa_memory_leak_check-Reports h s = leak_check-Reports h.malloc_list h.live s
