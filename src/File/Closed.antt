-- ===== src/File/Closed.antt =====
-- What lib/file.c opens, and how it gives it back.
use sufary.Base.{
  ℕ, ◌+◌, ◌<◌, ◌++◌, [], length, length-append, ltb, lt→ltb, ◌/◌, ◌≡◌, refl, List, ◌∷◌, true,
  Option, none, some, arith,
}
use sufary.Base.Run.{Run, done}
use sufary.Util.{index_size, sa_add_suffix_to_file_name}
use sufary.Base.Int.{to_word}
use sufary.MemoryMap.{SaError, System}
use sufary.MemoryMap.Undone.{Undone}
use sufary.File.Opening.{Opened, array_name, file_name_max, ary_suffix}

-- What is allocated, open and mapped is the same.
abbrev pub SameResources : System → System → Type 0
SameResources s s' =
    (s'.heap ≡ s.heap) × (s'.descriptors ≡ s.descriptors) × (s'.mappings ≡ s.mappings)

-- NULL leaves the resources as they were; else no descriptor stays open, and both files are mapped.
-- The sizes are those of the files as far as an int holds them.
abbrev pub OpensOrNot : System → Option Opened × System → Type 0
OpensOrNot s (none, s') = SameResources s s'
OpensOrNot s (some ary, s') =
    (s'.descriptors ≡ s.descriptors)
    × ((m : ℕ) × (n : ℕ) × (s'.mappings ≡ (ary.array, n) ∷ (ary.text, m) ∷ s.mappings)
        × (ary.textsize ≡ to_word m)
        × (ary.arraysize ≡ to_word (n / index_size)))

abbrev with_error : SaError → System → System
with_error e s = record s { sa_error_no = e }

suffix-Ends :
    (txt_fname : List ℕ)
    → length txt_fname + 4 < file_name_max
    → sa_add_suffix_to_file_name file_name_max txt_fname ary_suffix
      ≡ done (txt_fname ++ 46 ∷ ary_suffix)
unfolding sa_add_suffix_to_file_name
suffix-Ends txt_fname h =
    let size = length-append txt_fname (46 ∷ ary_suffix) in
    let fits : ltb (length (txt_fname ++ 46 ∷ ary_suffix)) file_name_max ≡ true =
      lt→ltb _ file_name_max (omega arith) in
    rw fits refl

pub array_name-Ends :
    (txt_fname : List ℕ) (ary_fname : Option (List ℕ))
    → length txt_fname + 4 < file_name_max
    → (name : List ℕ) × (array_name txt_fname ary_fname ≡ done name)
unfolding array_name
array_name-Ends txt_fname none h = (txt_fname ++ 46 ∷ ary_suffix, suffix-Ends txt_fname h)
array_name-Ends txt_fname (some []) h = (txt_fname ++ 46 ∷ ary_suffix, suffix-Ends txt_fname h)
array_name-Ends txt_fname (some (c ∷ cs)) h = (c ∷ cs, refl)
