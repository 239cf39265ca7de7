-- ===== src/Tests/DidTests.antt =====
-- lib/did.c on the documents [12, 20) and [56, 89).
use sufary.Base.{ℕ, zero, suc, get_or, ◌≤◌, ◌<◌, ◌≡◌, refl, [], ◌∷◌, arith}
use sufary.Base.Run.{Ends, done, stop, assertion}
use sufary.Util.{reverse_word}
use sufary.Search.{success, fail}
use sufary.Did.{Did, sa_didsearch}
use sufary.Did.Locate.{from_of, to_of, IsRegions, Located, sa_didsearch-Located}

abbrev two_documents : Did
two_documents = record { docid = 201326592 ∷ 335544320 ∷ 939524096 ∷ 1493172224 ∷ []; didsize = 4 }

document_ends :
    (from_of two_documents 0 ≡ 12)
    × (to_of two_documents 0 ≡ 20)
    × (from_of two_documents 1 ≡ 56)
    × (to_of two_documents 1 ≡ 89)
unfolding reverse_word
document_ends = (refl, refl, refl, refl)

two_documents-apart : (i j : ℕ) → i < j → j < 2 → to_of two_documents i ≤ from_of two_documents j
two_documents-apart zero (suc zero) h b = omega (arith, document_ends.1, document_ends.2)
two_documents-apart zero zero h b = absurd (omega arith)
two_documents-apart (suc i) j h b = absurd (omega arith)
two_documents-apart i (suc (suc j)) h b = absurd (omega arith)

two_documents-forward : (i : ℕ) → i < 2 → from_of two_documents i ≤ to_of two_documents i
two_documents-forward zero h = omega (arith, document_ends.0, document_ends.1)
two_documents-forward (suc zero) h = omega (arith, document_ends.2, document_ends.3)
two_documents-forward (suc (suc i)) h = absurd (omega arith)

two_documents-is_int : (i : ℕ) → i < 4 → reverse_word (get_or two_documents.docid i 0) < 2147483648
unfolding reverse_word
two_documents-is_int zero h = omega arith
two_documents-is_int (suc zero) h = omega arith
two_documents-is_int (suc (suc zero)) h = omega arith
two_documents-is_int (suc (suc (suc zero))) h = omega arith
two_documents-is_int (suc (suc (suc (suc i)))) h = absurd (omega arith)

two_documents-IsRegions : IsRegions two_documents
two_documents-IsRegions = record {
  has_docid = omega arith;
  apart = two_documents-apart;
  is_int = two_documents-is_int;
  forward = two_documents-forward;
}

-- Position 60 is in document 1, position 30 in none.
didsearch_hit :
    sa_didsearch 7 two_documents 60
    ≡ done (record { start = 56; size = 33; no = 1; stat = success })
unfolding sa_didsearch reverse_word
didsearch_hit = refl

didsearch_miss :
    sa_didsearch 7 two_documents 30 ≡ done (record { start = 0; size = 0; no = 1; stat = fail })
unfolding sa_didsearch reverse_word
didsearch_miss = refl

sa_didsearch-Located_example : Ends (sa_didsearch 7 two_documents 60) (Located two_documents 60)
sa_didsearch-Located_example =
    sa_didsearch-Located two_documents 60 two_documents-IsRegions (omega arith) 7

-- A region whose end is 2 ^ 31, which is negative as an int: no position is found in it.
negative_end :
    sa_didsearch 7 (record { docid = 0 ∷ 128 ∷ []; didsize = 2 }) 5
    ≡ done (record { start = 0; size = 0; no = 1; stat = fail })
unfolding sa_didsearch reverse_word
negative_end = refl

negative_target : sa_didsearch 7 two_documents 2147483648 ≡ stop assertion
unfolding sa_didsearch
negative_target = refl
