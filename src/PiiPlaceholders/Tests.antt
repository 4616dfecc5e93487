-- ===== src/PiiPlaceholders/Tests.antt =====
-- A request of two texts, one of which holds a placeholder already.
use ppq_enclave_proxy.Prelude.{ℕ, ◌≡◌, refl, Text, codes, List, [], ◌∷◌, ◌++◌, some}
use ppq_enclave_proxy.Values.{number}
use ppq_enclave_proxy.PiiSpans.{Span, RawSpan, splits_pair}
use ppq_enclave_proxy.PiiTokens.{taken_of}
use ppq_enclave_proxy.PiiTokens.Found.{AreDelimiters}
use ppq_enclave_proxy.PiiPlaceholders.{
  texts_of, Issued, next_free, merge_texts, pseudonymize, false,
}
use ppq_enclave_proxy.PiiPlaceholders.Free.{IsFree, next_free-some}
use ppq_enclave_proxy.PiiPlaceholders.Issuing.{IsIssued}
use ppq_enclave_proxy.PiiPlaceholders.Replacing.{AreNew, pseudonymize-IsIssued}

abbrev at : ℕ → ℕ → Text → RawSpan
at a b cls = record { start = number false a 0; end = number false b 0; cls = cls }

abbrev taken : List Text
taken = codes "[PERSON_1]" ∷ []

-- An entity key that keeps a surface as it is.
abbrev surface_key : Text → Text → Text
surface_key cls s = cls ++ 0 ∷ s

abbrev texts : List (Text × List RawSpan)
texts =
    (codes "Ann saw [PERSON_1] and Bob", at 23 26 (codes "PERSON") ∷ at 0 3 (codes "PERSON") ∷ [])
    ∷ (codes "Hi Ann!", at 3 6 (codes "PERSON") ∷ [])
    ∷ []

abbrev merged : List (Text × List Span)
merged =
    (
      codes "Ann saw [PERSON_1] and Bob",
      record { start = 0; end = 3; cls = codes "PERSON" }
          ∷ record { start = 23; end = 26; cls = codes "PERSON" }
          ∷ [],
    )
    ∷ (codes "Hi Ann!", record { start = 3; end = 6; cls = codes "PERSON" } ∷ [])
    ∷ []

merged_lem : merge_texts texts ≡ some merged
unfolding merge_texts splits_pair
merged_lem = refl

issued_lem :
    pseudonymize (codes "[") (codes "]") surface_key texts
    ≡ some (
      codes "[PERSON_2] saw [PERSON_1] and [PERSON_3]" ∷ codes "Hi [PERSON_2]!" ∷ [],
      record {
        by_key =
            (codes "PERSON" ++ 0 ∷ codes "Ann", codes "[PERSON_2]")
            ∷ (codes "PERSON" ++ 0 ∷ codes "Bob", codes "[PERSON_3]")
            ∷ [];
        by_placeholder = (codes "[PERSON_2]", codes "Ann") ∷ (codes "[PERSON_3]", codes "Bob") ∷ [];
        counters = (codes "PERSON", 3) ∷ [];
      },
    )
unfolding pseudonymize splits_pair
issued_lem = refl

pseudonymize-IsIssued_example :
    (out : List Text) × ((issued : Issued) × ((pseudonymize
            (codes "[")
            (codes "]")
            surface_key
            texts
          ≡ some (out, issued))
        × (IsIssued
              (codes "[")
              (codes "]")
              (taken_of (codes "[") (codes "]") (texts_of texts))
              issued
            × AreNew (texts_of texts) issued)))
pseudonymize-IsIssued_example =
    pseudonymize-IsIssued (codes "[") (codes "]") surface_key texts merged (refl, refl) merged_lem

next_free-some_example :
    (m : ℕ) × ((next_free (codes "[") (codes "]") taken 2 (codes "PERSON") 0 ≡ some m)
      × IsFree (codes "[") (codes "]") taken (codes "PERSON") 0 m)
next_free-some_example = next_free-some (codes "[") (codes "]") taken (codes "PERSON") 0

-- The delimiters of the grammars that are shipped.
delimiters_lem :
    AreDelimiters (codes "[") (codes "]")
    × AreDelimiters (0x27e6 ∷ []) (0x27e7 ∷ [])
    × AreDelimiters (codes "<") (codes ">")
delimiters_lem = ((refl, refl), (refl, refl), (refl, refl))
