-- ===== src/PiiSpans/Tests.antt =====
-- The spans of a text with a name in it and a character of two units.
use ppq_enclave_proxy.Prelude.{
  ℕ, ◌≡◌, refl, Text, codes, List, [], ◌∷◌, ◌++◌, none, some, true, false,
}
use ppq_enclave_proxy.Values.{number}
use ppq_enclave_proxy.PiiSpans.{Span, RawSpan, valid_span, valid_spans, merge_spans, splits_pair}
use ppq_enclave_proxy.PiiSpans.Sorted.{separated_from}
use ppq_enclave_proxy.PiiSpans.Covered.{covers, merge_spans-covers}
use ppq_enclave_proxy.PiiSpans.Kept.{all_spans}
use ppq_enclave_proxy.PiiSpans.Bounds.{is_cut, merge_spans-bounds, merge_spans-none}

abbrev message : Text
message = codes "I am Ann Lee " ++ 0xd83d ∷ 0xde00 ∷ []

abbrev at : ℕ → ℕ → Text → RawSpan
at a b cls = record { start = number false a 0; end = number false b 0; cls = cls }

abbrev span : ℕ → ℕ → Text → Span
span a b cls = record { start = a; end = b; cls = cls }

abbrev raws : List RawSpan
raws =
    at 9 12 (codes "ORG")
    ∷ at 5 12 (codes "PERSON")
    ∷ at 3 3 (codes "ID")
    ∷ at 13 15 (codes "ID")
    ∷ []

abbrev spans : List Span
spans =
    span 9 12 (codes "ORG")
    ∷ span 5 12 (codes "PERSON")
    ∷ span 3 3 (codes "ID")
    ∷ span 13 15 (codes "ID")
    ∷ []

abbrev merged : List Span
merged = span 5 12 (codes "PERSON") ∷ span 13 15 (codes "ID") ∷ []

valid_lem : valid_spans message raws ≡ some spans
unfolding valid_spans splits_pair
valid_lem = refl

merged_lem : merge_spans message raws ≡ some merged
unfolding merge_spans splits_pair
merged_lem = refl

merge_spans-covers_example :
    (out : List Span) × ((merge_spans message raws ≡ some out)
      × ((separated_from 0 out ≡ true) × ((i : ℕ) → covers i out ≡ covers i spans)))
merge_spans-covers_example = merge_spans-covers message raws spans valid_lem

merge_spans-bounds_example : all_spans (is_cut message) merged ≡ true
merge_spans-bounds_example = merge_spans-bounds message raws merged merged_lem

-- A span that ends between the halves of the character.
split_lem : valid_span message (at 5 14 (codes "PERSON")) ≡ none
unfolding valid_span splits_pair
split_lem = refl

merge_spans-none_example : merge_spans message (raws ++ at 5 14 (codes "PERSON") ∷ raws) ≡ none
merge_spans-none_example = merge_spans-none message raws (at 5 14 (codes "PERSON")) raws split_lem
