-- ===== src/PiiSpans.antt =====
-- enclave/src/pii/core.mjs: the checking and merging of the spans of one text, before the text is
-- pseudonymized. Offsets count UTF-16 units, and the end of a span is exclusive.
pub mod Sorted
pub mod Covered
pub mod Bounds
pub mod Kept
pub mod Tests
use Prim.Native.String.{String}
use ppq_enclave_proxy.Prelude.{
  ℕ, ◌+◌, ◌-◌, ◌/◌, ◌%◌, max, suc, zero, Text, codes, eq_text, List, [], ◌∷◌, ◌++◌, Option, none,
  some, Bool, true, false, ◌||◌, ◌&&◌, not, length, ltb, leb, ◌==◌, if◌then◌else◌, get_elem?,
  any_of,
}
use ppq_enclave_proxy.Values.{Raw, text, number, other}

-- `PII_CLASSES`
abbrev pub pii_classes : List Text
pii_classes =
    codes "PERSON"
    ∷ codes "EMAIL"
    ∷ codes "PHONE"
    ∷ codes "ADDRESS"
    ∷ codes "ID"
    ∷ codes "IBAN"
    ∷ codes "CARD"
    ∷ codes "IP"
    ∷ codes "ORG"
    ∷ codes "LOCATION"
    ∷ []

-- A span as a detector gives it.
pub record RawSpan : Type 0 where
  pub start : Raw
  pub end : Raw
  pub cls : Text

pub record Span : Type 0 where
  pub start : ℕ
  pub end : ℕ
  pub cls : Text

abbrev pub is_high : ℕ → Bool
is_high c = leb 0xd800 c && leb c 0xdbff

abbrev pub is_low : ℕ → Bool
is_low c = leb 0xdc00 c && leb c 0xdfff

abbrev holds_at : (ℕ → Bool) → Option ℕ → Bool
holds_at p none = false
holds_at p (some c) = p c

-- `splitsPair`
unfoldable pub splits_pair : Text → ℕ → Bool
splits_pair s i =
    ltb 0 i
    && (ltb i (length s)
        && (holds_at is_high (get_elem? s (i - 1)) && holds_at is_low (get_elem? s i)))

-- A number that is an integer and not negative.
abbrev pub offset : Raw → Option ℕ
offset (number negative n d) =
    if n % suc d == 0 && (not negative || n == 0) then some (n / suc d) else none
offset _ = none

abbrev pub is_valid : Text → Span → Bool
unfolding splits_pair
is_valid s span =
    leb span.start span.end
    && (leb span.end (length s)
        && (any_of (λ (c : Text). eq_text c span.cls) pii_classes
            && (not (splits_pair s span.start) && not (splits_pair s span.end))))

abbrev pub if_valid : Text → Text → Option ℕ → Option ℕ → Option Span
unfolding is_valid
if_valid s cls (some start) (some end) =
    let span : Span = record { start = start; end = end; cls = cls } in
    if is_valid s span then some span else none
if_valid s cls _ _ = none

-- `validSpan`: the span, where it is valid.
unfoldable pub valid_span : Text → RawSpan → Option Span
unfolding if_valid
valid_span s span = if_valid s span.cls (offset span.start) (offset span.end)

abbrev pub and_then : Option Span → Option (List Span) → Option (List Span)
and_then (some span) (some spans) = some (span ∷ spans)
and_then _ _ = none

-- The loop that throws on a span that is not valid.
unfoldable pub valid_spans : Text → List RawSpan → Option (List Span)
unfolding valid_span
valid_spans s [] = some []
valid_spans s (span ∷ spans) = and_then (valid_span s span) (valid_spans s spans)

-- `filter`
unfoldable pub filled : List Span → List Span
filled [] = []
filled (span ∷ spans) = if ltb span.start span.end then span ∷ filled spans else filled spans

-- The comparison of `sort`: the first does not come after the second.
unfoldable pub comes_first : Span → Span → Bool
comes_first a b = ltb a.start b.start || (a.start == b.start && leb b.end a.end)

-- `sort`, which is stable.
unfoldable pub insert : Span → List Span → List Span
unfolding comes_first
insert a [] = a ∷ []
insert a (b ∷ bs) = if comes_first a b then a ∷ b ∷ bs else b ∷ insert a bs

unfoldable pub sort : List Span → List Span
unfolding insert
sort [] = []
sort (a ∷ bs) = insert a (sort bs)

-- An overlapping span in the one before: the longest of them gives the class.
unfoldable pub join : Span → ℕ → Span → Span
join cur best s = record {
  start = cur.start;
  end = max cur.end s.end;
  cls = if ltb best (s.end - s.start) then s.cls else cur.cls;
}

-- The loop over the sorted spans, with the current one and the length of its longest member.
unfoldable pub merge_from : Span → ℕ → List Span → List Span
unfolding join
merge_from cur best [] = cur ∷ []
merge_from cur best (s ∷ ss) = elim (ltb s.start cur.end) [
  | true ↦ merge_from (join cur best s) (max best (s.end - s.start)) ss
  | false ↦ cur ∷ merge_from s (s.end - s.start) ss
]

unfoldable pub merge_sorted : List Span → List Span
unfolding merge_from
merge_sorted [] = []
merge_sorted (s ∷ ss) = merge_from s (s.end - s.start) ss

abbrev merge_valid : Option (List Span) → Option (List Span)
unfolding merge_sorted sort filled
merge_valid none = none
merge_valid (some spans) = some (merge_sorted (sort (filled spans)))

-- `mergeSpans`: none where it throws.
unfoldable pub merge_spans : Text → List RawSpan → Option (List Span)
unfolding merge_valid valid_spans
merge_spans s spans = merge_valid (valid_spans s spans)
