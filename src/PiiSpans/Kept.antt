-- ===== src/PiiSpans/Kept.antt =====
-- What holds of every span, and of two spans joined, holds of every merged span.
use ppq_enclave_proxy.Prelude.{
  if◌then◌else◌, ℕ, ◌≡◌, inl, inr, refl, subst, ◌-◌, max, Text, List, [], ◌∷◌, Option, none, some,
  Bool, true, ◌&&◌, ltb, Bool-cases, Option-cases, arith,
}
use mathlib.Core.Option.{none-ne-some, some-injective}
use ppq_enclave_proxy.PiiSpans.{
  Span, RawSpan, offset, if_valid, is_valid, valid_span, and_then, filled, comes_first, insert,
  sort, join, merge_from, merge_sorted, valid_spans, merge_spans, merge_valid,
}
use ppq_enclave_proxy.PiiSpans.Sorted.{merge_from_more, merge_from_next}

and_then_cases :
    (x : Option Span) (y : Option (List Span)) (out : List Span)
    → and_then x y ≡ some out
    → (a : Span) × ((bs : List Span) × ((x ≡ some a) × ((y ≡ some bs) × (a ∷ bs ≡ out))))
and_then_cases (some a) (some bs) out h = (a, (bs, (refl, (refl, some-injective (a ∷ bs) out h))))
and_then_cases none y out h = absurd (none-ne-some out h)
and_then_cases (some a) none out h = absurd (none-ne-some out h)

module _ (p : Span → Bool) where
  abbrev pub all_spans : List Span → Bool
  all_spans [] = true
  all_spans (s ∷ ss) = p s && all_spans ss

  filled-kept : (ss : List Span) → all_spans ss ≡ true → all_spans (filled ss) ≡ true
  unfolding filled
  filled-kept [] h = refl
  filled-kept (s ∷ ss) h = ground (arith, filled-kept ss)

  insert-kept :
      (a : Span) (bs : List Span)
      → p a ≡ true
      → all_spans bs ≡ true
      → all_spans (insert a bs) ≡ true
  unfolding insert
  insert-kept a [] h k = ground arith
  insert-kept a (b ∷ bs) h k = elim (Bool-cases (comes_first a b)) [
    | inl first ↦ rw first (ground arith)
    | inr later ↦ rw later (ground (arith, insert-kept a bs))
  ]

  sort-kept : (ss : List Span) → all_spans ss ≡ true → all_spans (sort ss) ≡ true
  unfolding sort
  sort-kept [] h = refl
  sort-kept (s ∷ ss) h = insert-kept s (sort ss) (ground arith) (sort-kept ss (ground arith))

  module _
      (joined : (cur : Span) (best : ℕ) (s : Span)
        → p cur ≡ true
        → p s ≡ true
        → p (join cur best s) ≡ true) where
    merge_from-kept :
        (cur : Span) (best : ℕ) (ss : List Span)
        → p cur ≡ true
        → all_spans ss ≡ true
        → all_spans (merge_from cur best ss) ≡ true
    unfolding merge_from
    merge_from-kept cur best [] h k = ground arith
    merge_from-kept cur best (s ∷ ss) h k = elim (Bool-cases (ltb s.start cur.end)) [
      | inl over ↦ rw (merge_from_more cur best s ss over) (
          merge_from-kept (join cur best s) (max best (s.end - s.start)) ss
            (joined cur best s h (ground arith)) (ground arith))
      | inr apart ↦
          rw (merge_from_next cur best s ss apart)
            (ground (arith, merge_from-kept s (s.end - s.start) ss))
    ]

    merge_sorted-kept : (ss : List Span) → all_spans ss ≡ true → all_spans (merge_sorted ss) ≡ true
    unfolding merge_sorted
    merge_sorted-kept [] h = refl
    merge_sorted-kept (s ∷ ss) h =
        merge_from-kept s (s.end - s.start) ss (ground arith) (ground arith)

    module _ (text : Text) (valid : (span : Span) → is_valid text span ≡ true → p span ≡ true) where
      if_valid-kept :
          (cls : Text) (a b : Option ℕ) (span : Span)
          → if_valid text cls a b ≡ some span
          → p span ≡ true
      unfolding if_valid
      if_valid-kept cls (some a) (some b) span h =
          let made : Span = record { start = a; end = b; cls = cls } in
          elim (Bool-cases (is_valid text made)) [
            | inl good ↦
                let same : made ≡ span =
                  some-injective made span
                    (subst (λ (x : Bool). (if x then some made else none) ≡ some span) good h) in
                subst (λ (x : Span). p x ≡ true) same (valid made good)
            | inr broken ↦ absurd (
                none-ne-some span
                  (subst (λ (x : Bool). (if x then some made else none) ≡ some span) broken h))
          ]
      if_valid-kept cls none b span h = absurd (none-ne-some span h)
      if_valid-kept cls (some a) none span h = absurd (none-ne-some span h)

      valid_spans-kept :
          (raws : List RawSpan) (spans : List Span)
          → valid_spans text raws ≡ some spans
          → all_spans spans ≡ true
      unfolding valid_spans valid_span
      valid_spans-kept [] spans h =
          subst (λ (x : List Span). all_spans x ≡ true) (some-injective [] spans h) refl
      valid_spans-kept (raw ∷ raws) spans h =
          let c = and_then_cases (valid_span text raw) (valid_spans text raws) spans h in
          let first = if_valid-kept raw.cls (offset raw.start) (offset raw.end) c.0 c.1.1.0 in
          let rest = valid_spans-kept raws c.1.0 c.1.1.1.0 in
          subst (λ (x : List Span). all_spans x ≡ true) c.1.1.1.1 (rw (first, rest) refl)

      pub merge_spans-kept :
          (raws : List RawSpan) (out : List Span)
          → merge_spans text raws ≡ some out
          → all_spans out ≡ true
      unfolding merge_spans merge_valid
      merge_spans-kept raws out h = elim (Option-cases (valid_spans text raws)) [
        | inl broken ↦ absurd (
            none-ne-some out
              (subst (λ (x : Option (List Span)). merge_valid x ≡ some out) broken h))
        | inr (spans, good) ↦
            let sorted = sort (filled spans) in
            let same : merge_sorted sorted ≡ out =
              some-injective (merge_sorted sorted) out
                (subst (λ (x : Option (List Span)). merge_valid x ≡ some out) good h) in
            subst (λ (x : List Span). all_spans x ≡ true) same
              (merge_sorted-kept sorted
                (sort-kept (filled spans) (filled-kept spans (valid_spans-kept raws spans good))))
      ]
