-- ===== src/PiiSpans/Covered.antt =====
-- What the spans of a text cover, before and after they are merged.
use ppq_enclave_proxy.Prelude.{
  ℕ, ◌≡◌, ◌≤◌, inl, inr, refl, ◌∙◌, ◌-◌, max, Text, List, [], ◌∷◌, some, Bool, true, false, ◌&&◌,
  ◌||◌, ltb, leb, Bool-cases, arith,
}
use ppq_enclave_proxy.PiiSpans.{
  Span, RawSpan, filled, insert, sort, join, merge_from, merge_sorted, valid_spans, merge_spans,
  merge_valid,
}
use ppq_enclave_proxy.PiiSpans.Sorted.{
  sorted_from, separated_from, sorted_from-weaken, sort-sorted, merge_from_more, merge_from_next,
  merge_sorted-separated,
}

-- An offset stands in a span.
abbrev pub holds : ℕ → Span → Bool
holds i s = leb s.start i && ltb i s.end

abbrev pub covers : ℕ → List Span → Bool
covers i [] = false
covers i (s ∷ ss) = holds i s || covers i ss

covers-filled : (i : ℕ) (ss : List Span) → covers i (filled ss) ≡ covers i ss
unfolding filled
covers-filled i [] = refl
covers-filled i (s ∷ ss) = elim (Bool-cases (ltb s.start s.end)) [
  | inl full ↦ rw (full, covers-filled i ss) refl
  | inr empty ↦
      let none_held : holds i s ≡ false = ground arith in
      rw (empty, none_held, covers-filled i ss) refl
]

covers-insert :
    (i : ℕ) (a : Span) (bs : List Span) → covers i (insert a bs) ≡ (holds i a || covers i bs)
unfolding insert
covers-insert i a [] = refl
covers-insert i a (b ∷ bs) = ground (arith, covers-insert i a bs)

covers-sort : (i : ℕ) (ss : List Span) → covers i (sort ss) ≡ covers i ss
unfolding sort
covers-sort i [] = refl
covers-sort i (s ∷ ss) = rw (covers-insert i s (sort ss), covers-sort i ss) refl

holds-join :
    (i : ℕ) (cur : Span) (best : ℕ) (s : Span)
    → cur.start ≤ s.start
    → ltb s.start cur.end ≡ true
    → holds i (join cur best s) ≡ (holds i cur || holds i s)
unfolding join
holds-join i cur best s h over = ground arith

covers-merge_from :
    (i : ℕ) (cur : Span) (best : ℕ) (ss : List Span)
    → sorted_from cur.start ss ≡ true
    → covers i (merge_from cur best ss) ≡ (holds i cur || covers i ss)
unfolding merge_from join
covers-merge_from i cur best [] k = refl
covers-merge_from i cur best (s ∷ ss) k = elim (Bool-cases (ltb s.start cur.end)) [
  | inl over ↦
      let le : cur.start ≤ s.start = ground arith in
      let rest : sorted_from cur.start ss ≡ true =
        sorted_from-weaken cur.start s.start ss le (ground arith) in
      rw
        (
          merge_from_more cur best s ss over,
          covers-merge_from i (join cur best s) (max best (s.end - s.start)) ss rest,
          holds-join i cur best s le over,
        )
        (ground arith)
  | inr apart ↦
      rw
        (
          merge_from_next cur best s ss apart,
          covers-merge_from i s (s.end - s.start) ss (ground arith),
        )
        refl
]

covers-merge_sorted :
    (i : ℕ) (ss : List Span) → sorted_from 0 ss ≡ true → covers i (merge_sorted ss) ≡ covers i ss
unfolding merge_sorted
covers-merge_sorted i [] h = refl
covers-merge_sorted i (s ∷ ss) h = covers-merge_from i s (s.end - s.start) ss (ground arith)

-- Valid spans are merged into spans that each hold something, start at the end of the one before or
-- after it, and cover the offsets that the spans cover, and no other.
pub merge_spans-covers :
    (s : Text) (raws : List RawSpan) (spans : List Span)
    → valid_spans s raws ≡ some spans
    → (out : List Span) × ((merge_spans s raws ≡ some out)
        × ((separated_from 0 out ≡ true) × ((i : ℕ) → covers i out ≡ covers i spans)))
unfolding merge_spans merge_valid
merge_spans-covers s raws spans h =
    let sorted = sort (filled spans) in
    rw h (
      merge_sorted sorted,
      (
        refl,
        (
          merge_sorted-separated sorted (sort-sorted spans),
          λ i.
              covers-merge_sorted i sorted (sort-sorted spans)
              ∙ covers-sort i (filled spans)
              ∙ covers-filled i spans,
        ),
      ),
    )
