-- ===== src/PiiSpans/Sorted.antt =====
-- The order of the spans, before and after they are merged.
use ppq_enclave_proxy.Prelude.{
  ℕ, ◌≡◌, ◌≤◌, ◌<◌, inl, inr, refl, ◌-◌, max, List, [], ◌∷◌, Bool, true, false, ◌&&◌, ltb, leb,
  Bool-cases, arith,
}
use ppq_enclave_proxy.PiiSpans.{
  Span, filled, comes_first, insert, sort, join, merge_from, merge_sorted,
}

-- Spans that hold something, in the order of their starts, from an offset on.
abbrev pub sorted_from : ℕ → List Span → Bool
sorted_from n [] = true
sorted_from n (s ∷ ss) = leb n s.start && (ltb s.start s.end && sorted_from s.start ss)

-- Spans that hold something, each from the end of the one before, from an offset on.
abbrev pub separated_from : ℕ → List Span → Bool
separated_from n [] = true
separated_from n (s ∷ ss) = leb n s.start && (ltb s.start s.end && separated_from s.end ss)

pub sorted_from-weaken :
    (m n : ℕ) (ss : List Span) → m ≤ n → sorted_from n ss ≡ true → sorted_from m ss ≡ true
sorted_from-weaken m n [] h k = refl
sorted_from-weaken m n (s ∷ ss) h k = ground arith

insert-sorted :
    (n : ℕ) (a : Span) (bs : List Span)
    → n ≤ a.start
    → a.start < a.end
    → sorted_from n bs ≡ true
    → sorted_from n (insert a bs) ≡ true
unfolding insert comes_first
insert-sorted n a [] h f k = ground arith
insert-sorted n a (b ∷ bs) h f k = elim (Bool-cases (comes_first a b)) [
  | inl first ↦ rw first (ground arith)
  | inr later ↦
      let le : b.start ≤ a.start = ground arith in
      rw later (ground (arith, insert-sorted b.start a bs le f (ground arith)))
]

pub sort-sorted : (ss : List Span) → sorted_from 0 (sort (filled ss)) ≡ true
unfolding sort filled
sort-sorted [] = refl
sort-sorted (s ∷ ss) = elim (Bool-cases (ltb s.start s.end)) [
  | inl full ↦
      rw full (insert-sorted 0 s (sort (filled ss)) (omega arith) (ground arith) (sort-sorted ss))
  | inr empty ↦ rw empty (sort-sorted ss)
]

pub merge_from_more :
    (cur : Span) (best : ℕ) (s : Span) (ss : List Span)
    → ltb s.start cur.end ≡ true
    → merge_from cur best (s ∷ ss) ≡ merge_from (join cur best s) (max best (s.end - s.start)) ss
unfolding merge_from
merge_from_more cur best s ss h = rw (h, merge_from) refl

pub merge_from_next :
    (cur : Span) (best : ℕ) (s : Span) (ss : List Span)
    → ltb s.start cur.end ≡ false
    → merge_from cur best (s ∷ ss) ≡ cur ∷ merge_from s (s.end - s.start) ss
unfolding merge_from
merge_from_next cur best s ss h = rw (h, merge_from) refl

merge_from-separated :
    (n : ℕ) (cur : Span) (best : ℕ) (ss : List Span)
    → n ≤ cur.start
    → cur.start < cur.end
    → sorted_from cur.start ss ≡ true
    → separated_from n (merge_from cur best ss) ≡ true
unfolding merge_from join
merge_from-separated n cur best [] h f k = ground arith
merge_from-separated n cur best (s ∷ ss) h f k = elim (Bool-cases (ltb s.start cur.end)) [
  | inl over ↦ rw (merge_from_more cur best s ss over) (
      merge_from-separated n (join cur best s) (max best (s.end - s.start)) ss h (ground arith)
        (sorted_from-weaken cur.start s.start ss (ground arith) (ground arith)))
  | inr apart ↦ rw (merge_from_next cur best s ss apart) (
      ground (
        arith,
        merge_from-separated cur.end s (s.end - s.start) ss (ground arith) (ground arith)
            (ground arith),
      ))
]

pub merge_sorted-separated :
    (ss : List Span) → sorted_from 0 ss ≡ true → separated_from 0 (merge_sorted ss) ≡ true
unfolding merge_sorted
merge_sorted-separated [] h = refl
merge_sorted-separated (s ∷ ss) h =
    merge_from-separated 0 s (s.end - s.start) ss (omega arith) (ground arith) (ground arith)
