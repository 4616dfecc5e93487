-- ===== src/PiiSpans/Bounds.antt =====
-- Where the merged spans start and end, of what class they are, and what makes the merging fail.
use ppq_enclave_proxy.Prelude.{
  ℕ, ◌≡◌, inl, inr, refl, ◌-◌, max, Text, eq_text, eq_text_iff, List, [], ◌∷◌, ◌++◌, Option, none,
  some, Bool, true, false, ◌&&◌, not, any_of, length, ltb, leb, if◌then◌else◌, Bool-cases, arith,
}
use ppq_enclave_proxy.PiiSpans.{
  Span, RawSpan, pii_classes, is_valid, valid_span, and_then, splits_pair, join, valid_spans,
  merge_spans, merge_valid,
}
use ppq_enclave_proxy.PiiSpans.Kept.{all_spans, merge_spans-kept}

-- An offset at which the text may be cut.
abbrev pub may_cut : Text → ℕ → Bool
may_cut s i = leb i (length s) && not (splits_pair s i)

-- The start and the end of a span are such offsets.
abbrev pub is_cut : Text → Span → Bool
is_cut s span = may_cut s span.start && may_cut s span.end

max_both : (p : ℕ → Bool) (a b : ℕ) → p a ≡ true → p b ≡ true → p (max a b) ≡ true
max_both p a b h k = elim (Bool-cases (leb a b)) [
  | inl le ↦ let eq : max a b ≡ b = ground arith in rw eq k
  | inr gt ↦ let eq : max a b ≡ a = ground arith in rw eq h
]

and_left : (a b : Bool) → (a && b) ≡ true → a ≡ true
and_left a b h = ground arith

and_right : (a b : Bool) → (a && b) ≡ true → b ≡ true
and_right a b h = ground arith

join-cut :
    (s : Text) (cur : Span) (best : ℕ) (span : Span)
    → is_cut s cur ≡ true
    → is_cut s span ≡ true
    → is_cut s (join cur best span) ≡ true
unfolding join
join-cut s cur best span h k =
    rw
      (
        and_left (may_cut s cur.start) (may_cut s cur.end) h,
        max_both (may_cut s) cur.end span.end
            (and_right (may_cut s cur.start) (may_cut s cur.end) h)
            (and_right (may_cut s span.start) (may_cut s span.end) k),
      )
      refl

cut_lem :
    (x y l : ℕ) (c d e : Bool)
    → (leb x y && (leb y l && (c && (not d && not e)))) ≡ true
    → ((leb x l && not d) && (leb y l && not e)) ≡ true
cut_lem x y l c d e h = ground arith

is_valid-cut : (s : Text) (span : Span) → is_valid s span ≡ true → is_cut s span ≡ true
unfolding is_valid
is_valid-cut s span h =
    cut_lem span.start span.end (length s) (any_of (λ (c : Text). eq_text c span.cls) pii_classes)
      (splits_pair s span.start) (splits_pair s span.end) h

-- The merged spans start and end in the text, and never between the two halves of a character.
pub merge_spans-bounds :
    (s : Text) (raws : List RawSpan) (out : List Span)
    → merge_spans s raws ≡ some out
    → all_spans (is_cut s) out ≡ true
merge_spans-bounds s = merge_spans-kept (is_cut s) (join-cut s) s (is_valid-cut s)

-- A property of the classes is one of the class of a valid span.
any_class :
    (q : Text → Bool) (cls : Text) (classes : List Text)
    → any_of (λ (c : Text). eq_text c cls) classes ≡ true
    → any_of (λ (c : Text). not (q c)) classes ≡ false
    → q cls ≡ true
any_class q cls [] h k = ground arith
any_class q cls (c ∷ cs) h k = elim (Bool-cases (eq_text c cls)) [
  | inl same ↦
      let eq : c ≡ cls = (eq_text_iff c cls).0 same in
      let good : q c ≡ true = ground arith in rw (← eq) good
  | inr other ↦ any_class q cls cs (ground arith) (ground arith)
]

class_lem : (a b d : Bool) (c : Bool) → (a && (b && (c && d))) ≡ true → c ≡ true
class_lem a b d c h = ground arith

-- What holds of every class holds of the class of every merged span.
pub merge_spans-class :
    (q : Text → Bool) (s : Text) (raws : List RawSpan) (out : List Span)
    → any_of (λ (c : Text). not (q c)) pii_classes ≡ false
    → merge_spans s raws ≡ some out
    → all_spans (λ (span : Span). q span.cls) out ≡ true
unfolding is_valid join
merge_spans-class q s raws out h =
    merge_spans-kept (λ (span : Span). q span.cls)
      (λ cur best span g k. if_class (ltb best (span.end - span.start)) cur span g k) s
      (λ span v. any_class q span.cls pii_classes (class_lem _ _ _ _ v) h) raws out
  where
    if_class :
        (b : Bool) (cur span : Span)
        → q cur.cls ≡ true
        → q span.cls ≡ true
        → q (if b then span.cls else cur.cls) ≡ true
    if_class true cur span g k = k
    if_class false cur span g k = g

and_then-none : (x : Option Span) → and_then x none ≡ none
and_then-none none = refl
and_then-none (some a) = refl

valid_spans-none :
    (s : Text) (before : List RawSpan) (raw : RawSpan) (after : List RawSpan)
    → valid_span s raw ≡ none
    → valid_spans s (before ++ raw ∷ after) ≡ none
unfolding valid_spans
valid_spans-none s [] raw after h = rw h refl
valid_spans-none s (r ∷ before) raw after h =
    rw (valid_spans-none s before raw after h) (and_then-none (valid_span s r))

-- One span that is not valid makes the whole fail, wherever it stands.
pub merge_spans-none :
    (s : Text) (before : List RawSpan) (raw : RawSpan) (after : List RawSpan)
    → valid_span s raw ≡ none
    → merge_spans s (before ++ raw ∷ after) ≡ none
unfolding merge_spans merge_valid
merge_spans-none s before raw after h = rw (valid_spans-none s before raw after h) refl
