-- ===== src/StreamReplacer/Hold.antt =====
-- The end of a text that is held back, found from the left: where the code counts down the lengths of
-- the ends, this goes through the ends themselves.
use ppq_enclave_proxy.Prelude.{
  ℕ, zero, suc, ◌-◌, ◌≤◌, ◌<◌, ◌≡◌, refl, ap, ◌∙◌, min, Text, List, [], ◌∷◌, Bool, true, false,
  length, take, drop, ltb, if◌then◌else◌, arith, inl, inr, Bool-cases,
}
use ppq_enclave_proxy.StreamReplacer.{Pair, max_needle, starts_needle, held_back, cut}

-- The longest end that passes the test, and what stands before it.
abbrev pub split : (Text → Bool) → Text → Text × Text
split test [] = ([], [])
split test (c ∷ s) = if test (c ∷ s) then ([], c ∷ s) else (c ∷ (split test s).0, (split test s).1)

held_back-le : (ps : List Pair) (k : ℕ) (s : Text) → held_back ps k s ≤ k
unfolding held_back
held_back-le ps zero s = omega arith
held_back-le ps (suc k) s = ground (arith, held_back-le ps k s)

drop_end :
    (c : ℕ) (s : Text) (k : ℕ)
    → k ≤ length s
    → drop (suc (length s) - k) (c ∷ s) ≡ drop (length s - k) s
drop_end c s k h = let e : suc (length s) - k ≡ suc (length s - k) = omega arith in rw e refl

take_end :
    (c : ℕ) (s : Text) (k : ℕ)
    → k ≤ length s
    → take (suc (length s) - k) (c ∷ s) ≡ c ∷ take (length s - k) s
take_end c s k h = let e : suc (length s) - k ≡ suc (length s - k) = omega arith in rw e refl

held_back-cons :
    (ps : List Pair) (k c : ℕ) (s : Text) → k ≤ length s → held_back ps k (c ∷ s) ≡ held_back ps k s
unfolding held_back
held_back-cons ps zero c s h = refl
held_back-cons ps (suc k) c s h =
    rw (drop_end c s (suc k) h, held_back-cons ps k c s (omega arith)) refl

-- A start of a needle is shorter than the longest needle.
pub starts_needle-lt :
    (ps : List Pair) (s : Text) → starts_needle ps s ≡ true → length s < max_needle ps
unfolding starts_needle max_needle
starts_needle-lt [] s h = ground arith
starts_needle-lt ((n, r) ∷ ps) s h = ground (arith, starts_needle-lt ps s)

pub max_needle-pos : (ps : List Pair) → 0 < max_needle ps
unfolding max_needle
max_needle-pos [] = omega arith
max_needle-pos ((n, r) ∷ ps) = omega (arith, max_needle-pos ps)

abbrev cut_at : ℕ → Text → Text × Text
cut_at k s = (take (length s - k) s, drop (length s - k) s)

cut_at_nil : (k : ℕ) → cut_at k [] ≡ ([], [])
cut_at_nil k = let e : 0 - k ≡ 0 = omega arith in rw e refl

cut_at-cons :
    (k c : ℕ) (s : Text) → k ≤ length s → cut_at k (c ∷ s) ≡ (c ∷ (cut_at k s).0, (cut_at k s).1)
cut_at-cons k c s h = rw (drop_end c s k h, take_end c s k h) refl

cut_at_all : (c : ℕ) (s : Text) → cut_at (suc (length s)) (c ∷ s) ≡ ([], c ∷ s)
cut_at_all c s = let e : suc (length s) - suc (length s) ≡ 0 = omega arith in rw e refl

held_back_all :
    (ps : List Pair) (c : ℕ) (s : Text)
    → starts_needle ps (c ∷ s) ≡ true
    → held_back ps (suc (length s)) (c ∷ s) ≡ suc (length s)
unfolding held_back
held_back_all ps c s h =
    let e : suc (length s) - suc (length s) ≡ 0 = omega arith in rw e (rw h refl)

held_back_less :
    (ps : List Pair) (c : ℕ) (s : Text)
    → starts_needle ps (c ∷ s) ≡ false
    → held_back ps (suc (length s)) (c ∷ s) ≡ held_back ps (length s) s
unfolding held_back
held_back_less ps c s h =
    let e : suc (length s) - suc (length s) ≡ 0 = omega arith in
    rw e (rw h (held_back-cons ps (length s) c s (omega arith)))

-- Where the whole text starts no needle, its first unit is not held back.
held_back-min :
    (ps : List Pair) (m c : ℕ) (s : Text)
    → starts_needle ps (c ∷ s) ≡ false
    → held_back ps (min m (suc (length s))) (c ∷ s) ≡ held_back ps (min m (length s)) s
held_back-min ps m c s h = elim (Bool-cases (ltb (length s) m)) [
  | inl lt ↦
      let a : min m (suc (length s)) ≡ suc (length s) = ground arith in
      let b : min m (length s) ≡ length s = ground arith in rw (a, b) (held_back_less ps c s h)
  | inr ge ↦
      let a : min m (suc (length s)) ≡ m = ground arith in
      let b : min m (length s) ≡ m = ground arith in
      let fits : m ≤ length s = ground arith in rw (a, b) (held_back-cons ps m c s fits)
]

held_back-le-length :
    (ps : List Pair) (m : ℕ) (s : Text) → held_back ps (min m (length s)) s ≤ length s
held_back-le-length ps m s = omega (arith, held_back-le ps (min m (length s)) s)

-- The code's cut is the split by the test of a needle's start.
pub cut-split : (ps : List Pair) (s : Text) → cut ps s ≡ split (starts_needle ps) s
unfolding cut
cut-split ps [] = cut_at_nil (held_back ps (min (max_needle ps - 1) 0) [])
cut-split ps (c ∷ s) = elim (Bool-cases (starts_needle ps (c ∷ s))) [
  | inl y ↦
      let lt = starts_needle-lt ps (c ∷ s) y in
      let whole : min (max_needle ps - 1) (suc (length s)) ≡ suc (length s) = omega arith in
      rw (y, whole, held_back_all ps c s y) (cut_at_all c s)
  | inr n ↦
      let less = held_back-min ps (max_needle ps - 1) c s n in
      rw (n, less)
        (cut_at-cons (held_back ps (min (max_needle ps - 1) (length s)) s) c s
            (held_back-le-length ps (max_needle ps - 1) s)
          ∙ ap (λ (x : Text × Text). (c ∷ x.0, x.1)) (cut-split ps s))
]
