-- ===== src/LineBuffer/Split.antt =====
-- The lines of two texts together.
use ppq_enclave_proxy.Prelude.{
  ℕ, ◌≡◌, inl, inr, refl, Text, List, [], ◌∷◌, ◌++◌, false, ◌==◌, Bool-cases, arith,
}
use ppq_enclave_proxy.LineBuffer.{split_lines, add_first}
use ppq_enclave_proxy.LineBuffer.Units.{has_newline}

add_first_append :
    (c : ℕ) (ls : List Text) (last t : Text)
    → (c == 10) ≡ false
    → add_first c (ls ++ (split_lines (last ++ t)).0) (split_lines (last ++ t)).1 ≡ (
      (add_first c ls last).0 ++ (split_lines ((add_first c ls last).1 ++ t)).0,
      (split_lines ((add_first c ls last).1 ++ t)).1,
    )
add_first_append c [] last t h = rw h refl
add_first_append c (l ∷ ls) last t h = refl

pub split_lines-append :
    (s t : Text)
    → split_lines (s ++ t) ≡ (
      (split_lines s).0 ++ (split_lines ((split_lines s).1 ++ t)).0,
      (split_lines ((split_lines s).1 ++ t)).1,
    )
split_lines-append [] t = refl
split_lines-append (c ∷ s) t = elim (Bool-cases (c == 10)) [
  | inl same ↦ rw (same, split_lines-append s t) refl
  | inr other ↦
      rw (other, split_lines-append s t)
        (add_first_append c (split_lines s).0 (split_lines s).1 t other)
]

-- A text before the lines of another.
abbrev pub prepend : Text → List Text × Text → List Text × Text
prepend p ([], last) = ([], p ++ last)
prepend p (l ∷ ls, last) = ((p ++ l) ∷ ls, last)

add_first-prepend :
    (c : ℕ) (p : Text) (ls : List Text) (last : Text)
    → add_first c (prepend p (ls, last)).0 (prepend p (ls, last)).1 ≡ prepend (c ∷ p) (ls, last)
add_first-prepend c p [] last = refl
add_first-prepend c p (l ∷ ls) last = refl

nil_lem : (x : List Text × Text) → x ≡ prepend [] x
nil_lem ([], last) = refl
nil_lem (l ∷ ls, last) = refl

pub split_lines-prepend :
    (p t : Text) → has_newline p ≡ false → split_lines (p ++ t) ≡ prepend p (split_lines t)
split_lines-prepend [] t h = nil_lem (split_lines t)
split_lines-prepend (c ∷ p) t h =
    let other : (c == 10) ≡ false = ground arith in
    rw (other, split_lines-prepend p t (ground arith))
      (add_first-prepend c p (split_lines t).0 (split_lines t).1)

last_add_first :
    (c : ℕ) (ls : List Text) (last : Text)
    → (c == 10) ≡ false
    → has_newline last ≡ false
    → has_newline (add_first c ls last).1 ≡ false
last_add_first c [] last h k = rw h k
last_add_first c (l ∷ ls) last h k = k

pub last-whole : (s : Text) → has_newline (split_lines s).1 ≡ false
last-whole [] = refl
last-whole (c ∷ s) = elim (Bool-cases (c == 10)) [
  | inl same ↦ rw same (last-whole s)
  | inr other ↦ rw other (last_add_first c (split_lines s).0 (split_lines s).1 other (last-whole s))
]
