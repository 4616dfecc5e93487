-- ===== src/PiiPlaceholders/Free.antt =====
-- The search for a number whose placeholder is not taken.
use ppq_enclave_proxy.Prelude.{
  ℕ, zero, suc, ◌+◌, ◌<◌, ◌≡◌, inl, inr, refl, ap, ◌∙◌, Text, eq_text, eq_text_iff, List, [], ◌∷◌,
  some, Bool, true, false, ◌||◌, length, if◌then◌else◌, Bool-cases, arith,
}
use mathlib.Core.List.{append_cancel_left, append_cancel_right, tail-eq_of_cons-eq}
use ppq_enclave_proxy.Address.{number_text}
use ppq_enclave_proxy.Address.Numbers.{number_text_inj}
use ppq_enclave_proxy.PiiPlaceholders.{is_taken, placeholder, next_free}

-- The texts without the first that is the same.
abbrev without : Text → List Text → List Text
without s [] = []
without s (t ∷ ts) = if eq_text t s then ts else t ∷ without s ts

length-without :
    (s : Text) (ts : List Text) → is_taken ts s ≡ true → suc (length (without s ts)) ≡ length ts
length-without s [] h = ground arith
length-without s (t ∷ ts) h = elim (Bool-cases (eq_text t s)) [
  | inl same ↦ rw same refl
  | inr other ↦ rw other (ap suc (length-without s ts (ground arith)))
]

or_right : (a b : Bool) → a ≡ false → (a || b) ≡ true → b ≡ true
or_right a b h k = ground arith

is_taken-without :
    (s u : Text) (ts : List Text)
    → eq_text s u ≡ false
    → is_taken ts u ≡ true
    → is_taken (without s ts) u ≡ true
is_taken-without s u [] h k = k
is_taken-without s u (t ∷ ts) h k = elim (Bool-cases (eq_text t s)) [
  | inl same ↦
      let eq : t ≡ s = (eq_text_iff t s).0 same in
      let apart : eq_text t u ≡ false = rw eq h in
      rw same (or_right (eq_text t u) (is_taken ts u) apart k)
  | inr other ↦ rw other (elim (Bool-cases (eq_text t u)) [
    | inl there ↦ rw there refl
    | inr apart ↦
        rw apart (is_taken-without s u ts h (or_right (eq_text t u) (is_taken ts u) apart k))
  ])
]

module _ (open_mark close_mark : Text) (taken : List Text) where
  pub placeholder_inj :
      (cls : Text) (m n : ℕ)
      → placeholder open_mark close_mark taken cls m ≡ placeholder open_mark close_mark taken cls n
      → m ≡ n
  unfolding placeholder
  placeholder_inj cls m n h =
      let tails = append_cancel_left cls _ _ (append_cancel_left open_mark _ _ h) in
      number_text_inj m n (
        append_cancel_right (number_text 10 m) (number_text 10 n) close_mark
          (tail-eq_of_cons-eq tails))

  placeholder_apart :
      (cls : Text) (m n : ℕ)
      → m < n
      → eq_text
          (placeholder open_mark close_mark taken cls m)
          (placeholder open_mark close_mark taken cls n)
        ≡ false
  placeholder_apart cls m n h =
      let p = placeholder open_mark close_mark taken cls in
      elim (Bool-cases (eq_text (p m) (p n))) [
        | inl same ↦
            let eq : m ≡ n = placeholder_inj cls m n ((eq_text_iff (p m) (p n)).0 same) in
            absurd (omega (arith, eq, h))
        | inr other ↦ other
      ]

  next_free_more :
      (fuel : ℕ) (cls : Text) (n : ℕ)
      → is_taken taken (placeholder open_mark close_mark taken cls (n + 1)) ≡ true
      → next_free open_mark close_mark taken (suc fuel) cls n
        ≡ next_free open_mark close_mark taken fuel cls (n + 1)
  unfolding next_free
  next_free_more fuel cls n h = rw (h, next_free) refl

  next_free_done :
      (fuel : ℕ) (cls : Text) (n : ℕ)
      → is_taken taken (placeholder open_mark close_mark taken cls (n + 1)) ≡ false
      → next_free open_mark close_mark taken (suc fuel) cls n ≡ some (n + 1)
  unfolding next_free
  next_free_done fuel cls n h = rw (h, next_free) refl

  -- A number above, whose placeholder is free.
  abbrev pub IsFree : Text → ℕ → ℕ → Type 0
  IsFree cls n m = (n < m) × (is_taken taken (placeholder open_mark close_mark taken cls m) ≡ false)

  next_free-among :
      (fuel : ℕ) (cls : Text) (n : ℕ) (left : List Text)
      → ((i : ℕ)
          → n < i
          → is_taken taken (placeholder open_mark close_mark taken cls i) ≡ true
          → is_taken left (placeholder open_mark close_mark taken cls i) ≡ true)
      → length left < fuel
      → (m : ℕ) × ((next_free open_mark close_mark taken fuel cls n ≡ some m) × IsFree cls n m)
  next_free-among zero cls n left h k = absurd (omega arith)
  next_free-among (suc fuel) cls n left h k =
      let p = placeholder open_mark close_mark taken cls in
      elim (Bool-cases (is_taken taken (p (n + 1)))) [
        | inl used ↦
            let there : is_taken left (p (n + 1)) ≡ true = h (n + 1) (omega arith) used in
            let shorter : length (without (p (n + 1)) left) < fuel =
              omega (arith, length-without (p (n + 1)) left there) in
            let r =
              next_free-among fuel cls (n + 1) (without (p (n + 1)) left)
                (λ i above used_too.
                  is_taken-without (p (n + 1)) (p i) left (placeholder_apart cls (n + 1) i above)
                    (h i (omega (arith, above)) used_too))
                shorter in
            (r.0, (next_free_more fuel cls n used ∙ r.1.0, (omega (arith, r.1.1.0), r.1.1.1)))
        | inr free ↦ (n + 1, (next_free_done fuel cls n free, (omega arith, free)))
      ]

  -- With one round more than there are taken placeholders the search ends, at a number above whose
  -- placeholder is not taken.
  pub next_free-some :
      (cls : Text) (n : ℕ)
      → (m : ℕ) × ((next_free open_mark close_mark taken (suc (length taken)) cls n ≡ some m)
          × IsFree cls n m)
  next_free-some cls n =
      next_free-among (suc (length taken)) cls n taken (λ i above used. used) (omega arith)
