-- ===== src/Prelude/Prefixes.antt =====
-- Starts of a text, and occurrences in it.
use Prim.Native.Nat.{◌≤◌, ◌<◌}
use mathlib.Core.Path.{◌≡◌, refl}
use mathlib.Core.Logic.{◌⊎◌, inl, inr}
use mathlib.Core.Bool.{true}
use mathlib.Core.List.{[], ◌∷◌, ◌++◌}
use native.Mathlib.Omega.{arith}
use ppq_enclave_proxy.Prelude.Lists.{length, take}
use ppq_enclave_proxy.Prelude.Chars.{Text, eq_text, starts_with, contains}

pub starts_with-append : (s t n : Text) → starts_with s n ≡ true → starts_with (s ++ t) n ≡ true
starts_with-append s t [] h = refl
starts_with-append [] t (y ∷ n) h = ground arith
starts_with-append (x ∷ s) t (y ∷ n) h = ground (arith, starts_with-append s t n)

-- A text that starts an appended text starts the first part, or is longer and starts with it.
pub starts_with_cases :
    (s t n : Text)
    → starts_with (s ++ t) n ≡ true
    → (starts_with s n ≡ true) ⊎ ((length s < length n) × (starts_with n s ≡ true))
starts_with_cases s t [] h = inl refl
starts_with_cases [] t (y ∷ n) h = inr (omega arith, refl)
starts_with_cases (x ∷ s) t (y ∷ n) h = ground (arith, starts_with_cases s t n)

pub starts_with-length : (s n : Text) → starts_with s n ≡ true → length n ≤ length s
starts_with-length s [] h = omega arith
starts_with-length [] (y ∷ n) h = ground arith
starts_with-length (x ∷ s) (y ∷ n) h = ground (arith, starts_with-length s n)

pub starts_with-prefix : (n s t : Text) → starts_with n (s ++ t) ≡ true → starts_with n s ≡ true
starts_with-prefix n [] t h = refl
starts_with-prefix [] (x ∷ s) t h = ground arith
starts_with-prefix (y ∷ n) (x ∷ s) t h = ground (arith, starts_with-prefix n s t)

-- The comparison of a slice is the test of a start.
pub eq_text-take :
    (n s : Text) → length s ≤ length n → eq_text (take (length s) n) s ≡ starts_with n s
eq_text-take n [] h = refl
eq_text-take [] (x ∷ s) h = absurd (omega arith)
eq_text-take (y ∷ n) (x ∷ s) h = ground (arith, eq_text-take n s)

pub contains-length : (s t : Text) → contains s t ≡ true → length t ≤ length s
unfolding contains
contains-length [] t h = starts_with-length [] t h
contains-length (c ∷ s) t h = ground (arith, starts_with-length (c ∷ s) t, contains-length s t)

starts_with_trans :
    (n s t : Text) → starts_with n s ≡ true → starts_with s t ≡ true → starts_with n t ≡ true
starts_with_trans n s [] h k = refl
starts_with_trans n [] (z ∷ t) h k = ground arith
starts_with_trans [] (x ∷ s) (z ∷ t) h k = ground arith
starts_with_trans (y ∷ n) (x ∷ s) (z ∷ t) h k = ground (arith, starts_with_trans n s t)

contains-nil : (s : Text) → contains s [] ≡ true
unfolding contains
contains-nil [] = refl
contains-nil (c ∷ s) = refl

-- What occurs in the start of a text occurs in the text.
pub contains-starts_with :
    (n s t : Text) → starts_with n s ≡ true → contains s t ≡ true → contains n t ≡ true
unfolding contains
contains-starts_with n [] [] h k = contains-nil n
contains-starts_with n [] (z ∷ t) h k = ground arith
contains-starts_with [] (x ∷ s) t h k = ground arith
contains-starts_with (y ∷ n) (x ∷ s) t h k =
    ground (arith, starts_with_trans (y ∷ n) (x ∷ s) t h, contains-starts_with n s t)

pub contains-append : (s t u : Text) → contains t u ≡ true → contains (s ++ t) u ≡ true
unfolding contains
contains-append [] t u h = h
contains-append (x ∷ s) t u h = ground (arith, contains-append s t u)

pub starts_with_self : (r t : Text) → starts_with (r ++ t) r ≡ true
starts_with_self [] t = refl
starts_with_self (x ∷ r) t = ground (arith, starts_with_self r t)

pub contains-start : (r t : Text) → contains (r ++ t) r ≡ true
unfolding contains
contains-start [] t = contains-nil t
contains-start (x ∷ r) t = ground (arith, starts_with_self r t)
