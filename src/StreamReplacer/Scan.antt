-- ===== src/StreamReplacer/Scan.antt =====
-- The replacement of one needle, and the texts whose end does not depend on what follows.
use ppq_enclave_proxy.Prelude.{
  ℕ, zero, suc, ◌-◌, ◌≤◌, ◌<◌, ◌≡◌, ◌⊎◌, refl, sym, ap, subst, ◌∙◌, Text, starts_with, contains,
  List, [], ◌∷◌, ◌++◌, Bool, true, false, ◌&&◌, ◌||◌, length, ltb, arith, inl, inr, Bool-cases,
  starts_with-append, length-append, starts_with_cases, starts_with-length, starts_with-prefix,
  eq_text-take, contains-starts_with, contains-append, contains-start,
}
use mathlib.Core.Bool.{false≢true}
use mathlib.Core.List.{append_assoc}
use ppq_enclave_proxy.StreamReplacer.{Pair, replace_from, starts_needle}
use ppq_enclave_proxy.StreamReplacer.Hold.{split}

-- Some end of the replacement, not empty, is the start of a longer needle.
abbrev pub ends_in_start : (replacement needle : Text) → Bool
ends_in_start [] n = false
ends_in_start (c ∷ r) n =
    (ltb (length (c ∷ r)) (length n) && starts_with n (c ∷ r)) || ends_in_start r n

-- What is put in can be no part of a needle that the text around it would complete.
abbrev pub Isolated : (needle replacement : Text) → Type 0
Isolated n r = (ends_in_start r n ≡ false) × (contains n r ≡ false)

abbrev pub single : Text → Text → List Pair
single n r = (n, r) ∷ []

-- The test of a needle's start, for one needle.
starts_needle_iff :
    (n r s : Text) → (starts_needle (single n r) s ≡ (ltb (length s) (length n) && starts_with n s))
unfolding starts_needle
starts_needle_iff n r s = elim (Bool-cases (ltb (length s) (length n))) [
  | inl y ↦
      let fits : length s ≤ length n = ground arith in rw (y, eq_text-take n s fits) (ground arith)
  | inr off ↦ rw off refl
]

module _ (n r : Text) where
  pub replace_from_nil : replace_from n r 0 [] ≡ []
  unfolding replace_from
  replace_from_nil = refl

  replace_from_skip : (k c : ℕ) (s : Text) → replace_from n r (suc k) (c ∷ s) ≡ replace_from n r k s
  unfolding replace_from
  replace_from_skip k c s = refl

  replace_hit :
      (c : ℕ) (s : Text)
      → starts_with (c ∷ s) n ≡ true
      → replace_from n r 0 (c ∷ s) ≡ r ++ replace_from n r (length n - 1) s
  unfolding replace_from
  replace_hit c s h = rw (h, replace_from)

  replace_miss :
      (c : ℕ) (s : Text)
      → starts_with (c ∷ s) n ≡ false
      → replace_from n r 0 (c ∷ s) ≡ c ∷ replace_from n r 0 s
  unfolding replace_from
  replace_miss c s h = rw (h, replace_from)

  -- A text shorter than the needle is left as it is.
  pub replace_from_short : (s : Text) → length s < length n → replace_from n r 0 s ≡ s
  replace_from_short [] h = replace_from_nil
  replace_from_short (c ∷ s) h = elim (Bool-cases (starts_with (c ∷ s) n)) [
    | inl on ↦ absurd (omega (arith, starts_with-length (c ∷ s) n on))
    | inr off ↦ replace_miss c s off ∙ ap (λ (t : Text). c ∷ t) (replace_from_short s (omega arith))
  ]

  -- A rewritten text is the text, or the replacement occurs in it.
  replace_from_or :
      (s : Text) → (replace_from n r 0 s ≡ s) ⊎ (contains (replace_from n r 0 s) r ≡ true)
  replace_from_or [] = inl replace_from_nil
  replace_from_or (c ∷ s) = elim (Bool-cases (starts_with (c ∷ s) n)) [
    | inl on ↦ rw (replace_hit c s on) (inr (contains-start r (replace_from n r (length n - 1) s)))
    | inr off ↦ rw (replace_miss c s off) (elim (replace_from_or s) [
      | inl same ↦ inl (ap (λ (t : Text). c ∷ t) same)
      | inr found ↦ inr (contains-append (c ∷ []) (replace_from n r 0 s) r found)
    ])
  ]

  -- What is put in is emitted whole.
  split_replacement :
      (v t : Text)
      → ends_in_start v n ≡ false
      → split (starts_needle (single n r)) (v ++ t)
        ≡ (v ++ (split (starts_needle (single n r)) t).0, (split (starts_needle (single n r)) t).1)
  split_replacement [] t h = refl
  split_replacement (c ∷ v) t h =
      let rest : ends_in_start v n ≡ false = ground arith in
      let unstarted : ltb (length (c ∷ v)) (length n) && starts_with n (c ∷ v) ≡ false =
        ground arith in
      let test = starts_needle_iff n r (c ∷ (v ++ t)) in
      let off : starts_needle (single n r) (c ∷ (v ++ t)) ≡ false =
        ground (arith, test, starts_with-prefix n (c ∷ v) t, length-append v t) in
      rw off (ap (λ (x : Text × Text). (c ∷ x.0, x.1)) (split_replacement v t rest))

  -- The texts before the hold are emitted for good: what follows changes only what the hold becomes.
  abbrev Settled : ℕ → Text → Type 0
  Settled k s =
      (t : Text)
      → let h = split (starts_needle (single n r)) (replace_from n r k s) in
        replace_from n r k (s ++ t) ≡ h.0 ++ replace_from n r 0 (h.1 ++ t)

  -- Past an occurrence: the replacement is emitted, and the rest as it would be.
  hit-Settled :
      (c : ℕ) (s t : Text)
      → Isolated n r
      → starts_with (c ∷ s) n ≡ true
      → Settled (length n - 1) s
      → replace_from n r 0 (c ∷ (s ++ t))
        ≡ (split (starts_needle (single n r)) (replace_from n r 0 (c ∷ s))).0
          ++ replace_from n r 0
              ((split (starts_needle (single n r)) (replace_from n r 0 (c ∷ s))).1 ++ t)
  hit-Settled c s t iso on rest =
      let later : starts_with (c ∷ (s ++ t)) n ≡ true = starts_with-append (c ∷ s) t n on in
      rw
        (
          replace_hit c s on,
          replace_hit c (s ++ t) later,
          split_replacement r (replace_from n r (length n - 1) s) iso.0,
        )
        (ap (λ (x : Text). r ++ x) (rest t) ∙ sym (append_assoc r _ _))

  -- What starts a needle after the rewriting was not rewritten.
  held_same :
      (c : ℕ) (s : Text)
      → Isolated n r
      → starts_needle (single n r) (c ∷ replace_from n r 0 s) ≡ true
      → replace_from n r 0 s ≡ s
  held_same c s iso held = elim (replace_from_or s) [
    | inl same ↦ same
    | inr found ↦
        let test = starts_needle_iff n r (c ∷ replace_from n r 0 s) in
        let start : starts_with n (c ∷ replace_from n r 0 s) ≡ true = ground arith in
        let inside = contains-append (c ∷ []) (replace_from n r 0 s) r found in
        absurd (
          false≢true (sym iso.1 ∙ contains-starts_with n (c ∷ replace_from n r 0 s) r start inside))
  ]

  -- Where neither an occurrence nor the start of one stands, none can come to stand.
  free_miss :
      (c : ℕ) (s t : Text)
      → starts_with (c ∷ s) n ≡ false
      → starts_needle (single n r) (c ∷ replace_from n r 0 s) ≡ false
      → starts_with (c ∷ (s ++ t)) n ≡ false
  free_miss c s t off free = elim (Bool-cases (starts_with (c ∷ (s ++ t)) n)) [
    | inr miss ↦ miss
    | inl on ↦ elim (starts_with_cases (c ∷ s) t n on) [
      | inl whole ↦ absurd (false≢true (sym off ∙ whole))
      | inr (lt, start) ↦
          let same = replace_from_short s (omega arith) in
          let free' : starts_needle (single n r) (c ∷ s) ≡ false =
            subst (λ x. starts_needle (single n r) (c ∷ x) ≡ false) same free in
          let test = starts_needle_iff n r (c ∷ s) in ground arith
    ]
  ]

  pub replace_from-Settled :
      (k : ℕ) (s : Text) → Isolated n r → 0 < length n → k ≤ length s → Settled k s
  replace_from-Settled zero [] iso pos le t = rw replace_from_nil refl
  replace_from-Settled (suc k) [] iso pos le t = absurd (omega arith)
  replace_from-Settled (suc k) (c ∷ s) iso pos le t =
      rw (replace_from_skip k c (s ++ t), replace_from_skip k c s)
        (replace_from-Settled k s iso pos (omega arith) t)
  replace_from-Settled zero (c ∷ s) iso pos le t = elim (Bool-cases (starts_with (c ∷ s) n)) [
    | inl on ↦
        let fits = starts_with-length (c ∷ s) n on in
        hit-Settled c s t iso on (replace_from-Settled (length n - 1) s iso pos (omega arith))
    | inr off ↦ elim (Bool-cases (starts_needle (single n r) (c ∷ replace_from n r 0 s))) [
      | inl held ↦ rw (replace_miss c s off, held, held_same c s iso held) refl
      | inr free ↦
          rw (replace_miss c s off, replace_miss c (s ++ t) (free_miss c s t off free), free)
            (ap (λ (x : Text). c ∷ x) (replace_from-Settled zero s iso pos (omega arith) t))
    ]
  ]
