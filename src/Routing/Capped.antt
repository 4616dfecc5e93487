-- ===== src/Routing/Capped.antt =====
-- What a request can ask for after the spend cap.
use Prim.Native.Nat.{ℕ}
use native.Mathlib.Nat.{div-mul-le_self, mul-le-mul_left, mul-le-mul_right}
use ppq_enclave_proxy.Prelude.{
  suc, ◌*◌, ◌/◌, ◌≤◌, ◌<◌, ◌≡◌, ◌⊎◌, refl, sym, max, Option, none, some, true, false, ◌&&◌, leb,
  ltb, ◌==◌, arith, inl, inr, Bool-cases, if_both,
}
use ppq_enclave_proxy.Values.{Raw, text, number, other, whole_positive}
use ppq_enclave_proxy.Routing.SpendCap.{
  Lengths, Amount, raw, whole, or_other, capped, put_fields, put_length, choices_paid,
  bound_choices, apply_spend_cap,
}

-- A positive length that the cap pays for.
abbrev pub IsPaid : Amount → ℕ → Type 0
IsPaid a cap = (0 < a.numerator) × (a.numerator ≤ cap * suc a.denominator)

capped-IsPaid : (v : Option Raw) (cap : ℕ) → 0 < cap → IsPaid (capped v cap) cap
unfolding capped
capped-IsPaid none cap h = (h, omega arith)
capped-IsPaid (some (text t)) cap h = (h, omega arith)
capped-IsPaid (some other) cap h = (h, omega arith)
capped-IsPaid (some (number true k d)) cap h = (h, omega arith)
capped-IsPaid (some (number false k d)) cap h = elim (Bool-cases (ltb 0 k && leb k (cap * suc d))) [
  | inl e ↦
      let lo : 0 < k = ground arith in let hi : k ≤ cap * suc d = ground arith in rw e (lo, hi)
  | inr e ↦ rw e (h, omega arith)
]

-- The number of choices that is asked for; 1 where `n` is none or no whole number of at least 1.
abbrev pub choices : Option Raw → ℕ
choices none = 1
choices (some v) = max 1 (whole_positive v)

choices_paid-fit :
    (a : Amount) (cap : ℕ)
    → 0 < cap
    → IsPaid a cap
    → choices_paid a cap * a.numerator ≤ cap * suc a.denominator
unfolding choices_paid
choices_paid-fit a cap h (lo, hi) = elim (Bool-cases (ltb a.numerator (suc a.denominator))) [
  | inl e ↦
      let all : max 1 cap ≡ cap = omega arith in
      let short : a.numerator ≤ suc a.denominator = ground arith in
      rw (e, all) (mul-le-mul_left cap short)
  | inr e ↦
      let q : ℕ = cap * suc a.denominator / a.numerator in
      elim (Bool-cases (leb 1 q)) [
        | inl y ↦
            let all : max 1 q ≡ q = ground arith in
            rw (e, all) (div-mul-le_self (cap * suc a.denominator) a.numerator)
        | inr y ↦ let one : max 1 q ≡ 1 = ground arith in rw (e, one) (omega arith)
      ]
]

choices_paid-pos : (a : Amount) (cap : ℕ) → 1 ≤ choices_paid a cap
unfolding choices_paid
choices_paid-pos a cap =
    if_both (λ n. 1 ≤ n) (ltb a.numerator (suc a.denominator)) _ _ (omega arith) (omega arith)

-- What is reported is the reduced number of choices; nothing is reported where it is not reduced.
abbrev pub Reports : Option Raw → Option Raw × Option ℕ → Type 0
Reports before (after, none) = choices after ≡ choices before
Reports before (after, some k) =
    (after ≡ some (raw (whole k))) × (choices after ≡ k) × (k < choices before)

whole_positive-raw : (k : ℕ) → whole_positive (raw (whole k)) ≡ k
whole_positive-raw k = ground arith

bound_choices-Reports :
    (paid : ℕ) (v : Option Raw)
    → 1 ≤ paid
    → Reports v (bound_choices paid v) × (choices (bound_choices paid v).0 ≤ paid)
unfolding bound_choices
bound_choices-Reports paid none h = (refl, h)
bound_choices-Reports paid (some v) h = elim (Bool-cases (whole_positive v == 0)) [
  | inl z ↦ let one : max 1 (whole_positive v) ≡ 1 = ground arith in rw z (sym one, h)
  | inr z ↦ elim (Bool-cases (leb (whole_positive v) paid)) [
    | inl y ↦ let fits : max 1 (whole_positive v) ≤ paid = ground arith in rw (z, y) (refl, fits)
    | inr y ↦
        let mine = whole_positive-raw paid in
        let same : max 1 (whole_positive (raw (whole paid))) ≡ paid = rw mine (omega arith) in
        let less : paid < max 1 (whole_positive v) = ground arith in
        rw (z, y) ((refl, same, less), omega arith)
  ]
]

-- The lengths that are sent are this one, and one is sent.
abbrev pub Sends : Amount → Lengths → Type 0
Sends a p =
    ((p.max_tokens ≡ some (raw a)) × (p.max_completion_tokens ≡ none))
    ⊎ (((p.max_tokens ≡ none) × (p.max_completion_tokens ≡ some (raw a)))
        ⊎ ((p.max_tokens ≡ some (raw a)) × (p.max_completion_tokens ≡ some (raw a))))

put_fields-Sends :
    (a : Amount) (u v : Option Raw) (p : Lengths)
    → p.max_tokens ≡ u
    → p.max_completion_tokens ≡ v
    → Sends a (put_fields a u v p)
put_fields-Sends a none (some v) p e f = inr (inl (e, refl))
put_fields-Sends a none none p e f = inl (refl, f)
put_fields-Sends a (some u) none p e f = inl (refl, f)
put_fields-Sends a (some u) (some v) p e f = inr (inr (refl, refl))

-- After the cap a request sends one positive length, and that length times the number of choices
-- is at most the cap.
pub apply_spend_cap-IsPaid :
    (p : Lengths) (cap : ℕ)
    → 0 < cap
    → (a : Amount) × IsPaid a cap
      × Sends a (apply_spend_cap p cap).0
      × (choices (apply_spend_cap p cap).0.n * a.numerator ≤ cap * suc a.denominator)
unfolding apply_spend_cap put_length
apply_spend_cap-IsPaid p cap h =
    let a : Amount = capped (or_other p.max_tokens p.max_completion_tokens) cap in
    let paid = capped-IsPaid (or_other p.max_tokens p.max_completion_tokens) cap h in
    let (_, fits) = bound_choices-Reports (choices_paid a cap) p.n (choices_paid-pos a cap) in
    let times = mul-le-mul_right a.numerator fits in
    let most = choices_paid-fit a cap h paid in
    (
      a,
      paid,
      put_fields-Sends a p.max_tokens p.max_completion_tokens p refl refl,
      omega (arith, times, most),
    )

-- The number of choices is never raised: it is reduced to the number that is reported, or kept where
-- none is reported.
pub apply_spend_cap-Reports :
    (p : Lengths) (cap : ℕ) → Reports p.n ((apply_spend_cap p cap).0.n, (apply_spend_cap p cap).1)
unfolding apply_spend_cap
apply_spend_cap-Reports p cap =
    let a : Amount = capped (or_other p.max_tokens p.max_completion_tokens) cap in
    (bound_choices-Reports (choices_paid a cap) p.n (choices_paid-pos a cap)).0
