-- ===== src/Routing/SpendCap.antt =====
-- applySpendCap of enclave/src/routing.mjs. A length is a number of the body, a fraction; the cap is
-- a whole number of at least 1, as its caller makes sure.
use ppq_enclave_proxy.Prelude.{
  ℕ, suc, ◌*◌, ◌/◌, max, Option, none, some, true, false, ◌&&◌, leb, ltb, ◌==◌, if◌then◌else◌,
}
use ppq_enclave_proxy.Values.{Raw, text, number, other, whole_positive}

-- The fields that bound the output. `none` for a length is null or no field, for `n` no field.
pub record Lengths : Type 0 where
  pub max_tokens : Option Raw
  pub max_completion_tokens : Option Raw
  pub n : Option Raw

-- A positive number, `numerator / suc denominator`.
pub record Amount : Type 0 where
  pub numerator : ℕ
  pub denominator : ℕ

abbrev pub raw : Amount → Raw
raw a = number false a.numerator a.denominator

abbrev pub whole : ℕ → Amount
whole k = record { numerator = k; denominator = 0 }

-- `payload.max_tokens ?? payload.max_completion_tokens`
abbrev pub or_other : Option Raw → Option Raw → Option Raw
or_other (some v) m = some v
or_other none m = m

-- The length of one choice, at most the cap.
unfoldable pub capped : Option Raw → ℕ → Amount
capped (some (number false k d)) cap =
    if ltb 0 k && leb k (cap * suc d) then record { numerator = k; denominator = d } else whole cap
capped (some (number true k d)) cap = whole cap
capped (some (text t)) cap = whole cap
capped (some other) cap = whole cap
capped none cap = whole cap

-- Where the length is written: the field that was sent, or both; max_tokens where there was none.
abbrev pub put_fields : Amount → Option Raw → Option Raw → Lengths → Lengths
put_fields a none (some v) p = record p { max_completion_tokens = some (raw a) }
put_fields a none none p = record p { max_tokens = some (raw a) }
put_fields a (some u) none p = record p { max_tokens = some (raw a) }
put_fields a (some u) (some v) p = record p {
  max_tokens = some (raw a);
  max_completion_tokens = some (raw a);
}

unfoldable pub put_length : Amount → Lengths → Lengths
put_length a p = put_fields a p.max_tokens p.max_completion_tokens p

-- `Math.max(1, Math.floor(cap / Math.max(1, capped)))`
unfoldable pub choices_paid : Amount → ℕ → ℕ
choices_paid a cap =
    if ltb a.numerator (suc a.denominator)
    then max 1 cap
    else max 1 (cap * suc a.denominator / a.numerator)

-- The whole number of choices, 0 where `n` is not one.
unfoldable pub bound_choices : ℕ → Option Raw → Option Raw × Option ℕ
bound_choices paid none = (none, none)
bound_choices paid (some v) =
    if whole_positive v == 0
    then (none, none)
    else if leb (whole_positive v) paid
    then (some v, none)
    else (some (raw (whole paid)), some paid)

-- applySpendCap, with the reduced number of choices that it reports.
unfoldable pub apply_spend_cap : Lengths → ℕ → Lengths × Option ℕ
apply_spend_cap p cap =
    let a = capped (or_other p.max_tokens p.max_completion_tokens) cap in
    let r = bound_choices (choices_paid a cap) p.n in (record (put_length a p) { n = r.0 }, r.1)
