-- ===== src/BalanceBackoff.antt =====
-- enclave/src/balanceBackoff.mjs: the memory of the balance backoff. The hash of a credential is a
-- parameter; the clock is an argument. A body is only kept and given back.
pub mod Window
pub mod Memory
pub mod Answers
pub mod Tests
use ppq_enclave_proxy.Prelude.{
  ℕ, suc, ◌+◌, ◌-◌, ◌*◌, ◌/◌, ◌≡◌, max, min, Text, codes, eq_text, starts_with, is_digit, is_space,
  is_line_end, to_lower, trim, every, List, [], ◌∷◌, map, Option, none, some, Bool, true, false,
  not, ◌&&◌, ◌||◌, length, take, drop, leb, ltb, ◌==◌, if◌then◌else◌,
}
use ppq_enclave_proxy.Values.{Raw, text, number, other}
use ppq_enclave_proxy.JsMap.{get, has, put, delete}

abbrev pub max_retry_after_seconds : ℕ
max_retry_after_seconds = 60

abbrev pub max_tracked_credentials : ℕ
max_tracked_credentials = 10000

-- The headers that name a credential; `none` where the value is not a string.
pub record Headers : Type 0 where
  pub authorization : Option Text
  pub x_credit_id : Option Text
  pub x_api_key : Option Text

abbrev pub is_blank : ℕ → Bool
is_blank c = c == 32 || c == 9

drop_blanks : Text → Text
drop_blanks [] = []
drop_blanks (c ∷ s) = if is_blank c then drop_blanks s else c ∷ s

-- `\S.*$` at the start of the text.
whole_token : Text → Option Text
whole_token [] = none
whole_token (c ∷ s) =
    if not (is_space c) && every (λ d. not (is_line_end d)) s then some (c ∷ s) else none

after_scheme : Text → Option Text
unfolding drop_blanks whole_token
after_scheme [] = none
after_scheme (c ∷ s) = if is_blank c then whole_token (drop_blanks s) else none

-- /^bearer[ \t]+(\S.*)$/i
unfoldable pub bearer_token : Text → Option Text
unfolding after_scheme
bearer_token auth =
    if eq_text (map to_lower (take 6 auth)) (codes "bearer")
    then after_scheme (drop 6 auth)
    else none

abbrev or_else : Option Text → Option Text → Option Text
or_else none t = t
or_else (some s) t = some s

abbrev non_empty : Option Text → Option Text
non_empty none = none
non_empty (some []) = none
non_empty (some (c ∷ s)) = some (c ∷ s)

abbrev bearer_of : Option Text → Option Text
bearer_of none = none
bearer_of (some auth) = bearer_token auth

-- The credential that presentedCredentialKey hashes.
unfoldable pub presented_credential : Headers → Option Text
unfolding bearer_token
presented_credential h =
    or_else (bearer_of h.authorization) (or_else (non_empty h.x_credit_id) (non_empty h.x_api_key))

abbrev hash_option : (Text → Text) → Option Text → Option Text
hash_option sha256 none = none
hash_option sha256 (some c) = some (sha256 c)

-- presentedCredentialKey; `none` for headers is a request with no header object.
unfoldable pub presented_credential_key : (Text → Text) → Option Headers → Option Text
unfolding presented_credential
presented_credential_key sha256 none = none
presented_credential_key sha256 (some h) = hash_option sha256 (presented_credential h)

digits_value : ℕ → Text → ℕ
digits_value acc [] = acc
digits_value acc (c ∷ s) = digits_value (acc * 10 + (c - b'0')) s

-- /^\d{1,6}$/
is_delta_seconds : Text → Bool
is_delta_seconds s = leb 1 (length s) && leb (length s) 6 && every is_digit s

-- The seconds that one source names: at least 1, rounded down, not yet capped.
unfoldable pub usable_seconds : Raw → Option ℕ
unfolding digits_value is_delta_seconds
usable_seconds (text s) =
    if is_delta_seconds (trim s) && leb 1 (digits_value 0 (trim s))
    then some (digits_value 0 (trim s))
    else none
usable_seconds (number true n d) = none
usable_seconds (number false n d) = if leb (suc d) n then some (n / suc d) else none
usable_seconds other = none

abbrev cap_seconds : Option ℕ → Option ℕ → Option ℕ
cap_seconds (some n) rest = some (min max_retry_after_seconds n)
cap_seconds none rest = rest

-- retryAfterSeconds.
unfoldable pub retry_after_seconds : Raw → Raw → Option ℕ
unfolding usable_seconds
retry_after_seconds header_value body_value =
    cap_seconds (usable_seconds header_value) (cap_seconds (usable_seconds body_value) none)

-- isBalanceBackoffRefusal; `none` where the body is no object or its code is no text.
unfoldable pub is_balance_backoff_refusal : Option ℕ → Option Text → Bool
is_balance_backoff_refusal (some status) (some code) =
    status == 429 && eq_text code (codes "balance_backoff")
is_balance_backoff_refusal _ _ = false

pub record Entry (B : Type 0) : Type 0 where
  pub until : ℕ
  pub body : B

pub record Answer (B : Type 0) : Type 0 where
  pub status : ℕ
  pub body : B
  pub seconds : ℕ

module _ {B : Type 0} where
  -- The loop of `sweep`.
  pub sweep : ℕ → List (Text × Entry B) → List (Text × Entry B)
  sweep t [] = []
  sweep t ((k, v) ∷ held) = if leb v.until t then sweep t held else (k, v) ∷ sweep t held

  -- The `while` loop that evicts the oldest.
  pub evict : ℕ → List (Text × Entry B) → List (Text × Entry B)
  evict limit [] = []
  evict limit ((k, v) ∷ held) =
      if leb limit (suc (length held)) then evict limit held else (k, v) ∷ held

  -- Room for one more key, at `limit`.
  pub make_room : ℕ → Text → ℕ → List (Text × Entry B) → List (Text × Entry B)
  make_room limit key t held =
      if leb limit (length held) && not (has key held) then evict limit (sweep t held) else held

  -- `remember`, of a store that tracks `limit` credentials; a key that is not a non-empty text, or
  -- seconds that are not a whole number, are `none`.
  pub remember_at :
      ℕ → Option Text → Option ℕ → B → ℕ → List (Text × Entry B) → List (Text × Entry B) × Bool
  remember_at limit (some (c ∷ key)) (some seconds) body t held =
      if ltb seconds 1 || ltb max_retry_after_seconds seconds then (held, false) else (
        put (c ∷ key) (record { until = t + seconds * 1000; body = body })
            (make_room limit (c ∷ key) t held),
        true,
      )
  remember_at limit _ _ body t held = (held, false)

  pub remember :
      Option Text → Option ℕ → B → ℕ → List (Text × Entry B) → List (Text × Entry B) × Bool
  unfolding remember_at
  remember key seconds body t held = remember_at max_tracked_credentials key seconds body t held

  abbrev answer_entry :
      Text
      → ℕ
      → List (Text × Entry B)
      → Option (Entry B)
      → List (Text × Entry B) × Option (Answer B)
  answer_entry key t held none = (held, none)
  answer_entry key t held (some e) = if leb e.until t then (delete key held, none) else (
    held,
    some (record { status = 429; body = e.body; seconds = max 1 ((e.until - t + 999) / 1000) }),
  )

  -- `lookup`, with the map that it leaves.
  pub lookup : Option Text → ℕ → List (Text × Entry B) → List (Text × Entry B) × Option (Answer B)
  lookup (some (c ∷ key)) t held = answer_entry (c ∷ key) t held (get (c ∷ key) held)
  lookup _ t held = (held, none)
