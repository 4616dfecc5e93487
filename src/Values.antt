-- ===== src/Values.antt =====
-- Values of the language as a header, a JSON body or an argument may hold them, for the code that
-- tells numbers and text from the rest.
use ppq_enclave_proxy.Prelude.{ℕ, suc, ◌/◌, ◌%◌, Bool, false, Text, ◌==◌, if◌then◌else◌}

-- A number is `numerator / suc denominator` with a sign; `other` is any value that is neither text
-- nor a finite number.
pub data Raw : Type 0 where
  text : Text → Raw
  number : (negative : Bool) (numerator denominator : ℕ) → Raw
  other : Raw

-- `Number.isFinite(v) && v > 0 ? Math.floor(v) : 0`
abbrev pub floor_positive : Raw → ℕ
floor_positive (number false n d) = n / suc d
floor_positive _ = 0

-- `Number.isInteger(v) && v > 0 ? v : 0`
abbrev pub whole_positive : Raw → ℕ
whole_positive (number false n d) = if n % suc d == 0 then n / suc d else 0
whole_positive _ = 0

-- A field of a parsed JSON object, for the code that tells text from the rest.
pub data Value : Type 0 where
  undefined : Value
  null : Value
  text : Text → Value
  array : Value
  object : Value
  number : Value
  boolean : Value
