-- ===== src/Counters.antt =====
-- enclave/src/counters.mjs: the request counters of one worker. The closure that `beginRequest`
-- returns is its index in `done`, the list of the flags that the closures hold.
pub mod Keys
pub mod Outcomes
pub mod Tests
use ppq_enclave_proxy.Prelude.{
  ℕ, suc, ◌+◌, ◌-◌, ◌≤◌, Text, codes, eq_text, is_digit, is_lower, every, map, to_lower, List, [],
  ◌∷◌, ◌++◌, Option, none, some, Bool, true, false, not, ◌&&◌, ◌||◌, length, get_elem?, leb, ltb,
  ◌==◌, if◌then◌else◌, max,
}
use ppq_enclave_proxy.Values.{Raw, floor_positive, whole_positive}
use ppq_enclave_proxy.JsMap.{get, has, put}

-- A map from a key to a count.
abbrev pub Tally : Type 0
Tally = List (Text × ℕ)

abbrev pub max_keys : ℕ
max_keys = 64

abbrev pub other_key : Text
other_key = codes "other"

-- KEY_RE
abbrev pub is_key : Text → Bool
is_key k =
    leb 1 (length k) && leb (length k) 64 && every (λ c. is_lower c || is_digit c || c == b'_') k

-- The keys that are not `other`.
pub named : Tally → ℕ
named [] = 0
named ((k, v) ∷ m) = (if eq_text k other_key then 0 else 1) + named m

abbrev pub count_of : Option ℕ → ℕ
count_of none = 0
count_of (some n) = n

abbrev sanitize : Option Text → Text
sanitize none = other_key
sanitize (some k) = if is_key k then k else other_key

-- The key that `bump` counts under; `none` is a key that is no text.
unfoldable pub bump_key : Tally → Option Text → Text
unfolding named
bump_key m key =
    if not (eq_text (sanitize key) other_key)
      && not (has (sanitize key) m)
      && leb (max_keys - 1) (named m)
    then other_key
    else sanitize key

unfoldable pub bump : Tally → Option Text → Tally
bump m key = put (bump_key m key) (count_of (get (bump_key m key) m) + 1) m

pub record Pii : Type 0 where
  pub redacted : ℕ
  pub detector_calls : ℕ
  pub input_tokens : ℕ
  pub input_tokens_estimated_calls : ℕ
  pub texts : ℕ
  pub entities : ℕ
  pub latency_ms_sum : ℕ
  pub latency_ms_max : ℕ
  pub latency_ms : Tally
  pub failures : Tally
  pub restorations : ℕ
  pub restoration_misses : ℕ
  pub unbilled_calls : ℕ
  pub unbilled_input_tokens : ℕ

pub record Counters : Type 0 where
  pub requests : ℕ
  pub by_outcome : Tally
  pub by_provider : Tally
  pub error_reports : Tally
  pub ehbp : ℕ
  pub streaming : ℕ
  pub open_streams : ℕ
  pub settle_permanent_failures : ℕ
  pub pii : Pii
  pub done : List Bool

-- The argument of `piiRedacted`.
pub record Redaction : Type 0 where
  pub calls : Raw
  pub input_tokens : Raw
  pub input_tokens_estimated : Bool
  pub texts : Raw
  pub entities : Raw
  pub latency_ms : Raw

unfoldable pub create_counters : Counters
create_counters = record {
  requests = 0;
  by_outcome = [];
  by_provider = [];
  error_reports = [];
  ehbp = 0;
  streaming = 0;
  open_streams = 0;
  settle_permanent_failures = 0;
  pii = record {
    redacted = 0;
    detector_calls = 0;
    input_tokens = 0;
    input_tokens_estimated_calls = 0;
    texts = 0;
    entities = 0;
    latency_ms_sum = 0;
    latency_ms_max = 0;
    latency_ms = [];
    failures = [];
    restorations = 0;
    restoration_misses = 0;
    unbilled_calls = 0;
    unbilled_input_tokens = 0;
  };
  done = [];
}

pub set_done : List Bool → ℕ → List Bool
set_done [] h = []
set_done (b ∷ bs) ℕ.zero = true ∷ bs
set_done (b ∷ bs) (suc h) = b ∷ set_done bs h

-- The calls of the object that `createCounters` returns; `snapshot` and `piiSnapshot` only read.
pub data Call : Type 0 where
  begin_request ehbp streaming stream_opened stream_closed settle_permanent_failure : Call
  finalize : (handle : ℕ) → Option Text → Call
  error_report provider pii_failure : Option Text → Call
  pii_redacted : Redaction → Call
  pii_unbilled : Raw → Raw → Call
  pii_restored : Raw → Call

unfoldable pub latency_bucket : ℕ → Text
latency_bucket ms =
    if leb ms 1000
    then codes "le_1000"
    else if leb ms 5000
    then codes "le_5000"
    else if leb ms 15000
    then codes "le_15000"
    else if leb ms 60000
    then codes "le_60000"
    else codes "gt_60000"

abbrev lower_reason : Option Text → Option Text
lower_reason none = some other_key
lower_reason (some r) = some (map to_lower r)

pub record_redaction : Pii → Redaction → Pii
record_redaction p r = record p {
  redacted = p.redacted + 1;
  detector_calls = p.detector_calls + floor_positive r.calls;
  input_tokens = p.input_tokens + floor_positive r.input_tokens;
  input_tokens_estimated_calls =
      p.input_tokens_estimated_calls
      + (if r.input_tokens_estimated then floor_positive r.calls else 0);
  texts = p.texts + floor_positive r.texts;
  entities = p.entities + floor_positive r.entities;
  latency_ms_sum = p.latency_ms_sum + floor_positive r.latency_ms;
  latency_ms_max =
      (if ltb p.latency_ms_max (floor_positive r.latency_ms)
        then floor_positive r.latency_ms
        else p.latency_ms_max);
  latency_ms = bump p.latency_ms (some (latency_bucket (floor_positive r.latency_ms)));
}

abbrev finish : Counters → ℕ → Option Text → Option Bool → Counters
finish c handle outcome (some false) = record c {
  done = set_done c.done handle;
  by_outcome = bump c.by_outcome outcome;
}
finish c handle outcome _ = c

pub call : Counters → Call → Counters
unfolding record_redaction
call c begin_request = record c { requests = c.requests + 1; done = c.done ++ false ∷ [] }
call c (finalize handle outcome) = finish c handle outcome (get_elem? c.done handle)
call c (error_report code) = record c { error_reports = bump c.error_reports code }
call c (provider name) = record c { by_provider = bump c.by_provider name }
call c ehbp = record c { ehbp = c.ehbp + 1 }
call c streaming = record c { streaming = c.streaming + 1 }
call c stream_opened = record c { open_streams = c.open_streams + 1 }
call c stream_closed =
    if ltb 0 c.open_streams then record c { open_streams = c.open_streams - 1 } else c
call c settle_permanent_failure = record c {
  settle_permanent_failures = c.settle_permanent_failures + 1;
}
call c (pii_redacted r) = record c { pii = record_redaction c.pii r }
call c (pii_failure reason) = record c {
  pii = record c.pii { failures = bump c.pii.failures (lower_reason reason) };
}
call c (pii_unbilled calls tokens) = record c {
  pii = record c.pii {
    unbilled_calls = c.pii.unbilled_calls + whole_positive calls;
    unbilled_input_tokens = c.pii.unbilled_input_tokens + whole_positive tokens;
  };
}
call c (pii_restored misses) = record c {
  pii = record c.pii {
    restorations = c.pii.restorations + 1;
    restoration_misses = c.pii.restoration_misses + whole_positive misses;
  };
}

pub run : Counters → List Call → Counters
run c [] = c
run c (x ∷ xs) = run (call c x) xs
