-- ===== src/BalanceBackoff/Tests.antt =====
-- The balance backoff at work.
use ppq_enclave_proxy.Prelude.{
  trim, ℕ, ◌+◌, ◌-◌, ◌*◌, ◌≤◌, ◌<◌, ◌≡◌, refl, Text, codes, List, [], ◌∷◌, none, some, true, false,
  arith,
}
use ppq_enclave_proxy.Values.{text, number}
use ppq_enclave_proxy.JsMap.{get, put, Distinct}
use ppq_enclave_proxy.BalanceBackoff.{
  Entry, retry_after_seconds, is_balance_backoff_refusal, remember_at, lookup, make_room, sweep,
  evict, max_tracked_credentials,
}
use ppq_enclave_proxy.BalanceBackoff.Memory.{remembers, looks, IsBounded, run, run-IsBounded}
use ppq_enclave_proxy.BalanceBackoff.Answers.{TellsWait, lookup-remember}

abbrev key : Text
key = codes "ab"

abbrev held : List (Text × Entry ℕ)
held = (codes "zz", record { until = 9000; body = 3 }) ∷ []

header_wins : retry_after_seconds (text (codes " 7 ")) (number false 90 0) ≡ some 7
unfolding retry_after_seconds trim
header_wins = refl

body_capped : retry_after_seconds (text (codes "soon")) (number false 361 4) ≡ some 60
unfolding retry_after_seconds trim
body_capped = refl

refusals :
    (is_balance_backoff_refusal (some 429) (some (codes "balance_backoff")) ≡ true)
    × (is_balance_backoff_refusal (some 429) (some (codes "credential_rate_limit")) ≡ false)
unfolding is_balance_backoff_refusal
refusals = (refl, refl)

evicts_oldest :
    (remember_at 1 (some key) (some 5) 4 1000 held).0
    ≡ (key, record { until = 6000; body = 4 }) ∷ []
unfolding remember_at make_room sweep evict put ppq_enclave_proxy.JsMap.has
evicts_oldest = refl

run-IsBounded_example : IsBounded {B = ℕ} max_tracked_credentials (
    run {B = ℕ} max_tracked_credentials []
      (remembers (some key) (some 5) 4 1000 ∷ looks (some key) 9 ∷ []))
run-IsBounded_example =
    run-IsBounded max_tracked_credentials []
      (remembers (some key) (some 5) 4 1000 ∷ looks (some key) 9 ∷ []) (omega arith)
      (tt, omega arith)

lookup-remember_example :
    let r = remember_at 1 (some key) (some 5) 4 1000 held in
    (r.1 ≡ true)
    × (2500 < 1000 + 5 * 1000 → TellsWait 4 (1000 + 5 * 1000 - 2500) (lookup (some key) 2500 r.0).1)
    × (1000 + 5 * 1000 ≤ 2500 → (lookup (some key) 2500 r.0).1 ≡ none)
lookup-remember_example =
    lookup-remember 1 b'a' 5 (codes "b") 4 1000 2500 held (omega arith) (omega arith)
