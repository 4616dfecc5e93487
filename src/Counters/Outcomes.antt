-- ===== src/Counters/Outcomes.antt =====
-- One outcome for each request, and the bound on every tally.
use ppq_enclave_proxy.Prelude.{
  ℕ, zero, suc, ◌+◌, ◌≤◌, ◌≡◌, refl, Text, List, [], ◌∷◌, ◌++◌, Option, some, Bool, true, false,
  arith, length, get_elem?,
}
use ppq_enclave_proxy.Counters.{
  max_keys, named, Counters, create_counters, set_done, Call, begin_request, finalize, error_report,
  provider, ehbp, streaming, stream_opened, stream_closed, settle_permanent_failure, pii_redacted,
  pii_failure, pii_unbilled, pii_restored, latency_bucket, lower_reason, call, run,
}
use ppq_enclave_proxy.Values.{floor_positive}
use ppq_enclave_proxy.Counters.Keys.{total, IsSmall, bump-IsSmall, IsSmall-length, total-bump}

-- The requests whose `finalize` has not been called.
abbrev pub unfinished : List Bool → ℕ
unfinished [] = 0
unfinished (true ∷ bs) = unfinished bs
unfinished (false ∷ bs) = 1 + unfinished bs

unfinished-append : (bs : List Bool) → unfinished (bs ++ false ∷ []) ≡ unfinished bs + 1
unfinished-append [] = omega arith
unfinished-append (true ∷ bs) = unfinished-append bs
unfinished-append (false ∷ bs) = omega (arith, unfinished-append bs)

unfinished-set_done :
    (bs : List Bool) (h : ℕ)
    → get_elem? bs h ≡ some false
    → unfinished (set_done bs h) + 1 ≡ unfinished bs
unfolding set_done
unfinished-set_done [] h e = cc
unfinished-set_done (true ∷ bs) zero e = cc
unfinished-set_done (false ∷ bs) zero e = omega arith
unfinished-set_done (true ∷ bs) (suc h) e = unfinished-set_done bs h e
unfinished-set_done (false ∷ bs) (suc h) e = omega (arith, unfinished-set_done bs h e)

get_elem?-set_done :
    (bs : List Bool) (h : ℕ) → get_elem? bs h ≡ some false → get_elem? (set_done bs h) h ≡ some true
unfolding set_done
get_elem?-set_done [] h e = cc
get_elem?-set_done (b ∷ bs) zero e = refl
get_elem?-set_done (b ∷ bs) (suc h) e = get_elem?-set_done bs h e

pub record Inv (c : Counters) : Type 0 where
  pub accounted : total c.by_outcome + unfinished c.done ≡ c.requests
  pub outcomes : IsSmall c.by_outcome
  pub providers : IsSmall c.by_provider
  pub reports : IsSmall c.error_reports
  pub latencies : IsSmall c.pii.latency_ms
  pub failures : IsSmall c.pii.failures

create_counters-Inv : Inv create_counters
unfolding create_counters total named
create_counters-Inv = record {
  accounted = omega arith;
  outcomes = (tt, omega arith);
  providers = (tt, omega arith);
  reports = (tt, omega arith);
  latencies = (tt, omega arith);
  failures = (tt, omega arith);
}

finalize-Inv : (c : Counters) (h : ℕ) (o : Option Text) → Inv c → Inv (call c (finalize h o))
unfolding call
finalize-Inv c h o v = ground (
  arith,
  unfinished-set_done c.done h,
  total-bump c.by_outcome o,
  bump-IsSmall c.by_outcome o v.outcomes,
)

call-Inv : (c : Counters) (x : Call) → Inv c → Inv (call c x)
unfolding call
call-Inv c begin_request v = record {
  accounted = omega (arith, unfinished-append c.done, v.accounted);
  outcomes = v.outcomes;
  providers = v.providers;
  reports = v.reports;
  latencies = v.latencies;
  failures = v.failures;
}
call-Inv c (finalize h o) v = finalize-Inv c h o v
call-Inv c (error_report code) v = ground (arith, bump-IsSmall c.error_reports code v.reports)
call-Inv c (provider name) v = ground (arith, bump-IsSmall c.by_provider name v.providers)
call-Inv c ehbp v = ground arith
call-Inv c streaming v = ground arith
call-Inv c stream_opened v = ground arith
call-Inv c stream_closed v = ground arith
call-Inv c settle_permanent_failure v = ground arith
call-Inv c (pii_redacted r) v = ground (
  arith,
  bump-IsSmall c.pii.latency_ms (some (latency_bucket (floor_positive r.latency_ms))) v.latencies,
)
call-Inv c (pii_failure reason) v =
    ground (arith, bump-IsSmall c.pii.failures (lower_reason reason) v.failures)
call-Inv c (pii_unbilled calls tokens) v = ground arith
call-Inv c (pii_restored misses) v = ground arith

run_from-Inv : (c : Counters) (xs : List Call) → Inv c → Inv (run c xs)
unfolding run
run_from-Inv c [] v = v
run_from-Inv c (x ∷ xs) v = run_from-Inv (call c x) xs (call-Inv c x v)

-- After any calls the outcomes sum to the requests that have finished: the sum and the requests
-- still open make the requests.
pub run-accounted :
    (xs : List Call)
    → let c = run create_counters xs in total c.by_outcome + unfinished c.done ≡ c.requests
run-accounted xs = (run_from-Inv create_counters xs create_counters-Inv).accounted

-- After any calls, with any keys, each of the five tallies has at most 64 keys.
pub run-bounded :
    (xs : List Call)
    → let c = run create_counters xs in
      (length c.by_outcome ≤ max_keys)
      × (length c.by_provider ≤ max_keys)
      × (length c.error_reports ≤ max_keys)
      × (length c.pii.latency_ms ≤ max_keys)
      × (length c.pii.failures ≤ max_keys)
run-bounded xs =
    let v = run_from-Inv create_counters xs create_counters-Inv in
    (
      IsSmall-length _ v.outcomes,
      IsSmall-length _ v.providers,
      IsSmall-length _ v.reports,
      IsSmall-length _ v.latencies,
      IsSmall-length _ v.failures,
    )

-- The first call of a request's `finalize` adds one outcome; every later one, with any outcome,
-- changes nothing.
pub finalize_once :
    (c : Counters) (h : ℕ) (first later : Option Text)
    → get_elem? c.done h ≡ some false
    → let c' = call c (finalize h first) in
      (total c'.by_outcome ≡ total c.by_outcome + 1) × (call c' (finalize h later) ≡ c')
unfolding call
finalize_once c h first later e =
    ground (arith, get_elem?-set_done c.done h e, total-bump c.by_outcome first)
