-- ===== src/Counters/Tests.antt =====
-- The counters at work.
use ppq_enclave_proxy.Prelude.{◌+◌, ◌≡◌, refl, codes, List, [], ◌∷◌, some}
use ppq_enclave_proxy.JsMap.{get, put, has}
use ppq_enclave_proxy.Counters.{
  bump, bump_key, create_counters, Call, begin_request, finalize, error_report, stream_closed, call,
  run, set_done,
}
use ppq_enclave_proxy.Counters.Keys.{total}
use ppq_enclave_proxy.Counters.Outcomes.{unfinished, run-accounted}

machine : Unit {0}
unfolding call run bump bump_key create_counters get put has set_done
machine = tt

-- An aborted request: the early return and the stream end both call `finalize`.
abbrev aborted : List Call
aborted =
    begin_request
    ∷ begin_request
    ∷ finalize 0 (some (codes "client_abort"))
    ∷ finalize 0 (some (codes "clean"))
    ∷ error_report (some (codes "Bad Key!"))
    ∷ stream_closed
    ∷ []

one_outcome : (run create_counters aborted).by_outcome ≡ (codes "client_abort", 1) ∷ []
unfolding machine
one_outcome = refl

bad_key : (run create_counters aborted).error_reports ≡ (codes "other", 1) ∷ []
unfolding machine
bad_key = refl

run-accounted_example :
    let c = run create_counters aborted in total c.by_outcome + unfinished c.done ≡ c.requests
run-accounted_example = run-accounted aborted
