-- ===== src/SettleQueue/Tests.antt =====
-- The settle queue at work: one slot, one retry.
use ppq_enclave_proxy.Prelude.{
  ℕ, ◌+◌, ◌≤◌, ◌≡◌, ◌↔◌, refl, ◌++◌, List, [], ◌∷◌, arith, count, ◌&&◌, ◌||◌, not, ltb,
  if◌then◌else◌,
}
use ppq_enclave_proxy.SettleQueue.{
  Outcome, ok, transient, gave_up, dropped, delivered, lost, Queue, Config, Effect, posted, ended,
  submitted, ticked, resolved, Enabled, make_room, enqueue, drain_each, drain_tick, step, Reach,
  start, next, initial, classify_settle_status,
}
use ppq_enclave_proxy.SettleQueue.Accounting.{ends, issued, Reach-covers}
use ppq_enclave_proxy.SettleQueue.Loss.{Calm, Calm-ends_once, dropped_then_delivered}
use ppq_enclave_proxy.SettleQueue.Drain.{posts, drain_tick-posts}
use ppq_enclave_proxy.SettleQueue.Attempts.{gives_up_iff}

machine : Unit {0}
unfolding step enqueue make_room drain_each initial
machine = tt

abbrev small : Config
small = record { max_attempts = 1; cap = 1 }

abbrev queued : Queue ℕ
queued = (step small (initial 0) (submitted 5 transient 0)).0

abbrev pending : Queue ℕ
pending = (step small queued (ticked 3000)).0

abbrev seen : List (Effect ℕ)
seen =
    ([] ++ (step small (initial 0) (submitted 5 transient 0)).1)
    ++ (step small queued (ticked 3000)).1

statuses :
    (classify_settle_status 204 ≡ ok)
    × (classify_settle_status 401 ≡ Outcome.permanent)
    × (classify_settle_status 503 ≡ transient)
unfolding classify_settle_status
statuses = (refl, refl, refl)

first_backoff : (queued.heap 0).next_at ≡ 2000
unfolding machine
first_backoff = refl

posted_once : seen ≡ posted 0 5 ∷ []
unfolding machine
posted_once = refl

history : Reach Enabled small pending seen
history = next (ticked 3000) (next (submitted 5 transient 0) (start 0) tt) tt

Calm-history : Reach (Calm small) small pending seen
unfolding initial
Calm-history =
    next (ticked 3000) (next (submitted 5 transient 0) (start 0) (λ h. absurd (omega arith))) tt

is_pending : Enabled pending (resolved 0 transient 9000)
unfolding machine
is_pending = (omega arith, refl)

Reach-covers_example : 1 ≤ count 0 pending.queue + ends 0 seen
unfolding machine
Reach-covers_example = Reach-covers small 0 history (omega arith)

Calm-ends_once_example : count 0 pending.queue + ends 0 seen ≡ issued pending.next_id 0
Calm-ends_once_example = Calm-ends_once small 0 Calm-history

dropped_then_delivered_example :
    let r = step small pending (submitted 6 transient 9000) in
    Enabled r.0 (resolved 0 ok 9500)
    × (r.1 ≡ ended 0 (pending.heap 0).meta (lost dropped) ∷ [])
    × ((step small r.0 (resolved 0 ok 9500)).1 ≡ ended 0 (pending.heap 0).meta delivered ∷ [])
unfolding machine
dropped_then_delivered_example =
    dropped_then_delivered small pending 0 [] 6 9000 9500 refl (omega arith) (omega arith) refl

drain_tick-posts_example :
    let r = drain_tick queued 3000 in
    let chosen =
      not ((queued.heap 0).in_flight || ltb 3000 (queued.heap 0).next_at)
      && ltb 0 (count 0 queued.queue) in
    (posts 0 r.1 ≡ (if chosen then 1 else 0))
    × (r.0.heap 0 ≡ record (queued.heap 0) { in_flight = (queued.heap 0).in_flight || chosen })
    × (r.0.queue ≡ queued.queue)
drain_tick-posts_example = drain_tick-posts 0 queued 3000

gives_up_iff_example :
    ((step small pending (resolved 0 transient 9000)).1
      ≡ ended 0 (pending.heap 0).meta (lost gave_up) ∷ [])
    ↔ (posts 0 seen ≡ small.max_attempts)
gives_up_iff_example = gives_up_iff small 0 9000 (omega arith) history is_pending
