-- ===== src/SettleQueue.antt =====
-- enclave/src/settleQueue.mjs: the retry queue of settlements. An item is an object that the
-- queue and the continuation of a pending `post` share, so the model has a heap of items, and the
-- queue holds their identities. The clock, the outcome of each `post` and the order in which the
-- answers come back are the events. Log lines are left out; a reporter that throws is swallowed by
-- `lost`, so a report is an effect with no answer.
pub mod Accounting
pub mod Bounds
pub mod Drain
pub mod Loss
pub mod Attempts
pub mod Tests
use ppq_enclave_proxy.Prelude.{
  ℕ, zero, suc, ◌+◌, ◌*◌, ◌^◌, ◌<◌, min, Bool, true, false, not, ◌&&◌, ◌||◌, ◌≡◌, List, [], ◌∷◌,
  ◌++◌, length, leb, ltb, ◌==◌, if◌then◌else◌,
}

-- What one `post` resolves to.
pub data Outcome : Type 0 where
  ok permanent transient : Outcome

-- The `reason` that `onPermanentFailure` is given.
pub data Reason : Type 0 where
  permanent gave_up dropped : Reason

-- classifySettleStatus.
unfoldable pub classify_settle_status : ℕ → Outcome
classify_settle_status status =
    if leb 200 status && ltb status 300
    then ok
    else if status == 400 || status == 401
    then Outcome.permanent
    else transient

-- backoffMs, with its default base and cap.
unfoldable pub backoff_ms : ℕ → ℕ
backoff_ms attempts = min 120000 (1000 * 2 ^ attempts)

pub record Item (M : Type 0) : Type 0 where
  pub meta : M
  pub attempts : ℕ
  pub next_at : ℕ
  pub in_flight : Bool

pub record Config : Type 0 where
  pub max_attempts : ℕ
  pub cap : ℕ

-- `heap` holds every item ever queued, under its identity; identities from `next_id` on are unused.
pub record Queue (M : Type 0) : Type 0 where
  pub queue : List ℕ
  pub heap : ℕ → Item M
  pub next_id : ℕ

-- How the delivery of a queued item ended.
pub data Fate : Type 0 where
  delivered : Fate
  lost : Reason → Fate

-- What a step does to the world: it starts a `post`, it ends an item (a loss is a call of
-- `onPermanentFailure`), or it reports the loss of a settle that never was queued. The last is the
-- report that `shift` of an empty queue makes, which has no item.
pub data Effect (M : Type 0) : Type 0 where
  posted : ℕ → M → Effect M
  ended : ℕ → M → Fate → Effect M
  refused : M → Effect M
  dropped_nothing : Effect M

pub data Event (M : Type 0) : Type 0 where
  -- the first `post` of `submit meta` resolved
  submitted : M → Outcome → (now : ℕ) → Event M
  -- the drain timer
  ticked : (now : ℕ) → Event M
  -- a `post` that a drain started resolved
  resolved : (id : ℕ) → Outcome → (now : ℕ) → Event M

-- `queue.splice(queue.indexOf(item), 1)`, if the item is there.
pub remove : ℕ → List ℕ → List ℕ
remove id [] = []
remove id (x ∷ xs) = if x == id then xs else x ∷ remove id xs

module _ {M : Type 0} where
  abbrev pub update : (ℕ → Item M) → ℕ → Item M → ℕ → Item M
  update heap id item j = if j == id then item else heap j

  abbrev pub shift : (ℕ → Item M) → List ℕ → List ℕ × List (Effect M)
  shift heap [] = ([], dropped_nothing ∷ [])
  shift heap (x ∷ xs) = (xs, ended x (heap x).meta (lost dropped) ∷ [])

  -- The oldest item makes room when the queue is full.
  pub make_room : Config → Queue M → List ℕ × List (Effect M)
  make_room c q = if leb c.cap (length q.queue) then shift q.heap q.queue else (q.queue, [])

  pub enqueue : Config → Queue M → M → ℕ → ℕ → Queue M × List (Effect M)
  unfolding backoff_ms
  enqueue c q meta attempts now = (
    record {
      queue = (make_room c q).0 ++ q.next_id ∷ [];
      heap = update q.heap q.next_id (record {
        meta = meta;
        attempts = attempts;
        next_at = now + backoff_ms attempts;
        in_flight = false;
      });
      next_id = q.next_id + 1;
    },
    (make_room c q).1,
  )

  -- The continuation of `submit`.
  pub submit : Config → Queue M → M → Outcome → ℕ → Queue M × List (Effect M)
  submit c q meta ok now = (q, [])
  submit c q meta Outcome.permanent now = (q, refused meta ∷ [])
  submit c q meta transient now = enqueue c q meta 1 now

  pub is_due : Item M → ℕ → Bool
  is_due item t = not (item.in_flight || ltb t item.next_at)

  -- The loop of `drainTick` over its snapshot of the queue.
  pub drain_each : (ℕ → Item M) → List ℕ → ℕ → (ℕ → Item M) × List (Effect M)
  unfolding is_due
  drain_each heap [] t = (heap, [])
  drain_each heap (x ∷ xs) t =
      let (heap', effects) =
        drain_each
          (if is_due (heap x) t then update heap x (record (heap x) { in_flight = true }) else heap)
          xs t in
      (heap', (if is_due (heap x) t then posted x (heap x).meta ∷ effects else effects))

  pub drain_tick : Queue M → ℕ → Queue M × List (Effect M)
  drain_tick q now =
      let (heap, effects) = drain_each q.heap q.queue now in (record q { heap = heap }, effects)

  -- The item in question leaves the queue, if it still stands there.
  abbrev pub end_item : Queue M → ℕ → Item M → Fate → Queue M × List (Effect M)
  end_item q id item fate = (
    record q { queue = remove id q.queue; heap = update q.heap id item },
    ended id item.meta fate ∷ [],
  )

  -- The continuation of a `post` that `drainTick` started.
  pub resolve : Config → Queue M → ℕ → Outcome → ℕ → Queue M × List (Effect M)
  unfolding remove backoff_ms
  resolve c q id ok now = end_item q id (record (q.heap id) { in_flight = false }) delivered
  resolve c q id Outcome.permanent now =
      end_item q id (record (q.heap id) { in_flight = false }) (lost Reason.permanent)
  resolve c q id transient now =
      let item = record (q.heap id) { in_flight = false; attempts = (q.heap id).attempts + 1 } in
      if ltb c.max_attempts item.attempts then end_item q id item (lost gave_up) else (
        record q {
          heap = update q.heap id (record item { next_at = now + backoff_ms item.attempts });
        },
        [],
      )

  pub step : Config → Queue M → Event M → Queue M × List (Effect M)
  unfolding submit drain_tick resolve
  step c q (submitted meta outcome now) = submit c q meta outcome now
  step c q (ticked now) = drain_tick q now
  step c q (resolved id outcome now) = resolve c q id outcome now

  -- createSettleQueue: nothing is queued.
  pub initial : M → Queue M
  initial nobody = record {
    queue = [];
    heap = λ _. record { meta = nobody; attempts = 0; next_at = 0; in_flight = false };
    next_id = 0;
  }

  -- What can happen next: an answer comes back only to a `post` that is pending.
  abbrev pub Enabled : Queue M → Event M → Type 0
  Enabled q (submitted meta outcome now) = Unit
  Enabled q (ticked now) = Unit
  Enabled q (resolved id outcome now) = (id < q.next_id) × ((q.heap id).in_flight ≡ true)

  -- The histories of the queue, by the events that `P` admits, with all effects so far.
  pub data Reach (P : Queue M → Event M → Type 0) (c : Config)
      : Queue M → List (Effect M) → Type 0 where
    start : (nobody : M) → Reach P c (initial nobody) []
    next :
        {q : Queue M} {effects : List (Effect M)} (e : Event M)
        → Reach P c q effects
        → P q e
        → Reach P c (step c q e).0 (effects ++ (step c q e).1)
