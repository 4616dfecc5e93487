-- ===== src/SettleQueue/Loss.antt =====
-- Each loss is reported once, unless the queue drops an item whose `post` is still pending.
use ppq_enclave_proxy.Prelude.{
  ℕ, ◌+◌, ◌≤◌, ◌<◌, ◌≡◌, List, [], ◌∷◌, arith, length, count, true, inl, inr, sym, ap, subst, ◌∙◌,
  false, count-append, ◌==◌, if◌then◌else◌, Bool-cases, ==_iff,
}
use ppq_enclave_proxy.SettleQueue.{
  Outcome, ok, transient, dropped, Queue, Config, Effect, ended, delivered, lost, Event, submitted,
  ticked, resolved, Enabled, Item, make_room, enqueue, drain_each, step, Reach, start, next,
  initial,
}
use ppq_enclave_proxy.SettleQueue.Bounds.{count-remove}
use ppq_enclave_proxy.SettleQueue.Accounting.{ends, ends-append, issued, step-accounts_exactly}

module _ {M : Type 0} where
  abbrev HeadIsIdle : (ℕ → Item M) → List ℕ → Type 0
  HeadIsIdle heap [] = Unit
  HeadIsIdle heap (x ∷ xs) = (heap x).in_flight ≡ false

  -- The events that drop no item whose `post` is pending.
  abbrev pub Calm : Config → Queue M → Event M → Type 0
  Calm c q (submitted meta ok now) = Unit
  Calm c q (submitted meta Outcome.permanent now) = Unit
  Calm c q (submitted meta transient now) = c.cap ≤ length q.queue → HeadIsIdle q.heap q.queue
  Calm c q (ticked now) = Unit
  Calm c q (resolved id outcome now) = Enabled q (resolved id outcome now)

  -- A pending `post` belongs to an item of the queue.
  abbrev Pending : Queue M → Type 0
  Pending q = (a : ℕ) → a < q.next_id → (q.heap a).in_flight ≡ true → 0 < count a q.queue

  module _ (c : Config) where
    make_room-keeps :
        (q : Queue M) (xs : List ℕ) (a : ℕ)
        → (c.cap ≤ length xs → HeadIsIdle q.heap xs)
        → (q.heap a).in_flight ≡ true
        → 0 < count a xs
        → 0 < count a (make_room c (record q { queue = xs })).0
    unfolding make_room
    make_room-keeps q [] a h f k = ground arith
    make_room-keeps q (x ∷ xs) a h f k = elim (Bool-cases (x == a)) [
      | inl e ↦
          let same : x ≡ a = (==_iff x a).0 e in
          let idle : c.cap ≤ length (x ∷ xs) → (q.heap a).in_flight ≡ false =
            λ full. ap (λ j. (q.heap j).in_flight) (sym same) ∙ h full in
          ground (arith, idle)
      | inr e ↦ ground arith
    ]

    make_room-pending :
        (q : Queue M) (a : ℕ)
        → (c.cap ≤ length q.queue → HeadIsIdle q.heap q.queue)
        → (q.heap a).in_flight ≡ true
        → 0 < count a q.queue
        → 0 < count a (make_room c q).0
    make_room-pending q a h f k = make_room-keeps q q.queue a h f k

    enqueue-Pending :
        (q : Queue M) (meta : M) (n now : ℕ)
        → (c.cap ≤ length q.queue → HeadIsIdle q.heap q.queue)
        → Pending q
        → Pending (enqueue c q meta n now).0
    unfolding enqueue
    enqueue-Pending q meta n now h p a lt f =
        ground
          (arith, p a, make_room-pending q a h, count-append a (make_room c q).0 (q.next_id ∷ []))

  -- A drain starts a `post` for items of its snapshot only.
  drain_each-in_flight :
      (a : ℕ) (heap : ℕ → Item M) (xs : List ℕ) (t : ℕ)
      → ((drain_each heap xs t).0 a).in_flight ≡ true
      → (heap a).in_flight ≡ false
      → 0 < count a xs
  unfolding drain_each
  drain_each-in_flight a heap [] t f g = cc
  drain_each-in_flight a heap (x ∷ xs) t f g = ground (
    arith,
    drain_each-in_flight a (λ j. if j == x then record (heap x) { in_flight = true } else heap j) xs
        t,
    drain_each-in_flight a heap xs t,
  )

  module _ (c : Config) where
    step-Pending : (q : Queue M) (e : Event M) → Calm c q e → Pending q → Pending (step c q e).0
    unfolding step
    step-Pending q (submitted meta ok now) h p a lt f = p a lt f
    step-Pending q (submitted meta Outcome.permanent now) h p a lt f = p a lt f
    step-Pending q (submitted meta transient now) h p a lt f =
        enqueue-Pending c q meta 1 now h p a lt f
    step-Pending q (ticked now) h p a lt f = elim (Bool-cases (q.heap a).in_flight) [
      | inl on ↦ p a lt on
      | inr off ↦ drain_each-in_flight a q.heap q.queue now f off
    ]
    step-Pending q (resolved id ok now) h p a lt f = ground (arith, p a, count-remove a id q.queue)
    step-Pending q (resolved id Outcome.permanent now) h p a lt f =
        ground (arith, p a, count-remove a id q.queue)
    step-Pending q (resolved id transient now) h p a lt f =
        ground (arith, p a, count-remove a id q.queue)

    Reach-Pending :
        {q : Queue M} {effects : List (Effect M)} → Reach (Calm c) c q effects → Pending q
    unfolding initial
    Reach-Pending (start nobody) a lt f = absurd (omega arith)
    Reach-Pending (next {q} e r h) a lt f = step-Pending q e h (Reach-Pending r) a lt f

    resolves_queued :
        (q : Queue M) (e : Event M)
        → Calm c q e
        → Pending q
        → (id : ℕ) (o : Outcome) (now : ℕ) → e ≡ resolved id o now
        → 0 < count id q.queue
    resolves_queued q (submitted meta ok at) h p id o now e = cc
    resolves_queued q (submitted meta Outcome.permanent at) h p id o now e = cc
    resolves_queued q (submitted meta transient at) h p id o now e = cc
    resolves_queued q (ticked at) h p id o now e = cc
    resolves_queued q (resolved x out at) (lt, f) p id o now e =
        let same : x ≡ id = cc in subst (λ y. 0 < count y q.queue) same (p x lt f)

    -- Where no pending item is dropped, each item that was created is in the queue, and not ended,
    -- or out of the queue, and ended exactly once.
    pub Calm-ends_once :
        {q : Queue M} {effects : List (Effect M)} (a : ℕ)
        → Reach (Calm c) c q effects
        → count a q.queue + ends a effects ≡ issued q.next_id a
    unfolding initial
    Calm-ends_once a (start nobody) = ground arith
    Calm-ends_once a (next {q} {effects} e r h) = omega (
      arith,
      step-accounts_exactly c a q e (resolves_queued q e h (Reach-Pending r)),
      ends-append a effects (step c q e).1,
      Calm-ends_once a r,
    )

    -- A full queue whose oldest item has a `post` pending: the next item drops it and reports its
    -- loss, and if the pending `post` is then acknowledged the item has ended twice.
    pub dropped_then_delivered :
        (q : Queue M) (x : ℕ) (xs : List ℕ) (meta : M) (now later : ℕ)
        → q.queue ≡ x ∷ xs
        → c.cap ≤ length q.queue
        → x < q.next_id
        → (q.heap x).in_flight ≡ true
        → let r = step c q (submitted meta transient now) in
          Enabled r.0 (resolved x ok later)
          × (r.1 ≡ ended x (q.heap x).meta (lost dropped) ∷ [])
          × ((step c r.0 (resolved x ok later)).1 ≡ ended x (q.heap x).meta delivered ∷ [])
    unfolding step enqueue make_room
    dropped_then_delivered q x xs meta now later e full lt f =
        ((omega arith, ground arith), ground arith, ground arith)
