-- ===== src/SettleQueue/Accounting.antt =====
-- What becomes of each queued item: the queue and the ends that the effects report.
use ppq_enclave_proxy.Prelude.{
  ℕ, ◌+◌, ◌≤◌, ◌<◌, ◌≡◌, refl, ◌++◌, List, [], ◌∷◌, arith, count, true, count-append, ◌==◌, ltb,
  if◌then◌else◌,
}
use ppq_enclave_proxy.SettleQueue.{
  Outcome, ok, transient, Queue, Config, Effect, posted, ended, refused, dropped_nothing, Event,
  submitted, ticked, resolved, Item, make_room, enqueue, drain_each, step, Reach, start, next,
  initial,
}
use ppq_enclave_proxy.SettleQueue.Bounds.{count-remove}

-- 1 for an identity that an item has been given.
abbrev pub issued : ℕ → ℕ → ℕ
issued next_id a = if ltb a next_id then 1 else 0

module _ {M : Type 0} where
  -- How often the item's delivery has ended: acknowledged, or reported as lost.
  abbrev pub ends : ℕ → List (Effect M) → ℕ
  ends a [] = 0
  ends a (posted id m ∷ es) = ends a es
  ends a (ended id m fate ∷ es) = (if id == a then 1 else 0) + ends a es
  ends a (refused m ∷ es) = ends a es
  ends a (dropped_nothing ∷ es) = ends a es

  pub ends-append : (a : ℕ) (xs ys : List (Effect M)) → ends a (xs ++ ys) ≡ ends a xs + ends a ys
  ends-append a [] ys = omega arith
  ends-append a (posted id m ∷ xs) ys = ends-append a xs ys
  ends-append a (ended id m fate ∷ xs) ys = omega (arith, ends-append a xs ys)
  ends-append a (refused m ∷ xs) ys = ends-append a xs ys
  ends-append a (dropped_nothing ∷ xs) ys = ends-append a xs ys

  pub ends-drain_each :
      (a : ℕ) (heap : ℕ → Item M) (xs : List ℕ) (t : ℕ) → ends a (drain_each heap xs t).1 ≡ 0
  unfolding drain_each
  ends-drain_each a heap [] t = refl
  ends-drain_each a heap (x ∷ xs) t = ground (
    arith,
    ends-drain_each a (λ j. if j == x then record (heap x) { in_flight = true } else heap j) xs t,
    ends-drain_each a heap xs t,
  )

  module _ (c : Config) where
    ends-make_room :
        (a : ℕ) (q : Queue M)
        → count a (make_room c q).0 + ends a (make_room c q).1 ≡ count a q.queue
    unfolding make_room
    ends-make_room a q = by_queue q.queue
      where
        by_queue :
            (xs : List ℕ)
            → let r = make_room c (record q { queue = xs }) in count a r.0 + ends a r.1 ≡ count a xs
        by_queue [] = ground arith
        by_queue (x ∷ xs) = ground arith

    ends-enqueue :
        (a : ℕ) (q : Queue M) (meta : M) (n now : ℕ)
        → let r = enqueue c q meta n now in
          count a r.0.queue + ends a r.1 + issued q.next_id a
          ≡ count a q.queue + issued r.0.next_id a
    unfolding enqueue
    ends-enqueue a q meta n now =
        ground (arith, count-append a (make_room c q).0 (q.next_id ∷ []), ends-make_room a q)

    -- An item enters the queue when it is created; it leaves with an end, and an end of an item
    -- that the queue has lost already is one too many.
    pub step-accounts :
        (a : ℕ) (q : Queue M) (e : Event M)
        → let r = step c q e in
          count a q.queue + issued r.0.next_id a
          ≤ count a r.0.queue + ends a r.1 + issued q.next_id a
    unfolding step
    step-accounts a q (submitted meta ok now) = omega arith
    step-accounts a q (submitted meta Outcome.permanent now) = omega arith
    step-accounts a q (submitted meta transient now) = omega (arith, ends-enqueue a q meta 1 now)
    step-accounts a q (ticked now) = omega arith
    step-accounts a q (resolved id ok now) = ground (arith, count-remove a id q.queue)
    step-accounts a q (resolved id Outcome.permanent now) =
        ground (arith, count-remove a id q.queue)
    step-accounts a q (resolved id transient now) = ground (arith, count-remove a id q.queue)

    pub step-accounts_exactly :
        (a : ℕ) (q : Queue M) (e : Event M)
        → ((id : ℕ) (o : Outcome) (now : ℕ) → e ≡ resolved id o now → 0 < count id q.queue)
        → let r = step c q e in
          count a q.queue + issued r.0.next_id a
          ≡ count a r.0.queue + ends a r.1 + issued q.next_id a
    unfolding step
    step-accounts_exactly a q (submitted meta ok now) h = omega arith
    step-accounts_exactly a q (submitted meta Outcome.permanent now) h = omega arith
    step-accounts_exactly a q (submitted meta transient now) h =
        omega (arith, ends-enqueue a q meta 1 now)
    step-accounts_exactly a q (ticked now) h = omega (arith, ends-drain_each a q.heap q.queue now)
    step-accounts_exactly a q (resolved id ok now) h =
        ground (arith, count-remove a id q.queue, h id ok now refl)
    step-accounts_exactly a q (resolved id Outcome.permanent now) h =
        ground (arith, count-remove a id q.queue, h id Outcome.permanent now refl)
    step-accounts_exactly a q (resolved id transient now) h =
        ground (arith, count-remove a id q.queue, h id transient now refl)

    Reach-issued-le :
        {P : Queue M → Event M → Type 0} {q : Queue M} {effects : List (Effect M)} (a : ℕ)
        → Reach P c q effects
        → issued q.next_id a ≤ count a q.queue + ends a effects
    unfolding initial
    Reach-issued-le a (start nobody) = ground arith
    Reach-issued-le a (next {q} {effects} e r p) =
        omega
          (arith, step-accounts a q e, ends-append a effects (step c q e).1, Reach-issued-le a r)

    -- No queued settle vanishes: in every history an item that was created stands in the queue,
    -- or its end has been seen (an acknowledgement or a report of its loss).
    pub Reach-covers :
        {P : Queue M → Event M → Type 0} {q : Queue M} {effects : List (Effect M)} (a : ℕ)
        → Reach P c q effects
        → a < q.next_id
        → 0 < count a q.queue + ends a effects
    Reach-covers a r h = ground (arith, Reach-issued-le a r)
