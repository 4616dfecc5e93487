-- ===== src/SettleQueue/Attempts.antt =====
-- How often a queued settle is posted.
use ppq_enclave_proxy.Prelude.{
  ℕ, ◌+◌, ◌≤◌, ◌<◌, ◌≡◌, ◌↔◌, subst, ◌++◌, List, [], ◌∷◌, arith, count, count-append, Bool, true,
  false,
}
use ppq_enclave_proxy.SettleQueue.{
  Outcome, ok, transient, gave_up, lost, Queue, Config, Effect, posted, ended, refused,
  dropped_nothing, Event, submitted, ticked, resolved, Enabled, is_due, make_room, enqueue,
  drain_tick, step, Reach, start, next, initial,
}
use ppq_enclave_proxy.SettleQueue.Bounds.{count-remove}
use ppq_enclave_proxy.SettleQueue.Drain.{posts, posts-drain_each, heap-drain_each}

abbrev bit : Bool → ℕ
bit true = 1
bit false = 0

module _ {M : Type 0} where
  posts-append : (a : ℕ) (xs ys : List (Effect M)) → posts a (xs ++ ys) ≡ posts a xs + posts a ys
  posts-append a [] ys = omega arith
  posts-append a (posted id m ∷ xs) ys = omega (arith, posts-append a xs ys)
  posts-append a (ended id m fate ∷ xs) ys = posts-append a xs ys
  posts-append a (refused m ∷ xs) ys = posts-append a xs ys
  posts-append a (dropped_nothing ∷ xs) ys = posts-append a xs ys

  -- What holds of one identity, when the item was posted `n` times.
  record Tries (c : Config) (q : Queue M) (n a : ℕ) : Type 0 where
    fresh : q.next_id ≤ a → (count a q.queue ≡ 0) × (n ≡ 0)
    once : count a q.queue ≤ 1
    bounded : n ≤ c.max_attempts
    queued :
        0 < count a q.queue
        → (n + 1 ≡ (q.heap a).attempts + bit (q.heap a).in_flight)
          × ((q.heap a).attempts ≤ c.max_attempts)
    pending :
        a < q.next_id
        → (q.heap a).in_flight ≡ true
        → (n ≡ (q.heap a).attempts) × ((q.heap a).attempts ≤ c.max_attempts)

  module _ (c : Config) where
    count-make_room :
        (a : ℕ) (q : Queue M)
        → (count a (make_room c q).0 ≤ count a q.queue) × (posts a (make_room c q).1 ≡ 0)
    unfolding make_room
    count-make_room a q = by_queue q.queue
      where
        by_queue :
            (xs : List ℕ)
            → let r = make_room c (record q { queue = xs }) in
              (count a r.0 ≤ count a xs) × (posts a r.1 ≡ 0)
        by_queue [] = ground arith
        by_queue (x ∷ xs) = ground arith

    enqueue-Tries :
        (a n : ℕ) (q : Queue M) (meta : M) (now : ℕ)
        → 0 < c.max_attempts
        → Tries c q n a
        → Tries c (enqueue c q meta 1 now).0 n a
    unfolding enqueue
    enqueue-Tries a n q meta now pos t =
        ground (arith, count-make_room a q, count-append a (make_room c q).0 (q.next_id ∷ []))

    posts-enqueue :
        (a : ℕ) (q : Queue M) (meta : M) (now : ℕ) → posts a (enqueue c q meta 1 now).1 ≡ 0
    unfolding enqueue
    posts-enqueue a q meta now = (count-make_room a q).1

    tick-Tries :
        (a n : ℕ) (q : Queue M) (now : ℕ)
        → Tries c q n a
        → Tries c (drain_tick q now).0 (n + posts a (drain_tick q now).1) a
    unfolding drain_tick is_due
    tick-Tries a n q now t =
        ground (arith, posts-drain_each a q.heap q.queue now, heap-drain_each a q.heap q.queue now)

    step-Tries :
        (a n : ℕ) (q : Queue M) (e : Event M)
        → 0 < c.max_attempts
        → Enabled q e
        → Tries c q n a
        → Tries c (step c q e).0 (n + posts a (step c q e).1) a
    unfolding step
    step-Tries a n q (submitted meta ok now) pos h t = ground arith
    step-Tries a n q (submitted meta Outcome.permanent now) pos h t = ground arith
    step-Tries a n q (submitted meta transient now) pos h t =
        let none_posted : n ≡ n + posts a (enqueue c q meta 1 now).1 =
          omega (arith, posts-enqueue a q meta now) in
        subst (λ k. Tries c (enqueue c q meta 1 now).0 k a) none_posted
          (enqueue-Tries a n q meta now pos t)
    step-Tries a n q (ticked now) pos h t = tick-Tries a n q now t
    step-Tries a n q (resolved id ok now) pos h t = ground (arith, count-remove a id q.queue)
    step-Tries a n q (resolved id Outcome.permanent now) pos h t =
        ground (arith, count-remove a id q.queue)
    step-Tries a n q (resolved id transient now) pos h t = ground (arith, count-remove a id q.queue)

    Reach-Tries :
        {q : Queue M} {effects : List (Effect M)} (a : ℕ)
        → 0 < c.max_attempts
        → Reach Enabled c q effects
        → Tries c q (posts a effects) a
    unfolding initial
    Reach-Tries a pos (start nobody) = ground arith
    Reach-Tries a pos (next {q} {effects} e r h) =
        rw (posts-append a effects (step c q e).1)
          (step-Tries a (posts a effects) q e pos h (Reach-Tries a pos r))

    -- In every history, for a positive `max_attempts`, the queue posts no settle more than
    -- `max_attempts` times.
    pub posts-le-max :
        {q : Queue M} {effects : List (Effect M)} (a : ℕ)
        → 0 < c.max_attempts
        → Reach Enabled c q effects
        → posts a effects ≤ c.max_attempts
    posts-le-max a pos r = (Reach-Tries a pos r).bounded

    -- When a pending `post` fails transiently, the queue gives the settle up if it has posted it
    -- `max_attempts` times, and never before: with the `post` of `submit`, that is one try more
    -- than `max_attempts`.
    pub gives_up_iff :
        {q : Queue M} {effects : List (Effect M)} (a now : ℕ)
        → 0 < c.max_attempts
        → Reach Enabled c q effects
        → Enabled q (resolved a transient now)
        → ((step c q (resolved a transient now)).1 ≡ ended a (q.heap a).meta (lost gave_up) ∷ [])
          ↔ (posts a effects ≡ c.max_attempts)
    unfolding step
    gives_up_iff {q} {effects} a now pos r (lt, f) =
        let t = Reach-Tries a pos r in ground (arith, t.pending lt f)
