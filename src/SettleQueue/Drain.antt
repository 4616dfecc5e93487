-- ===== src/SettleQueue/Drain.antt =====
-- One drain of the settle queue.
use ppq_enclave_proxy.Prelude.{
  ℕ, ◌+◌, ◌≤◌, ◌≡◌, refl, List, [], ◌∷◌, arith, count, true, not, ◌&&◌, ◌||◌, ◌==◌, ltb,
  if◌then◌else◌,
}
use ppq_enclave_proxy.SettleQueue.{
  Queue, Effect, posted, ended, refused, dropped_nothing, Item, is_due, update, drain_each,
  drain_tick,
}

module _ {M : Type 0} where
  -- How often a `post` of the item was started.
  abbrev pub posts : ℕ → List (Effect M) → ℕ
  posts a [] = 0
  posts a (posted id m ∷ es) = (if id == a then 1 else 0) + posts a es
  posts a (ended id m fate ∷ es) = posts a es
  posts a (refused m ∷ es) = posts a es
  posts a (dropped_nothing ∷ es) = posts a es

  abbrev pub start_post : (ℕ → Item M) → ℕ → ℕ → ℕ → Item M
  start_post heap x t =
      if is_due (heap x) t then update heap x (record (heap x) { in_flight = true }) else heap

  pub posts-drain_each :
      (a : ℕ) (heap : ℕ → Item M) (xs : List ℕ) (t : ℕ)
      → posts a (drain_each heap xs t).1
        ≡ (if is_due (heap a) t && ltb 0 (count a xs) then 1 else 0)
  unfolding drain_each is_due
  posts-drain_each a heap [] t = ground arith
  posts-drain_each a heap (x ∷ xs) t = ground (
    arith,
    posts-drain_each a (update heap x (record (heap x) { in_flight = true })) xs t,
    posts-drain_each a heap xs t,
  )

  pub heap-drain_each :
      (a : ℕ) (heap : ℕ → Item M) (xs : List ℕ) (t : ℕ)
      → (drain_each heap xs t).0 a ≡ (
          if is_due (heap a) t && ltb 0 (count a xs)
          then record (heap a) { in_flight = true }
          else heap a)
  unfolding drain_each is_due
  heap-drain_each a heap [] t = ground arith
  heap-drain_each a heap (x ∷ xs) t = ground (
    arith,
    heap-drain_each a (update heap x (record (heap x) { in_flight = true })) xs t,
    heap-drain_each a heap xs t,
  )

  -- A drain starts one `post` for each item of the queue that is idle and due, and none for any
  -- other; exactly those items become in flight, nothing else of any item changes, and the queue
  -- stays as it was.
  pub drain_tick-posts :
      (a : ℕ) (q : Queue M) (now : ℕ)
      → let r = drain_tick q now in
        let chosen =
          not ((q.heap a).in_flight || ltb now (q.heap a).next_at) && ltb 0 (count a q.queue) in
        (posts a r.1 ≡ (if chosen then 1 else 0))
        × (r.0.heap a ≡ record (q.heap a) { in_flight = (q.heap a).in_flight || chosen })
        × (r.0.queue ≡ q.queue)
  unfolding drain_tick is_due
  drain_tick-posts a q now = (
    posts-drain_each a q.heap q.queue now,
    ground (arith, heap-drain_each a q.heap q.queue now),
    refl,
  )

  -- A second drain, at the same time or before, starts no `post` of any item.
  pub drain_tick-again :
      (a : ℕ) (q : Queue M) (now again : ℕ)
      → again ≤ now
      → posts a (drain_tick (drain_tick q now).0 again).1 ≡ 0
  unfolding drain_tick is_due
  drain_tick-again a q now again h = ground (
    arith,
    posts-drain_each a (drain_each q.heap q.queue now).0 q.queue again,
    heap-drain_each a q.heap q.queue now,
  )
