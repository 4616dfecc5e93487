-- ===== src/SettleQueue/Bounds.antt =====
-- How the steps of the settle queue change its length and its content, and the bound on memory.
use ppq_enclave_proxy.Prelude.{
  ℕ, ◌-◌, ◌≤◌, ◌<◌, ◌≡◌, List, [], ◌∷◌, arith, length, length-append, count, ◌==◌, if◌then◌else◌,
}
use ppq_enclave_proxy.SettleQueue.{
  Outcome, ok, permanent, transient, Queue, Config, Effect, Event, submitted, ticked, resolved,
  Item, remove, shift, make_room, enqueue, submit, drain_tick, resolve, step, Reach, start, next,
}

pub length-remove-le : (id : ℕ) (xs : List ℕ) → length (remove id xs) ≤ length xs
unfolding remove
length-remove-le id [] = omega arith
length-remove-le id (x ∷ xs) = ground (arith, length-remove-le id xs)

-- One occurrence goes, if there is one.
pub count-remove :
    (a id : ℕ) (xs : List ℕ) → count a (remove id xs) ≡ count a xs - (if id == a then 1 else 0)
unfolding remove
count-remove a id [] = ground arith
count-remove a id (x ∷ xs) = ground (arith, count-remove a id xs)

module _ {M : Type 0} (c : Config) where
  length-make_room :
      (q : Queue M) → 0 < c.cap → length q.queue ≤ c.cap → length (make_room c q).0 < c.cap
  unfolding make_room
  length-make_room q pos h = by_queue q.queue h
    where
      by_queue :
          (xs : List ℕ)
          → length xs ≤ c.cap
          → length (make_room c (record q { queue = xs })).0 < c.cap
      by_queue [] k = ground arith
      by_queue (x ∷ xs) k = ground arith

  step-bounded :
      (q : Queue M) (e : Event M)
      → 0 < c.cap
      → length q.queue ≤ c.cap
      → length (step c q e).0.queue ≤ c.cap
  unfolding step enqueue
  step-bounded q (submitted meta ok now) pos h = h
  step-bounded q (submitted meta Outcome.permanent now) pos h = h
  step-bounded q (submitted meta transient now) pos h =
      omega (arith, length-append (make_room c q).0 (q.next_id ∷ []), length-make_room q pos h)
  step-bounded q (ticked now) pos h = h
  step-bounded q (resolved id ok now) pos h = omega (arith, length-remove-le id q.queue)
  step-bounded q (resolved id Outcome.permanent now) pos h =
      omega (arith, length-remove-le id q.queue)
  step-bounded q (resolved id transient now) pos h = ground (arith, length-remove-le id q.queue)

  -- In every history the queue holds at most `cap` items, for a positive `cap`.
  pub Reach-bounded :
      {P : Queue M → Event M → Type 0} {q : Queue M} {effects : List (Effect M)}
      → 0 < c.cap
      → Reach P c q effects
      → length q.queue ≤ c.cap
  unfolding ppq_enclave_proxy.SettleQueue.initial
  Reach-bounded pos (start nobody) = omega arith
  Reach-bounded pos (next {q} e r p) = step-bounded q e pos (Reach-bounded pos r)
