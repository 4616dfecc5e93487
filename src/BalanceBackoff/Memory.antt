-- ===== src/BalanceBackoff/Memory.antt =====
-- The store of held refusals: what is remembered, what is forgotten, and its bound.
use ppq_enclave_proxy.Prelude.{
  ℕ, ◌+◌, ◌*◌, ◌≤◌, ◌<◌, ◌≡◌, ◌⊎◌, refl, inl, Text, eq_text, eq_text_iff, subst, List, [], ◌∷◌,
  Option, none, some, true, false, arith, length,
}
use ppq_enclave_proxy.JsMap.{get, has, Distinct}
use ppq_enclave_proxy.JsMap.Laws.{
  has_iff, length-put, length-delete-le, Distinct-put, Distinct-delete,
}
use ppq_enclave_proxy.BalanceBackoff.{Entry, sweep, evict, make_room, remember_at, lookup}

-- The calls that change the store, each with the clock that it reads.
pub data Call (B : Type 0) : Type 0 where
  remembers : Option Text → Option ℕ → B → (now : ℕ) → Call B
  looks : Option Text → (now : ℕ) → Call B
  clears : Call B

-- An entry that was not dropped is what it was.
abbrev pub Kept {ℓ} : {V : Type ℓ} → Option V → Option V → Type ℓ
Kept {V} after before = (after ≡ none) ⊎ (after ≡ before)

module _ {B : Type 0} where
  pub step : ℕ → List (Text × Entry B) → Call B → List (Text × Entry B)
  step limit held (remembers key seconds body now) = (remember_at limit key seconds body now held).0
  step limit held (looks key now) = (lookup key now held).0
  step limit held clears = []

  pub run : ℕ → List (Text × Entry B) → List (Call B) → List (Text × Entry B)
  run limit held [] = held
  run limit held (c ∷ cs) = run limit (step limit held c) cs

  has-sweep :
      (k : Text) (t : ℕ) (held : List (Text × Entry B))
      → has k held ≡ false
      → has k (sweep t held) ≡ false
  unfolding sweep has
  has-sweep k t [] h = refl
  has-sweep k t ((j, v) ∷ held) h = ground (arith, has-sweep k t held)

  Distinct-sweep : (t : ℕ) (held : List (Text × Entry B)) → Distinct held → Distinct (sweep t held)
  unfolding sweep
  Distinct-sweep t [] d = tt
  Distinct-sweep t ((j, v) ∷ held) (f, d) =
      ground (arith, Distinct-sweep t held d, has-sweep j t held f)

  Distinct-evict :
      (limit : ℕ) (held : List (Text × Entry B)) → Distinct held → Distinct (evict limit held)
  unfolding evict
  Distinct-evict limit [] d = tt
  Distinct-evict limit ((j, v) ∷ held) (f, d) = ground (arith, Distinct-evict limit held d)

  length-evict :
      (limit : ℕ) (held : List (Text × Entry B)) → 0 < limit → length (evict limit held) < limit
  unfolding evict
  length-evict limit [] h = omega arith
  length-evict limit ((j, v) ∷ held) h = ground (arith, length-evict limit held h)

  get-none_of_has :
      (k j : Text) (held : List (Text × Entry B))
      → has j held ≡ false
      → eq_text j k ≡ true
      → get k held ≡ none
  get-none_of_has k j held h e =
      subst (λ x. get x held ≡ none) ((eq_text_iff j k).0 e) (has_iff j held h)

  get-sweep :
      (k : Text) (t : ℕ) (held : List (Text × Entry B))
      → Distinct held
      → Kept (get k (sweep t held)) (get k held)
  unfolding sweep get
  get-sweep k t [] d = inl refl
  get-sweep k t ((j, v) ∷ held) (f, d) =
      ground
        (arith, get-sweep k t held d, get-none_of_has k j (sweep t held) (has-sweep j t held f))

  get-evict :
      (k : Text) (limit : ℕ) (held : List (Text × Entry B))
      → Distinct held
      → Kept (get k (evict limit held)) (get k held)
  unfolding evict get
  get-evict k limit [] d = inl refl
  get-evict k limit ((j, v) ∷ held) (f, d) =
      ground (arith, get-evict k limit held d, get-none_of_has k j held f)

  pub get-make_room :
      (k key : Text) (limit t : ℕ) (held : List (Text × Entry B))
      → Distinct held
      → Kept (get k (make_room limit key t held)) (get k held)
  unfolding make_room
  get-make_room k key limit t held d =
      ground
        (arith, get-sweep k t held d, get-evict k limit (sweep t held) (Distinct-sweep t held d))

  length-make_room :
      (key : Text) (limit t : ℕ) (held : List (Text × Entry B))
      → 0 < limit
      → length held ≤ limit
      → (length (make_room limit key t held) < limit)
        ⊎ ((has key (make_room limit key t held) ≡ true)
            × (length (make_room limit key t held) ≤ limit))
  unfolding make_room
  length-make_room key limit t held pos h = ground (arith, length-evict limit (sweep t held) pos)

  Distinct-make_room :
      (key : Text) (limit t : ℕ) (held : List (Text × Entry B))
      → Distinct held
      → Distinct (make_room limit key t held)
  unfolding make_room
  Distinct-make_room key limit t held d =
      ground (arith, Distinct-evict limit (sweep t held) (Distinct-sweep t held d))

  -- What holds of the store after any calls.
  abbrev pub IsBounded : ℕ → List (Text × Entry B) → Type 0
  IsBounded limit held = Distinct held × (length held ≤ limit)

  remember_at-IsBounded :
      (limit : ℕ) (key : Option Text) (seconds : Option ℕ) (body : B) (now : ℕ)
      (held : List (Text × Entry B))
      → 0 < limit
      → IsBounded limit held
      → IsBounded limit (remember_at limit key seconds body now held).0
  unfolding remember_at
  remember_at-IsBounded limit (some (c ∷ key)) (some s) body now held pos (d, h) =
      let room = make_room limit (c ∷ key) now held in
      let entry : Entry B = record { until = now + s * 1000; body = body } in
      ground (
        arith,
        Distinct-put (c ∷ key) entry room (Distinct-make_room (c ∷ key) limit now held d),
        length-put (c ∷ key) entry room,
        length-make_room (c ∷ key) limit now held pos h,
      )
  remember_at-IsBounded limit (some (c ∷ key)) none body now held pos v = v
  remember_at-IsBounded limit (some []) s body now held pos v = v
  remember_at-IsBounded limit none s body now held pos v = v

  lookup-IsBounded :
      (limit : ℕ) (key : Option Text) (now : ℕ) (held : List (Text × Entry B))
      → IsBounded limit held
      → IsBounded limit (lookup key now held).0
  unfolding lookup
  lookup-IsBounded limit (some (c ∷ key)) now held (d, h) =
      ground (arith, Distinct-delete (c ∷ key) held d, length-delete-le (c ∷ key) held)
  lookup-IsBounded limit (some []) now held v = v
  lookup-IsBounded limit none now held v = v

  step-IsBounded :
      (limit : ℕ) (held : List (Text × Entry B)) (c : Call B)
      → 0 < limit
      → IsBounded limit held
      → IsBounded limit (step limit held c)
  unfolding step
  step-IsBounded limit held (remembers key seconds body now) pos v =
      remember_at-IsBounded limit key seconds body now held pos v
  step-IsBounded limit held (looks key now) pos v = lookup-IsBounded limit key now held v
  step-IsBounded limit held clears pos v = (tt, omega arith)

  -- After any calls the store holds no credential twice, and no more credentials than its limit.
  pub run-IsBounded :
      (limit : ℕ) (held : List (Text × Entry B)) (cs : List (Call B))
      → 0 < limit
      → IsBounded limit held
      → IsBounded limit (run limit held cs)
  unfolding run
  run-IsBounded limit held [] pos v = v
  run-IsBounded limit held (c ∷ cs) pos v =
      run-IsBounded limit (step limit held c) cs pos (step-IsBounded limit held c pos v)
