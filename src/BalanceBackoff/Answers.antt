-- ===== src/BalanceBackoff/Answers.antt =====
-- What a remembered refusal answers, and what it leaves alone.
use ppq_enclave_proxy.Prelude.{
  ℕ, ◌+◌, ◌-◌, ◌*◌, ◌≤◌, ◌<◌, ◌≡◌, ◌⊎◌, ◌≢◌, refl, Text, eq_text, eq_text_iff, eq_text_refl, List,
  [], ◌∷◌, Option, none, some, true, false, arith, length, leb, if◌then◌else◌, ap, ◌∙◌, ◌∙◌,
}
use ppq_enclave_proxy.JsMap.{get, Distinct}
use ppq_enclave_proxy.JsMap.Laws.{get-put}
use ppq_enclave_proxy.BalanceBackoff.{Entry, Answer, make_room, remember_at, lookup}
use ppq_enclave_proxy.BalanceBackoff.Memory.{Kept, get-make_room}

module _ {B : Type 0} where
  -- The wait that is told: at least 1 second, never less than what is left of the window, and less
  -- than a second more.
  abbrev pub TellsWait : B → ℕ → Option (Answer B) → Type 0
  TellsWait body left none = ⊥
  TellsWait body left (some a) =
      (a.status ≡ 429)
      × (a.body ≡ body)
      × (1 ≤ a.seconds)
      × (left ≤ a.seconds * 1000)
      × (a.seconds * 1000 < left + 1000)

  get-remember :
      (limit : ℕ) (c s : ℕ) (key j : Text) (body : B) (now : ℕ) (held : List (Text × Entry B))
      → 1 ≤ s
      → s ≤ 60
      → get j (remember_at limit (some (c ∷ key)) (some s) body now held).0 ≡ (
          if eq_text (c ∷ key) j
          then some (record { until = now + s * 1000; body = body })
          else get j (make_room limit (c ∷ key) now held))
  unfolding remember_at
  get-remember limit c s key j body now held lo hi = ground (
    arith,
    get-put (c ∷ key) j (record { until = now + s * 1000; body = body })
        (make_room limit (c ∷ key) now held),
  )

  lookup_held :
      (c : ℕ) (key : Text) (t : ℕ) (held : List (Text × Entry B)) (e : Entry B)
      → get (c ∷ key) held ≡ some e
      → t < e.until
      → TellsWait e.body (e.until - t) (lookup (some (c ∷ key)) t held).1
  unfolding lookup
  lookup_held c key t held e h lt =
      let open_window : leb e.until t ≡ false = ground arith in
      rw (h, open_window) (refl, refl, omega arith, omega arith, omega arith)

  lookup_over :
      (c : ℕ) (key : Text) (t : ℕ) (held : List (Text × Entry B)) (e : Entry B)
      → get (c ∷ key) held ≡ some e
      → e.until ≤ t
      → (lookup (some (c ∷ key)) t held).1 ≡ none
  unfolding lookup
  lookup_over c key t held e h over = let shut : leb e.until t ≡ true = ground arith in rw (h, shut)

  accepted :
      (limit c s : ℕ) (key : Text) (body : B) (now : ℕ) (held : List (Text × Entry B))
      → 1 ≤ s
      → s ≤ 60
      → (remember_at limit (some (c ∷ key)) (some s) body now held).1 ≡ true
  unfolding remember_at
  accepted limit c s key body now held lo hi = ground arith

  -- A refusal that is remembered for `s` seconds, 1 to 60, is answered here until the window ends,
  -- with the same body and a wait that is never shorter than what is left of it; from then on
  -- horse-power is asked.
  pub lookup-remember :
      (limit c s : ℕ) (key : Text) (body : B) (now t : ℕ) (held : List (Text × Entry B))
      → 1 ≤ s
      → s ≤ 60
      → let r = remember_at limit (some (c ∷ key)) (some s) body now held in
        (r.1 ≡ true)
        × (t < now + s * 1000
            → TellsWait body (now + s * 1000 - t) (lookup (some (c ∷ key)) t r.0).1)
        × (now + s * 1000 ≤ t → (lookup (some (c ∷ key)) t r.0).1 ≡ none)
  lookup-remember limit c s key body now t held lo hi =
      let e : Entry B = record { until = now + s * 1000; body = body } in
      let found = get-remember limit c s key (c ∷ key) body now held lo hi in
      let found' : get (c ∷ key) (remember_at limit (some (c ∷ key)) (some s) body now held).0
          ≡ some e =
        found
        ∙ ap (λ b. if b then some e else get (c ∷ key) (make_room limit (c ∷ key) now held))
            (eq_text_refl (c ∷ key)) in
      (
        accepted limit c s key body now held lo hi,
        (λ lt. lookup_held c key t _ e found' lt),
        (λ over. lookup_over c key t _ e found' over),
      )

  -- Remembering one credential leaves every other one as it was, or forgets it; and it forgets
  -- none while the store has room.
  pub remember-frame :
      (limit c s : ℕ) (key j : Text) (body : B) (now : ℕ) (held : List (Text × Entry B))
      → Distinct held
      → 1 ≤ s
      → s ≤ 60
      → c ∷ key ≢ j
      → let after = get j (remember_at limit (some (c ∷ key)) (some s) body now held).0 in
        Kept after (get j held) × (length held < limit → after ≡ get j held)
  unfolding make_room
  remember-frame limit c s key j body now held d lo hi ne =
      let kept = get-make_room j (c ∷ key) limit now held d in
      let found = get-remember limit c s key j body now held lo hi in
      (
        ground (arith, kept, found, eq_text_iff (c ∷ key) j),
        (λ room. ground (arith, found, eq_text_iff (c ∷ key) j)),
      )

  -- What is no window of 1 to 60 seconds, or names no credential, is refused and changes nothing.
  pub remember_refuses :
      (limit : ℕ) (key : Option Text) (s : ℕ) (body : B) (now : ℕ) (held : List (Text × Entry B))
      → (key ≡ none) ⊎ ((key ≡ some []) ⊎ ((s ≡ 0) ⊎ (60 < s)))
      → remember_at limit key (some s) body now held ≡ (held, false)
  unfolding remember_at
  remember_refuses limit none s body now held h = refl
  remember_refuses limit (some []) s body now held h = refl
  remember_refuses limit (some (c ∷ key)) s body now held h = ground arith
