-- ===== src/ReasoningMirror/Parts.antt =====
-- What the rewriting of a delta or message leaves, adds and keeps.
use ppq_enclave_proxy.Prelude.{
  ◌&&◌, Bool, not, ◌≡◌, ◌⊎◌, inl, inr, refl, Text, eq_text, true, false, Bool-cases, Bool, not,
  some, Option-cases, [], arith, ◌∙◌, eq_text_iff,
}
use mathlib.Core.Option.{none-ne-some}
use ppq_enclave_proxy.Json.{
  null, boolean, number, Members, text, find, set, find-set_other, find-set, Json, as_text, object,
  array, field,
}
use ppq_enclave_proxy.ReasoningMirror.{
  reasoning, is_missing, mirror_reasoning, mirror_details, mirror_members, mirror_reasoning_into,
  mirror_text, reasoning_details, details, reasoning_content, is_undefined,
}

mirror_reasoning_cases :
    (s : Text) (ms : Members)
    → ((is_missing (find reasoning ms) ≡ true)
        × (mirror_reasoning s ms ≡ (set reasoning (text s) ms, true)))
      ⊎ ((is_missing (find reasoning ms) ≡ false) × (mirror_reasoning s ms ≡ (ms, false)))
unfolding mirror_reasoning
mirror_reasoning_cases s ms = elim (Bool-cases (is_missing (find reasoning ms))) [
  | inl missing ↦ inl (missing, rw missing refl)
  | inr there ↦ inr (there, rw there refl)
]

-- The other members are kept.
mirror_reasoning_other :
    (s name : Text) (ms : Members)
    → eq_text reasoning name ≡ false
    → find name (mirror_reasoning s ms).0 ≡ find name ms
mirror_reasoning_other s name ms h = elim (mirror_reasoning_cases s ms) [
  | inl (missing, step) ↦ rw step (find-set_other reasoning name (text s) ms h)
  | inr (there, step) ↦ rw step refl
]

mirror_reasoning_settled :
    (s : Text) (ms : Members)
    → is_missing (find reasoning ms) ≡ false
    → mirror_reasoning s ms ≡ (ms, false)
unfolding mirror_reasoning
mirror_reasoning_settled s ms there = rw there refl

mirror_reasoning_there :
    (s : Text) (ms : Members) → is_missing (find reasoning (mirror_reasoning s ms).0) ≡ false
mirror_reasoning_there s ms = elim (mirror_reasoning_cases s ms) [
  | inl (missing, step) ↦ rw (step, find-set reasoning (text s) ms) refl
  | inr (there, step) ↦ rw (step, there) refl
]

-- Whether the details of a text are to be added.
abbrev lacks_details : Text → Members → Bool
lacks_details s ms = not (eq_text s []) && is_undefined (find reasoning_details ms)

mirror_details_cases :
    (s : Text) (ms : Members)
    → ((lacks_details s ms ≡ true)
        × (mirror_details s ms ≡ (set reasoning_details (details s) ms, true)))
      ⊎ ((lacks_details s ms ≡ false) × (mirror_details s ms ≡ (ms, false)))
unfolding mirror_details
mirror_details_cases s ms = elim (Bool-cases (lacks_details s ms)) [
  | inl lacks ↦ inl (lacks, rw lacks refl)
  | inr whole ↦ inr (whole, rw whole refl)
]

mirror_details_settled :
    (s : Text) (ms : Members) → lacks_details s ms ≡ false → mirror_details s ms ≡ (ms, false)
unfolding mirror_details
mirror_details_settled s ms whole = rw whole refl

mirror_details_other :
    (s name : Text) (ms : Members)
    → eq_text reasoning_details name ≡ false
    → find name (mirror_details s ms).0 ≡ find name ms
mirror_details_other s name ms h = elim (mirror_details_cases s ms) [
  | inl (lacks, step) ↦ rw step (find-set_other reasoning_details name (details s) ms h)
  | inr (whole, step) ↦ rw step refl
]

mirror_details_whole : (s : Text) (ms : Members) → lacks_details s (mirror_details s ms).0 ≡ false
mirror_details_whole s ms = elim (mirror_details_cases s ms) [
  | inl (lacks, step) ↦ rw (step, find-set reasoning_details (details s) ms) (ground arith)
  | inr (whole, step) ↦ rw step whole
]

-- What both steps leave settles both.
mirror_text-settled :
    (s : Text) (ms : Members)
    → mirror_text (some s) (mirror_text (some s) ms).0 ≡ ((mirror_text (some s) ms).0, false)
mirror_text-settled s ms =
    let r = (mirror_reasoning s ms).0 in
    let d = (mirror_details s r).0 in
    let there : is_missing (find reasoning d) ≡ false =
      rw (mirror_details_other s reasoning r refl) (mirror_reasoning_there s ms) in
    rw (mirror_reasoning_settled s d there, mirror_details_settled s d (mirror_details_whole s r))
      refl

mirror_text_other :
    (s name : Text) (ms : Members)
    → eq_text reasoning name ≡ false
    → eq_text reasoning_details name ≡ false
    → find name (mirror_text (some s) ms).0 ≡ find name ms
mirror_text_other s name ms h k =
    mirror_details_other s name (mirror_reasoning s ms).0 k ∙ mirror_reasoning_other s name ms h

mirror_members-settled :
    (ms : Members) → mirror_members (mirror_members ms).0 ≡ ((mirror_members ms).0, false)
unfolding mirror_members as_text
mirror_members-settled ms = elim (Option-cases (as_text (find reasoning_content ms))) [
  | inl no_text ↦ rw (no_text, no_text) refl
  | inr (s, is_text) ↦
      rw (is_text, mirror_text_other s reasoning_content ms refl refl, is_text)
        (mirror_text-settled s ms)
]

-- Rewriting a part that was rewritten changes nothing, and says so.
pub mirror_reasoning_into-settled :
    (part : Json)
    → mirror_reasoning_into (mirror_reasoning_into part).0 ≡ ((mirror_reasoning_into part).0, false)
unfolding mirror_reasoning_into
mirror_reasoning_into-settled (object ms) = rw (mirror_members-settled ms) refl
mirror_reasoning_into-settled null = refl
mirror_reasoning_into-settled (boolean b) = refl
mirror_reasoning_into-settled (number n) = refl
mirror_reasoning_into-settled (text s) = refl
mirror_reasoning_into-settled (array es) = refl

mirror_reasoning-keeps :
    (s name : Text) (v : Json) (ms : Members)
    → find name ms ≡ some v
    → (eq_text reasoning name && is_missing (some v)) ≡ false
    → find name (mirror_reasoning s ms).0 ≡ some v
mirror_reasoning-keeps s name v ms h k = elim (Bool-cases (eq_text reasoning name)) [
  | inl same ↦
      let eq : reasoning ≡ name = (eq_text_iff reasoning name).0 same in
      let there : is_missing (find reasoning ms) ≡ false = rw (eq, h) (ground arith) in
      rw (mirror_reasoning_settled s ms there) h
  | inr other ↦ mirror_reasoning_other s name ms other ∙ h
]

mirror_details-keeps :
    (s name : Text) (v : Json) (ms : Members)
    → find name ms ≡ some v
    → find name (mirror_details s ms).0 ≡ some v
mirror_details-keeps s name v ms h = elim (Bool-cases (eq_text reasoning_details name)) [
  | inl same ↦
      let eq : reasoning_details ≡ name = (eq_text_iff reasoning_details name).0 same in
      let there : lacks_details s ms ≡ false = rw (eq, h) (ground arith) in
      rw (mirror_details_settled s ms there) h
  | inr other ↦ mirror_details_other s name ms other ∙ h
]

-- No member is overwritten or lost, but a `reasoning` that is null.
pub mirror_reasoning_into-keeps :
    (part : Json) (name : Text) (v : Json)
    → field name (some part) ≡ some v
    → (eq_text reasoning name && is_missing (some v)) ≡ false
    → field name (some (mirror_reasoning_into part).0) ≡ some v
unfolding mirror_reasoning_into mirror_members field
mirror_reasoning_into-keeps (object ms) name v h k =
    elim (Option-cases (as_text (find reasoning_content ms))) [
      | inl no_text ↦ rw no_text h
      | inr (s, is_text) ↦ rw is_text (
          mirror_details-keeps s name v (mirror_reasoning s ms).0
            (mirror_reasoning-keeps s name v ms h k))
    ]
mirror_reasoning_into-keeps null name v h k = h
mirror_reasoning_into-keeps (boolean b) name v h k = h
mirror_reasoning_into-keeps (number n) name v h k = h
mirror_reasoning_into-keeps (text s) name v h k = h
mirror_reasoning_into-keeps (array es) name v h k = h

-- A part with reasoning text is left with `reasoning`, and with details where the text is not empty.
pub mirror_reasoning_into-shows :
    (part : Json) (s : Text)
    → as_text (field reasoning_content (some part)) ≡ some s
    → (is_missing (field reasoning (some (mirror_reasoning_into part).0)) ≡ false)
      × ((not (eq_text s [])
            && is_undefined (field reasoning_details (some (mirror_reasoning_into part).0)))
          ≡ false)
unfolding mirror_reasoning_into mirror_members field
mirror_reasoning_into-shows (object ms) s h =
    let r = (mirror_reasoning s ms).0 in
    rw h (
      rw (mirror_details_other s reasoning r refl) (mirror_reasoning_there s ms),
      mirror_details_whole s r,
    )
mirror_reasoning_into-shows null s h = absurd (none-ne-some s h)
mirror_reasoning_into-shows (boolean b) s h = absurd (none-ne-some s h)
mirror_reasoning_into-shows (number n) s h = absurd (none-ne-some s h)
mirror_reasoning_into-shows (text t) s h = absurd (none-ne-some s h)
mirror_reasoning_into-shows (array es) s h = absurd (none-ne-some s h)
