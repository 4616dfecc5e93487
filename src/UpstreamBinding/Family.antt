-- ===== src/UpstreamBinding/Family.antt =====
-- The binding of model families to hosts.
use ppq_enclave_proxy.Prelude.{
  ℕ, ◌≡◌, ◌↔◌, ◌⊎◌, inl, inr, refl, sym, ap, subst, ◌∙◌, Text, codes, eq_text, eq_text_iff,
  ne_of_eq_text, starts_with, to_lower, map, List, [], ◌∷◌, ◌++◌, Option, none, some, Bool, true,
  false, ◌==◌, if◌then◌else◌, arith, All, Bool-cases,
}
use ppq_enclave_proxy.UpstreamBinding.{
  universal, family_bindings, strip_tilde, binding_model_id, includes, Verdict, free, bound,
  refused, judge_family, check_binding, Judged, allowed, refused_for, judged, check_bindings,
}

abbrev pub IsPermitted : Verdict → Type 0
IsPermitted (refused family permitted) = ⊥
IsPermitted (bound family permitted) = Unit
IsPermitted free = Unit

-- Two texts differ at a place that both have: no text starts with both.
abbrev clash : Text → Text → Bool
clash [] b = false
clash (x ∷ a) [] = false
clash (x ∷ a) (y ∷ b) = if x == y then clash a b else true

abbrev Exclusive : List (Text × List Text) → Type 0
Exclusive [] = Unit
Exclusive ((family, hosts) ∷ rest) = All (λ row. clash family row.0 ≡ true) rest × Exclusive rest

not_both : (m a b : Text) → clash a b ≡ true → starts_with m a ≡ true → starts_with m b ≡ false
not_both m [] b h s = ground arith
not_both m (x ∷ a) [] h s = ground arith
not_both [] (x ∷ a) (y ∷ b) h s = refl
not_both (z ∷ m) (x ∷ a) (y ∷ b) h s = ground (arith, not_both m a b)

-- A row of the table allows the host to the model.
abbrev pub Allows : Text → Text → Text × List Text → Type 0
Allows model host row = starts_with model row.0 ≡ true → includes row.1 host ≡ true

rest-Allows :
    (model host family : Text) (rest : List (Text × List Text))
    → All (λ row. clash family row.0 ≡ true) rest
    → starts_with model family ≡ true
    → All (Allows model host) rest
rest-Allows model host family [] h s = tt
rest-Allows model host family ((f, hosts) ∷ rest) (h, hs) s =
    ((λ t. ground (arith, not_both model family f h s)), rest-Allows model host family rest hs s)

judge_family_iff :
    (table : List (Text × List Text)) (model host : Text)
    → Exclusive table
    → IsPermitted (judge_family table model host) ↔ All (Allows model host) table
unfolding judge_family
judge_family_iff [] model host x = ((λ h. tt), (λ h. tt))
judge_family_iff ((family, hosts) ∷ rest) model host (x, xs) =
    elim (Bool-cases (starts_with model family)) [
      | inl s ↦ elim (Bool-cases (includes hosts host)) [
        | inl i ↦
            rw (s, i) ((λ h. ((λ t. refl), rest-Allows model host family rest x s)), (λ h. tt))
        | inr i ↦ rw (s, i) ((λ h. absurd h), (λ h. ground arith))
      ]
      | inr s ↦ rw s (
        (λ h. ((λ t. ground arith), (judge_family_iff rest model host xs).0 h)),
        (λ h. (judge_family_iff rest model host xs).1 h.1),
      )
    ]

family_bindings-Exclusive : Exclusive family_bindings
unfolding family_bindings
family_bindings-Exclusive = (
  (refl, (refl, (refl, (refl, tt)))),
  ((refl, (refl, (refl, tt))), ((refl, (refl, tt)), ((refl, tt), (tt, tt)))),
)

-- A host is permitted to a model exactly when it is OpenRouter's, or every family that the model
-- belongs to lists it.
pub check_binding_iff :
    (model : Text) (c : ℕ) (host : Text)
    → IsPermitted (check_binding (some model) (some (c ∷ host)))
      ↔ ((c ∷ host ≡ universal) ⊎ All (Allows (binding_model_id model) (c ∷ host)) family_bindings)
unfolding check_binding
check_binding_iff model c host =
    let family =
      judge_family_iff family_bindings (binding_model_id model) (c ∷ host)
        family_bindings-Exclusive in
    elim (Bool-cases (eq_text (c ∷ host) universal)) [
      | inl e ↦ rw e ((λ h. inl ((eq_text_iff (c ∷ host) universal).0 e)), (λ h. tt))
      | inr e ↦ rw e (
        (λ h. inr (family.0 h)),
        (λ h. elim h [
          | inl u ↦ absurd (ne_of_eq_text (c ∷ host) universal e u)
          | inr a ↦ family.1 a
        ]),
      )
    ]

untilded :
    (m : Text) → starts_with m (codes "~") ≡ false → strip_tilde (map to_lower m) ≡ map to_lower m
untilded [] h = refl
untilded (c ∷ m) h = let no : (to_lower c == b'~') ≡ false = ground arith in rw no

check_binding-same :
    (m n : Text) (host : Option Text)
    → binding_model_id n ≡ binding_model_id m
    → check_binding (some n) host ≡ check_binding (some m) host
unfolding check_binding
check_binding-same m n none same = refl
check_binding-same m n (some []) same = refl
check_binding-same m n (some (c ∷ host)) same =
    ap
      (λ b.
        if eq_text (c ∷ host) universal then free else judge_family family_bindings b (c ∷ host))
      same

-- For a model id without a leading tilde: the case of its letters makes no difference to what is
-- judged, and neither does one tilde put before it.
pub check_binding-spelling :
    (m n : Text) (host : Option Text)
    → map to_lower n ≡ map to_lower m
    → starts_with m (codes "~") ≡ false
    → (check_binding (some n) host ≡ check_binding (some m) host)
      × (check_binding (some (b'~' ∷ n)) host ≡ check_binding (some m) host)
unfolding binding_model_id
check_binding-spelling m n host same h = (
  check_binding-same m n host (ap strip_tilde same),
  check_binding-same m (b'~' ∷ n) host (same ∙ sym (untilded m h)),
)

-- The first id that refuses, and nothing before it refuses; or no id refuses.
abbrev pub FirstRefusal : List (Option Text) → Option Text → Judged → Type 0
FirstRefusal ids host allowed = All (λ id. IsPermitted (check_binding id host)) ids
FirstRefusal ids host (refused_for id family permitted) =
    (before : List (Option Text)) × (after : List (Option Text)) × (ids ≡ before ++ (id ∷ after))
    × All (λ i. IsPermitted (check_binding i host)) before
    × (check_binding id host ≡ refused family permitted)

refusal_later :
    (id : Option Text) (ids : List (Option Text)) (host : Option Text) (r : Judged)
    → IsPermitted (check_binding id host)
    → FirstRefusal ids host r
    → FirstRefusal (id ∷ ids) host r
refusal_later id ids host allowed p f = (p, f)
refusal_later id ids host (refused_for i family permitted) p (before, after, e, b, r) =
    (id ∷ before, after, ap (λ t. id ∷ t) e, (p, b), r)

judged_first :
    (id : Option Text) (ids : List (Option Text)) (host : Option Text) (v : Verdict) (r : Judged)
    → check_binding id host ≡ v
    → FirstRefusal ids host r
    → FirstRefusal (id ∷ ids) host (judged id v r)
judged_first id ids host (refused family permitted) r e f = ([], ids, refl, tt, e)
judged_first id ids host (bound family permitted) r e f =
    refusal_later id ids host r (subst IsPermitted (sym e) tt) f
judged_first id ids host free r e f = refusal_later id ids host r (subst IsPermitted (sym e) tt) f

-- Judging several ids gives the first refusal among them, or all of them permit the host.
pub check_bindings_first :
    (ids : List (Option Text)) (host : Option Text)
    → FirstRefusal ids host (check_bindings ids host)
unfolding check_bindings
check_bindings_first [] host = tt
check_bindings_first (id ∷ ids) host =
    judged_first id ids host (check_binding id host) (check_bindings ids host) refl
      (check_bindings_first ids host)

allowed-All :
    (ids : List (Option Text)) (host : Option Text)
    → check_bindings ids host ≡ allowed
    → All (λ id. IsPermitted (check_binding id host)) ids
allowed-All ids host e = subst (FirstRefusal ids host) e (check_bindings_first ids host)

-- Whatever ids horse-power resolves a request to, the id that the client sent keeps the request to
-- OpenRouter and to the hosts of that id's family.
pub client_family_binds :
    (model : Text) (resolved : List (Option Text)) (c : ℕ) (host : Text)
    → check_bindings (some model ∷ resolved) (some (c ∷ host)) ≡ allowed
    → (c ∷ host ≡ universal) ⊎ All (Allows (binding_model_id model) (c ∷ host)) family_bindings
client_family_binds model resolved c host e =
    (check_binding_iff model c host).0 (allowed-All (some model ∷ resolved) (some (c ∷ host)) e).0
