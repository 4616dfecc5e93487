-- ===== src/HpHosts/Pinned.antt =====
-- Which hosts can be pinned.
use ppq_enclave_proxy.Prelude.{
  ◌≡◌, ◌⊎◌, ◌↔◌, ◌≢◌, refl, sym, ◌∙◌, subst, Text, codes, eq_text, eq_text_iff, trim, List, [], ◌∷◌,
  ◌++◌, Option, none, some, Bool, true, false, not, ◌&&◌, arith, inl, inr, Bool-cases,
}
use mathlib.Core.Bool.{false≢true}
use ppq_enclave_proxy.HpHosts.{
  hp_hosts, normalize_hp_host, is_empty, normalized_names, test_allowed_hp_hosts, is_listed,
  is_allowed_hp_host, Pin, unset, pinned, rejected, pin_hp_host,
}

nonempty : (t : Text) → is_empty t ≡ false → eq_text t [] ≡ false
nonempty [] h = ground arith
nonempty (c ∷ t) h = refl

empty : (t : Text) → is_empty t ≡ true → t ≡ []
empty [] h = refl
empty (c ∷ t) h = ground arith

is_listed-empty : (xs : List Text) → is_listed (normalized_names xs) [] ≡ false
unfolding normalized_names
is_listed-empty [] = refl
is_listed-empty (s ∷ ss) = elim (Bool-cases (is_empty (normalize_hp_host s))) [
  | inl e ↦ rw e (is_listed-empty ss)
  | inr e ↦ rw (e, nonempty (normalize_hp_host s) e) (is_listed-empty ss)
]

widened-empty : (env : Option Text) → is_listed (hp_hosts ++ test_allowed_hp_hosts env) [] ≡ false
unfolding hp_hosts test_allowed_hp_hosts
widened-empty none = is_listed-empty _
widened-empty (some raw) = is_listed-empty _

-- A host is pinned only under its own normalised name, which is on the list.
abbrev IsSound : Text → List Text → Pin → Type 0
IsSound value allow (pinned h) =
    (h ≡ normalize_hp_host value) × (is_listed (hp_hosts ++ allow) h ≡ true)
IsSound value allow unset = Unit
IsSound value allow (rejected named) = Unit

pin_hp_host-IsSound :
    (value : Text) (allow : List Text) → IsSound value allow (pin_hp_host (some value) allow)
unfolding pin_hp_host
pin_hp_host-IsSound value allow = elim (Bool-cases (is_empty (trim value))) [
  | inl e ↦ rw e tt
  | inr e ↦ elim (Bool-cases (is_listed (hp_hosts ++ allow) (normalize_hp_host value))) [
    | inl l ↦ rw (e, l) (refl, l)
    | inr l ↦ rw (e, l) tt
  ]
]

one_of_two : (a b h : Text) → is_listed (a ∷ b ∷ []) h ≡ true → (h ≡ a) ⊎ (h ≡ b)
one_of_two a b h l = elim (Bool-cases (eq_text a h)) [
  | inl e ↦ inl (sym ((eq_text_iff a h).0 e))
  | inr e ↦ let second : eq_text b h ≡ true = ground arith in inr (sym ((eq_text_iff b h).0 second))
]

-- In production, where nothing widens the list, the host that is pinned is exactly one of the two
-- names of horse-power, however the parent spelled it.
pub pin_hp_host-production :
    (value h : Text)
    → pin_hp_host (some value) (test_allowed_hp_hosts none) ≡ pinned h
    → (h ≡ codes "backend.ppq.ai")
      ⊎ (h ≡ codes "ppq-backend-dev-a6fkdvbbbmg3dga3.canadacentral-01.azurewebsites.net")
unfolding hp_hosts test_allowed_hp_hosts normalized_names normalize_hp_host trim
pin_hp_host-production value h e =
    let (_, found) =
      subst (IsSound value (test_allowed_hp_hosts none)) e
        (pin_hp_host-IsSound value (test_allowed_hp_hosts none)) in
    one_of_two (codes "backend.ppq.ai")
      (codes "ppq-backend-dev-a6fkdvbbbmg3dga3.canadacentral-01.azurewebsites.net") h found

blank_name : (value : Text) → trim value ≡ [] → normalize_hp_host value ≡ []
unfolding normalize_hp_host
blank_name value e = rw e refl

allowed_if_listed :
    (value : Text) (env : Option Text)
    → is_listed (hp_hosts ++ test_allowed_hp_hosts env) (normalize_hp_host value) ≡ true
    → is_empty (normalize_hp_host value) ≡ false
allowed_if_listed value env l = elim (Bool-cases (is_empty (normalize_hp_host value))) [
  | inl e ↦
      let none_listed =
        subst (λ t. is_listed (hp_hosts ++ test_allowed_hp_hosts env) t ≡ true)
          (empty (normalize_hp_host value) e) l in
      absurd (false≢true (sym (widened-empty env) ∙ none_listed))
  | inr e ↦ e
]

and_false : (b : Bool) → b && false ≡ false
and_false true = refl
and_false false = refl

unset≢pinned : {h : Text} → unset ≢ pinned h
unset≢pinned e = ground arith

rejected≢pinned : {g h : Text} → rejected g ≢ pinned h
rejected≢pinned e = ground arith

-- The test that guards a host and the pin agree: a name is allowed exactly when it is pinned, under
-- its normalised form.
pub is_allowed_hp_host_iff :
    (value : Text) (env : Option Text)
    → (is_allowed_hp_host value (test_allowed_hp_hosts env) ≡ true)
      ↔ (pin_hp_host (some value) (test_allowed_hp_hosts env) ≡ pinned (normalize_hp_host value))
unfolding is_allowed_hp_host pin_hp_host
is_allowed_hp_host_iff value env = elim (Bool-cases (is_empty (trim value))) [
  | inl e ↦
      rw (blank_name value (empty (trim value) e), e)
        ((λ h. absurd (false≢true h)), (λ h. absurd (unset≢pinned h)))
  | inr e ↦
      elim (Bool-cases
        (is_listed (hp_hosts ++ test_allowed_hp_hosts env) (normalize_hp_host value))) [
          | inl l ↦
              let named = allowed_if_listed value env l in
              rw (e, named, l) ((λ h. refl), (λ h. refl))
          | inr l ↦
              rw (e, l)
                (
                  (λ h. absurd (
                      false≢true (sym (and_false (not (is_empty (normalize_hp_host value)))) ∙ h))),
                  (λ h. absurd (rejected≢pinned h)),
                )
        ]
]
