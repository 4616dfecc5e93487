-- ===== src/UpstreamBinding/Joint.antt =====
-- Both bindings together: what a candidate that passes both can reach.
use ppq_enclave_proxy.Prelude.{
  ℕ, ◌≡◌, ◌⊎◌, eq_text, eq_text_iff, inl, inr, refl, sym, ap, ◌∙◌, Text, codes, eq_text,
  eq_text_iff, starts_with, List, [], ◌∷◌, Option, some, true, arith, All,
}
use ppq_enclave_proxy.Values.{text}
use ppq_enclave_proxy.UpstreamBinding.{
  universal, family_bindings, binding_model_id, includes, provider_bindings, Candidate, agreed,
  named_host, check_bindings, allowed, check_provider_binding,
}
use ppq_enclave_proxy.UpstreamBinding.Family.{client_family_binds, Allows}
use ppq_enclave_proxy.UpstreamBinding.Provider.{key_and_host_bound, owner}

owners :
    (owner universal provider_bindings ≡ codes "openrouter")
    × (owner (codes "api.anthropic.com") provider_bindings ≡ codes "anthropic")
unfolding provider_bindings
owners = (refl, refl)

only_host : (t h : Text) → includes (t ∷ []) h ≡ true → h ≡ t
only_host t h i = let same : eq_text t h ≡ true = ground arith in sym ((eq_text_iff t h).0 same)

anthropic_row :
    (model host : Text)
    → All (Allows model host) family_bindings
    → starts_with model (codes "anthropic/") ≡ true
    → host ≡ codes "api.anthropic.com"
unfolding family_bindings
anthropic_row model host (a, rest) s = only_host (codes "api.anthropic.com") host (a s)

-- A candidate that names its host, and passes both checks on that host for a model that the client
-- named in Anthropic's family, is sent to Anthropic with Anthropic's key or to OpenRouter with
-- OpenRouter's key, whatever ids horse-power resolved the request to.
pub anthropic_stays :
    (model : Text) (resolved : List (Option Text)) (c : Candidate) (u : ℕ) (host p : Text)
    → check_bindings (some model ∷ resolved) (some (u ∷ host)) ≡ allowed
    → starts_with (binding_model_id model) (codes "anthropic/") ≡ true
    → check_provider_binding c ≡ agreed
    → c.provider ≡ text p
    → named_host c.host ≡ some (u ∷ host)
    → ((u ∷ host ≡ codes "api.anthropic.com") × (c.key_ref ≡ text (codes "anthropic")))
      ⊎ ((u ∷ host ≡ universal) × (c.key_ref ≡ text (codes "openrouter")))
anthropic_stays model resolved c u host p b s a e n =
    let (key, own) = key_and_host_bound c p (u ∷ host) a e in
    let (router, first) = owners in
    elim (client_family_binds model resolved u host b) [
      | inl r ↦
          let mine = sym (own n) ∙ ap (λ h. owner h provider_bindings) r ∙ router in
          inr (r, key ∙ ap text mine)
      | inr rows ↦
          let r = anthropic_row (binding_model_id model) (u ∷ host) rows s in
          let mine = sym (own n) ∙ ap (λ h. owner h provider_bindings) r ∙ first in
          inl (r, key ∙ ap text mine)
    ]
