-- ===== src/UpstreamBinding/Tests.antt =====
-- The bindings at work.
use ppq_enclave_proxy.Prelude.{
  ◌≡◌, ◌↔◌, ◌⊎◌, refl, Text, codes, List, [], ◌∷◌, Option, none, some, All,
}
use ppq_enclave_proxy.JsMap.{get}
use ppq_enclave_proxy.Values.{undefined, text}
use ppq_enclave_proxy.UpstreamBinding.{
  universal, family_bindings, binding_model_id, judge_family, check_binding, check_bindings,
  allowed, Candidate, candidate_label, style_ok, check_rule, check_provider_binding, agreed,
  disagreed, provider_bindings, provider_host_mismatch, Mismatch, Checked, Judged, refused_for,
  named_host, Rule,
}
use ppq_enclave_proxy.UpstreamBinding.Family.{
  IsPermitted, Allows, check_binding_iff, check_binding-spelling,
}
use ppq_enclave_proxy.UpstreamBinding.Bound.{IsBound}
use ppq_enclave_proxy.UpstreamBinding.Provider.{
  check_provider_binding_iff, key_and_host_bound, owner,
}
use ppq_enclave_proxy.UpstreamBinding.Joint.{anthropic_stays}

bindings : Unit {0}
unfolding check_bindings check_binding judge_family binding_model_id family_bindings
    check_provider_binding check_rule style_ok provider_bindings candidate_label get
bindings = tt

abbrev claude : Text
claude = codes "~Anthropic/claude-sonnet-5"

abbrev ids : List (Option Text)
ids = some claude ∷ some (codes "vendor/x") ∷ []

abbrev anthropic_host : Text
anthropic_host = codes "api.anthropic.com"

abbrev direct : Candidate
direct = record {
  provider = text (codes "anthropic");
  host = text anthropic_host;
  key_ref = text (codes "anthropic");
  api_style = text (codes "anthropic");
}

-- A candidate that sends one provider's key to another's host.
abbrev crossed : Candidate
crossed = record {
  provider = text (codes "fireworks");
  host = text (codes "api.venice.ai");
  key_ref = text (codes "openrouter");
  api_style = undefined;
}

direct_passes : check_provider_binding direct ≡ agreed
unfolding bindings
direct_passes = refl

reason_of : Checked → Option Mismatch
reason_of agreed = none
reason_of (disagreed m f r) = some m

crossed_fails : reason_of (check_provider_binding crossed) ≡ some provider_host_mismatch
unfolding bindings reason_of
crossed_fails = refl

ids_allowed : check_bindings ids (some anthropic_host) ≡ allowed
unfolding bindings
ids_allowed = refl

blamed : Judged → Option Text
blamed allowed = none
blamed (refused_for id f p) = id

substituted_refused : blamed (check_bindings ids (some (codes "api.fireworks.ai"))) ≡ some claude
unfolding bindings blamed
substituted_refused = refl

check_binding_iff_example : IsPermitted (check_binding (some claude) (some anthropic_host)) ↔ (
    (anthropic_host ≡ universal)
    ⊎ All (Allows (binding_model_id claude) anthropic_host) family_bindings)
check_binding_iff_example = check_binding_iff claude b'a' (codes "pi.anthropic.com")

check_binding-spelling_example :
    (check_binding (some (codes "Venice/X")) (some anthropic_host)
      ≡ check_binding (some (codes "venice/x")) (some anthropic_host))
    × (check_binding (some (codes "~Venice/X")) (some anthropic_host)
        ≡ check_binding (some (codes "venice/x")) (some anthropic_host))
check_binding-spelling_example =
    check_binding-spelling (codes "venice/x") (codes "Venice/X") (some anthropic_host) refl refl

check_provider_binding_iff_example :
    (check_provider_binding direct ≡ agreed) ↔ ((p : Text) × (r : Rule) × IsBound direct p r)
check_provider_binding_iff_example = check_provider_binding_iff direct

key_and_host_bound_example :
    (direct.key_ref ≡ text (codes "anthropic"))
    × (named_host direct.host ≡ some anthropic_host
        → owner anthropic_host provider_bindings ≡ codes "anthropic")
key_and_host_bound_example =
    key_and_host_bound direct (codes "anthropic") anthropic_host direct_passes refl

anthropic_stays_example :
    ((anthropic_host ≡ codes "api.anthropic.com") × (direct.key_ref ≡ text (codes "anthropic")))
    ⊎ ((anthropic_host ≡ universal) × (direct.key_ref ≡ text (codes "openrouter")))
unfolding binding_model_id
anthropic_stays_example =
    anthropic_stays claude (some (codes "vendor/x") ∷ []) direct b'a' (codes "pi.anthropic.com")
      (codes "anthropic") ids_allowed refl direct_passes refl refl
