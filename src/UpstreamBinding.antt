-- ===== src/UpstreamBinding.antt =====
-- enclave/src/upstreamBinding.mjs: which hosts a model may be served from, and which host, key and
-- dialect a provider may be named with. A field of a candidate is a parsed JSON value.
pub mod Bound
pub mod Family
pub mod Provider
pub mod Joint
pub mod Tests
use ppq_enclave_proxy.Prelude.{
  ℕ, ◌≡◌, Text, codes, eq_text, starts_with, to_lower, any_of, map, List, [], ◌∷◌, ◌++◌, Option,
  none, some, Bool, true, false, not, ◌&&◌, ◌||◌, length, take, leb, ◌==◌, if◌then◌else◌,
}
use ppq_enclave_proxy.JsMap.{get}
use ppq_enclave_proxy.Values.{Value, undefined, null, text, array, object, number, boolean}

abbrev pub universal : Text
universal = codes "openrouter.ai"

unfoldable pub family_bindings : List (Text × List Text)
family_bindings =
    (codes "anthropic/", codes "api.anthropic.com" ∷ [])
    ∷ (
      codes "openai/",
      codes "bedrock-mantle.us-east-1.api.aws"
          ∷ codes "bedrock-mantle.us-east-2.api.aws"
          ∷ codes "bedrock-mantle.us-west-2.api.aws"
          ∷ codes "api.openai.com"
          ∷ [],
    )
    ∷ (codes "google/", codes "aiplatform.googleapis.com" ∷ [])
    ∷ (codes "private/", codes "inference.tinfoil.sh" ∷ [])
    ∷ (codes "venice/", codes "api.venice.ai" ∷ [])
    ∷ []

-- `replace(/^~/, '')`
abbrev pub strip_tilde : Text → Text
strip_tilde [] = []
strip_tilde (c ∷ s) = if c == b'~' then s else c ∷ s

unfoldable pub binding_model_id : Text → Text
binding_model_id model = strip_tilde (map to_lower model)

abbrev pub includes : List Text → Text → Bool
includes ts t = any_of (λ u. eq_text u t) ts

-- The result of checkBinding, with the family and the permitted hosts where a family was found.
pub data Verdict : Type 0 where
  free : Verdict
  bound : (family : Text) (permitted : List Text) → Verdict
  refused : (family : Text) (permitted : List Text) → Verdict

-- The loop over the families.
unfoldable pub judge_family : List (Text × List Text) → Text → Text → Verdict
judge_family [] model host = free
judge_family ((family, hosts) ∷ rest) model host =
    if not (starts_with model family)
    then judge_family rest model host
    else if includes hosts host
    then bound family (hosts ++ universal ∷ [])
    else refused family (hosts ++ universal ∷ [])

abbrev judge_requested : Option Text → Text → Verdict
judge_requested none host = free
judge_requested (some model) host = judge_family family_bindings (binding_model_id model) host

-- checkBinding; a model or a host that is not text is `none`.
unfoldable pub check_binding : Option Text → Option Text → Verdict
check_binding requested none = free
check_binding requested (some []) = free
check_binding requested (some (c ∷ host)) =
    if eq_text (c ∷ host) universal then free else judge_requested requested (c ∷ host)

-- The result of checkBindings, with the id that refused.
pub data Judged : Type 0 where
  allowed : Judged
  refused_for : (model : Option Text) (family : Text) (permitted : List Text) → Judged

abbrev pub judged : Option Text → Verdict → Judged → Judged
judged id (refused family permitted) rest = refused_for id family permitted
judged id (bound family permitted) rest = rest
judged id free rest = rest

unfoldable pub check_bindings : List (Option Text) → Option Text → Judged
check_bindings [] host = allowed
check_bindings (id ∷ ids) host = judged id (check_binding id host) (check_bindings ids host)

pub record Rule : Type 0 where
  pub hosts : List Text
  pub key_ref : Text
  pub api_style : Text
  pub also_api_styles : List Text

abbrev rule : List Text → Text → Text → List Text → Rule
rule hosts key style also = record {
  hosts = hosts;
  key_ref = key;
  api_style = style;
  also_api_styles = also;
}

unfoldable pub provider_bindings : List (Text × Rule)
provider_bindings =
    (codes "openrouter", rule (codes "openrouter.ai" ∷ []) (codes "openrouter") (codes "openai") [])
    ∷ (
      codes "fireworks",
      rule (codes "api.fireworks.ai" ∷ []) (codes "fireworks") (codes "openai") [],
    )
    ∷ (
      codes "foundry",
      rule (codes "ppq-foundry.services.ai.azure.com" ∷ []) (codes "foundry") (codes "openai") [],
    )
    ∷ (codes "venice", rule (codes "api.venice.ai" ∷ []) (codes "venice") (codes "openai") [])
    ∷ (
      codes "anthropic",
      rule (codes "api.anthropic.com" ∷ []) (codes "anthropic") (codes "anthropic") [],
    )
    ∷ (
      codes "bedrock",
      rule
          (codes "bedrock-mantle.us-east-1.api.aws"
            ∷ codes "bedrock-mantle.us-east-2.api.aws"
            ∷ codes "bedrock-mantle.us-west-2.api.aws"
            ∷ [])
          (codes "bedrock") (codes "bedrock") [],
    )
    ∷ (
      codes "openai",
      rule (codes "api.openai.com" ∷ []) (codes "openai") (codes "openai-responses") [],
    )
    ∷ (
      codes "vertex",
      rule (codes "aiplatform.googleapis.com" ∷ []) (codes "vertex") (codes "openai") [],
    )
    ∷ (
      codes "tinfoil",
      rule (codes "inference.tinfoil.sh" ∷ []) (codes "tinfoil") (codes "openai")
          (codes "speech" ∷ []),
    )
    ∷ (
      codes "deepgram",
      rule (codes "api.deepgram.com" ∷ []) (codes "deepgram") (codes "speech") [],
    )
    ∷ (
      codes "elevenlabs",
      rule (codes "api.elevenlabs.io" ∷ []) (codes "elevenlabs") (codes "speech") [],
    )
    ∷ []

pub record Candidate : Type 0 where
  pub provider : Value
  pub host : Value
  pub key_ref : Value
  pub api_style : Value

unfoldable pub candidate_label : Value → Text
candidate_label (text t) = if leb (length t) 128 then t else take 125 t ++ codes "..."
candidate_label undefined = codes "undefined"
candidate_label null = codes "null"
candidate_label array = codes "<array>"
candidate_label object = codes "<object>"
candidate_label number = codes "<number>"
candidate_label boolean = codes "<boolean>"

pub data Mismatch : Type 0 where
  provider_unknown : Mismatch
  provider_host_mismatch : Mismatch
  provider_key_mismatch : Mismatch
  provider_api_style_mismatch : Mismatch

-- The result of checkProviderBinding.
pub data Checked : Type 0 where
  agreed : Checked
  disagreed : (reason : Mismatch) (field : Text) (expected : Option Rule) → Checked

-- `value === t`, for text `t`.
abbrev pub is_text : Value → Text → Bool
is_text (text s) t = eq_text s t
is_text _ t = false

abbrev pub is_undefined : Value → Bool
is_undefined undefined = true
is_undefined _ = false

abbrev pub rule_of : Value → Option Rule
rule_of (text p) = get p provider_bindings
rule_of _ = none

-- The host that a tunnel is taken for; none is a candidate without a host.
abbrev pub named_host : Value → Option Text
named_host (text (c ∷ h)) = some (c ∷ h)
named_host _ = none

abbrev pub host_ok : Rule → Option Text → Bool
host_ok r none = true
host_ok r (some h) = includes r.hosts h

unfoldable pub style_ok : Rule → Value → Bool
style_ok r style =
    is_text style r.api_style
    || (is_undefined style && eq_text r.api_style (codes "openai"))
    || any_of (is_text style) r.also_api_styles

host_label : Option Text → Text
host_label none = []
host_label (some h) = h

-- The checks against the rule of the provider.
unfoldable pub check_rule : Candidate → Rule → Checked
unfolding host_label
check_rule c r =
    if not (host_ok r (named_host c.host))
    then disagreed provider_host_mismatch (host_label (named_host c.host)) (some r)
    else if not (is_text c.key_ref r.key_ref)
    then disagreed provider_key_mismatch (candidate_label c.key_ref) (some r)
    else if not (style_ok r c.api_style)
    then disagreed provider_api_style_mismatch (candidate_label c.api_style) (some r)
    else agreed

abbrev pub check_found : Candidate → Option Rule → Checked
check_found c none = disagreed provider_unknown (candidate_label c.provider) none
check_found c (some r) = check_rule c r

-- checkProviderBinding.
unfoldable pub check_provider_binding : Candidate → Checked
check_provider_binding c = check_found c (rule_of c.provider)
