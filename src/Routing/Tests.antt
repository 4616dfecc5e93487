-- ===== src/Routing/Tests.antt =====
-- The directives at work.
use ppq_enclave_proxy.Prelude.{
  contains, false, ◌≢◌, ne_of_eq_text, ℕ, codes, [], ◌∷◌, true, suc, ◌*◌, ◌≤◌, ◌≡◌, refl, none,
  some, arith,
}
use ppq_enclave_proxy.Values.{other}
use ppq_enclave_proxy.Routing.SpendCap.{
  Lengths, Amount, raw, whole, capped, put_length, choices_paid, bound_choices, apply_spend_cap,
}
use ppq_enclave_proxy.Routing.Capped.{IsPaid, choices, Sends, apply_spend_cap-IsPaid}
use ppq_enclave_proxy.JsMap.{get, has, put}
use ppq_enclave_proxy.Routing.Provider.{
  boolean, array, Fields, Provider, absent, object, fields_of, is_zdr, apply_provider_directive,
  apply_hard_provider_pin, is_quantization, parse_provider_floor, has_choice, apply_provider_floor,
  directives_keep_zdr,
}
use ppq_enclave_proxy.Routing.Transform.{
  InEffect, anthropic_provider, exclude_venice, routed_provider, transform_provider,
}
use ppq_enclave_proxy.Routing.Strips.{
  missing, items, Tool, sent, web, auto_router, Payload, RawAutoRouter, AutoRouter, is_model,
  all_texts, parse_auto_router, without, is_plugin, is_active_web_plugin, apply_auto_router_config,
  apply_web_plugin_directive, apply_tool_strip, is_paid_web_search_tool,
  tool_choice_targets_web_search, apply_free_model_strip,
}
use ppq_enclave_proxy.Routing.Routed.{IsRouted, transform_provider-IsRouted}
use ppq_enclave_proxy.Routing.Cleaned.{IsFree, apply_free_model_strip-IsFree}

spend_cap : Unit {0}
unfolding apply_spend_cap bound_choices choices_paid put_length capped
spend_cap = tt

abbrev eight_choices : Lengths
eight_choices = record {
  max_tokens = some (raw (whole 4000));
  max_completion_tokens = none;
  n = some (raw (whole 8));
}

one_choice_left : apply_spend_cap eight_choices 100 ≡ (
  record {
    max_tokens = some (raw (whole 100));
    max_completion_tokens = none;
    n = some (raw (whole 1));
  },
  some 1,
)
unfolding spend_cap
one_choice_left = refl

headroom_kept :
    (apply_spend_cap (record eight_choices { max_tokens = some (raw (whole 10)) }) 100).1 ≡ none
unfolding spend_cap
headroom_kept = refl

malformed_dropped : (apply_spend_cap (record eight_choices { n = some other }) 100).0.n ≡ none
unfolding spend_cap
malformed_dropped = refl

apply_spend_cap-IsPaid_example :
    (a : Amount) × IsPaid a 100
    × Sends a (apply_spend_cap eight_choices 100).0
    × (choices (apply_spend_cap eight_choices 100).0.n * a.numerator ≤ 100 * suc a.denominator)
apply_spend_cap-IsPaid_example = apply_spend_cap-IsPaid eight_choices 100 (omega arith)

strips : Unit {0}
unfolding apply_free_model_strip apply_web_plugin_directive apply_auto_router_config
    apply_tool_strip parse_auto_router is_model all_texts is_plugin is_active_web_plugin
    is_paid_web_search_tool tool_choice_targets_web_search without
strips = tt

abbrev dated_search : Tool ℕ
dated_search = record {
  kind = some (codes "web_search_20250305");
  function_name = none;
  name = some (codes "web_search");
  rest = 0;
}

abbrev weather : Tool ℕ
weather = record {
  kind = some (codes "function");
  function_name = some (codes "weather");
  name = none;
  rest = 1;
}

abbrev forced_search : Tool ℕ
forced_search = record dated_search { kind = some (codes "tool") }

abbrev searching : Payload ℕ
searching = record {
  plugins = items (sent (some (codes "web")) true 0 ∷ []);
  tools = items (dated_search ∷ weather ∷ []);
  tool_choice = some forced_search;
}

stripped :
    apply_free_model_strip searching
    ≡ record { plugins = missing; tools = items (weather ∷ []); tool_choice = none }
unfolding strips
stripped = refl

online : apply_web_plugin_directive searching ≡ record searching { plugins = items (web ∷ []) }
unfolding strips
online = refl

toolless : apply_tool_strip searching ≡ record searching { tools = missing; tool_choice = none }
unfolding strips
toolless = refl

abbrev directive : RawAutoRouter
directive = record {
  allowed_models = items (some (codes "openai/*") ∷ []);
  cost_tier = some (codes "low");
}

abbrev settings : AutoRouter
settings = record { models = codes "openai/*" ∷ []; tier = codes "low" }

directive_accepted : parse_auto_router (some directive) ≡ some settings
unfolding strips
directive_accepted = refl

routed :
    (apply_auto_router_config (some settings) searching).plugins
    ≡ items
        (sent (some (codes "web")) true 0 ∷ auto_router (codes "openai/*" ∷ []) (codes "low") ∷ [])
unfolding strips
routed = refl

apply_free_model_strip-IsFree_example : IsFree searching (apply_free_model_strip searching)
apply_free_model_strip-IsFree_example = apply_free_model_strip-IsFree searching

providers : Unit {0}
unfolding apply_provider_directive apply_hard_provider_pin apply_provider_floor parse_provider_floor
    is_quantization has_choice all_texts get put has
providers = tt

abbrev zdr_caller : Provider
zdr_caller = object ((codes "zdr", boolean true) ∷ [])

abbrev vertex_pin : Fields
vertex_pin = (codes "only", array (some (codes "google-vertex") ∷ [])) ∷ []

pin_keeps_zdr : apply_hard_provider_pin zdr_caller (some vertex_pin) ≡ (
  object (
      (codes "only", array (some (codes "google-vertex") ∷ [])) ∷ (codes "zdr", boolean true) ∷ []),
  true,
)
unfolding providers
pin_keeps_zdr = refl

floor_accepted : parse_provider_floor (items (some (codes "fp8") ∷ [])) ≡ some (codes "fp8" ∷ [])
unfolding providers
floor_accepted = refl

floor_added :
    apply_provider_floor absent (some (codes "fp8" ∷ []))
    ≡ object ((codes "quantizations", array (some (codes "fp8") ∷ [])) ∷ [])
unfolding providers
floor_added = refl

zdr_asked : is_zdr zdr_caller ≡ true
unfolding providers
zdr_asked = refl

only-zdr : codes "only" ≢ codes "zdr"
only-zdr = ne_of_eq_text (codes "only") (codes "zdr") refl

directives_keep_zdr_example :
    (is_zdr (apply_provider_directive zdr_caller (some vertex_pin)).0 ≡ true)
    × (is_zdr (apply_hard_provider_pin zdr_caller (some vertex_pin)).0 ≡ true)
    × (apply_provider_floor zdr_caller (some (codes "fp8" ∷ [])) ≡ zdr_caller)
    × (get (codes "only") (fields_of (apply_provider_directive zdr_caller (some vertex_pin)).0)
        ≡ get (codes "only") vertex_pin)
directives_keep_zdr_example =
    directives_keep_zdr zdr_caller vertex_pin (some (codes "fp8" ∷ [])) (codes "only") zdr_asked
      only-zdr

transform : Unit {0}
unfolding transform_provider routed_provider exclude_venice anthropic_provider contains get put
transform = tt

abbrev quiet : InEffect
quiet = record { plugin = false; web_plugin = false; web_search_tool = false }

venice_excluded : transform_provider (codes "glm-5.2-fast") quiet zdr_caller ≡ (
  codes "z-ai/glm-5.2",
  object (
      (codes "order", array (some (codes "fireworks/fast") ∷ some (codes "fireworks") ∷ []))
      ∷ (codes "allow_fallbacks", boolean true)
      ∷ (codes "ignore", array (some (codes "venice") ∷ []))
      ∷ (codes "zdr", boolean true)
      ∷ []),
)
unfolding transform
venice_excluded = refl

transform_provider-IsRouted_example :
    IsRouted
      (codes "glm-5.2-fast")
      quiet
      zdr_caller
      (transform_provider (codes "glm-5.2-fast") quiet zdr_caller).1
transform_provider-IsRouted_example =
    transform_provider-IsRouted (codes "glm-5.2-fast") quiet zdr_caller
