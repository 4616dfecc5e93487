-- ===== src/Routing/Transform.antt =====
-- What transformPayload of enclave/src/routing.mjs makes of the model and of the `provider` object.
-- Which plugins and tools are in effect, after the swaps of web search, is an argument.
use Prim.Native.String.{String}
use ppq_enclave_proxy.Prelude.{
  contains, Text, codes, eq_text, starts_with, any_of, List, [], ◌∷◌, ◌++◌, Option, none, some,
  Bool, true, false, not, ◌&&◌, ◌||◌, if◌then◌else◌,
}
use ppq_enclave_proxy.JsMap.{get, put}
use ppq_enclave_proxy.Routing.Provider.{
  Item, boolean, array, other, Fields, Provider, absent, scalar, object, fields_of, is_zdr,
}

pub record InEffect : Type 0 where
  pub plugin : Bool
  pub web_plugin : Bool
  pub web_search_tool : Bool

abbrev pub one : String → Item
one s = array (some (codes s) ∷ [])

abbrev pub is_glm_fast : Text → Bool
is_glm_fast model =
    eq_text model (codes "z-ai/glm-5.2-fast") || eq_text model (codes "glm-5.2-fast")

abbrev glm_provider : Fields
glm_provider =
    (codes "order", array (some (codes "fireworks/fast") ∷ some (codes "fireworks") ∷ []))
    ∷ (codes "allow_fallbacks", boolean true)
    ∷ []

abbrev pub anthropic_only : Fields
anthropic_only = (codes "order", one "anthropic") ∷ (codes "allow_fallbacks", boolean false) ∷ []

abbrev pub bedrock_only : Fields
bedrock_only =
    (codes "order", one "amazon-bedrock")
    ∷ (codes "ignore", one "amazon-bedrock/claude-on-aws")
    ∷ (codes "allow_fallbacks", boolean false)
    ∷ []

unfoldable pub anthropic_provider : Text → InEffect → Fields
unfolding contains
anthropic_provider model e =
    let bedrock_unavailable = eq_text model (codes "anthropic/claude-opus-5") in
    if contains model (codes "fable") || (e.web_plugin && bedrock_unavailable)
    then anthropic_only
    else if e.plugin || e.web_search_tool || bedrock_unavailable
    then (codes "ignore", one "amazon-bedrock") ∷ []
    else bedrock_only

abbrev pub spread_of : Provider → Fields
spread_of absent = []
spread_of (scalar spread) = spread
spread_of (object fields) = fields

abbrev pub elements : Option Item → List (Option Text)
elements (some (array xs)) = xs
elements (some (boolean b)) = []
elements (some other) = []
elements none = []

abbrev pub is_venice : Option Text → Bool
is_venice none = false
is_venice (some t) = eq_text t (codes "venice")

abbrev pub with_venice : List (Option Text) → List (Option Text)
with_venice xs = if any_of is_venice xs then xs else xs ++ some (codes "venice") ∷ []

unfoldable pub exclude_venice : Provider → Fields
exclude_venice p =
    put (codes "ignore") (array (with_venice (elements (get (codes "ignore") (fields_of p)))))
      (spread_of p)

abbrev pub is_dolphin : Text → Bool
is_dolphin model =
    starts_with model (codes "cognitivecomputations/dolphin-mistral-24b-venice-edition")

-- The model and the provider after the synthetic fast model.
abbrev pub fast_model : Text → Text
fast_model model = if is_glm_fast model then codes "z-ai/glm-5.2" else model

abbrev pub fast_provider : Text → Provider → Provider
fast_provider model p = if is_glm_fast model then object glm_provider else p

-- The provider that the model asks for.
unfoldable pub routed_provider : Text → InEffect → Provider → Provider
routed_provider model e p =
    if contains model (codes "anthropic")
    then object (anthropic_provider model e)
    else if is_dolphin model
    then p
    else object (exclude_venice p)

-- Claude Opus 4.8 with web search, which no endpoint without retention serves.
abbrev pub is_opus48_web : Text → InEffect → Bool
is_opus48_web model e =
    (e.web_plugin || e.web_search_tool) && eq_text model (codes "anthropic/claude-opus-4.8")

abbrev pub reapply_zdr : Bool → Provider → Provider
reapply_zdr zdr p = if zdr then object (put (codes "zdr") (boolean true) (spread_of p)) else p

-- The steps of transformPayload that decide the model and the provider.
unfoldable pub transform_provider : Text → InEffect → Provider → Text × Provider
transform_provider model e p = (
  fast_model model,
  reapply_zdr (is_zdr p && not (is_opus48_web (fast_model model) e))
      (routed_provider (fast_model model) e (fast_provider model p)),
)
