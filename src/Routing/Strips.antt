-- ===== src/Routing/Strips.antt =====
-- The plugins and tools of a body, and the directives on them, of enclave/src/routing.mjs. What else
-- a plugin or a tool holds is kept as it is, in a type `R`.
use ppq_enclave_proxy.Prelude.{
  ℕ, Text, codes, eq_text, starts_with, is_digit, is_lower, is_upper, every, any_of, List, [], ◌∷◌,
  ◌++◌, Option, none, some, Bool, true, false, not, ◌&&◌, ◌||◌, length, leb, ◌==◌, if◌then◌else◌,
}

-- A field of the body that should hold an array.
pub data Slot (A : Type 0) : Type 0 where
  missing : Slot A
  falsy : Slot A
  truthy : Slot A
  items : List A → Slot A

abbrev pub is_named : Option Text → Text → Bool
is_named none t = false
is_named (some s) t = eq_text s t

abbrev starts_named : Option Text → Text → Bool
starts_named none t = false
starts_named (some s) t = starts_with s t

-- A tool, or a `tool_choice`: its type, its function's name and its name, where they are text.
pub record Tool (R : Type 0) : Type 0 where
  pub kind : Option Text
  pub function_name : Option Text
  pub name : Option Text
  pub rest : R

pub data Plugin (R : Type 0) : Type 0 where
  sent : (id : Option Text) (disabled : Bool) (rest : R) → Plugin R
  web : Plugin R
  auto_router : (allowed_models : List Text) (cost_tier : Text) → Plugin R

pub record Payload (R : Type 0) : Type 0 where
  pub plugins : Slot (Plugin R)
  pub tools : Slot (Tool R)
  pub tool_choice : Option (Tool R)

-- What hp answers as `auto_router`, with the elements that are text.
pub record RawAutoRouter : Type 0 where
  pub allowed_models : Slot (Option Text)
  pub cost_tier : Option Text

pub record AutoRouter : Type 0 where
  pub models : List Text
  pub tier : Text

abbrev pub cost_tiers : List Text
cost_tiers = codes "low" ∷ codes "medium" ∷ codes "high" ∷ codes "xhigh" ∷ codes "max" ∷ []

abbrev max_allowed_models : ℕ
max_allowed_models = 100

abbrev is_model_unit : ℕ → Bool
is_model_unit c =
    is_lower c
    || is_upper c
    || is_digit c
    || c == b'_'
    || c == b'.'
    || c == b':'
    || c == b'/'
    || c == b'*'
    || c == b'-'

-- MODEL_PATTERN
unfoldable pub is_model : Text → Bool
is_model [] = false
is_model (c ∷ s) =
    (is_lower c || is_upper c || is_digit c || c == b'*')
    && leb (length s) 127
    && every is_model_unit s

abbrev pub add_text : Text → Bool → Option (List Text) → Option (List Text)
add_text t true (some ts) = some (t ∷ ts)
add_text t true none = none
add_text t false ts = none

-- The texts of an array that all pass a test; `none` where one does not.
unfoldable pub all_texts : (Text → Bool) → List (Option Text) → Option (List Text)
all_texts ok [] = some []
all_texts ok (none ∷ vs) = none
all_texts ok (some t ∷ vs) = add_text t (ok t) (all_texts ok vs)

abbrev pub settings_of : Option (List Text) → Option Text → Option AutoRouter
settings_of (some ms) (some t) =
    if any_of (λ u. eq_text u t) cost_tiers then some (record { models = ms; tier = t }) else none
settings_of (some ms) none = none
settings_of none t = none

abbrev pub models_of : Slot (Option Text) → Option (List Text)
models_of (items (v ∷ vs)) =
    if leb (length (v ∷ vs)) max_allowed_models then all_texts is_model (v ∷ vs) else none
models_of (items []) = none
models_of missing = none
models_of falsy = none
models_of truthy = none

-- parseAutoRouter; `none` where the directive is no object.
unfoldable pub parse_auto_router : Option RawAutoRouter → Option AutoRouter
parse_auto_router none = none
parse_auto_router (some r) = settings_of (models_of r.allowed_models) r.cost_tier

abbrev pub listed : {A : Type 0} → Slot A → List A
listed (items xs) = xs
listed missing = []
listed falsy = []
listed truthy = []

-- `filter`, of what fails the test.
unfoldable pub without : {A : Type 0} → (A → Bool) → List A → List A
without p [] = []
without p (x ∷ xs) = if p x then without p xs else x ∷ without p xs

module _ {R : Type 0} where
  abbrev pub plugin_id : Plugin R → Option Text
  plugin_id (sent id disabled rest) = id
  plugin_id web = some (codes "web")
  plugin_id (auto_router ms t) = some (codes "auto-router")

  abbrev pub is_disabled : Plugin R → Bool
  is_disabled (sent id disabled rest) = disabled
  is_disabled web = false
  is_disabled (auto_router ms t) = false

  unfoldable pub is_plugin : Text → Plugin R → Bool
  is_plugin name p = is_named (plugin_id p) name

  unfoldable pub is_active_web_plugin : Plugin R → Bool
  unfolding is_plugin
  is_active_web_plugin p = is_plugin (codes "web") p && not (is_disabled p)

  -- applyAutoRouterConfig; it leaves `plugins` an array.
  unfoldable pub apply_auto_router_config : Option AutoRouter → Payload R → Payload R
  apply_auto_router_config none p = p
  apply_auto_router_config (some s) p =
      if any_of (is_plugin (codes "auto-router")) (listed p.plugins)
      then record p { plugins = items (listed p.plugins) }
      else record p { plugins = items (listed p.plugins ++ auto_router s.models s.tier ∷ []) }

  -- applyWebPluginDirective.
  unfoldable pub apply_web_plugin_directive : Payload R → Payload R
  apply_web_plugin_directive p =
      if any_of is_active_web_plugin (listed p.plugins)
      then record p { plugins = items (listed p.plugins) }
      else record p {
        plugins = items (without (is_plugin (codes "web")) (listed p.plugins) ++ web ∷ []);
      }

  abbrev strip_listed : Payload R → Slot (Tool R) → Payload R
  strip_listed p (items (t ∷ ts)) = record p { tools = missing; tool_choice = none }
  strip_listed p (items []) = p
  strip_listed p missing = p
  strip_listed p falsy = p
  strip_listed p truthy = p

  -- applyToolStrip.
  unfoldable pub apply_tool_strip : Payload R → Payload R
  apply_tool_strip p = strip_listed p p.tools

  -- isPaidWebSearchTool.
  unfoldable pub is_paid_web_search_tool : Tool R → Bool
  is_paid_web_search_tool t =
      is_named t.kind (codes "openrouter:web_search") || starts_named t.kind (codes "web_search")

  -- toolChoiceTargetsWebSearch.
  unfoldable pub tool_choice_targets_web_search : Option (Tool R) → Bool
  tool_choice_targets_web_search none = false
  tool_choice_targets_web_search (some c) =
      is_paid_web_search_tool c
      || is_named c.function_name (codes "openrouter:web_search")
      || (is_named c.kind (codes "tool") && is_named c.name (codes "web_search"))

  -- `if (payload.plugins) delete payload.plugins`
  abbrev pub drop_plugins : Slot (Plugin R) → Slot (Plugin R)
  drop_plugins falsy = falsy
  drop_plugins missing = missing
  drop_plugins truthy = missing
  drop_plugins (items ps) = missing

  abbrev pub tools_left : List (Tool R) → Slot (Tool R)
  tools_left [] = missing
  tools_left (t ∷ ts) = items (t ∷ ts)

  -- The choice is dropped with the tool it names, and with the last tool.
  abbrev pub choice_left : Bool → List (Tool R) → Option (Tool R) → Option (Tool R)
  choice_left false kept choice = choice
  choice_left true [] choice = none
  choice_left true (t ∷ kept) choice =
      if tool_choice_targets_web_search choice then none else choice

  abbrev pub strip_tools : Payload R → Slot (Tool R) → Payload R
  strip_tools p missing = p
  strip_tools p falsy = p
  strip_tools p truthy = p
  strip_tools p (items ts) =
      let kept = without is_paid_web_search_tool ts in
      record p {
        tools = tools_left kept;
        tool_choice = choice_left (any_of is_paid_web_search_tool ts) kept p.tool_choice;
      }

  -- applyFreeModelStrip.
  unfoldable pub apply_free_model_strip : Payload R → Payload R
  apply_free_model_strip p = strip_tools (record p { plugins = drop_plugins p.plugins }) p.tools
