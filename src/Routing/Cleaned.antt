-- ===== src/Routing/Cleaned.antt =====
-- What the strips and the plugin directives leave in a body.
use ppq_enclave_proxy.Prelude.{
  ℕ, ◌≤◌, ◌≡◌, ◌⊎◌, refl, ap, ◌∙◌, subst, Text, codes, eq_text, every, any_of, List, [], ◌∷◌, ◌++◌,
  Option, none, some, Bool, true, false, length, leb, leb→le, suc, arith, inl, inr, Bool-cases, sym,
  ◌≢◌,
}
use ppq_enclave_proxy.Routing.Strips.{
  Slot, missing, falsy, truthy, items, Tool, Plugin, web, Payload, RawAutoRouter, AutoRouter,
  is_model, parse_auto_router, models_of, settings_of, add_text, cost_tiers, all_texts, listed,
  without, is_plugin, is_active_web_plugin, apply_web_plugin_directive, is_paid_web_search_tool,
  tool_choice_targets_web_search, tools_left, drop_plugins, choice_left, strip_tools,
  apply_free_model_strip,
}

any_of-without : {A : Type 0} (p : A → Bool) (xs : List A) → any_of p (without p xs) ≡ false
unfolding without
any_of-without p [] = refl
any_of-without p (x ∷ xs) = elim (Bool-cases (p x)) [
  | inl e ↦ rw e (any_of-without p xs)
  | inr e ↦ rw (e, e) (any_of-without p xs)
]

without-append_last :
    {A : Type 0} (p : A → Bool) (xs : List A) (x : A)
    → p x ≡ true
    → without p (xs ++ x ∷ []) ≡ without p xs
unfolding without
without-append_last p [] x h = rw h refl
without-append_last p (y ∷ xs) x h = elim (Bool-cases (p y)) [
  | inl e ↦ rw e (without-append_last p xs x h)
  | inr e ↦ rw e (ap (λ t. y ∷ t) (without-append_last p xs x h))
]

without-without :
    {A : Type 0} (p : A → Bool) (xs : List A) → without p (without p xs) ≡ without p xs
unfolding without
without-without p [] = refl
without-without p (x ∷ xs) = elim (Bool-cases (p x)) [
  | inl e ↦ rw e (without-without p xs)
  | inr e ↦ rw (e, e) (ap (λ t. x ∷ t) (without-without p xs))
]

any_of-append_last :
    {A : Type 0} (p : A → Bool) (xs : List A) (x : A) → p x ≡ true → any_of p (xs ++ x ∷ []) ≡ true
any_of-append_last p [] x h = ground arith
any_of-append_last p (y ∷ xs) x h = ground (arith, any_of-append_last p xs x h)

web-named : (R : Type 0) → is_plugin {R = R} (codes "web") web ≡ true
unfolding is_plugin
web-named R = refl

web-active : (R : Type 0) → is_active_web_plugin {R = R} web ≡ true
unfolding is_active_web_plugin is_plugin
web-active R = refl

module _ {R : Type 0} where
  listed-tools_left : (ts : List (Tool R)) → listed (tools_left ts) ≡ ts
  listed-tools_left [] = refl
  listed-tools_left (t ∷ ts) = refl

  choice_left-untargeted :
      (kept : List (Tool R)) (choice : Option (Tool R))
      → tool_choice_targets_web_search (choice_left true kept choice) ≡ false
  unfolding tool_choice_targets_web_search
  choice_left-untargeted [] choice = refl
  choice_left-untargeted (t ∷ ts) choice =
      elim (Bool-cases (tool_choice_targets_web_search choice)) [ inl e ↦ rw e | inr e ↦ rw e e ]

  plugins-dropped : (s : Slot (Plugin R)) → (drop_plugins s ≡ missing) ⊎ (drop_plugins s ≡ falsy)
  plugins-dropped missing = inl refl
  plugins-dropped falsy = inr refl
  plugins-dropped truthy = inl refl
  plugins-dropped (items ps) = inl refl

  -- Nothing is chosen that is not there, and what is chosen otherwise is kept.
  abbrev pub KeepsChoice : Payload R → Payload R → Type 0
  KeepsChoice p r =
      (any_of is_paid_web_search_tool (listed p.tools) ≡ false → r.tool_choice ≡ p.tool_choice)
      × (any_of is_paid_web_search_tool (listed p.tools) ≡ true
          → listed r.tools ≡ []
          → r.tool_choice ≡ none)
      × (any_of is_paid_web_search_tool (listed p.tools) ≡ true
          → tool_choice_targets_web_search r.tool_choice ≡ false)
      × (tool_choice_targets_web_search p.tool_choice ≡ false
          → listed r.tools ≢ []
          → r.tool_choice ≡ p.tool_choice)

  choice_left-emptied :
      (kept : List (Tool R)) (choice : Option (Tool R))
      → kept ≡ []
      → choice_left true kept choice ≡ none
  choice_left-emptied [] choice h = refl
  choice_left-emptied (t ∷ ts) choice h = ground arith

  choice_left-kept :
      (b : Bool) (kept : List (Tool R)) (choice : Option (Tool R))
      → tool_choice_targets_web_search choice ≡ false
      → kept ≢ []
      → choice_left b kept choice ≡ choice
  choice_left-kept false kept choice h k = refl
  choice_left-kept true [] choice h k = absurd (k refl)
  choice_left-kept true (t ∷ ts) choice h k = rw h refl

  -- The second body runs no plugin and no paid search, has the other tools of the first in their
  -- order, and chooses none that is not there.
  abbrev pub IsFree : Payload R → Payload R → Type 0
  IsFree p r =
      ((r.plugins ≡ missing) ⊎ (r.plugins ≡ falsy))
      × (any_of is_paid_web_search_tool (listed r.tools) ≡ false)
      × (listed r.tools ≡ without is_paid_web_search_tool (listed p.tools))
      × KeepsChoice p r

  strip_tools-IsFree :
      (p : Payload R) (s : Slot (Tool R))
      → p.tools ≡ s
      → IsFree p (strip_tools (record p { plugins = drop_plugins p.plugins }) s)
  unfolding without
  strip_tools-IsFree p missing e = rw e (
    plugins-dropped p.plugins,
    refl,
    refl,
    ((λ h. refl), (λ h. ground arith), (λ h. ground arith), (λ h k. refl)),
  )
  strip_tools-IsFree p falsy e = rw e (
    plugins-dropped p.plugins,
    refl,
    refl,
    ((λ h. refl), (λ h. ground arith), (λ h. ground arith), (λ h k. refl)),
  )
  strip_tools-IsFree p truthy e = rw e (
    plugins-dropped p.plugins,
    refl,
    refl,
    ((λ h. refl), (λ h. ground arith), (λ h. ground arith), (λ h k. refl)),
  )
  strip_tools-IsFree p (items ts) e =
      let left = without is_paid_web_search_tool ts in
      let kept = listed-tools_left left in
      rw e (
        plugins-dropped p.plugins,
        ap (any_of is_paid_web_search_tool) kept ∙ any_of-without is_paid_web_search_tool ts,
        kept,
        (
          (λ h. rw h refl),
          (λ h k. rw h (choice_left-emptied left p.tool_choice (sym kept ∙ k))),
          (λ h. rw h (choice_left-untargeted left p.tool_choice)),
          (λ h k.
              choice_left-kept (any_of is_paid_web_search_tool ts) left p.tool_choice h
                (λ none_left. k (kept ∙ none_left))),
        ),
      )

  -- After the strip for a free model nothing that costs is left: no plugin and no paid search tool
  -- is, and the other tools are kept in their order. Where a paid search was taken out the choice is
  -- dropped with the last tool, and with the search it names; any other choice is kept.
  pub apply_free_model_strip-IsFree : (p : Payload R) → IsFree p (apply_free_model_strip p)
  unfolding apply_free_model_strip
  apply_free_model_strip-IsFree p = strip_tools-IsFree p p.tools refl

  -- After the directive a web plugin is in effect, and the other plugins are as they were; a second
  -- directive changes nothing.
  pub apply_web_plugin_directive-active :
      (p : Payload R)
      → let r = apply_web_plugin_directive p in
        (any_of is_active_web_plugin (listed r.plugins) ≡ true)
        × (without (is_plugin (codes "web")) (listed r.plugins)
            ≡ without (is_plugin (codes "web")) (listed p.plugins))
        × (apply_web_plugin_directive r ≡ r)
  unfolding apply_web_plugin_directive
  apply_web_plugin_directive-active p =
      let xs = listed p.plugins in
      let is_web : Plugin R → Bool = is_plugin (codes "web") in
      elim (Bool-cases (any_of is_active_web_plugin xs)) [
        | inl e ↦ rw (e, e) (refl, refl, refl)
        | inr e ↦
            let added : any_of is_active_web_plugin (without is_web xs ++ web ∷ []) ≡ true =
              any_of-append_last is_active_web_plugin (without is_web xs) web (web-active R) in
            let others : without is_web (without is_web xs ++ web ∷ []) ≡ without is_web xs =
              without-append_last is_web (without is_web xs) web (web-named R)
              ∙ without-without is_web xs in
            rw (e, added) (refl, others, refl)
      ]

abbrev Holds : {A : Type 0} → (A → Type 0) → Option A → Type 0
Holds P none = Unit
Holds P (some x) = P x

weaken :
    {A : Type 0} (P Q : A → Type 0) (o : Option A) → ((x : A) → P x → Q x) → Holds P o → Holds Q o
weaken P Q none f h = tt
weaken P Q (some x) f h = f x h

-- As many texts as this, all of which pass.
abbrev Passed : (Text → Bool) → ℕ → List Text → Type 0
Passed ok n ts = (length ts ≡ n) × (every ok ts ≡ true)

add_text-Passed :
    (ok : Text → Bool) (t : Text) (b : Bool) (n : ℕ) (r : Option (List Text))
    → ok t ≡ b
    → Holds (Passed ok n) r
    → Holds (Passed ok (suc n)) (add_text t b r)
add_text-Passed ok t true n (some ts) e (l, h) = (omega arith, rw e h)
add_text-Passed ok t true n none e h = tt
add_text-Passed ok t false n r e h = tt

all_texts-Passed :
    (ok : Text → Bool) (vs : List (Option Text)) → Holds (Passed ok (length vs)) (all_texts ok vs)
unfolding all_texts
all_texts-Passed ok [] = (refl, refl)
all_texts-Passed ok (none ∷ vs) = tt
all_texts-Passed ok (some t ∷ vs) =
    add_text-Passed ok t (ok t) (length vs) (all_texts ok vs) refl (all_texts-Passed ok vs)

-- 1 to 100 models, each of them a model id.
abbrev pub AreModels : List Text → Type 0
AreModels ms = (1 ≤ length ms) × (length ms ≤ 100) × (every is_model ms ≡ true)

models_of-AreModels : (s : Slot (Option Text)) → Holds AreModels (models_of s)
models_of-AreModels missing = tt
models_of-AreModels falsy = tt
models_of-AreModels truthy = tt
models_of-AreModels (items []) = tt
models_of-AreModels (items (v ∷ vs)) = elim (Bool-cases (leb (length (v ∷ vs)) 100)) [
  | inl few ↦
      let bound = leb→le (length (v ∷ vs)) 100 few in
      rw few (
        weaken (Passed is_model (length (v ∷ vs))) AreModels (all_texts is_model (v ∷ vs))
          (λ ts (l, h). (omega arith, omega arith, h)) (all_texts-Passed is_model (v ∷ vs)))
  | inr many ↦ rw many tt
]

-- The models, and a known cost tier.
abbrev pub IsSettled : AutoRouter → Type 0
IsSettled s = AreModels s.models × (any_of (λ u. eq_text u s.tier) cost_tiers ≡ true)

settings_of-IsSettled :
    (ms : Option (List Text)) (t : Option Text)
    → Holds AreModels ms
    → Holds IsSettled (settings_of ms t)
settings_of-IsSettled none t h = tt
settings_of-IsSettled (some ms) none h = tt
settings_of-IsSettled (some ms) (some t) h =
    elim (Bool-cases (any_of (λ u. eq_text u t) cost_tiers)) [
      | inl known ↦ rw known (h, known)
      | inr unknown ↦ rw unknown tt
    ]

-- An accepted directive has 1 to 100 models, each of them a model id, and a known cost tier.
pub parse_auto_router-IsSettled :
    (raw : RawAutoRouter) (s : AutoRouter) → parse_auto_router (some raw) ≡ some s → IsSettled s
unfolding parse_auto_router
parse_auto_router-IsSettled raw s e = subst (Holds IsSettled) e (
    settings_of-IsSettled (models_of raw.allowed_models) raw.cost_tier
      (models_of-AreModels raw.allowed_models))
