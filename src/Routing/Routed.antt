-- ===== src/Routing/Routed.antt =====
-- What the `provider` object of a transformed body asks for.
use ppq_enclave_proxy.Prelude.{
  ◌≡◌, ◌⊎◌, inl, inr, refl, ap, ◌∙◌, Text, codes, eq_text, contains, any_of, List, [], ◌∷◌, ◌++◌,
  Option, none, some, Bool, true, false, not, ◌&&◌, ◌||◌, arith, Bool-cases,
}
use ppq_enclave_proxy.JsMap.{get}
use ppq_enclave_proxy.JsMap.Laws.{get-put}
use ppq_enclave_proxy.Routing.Strips.{is_named}
use ppq_enclave_proxy.Routing.Provider.{
  Item, boolean, array, Fields, Provider, object, fields_of, is_zdr,
}
use ppq_enclave_proxy.Routing.Transform.{
  InEffect, anthropic_provider, spread_of, elements, is_venice, with_venice, exclude_venice,
  is_dolphin, fast_model, fast_provider, routed_provider, is_opus48_web, reapply_zdr,
  transform_provider,
}

-- The providers that are not to be used.
abbrev ignored : Fields → List (Option Text)
ignored fields = elements (get (codes "ignore") fields)

abbrev pub is_ignored : Text → Fields → Bool
is_ignored t fields = any_of (λ (o : Option Text). is_named o t) (ignored fields)

-- Venice is not to be used, nothing that was not to be used is, and the other fields are as they
-- were, but for zero data retention.
abbrev pub AvoidsVenice : Provider → Provider → Type 0
AvoidsVenice p r =
    (is_ignored (codes "venice") (fields_of r) ≡ true)
    × ((t : Text) → is_ignored t (fields_of p) ≡ true → is_ignored t (fields_of r) ≡ true)
    × ((k : Text)
        → eq_text (codes "ignore") k ≡ false
        → eq_text (codes "zdr") k ≡ false
        → get k (fields_of r) ≡ get k (spread_of p))

-- Bedrock is not to be used, or Anthropic alone is.
abbrev pub AvoidsBedrock : Provider → Type 0
AvoidsBedrock r =
    (is_ignored (codes "amazon-bedrock") (fields_of r) ≡ true)
    ⊎ ((get (codes "order") (fields_of r) ≡ some (array (some (codes "anthropic") ∷ [])))
        × (get (codes "allow_fallbacks") (fields_of r) ≡ some (boolean false)))

-- Bedrock alone, but for its endpoint that the enclave's key does not cover.
abbrev pub IsBedrockOnly : Provider → Type 0
IsBedrockOnly r =
    (get (codes "order") (fields_of r) ≡ some (array (some (codes "amazon-bedrock") ∷ [])))
    × (is_ignored (codes "amazon-bedrock/claude-on-aws") (fields_of r) ≡ true)
    × (get (codes "allow_fallbacks") (fields_of r) ≡ some (boolean false))

-- What the provider of a body asks for, for a model, what is in effect and the provider before.
abbrev pub IsRouted : Text → InEffect → Provider → Provider → Type 0
IsRouted model e p r =
    (is_zdr p ≡ true → is_opus48_web (fast_model model) e ≡ false → is_zdr r ≡ true)
    × (contains (fast_model model) (codes "anthropic") ≡ true
        → (e.plugin || e.web_search_tool) ≡ true
        → AvoidsBedrock r)
    × (contains (fast_model model) (codes "anthropic") ≡ true → AvoidsBedrock r ⊎ IsBedrockOnly r)
    × (contains (fast_model model) (codes "anthropic") ≡ false
        → is_dolphin (fast_model model) ≡ false
        → AvoidsVenice (fast_provider model p) r)

reapply_zdr-is_zdr : (p : Provider) → is_zdr (reapply_zdr true p) ≡ true
reapply_zdr-is_zdr p = rw (get-put (codes "zdr") (codes "zdr") (boolean true) (spread_of p)) refl

get-reapply_zdr :
    (b : Bool) (fields : Fields) (k : Text)
    → eq_text (codes "zdr") k ≡ false
    → get k (fields_of (reapply_zdr b (object fields))) ≡ get k fields
get-reapply_zdr true fields k h = get-put (codes "zdr") k (boolean true) fields ∙ rw h refl
get-reapply_zdr false fields k h = refl

any_of-append_left :
    {A : Type 0} (f : A → Bool) (xs ys : List A) → any_of f xs ≡ true → any_of f (xs ++ ys) ≡ true
any_of-append_left f [] ys h = ground arith
any_of-append_left f (x ∷ xs) ys h = ground (arith, any_of-append_left f xs ys)

any_of-append_right :
    {A : Type 0} (f : A → Bool) (xs ys : List A) → any_of f ys ≡ true → any_of f (xs ++ ys) ≡ true
any_of-append_right f [] ys h = h
any_of-append_right f (x ∷ xs) ys h = ground (arith, any_of-append_right f xs ys h)

with_venice-keeps :
    (f : Option Text → Bool) (xs : List (Option Text))
    → any_of f xs ≡ true
    → any_of f (with_venice xs) ≡ true
with_venice-keeps f xs h = elim (Bool-cases (any_of is_venice xs)) [
  | inl e ↦ rw e h
  | inr e ↦ rw e (any_of-append_left f xs _ h)
]

any_of-same :
    {A : Type 0} (f g : A → Bool) (xs : List A) → ((x : A) → f x ≡ g x) → any_of f xs ≡ any_of g xs
any_of-same f g [] h = refl
any_of-same f g (x ∷ xs) h = rw (h x, any_of-same f g xs h) refl

venice_named : (o : Option Text) → is_named o (codes "venice") ≡ is_venice o
venice_named none = refl
venice_named (some t) = refl

with_venice-named :
    (xs : List (Option Text))
    → any_of (λ (o : Option Text). is_named o (codes "venice")) (with_venice xs) ≡ true
with_venice-named xs =
    any_of-same _ is_venice (with_venice xs) venice_named
    ∙ elim (Bool-cases (any_of is_venice xs)) [
      | inl e ↦ rw (e, e) refl
      | inr e ↦ rw e (any_of-append_right is_venice xs (some (codes "venice") ∷ []) refl)
    ]

ignored-exclude_venice :
    (b : Bool) (p : Provider)
    → ignored (fields_of (reapply_zdr b (object (exclude_venice p))))
      ≡ with_venice (ignored (fields_of p))
unfolding exclude_venice
ignored-exclude_venice b p =
    ap elements (get-reapply_zdr b (exclude_venice p) (codes "ignore") refl)
    ∙ ap elements (get-put (codes "ignore") (codes "ignore") _ (spread_of p))

get-exclude_venice :
    (k : Text) (p : Provider)
    → eq_text (codes "ignore") k ≡ false
    → get k (exclude_venice p) ≡ get k (spread_of p)
unfolding exclude_venice
get-exclude_venice k p h = get-put (codes "ignore") k _ (spread_of p) ∙ rw h refl

reapply_zdr-AvoidsVenice :
    (b : Bool) (p : Provider) → AvoidsVenice p (reapply_zdr b (object (exclude_venice p)))
reapply_zdr-AvoidsVenice b p =
    let left = ignored-exclude_venice b p in
    (
      ap (any_of (λ (o : Option Text). is_named o (codes "venice"))) left
          ∙ with_venice-named (ignored (fields_of p)),
      (λ t h.
          ap (any_of (λ (o : Option Text). is_named o t)) left
          ∙ with_venice-keeps (λ (o : Option Text). is_named o t) (ignored (fields_of p)) h),
      (λ k i z. get-reapply_zdr b (exclude_venice p) k z ∙ get-exclude_venice k p i),
    )

reapply_zdr-AvoidsBedrock :
    (b : Bool) (fields : Fields)
    → AvoidsBedrock (object fields)
    → AvoidsBedrock (reapply_zdr b (object fields))
reapply_zdr-AvoidsBedrock b fields h =
    let same = get-reapply_zdr b fields in
    elim h [
      | inl i ↦ inl (
          ap
            (λ (x : Option Item).
              any_of (λ (o : Option Text). is_named o (codes "amazon-bedrock")) (elements x))
            (same (codes "ignore") refl)
          ∙ i)
      | inr (o, f) ↦ inr (same (codes "order") refl ∙ o, same (codes "allow_fallbacks") refl ∙ f)
    ]

anthropic_provider-AvoidsBedrock :
    (model : Text) (e : InEffect)
    → (e.plugin || e.web_search_tool) ≡ true
    → AvoidsBedrock (object (anthropic_provider model e))
unfolding anthropic_provider get
anthropic_provider-AvoidsBedrock model e h =
    let unavailable : Bool = eq_text model (codes "anthropic/claude-opus-5") in
    elim (Bool-cases (contains model (codes "fable") || (e.web_plugin && unavailable))) [
      | inl alone ↦ rw alone (inr (refl, refl))
      | inr either ↦
          let excluded : (e.plugin || e.web_search_tool || unavailable) ≡ true = ground arith in
          rw (either, excluded) (inl refl)
    ]

reapply_zdr-IsBedrockOnly :
    (b : Bool) (fields : Fields)
    → IsBedrockOnly (object fields)
    → IsBedrockOnly (reapply_zdr b (object fields))
reapply_zdr-IsBedrockOnly b fields (o, i, f) =
    let same = get-reapply_zdr b fields in
    (
      same (codes "order") refl ∙ o,
      ap
            (λ (x : Option Item).
              any_of (λ (u : Option Text). is_named u (codes "amazon-bedrock/claude-on-aws"))
                (elements x))
            (same (codes "ignore") refl)
          ∙ i,
      same (codes "allow_fallbacks") refl ∙ f,
    )

anthropic_provider-either :
    (model : Text) (e : InEffect)
    → AvoidsBedrock (object (anthropic_provider model e))
      ⊎ IsBedrockOnly (object (anthropic_provider model e))
unfolding anthropic_provider get
anthropic_provider-either model e =
    let unavailable : Bool = eq_text model (codes "anthropic/claude-opus-5") in
    elim (Bool-cases (contains model (codes "fable") || (e.web_plugin && unavailable))) [
      | inl alone ↦ rw alone (inl (inr (refl, refl)))
      | inr other ↦ elim (Bool-cases (e.plugin || e.web_search_tool || unavailable)) [
        | inl excluded ↦ rw (other, excluded) (inl (inl refl))
        | inr pinned ↦ rw (other, pinned) (inr (refl, refl, refl))
      ]
    ]

reapply_zdr-either :
    (b : Bool) (fields : Fields)
    → AvoidsBedrock (object fields) ⊎ IsBedrockOnly (object fields)
    → AvoidsBedrock (reapply_zdr b (object fields)) ⊎ IsBedrockOnly (reapply_zdr b (object fields))
reapply_zdr-either b fields h = elim h [
  | inl a ↦ inl (reapply_zdr-AvoidsBedrock b fields a)
  | inr o ↦ inr (reapply_zdr-IsBedrockOnly b fields o)
]

-- A caller's zero data retention is asked for whatever the model and the routing, but for Claude
-- Opus 4.8 with web search. For an Anthropic model, Bedrock is excluded, or Anthropic alone is asked
-- for, or, where no plugin and no web search tool is in effect, Bedrock alone without its endpoint
-- claude-on-aws. For any other model but Dolphin, Venice is excluded with all that was excluded
-- already, and every other field but zero data retention is kept; the fast model's provider stands
-- for the caller's.
pub transform_provider-IsRouted :
    (model : Text) (e : InEffect) (p : Provider)
    → IsRouted model e p (transform_provider model e p).1
unfolding transform_provider routed_provider
transform_provider-IsRouted model e p =
    let zdr : Bool = is_zdr p && not (is_opus48_web (fast_model model) e) in
    (
      (λ z o.
          rw (z, o)
            (reapply_zdr-is_zdr (routed_provider (fast_model model) e (fast_provider model p)))),
      (λ a u. rw a (
          reapply_zdr-AvoidsBedrock zdr (anthropic_provider (fast_model model) e)
            (anthropic_provider-AvoidsBedrock (fast_model model) e u))),
      (λ a. rw a (
          reapply_zdr-either zdr (anthropic_provider (fast_model model) e)
            (anthropic_provider-either (fast_model model) e))),
      (λ a d. rw (a, d) (reapply_zdr-AvoidsVenice zdr (fast_provider model p))),
    )
