-- ===== src/DirectOnly/Names.antt =====
-- What the answer about a direct-only model does not depend on: the names of the providers, and a
-- field that does not look like a field name.
use ppq_enclave_proxy.Prelude.{
  ◌≡◌, ◌≢◌, ◌⊎◌, refl, sym, ap, ◌∙◌, Text, codes, eq_text, eq_text_iff, ne_of_eq_text, map, List,
  [], ◌∷◌, Option, none, some, Bool, true, false, arith, if◌then◌else◌, Bool-cases, inl, inr,
}
use ppq_enclave_proxy.JsMap.{get}
use ppq_enclave_proxy.DirectOnly.{
  Namespace, direct_only_namespace_for, is_declared_provider, Target, listed, declared,
  direct_only_for, echoed, is_field_name, Skip, Failure, Input, find_failure, find_skip,
  skipped_refusal, refusal_of, classify_direct_only_refusal, unsupported_messages, or_declared,
  worded, unsupported, unavailable, not_found, is_unavailable_reason,
}

-- Every name of a provider is replaced.
abbrev rename_failure : (Text → Text) → Failure → Failure
rename_failure f x = record x { provider = f x.provider }

abbrev rename_skip : (Text → Text) → Skip → Skip
rename_skip f x = record x { provider = f x.provider }

abbrev pub rename_providers : (Text → Text) → Input → Input
rename_providers f i = record i {
  provider = f i.provider;
  skipped = map (rename_skip f) i.skipped;
  failed = map (rename_failure f) i.failed;
}

-- Different names stay different.
abbrev pub Keeps : (Text → Text) → Type 0
Keeps f = (a b : Text) → f a ≡ f b → a ≡ b

eq_text-Keeps : (f : Text → Text) (a b : Text) → Keeps f → eq_text (f a) (f b) ≡ eq_text a b
eq_text-Keeps f a b k = elim (Bool-cases (eq_text a b)) [
  | inl e ↦
      let same : f a ≡ f b = ap f ((eq_text_iff a b).0 e) in
      (eq_text_iff (f a) (f b)).1 same ∙ sym e
  | inr e ↦ elim (Bool-cases (eq_text (f a) (f b))) [
    | inl s ↦ absurd (ne_of_eq_text a b e (k a b ((eq_text_iff (f a) (f b)).0 s)))
    | inr s ↦ s ∙ sym e
  ]
]

abbrev over : {A B : Type 0} → (A → B) → Option A → Option B
over f none = none
over f (some a) = some (f a)

over_if :
    {A B : Type 0} (f : A → B) (b : Bool) (x y : Option A)
    → over f (if b then x else y) ≡ (if b then over f x else over f y)
over_if f true x y = refl
over_if f false x y = refl

find_failure-rename :
    (f : Text → Text) (p : Text) (xs : List Failure)
    → Keeps f
    → find_failure (f p) (map (rename_failure f) xs) ≡ over (rename_failure f) (find_failure p xs)
unfolding find_failure
find_failure-rename f p [] k = refl
find_failure-rename f p (x ∷ xs) k =
    rw (eq_text-Keeps f x.provider p k, find_failure-rename f p xs k)
      (sym (over_if (rename_failure f) (eq_text x.provider p) (some x) (find_failure p xs)))

find_skip-rename :
    (f : Text → Text) (p : Text) (xs : List Skip)
    → Keeps f
    → find_skip (f p) (map (rename_skip f) xs) ≡ over (rename_skip f) (find_skip p xs)
unfolding find_skip
find_skip-rename f p [] k = refl
find_skip-rename f p (x ∷ xs) k =
    rw (eq_text-Keeps f x.provider p k, find_skip-rename f p xs k)
      (sym (over_if (rename_skip f) (eq_text x.provider p) (some x) (find_skip p xs)))

skipped_refusal-rename :
    (f : Text → Text) (m : Text) (images : Bool) (s : Option Skip)
    → skipped_refusal m images (over (rename_skip f) s) ≡ skipped_refusal m images s
unfolding skipped_refusal
skipped_refusal-rename f m images none = refl
skipped_refusal-rename f m images (some s) = refl

refusal_of-rename :
    (f : Text → Text) (i : Input) (x : Option Failure)
    → Keeps f
    → refusal_of (rename_providers f i) (over (rename_failure f) x) ≡ refusal_of i x
refusal_of-rename f i (some x) k = refl
refusal_of-rename f i none k =
    ap (skipped_refusal i.model i.supports_images) (find_skip-rename f i.provider i.skipped k)
    ∙ skipped_refusal-rename f i.model i.supports_images (find_skip i.provider i.skipped)

-- No provider is named to the caller: the answer is the same whatever the providers are called, as
-- long as different ones have different names.
pub classify-rename :
    (f : Text → Text) (i : Input)
    → Keeps f
    → classify_direct_only_refusal (rename_providers f i) ≡ classify_direct_only_refusal i
unfolding classify_direct_only_refusal
classify-rename f i k =
    ap (refusal_of (rename_providers f i)) (find_failure-rename f i.provider i.failed k)
    ∙ refusal_of-rename f i (find_failure i.provider i.failed) k

-- Fields that do not look like field names are left out.
abbrev clean_field : Option Text → Option Text
clean_field none = none
clean_field (some f) = if is_field_name f then some f else none

abbrev clean_skip : Skip → Skip
clean_skip s = record s { field = clean_field s.field }

abbrev pub clean_fields : Input → Input
clean_fields i = record i { skipped = map clean_skip i.skipped }

echoed-clean_field : (field : Option Text) → echoed (clean_field field) ≡ echoed field
unfolding echoed
echoed-clean_field none = refl
echoed-clean_field (some f) = elim (Bool-cases (is_field_name f)) [
  | inl e ↦ rw (e, e)
  | inr e ↦ rw e
]

find_skip-clean :
    (p : Text) (xs : List Skip) → find_skip p (map clean_skip xs) ≡ over clean_skip (find_skip p xs)
unfolding find_skip
find_skip-clean p [] = refl
find_skip-clean p (x ∷ xs) =
    rw (find_skip-clean p xs)
      (sym (over_if clean_skip (eq_text x.provider p) (some x) (find_skip p xs)))

worded-clean :
    (m : Text) (field : Option Text) (images : Bool)
    (message : Option (Text → Option Text → Bool → Text))
    → worded m (clean_field field) images message ≡ worded m field images message
worded-clean m field images none = refl
worded-clean m field images (some message) =
    ap (λ x. unsupported (message m x images)) (echoed-clean_field field)

skipped_refusal-clean :
    (m : Text) (images : Bool) (s : Option Skip)
    → skipped_refusal m images (over clean_skip s) ≡ skipped_refusal m images s
unfolding skipped_refusal
skipped_refusal-clean m images none = refl
skipped_refusal-clean m images (some s) =
    ap
      (λ w.
        if is_unavailable_reason s.reason
        then unavailable m
        else if eq_text s.reason (codes "model_not_in_catalog")
        then not_found m
        else w)
      (worded-clean m s.field images (get s.reason unsupported_messages))

clean_refusal : (i : Input) (x : Option Failure) → refusal_of (clean_fields i) x ≡ refusal_of i x
clean_refusal i (some x) = refl
clean_refusal i none =
    ap (skipped_refusal i.model i.supports_images) (find_skip-clean i.provider i.skipped)
    ∙ skipped_refusal-clean i.model i.supports_images (find_skip i.provider i.skipped)

-- A field of a request is echoed only where it looks like a field name: with every other field left
-- out the answer is the same.
pub classify-clean :
    (i : Input) → classify_direct_only_refusal (clean_fields i) ≡ classify_direct_only_refusal i
unfolding classify_direct_only_refusal
classify-clean i = clean_refusal i (find_failure i.provider i.failed)

-- The model and the declaration name this target.
abbrev pub IsTarget : Option Text → Option Text → Target → Type 0
IsTarget model provider (listed n) = direct_only_namespace_for model ≡ some n
IsTarget model provider (declared p) =
    (direct_only_namespace_for model ≡ none)
    × (provider ≡ some p)
    × (is_declared_provider p ≡ true)
    × (p ≢ codes "openrouter")

-- Without a target the model is in no namespace, and no usable provider is declared.
abbrev pub IsTargeted : Option Text → Option Text → Option Target → Type 0
IsTargeted model provider none =
    (direct_only_namespace_for model ≡ none)
    × ((p : Text) → provider ≡ some p → (is_declared_provider p ≡ false) ⊎ (p ≡ codes "openrouter"))
IsTargeted model provider (some t) = IsTarget model provider t

targeted :
    (namespace : Option Namespace) (model provider : Option Text)
    → direct_only_namespace_for model ≡ namespace
    → IsTargeted model provider (or_declared namespace provider)
targeted (some n) model provider e = e
targeted none model none e = (e, λ p h. ground arith)
targeted none model (some p) e = elim (Bool-cases (is_declared_provider p)) [
  | inl d ↦ elim (Bool-cases (eq_text p (codes "openrouter"))) [
    | inl o ↦
        rw (d, o)
          (
            e,
            λ q h.
                let same : p ≡ q = cc in inr (sym same ∙ (eq_text_iff p (codes "openrouter")).0 o),
          )
    | inr o ↦ rw (d, o) (e, refl, d, ne_of_eq_text p (codes "openrouter") o)
  ]
  | inr d ↦ rw d (e, λ q h. let same : p ≡ q = cc in inl (ap is_declared_provider (sym same) ∙ d))
]

-- A model of a listed namespace is direct-only whatever is declared; any other model only if
-- a plain provider name other than OpenRouter's is declared, and then of that provider.
pub direct_only_for-IsTargeted :
    (model provider : Option Text) → IsTargeted model provider (direct_only_for model provider)
unfolding direct_only_for
direct_only_for-IsTargeted model provider =
    targeted (direct_only_namespace_for model) model provider refl
