-- ===== src/DirectOnly/Status.antt =====
-- What the status of an answer about a direct-only model tells the caller.
use ppq_enclave_proxy.Prelude.{
  ℕ, ◌≡◌, ◌⊎◌, ◌↔◌, refl, sym, ap, ◌∙◌, subst, Text, codes, eq_text, Option, none, some, Bool, true,
  false, arith, ◌||◌, ◌==◌, if◌then◌else◌, inl, inr, if_both,
}
use ppq_enclave_proxy.DirectOnly.{
  Refusal, Failure, Skip, Input, find_failure, find_skip, failed_refusal, skipped_refusal,
  refusal_of, classify_direct_only_refusal, unavailable, upstream_error, not_found,
  is_unavailable_reason, worded,
}

status_if :
    (b : Bool) (x y : Refusal) → (if b then x else y).status ≡ (if b then x.status else y.status)
status_if true x y = refl
status_if false x y = refl

abbrev failed_status : ℕ → ℕ
failed_status s = if s == 429 then 429 else if s == 400 || s == 404 || s == 422 then 502 else 503

status-failed : (m : Text) (s : ℕ) → (failed_refusal m (some s)).status ≡ failed_status s
unfolding failed_refusal
status-failed m s =
    status_if (s == 429) _ _
    ∙ ap (λ n. if s == 429 then 429 else n)
        (status_if (s == 400 || s == 404 || s == 422) (upstream_error m) (unavailable m))

status-worded :
    (m : Text) (field : Option Text) (images : Bool)
    (message : Option (Text → Option Text → Bool → Text))
    → (worded m field images message).status ≡ 400
status-worded m field images none = refl
status-worded m field images (some message) = refl

-- The statuses of an answer where no attempt was made.
abbrev IsUntried : ℕ → Type 0
IsUntried n = (n ≡ 400) ⊎ ((n ≡ 404) ⊎ (n ≡ 503))

status-skipped :
    (m : Text) (images : Bool) (s : Option Skip) → IsUntried (skipped_refusal m images s).status
unfolding skipped_refusal
status-skipped m images none = inr (inl refl)
status-skipped m images (some s) =
    if_both (λ r. IsUntried r.status) (is_unavailable_reason s.reason) (unavailable m) _
      (inr (inr refl))
      (if_both (λ r. IsUntried r.status) (eq_text s.reason (codes "model_not_in_catalog"))
        (not_found m) _ (inr (inl refl)) (inl (status-worded m s.field images _)))

-- The provider's first failure has one of these statuses.
abbrev pub FailedWith : (ℕ → Type 0) → Option Failure → Type 0
FailedWith P none = ⊥
FailedWith P (some f) = (s : ℕ) × (f.status ≡ some s) × P s

abbrev pub Tells : ℕ → Option Failure → Type 0
Tells status first =
    ((status ≡ 429) ↔ FailedWith (λ s. s ≡ 429) first)
    × ((status ≡ 502) ↔ FailedWith (λ s. (s ≡ 400) ⊎ ((s ≡ 404) ⊎ (s ≡ 422))) first)
    × ((status ≡ 400) ⊎ (status ≡ 404) → first ≡ none)

untried : (n : ℕ) → IsUntried n → Tells n none
untried n u =
    (((λ h. ground arith), (λ h. absurd h)), ((λ h. ground arith), (λ h. absurd h)), (λ h. refl))

tried_with : (f : Failure) (s : ℕ) → f.status ≡ some s → Tells (failed_status s) (some f)
tried_with f s e = (
  ((λ h. (s, e, ground arith)), (λ (t, g, h). let same : s ≡ t = cc in ground arith)),
  ((λ h. (s, e, ground arith)), (λ (t, g, h). let same : s ≡ t = cc in ground arith)),
  (λ h. ground arith),
)

tried :
    (m : Text) (f : Failure) (st : Option ℕ)
    → f.status ≡ st
    → Tells (failed_refusal m st).status (some f)
unfolding failed_refusal
tried m f (some s) e = subst (λ n. Tells n (some f)) (sym (status-failed m s)) (tried_with f s e)
tried m f none e = (
  ((λ h. absurd (omega arith)), (λ (t, g, h). cc)),
  ((λ h. absurd (omega arith)), (λ (t, g, h). cc)),
  (λ h. elim h [ inl x ↦ absurd (omega arith) | inr x ↦ absurd (omega arith) ]),
)

tells : (i : Input) (first : Option Failure) → Tells (refusal_of i first).status first
tells i none = untried _ (status-skipped i.model i.supports_images (find_skip i.provider i.skipped))
tells i (some f) = tried i.model f f.status refl

-- A 429 is answered exactly when the provider's first failure was a 429, a 502 exactly when it was
-- a refusal of our request (400, 404 or 422), and what blames the request or the model (400, 404)
-- only when the provider was not tried.
pub classify-status :
    (i : Input) → Tells (classify_direct_only_refusal i).status (find_failure i.provider i.failed)
unfolding classify_direct_only_refusal
classify-status i = tells i (find_failure i.provider i.failed)
