-- ===== src/UpstreamErrorBody/Stripped.antt =====
-- What a sanitized error body does not name.
use ppq_enclave_proxy.Prelude.{
  inl, inr, Bool-cases, eq_text, eq_text, ◌≡◌, refl, ◌∙◌, ap, codes, Option, none, some, Text,
  Bool-cases,
}
use ppq_enclave_proxy.Json.{
  no_members, member, find, Json, null, boolean, number, text, array, object, find, field, without,
  update, changed, find-without, find-update, find-update_other, Members, member,
}
use ppq_enclave_proxy.UpstreamErrorBody.{
  without_provider, strip_holder, strip_upstream_identity, sanitize_wording_deep, sanitize_members,
}

-- The provider's name in the metadata of a value.
abbrev pub provider_name_of : Option Json → Option Json
unfolding field
provider_name_of v = field (codes "provider_name") (field (codes "metadata") v)

without_provider-field :
    (v : Option Json) → field (codes "provider_name") (changed without_provider v) ≡ none
unfolding field without_provider
without_provider-field none = refl
without_provider-field (some (object ms)) = find-without (codes "provider_name") ms
without_provider-field (some null) = refl
without_provider-field (some (boolean b)) = refl
without_provider-field (some (number n)) = refl
without_provider-field (some (text s)) = refl
without_provider-field (some (array es)) = refl

strip_holder-field :
    (v : Option Json)
    → field (codes "metadata") (changed strip_holder v)
      ≡ changed without_provider (field (codes "metadata") v)
unfolding field strip_holder
strip_holder-field none = refl
strip_holder-field (some (object ms)) = find-update (codes "metadata") without_provider ms
strip_holder-field (some null) = refl
strip_holder-field (some (boolean b)) = refl
strip_holder-field (some (number n)) = refl
strip_holder-field (some (text s)) = refl
strip_holder-field (some (array es)) = refl

-- A value without `user_id` at its top level, and without `metadata.provider_name` in itself and in
-- its `error`.
abbrev pub IsStripped : Json → Type 0
unfolding provider_name_of
IsStripped v =
    (field (codes "user_id") (some v) ≡ none)
    × ((provider_name_of (some v) ≡ none)
        × (provider_name_of (field (codes "error") (some v)) ≡ none))

strip_upstream_identity-IsStripped : (v : Json) → IsStripped (strip_upstream_identity v)
unfolding strip_upstream_identity field IsStripped provider_name_of
strip_upstream_identity-IsStripped (object ms) =
    let er = codes "error" in
    let md = codes "metadata" in
    let x = without (codes "user_id") ms in
    let y = update md without_provider x in
    (
      find-update_other er (codes "user_id") strip_holder y refl
          ∙ find-update_other md (codes "user_id") without_provider x refl
          ∙ find-without (codes "user_id") ms,
      (
        ap (λ (z : Option Json). field (codes "provider_name") z)
              (find-update_other er md strip_holder y refl ∙ find-update md without_provider x)
            ∙ without_provider-field (find md x),
        ap (λ (z : Option Json). field (codes "provider_name") (field md z))
              (find-update er strip_holder y)
            ∙ ap (λ (z : Option Json). field (codes "provider_name") z)
                (strip_holder-field (find er y))
            ∙ without_provider-field (field md (find er y)),
      ),
    )
strip_upstream_identity-IsStripped null = (refl, (refl, refl))
strip_upstream_identity-IsStripped (boolean b) = (refl, (refl, refl))
strip_upstream_identity-IsStripped (number n) = (refl, (refl, refl))
strip_upstream_identity-IsStripped (text s) = (refl, (refl, refl))
strip_upstream_identity-IsStripped (array es) = (refl, (refl, refl))

module _ (wording : Text → Text) where
  find-sanitize :
      (name : Text) (ms : Members)
      → find name (sanitize_members wording ms)
        ≡ changed (sanitize_wording_deep wording) (find name ms)
  unfolding find sanitize_wording_deep
  find-sanitize name no_members = refl
  find-sanitize name (member key v ms) = elim (Bool-cases (eq_text key name)) [
    | inl same ↦ rw same refl
    | inr other ↦ rw other (find-sanitize name ms)
  ]

  field-sanitize :
      (name : Text) (v : Option Json)
      → field name (changed (sanitize_wording_deep wording) v)
        ≡ changed (sanitize_wording_deep wording) (field name v)
  unfolding field sanitize_wording_deep
  field-sanitize name none = refl
  field-sanitize name (some (object ms)) = find-sanitize name ms
  field-sanitize name (some null) = refl
  field-sanitize name (some (boolean b)) = refl
  field-sanitize name (some (number n)) = refl
  field-sanitize name (some (text s)) = refl
  field-sanitize name (some (array es)) = refl

  provider_name_of-sanitize :
      (v : Option Json)
      → provider_name_of v ≡ none
      → provider_name_of (changed (sanitize_wording_deep wording) v) ≡ none
  unfolding provider_name_of
  provider_name_of-sanitize v h =
      rw
        (
          field-sanitize (codes "metadata") v,
          field-sanitize (codes "provider_name") (field (codes "metadata") v),
          h,
        )
        refl

  -- Whatever the rewriting of wording does, a sanitized JSON body has no `user_id` at its top level,
  -- and no `metadata.provider_name`, at its top level or in its `error`.
  pub sanitize-IsStripped :
      (v : Json) → IsStripped (sanitize_wording_deep wording (strip_upstream_identity v))
  unfolding IsStripped
  sanitize-IsStripped v =
      let w = strip_upstream_identity v in
      let s = strip_upstream_identity-IsStripped v in
      (
        field-sanitize (codes "user_id") (some w)
            ∙ ap (λ (x : Option Json). changed (sanitize_wording_deep wording) x) s.0,
        (
          provider_name_of-sanitize (some w) s.1.0,
          ap (λ (x : Option Json). provider_name_of x) (field-sanitize (codes "error") (some w))
              ∙ provider_name_of-sanitize (field (codes "error") (some w)) s.1.1,
        ),
      )
