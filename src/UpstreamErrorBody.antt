-- ===== src/UpstreamErrorBody.antt =====
-- enclave/src/upstreamErrorBody.mjs: what a client is given of an upstream's error body. The rewriting
-- of wording, which is five regular expressions, is a parameter, as are `JSON.parse`, `JSON.stringify`
-- and the decoding of bytes; `none` stands where one of the latter throws.
pub mod Stripped
pub mod Streamed
pub mod Tests
use ppq_enclave_proxy.Prelude.{
  ℕ, ◌+◌, Text, codes, List, [], ◌∷◌, ◌++◌, Option, none, some, Bool, true, false, length, ltb,
  if◌then◌else◌,
}
use ppq_enclave_proxy.Address.{number_text}
use ppq_enclave_proxy.Json.{
  Json, Elements, Members, null, boolean, number, text, array, object, no_elements, element,
  no_members, member, without, update,
}

-- `MAX_ERROR_BODY_BYTES`
abbrev pub max_error_body_bytes : ℕ
max_error_body_bytes = 262_144

-- `delete holder.metadata.provider_name`
unfoldable pub without_provider : Json → Json
unfolding without
without_provider (object ms) = object (without (codes "provider_name") ms)
without_provider v = v

-- What is done with the body and with its `error`.
unfoldable pub strip_holder : Json → Json
unfolding update without_provider
strip_holder (object ms) = object (update (codes "metadata") without_provider ms)
strip_holder v = v

-- `stripUpstreamIdentity`
unfoldable pub strip_upstream_identity : Json → Json
unfolding strip_holder update without
strip_upstream_identity (object ms) = object (
    update (codes "error") strip_holder
      (update (codes "metadata") without_provider (without (codes "user_id") ms)))
strip_upstream_identity v = v

-- The state of `sanitizedErrorStream`.
pub record Collected : Type 0 where
  pub chunks : Text
  pub size : ℕ
  pub overflow : Bool

-- `transform`
abbrev pub collect_open : Collected → Collected
collect_open c =
    if ltb max_error_body_bytes c.size then record c { chunks = []; overflow = true } else c

unfoldable pub collect_chunk : Collected → Text → Collected
collect_chunk c chunk =
    if c.overflow
    then c
    else collect_open (record c { chunks = c.chunks ++ chunk; size = c.size + length chunk })

abbrev pub nothing_collected : Collected
nothing_collected = record { chunks = []; size = 0; overflow = false }

module _ (wording : Text → Text) where
  mutual
    -- `sanitizeWordingDeep`
    pub sanitize_wording_deep : Json → Json
    sanitize_wording_deep null = null
    sanitize_wording_deep (boolean b) = boolean b
    sanitize_wording_deep (number n) = number n
    sanitize_wording_deep (text s) = text (wording s)
    sanitize_wording_deep (array es) = array (sanitize_elements es)
    sanitize_wording_deep (object ms) = object (sanitize_members ms)

    pub sanitize_elements : Elements → Elements
    sanitize_elements no_elements = no_elements
    sanitize_elements (element v es) = element (sanitize_wording_deep v) (sanitize_elements es)

    pub sanitize_members : Members → Members
    sanitize_members no_members = no_members
    sanitize_members (member key v ms) = member key (sanitize_wording_deep v) (sanitize_members ms)

  module _ (parse : Text → Option Json) (stringify : Json → Option Text)
      (decode : Text → Option Text) where
    abbrev sanitized : Text → Option Json → Option Text
    unfolding sanitize_wording_deep strip_upstream_identity
    sanitized s none = some (wording s)
    sanitized s (some v) = stringify (sanitize_wording_deep (strip_upstream_identity v))

    -- `sanitizeUpstreamErrorBody`
    unfoldable pub sanitize_upstream_error_body : Text → Option Text
    unfolding sanitized
    sanitize_upstream_error_body s = sanitized s (parse s)

    -- `genericErrorBody`
    unfoldable pub generic_error_body : ℕ → Text
    unfolding number_text
    generic_error_body status =
        codes "{\"error\":{\"message\":\"upstream error\",\"code\":"
        ++ (number_text 10 status ++ codes "}}")

    abbrev decoded : Option Text → Option Text
    unfolding sanitize_upstream_error_body
    decoded none = none
    decoded (some s) = sanitize_upstream_error_body s

    abbrev or_generic : ℕ → Option Text → Text × Bool
    unfolding generic_error_body
    or_generic status none = (generic_error_body status, true)
    or_generic status (some s) = (s, false)

    -- `sanitizedErrorBodyBuffer`: the body, and whether it was replaced.
    unfoldable pub sanitized_error_body_buffer : Text → ℕ → Text × Bool
    unfolding or_generic decoded
    sanitized_error_body_buffer body status =
        if ltb max_error_body_bytes (length body)
        then (generic_error_body status, true)
        else or_generic status (decoded (decode body))

    -- `flush`
    unfoldable pub flush : Collected → ℕ → Text
    unfolding or_generic decoded
    flush c status =
        if c.overflow
        then generic_error_body status
        else (or_generic status (decoded (decode c.chunks))).0

    -- The body that goes out for an error that arrives in chunks.
    unfoldable pub sanitized_error_stream : Collected → List Text → ℕ → Text
    unfolding collect_chunk flush
    sanitized_error_stream c [] status = flush c status
    sanitized_error_stream c (chunk ∷ chunks) status =
        sanitized_error_stream (collect_chunk c chunk) chunks status
