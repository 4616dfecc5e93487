-- ===== src/UpstreamErrorBody/Tests.antt =====
-- An error body that names the account and the provider.
use ppq_enclave_proxy.Prelude.{
  ◌≡◌, refl, Text, codes, eq_text, [], ◌∷◌, Option, none, some, if◌then◌else◌,
}
use mathlib.Core.List.{flatten}
use ppq_enclave_proxy.Json.{Json, text, object, member, no_members}
use ppq_enclave_proxy.UpstreamErrorBody.{
  strip_upstream_identity, sanitize_wording_deep, nothing_collected, sanitized_error_stream,
  sanitized_error_body_buffer,
}
use ppq_enclave_proxy.UpstreamErrorBody.Stripped.{IsStripped, sanitize-IsStripped}
use ppq_enclave_proxy.UpstreamErrorBody.Streamed.{sanitized_error_stream-buffer}

abbrev wording : Text → Text
wording s = if eq_text s (codes "openrouter") then codes "AI Provider" else s

abbrev by_provider : Json
by_provider = object (
    member (codes "metadata")
      (object (member (codes "provider_name") (text (codes "Venice")) no_members)) no_members)

abbrev body : Json
body = object (
    member (codes "error") by_provider (
      member (codes "user_id") (text (codes "u1"))
        (member (codes "from") (text (codes "openrouter")) no_members)))

clean_lem :
    sanitize_wording_deep wording (strip_upstream_identity body)
    ≡ object (
        member
          (codes "error")
          (object (member (codes "metadata") (object no_members) no_members))
          (member (codes "from") (text (codes "AI Provider")) no_members))
unfolding sanitize_wording_deep strip_upstream_identity
clean_lem = refl

sanitize-IsStripped_example :
    IsStripped (sanitize_wording_deep wording (strip_upstream_identity body))
sanitize-IsStripped_example = sanitize-IsStripped wording body

abbrev parse : Text → Option Json
parse s = none

abbrev stringify : Json → Option Text
stringify v = none

abbrev decode : Text → Option Text
decode s = some s

sanitized_error_stream-buffer_example :
    sanitized_error_stream wording parse stringify decode nothing_collected
      (codes "open" ∷ codes "router" ∷ [])
      502
    ≡ (sanitized_error_body_buffer wording parse stringify decode
        (flatten (codes "open" ∷ codes "router" ∷ []))
        502).0
sanitized_error_stream-buffer_example =
    sanitized_error_stream-buffer wording parse stringify decode
      (codes "open" ∷ codes "router" ∷ []) 502

stream_lem :
    sanitized_error_stream wording parse stringify decode nothing_collected
      (codes "open" ∷ codes "router" ∷ [])
      502
    ≡ codes "AI Provider"
unfolding sanitized_error_stream
stream_lem = refl
