-- ===== src/UpstreamErrorBody/Streamed.antt =====
-- The error body that arrives in chunks.
use ppq_enclave_proxy.Prelude.{
  ℕ, ◌≡◌, ◌+◌, inl, inr, refl, Text, List, [], ◌∷◌, ◌++◌, Option, true, false, length, ltb,
  Bool-cases, arith, length-append,
}
use mathlib.Core.List.{append_assoc, append-nil, flatten}
use ppq_enclave_proxy.Json.{Json}
use ppq_enclave_proxy.UpstreamErrorBody.{
  Collected, collect_chunk, nothing_collected, flush, generic_error_body,
  sanitized_error_body_buffer, sanitized_error_stream, max_error_body_bytes,
}

-- What was collected within the limit, and the state past it.
abbrev within : Text → Collected
within s = record { chunks = s; size = length s; overflow = false }

abbrev past : ℕ → Collected
past n = record { chunks = []; size = n; overflow = true }

module _ (wording : Text → Text) (parse : Text → Option Json) (stringify : Json → Option Text)
    (decode : Text → Option Text) where
  stream-past :
      (n : ℕ) (chunks : List Text) (status : ℕ)
      → sanitized_error_stream wording parse stringify decode (past n) chunks status
        ≡ generic_error_body wording parse stringify decode status
  unfolding sanitized_error_stream collect_chunk flush
  stream-past n [] status = refl
  stream-past n (chunk ∷ chunks) status = stream-past n chunks status

  stream-within :
      (s : Text) (chunks : List Text) (status : ℕ)
      → ltb max_error_body_bytes (length s) ≡ false
      → sanitized_error_stream wording parse stringify decode (within s) chunks status
        ≡ (sanitized_error_body_buffer wording parse stringify decode
            (s ++ flatten chunks)
            status).0
  unfolding sanitized_error_stream collect_chunk flush sanitized_error_body_buffer flatten
  stream-within s [] status h = rw (append-nil s, h) refl
  stream-within s (chunk ∷ chunks) status h =
      let size = length-append s chunk in
      let joined = append_assoc s chunk (flatten chunks) in
      elim (Bool-cases (ltb max_error_body_bytes (length s + length chunk))) [
        | inl over ↦
            let long : ltb max_error_body_bytes (length (s ++ (chunk ++ flatten chunks))) ≡ true =
              ground (
                arith,
                length-append s (chunk ++ flatten chunks),
                length-append chunk (flatten chunks),
              ) in
            rw (over, long) (stream-past (length s + length chunk) chunks status)
        | inr under ↦
            rw (under, ← joined, ← size) (stream-within (s ++ chunk) chunks status (rw size under))
      ]

  -- An error body in chunks is answered as the whole body is at once.
  pub sanitized_error_stream-buffer :
      (chunks : List Text) (status : ℕ)
      → sanitized_error_stream wording parse stringify decode nothing_collected chunks status
        ≡ (sanitized_error_body_buffer wording parse stringify decode (flatten chunks) status).0
  sanitized_error_stream-buffer chunks status = stream-within [] chunks status (ground arith)
