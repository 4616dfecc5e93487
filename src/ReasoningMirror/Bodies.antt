-- ===== src/ReasoningMirror/Bodies.antt =====
-- The rewriting of a whole body that arrives in chunks.
use ppq_enclave_proxy.Prelude.{
  ℕ, ◌≡◌, ◌+◌, inl, inr, refl, ap, ◌∙◌, Text, List, [], ◌∷◌, ◌++◌, Option, true, false, ltb,
  if◌then◌else◌, Bool-cases, arith,
}
use mathlib.Core.List.{append_assoc}
use ppq_enclave_proxy.Json.{Json}
use ppq_enclave_proxy.ReasoningMirror.{
  Body, no_body, feed_body, finish_body, rewrite_body, mirror_reasoning_json, max_json_body_bytes,
}

abbrev pub body_text : List (Text × ℕ) → Text
body_text [] = []
body_text (chunk ∷ chunks) = chunk.0 ++ body_text chunks

abbrev pub body_bytes : List (Text × ℕ) → ℕ
body_bytes [] = 0
body_bytes (chunk ∷ chunks) = chunk.1 + body_bytes chunks

-- A body that is held, and one that is passed through.
abbrev held : Text → ℕ → Body
held s n = record { buffer = s; buffer_bytes = n; passthrough = false }

abbrev passed : ℕ → Body
passed n = record { buffer = []; buffer_bytes = n; passthrough = true }

module _ (parse : Text → Option Json) (stringify : Json → Text) (byte_length : Text → ℕ) where
  rewrite_passed :
      (n : ℕ) (chunks : List (Text × ℕ)) (tail : Text)
      → rewrite_body parse stringify byte_length (passed n) chunks tail ≡ body_text chunks ++ tail
  unfolding rewrite_body feed_body finish_body
  rewrite_passed n [] tail = refl
  rewrite_passed n (chunk ∷ chunks) tail =
      rw (append_assoc chunk.0 (body_text chunks) tail)
        (ap (λ (x : Text). chunk.0 ++ x) (rewrite_passed n chunks tail))

  -- What is to go out for a text with a number of bytes.
  abbrev whole : ℕ → Text → Text
  whole n s =
      if ltb max_json_body_bytes n then s else mirror_reasoning_json parse stringify byte_length s

  rewrite_held :
      (s : Text) (n : ℕ) (chunks : List (Text × ℕ)) (tail : Text)
      → ltb max_json_body_bytes n ≡ false
      → rewrite_body parse stringify byte_length (held s n) chunks tail
        ≡ whole (n + body_bytes chunks) (s ++ (body_text chunks ++ tail))
  unfolding rewrite_body feed_body finish_body
  rewrite_held s n [] tail h = let same : n + 0 ≡ n = omega arith in rw (same, h) refl
  rewrite_held s n (chunk ∷ chunks) tail h =
      elim (Bool-cases (ltb max_json_body_bytes (n + chunk.1))) [
        | inl over ↦
            let still : ltb max_json_body_bytes (n + (chunk.1 + body_bytes chunks)) ≡ true =
              ground arith in
            rw
              (
                over,
                still,
                rewrite_passed (n + chunk.1) chunks tail,
                append_assoc s chunk.0 (body_text chunks ++ tail),
                append_assoc chunk.0 (body_text chunks) tail,
              )
              refl
        | inr under ↦
            let sum : n + chunk.1 + body_bytes chunks ≡ n + (chunk.1 + body_bytes chunks) =
              omega arith in
            rw
              (
                under,
                rewrite_held (s ++ chunk.0) (n + chunk.1) chunks tail under,
                sum,
                append_assoc s chunk.0 (body_text chunks ++ tail),
                append_assoc chunk.0 (body_text chunks) tail,
              )
              refl
      ]

  -- However a body is cut into chunks, what goes out is the body itself where its chunks have more
  -- bytes than the limit, and its rewriting where they have not.
  pub rewrite_body-whole :
      (chunks : List (Text × ℕ)) (tail : Text)
      → rewrite_body parse stringify byte_length no_body chunks tail ≡ (
          if ltb max_json_body_bytes (body_bytes chunks)
          then body_text chunks ++ tail
          else mirror_reasoning_json parse stringify byte_length (body_text chunks ++ tail))
  rewrite_body-whole chunks tail =
      let same : 0 + body_bytes chunks ≡ body_bytes chunks = omega arith in
      rewrite_held [] 0 chunks tail refl ∙ ap (λ (m : ℕ). whole m (body_text chunks ++ tail)) same
