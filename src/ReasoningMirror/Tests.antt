-- ===== src/ReasoningMirror/Tests.antt =====
-- The rewriting on concrete parts, lines, bodies and streams.
use ppq_enclave_proxy.Prelude.{
  ℕ, ◌≡◌, refl, subst, Text, codes, eq_text, trim, List, [], ◌∷◌, ◌++◌, Option, none, some, Bool,
  length, ltb, if◌then◌else◌, inl, inr, Bool-cases,
}
use mathlib.Core.Option.{some-injective, none-ne-some}
use mathlib.Core.List.{flatten}
use ppq_enclave_proxy.Json.{
  find, Json, null, text, object, member, no_members, array, element, no_elements, field, as_text,
}
use ppq_enclave_proxy.LineBuffer.{feed, feed_all, fresh, feed_lines}
use ppq_enclave_proxy.ReasoningMirror.{
  mirror_array, reasoning, reasoning_content, reasoning_details, details, mirror_reasoning_into,
  mirror_reasoning_in_chunk, mirror_reasoning_line, mirror, rewrite_body, no_body, max_line_chars,
  max_json_body_bytes, mirror_reasoning_json,
}
use ppq_enclave_proxy.ReasoningMirror.Parts.{mirror_reasoning_into-keeps}
use ppq_enclave_proxy.ReasoningMirror.Lines.{
  mirror_reasoning_in_chunk-settled, mirror_reasoning_line-settled,
}
use ppq_enclave_proxy.ReasoningMirror.Bodies.{rewrite_body-whole, body_text, body_bytes}
use ppq_enclave_proxy.ReasoningMirror.Streams.{feed_all-mirror}

abbrev only : Text → Json → Json
only name v = object (member name v no_members)

-- A part with a null `reasoning` and a text.
abbrev part : Json
part = object (member reasoning null (member reasoning_content (text (codes "Hm")) no_members))

mirrored :
    (mirror_reasoning_into part).0
    ≡ object (
        member reasoning (text (codes "Hm")) (
          member reasoning_content
            (text (codes "Hm"))
            (member reasoning_details (details (codes "Hm")) no_members)))
unfolding mirror_reasoning_into
mirrored = refl

is_text_lem : field reasoning_content (some part) ≡ some (text (codes "Hm"))
unfolding field find
is_text_lem = refl

mirror_reasoning_into-keeps_example :
    field reasoning_content (some (mirror_reasoning_into part).0) ≡ some (text (codes "Hm"))
mirror_reasoning_into-keeps_example =
    mirror_reasoning_into-keeps part reasoning_content (text (codes "Hm")) is_text_lem refl

as_text_lem : as_text (field reasoning_content (some part)) ≡ some (codes "Hm")
unfolding as_text field find
as_text_lem = refl

-- A chunk of one choice.
abbrev chunk : Json
chunk = only (codes "choices") (array (element (only (codes "delta") part) no_elements))

abbrev raw : Text
raw = codes "{\"reasoning_content\"}"

-- A parser that knows the chunk and its rewriting, and the print of the latter.
abbrev parse : Text → Option Json
parse s =
    if eq_text s raw
    then some chunk
    else (if eq_text s (codes "{m}") then some (mirror_reasoning_in_chunk chunk).0 else none)

abbrev stringify : Json → Text
stringify v = codes "{m}"

reparse :
    (s : Text) (obj : Json)
    → parse s ≡ some obj
    → parse (trim (32 ∷ stringify (mirror_reasoning_in_chunk obj).0))
      ≡ some (mirror_reasoning_in_chunk obj).0
unfolding trim
reparse s obj h =
    let m = mirror_reasoning_in_chunk chunk in
    let second = if eq_text s (codes "{m}") then some m.0 else none in
    elim (Bool-cases (eq_text s raw)) [
      | inl is_raw ↦
          let same : chunk ≡ obj =
            some-injective chunk obj
              (subst (λ (b : Bool). (if b then some chunk else second) ≡ some obj) is_raw h) in
          rw (← same) refl
      | inr other ↦
          let h2 : second ≡ some obj =
            subst (λ (b : Bool). (if b then some chunk else second) ≡ some obj) other h in
          elim (Bool-cases (eq_text s (codes "{m}"))) [
            | inl is_m ↦
                let same : m.0 ≡ obj =
                  some-injective m.0 obj
                    (subst (λ (b : Bool). (if b then some m.0 else none) ≡ some obj) is_m h2) in
                rw (← same, mirror_reasoning_in_chunk-settled chunk) refl
            | inr neither ↦ absurd (
                none-ne-some obj
                  (subst (λ (b : Bool). (if b then some m.0 else none) ≡ some obj) neither h2))
          ]
    ]

line_lem : mirror_reasoning_line parse stringify (codes "data: " ++ raw) ≡ codes "data: {m}"
unfolding mirror_reasoning_line mirror_reasoning_in_chunk mirror_array
line_lem = refl

mirror_reasoning_line-settled_example :
    mirror_reasoning_line parse stringify
      (mirror_reasoning_line parse stringify (codes "data: " ++ raw))
    ≡ mirror_reasoning_line parse stringify (codes "data: " ++ raw)
mirror_reasoning_line-settled_example =
    mirror_reasoning_line-settled parse stringify (codes "data: " ++ raw) reparse

abbrev body : List (Text × ℕ)
body = (codes "{\"reasoning_", 12) ∷ (codes "content\"}", 9) ∷ []

rewrite_body-whole_example : rewrite_body parse stringify length no_body body [] ≡ (
    if ltb max_json_body_bytes (body_bytes body)
    then body_text body ++ []
    else mirror_reasoning_json parse stringify length (body_text body ++ []))
rewrite_body-whole_example = rewrite_body-whole parse stringify length body []

body_lem : rewrite_body parse stringify length no_body body [] ≡ codes "{m}"
unfolding rewrite_body mirror_reasoning_in_chunk mirror_array
body_lem = refl

abbrev stream : List Text
stream = codes ": hi\ndata: {\"reasoning_con" ∷ codes "tent\"}\ndata" ∷ []

feed_all-mirror_example :
    feed_all (mirror parse stringify) max_line_chars (fresh []) stream
    ≡ feed (mirror parse stringify) max_line_chars (fresh []) (flatten stream)
unfolding flatten
feed_all-mirror_example = feed_all-mirror parse stringify stream refl

stream_lem :
    (feed_all (mirror parse stringify) max_line_chars (fresh []) stream).consumed
    ≡ codes ": hi\ndata: {m}\n"
unfolding mirror feed_all feed feed_lines mirror_reasoning_in_chunk mirror_array
stream_lem = refl
