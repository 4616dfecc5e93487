-- ===== src/ReasoningMirror.antt =====
-- enclave/src/reasoningMirror.mjs: the reasoning of an answer under the names that clients of both
-- shapes read. `JSON.parse`, `JSON.stringify` and `Buffer.byteLength` are parameters; a chunk is the
-- text that the streaming decoder of the platform gives for it, with its number of bytes.
pub mod Parts
pub mod Lines
pub mod Bodies
pub mod Streams
pub mod Tests
use ppq_enclave_proxy.Prelude.{
  ℕ, ◌+◌, Text, codes, contains, eq_text, starts_with, trim, List, [], ◌∷◌, ◌++◌, Option, none,
  some, Bool, true, false, ◌||◌, ◌&&◌, not, length, drop, ltb, ◌==◌, if◌then◌else◌, take, ◌-◌,
}
use ppq_enclave_proxy.Json.{
  Json, Elements, Members, null, text, number, array, object, no_elements, element, no_members,
  member, find, as_text, set,
}
use ppq_enclave_proxy.LineBuffer.{Consumer, Buffer, feed}

abbrev pub max_line_chars : ℕ
max_line_chars = 1_000_000

abbrev pub max_json_body_bytes : ℕ
max_json_body_bytes = 16_000_000

abbrev pub reasoning_content : Text
reasoning_content = codes "reasoning_content"

abbrev pub reasoning : Text
reasoning = codes "reasoning"

abbrev pub reasoning_details : Text
reasoning_details = codes "reasoning_details"

-- The details for a text.
abbrev pub details : Text → Json
details s = array (
    element
      (object (
        member (codes "type") (text (codes "reasoning.text")) (
          member (codes "text") (text s) (
            member (codes "format") (text (codes "unknown"))
              (member (codes "index") (number (codes "0")) no_members)))))
      no_elements)

-- Whether a member is undefined or null.
abbrev pub is_missing : Option Json → Bool
is_missing none = true
is_missing (some null) = true
is_missing (some _) = false

abbrev pub is_undefined : Option Json → Bool
is_undefined none = true
is_undefined (some _) = false

unfoldable pub mirror_reasoning : Text → Members → Members × Bool
unfolding find set
mirror_reasoning s ms =
    if is_missing (find reasoning ms) then (set reasoning (text s) ms, true) else (ms, false)

unfoldable pub mirror_details : Text → Members → Members × Bool
unfolding find set
mirror_details s ms =
    if not (eq_text s []) && is_undefined (find reasoning_details ms)
    then (set reasoning_details (details s) ms, true)
    else (ms, false)

abbrev pub mirror_text : Option Text → Members → Members × Bool
mirror_text none ms = (ms, false)
mirror_text (some s) ms =
    let r = mirror_reasoning s ms in let d = mirror_details s r.0 in (d.0, r.1 || d.1)

unfoldable pub mirror_members : Members → Members × Bool
unfolding mirror_reasoning mirror_details as_text
mirror_members ms = mirror_text (as_text (find reasoning_content ms)) ms

abbrev pub rebuilt : Members × Bool → Json × Bool
rebuilt (ms, changed) = (object ms, changed)

-- `mirrorReasoningInto`: the part as it is left, and whether it changed.
unfoldable pub mirror_reasoning_into : Json → Json × Bool
unfolding mirror_members
mirror_reasoning_into (object ms) = rebuilt (mirror_members ms)
mirror_reasoning_into part = (part, false)

abbrev pub put_first : Text → Json × Bool → Members → Members × Bool
put_first key (v, changed) ms = (member key v ms, changed)

abbrev pub keep_first : Text → Json → Members × Bool → Members × Bool
keep_first key v (ms, changed) = (member key v ms, changed)

-- The part that is the member of a choice.
unfoldable pub mirror_member : Text → Members → Members × Bool
unfolding mirror_reasoning_into
mirror_member name no_members = (no_members, false)
mirror_member name (member key v ms) =
    if eq_text key name
    then put_first key (mirror_reasoning_into v) ms
    else keep_first key v (mirror_member name ms)

-- What is done with a choice: its `delta`, then its `message`.
unfoldable pub mirror_choice : Json → Json × Bool
unfolding mirror_member
mirror_choice (object ms) =
    let d = mirror_member (codes "delta") ms in
    let m = mirror_member (codes "message") d.0 in (object m.0, d.1 || m.1)
mirror_choice choice = (choice, false)

unfoldable pub mirror_choices : Elements → Elements × Bool
unfolding mirror_choice
mirror_choices no_elements = (no_elements, false)
mirror_choices (element choice choices) =
    let c = mirror_choice choice in
    let cs = mirror_choices choices in (element c.0 cs.0, c.1 || cs.1)

abbrev pub put_choices : Text → Elements × Bool → Members → Members × Bool
put_choices key (choices, changed) ms = (member key (array choices) ms, changed)

abbrev pub mirror_array : Text → Json → Members → Members × Bool
unfolding mirror_choices
mirror_array key (array choices) ms = put_choices key (mirror_choices choices) ms
mirror_array key v ms = (member key v ms, false)

-- The member `choices` of a chunk, where it is an array.
unfoldable pub mirror_chunk_members : Members → Members × Bool
mirror_chunk_members no_members = (no_members, false)
mirror_chunk_members (member key v ms) =
    if eq_text key (codes "choices")
    then mirror_array key v ms
    else keep_first key v (mirror_chunk_members ms)

-- `mirrorReasoningInChunk`
unfoldable pub mirror_reasoning_in_chunk : Json → Json × Bool
unfolding mirror_chunk_members
mirror_reasoning_in_chunk (object ms) = rebuilt (mirror_chunk_members ms)
mirror_reasoning_in_chunk obj = (obj, false)

abbrev pub add_before : ℕ → Option Text → Option Text
add_before c none = none
add_before c (some s) = some (c ∷ s)

-- A line without the carriage return that it ends with.
abbrev pub chomp : Text → Option Text
chomp [] = none
chomp (c ∷ []) = if c == 13 then some [] else none
chomp (c ∷ (d ∷ s)) = add_before c (chomp (d ∷ s))

module _ (parse : Text → Option Json) (stringify : Json → Text) where
  -- The text of a rewritten value, or the text as it came.
  abbrev pub written : Text → (Json → Text) → Option Json → Text
  unfolding mirror_reasoning_in_chunk
  written raw print none = raw
  written raw print (some obj) =
      let m = mirror_reasoning_in_chunk obj in if m.1 then print m.0 else raw

  abbrev pub data_line : Json → Text
  data_line obj = codes "data: " ++ stringify obj

  -- `mirrorReasoningLine`
  unfoldable pub mirror_reasoning_line : Text → Text
  unfolding trim contains
  mirror_reasoning_line line =
      if ltb max_line_chars (length line) || not (starts_with line (codes "data:"))
      then line
      else let payload = trim (drop 5 line) in
        if not (starts_with payload (codes "{")) || not (contains payload reasoning_content)
        then line
        else written line data_line (parse payload)

  -- `mirrorReasoningJson`, by the number of bytes of a text.
  unfoldable pub mirror_reasoning_json : (Text → ℕ) → Text → Text
  unfolding contains
  mirror_reasoning_json byte_length s =
      if ltb max_json_body_bytes (byte_length s) || not (contains s reasoning_content)
      then s
      else written s stringify (parse s)

  abbrev pub with_return : Text → Option Text → Text
  unfolding mirror_reasoning_line
  with_return line none = mirror_reasoning_line line
  with_return line (some s) = mirror_reasoning_line s ++ 13 ∷ []

  -- `_line`
  unfoldable pub mirror_line : Text → Text
  unfolding with_return
  mirror_line line = with_return line (chomp line)

  -- What `_feedSse` does with the lines of its buffer: what is consumed is the text that goes out.
  unfoldable pub mirror : Consumer Text
  unfolding mirror_line
  mirror = record {
    line = λ out line. out ++ (mirror_line line ++ 10 ∷ []);
    overflow = λ out rest. out ++ rest;
    skip = λ out s. out ++ s;
    resume = λ out. out ++ 10 ∷ [];
  }

  abbrev pub last_line : Text → Text
  last_line [] = []
  last_line (c ∷ s) = mirror_line (c ∷ s)

  -- `finish` of an event stream, with what the decoder had left.
  unfoldable pub finish_sse : Buffer Text → Text → Text
  unfolding mirror feed
  finish_sse b tail =
      if b.skipping
      then b.consumed ++ (tail ++ last_line b.buffer)
      else let fed = feed mirror max_line_chars b tail in fed.consumed ++ last_line fed.buffer

-- The state of the rewriter of a whole body.
pub record Body : Type 0 where
  pub buffer : Text
  pub buffer_bytes : ℕ
  pub passthrough : Bool

abbrev pub no_body : Body
no_body = record { buffer = []; buffer_bytes = 0; passthrough = false }

-- A body too large to rewrite is released, and no more is held.
abbrev pub hold : Body → Text × Body
hold b =
    if ltb max_json_body_bytes b.buffer_bytes
    then (b.buffer, record b { buffer = []; passthrough = true })
    else ([], b)

-- `feed` of a body, with the bytes of the chunk: the text that goes out now, and the state.
unfoldable pub feed_body : Body → Text × ℕ → Text × Body
feed_body b (s, bytes) =
    if b.passthrough
    then (s, b)
    else hold (record b { buffer = b.buffer ++ s; buffer_bytes = b.buffer_bytes + bytes })

module _ (parse : Text → Option Json) (stringify : Json → Text) (byte_length : Text → ℕ) where
  -- `finish` of a body, with what the decoder had left.
  unfoldable pub finish_body : Body → Text → Text
  unfolding mirror_reasoning_json
  finish_body b tail =
      if b.passthrough
      then tail
      else mirror_reasoning_json parse stringify byte_length (b.buffer ++ tail)

  -- The text that goes out for a body in chunks.
  unfoldable pub rewrite_body : Body → List (Text × ℕ) → Text → Text
  unfolding feed_body finish_body
  rewrite_body b [] tail = finish_body b tail
  rewrite_body b (chunk ∷ chunks) tail =
      let fed = feed_body b chunk in fed.0 ++ rewrite_body fed.1 chunks tail
