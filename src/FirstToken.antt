-- ===== src/FirstToken.antt =====
-- enclave/src/firstToken.mjs: which event of a stream carries the first token, and of which kind.
-- `JSON.parse` is a parameter; a chunk is the text that the streaming decoder of the platform gives
-- for it.
pub mod Lines
pub mod Tests
use ppq_enclave_proxy.Prelude.{
  ℕ, Text, codes, eq_text, starts_with, trim, List, [], ◌∷◌, ◌++◌, Option, none, some, Bool, true,
  false, ◌||◌, ◌&&◌, not, length, drop, ltb, ◌==◌, if◌then◌else◌, any_of,
}
use Prim.Native.String.{String}
use ppq_enclave_proxy.Json.{Json, field, as_text, elements}
use ppq_enclave_proxy.LineBuffer.{split_lines}

pub data Kind : Type 0 where
  content : Kind
  reasoning : Kind
  tool_call : Kind

-- `MAX_PENDING_CHARS`
abbrev pub max_pending_chars : ℕ
max_pending_chars = 1_048_576

-- The member of a value, by the name that the program writes.
abbrev at : String → Option Json → Option Json
unfolding field
at name v = field (codes name) v

abbrev non_empty_text : Option Text → Bool
non_empty_text none = false
non_empty_text (some s) = not (eq_text s [])

-- `nonEmptyString`
unfoldable pub non_empty_string : Option Json → Bool
unfolding as_text
non_empty_string v = non_empty_text (as_text v)

abbrev is_text : Option Text → String → Bool
is_text none s = false
is_text (some t) s = eq_text t (codes s)

-- `v === s`
unfoldable pub equals : Option Json → String → Bool
unfolding as_text
equals v s = is_text (as_text v) s

-- `announcesToolCall`
unfoldable pub announces_tool_call : Option Json → Bool
unfolding at elements non_empty_string
announces_tool_call delta =
    any_of
      (λ (call : Json).
        let fn = at "function" (some call) in
        non_empty_string (at "name" fn) || non_empty_string (at "arguments" fn))
      (elements (at "tool_calls" delta))

-- The loop of `chatKind`, with what it found of tool calls.
unfoldable pub chat_kind : Bool → List Json → Option Kind
unfolding at non_empty_string announces_tool_call
chat_kind called [] = if called then some tool_call else none
chat_kind called (choice ∷ choices) =
    let delta = at "delta" (some choice) in
    let rest = chat_kind (called || announces_tool_call delta) choices in
    if non_empty_string (at "content" delta)
    then some content
    else (if non_empty_string (at "reasoning" delta)
          || non_empty_string (at "reasoning_content" delta)
        then some reasoning
        else rest)

-- `anthropicKind`
unfoldable pub anthropic_kind : Option Json → Option Kind
unfolding at equals non_empty_string
anthropic_kind frame =
    let d = at "delta" frame in
    if equals (at "type" d) "text_delta" && non_empty_string (at "text" d)
    then some content
    else (if equals (at "type" d) "thinking_delta" && non_empty_string (at "thinking" d)
        then some reasoning
        else none)

abbrev kind_if : Bool → Kind → Option Kind
kind_if b k = if b then some k else none

-- The kind of a frame by its type.
abbrev typed_kind : Option Json → Option Kind
unfolding at equals non_empty_string anthropic_kind
typed_kind frame =
    let type = at "type" frame in
    if equals type "content_block_start"
    then kind_if (equals (at "type" (at "content_block" frame)) "tool_use") tool_call
    else (if equals type "content_block_delta"
        then anthropic_kind frame
        else (if equals type "response.output_text.delta"
            then kind_if (non_empty_string (at "delta" frame)) content
            else (if equals type "response.reasoning_summary_text.delta"
                then kind_if (non_empty_string (at "delta" frame)) reasoning
                else (if equals type "response.output_item.added"
                    then kind_if (equals (at "type" (at "item" frame)) "function_call") tool_call
                    else (if equals type "response.function_call_arguments.delta"
                        then kind_if (non_empty_string (at "delta" frame)) tool_call
                        else none)))))

abbrev frame_kind : List Json → Option Json → Option Kind
unfolding typed_kind chat_kind
frame_kind [] frame = typed_kind frame
frame_kind (choice ∷ choices) frame = chat_kind false (choice ∷ choices)

abbrev parsed_kind : Option Json → Option Kind
unfolding frame_kind elements at
parsed_kind none = none
parsed_kind (some frame) = frame_kind (elements (at "choices" (some frame))) (some frame)

pub record Detector : Type 0 where
  pub done : Bool
  pub pending : Text

-- After `stop`.
abbrev pub stopped : Detector
stopped = record { done = true; pending = [] }

abbrev pub listening : Text → Detector
listening pending = record { done = false; pending = pending }

abbrev pub or_else : Option Kind → Option Kind → Option Kind
or_else (some k) later = some k
or_else none later = later

-- The line without the carriage return that it ends with.
abbrev pub without_return : Text → Text
without_return [] = []
without_return (c ∷ []) = if c == 13 then [] else c ∷ []
without_return (c ∷ (d ∷ s)) = c ∷ without_return (d ∷ s)

module _ (parse : Text → Option Json) where
  -- `detectFirstTokenKind`
  unfoldable pub detect_first_token_kind : Text → Option Kind
  unfolding parsed_kind trim
  detect_first_token_kind line =
      if not (starts_with line (codes "data:"))
      then none
      else let payload = trim (drop 5 line) in
        if eq_text payload []
          || (eq_text payload (codes "[DONE]") || not (starts_with payload (codes "{")))
        then none
        else parsed_kind (parse payload)

  unfoldable pub line_kind : Text → Option Kind
  unfolding detect_first_token_kind
  line_kind line = detect_first_token_kind (without_return line)

  -- The loop over the lines of a chunk, the first of which continues what is pending.
  unfoldable pub first_kind : Text → List Text → Option Kind
  unfolding line_kind
  first_kind pending [] = none
  first_kind pending (line ∷ lines) = or_else (line_kind (pending ++ line)) (first_kind [] lines)

  -- What is pending after the lines of a chunk.
  abbrev pub still_pending : Text → List Text → Text → Text
  still_pending pending [] last = pending ++ last
  still_pending pending (line ∷ lines) last = last

  abbrev pub keep_pending : Text → Detector
  keep_pending pending =
      if ltb max_pending_chars (length pending) then stopped else listening pending

  abbrev pub report : Option Kind → Text → Option Kind × Detector
  report (some k) pending = (some k, stopped)
  report none pending = (none, keep_pending pending)

  -- `feed`: the kind it reports, and the state.
  unfoldable pub feed : Detector → Text → Option Kind × Detector
  unfolding first_kind
  feed d text =
      let ls = split_lines text in
      if d.done
      then (none, d)
      else report (first_kind d.pending ls.0) (still_pending d.pending ls.0 ls.1)

  -- What the calls of `feed` report, in turn.
  unfoldable pub reports : Detector → List Text → List (Option Kind)
  unfolding feed
  reports d [] = []
  reports d (chunk ∷ chunks) = (feed d chunk).0 ∷ reports (feed d chunk).1 chunks
