-- ===== src/OutputCounter.antt =====
-- enclave/src/outputCount.mjs: the count of the output that a stream delivered, on which an answer is
-- settled that has no usage frame. `JSON.parse` and the tokenizer are parameters. A chunk is the text
-- that the streaming decoder of the platform gives for it.
pub mod Delivered
pub mod Whole
pub mod Finished
pub mod Tests
use ppq_enclave_proxy.Prelude.{
  ℕ, zero, suc, ◌+◌, ◌-◌, ◌/◌, Text, codes, eq_text, starts_with, trim, List, [], ◌∷◌, ◌++◌, Option,
  none, some, Bool, true, false, ◌||◌, not, length, take, drop, ltb, leb, if◌then◌else◌,
}
use ppq_enclave_proxy.Json.{Json, field, as_text, elements}
use ppq_enclave_proxy.LineBuffer.{Consumer, Buffer, feed_all, fresh}

abbrev pub max_counted_chars : ℕ
max_counted_chars = 2_000_000

abbrev pub overflow_chars_per_token : ℕ
overflow_chars_per_token = 4

abbrev pub max_line_chars : ℕ
max_line_chars = 1_000_000

-- `TOKENIZE_SLICE_CHARS`
abbrev pub tokenize_slice_chars : ℕ
tokenize_slice_chars = 2_000

abbrev or_empty : Option Text → Text
or_empty none = []
or_empty (some s) = s

-- One reasoning field.
abbrev reasoning_of : Option Text → Option Text → Text
reasoning_of (some s) _ = s
reasoning_of none other = or_empty other

arguments_text : List Json → Text
arguments_text [] = []
arguments_text (call ∷ calls) =
    or_empty (as_text (field (codes "arguments") (field (codes "function") (some call))))
    ++ arguments_text calls

-- `deltaText`
unfoldable pub delta_text : Option Json → Text
unfolding arguments_text field as_text elements
delta_text delta =
    or_empty (as_text (field (codes "content") delta))
    ++ (reasoning_of (as_text (field (codes "reasoning_content") delta))
          (as_text (field (codes "reasoning") delta))
        ++ arguments_text (elements (field (codes "tool_calls") delta)))

-- What the counter keeps beside the line buffer. `cap` is `MAX_COUNTED_CHARS`.
pub record Counted : Type 0 where
  pub dropped_lines : ℕ
  pub text : Text
  pub chars : ℕ
  pub overflow_chars : ℕ

-- The members of a constructed counter.
abbrev pub nothing_counted : Counted
nothing_counted = record { dropped_lines = 0; text = []; chars = 0; overflow_chars = 0 }

abbrev drop_line : Counted → Counted
drop_line c = record c { dropped_lines = c.dropped_lines + 1 }

module _ (cap : ℕ) where
  -- `_add`, for a text that is not empty: where the program's room is negative, this one's is 0, and
  -- the branch is the same.
  abbrev add_some : Counted → Text → Counted
  add_some c s =
      let room = cap - length c.text in
      if leb (length s) room
      then record c { text = c.text ++ s; chars = c.chars + length s }
      else record c {
        text = c.text ++ take room s;
        chars = c.chars + length s;
        overflow_chars = c.overflow_chars + (length s - room);
      }

  -- `_add`
  unfoldable pub add : Counted → Text → Counted
  add c [] = c
  add c (x ∷ s) = add_some c (x ∷ s)

  pub add_deltas : Counted → List Json → Counted
  unfolding add delta_text
  add_deltas c [] = c
  add_deltas c (choice ∷ choices) =
      add_deltas (add c (delta_text (field (codes "delta") (some choice)))) choices

  module _ (parse : Text → Option Json) where
    abbrev count_chunk : Counted → Option Json → Counted
    count_chunk c none = c
    count_chunk c (some v) = add_deltas c (elements (field (codes "choices") (some v)))

    -- `_line`
    unfoldable pub count_line : Counted → Text → Counted
    unfolding trim add_deltas
    count_line c line =
        if ltb max_line_chars (length line)
        then drop_line c
        else (if not (starts_with line (codes "data:"))
            then c
            else let json = trim (drop 5 line) in
              if eq_text json [] || eq_text json (codes "[DONE]")
              then c
              else count_chunk c (parse json))

    -- What the counter does with the lines of its buffer.
    unfoldable pub counter : Consumer Counted
    counter = record {
      line = count_line;
      overflow = λ c rest. drop_line c;
      skip = λ c rest. c;
      resume = λ c. c;
    }

    -- The calls of `feed` on a constructed counter, in turn.
    unfoldable pub count_all : List Text → Buffer Counted
    unfolding counter feed_all
    count_all chunks = feed_all counter max_line_chars (fresh nothing_counted) chunks

    -- The last line, where it is not blank.
    unfoldable pub count_last : Buffer Counted → Counted
    unfolding count_line trim
    count_last b = if eq_text (trim b.buffer) [] then b.consumed else count_line b.consumed b.buffer

-- `Math.ceil(n / OVERFLOW_CHARS_PER_TOKEN)`
abbrev pub by_ratio : ℕ → ℕ
by_ratio n = (n + 3) / overflow_chars_per_token

module _ (count_tokens : Text → Option ℕ) where
  abbrev pub slice_tokens : Text → ℕ
  slice_tokens slice = elim (count_tokens slice) [ none ↦ by_ratio (length slice) | some n ↦ n ]

  -- The loop over the slices, on fuel; `none` where the fuel does not do.
  unfoldable pub count_slices : (fuel : ℕ) → Text → (i tokens : ℕ) → Option ℕ
  count_slices zero s i tokens = none
  count_slices (suc fuel) s i tokens = elim (ltb i (length s)) [
    | false ↦ some tokens
    | true ↦
        let slice = take tokenize_slice_chars (drop i s) in
        count_slices fuel s (i + tokenize_slice_chars) (tokens + slice_tokens slice)
  ]

pub record Total : Type 0 where
  pub chars : ℕ
  pub tokens : ℕ

abbrev total : Counted → ℕ → Total
total c tokens = record { chars = c.chars; tokens = tokens + by_ratio c.overflow_chars }

abbrev pub add_total : Counted → Option ℕ → Option Total
add_total c none = none
add_total c (some tokens) = some (total c tokens)

-- `finish`, from the counted text on: the tokenizer is `none` where it does not load, and gives `none`
-- where it throws.
unfoldable pub finish : Option (Text → Option ℕ) → Counted → Option Total
unfolding count_slices
finish none c = some (total c (by_ratio (length c.text)))
finish (some count_tokens) c =
    add_total c (count_slices count_tokens (suc (length c.text)) c.text 0 0)
