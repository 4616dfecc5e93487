-- ===== src/OutputCounter/Delivered.antt =====
-- What the counter has counted, by the text that was delivered.
use ppq_enclave_proxy.Prelude.{
  ◌∙◌, length-take-min, take_append, take_all, ℕ, ◌≡◌, ◌∙◌, ◌+◌, ◌-◌, Text, codes, eq_text,
  starts_with, trim, List, [], ◌∷◌, ◌++◌, Option, none, some, Bool, true, false, ◌||◌, not, length,
  take, drop, ltb, leb, if◌then◌else◌, inl, inr, Bool-cases, arith, length-take-min, take_append,
  take_all, length-append, refl,
}
use mathlib.Core.List.{append_assoc, append-nil}
use ppq_enclave_proxy.Json.{Json, field, elements}
use ppq_enclave_proxy.LineBuffer.{split_lines, IsUniform, split_lines, consume_lines}
use ppq_enclave_proxy.OutputCounter.{
  Counted, delta_text, add, add_some, add_deltas, count_chunk, count_line, counter, max_line_chars,
}

-- The text of the choices of a chunk.
abbrev pub choices_text : List Json → Text
choices_text [] = []
choices_text (choice ∷ choices) =
    delta_text (field (codes "delta") (some choice)) ++ choices_text choices

-- `split('\n')`
abbrev pub all_lines : Text → List Text
all_lines s = (split_lines s).0 ++ (split_lines s).1 ∷ []

module _ (parse : Text → Option Json) where
  abbrev chunk_text : Option Json → Text
  chunk_text none = []
  chunk_text (some v) = choices_text (elements (field (codes "choices") (some v)))

  -- The text that a line delivers.
  abbrev pub line_text : Text → Text
  line_text line =
      if ltb max_line_chars (length line) || not (starts_with line (codes "data:"))
      then []
      else let json = trim (drop 5 line) in
        if eq_text json [] || eq_text json (codes "[DONE]") then [] else chunk_text (parse json)

  abbrev pub lines_text : List Text → Text
  lines_text [] = []
  lines_text (line ∷ lines) = line_text line ++ lines_text lines

-- How many lines are past the limit.
abbrev pub long_lines : List Text → ℕ
long_lines [] = 0
long_lines (line ∷ lines) = (if ltb max_line_chars (length line) then 1 else 0) + long_lines lines

module _ (cap : ℕ) where
  -- The counter after a number of dropped lines and a delivered text.
  abbrev pub of_delivered : ℕ → Text → Counted
  of_delivered dropped w = record {
    dropped_lines = dropped;
    text = take cap w;
    chars = length w;
    overflow_chars = length w - cap;
  }

  room : (w : Text) → cap - length (take cap w) ≡ cap - length w
  room w = omega (arith, length-take-min cap w)

  add_some-of_delivered :
      (d : ℕ) (w s : Text) → add_some cap (of_delivered d w) s ≡ of_delivered d (w ++ s)
  add_some-of_delivered d w s =
      rw (room w, take_append cap w s, length-append w s)
        (elim (Bool-cases (leb (length s) (cap - length w))) [
          | inl fits ↦
              let all : take (cap - length w) s ≡ s = take_all (cap - length w) s (ground arith) in
              let over : length w - cap ≡ length w + length s - cap = ground arith in
              rw (fits, all, over) refl
          | inr long ↦
              let over : length w - cap + (length s - (cap - length w))
                  ≡ length w + length s - cap =
                ground arith in
              rw (long, over) refl
        ])

  add-of_delivered : (d : ℕ) (w s : Text) → add cap (of_delivered d w) s ≡ of_delivered d (w ++ s)
  unfolding add
  add-of_delivered d w [] = rw (append-nil w) refl
  add-of_delivered d w (x ∷ s) = add_some-of_delivered d w (x ∷ s)

  add_deltas-of_delivered :
      (d : ℕ) (w : Text) (choices : List Json)
      → add_deltas cap (of_delivered d w) choices ≡ of_delivered d (w ++ choices_text choices)
  unfolding add_deltas
  add_deltas-of_delivered d w [] = rw (append-nil w) refl
  add_deltas-of_delivered d w (choice ∷ choices) =
      let s = delta_text (field (codes "delta") (some choice)) in
      rw (add-of_delivered d w s, ← append_assoc w s (choices_text choices))
        (add_deltas-of_delivered d (w ++ s) choices)

  unless-of_delivered :
      (d : ℕ) (w : Text) (b : Bool) (c : Counted) (s : Text)
      → c ≡ of_delivered d (w ++ s)
      → (if b then of_delivered d w else c) ≡ of_delivered d (w ++ (if b then [] else s))
  unless-of_delivered d w true c s h = rw (append-nil w) refl
  unless-of_delivered d w false c s h = h

  module _ (parse : Text → Option Json) where
    count_chunk-of_delivered :
        (d : ℕ) (w : Text) (chunk : Option Json)
        → count_chunk cap parse (of_delivered d w) chunk
          ≡ of_delivered d (w ++ chunk_text parse chunk)
    count_chunk-of_delivered d w none = rw (append-nil w) refl
    count_chunk-of_delivered d w (some v) =
        add_deltas-of_delivered d w (elements (field (codes "choices") (some v)))

    pub count_line-of_delivered :
        (d : ℕ) (w line : Text)
        → count_line cap parse (of_delivered d w) line
          ≡ of_delivered (d + long_lines (line ∷ [])) (w ++ line_text parse line)
    unfolding count_line
    count_line-of_delivered d w line = elim (Bool-cases (ltb max_line_chars (length line))) [
      | inl long ↦ rw (long, append-nil w) refl
      | inr short ↦
          let same : d + 0 ≡ d = omega arith in
          rw (short, same)
            (unless-of_delivered d w (not (starts_with line (codes "data:"))) _ _ (
              unless-of_delivered d w
                (let json = trim (drop 5 line) in eq_text json [] || eq_text json (codes "[DONE]"))
                _ _ (count_chunk-of_delivered d w (parse (trim (drop 5 line))))))
    ]

    pub consume_lines-of_delivered :
        (d : ℕ) (w : Text) (lines : List Text)
        → consume_lines (counter cap parse) max_line_chars (of_delivered d w) lines
          ≡ of_delivered (d + long_lines lines) (w ++ lines_text parse lines)
    unfolding consume_lines counter
    consume_lines-of_delivered d w [] =
        let same : d + 0 ≡ d = omega arith in rw (same, append-nil w) refl
    consume_lines-of_delivered d w (line ∷ lines) =
        let sum : d + long_lines (line ∷ []) + long_lines lines ≡ d + long_lines (line ∷ lines) =
          omega arith in
        rw (count_line-of_delivered d w line) (
          consume_lines-of_delivered (d + long_lines (line ∷ [])) (w ++ line_text parse line) lines
          ∙ rw (sum, append_assoc w (line_text parse line) (lines_text parse lines)) refl)

    pub counter-IsUniform : IsUniform (counter cap parse) max_line_chars
    unfolding counter count_line
    counter-IsUniform = record {
      long_line = λ c line long.
          let over : ltb max_line_chars (length line) ≡ true = ground arith in rw over refl;
      overflow-append = λ c line rest long. refl;
      skip-append = λ c s t. refl;
      skip-nil = λ c. refl;
    }
