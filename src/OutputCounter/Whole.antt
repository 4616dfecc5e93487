-- ===== src/OutputCounter/Whole.antt =====
-- The counter on a stream as a whole.
use ppq_enclave_proxy.Prelude.{
  ◌≤◌, trim_start, is_space, ◌==◌, subst, sym, ap, ◌∙◌, take_all, ℕ, ◌≡◌, sym, ap, subst, ◌∙◌, ◌+◌,
  ◌-◌, Text, codes, eq_text, starts_with, trim, List, [], ◌∷◌, ◌++◌, Option, true, false, length,
  take, ltb, inl, inr, Bool-cases, arith, take_all, refl,
}
use mathlib.Core.List.{append_assoc, append-nil, flatten, reverse, reverse-cons, reverse-append}
use mathlib.Core.Bool.{false≢true}
use ppq_enclave_proxy.Json.{Json}
use ppq_enclave_proxy.LineBuffer.{
  waiting, skipping_from, feed, feed_lines, split_lines, fresh, feed_all, settle, Buffer, feed_all,
  feed, feed_lines, fresh, split_lines, consume_lines, settle,
}
use ppq_enclave_proxy.LineBuffer.Units.{settle_under, settle_over}
use ppq_enclave_proxy.LineBuffer.Chunks.{feed_all-feed, fresh-IsReady}
use ppq_enclave_proxy.OutputCounter.{
  count_last, drop_line, count_all, count_last, Counted, count_line, counter, count_all, drop_line,
  nothing_counted, max_line_chars,
}
use ppq_enclave_proxy.OutputCounter.Delivered.{
  of_delivered, line_text, lines_text, long_lines, all_lines, count_line-of_delivered,
  consume_lines-of_delivered, counter-IsUniform,
}

-- A text that starts with `d` is not blank.
trim_start_end : (s : Text) → (r : Text) × (trim_start (s ++ b'd' ∷ []) ≡ r ++ b'd' ∷ [])
trim_start_end [] = ([], refl)
trim_start_end (c ∷ s) = elim (Bool-cases (is_space c)) [
  | inl space ↦ rw space (trim_start_end s)
  | inr other ↦ rw other (c ∷ s, refl)
]

blank_data : (s : Text) → eq_text (trim s) [] ≡ true → starts_with s (codes "data:") ≡ false
unfolding trim
blank_data [] h = refl
blank_data (c ∷ s) h = elim (Bool-cases (c == b'd')) [
  | inl same ↦
      let eq : c ≡ b'd' = ground arith in
      let full : eq_text (trim (b'd' ∷ s)) [] ≡ false =
        rw
          (
            reverse-cons b'd' s,
            (trim_start_end (reverse s)).1,
            reverse-append (trim_start_end (reverse s)).0 (b'd' ∷ []),
          )
          refl in
      absurd (false≢true (sym full ∙ subst (λ (x : ℕ). eq_text (trim (x ∷ s)) [] ≡ true) eq h))
  | inr other ↦ rw other refl
]

long_lines-append : (s t : List Text) → long_lines (s ++ t) ≡ long_lines s + long_lines t
long_lines-append [] t = omega arith
long_lines-append (line ∷ s) t = omega (arith, long_lines-append s t)

lines_text-append :
    (parse : Text → Option Json) (s t : List Text)
    → lines_text parse (s ++ t) ≡ lines_text parse s ++ lines_text parse t
lines_text-append parse [] t = refl
lines_text-append parse (line ∷ s) t =
    rw (lines_text-append parse s t)
      (sym (append_assoc (line_text parse line) (lines_text parse s) (lines_text parse t)))

module _ (cap : ℕ) (parse : Text → Option Json) where
  count_last_blank :
      (c : Counted) (rest : Text)
      → eq_text (trim rest) [] ≡ true
      → count_last cap parse (waiting rest c) ≡ c
  unfolding count_last
  count_last_blank c rest h = rw h refl

  count_last_full :
      (c : Counted) (rest : Text)
      → eq_text (trim rest) [] ≡ false
      → count_last cap parse (waiting rest c) ≡ count_line cap parse c rest
  unfolding count_last
  count_last_full c rest h = rw h refl

  count_last_skipping : (c : Counted) → count_last cap parse (skipping_from c) ≡ c
  unfolding count_last
  count_last_skipping c = refl

  nothing_of_delivered : nothing_counted ≡ of_delivered cap 0 []
  nothing_of_delivered =
      let short : length {A = ℕ} [] ≤ cap = omega arith in
      let none_kept : take {A = ℕ} cap [] ≡ [] = take_all cap [] short in
      let none_over : 0 - cap ≡ 0 = omega arith in rw (none_kept, none_over) refl

  settle-of_delivered :
      (d : ℕ) (w rest : Text)
      → count_last cap parse (settle (counter cap parse) max_line_chars (of_delivered cap d w) rest)
        ≡ of_delivered cap (d + long_lines (rest ∷ [])) (w ++ line_text parse rest)
  unfolding counter
  settle-of_delivered d w rest = elim (Bool-cases (ltb max_line_chars (length rest))) [
    | inl long ↦
        rw
          (
            settle_over (counter cap parse) max_line_chars (of_delivered cap d w) rest long,
            count_last_skipping (drop_line (of_delivered cap d w)),
            long,
            append-nil w,
          )
          refl
    | inr short ↦
        ap (λ (b : Buffer Counted). count_last cap parse b)
          (settle_under (counter cap parse) max_line_chars (of_delivered cap d w) rest short)
        ∙ elim (Bool-cases (eq_text (trim rest) [])) [
          | inl blank ↦
              let same : d + 0 ≡ d = omega arith in
              count_last_blank (of_delivered cap d w) rest blank
              ∙ rw (short, same, blank_data rest blank, append-nil w) refl
          | inr full ↦
              count_last_full (of_delivered cap d w) rest full
              ∙ count_line-of_delivered cap parse d w rest
        ]
  ]

  -- Chunk by chunk, the counter counts what the lines of the whole stream deliver: the dropped lines
  -- are the lines past the limit, the counted characters those of the delivered text, the kept text
  -- its start up to the cap.
  pub count_all-of_delivered :
      (chunks : List Text)
      → count_last cap parse (count_all cap parse chunks)
        ≡ of_delivered cap
            (long_lines (all_lines (flatten chunks)))
            (lines_text parse (all_lines (flatten chunks)))
  unfolding count_all feed feed_lines
  count_all-of_delivered chunks =
      let t = flatten chunks in
      let ls = split_lines t in
      let k = counter cap parse in
      let parts : feed_all k max_line_chars (fresh nothing_counted) chunks
          ≡ settle k max_line_chars (consume_lines k max_line_chars nothing_counted ls.0) ls.1 =
        feed_all-feed k max_line_chars (counter-IsUniform cap parse) (fresh nothing_counted) chunks
          (fresh-IsReady k max_line_chars (counter-IsUniform cap parse) nothing_counted) in
      let sum : 0 + long_lines ls.0 + long_lines (ls.1 ∷ []) ≡ long_lines (all_lines t) =
        omega (arith, long_lines-append ls.0 (ls.1 ∷ [])) in
      let joined : lines_text parse ls.0 ++ line_text parse ls.1 ≡ lines_text parse (all_lines t) =
        rw (lines_text-append parse ls.0 (ls.1 ∷ []), append-nil (line_text parse ls.1)) refl in
      rw
        (
          parts,
          nothing_of_delivered,
          consume_lines-of_delivered cap parse 0 [] ls.0,
          settle-of_delivered (0 + long_lines ls.0) (lines_text parse ls.0) ls.1,
        )
        (ap (λ (d : ℕ). of_delivered cap d (lines_text parse ls.0 ++ line_text parse ls.1)) sum
          ∙ ap (λ (w : Text). of_delivered cap (long_lines (all_lines t)) w) joined)
