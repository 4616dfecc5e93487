-- ===== src/FirstToken/Lines.antt =====
-- What the detector reports, by the lines of the stream.
use ppq_enclave_proxy.Prelude.{
  suc, ◌≤◌, ℕ, ◌≡◌, ◌≤◌, inl, inr, refl, sym, ap, subst, ◌∙◌, Text, List, [], ◌∷◌, ◌++◌, Option,
  none, some, Bool, true, false, ◌&&◌, not, length, ltb, Bool-cases, Option-cases, arith,
  length-append,
}
use mathlib.Core.List.{append_assoc, append-nil, flatten}
use ppq_enclave_proxy.LineBuffer.{split_lines}
use ppq_enclave_proxy.LineBuffer.Split.{
  prepend, split_lines-prepend, split_lines-append, last-whole,
}
use ppq_enclave_proxy.LineBuffer.Units.{split_lines_last, has_newline}
use ppq_enclave_proxy.Json.{Json}
use ppq_enclave_proxy.FirstToken.{
  Kind, Detector, stopped, listening, or_else, first_kind, still_pending, keep_pending, report,
  feed, reports, max_pending_chars, line_kind,
}

-- No line is past the limit.
abbrev pub all_short : List Text → Bool
all_short [] = true
all_short (l ∷ ls) = not (ltb max_pending_chars (length l)) && all_short ls

-- The lines of a text, with the last.
abbrev pub lines_of : Text → List Text
lines_of s = (split_lines s).0 ++ (split_lines s).1 ∷ []

all_short-append : (ls ms : List Text) → all_short (ls ++ ms) ≡ (all_short ls && all_short ms)
all_short-append [] ms = refl
all_short-append (l ∷ ls) ms = rw (all_short-append ls ms) (ground arith)

short_start :
    (p : Text) (ls : List Text) (last : Text)
    → all_short ((prepend p (ls, last)).0 ++ (prepend p (ls, last)).1 ∷ []) ≡ true
    → ltb max_pending_chars (length p) ≡ false
short_start p [] last h = ground (arith, length-append p last)
short_start p (l ∷ ls) last h = ground (arith, length-append p l)

and_right : (a b : Bool) → (a && b) ≡ true → b ≡ true
and_right a b h = ground arith

or_else_assoc : (x y z : Option Kind) → or_else (or_else x y) z ≡ or_else x (or_else y z)
or_else_assoc none y z = refl
or_else_assoc (some k) y z = refl

-- The first of the reports.
abbrev pub first_report : List (Option Kind) → Option Kind
first_report [] = none
first_report (r ∷ rs) = or_else r (first_report rs)

module _ (parse : Text → Option Json) where
  first_kind-append :
      (ls ms : List Text)
      → first_kind parse [] (ls ++ ms) ≡ or_else (first_kind parse [] ls) (first_kind parse [] ms)
  unfolding first_kind
  first_kind-append [] ms = refl
  first_kind-append (l ∷ ls) ms =
      rw (first_kind-append ls ms)
        (sym (or_else_assoc (line_kind parse l) (first_kind parse [] ls) (first_kind parse [] ms)))

  joined_lem :
      (p : Text) (x : List Text × Text)
      → report parse (first_kind parse p x.0) (still_pending parse p x.0 x.1)
        ≡ report parse (first_kind parse [] (prepend p x).0) (prepend p x).1
  unfolding first_kind
  joined_lem p ([], last) = refl
  joined_lem p (l ∷ ls, last) = refl

  -- A chunk is read as the pending text and the chunk together.
  feed-listening :
      (p chunk : Text)
      → has_newline p ≡ false
      → feed parse (listening p) chunk
        ≡ report parse
            (first_kind parse [] (split_lines (p ++ chunk)).0)
            (split_lines (p ++ chunk)).1
  unfolding feed
  feed-listening p chunk h = rw (split_lines-prepend p chunk h) (joined_lem p (split_lines chunk))

  reports-stopped : (chunks : List Text) → first_report (reports parse stopped chunks) ≡ none
  unfolding reports feed
  reports-stopped [] = refl
  reports-stopped (chunk ∷ chunks) = reports-stopped chunks

  lines_of-append :
      (s t : Text) → lines_of (s ++ t) ≡ (split_lines s).0 ++ lines_of ((split_lines s).1 ++ t)
  lines_of-append s t =
      let last = (split_lines s).1 in
      rw (split_lines-append s t) (
        append_assoc (split_lines s).0 (split_lines (last ++ t)).0
          ((split_lines (last ++ t)).1 ∷ []))

  kinds-append :
      (p chunk t : Text)
      → first_kind parse [] (split_lines (p ++ (chunk ++ t))).0
        ≡ or_else
            (first_kind parse [] (split_lines (p ++ chunk)).0)
            (first_kind parse [] (split_lines ((split_lines (p ++ chunk)).1 ++ t)).0)
  kinds-append p chunk t =
      rw (← append_assoc p chunk t, split_lines-append (p ++ chunk) t)
        (first_kind-append (split_lines (p ++ chunk)).0
          (split_lines ((split_lines (p ++ chunk)).1 ++ t)).0)

  keep_pending_fits :
      (s : Text) → ltb max_pending_chars (length s) ≡ false → keep_pending parse s ≡ listening s
  keep_pending_fits s h = rw h refl

  reports-from :
      (p : Text) (chunks : List Text)
      → has_newline p ≡ false
      → all_short (lines_of (p ++ flatten chunks)) ≡ true
      → first_report (reports parse (listening p) chunks)
        ≡ first_kind parse [] (split_lines (p ++ flatten chunks)).0
  unfolding reports flatten
  reports-from p [] h g = rw (append-nil p, split_lines_last p h) refl
  reports-from p (chunk ∷ chunks) h g =
      let s = p ++ chunk in
      let last = (split_lines s).1 in
      let whole : lines_of (p ++ (chunk ++ flatten chunks))
          ≡ (split_lines s).0 ++ lines_of (last ++ flatten chunks) =
        ap (λ (x : Text). lines_of x) (sym (append_assoc p chunk (flatten chunks)))
        ∙ lines_of-append s (flatten chunks) in
      let short : all_short (lines_of (last ++ flatten chunks)) ≡ true =
        and_right (all_short (split_lines s).0) (all_short (lines_of (last ++ flatten chunks))) (
          sym (all_short-append (split_lines s).0 (lines_of (last ++ flatten chunks)))
          ∙ ap (λ (x : List Text). all_short x) (sym whole)
          ∙ g) in
      let fits : ltb max_pending_chars (length last) ≡ false =
        short_start last (split_lines (flatten chunks)).0 (split_lines (flatten chunks)).1 (
          subst (λ (x : List Text × Text). all_short (x.0 ++ x.1 ∷ []) ≡ true)
            (split_lines-prepend last (flatten chunks) (last-whole s)) short) in
      let total = kinds-append p chunk (flatten chunks) in
      elim (Option-cases (first_kind parse [] (split_lines s).0)) [
        | inl quiet ↦
            rw (feed-listening p chunk h, quiet)
              (ap (λ (x : Detector). first_report (reports parse x chunks))
                  (keep_pending_fits last fits)
                ∙ reports-from last chunks (last-whole s) short
                ∙ sym (
                    total
                    ∙ ap
                        (λ (x : Option Kind).
                          or_else x (first_kind parse [] (split_lines (last ++ flatten chunks)).0))
                        quiet))
        | inr (k, found) ↦
            rw (feed-listening p chunk h, found)
              (sym (
                total
                ∙ ap
                    (λ (x : Option Kind).
                      or_else x (first_kind parse [] (split_lines (last ++ flatten chunks)).0))
                    found))
      ]

  -- Where no line of the stream is past 1,048,576 units, the detector's first report is the kind of
  -- the first complete line that has one, however the stream is cut into chunks.
  pub reports-first_kind :
      (chunks : List Text)
      → all_short (lines_of (flatten chunks)) ≡ true
      → first_report (reports parse (listening []) chunks)
        ≡ first_kind parse [] (split_lines (flatten chunks)).0
  reports-first_kind chunks g = reports-from [] chunks refl g

  -- How many kinds are reported.
  abbrev pub reported : List (Option Kind) → ℕ
  reported [] = 0
  reported (none ∷ rs) = reported rs
  reported (some k ∷ rs) = suc (reported rs)

  reported-stopped : (chunks : List Text) → reported (reports parse stopped chunks) ≡ 0
  unfolding reports feed
  reported-stopped [] = refl
  reported-stopped (chunk ∷ chunks) = reported-stopped chunks

  reported-report :
      (r : Option Kind) (s : Text) (chunks : List Text)
      → ((d : Detector) → reported (reports parse d chunks) ≤ 1)
      → reported ((report parse r s).0 ∷ reports parse (report parse r s).1 chunks) ≤ 1
  reported-report none s chunks h = h (keep_pending parse s)
  reported-report (some k) s chunks h = omega (arith, reported-stopped chunks)

  -- From any state, a detector reports one kind at most.
  pub reports-once : (d : Detector) (chunks : List Text) → reported (reports parse d chunks) ≤ 1
  unfolding reports feed
  reports-once d [] = omega arith
  reports-once d (chunk ∷ chunks) = elim (Bool-cases d.done) [
    | inl on ↦ rw on (reports-once (record { done = true; pending = d.pending }) chunks)
    | inr off ↦
        let ls = split_lines chunk in
        rw off (
          reported-report (first_kind parse d.pending ls.0)
            (still_pending parse d.pending ls.0 ls.1) chunks (λ e. reports-once e chunks))
  ]
