-- ===== src/ReasoningMirror/Streams.antt =====
-- The rewriting of an event stream that arrives in chunks.
use ppq_enclave_proxy.Prelude.{
  ℕ, ◌≡◌, inl, inr, refl, sym, ◌∙◌, Text, List, [], ◌∷◌, ◌++◌, Option, none, Bool, true, not,
  length, ltb, ◌==◌, if◌then◌else◌, Bool-cases, arith,
}
use mathlib.Core.List.{append_assoc, append-nil, flatten}
use ppq_enclave_proxy.Json.{Json}
use ppq_enclave_proxy.LineBuffer.{IsUniform, feed, feed_all, fresh}
use ppq_enclave_proxy.LineBuffer.Chunks.{feed_all-feed, fresh-IsReady}
use ppq_enclave_proxy.LineBuffer.Agree.{all_units, feed_all_agree, feed_agree_lem}
use ppq_enclave_proxy.ReasoningMirror.{
  chomp, with_return, mirror_reasoning_line, mirror_line, mirror, max_line_chars,
}

-- Any unit but the carriage return.
abbrev pub is_plain : ℕ → Bool
is_plain c = not (c == 13)

chomp-plain : (l : Text) → all_units is_plain l ≡ true → chomp l ≡ none
chomp-plain [] h = refl
chomp-plain (c ∷ []) h = ground arith
chomp-plain (c ∷ (d ∷ s)) h = rw (chomp-plain (d ∷ s) (ground arith)) refl

module _ (parse : Text → Option Json) (stringify : Json → Text) where
  mirror_reasoning_line-long :
      (l : Text)
      → ltb max_line_chars (length l) ≡ true
      → mirror_reasoning_line parse stringify l ≡ l
  unfolding mirror_reasoning_line
  mirror_reasoning_line-long l h = rw h refl

  mirror_line-plain :
      (l : Text)
      → all_units is_plain l ≡ true
      → mirror_line parse stringify l ≡ mirror_reasoning_line parse stringify l
  unfolding mirror_line with_return
  mirror_line-plain l h = rw (chomp-plain l h) refl

  -- A line past the limit goes out as it came.
  abbrev raw_long : Text → Text → Text
  raw_long out l =
      if ltb max_line_chars (length l)
      then out ++ (l ++ 10 ∷ [])
      else out ++ (mirror_line parse stringify l ++ 10 ∷ [])

  raw_long-line :
      (out l : Text)
      → all_units is_plain l ≡ true
      → (mirror parse stringify).line out l ≡ raw_long out l
  unfolding mirror
  raw_long-line out l h = elim (Bool-cases (ltb max_line_chars (length l))) [
    | inl over ↦ rw (over, mirror_line-plain l h, mirror_reasoning_line-long l over) refl
    | inr under ↦ rw under refl
  ]

  raw_long-IsUniform :
      IsUniform (record (mirror parse stringify) { line = raw_long }) max_line_chars
  unfolding mirror
  raw_long-IsUniform = record {
    long_line = λ out l long.
        let over : ltb max_line_chars (length l) ≡ true = ground arith in
        rw (over, append_assoc out l (10 ∷ [])) refl;
    overflow-append = λ out l s long. sym (append_assoc out l s);
    skip-append = λ out s t. sym (append_assoc out s t);
    skip-nil = λ out. append-nil out;
  }

  -- However a stream without carriage returns is cut into chunks, what has gone out and what is held
  -- are what they are for the whole text at once.
  pub feed_all-mirror :
      (chunks : List Text)
      → all_units is_plain (flatten chunks) ≡ true
      → feed_all (mirror parse stringify) max_line_chars (fresh []) chunks
        ≡ feed (mirror parse stringify) max_line_chars (fresh []) (flatten chunks)
  feed_all-mirror chunks h =
      let k = mirror parse stringify in
      feed_all_agree is_plain k raw_long max_line_chars raw_long-line (fresh []) chunks refl h
      ∙ feed_all-feed (record k { line = raw_long }) max_line_chars raw_long-IsUniform (fresh [])
          chunks (fresh-IsReady (record k { line = raw_long }) max_line_chars raw_long-IsUniform [])
      ∙ sym (
          feed_agree_lem is_plain k raw_long max_line_chars raw_long-line (fresh [])
            (flatten chunks) refl h)
