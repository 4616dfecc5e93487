-- ===== src/OutputCounter/Finished.antt =====
-- What `finish` gives.
use ppq_enclave_proxy.Prelude.{
  subst, ℕ, zero, suc, ◌≡◌, ◌<◌, ◌≤◌, sym, ap, subst, ◌∙◌, ◌+◌, ◌-◌, ◌*◌, Text, List, Option, none,
  some, true, false, length, take, drop, ltb, inl, inr, Bool-cases, Option-cases, arith,
  length-take-min, length-drop, refl,
}
use mathlib.Core.Option.{none-ne-some, some-injective}
use mathlib.Core.List.{flatten}
use ppq_enclave_proxy.Json.{Json}
use ppq_enclave_proxy.OutputCounter.Delivered.{of_delivered, lines_text, all_lines, long_lines}
use ppq_enclave_proxy.OutputCounter.Whole.{count_all-of_delivered}
use ppq_enclave_proxy.OutputCounter.{
  total, Total, finish, by_ratio, Counted, count_last, count_all, total, Total, finish, by_ratio,
  Counted, Counted, Total, by_ratio, slice_tokens, count_slices, finish, total,
  tokenize_slice_chars,
}

-- A tokenizer that gives a text with characters a token at least.
abbrev pub CountsText : (Text → Option ℕ) → Type 0
CountsText count_tokens = (s : Text) (n : ℕ) → 0 < length s → count_tokens s ≡ some n → 0 < n

module _ (count_tokens : Text → Option ℕ) where
  slice_tokens-pos :
      CountsText count_tokens → (s : Text) → 0 < length s → 0 < slice_tokens count_tokens s
  slice_tokens-pos h s pos = elim (Option-cases (count_tokens s)) [
    | inl rejected ↦ rw (rejected, slice_tokens) (omega arith)
    | inr (n, counted) ↦ rw (counted, slice_tokens) (h s n pos counted)
  ]

  -- The tokens of the slice that starts at an index.
  abbrev tokens_at : Text → ℕ → ℕ
  tokens_at s i = slice_tokens count_tokens (take tokenize_slice_chars (drop i s))

  count_slices_more :
      (fuel : ℕ) (s : Text) (i tokens : ℕ)
      → ltb i (length s) ≡ true
      → count_slices count_tokens (suc fuel) s i tokens
        ≡ count_slices count_tokens fuel s (i + tokenize_slice_chars) (tokens + tokens_at s i)
  unfolding count_slices
  count_slices_more fuel s i tokens h = rw (h, count_slices) refl

  count_slices_done :
      (fuel : ℕ) (s : Text) (i tokens : ℕ)
      → ltb i (length s) ≡ false
      → count_slices count_tokens (suc fuel) s i tokens ≡ some tokens
  unfolding count_slices
  count_slices_done fuel s i tokens h = rw (h, count_slices) refl

  count_slices-some :
      (fuel : ℕ) (s : Text) (i tokens : ℕ)
      → length s ≤ i + tokenize_slice_chars * fuel
      → (n : ℕ) × (count_slices count_tokens (suc fuel) s i tokens ≡ some n)
  count_slices-some zero s i tokens h = (tokens, count_slices_done zero s i tokens (ground arith))
  count_slices-some (suc fuel) s i tokens h = elim (Bool-cases (ltb i (length s))) [
    | inl more ↦
        rw (count_slices_more (suc fuel) s i tokens more) (
          count_slices-some fuel s (i + tokenize_slice_chars) (tokens + tokens_at s i)
            (omega arith))
    | inr done ↦ (tokens, count_slices_done (suc fuel) s i tokens done)
  ]

  tokens_at-pos :
      CountsText count_tokens → (s : Text) (i : ℕ) → ltb i (length s) ≡ true → 0 < tokens_at s i
  tokens_at-pos h s i more =
      let some_left : 0 < length (take tokenize_slice_chars (drop i s)) =
        ground (arith, length-take-min tokenize_slice_chars (drop i s), length-drop i s) in
      slice_tokens-pos h (take tokenize_slice_chars (drop i s)) some_left

  count_slices-bound :
      (h : CountsText count_tokens) (fuel : ℕ) (s : Text) (i tokens n : ℕ)
      → count_slices count_tokens fuel s i tokens ≡ some n
      → length s ≤ tokenize_slice_chars * tokens + (length s - i)
      → length s ≤ tokenize_slice_chars * n
  unfolding count_slices
  count_slices-bound h zero s i tokens n e le = absurd (none-ne-some n e)
  count_slices-bound h (suc fuel) s i tokens n e le = elim (Bool-cases (ltb i (length s))) [
    | inl more ↦
        count_slices-bound h fuel s (i + tokenize_slice_chars) (tokens + tokens_at s i) n
          (sym (count_slices_more fuel s i tokens more) ∙ e)
          (omega (arith, tokens_at-pos h s i more))
    | inr done ↦ ground (arith, count_slices_done fuel s i tokens done)
  ]

-- With any tokenizer, one that does not load or that rejects slices included, the count ends, and the
-- characters it reports are those that were counted.
pub finish-some :
    (tokenizer : Option (Text → Option ℕ)) (c : Counted)
    → (r : Total) × (finish tokenizer c ≡ some r) × (r.chars ≡ c.chars)
unfolding finish
finish-some none c = (total c (by_ratio (length c.text)), refl, refl)
finish-some (some count_tokens) c =
    let r = count_slices-some count_tokens (length c.text) c.text 0 0 (omega arith) in
    (total c r.0, rw r.1 refl, refl)

tokens-bound :
    (tokenizer : Option (Text → Option ℕ)) (c : Counted) (r : Total)
    → ((f : Text → Option ℕ) → tokenizer ≡ some f → CountsText f)
    → finish tokenizer c ≡ some r
    → length c.text + c.overflow_chars ≤ tokenize_slice_chars * r.tokens
unfolding finish
tokens-bound none c r h e =
    let t : r.tokens ≡ by_ratio (length c.text) + by_ratio c.overflow_chars =
      ap (λ (x : Total). x.tokens) (sym (some-injective _ _ e)) in
    omega (arith, t)
tokens-bound (some count_tokens) c r h e =
    let s = count_slices-some count_tokens (length c.text) c.text 0 0 (omega arith) in
    let kept : length c.text ≤ tokenize_slice_chars * s.0 =
      count_slices-bound count_tokens (h count_tokens refl) (suc (length c.text)) c.text 0 0 s.0 s.1
        (omega arith) in
    let counted : finish (some count_tokens) c ≡ some (total c s.0) = rw s.1 refl in
    let t : r.tokens ≡ s.0 + by_ratio c.overflow_chars =
      ap (λ (x : Total). x.tokens) (some-injective _ _ (sym e ∙ counted)) in
    omega (arith, t, kept)

-- Where the tokenizer gives a text with characters a token at least, an answer that delivered
-- characters is settled on tokens: at least one for each 2,000 characters.
pub finish-bound :
    (cap : ℕ) (parse : Text → Option Json) (tokenizer : Option (Text → Option ℕ))
    (chunks : List Text) (r : Total)
    → ((f : Text → Option ℕ) → tokenizer ≡ some f → CountsText f)
    → finish tokenizer (count_last cap parse (count_all cap parse chunks)) ≡ some r
    → length (lines_text parse (all_lines (flatten chunks))) ≤ tokenize_slice_chars * r.tokens
finish-bound cap parse tokenizer chunks r h e =
    let w = lines_text parse (all_lines (flatten chunks)) in
    let c = of_delivered cap (long_lines (all_lines (flatten chunks))) w in
    let counted : finish tokenizer c ≡ some r =
      subst (λ (x : Counted). finish tokenizer x ≡ some r) (count_all-of_delivered cap parse chunks)
        e in
    omega (arith, tokens-bound tokenizer c r h counted, length-take-min cap w)
