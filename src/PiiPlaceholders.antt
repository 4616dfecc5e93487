-- ===== src/PiiPlaceholders.antt =====
-- enclave/src/pii/core.mjs: the placeholders that pseudonymize issues and the texts it gives. The
-- entity key of a surface and the grammar's delimiters are parameters.
pub mod Free
pub mod Issuing
pub mod Replacing
pub mod Tests
use ppq_enclave_proxy.Prelude.{
  ℕ, zero, suc, ◌+◌, ◌-◌, Text, codes, eq_text, List, [], ◌∷◌, ◌++◌, Option, none, some, Bool, true,
  false, length, take, drop, any_of, if◌then◌else◌,
}
use ppq_enclave_proxy.Address.{number_text}
use ppq_enclave_proxy.JsMap.{get, put}
use ppq_enclave_proxy.PiiTokens.{taken_of}
use ppq_enclave_proxy.PiiSpans.{RawSpan, merge_spans, Span}

-- `taken.has`
abbrev pub is_taken : List Text → Text → Bool
is_taken taken s = any_of (λ (t : Text). eq_text t s) taken

-- The maps of a request.
pub record Issued : Type 0 where
  pub by_key : List (Text × Text)
  pub by_placeholder : List (Text × Text)
  pub counters : List (Text × ℕ)

abbrev pub none_issued : Issued
none_issued = record { by_key = []; by_placeholder = []; counters = [] }

abbrev or_zero : Option ℕ → ℕ
or_zero none = 0
or_zero (some n) = n

-- `counters.get(cls) ?? 0`
unfoldable pub counter_of : Text → Issued → ℕ
unfolding get
counter_of cls issued = or_zero (get cls issued.counters)

-- `slice`
abbrev pub slice : ℕ → ℕ → Text → Text
slice a b s = take (b - a) (drop a s)

-- `mergeSpans` of every text, the texts with their spans: none where one throws.
abbrev pub add_merged :
    Text → Option (List Span) → Option (List (Text × List Span)) → Option (List (Text × List Span))
add_merged s (some spans) (some texts) = some ((s, spans) ∷ texts)
add_merged s _ _ = none

unfoldable pub merge_texts : List (Text × List RawSpan) → Option (List (Text × List Span))
unfolding merge_spans
merge_texts [] = some []
merge_texts ((s, raws) ∷ texts) = add_merged s (merge_spans s raws) (merge_texts texts)

module _ (open_mark close_mark : Text) (taken : List Text) where
  unfoldable pub placeholder : Text → ℕ → Text
  unfolding number_text
  placeholder cls n = open_mark ++ (cls ++ (b'_' ∷ (number_text 10 n ++ close_mark)))

  -- The loop for a number whose placeholder is not taken, on fuel; `none` where the fuel does not do.
  unfoldable pub next_free : (fuel : ℕ) → Text → ℕ → Option ℕ
  unfolding placeholder
  next_free zero cls n = none
  next_free (suc fuel) cls n = elim (is_taken taken (placeholder cls (n + 1))) [
    | true ↦ next_free fuel cls (n + 1)
    | false ↦ some (n + 1)
  ]

  abbrev pub issue : Text → Text → Text → Issued → Option ℕ → Option (Option Text × Issued)
  unfolding put placeholder
  issue key cls surface issued none = none
  issue key cls surface issued (some n) =
      let ph = placeholder cls n in
      some (
        some ph,
        record {
          by_key = put key ph issued.by_key;
          by_placeholder = put ph surface issued.by_placeholder;
          counters = put cls n issued.counters;
        },
      )

  abbrev pub issue_unless :
      Text → Text → Text → Issued → Option Text → Option (Option Text × Issued)
  unfolding issue next_free counter_of
  issue_unless key cls surface issued (some ph) = some (some ph, issued)
  issue_unless key cls surface issued none =
      issue key cls surface issued (next_free (suc (length taken)) cls (counter_of cls issued))

  -- `placeholderFor`, with the entity key of the surface: the placeholder, none for a surface without
  -- a key, and the maps.
  unfoldable pub placeholder_for : Text → Text → Text → Issued → Option (Option Text × Issued)
  unfolding issue_unless get
  placeholder_for key cls surface issued =
      if eq_text key []
      then some (none, issued)
      else issue_unless key cls surface issued (get key issued.by_key)

  module _ (surface_key : Text → Text → Text) where
    -- What is done with a span after its placeholder is known.
    abbrev pub after_span :
        Text
        → Span
        → ℕ
        → Text
        → (ℕ → Text → Issued → Option (Text × Issued))
        → Option (Option Text × Issued)
        → Option (Text × Issued)
    after_span s span pos res rest none = none
    after_span s span pos res rest (some (none, issued)) = rest pos res issued
    after_span s span pos res rest (some (some ph, issued)) =
        rest span.end (res ++ (slice pos span.start s ++ ph)) issued

    -- The loop over the merged spans of a text, from a position and what is written already.
    unfoldable pub replace_spans : Text → List Span → ℕ → Text → Issued → Option (Text × Issued)
    unfolding placeholder_for
    replace_spans s [] pos res issued = some (res ++ drop pos s, issued)
    replace_spans s (span ∷ spans) pos res issued =
        let surface = slice span.start span.end s in
        after_span s span pos res (replace_spans s spans)
          (placeholder_for (surface_key span.cls surface) span.cls surface issued)

    abbrev pub add_written : Text → Option (List Text × Issued) → Option (List Text × Issued)
    add_written s none = none
    add_written s (some (ss, issued)) = some (s ∷ ss, issued)

    abbrev pub after_text :
        (Issued → Option (List Text × Issued))
        → Option (Text × Issued)
        → Option (List Text × Issued)
    after_text rest none = none
    after_text rest (some (s, issued)) = add_written s (rest issued)

    -- The texts of a request, each with its merged spans.
    unfoldable pub replace_texts : List (Text × List Span) → Issued → Option (List Text × Issued)
    unfolding replace_spans
    replace_texts [] issued = some ([], issued)
    replace_texts ((s, spans) ∷ texts) issued =
        after_text (replace_texts texts) (replace_spans s spans 0 [] issued)

    abbrev pub replace_merged : Option (List (Text × List Span)) → Option (List Text × Issued)
    unfolding replace_texts
    replace_merged none = none
    replace_merged (some texts) = replace_texts texts none_issued

-- `texts`, without the spans.
abbrev pub texts_of : List (Text × List RawSpan) → List Text
texts_of [] = []
texts_of ((s, raws) ∷ texts) = s ∷ texts_of texts

-- `pseudonymize`, for texts with their spans: the texts that go out, and the maps.
unfoldable pub pseudonymize :
    (open_mark close_mark : Text) (surface_key : Text → Text → Text)
    → List (Text × List RawSpan)
    → Option (List Text × Issued)
unfolding replace_merged merge_texts taken_of
pseudonymize open_mark close_mark surface_key texts =
    replace_merged open_mark close_mark (taken_of open_mark close_mark (texts_of texts)) surface_key
      (merge_texts texts)
