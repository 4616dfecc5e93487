-- ===== src/PiiPlaceholders/Replacing.antt =====
-- The replacement of the spans of a request.
use ppq_enclave_proxy.Prelude.{
  subst, ℕ, ◌≡◌, inl, inr, refl, Text, eq_text, List, [], ◌∷◌, ◌++◌, Option, none, some, Bool, true,
  ◌&&◌, Bool-cases, Option-cases, arith, drop, All, contains, ◌∙◌, ap, sym,
}
use ppq_enclave_proxy.JsMap.{get}
use mathlib.Core.Option.{none-ne-some, some-injective}
use ppq_enclave_proxy.PiiSpans.{Span, RawSpan, merge_spans}
use ppq_enclave_proxy.PiiSpans.Kept.{all_spans}
use ppq_enclave_proxy.PiiSpans.Bounds.{merge_spans-class}
use ppq_enclave_proxy.PiiPlaceholders.{
  add_merged, merge_texts, replace_merged, pseudonymize, Issued, none_issued, counter_of,
  placeholder, issue, issue_unless, placeholder_for, slice, after_span, replace_spans,
  replace_texts, texts_of, false, is_taken,
}
use ppq_enclave_proxy.Address.{number_text}
use mathlib.Core.List.{append_assoc}
use ppq_enclave_proxy.PiiTokens.{taken_of, delimited}
use ppq_enclave_proxy.PiiTokens.Found.{is_class, AreDelimiters, taken_of-free}
use ppq_enclave_proxy.PiiPlaceholders.Free.{next_free-some}
use ppq_enclave_proxy.PiiPlaceholders.Issuing.{
  IsIssued, none_issued-IsIssued, after, after-IsIssued,
}

-- The classes of the spans are letters.
abbrev pub all_words : List Span → Bool
all_words [] = true
all_words (span ∷ spans) = is_class span.cls && all_words spans

abbrev pub all_texts_words : List (Text × List Span) → Bool
all_texts_words [] = true
all_texts_words ((s, spans) ∷ texts) = all_words spans && all_texts_words texts

all_words-spans :
    (spans : List Span)
    → all_spans (λ (span : Span). is_class span.cls) spans ≡ true
    → all_words spans ≡ true
all_words-spans [] h = refl
all_words-spans (span ∷ spans) h = ground (arith, all_words-spans spans)

module _ (open_mark close_mark : Text) (taken : List Text) where
  -- A result, with maps that are well formed.
  abbrev pub Gives : {A : Type 0} → Option (A × Issued) → Type 0
  Gives {A} r =
      (x : A) × ((issued : Issued) × ((r ≡ some (x, issued))
          × IsIssued open_mark close_mark taken issued))

  placeholder_for-Gives :
      (key cls surface : Text) (issued : Issued)
      → is_class cls ≡ true
      → IsIssued open_mark close_mark taken issued
      → Gives (placeholder_for open_mark close_mark taken key cls surface issued)
  unfolding placeholder_for issue issue_unless
  placeholder_for-Gives key cls surface issued w v = elim (Bool-cases (eq_text key [])) [
    | inl blank ↦ (none, (issued, (rw blank refl, v)))
    | inr some_key ↦ elim (Option-cases (get key issued.by_key)) [
      | inl new ↦
          let f = next_free-some open_mark close_mark taken cls (counter_of cls issued) in
          (
            some (placeholder open_mark close_mark taken cls f.0),
            (
              after open_mark close_mark taken key cls surface issued f.0 w f.1.1 v,
              (
                rw (some_key, new, f.1.0) refl,
                after-IsIssued open_mark close_mark taken key cls surface issued f.0 w f.1.1 v,
              ),
            ),
          )
      | inr (ph, there) ↦ (some ph, (issued, (rw (some_key, there) refl, v)))
    ]
  ]

  module _ (surface_key : Text → Text → Text) where
    after_span-Gives :
        (s : Text) (span : Span) (pos : ℕ) (res : Text)
        (rest : ℕ → Text → Issued → Option (Text × Issued)) (x : Option Text) (issued : Issued)
        → ((pos : ℕ) (res : Text) → Gives (rest pos res issued))
        → Gives (
            after_span open_mark close_mark taken surface_key s span pos res rest
              (some (x, issued)))
    after_span-Gives s span pos res rest none issued h = h pos res
    after_span-Gives s span pos res rest (some ph) issued h =
        h span.end (res ++ (slice pos span.start s ++ ph))

    replace_spans-Gives :
        (s : Text) (spans : List Span) (pos : ℕ) (res : Text) (issued : Issued)
        → all_words spans ≡ true
        → IsIssued open_mark close_mark taken issued
        → Gives (replace_spans open_mark close_mark taken surface_key s spans pos res issued)
    unfolding replace_spans
    replace_spans-Gives s [] pos res issued h v = (res ++ drop pos s, (issued, (refl, v)))
    replace_spans-Gives s (span ∷ spans) pos res issued h v =
        let surface = slice span.start span.end s in
        let word : is_class span.cls ≡ true = ground arith in
        let rest : all_words spans ≡ true = ground arith in
        let p =
          placeholder_for-Gives (surface_key span.cls surface) span.cls surface issued word v in
        rw p.1.1.0 (
          after_span-Gives s span pos res
            (replace_spans open_mark close_mark taken surface_key s spans) p.0 p.1.0
            (λ pos res. replace_spans-Gives s spans pos res p.1.0 rest p.1.1.1))

    replace_texts-Gives :
        (texts : List (Text × List Span)) (issued : Issued)
        → all_texts_words texts ≡ true
        → IsIssued open_mark close_mark taken issued
        → Gives (replace_texts open_mark close_mark taken surface_key texts issued)
    unfolding replace_texts
    replace_texts-Gives [] issued h v = ([], (issued, (refl, v)))
    replace_texts-Gives ((s, spans) ∷ texts) issued h v =
        let r = replace_spans-Gives s spans 0 [] issued (ground arith) v in
        let rs = replace_texts-Gives texts r.1.0 (ground arith) r.1.1.1 in
        (r.0 ∷ rs.0, (rs.1.0, (rw (r.1.1.0, rs.1.1.0) refl, rs.1.1.1)))

add_merged_cases :
    (s : Text) (x : Option (List Span)) (y : Option (List (Text × List Span)))
    (out : List (Text × List Span))
    → add_merged s x y ≡ some out
    → (spans : List Span) × ((texts : List (Text × List Span)) × ((x ≡ some spans)
          × ((y ≡ some texts) × ((s, spans) ∷ texts ≡ out))))
add_merged_cases s (some spans) (some texts) out h =
    (spans, (texts, (refl, (refl, some-injective ((s, spans) ∷ texts) out h))))
add_merged_cases s none y out h = absurd (none-ne-some out h)
add_merged_cases s (some spans) none out h = absurd (none-ne-some out h)

merge_texts-words :
    (texts : List (Text × List RawSpan)) (merged : List (Text × List Span))
    → merge_texts texts ≡ some merged
    → all_texts_words merged ≡ true
unfolding merge_texts
merge_texts-words [] merged h =
    subst (λ (x : List (Text × List Span)). all_texts_words x ≡ true) (some-injective [] merged h)
      refl
merge_texts-words ((s, raws) ∷ texts) merged h =
    let c = add_merged_cases s (merge_spans s raws) (merge_texts texts) merged h in
    let words : all_words c.0 ≡ true =
      all_words-spans c.0 (merge_spans-class is_class s raws c.0 refl c.1.1.0) in
    subst (λ (x : List (Text × List Span)). all_texts_words x ≡ true) c.1.1.1.1
      (rw (words, merge_texts-words texts c.1.0 c.1.1.1.0) refl)

-- What is issued for the texts stands in none of them.
abbrev pub AreNew : List Text → Issued → Type 0
AreNew texts issued =
    (key ph : Text)
    → get key issued.by_key ≡ some ph
    → All (λ (t : Text). contains t ph ≡ false) texts

IsIssued-AreNew :
    (open_mark close_mark : Text) (texts : List Text) (issued : Issued)
    → AreDelimiters open_mark close_mark
    → IsIssued open_mark close_mark (taken_of open_mark close_mark texts) issued
    → AreNew texts issued
unfolding placeholder
IsIssued-AreNew open_mark close_mark texts issued plain v key ph h =
    let (cls, (n, (e, (_, (k, free))))) = v.named key ph h in
    let spelled : ph ≡ delimited open_mark close_mark (cls ++ b'_' ∷ number_text 10 n) =
      e
      ∙ ap (λ (x : Text). open_mark ++ x)
          (sym (append_assoc cls (b'_' ∷ number_text 10 n) close_mark)) in
    subst (λ (x : Text). All (λ (t : Text). contains t x ≡ false) texts) (sym spelled)
      (taken_of-free open_mark close_mark plain cls n texts k (
        subst (λ (x : Text). is_taken (taken_of open_mark close_mark texts) x ≡ false) spelled
          free))

-- Where the spans of every text are valid, the texts are rewritten. The placeholders that are issued
-- for them are different for different entities. Where the opening delimiter ends in no letter,
-- underscore or digit, and the closing one starts with no digit, none of them stands in one of the
-- texts already.
pub pseudonymize-IsIssued :
    (open_mark close_mark : Text) (surface_key : Text → Text → Text)
    (texts : List (Text × List RawSpan)) (merged : List (Text × List Span))
    → AreDelimiters open_mark close_mark
    → merge_texts texts ≡ some merged
    → (out : List Text) × ((issued : Issued) × ((pseudonymize open_mark close_mark surface_key texts
            ≡ some (out, issued))
          × (IsIssued open_mark close_mark (taken_of open_mark close_mark (texts_of texts)) issued
              × AreNew (texts_of texts) issued)))
unfolding pseudonymize replace_merged
pseudonymize-IsIssued open_mark close_mark surface_key texts merged plain h =
    let taken = taken_of open_mark close_mark (texts_of texts) in
    let (out, (issued, (e, v))) =
      replace_texts-Gives open_mark close_mark taken surface_key merged none_issued
        (merge_texts-words texts merged h) (none_issued-IsIssued open_mark close_mark taken) in
    (
      out,
      (issued, (rw h e, (v, IsIssued-AreNew open_mark close_mark (texts_of texts) issued plain v))),
    )
