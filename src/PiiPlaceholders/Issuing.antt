-- ===== src/PiiPlaceholders/Issuing.antt =====
-- The placeholders of a request: distinct for distinct entities, and none of them taken.
use ppq_enclave_proxy.JsMap.Laws.{get-put}
use ppq_enclave_proxy.Prelude.{
  if◌then◌else◌, eq_text_refl, ◌⊎◌, ℕ, ◌≤◌, ◌≡◌, refl, Text, List, [], ◌∷◌, ◌++◌, some, Bool, true,
  false, arith, Bool-cases, inl, sym, ◌≢◌, subst, eq_text_iff, inr, ◌∙◌, is_upper,
}
use mathlib.Core.List.{append_cancel_left, head-eq_of_cons-eq, tail-eq_of_cons-eq}
use mathlib.Core.Option.{none-ne-some, some-injective}
use ppq_enclave_proxy.Address.{number_text}
use ppq_enclave_proxy.JsMap.{get, put}
use ppq_enclave_proxy.LineBuffer.Agree.{all_units}
use ppq_enclave_proxy.PiiTokens.Found.{is_class}
use ppq_enclave_proxy.PiiPlaceholders.{
  is_taken, Issued, none_issued, counter_of, placeholder, eq_text,
}
use ppq_enclave_proxy.PiiPlaceholders.Free.{IsFree, placeholder_inj}

class-word : (s : Text) → is_class s ≡ true → all_units is_upper s ≡ true
class-word [] h = refl
class-word (c ∷ s) h = h

word_inj :
    (s t x y : Text)
    → all_units is_upper s ≡ true
    → all_units is_upper t ≡ true
    → s ++ b'_' ∷ x ≡ t ++ b'_' ∷ y
    → s ≡ t
word_inj [] [] x y h k e = refl
word_inj [] (c ∷ t) x y h k e = let same : b'_' ≡ c = head-eq_of_cons-eq e in absurd (ground arith)
word_inj (c ∷ s) [] x y h k e = let same : c ≡ b'_' = head-eq_of_cons-eq e in absurd (ground arith)
word_inj (c ∷ s) (d ∷ t) x y h k e =
    let same : c ≡ d = head-eq_of_cons-eq e in
    let rest : s ≡ t = word_inj s t x y (ground arith) (ground arith) (tail-eq_of_cons-eq e) in
    rw (same, rest) refl

module _ (open_mark close_mark : Text) (taken : List Text) where
  abbrev name : Text → ℕ → Text
  name = placeholder open_mark close_mark taken

  placeholder-class :
      (cls other : Text) (m n : ℕ)
      → is_class cls ≡ true
      → is_class other ≡ true
      → name cls m ≡ name other n
      → cls ≡ other
  unfolding placeholder
  placeholder-class cls other m n h k e =
      word_inj cls other (number_text 10 m ++ close_mark) (number_text 10 n ++ close_mark)
        (class-word cls h) (class-word other k) (append_cancel_left open_mark _ _ e)

  -- A placeholder of a class, with a number up to the class's counter, that no text holds.
  abbrev pub IsNamed : Issued → Text → Type 0
  IsNamed issued ph =
      (cls : Text) × ((n : ℕ) × ((ph ≡ name cls n)
          × ((n ≤ counter_of cls issued) × ((is_class cls ≡ true) × (is_taken taken ph ≡ false)))))

  -- The placeholders of the entities are named so, and each is of one entity.
  pub record IsIssued (issued : Issued) : Type 0 where
    pub named : (key ph : Text) → get key issued.by_key ≡ some ph → IsNamed issued ph
    pub apart :
        (key other ph : Text)
        → get key issued.by_key ≡ some ph
        → get other issued.by_key ≡ some ph
        → key ≡ other

  pub none_issued-IsIssued : IsIssued none_issued
  unfolding get
  none_issued-IsIssued = record {
    named = λ key ph h. absurd (none-ne-some ph h);
    apart = λ key other ph h k. absurd (none-ne-some ph h);
  }

  module _ (key cls surface : Text) (issued : Issued) (n : ℕ) (w : is_class cls ≡ true)
      (free : IsFree open_mark close_mark taken cls (counter_of cls issued) n)
      (v : IsIssued issued) where
    abbrev pub after : Issued
    after = record {
      by_key = put key (name cls n) issued.by_key;
      by_placeholder = put (name cls n) surface issued.by_placeholder;
      counters = put cls n issued.counters;
    }

    counter_of-after :
        (c : Text) → counter_of c after ≡ (if eq_text cls c then n else counter_of c issued)
    unfolding counter_of
    counter_of-after c =
        rw (get-put cls c n issued.counters) (elim (Bool-cases (eq_text cls c)) [
          | inl same ↦ rw same refl
          | inr other ↦ rw other refl
        ])

    counter_of-le : (c : Text) → counter_of c issued ≤ counter_of c after
    counter_of-le c = rw (counter_of-after c) (elim (Bool-cases (eq_text cls c)) [
      | inl same ↦
          let eq : cls ≡ c = (eq_text_iff cls c).0 same in rw (same, ← eq) (omega (arith, free.0))
      | inr other ↦ rw other (omega arith)
    ])

    counter_of-same : counter_of cls after ≡ n
    counter_of-same = rw (counter_of-after cls, eq_text_refl cls) refl

    not_named : (other : Text) → get other issued.by_key ≢ some (name cls n)
    not_named other h =
        let old = v.named other (name cls n) h in
        let same : cls ≡ old.0 = placeholder-class cls old.0 n old.1.0 w old.1.1.1.1.0 old.1.1.0 in
        let renamed : name cls n ≡ name cls old.1.0 =
          subst (λ (c : Text). name cls n ≡ name c old.1.0) (sym same) old.1.1.0 in
        let number : n ≡ old.1.0 =
          placeholder_inj open_mark close_mark taken cls n old.1.0 renamed in
        let below : old.1.0 ≤ counter_of cls issued =
          subst (λ (c : Text). old.1.0 ≤ counter_of c issued) (sym same) old.1.1.1.0 in
        absurd (omega (arith, number, below, free.0))

    after_cases :
        (j ph : Text)
        → get j after.by_key ≡ some ph
        → ((key ≡ j) × (name cls n ≡ ph)) ⊎ (get j issued.by_key ≡ some ph)
    after_cases j ph h =
        let put_get = sym (get-put key j (name cls n) issued.by_key) ∙ h in
        elim (Bool-cases (eq_text key j)) [
          | inl same ↦ inl (
            (eq_text_iff key j).0 same,
            some-injective (name cls n) ph (
                subst
                  (λ (b : Bool). (if b then some (name cls n) else get j issued.by_key) ≡ some ph)
                  same put_get),
          )
          | inr other ↦ inr (
              subst (λ (b : Bool). (if b then some (name cls n) else get j issued.by_key) ≡ some ph)
                other put_get)
        ]

    pub after-IsIssued : IsIssued after
    after-IsIssued = record {
      named = λ j ph h. elim (after_cases j ph h) [
        | inl (same, new) ↦
            subst (λ (x : Text). IsNamed after x) new
              (cls, (n, (refl, (omega (arith, counter_of-same), (w, free.1)))))
        | inr old ↦
            let o = v.named j ph old in
            (
              o.0,
              (
                o.1.0,
                (
                  o.1.1.0,
                  (omega (arith, o.1.1.1.0, counter_of-le o.0), (o.1.1.1.1.0, o.1.1.1.1.1)),
                ),
              ),
            )
      ];
      apart = λ j k ph h g. elim (after_cases j ph h) [
        | inl (same, new) ↦ elim (after_cases k ph g) [
          | inl (same2, new2) ↦ sym same ∙ same2
          | inr old2 ↦
              absurd
                (not_named k (subst (λ (x : Text). get k issued.by_key ≡ some x) (sym new) old2))
        ]
        | inr old ↦ elim (after_cases k ph g) [
          | inl (same2, new2) ↦
              absurd
                (not_named j (subst (λ (x : Text). get j issued.by_key ≡ some x) (sym new2) old))
          | inr old2 ↦ v.apart j k ph old old2
        ]
      ];
    }
