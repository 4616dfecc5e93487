-- ===== src/PiiTokens/Found.antt =====
-- A placeholder that stands in a text is among the tokens of the text.
use ppq_enclave_proxy.Address.Numbers.{IsNumber, number_text-IsNumber}
use mathlib.Core.List.{append_assoc, append-nil}
use ppq_enclave_proxy.Prelude.{
  ℕ, ◌≡◌, inl, inr, refl, sym, ap, subst, ◌∙◌, Text, starts_with, contains, is_upper, is_digit,
  eq_text, eq_text_refl, map, List, [], ◌∷◌, ◌++◌, Bool, true, false, not, ◌&&◌, ◌==◌, arith,
  Bool-cases, All, eq_text_iff,
}
use ppq_enclave_proxy.LineBuffer.Agree.{all_units}
use ppq_enclave_proxy.Address.{number_text}
use ppq_enclave_proxy.PiiTokens.{
  Before, nothing, letters, underscore, digits, after_unit, finished_before, tokens_from,
  bare_tokens, delimited, placeholders_from, taken_of, any_of,
}

-- One of the tokens.
abbrev pub is_among : List Text → Text → Bool
is_among ts s = any_of (λ (t : Text). eq_text t s) ts

-- No part of a token.
abbrev pub is_plain : ℕ → Bool
is_plain c = not (is_upper c) && not (c == b'_') && not (is_digit c)

-- The last unit is no part of a token.
abbrev pub ends_plain : Text → Bool
ends_plain [] = false
ends_plain (c ∷ []) = is_plain c
ends_plain (c ∷ d ∷ s) = ends_plain (d ∷ s)

-- The first unit is no digit.
abbrev pub starts_undigit : Text → Bool
starts_undigit [] = false
starts_undigit (c ∷ s) = not (is_digit c)

-- Delimiters that leave a token between them as it is.
abbrev pub AreDelimiters : Text → Text → Type 0
AreDelimiters open_mark close_mark =
    (ends_plain open_mark ≡ true) × (starts_undigit close_mark ≡ true)

is_among-right :
    (ts us : List Text) (s : Text) → is_among us s ≡ true → is_among (ts ++ us) s ≡ true
is_among-right [] us s h = h
is_among-right (t ∷ ts) us s h = ground (arith, is_among-right ts us s h)

is_among-left : (ts us : List Text) (s : Text) → is_among ts s ≡ true → is_among (ts ++ us) s ≡ true
is_among-left [] us s h = ground arith
is_among-left (t ∷ ts) us s h = ground (arith, is_among-left ts us s)

-- A token that is found from any place is found after a text.
abbrev Throughout : Text → Text → Type 0
Throughout x s = (b : Before) → is_among (tokens_from b s) x ≡ true

skip_unit :
    (x : Text) (b : Before) (c : ℕ) (s : Text)
    → is_among (tokens_from (after_unit b c) s) x ≡ true
    → is_among (tokens_from b (c ∷ s)) x ≡ true
unfolding tokens_from
skip_unit x b c s h = is_among-right (finished_before b c) (tokens_from (after_unit b c) s) x h

after_plain :
    (x o s : Text)
    → ends_plain o ≡ true
    → is_among (tokens_from nothing s) x ≡ true
    → Throughout x (o ++ s)
after_plain x [] s p h b = ground arith
after_plain x (c ∷ []) s p h b =
    let plain : after_unit b c ≡ nothing = ground arith in
    skip_unit x b c s (subst (λ (n : Before). is_among (tokens_from n s) x ≡ true) (sym plain) h)
after_plain x (c ∷ d ∷ o) s p h b =
    skip_unit x b c (d ∷ (o ++ s)) (after_plain x (d ∷ o) s p h (after_unit b c))

tokens_from-letter :
    (t : Text) (c : ℕ) (s : Text)
    → is_upper c ≡ true
    → (tokens_from nothing (c ∷ s) ≡ tokens_from (letters (c ∷ [])) s)
      × (tokens_from (letters t) (c ∷ s) ≡ tokens_from (letters (t ++ c ∷ [])) s)
unfolding tokens_from
tokens_from-letter t c s h =
    let undigit : is_digit c ≡ false = ground arith in rw (undigit, h) (refl, refl)

tokens_from-digit :
    (t : Text) (d : ℕ) (s : Text)
    → is_digit d ≡ true
    → (tokens_from (underscore t) (d ∷ s) ≡ tokens_from (digits (t ++ d ∷ [])) s)
      × (tokens_from (digits t) (d ∷ s) ≡ tokens_from (digits (t ++ d ∷ [])) s)
unfolding tokens_from
tokens_from-digit t d s h =
    let low : is_upper d ≡ false = ground arith in
    let other : (d == b'_') ≡ false = ground arith in rw (h, low, other) (refl, refl)

tokens_from-letters :
    (cs s t : Text)
    → all_units is_upper cs ≡ true
    → tokens_from (letters t) (cs ++ s) ≡ tokens_from (letters (t ++ cs)) s
unfolding tokens_from
tokens_from-letters [] s t h = ap (λ (x : Text). tokens_from (letters x) s) (sym (append-nil t))
tokens_from-letters (c ∷ cs) s t h =
    (tokens_from-letter t c (cs ++ s) (ground arith)).1
    ∙ tokens_from-letters cs s (t ++ c ∷ []) (ground arith)
    ∙ ap (λ (x : Text). tokens_from (letters x) s) (append_assoc t (c ∷ []) cs)

tokens_from-digits :
    (ds s t : Text)
    → all_units is_digit ds ≡ true
    → tokens_from (digits t) (ds ++ s) ≡ tokens_from (digits (t ++ ds)) s
unfolding tokens_from
tokens_from-digits [] s t h = ap (λ (x : Text). tokens_from (digits x) s) (sym (append-nil t))
tokens_from-digits (d ∷ ds) s t h =
    (tokens_from-digit t d (ds ++ s) (ground arith)).1
    ∙ tokens_from-digits ds s (t ++ d ∷ []) (ground arith)
    ∙ ap (λ (x : Text). tokens_from (digits x) s) (append_assoc t (d ∷ []) ds)

tokens_from-closed :
    (t s : Text) → starts_undigit s ≡ true → is_among (tokens_from (digits t) s) t ≡ true
unfolding tokens_from
tokens_from-closed t [] h = ground arith
tokens_from-closed t (c ∷ s) h =
    let undigit : is_digit c ≡ false = ground arith in rw (undigit, eq_text_refl t) refl

-- A class, the underscore and some digits are a token before what is no digit.
tokens_from-token :
    (c : ℕ) (cs : Text) (d : ℕ) (ds s : Text)
    → all_units is_upper (c ∷ cs) ≡ true
    → all_units is_digit (d ∷ ds) ≡ true
    → starts_undigit s ≡ true
    → is_among
        (tokens_from nothing ((c ∷ cs) ++ b'_' ∷ ((d ∷ ds) ++ s)))
        ((c ∷ cs) ++ b'_' ∷ d ∷ ds)
      ≡ true
unfolding tokens_from
tokens_from-token c cs d ds s u n p =
    let cls = c ∷ cs in
    let token = cls ++ b'_' ∷ d ∷ ds in
    let rest = (d ∷ ds) ++ s in
    let of_class : tokens_from nothing (cls ++ b'_' ∷ rest)
        ≡ tokens_from (letters cls) (b'_' ∷ rest) =
      (tokens_from-letter [] c (cs ++ b'_' ∷ rest) (ground arith)).0
      ∙ tokens_from-letters cs (b'_' ∷ rest) (c ∷ []) (ground arith) in
    let of_digits : tokens_from (letters cls) (b'_' ∷ rest)
        ≡ tokens_from (digits ((cls ++ b'_' ∷ []) ++ d ∷ ds)) s =
      (tokens_from-digit (cls ++ b'_' ∷ []) d (ds ++ s) (ground arith)).0
      ∙ tokens_from-digits ds s ((cls ++ b'_' ∷ []) ++ d ∷ []) (ground arith)
      ∙ ap (λ (x : Text). tokens_from (digits x) s) (append_assoc (cls ++ b'_' ∷ []) (d ∷ []) ds) in
    let whole : (cls ++ b'_' ∷ []) ++ d ∷ ds ≡ token = append_assoc cls (b'_' ∷ []) (d ∷ ds) in
    ap (λ (ts : List Text). is_among ts token)
      (of_class ∙ of_digits ∙ ap (λ (x : Text). tokens_from (digits x) s) whole)
    ∙ tokens_from-closed token s p

-- Letters, and at least one.
abbrev pub is_class : Text → Bool
is_class [] = false
is_class (c ∷ s) = all_units is_upper (c ∷ s)

class_token :
    (cls ds s : Text)
    → is_class cls ≡ true
    → IsNumber ds
    → starts_undigit s ≡ true
    → is_among (tokens_from nothing (cls ++ b'_' ∷ (ds ++ s))) (cls ++ b'_' ∷ ds) ≡ true
class_token [] ds s k n p = ground arith
class_token (c ∷ cs) [] s k n p = absurd n
class_token (c ∷ cs) (d ∷ ds) s k n p = tokens_from-token c cs d ds s k n p

starts_undigit-append : (s t : Text) → starts_undigit s ≡ true → starts_undigit (s ++ t) ≡ true
starts_undigit-append [] t h = ground arith
starts_undigit-append (c ∷ s) t h = h

starts_with_split : (t u : Text) → starts_with t u ≡ true → (post : Text) × (t ≡ u ++ post)
starts_with_split t [] h = (t, refl)
starts_with_split [] (y ∷ u) h = ground arith
starts_with_split (x ∷ t) (y ∷ u) h =
    let same : x ≡ y = ground arith in
    let (post, e) = starts_with_split t u (ground arith) in
    (post, ap (λ (z : ℕ). z ∷ t) same ∙ ap (λ (r : Text). y ∷ r) e)

-- What is found wherever a text starts is found in a text that contains it.
contains-found :
    (x u : Text)
    → ((post : Text) → Throughout x (u ++ post))
    → (t : Text) → contains t u ≡ true
    → Throughout x t
unfolding contains
contains-found x u h [] k b =
    let (post, e) = starts_with_split [] u k in
    subst (λ (t : Text). Throughout x t) (sym e) (h post) b
contains-found x u h (c ∷ t) k b = elim (Bool-cases (starts_with (c ∷ t) u)) [
  | inl here ↦
      let (post, e) = starts_with_split (c ∷ t) u here in
      subst (λ (t : Text). Throughout x t) (sym e) (h post) b
  | inr other ↦
      let later : contains t u ≡ true = ground arith in
      skip_unit x b c t (contains-found x u h t later (after_unit b c))
]

module _ (open_mark close_mark : Text) (plain : AreDelimiters open_mark close_mark) where
  -- The text of a placeholder.
  abbrev marked : Text → ℕ → Text
  marked cls n = delimited open_mark close_mark (cls ++ b'_' ∷ number_text 10 n)

  marked-found :
      (cls : Text) (n : ℕ) (t : Text)
      → is_class cls ≡ true
      → contains t (marked cls n) ≡ true
      → is_among (bare_tokens t) (cls ++ b'_' ∷ number_text 10 n) ≡ true
  marked-found cls n t k h =
      let ds = number_text 10 n in
      let token = cls ++ b'_' ∷ ds in
      contains-found token (marked cls n)
        (λ post.
          let spelled : marked cls n ++ post
              ≡ open_mark ++ (cls ++ b'_' ∷ (ds ++ (close_mark ++ post))) =
            append_assoc open_mark (token ++ close_mark) post
            ∙ ap (λ (x : Text). open_mark ++ x)
                (append_assoc token close_mark post
                  ∙ append_assoc cls (b'_' ∷ ds) (close_mark ++ post)) in
          subst (Throughout token) (sym spelled) (
            after_plain token open_mark (cls ++ b'_' ∷ (ds ++ (close_mark ++ post))) plain.0 (
              class_token cls ds (close_mark ++ post) k (number_text-IsNumber n)
                (starts_undigit-append close_mark post plain.1))))
        t h nothing

  is_among-map :
      (s : Text) (ts : List Text)
      → is_among ts s ≡ true
      → is_among (map (delimited open_mark close_mark) ts) (delimited open_mark close_mark s) ≡ true
  is_among-map s [] h = ground arith
  is_among-map s (t ∷ ts) h = elim (Bool-cases (eq_text t s)) [
    | inl here ↦ rw ((eq_text_iff t s).0 here, eq_text_refl (delimited open_mark close_mark s)) refl
    | inr other ↦ let later = is_among-map s ts (ground arith) in ground arith
  ]

  -- A placeholder that is not taken is in no text.
  pub taken_of-free :
      (cls : Text) (n : ℕ) (texts : List Text)
      → is_class cls ≡ true
      → is_among (taken_of open_mark close_mark texts) (marked cls n) ≡ false
      → All (λ (t : Text). contains t (marked cls n) ≡ false) texts
  unfolding taken_of
  taken_of-free cls n [] k h = tt
  taken_of-free cls n (t ∷ texts) k h =
      let ph = marked cls n in
      let whole = placeholders_from open_mark close_mark t 0 in
      let bare = map (delimited open_mark close_mark) (bare_tokens t) in
      let others = taken_of open_mark close_mark texts in
      let taken_too : is_among (bare ++ others) ph ≡ true → ⊥ =
        λ e. let there = is_among-right whole (bare ++ others) ph e in ground arith in
      (
        elim (Bool-cases (contains t ph)) [
          | inl inside ↦
              let token = cls ++ b'_' ∷ number_text 10 n in
              let found = is_among-map token (bare_tokens t) (marked-found cls n t k inside) in
              absurd (taken_too (is_among-left bare others ph found))
          | inr outside ↦ outside
        ],
        taken_of-free cls n texts k (elim (Bool-cases (is_among others ph)) [
          | inl there ↦ absurd (taken_too (is_among-right bare others ph there))
          | inr free ↦ free
        ]),
      )
