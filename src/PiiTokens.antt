-- ===== src/PiiTokens.antt =====
-- enclave/src/pii/core.mjs: the placeholders that the texts of a request hold already, as the two
-- patterns of pseudonymize find them: the placeholders with the grammar's delimiters, and the bare
-- tokens, which the delimiters are put around.
pub mod Found
use ppq_enclave_proxy.Prelude.{
  ℕ, zero, suc, ◌-◌, ◌≡◌, refl, Text, codes, starts_with, is_upper, is_digit, any_of, eq_text, map,
  List, [], ◌∷◌, ◌++◌, Option, none, some, Bool, true, false, length, drop, ◌==◌, if◌then◌else◌,
}

-- What stands right before a place in the text: the part of a bare token that it ends.
pub data Before : Type 0 where
  nothing : Before
  letters : Text → Before
  underscore : Text → Before
  digits : Text → Before

abbrev pub with_letter : Before → ℕ → Before
with_letter (letters s) c = letters (s ++ c ∷ [])
with_letter nothing c = letters (c ∷ [])
with_letter (underscore s) c = letters (c ∷ [])
with_letter (digits s) c = letters (c ∷ [])

abbrev pub with_underscore : Before → Before
with_underscore (letters s) = underscore (s ++ b'_' ∷ [])
with_underscore nothing = nothing
with_underscore (underscore s) = nothing
with_underscore (digits s) = nothing

abbrev pub with_digit : Before → ℕ → Before
with_digit (underscore s) c = digits (s ++ c ∷ [])
with_digit (digits s) c = digits (s ++ c ∷ [])
with_digit nothing c = nothing
with_digit (letters s) c = nothing

abbrev pub after_unit : Before → ℕ → Before
after_unit b c =
    if is_upper c
    then with_letter b c
    else if c == b'_'
    then with_underscore b
    else if is_digit c
    then with_digit b c
    else nothing

-- A token ends where its digits do.
abbrev pub finished_token : Before → List Text
finished_token (digits s) = s ∷ []
finished_token nothing = []
finished_token (letters s) = []
finished_token (underscore s) = []

abbrev pub finished_before : Before → ℕ → List Text
finished_before b c = if is_digit c then [] else finished_token b

-- The matches of BARE_TOKEN, `(?<![A-Z])[A-Z]+_[0-9]+(?![0-9])`, from a place on.
unfoldable pub tokens_from : Before → Text → List Text
tokens_from b [] = finished_token b
tokens_from b (c ∷ s) = finished_before b c ++ tokens_from (after_unit b c) s

abbrev pub bare_tokens : Text → List Text
bare_tokens s = tokens_from nothing s

abbrev push : ℕ → Option Text → Option Text
push c none = none
push c (some s) = some (c ∷ s)

abbrev or_last : ℕ → Bool → Option Text → Option Text
or_last c closed (some s) = some (c ∷ s)
or_last c true none = some (c ∷ [])
or_last c false none = none

module _ (open_mark close_mark : Text) where
  -- `[0-9]+` and the closing delimiter: the digits, as many as leave one.
  unfoldable pub match_digits : Text → Option Text
  match_digits [] = none
  match_digits (c ∷ s) =
      let more = match_digits s in
      if is_digit c then or_last c (starts_with s close_mark) more else none

  -- `[A-Z]*_[0-9]+` and the closing delimiter.
  unfoldable pub match_letters : Text → Option Text
  unfolding match_digits
  match_letters [] = none
  match_letters (c ∷ s) =
      let more = match_letters s in
      if is_upper c then push c more else if c == b'_' then push c (match_digits s) else none

  abbrev match_class : Text → Option Text
  match_class [] = none
  match_class (c ∷ s) = if is_upper c then push c (match_letters s) else none

  abbrev pub delimited : Text → Text
  delimited s = open_mark ++ (s ++ close_mark)

  abbrev around : Option Text → Option Text
  around none = none
  around (some s) = some (delimited s)

  -- A match of the placeholders' pattern at the start of a text.
  unfoldable pub match_placeholder : Text → Option Text
  unfolding match_letters
  match_placeholder s =
      if starts_with s open_mark then around (match_class (drop (length open_mark) s)) else none

  abbrev go_on : Option Text → (ℕ → List Text) → List Text
  go_on none rest = rest 0
  go_on (some s) rest = s ∷ rest (length s - 1)

  -- `matchAll` of that pattern, where as many units as this are of the last match.
  unfoldable pub placeholders_from : Text → ℕ → List Text
  unfolding match_placeholder
  placeholders_from [] k = []
  placeholders_from (c ∷ s) (suc k) = placeholders_from s k
  placeholders_from (c ∷ s) zero = go_on (match_placeholder (c ∷ s)) (placeholders_from s)

  -- The set `taken`, in the order of what is added.
  unfoldable pub taken_of : List Text → List Text
  unfolding placeholders_from tokens_from
  taken_of [] = []
  taken_of (s ∷ texts) = placeholders_from s 0 ++ (map delimited (bare_tokens s) ++ taken_of texts)

taken_test :
    taken_of
      (codes "[")
      (codes "]")
      (codes "see [PERSON_1], xORG_2. AB_CD_3 [ID_x] A_1B_2" ∷ codes "PERSON_04" ∷ [])
    ≡ codes "[PERSON_1]"
      ∷ codes "[PERSON_1]"
      ∷ codes "[ORG_2]"
      ∷ codes "[CD_3]"
      ∷ codes "[A_1]"
      ∷ codes "[B_2]"
      ∷ codes "[PERSON_04]"
      ∷ []
unfolding taken_of
taken_test = refl
