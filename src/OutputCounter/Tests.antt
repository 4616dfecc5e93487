-- ===== src/OutputCounter/Tests.antt =====
-- The counter on a stream of two chunks.
use ppq_enclave_proxy.Prelude.{
  ℕ, ◌≡◌, ◌≤◌, ◌<◌, ◌*◌, refl, subst, Text, codes, eq_text, List, [], ◌∷◌, Option, none, some,
  length, if◌then◌else◌,
}
use mathlib.Core.Option.{some-injective}
use mathlib.Core.List.{flatten}
use ppq_enclave_proxy.Json.{
  find, Json, object, member, no_members, array, element, no_elements, text,
}
use ppq_enclave_proxy.LineBuffer.{feed, feed_lines}
use ppq_enclave_proxy.OutputCounter.{
  Counted, Total, finish, count_last, count_all, tokenize_slice_chars,
}
use ppq_enclave_proxy.OutputCounter.Delivered.{of_delivered, lines_text, all_lines, long_lines}
use ppq_enclave_proxy.OutputCounter.Whole.{count_all-of_delivered}
use ppq_enclave_proxy.OutputCounter.Finished.{CountsText, finish-some, finish-bound}

abbrev only : Text → Json → Json
only name v = object (member name v no_members)

-- A chunk of one choice.
abbrev chunk : Json
chunk = only (codes "choices") (
    array
      (element (only (codes "delta") (only (codes "content") (text (codes "Hi!")))) no_elements))

abbrev parse : Text → Option Json
parse s = if eq_text s (codes "{x}") then some chunk else none

abbrev chunks : List Text
chunks = codes "data: {x}\ndat" ∷ codes "a:{x}\n\nnothing\ndata:{x}" ∷ []

counted :
    count_last 7 parse (count_all 7 parse chunks)
    ≡ record { dropped_lines = 0; text = codes "Hi!Hi!H"; chars = 9; overflow_chars = 2 }
unfolding count_last count_all feed feed_lines find
counted = refl

count_all-of_delivered_example :
    count_last 7 parse (count_all 7 parse chunks)
    ≡ of_delivered 7
        (long_lines (all_lines (flatten chunks)))
        (lines_text parse (all_lines (flatten chunks)))
count_all-of_delivered_example = count_all-of_delivered 7 parse chunks

-- A token for each character.
abbrev by_char : Text → Option ℕ
by_char s = some (length s)

by_char-CountsText : (f : Text → Option ℕ) → some by_char ≡ some f → CountsText f
by_char-CountsText f e =
    subst (λ (g : Text → Option ℕ). CountsText g) (some-injective by_char f e)
      (λ s n pos counted. subst (λ (m : ℕ). 0 < m) (some-injective (length s) n counted) pos)

abbrev hi : Counted
hi = of_delivered 7 0 (codes "Hi!Hi!Hi!")

finish-some_example : (r : Total) × (finish (some by_char) hi ≡ some r) × (r.chars ≡ 9)
finish-some_example = finish-some (some by_char) hi

abbrev settled : Total
settled = record { chars = 9; tokens = 8 }

settled_lem : finish (some by_char) (count_last 7 parse (count_all 7 parse chunks)) ≡ some settled
unfolding finish count_last count_all feed feed_lines find
settled_lem = refl

finish-bound_example :
    length (lines_text parse (all_lines (flatten chunks))) ≤ tokenize_slice_chars * 8
finish-bound_example =
    finish-bound 7 parse (some by_char) chunks settled by_char-CountsText settled_lem
