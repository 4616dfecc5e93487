-- ===== src/StreamReplacer/Whole.antt =====
-- The stream as a whole.
use ppq_enclave_proxy.Prelude.{
  ◌<◌, sym, subst, Text, List, [], ◌∷◌, ◌++◌, length, inl, inr, Bool-cases,
}
use ppq_enclave_proxy.StreamReplacer.{Pair, replace_each, max_needle, starts_needle, feed}
use ppq_enclave_proxy.StreamReplacer.Hold.{split, cut-split, starts_needle-lt, max_needle-pos}

split_short : (ps : List Pair) (s : Text) → length (split (starts_needle ps) s).1 < max_needle ps
split_short ps [] = max_needle-pos ps
split_short ps (c ∷ s) = elim (Bool-cases (starts_needle ps (c ∷ s))) [
  | inl held ↦ rw held (starts_needle-lt ps (c ∷ s) held)
  | inr free ↦ rw free (split_short ps s)
]

-- Whatever arrives, less is carried than the longest needle (or one unit) has.
pub feed-carry-lt :
    (ps : List Pair) (carry chunk : Text) → length (feed ps carry chunk).1 < max_needle ps
unfolding feed
feed-carry-lt ps carry chunk =
    let s = replace_each ps (carry ++ chunk) in
    subst (λ (x : Text × Text). length x.1 < max_needle ps) (sym (cut-split ps s))
      (split_short ps s)
