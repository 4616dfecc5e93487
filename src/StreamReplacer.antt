-- ===== src/StreamReplacer.antt =====
-- enclave/src/rebrand.mjs: the replacement of literal text in an answer that arrives in chunks. The
-- chunks are texts here, as the streaming decoder of the platform gives them.
pub mod Scan
pub mod Hold
pub mod Whole
pub mod Tests
use ppq_enclave_proxy.Prelude.{
  ℕ, zero, suc, ◌+◌, ◌-◌, max, min, Text, codes, eq_text, starts_with, any_of, List, [], ◌∷◌, ◌++◌,
  Bool, true, false, not, ◌&&◌, length, take, drop, ltb, ◌==◌, if◌then◌else◌,
}

-- A needle and its replacement.
abbrev pub Pair : Type 0
Pair = Text × Text

-- `s.split(needle).join(replacement)`, for a needle that is not empty: each occurrence from the left
-- that does not overlap the one before. The number is how much of the last occurrence is left.
pub replace_from : (needle replacement : Text) → ℕ → Text → Text
replace_from n r k [] = []
replace_from n r (suc k) (c ∷ s) = replace_from n r k s
replace_from n r zero (c ∷ s) = elim (starts_with (c ∷ s) n) [
  | true ↦ r ++ replace_from n r (length n - 1) s
  | false ↦ c ∷ replace_from n r zero s
]

unfoldable pub replace_all : (needle replacement : Text) → Text → Text
unfolding replace_from
replace_all n r s = replace_from n r 0 s

-- The pairs of a replacer: those whose needle is not empty.
unfoldable pub usable_pairs : List Pair → List Pair
usable_pairs [] = []
usable_pairs ((n, r) ∷ ps) = if eq_text n [] then usable_pairs ps else (n, r) ∷ usable_pairs ps

unfoldable pub max_needle : List Pair → ℕ
max_needle [] = 1
max_needle ((n, r) ∷ ps) = max (length n) (max_needle ps)

unfoldable pub replace_each : List Pair → Text → Text
replace_each [] s = s
replace_each ((n, r) ∷ ps) s = replace_each ps (replace_all n r s)

-- The text could be the start of a longer needle.
unfoldable pub starts_needle : List Pair → Text → Bool
starts_needle ps tail =
    any_of (λ (p : Pair). ltb (length tail) (length p.0) && eq_text (take (length tail) p.0) tail)
      ps

-- The loop over `k`: the length of the longest end of the text, up to `k`, that could be the start
-- of a needle.
unfoldable pub held_back : List Pair → ℕ → Text → ℕ
held_back ps zero s = 0
held_back ps (suc k) s =
    if starts_needle ps (drop (length s - suc k) s) then suc k else held_back ps k s

-- What is emitted of a rewritten text, and what is carried.
unfoldable pub cut : List Pair → Text → Text × Text
cut ps s =
    let k = held_back ps (min (max_needle ps - 1) (length s)) s in
    (take (length s - k) s, drop (length s - k) s)

-- `feed`: what is emitted, and the carry that is left.
unfoldable pub feed : List Pair → (carry chunk : Text) → Text × Text
feed ps carry chunk = cut ps (replace_each ps (carry ++ chunk))

-- Feeding the chunks in turn, and `finish`.
unfoldable pub stream : List Pair → (carry : Text) → List Text → Text
stream ps carry [] = carry
stream ps carry (chunk ∷ chunks) = let r = feed ps carry chunk in r.0 ++ stream ps r.1 chunks

-- The pairs of the constructors Rebrander and directResponseRewriter.
abbrev pub rebrander_pairs : List Pair
rebrander_pairs = (codes "OPENROUTER", codes "PPQ.AI") ∷ []

-- `upstreamModelId && orSlug && upstreamModelId !== orSlug`
abbrev pub direct_pairs : (upstream_model_id or_slug : Text) → List Pair
direct_pairs m slug =
    if not (eq_text m []) && not (eq_text slug []) && not (eq_text m slug)
    then (m, slug) ∷ rebrander_pairs
    else rebrander_pairs
