-- ===== src/StreamReplacer/Tests.antt =====
-- The stream replacer at work.
use ppq_enclave_proxy.Prelude.{◌≡◌, refl, Text, codes, List, [], ◌∷◌, contains}
use ppq_enclave_proxy.StreamReplacer.{
  replace_all, replace_each, max_needle, starts_needle, held_back, cut, feed, stream, usable_pairs,
  rebrander_pairs, direct_pairs,
}
use ppq_enclave_proxy.StreamReplacer.Scan.{Isolated}

replacer : Unit {0}
unfolding stream feed cut held_back starts_needle max_needle replace_each replace_all contains
    usable_pairs
replacer = tt

abbrev split_name : List Text
split_name = codes "via OPEN" ∷ codes "ROUT" ∷ codes "ER, OPEN" ∷ codes "ED" ∷ []

rebranded : stream rebrander_pairs [] split_name ≡ codes "via PPQ.AI, OPENED"
unfolding replacer
rebranded = refl

model_hidden :
    stream (direct_pairs (codes "acc/m") (codes "venice/m")) [] (codes "id acc" ∷ codes "/m." ∷ [])
    ≡ codes "id venice/m."
unfolding replacer
model_hidden = refl

empty_needles_dropped : usable_pairs (([], codes "x") ∷ rebrander_pairs) ≡ rebrander_pairs
unfolding replacer
empty_needles_dropped = refl

-- The replacement may contain the needle.
dated-Isolated : Isolated (codes "gpt-5.5") (codes "openai/gpt-5.5")
unfolding contains
dated-Isolated = (refl, refl)
