-- ===== src/Counters/Keys.antt =====
-- The key sets of the tallies stay small, and a count is never lost.
use ppq_enclave_proxy.Prelude.{
  ℕ, ◌+◌, ◌≤◌, ◌≡◌, refl, Text, eq_text, eq_text_iff, [], ◌∷◌, Option, true, false, arith, length,
  if◌then◌else◌,
}
use ppq_enclave_proxy.JsMap.{get, has, put, Distinct}
use ppq_enclave_proxy.JsMap.Laws.{Distinct-put}
use ppq_enclave_proxy.Counters.{Tally, other_key, max_keys, named, count_of, bump_key, bump}

-- The sum of the counts.
unfoldable pub total : Tally → ℕ
total [] = 0
total ((k, v) ∷ m) = v + total m

named-put :
    (k : Text) (v : ℕ) (m : Tally)
    → named (put k v m) ≡ named m + (if has k m then 0 else (if eq_text k other_key then 0 else 1))
unfolding named put has
named-put k v [] = omega arith
named-put k v ((j, w) ∷ m) = ground (arith, named-put k v m)

named_of_missing :
    (k : Text) (m : Tally) → has k m ≡ false → eq_text k other_key ≡ true → length m ≡ named m
unfolding named has
named_of_missing k [] h e = refl
named_of_missing k ((j, w) ∷ m) h e =
    ground (
      arith,
      named_of_missing k m,
      eq_text_iff j other_key,
      eq_text_iff k other_key,
      eq_text_iff j k,
    )

-- Without a repeated key, `other` stands in a tally once at most.
length-le-named : (m : Tally) → Distinct m → length m ≤ named m + 1
unfolding named
length-le-named [] d = omega arith
length-le-named ((j, w) ∷ m) (f, d) = ground (arith, length-le-named m d, named_of_missing j m f)

-- No key twice, and room for `other` beside the named keys.
abbrev pub IsSmall : Tally → Type 0
IsSmall m = Distinct m × (named m ≤ 63)

pub bump-IsSmall : (m : Tally) (key : Option Text) → IsSmall m → IsSmall (bump m key)
unfolding bump bump_key
bump-IsSmall m key (d, h) = (
  Distinct-put _ _ m d,
  ground (arith, named-put (bump_key m key) (count_of (get (bump_key m key) m) + 1) m),
)

pub IsSmall-length : (m : Tally) → IsSmall m → length m ≤ max_keys
IsSmall-length m (d, h) = omega (arith, length-le-named m d)

total-put : (k : Text) (v : ℕ) (m : Tally) → total (put k v m) + count_of (get k m) ≡ total m + v
unfolding total put get
total-put k v [] = omega arith
total-put k v ((j, w) ∷ m) = ground (arith, total-put k v m)

-- A bump adds one to the sum of the tally, whatever the key is and however full the tally.
pub total-bump : (m : Tally) (key : Option Text) → total (bump m key) ≡ total m + 1
unfolding bump
total-bump m key =
    omega (arith, total-put (bump_key m key) (count_of (get (bump_key m key) m) + 1) m)
