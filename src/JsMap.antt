-- ===== src/JsMap.antt =====
-- The `Map` of the language, as the program uses it: keys in the order of insertion, `set` of a
-- present key in place, `delete`. A plain object with text keys is read the same way.
pub mod Laws
use ppq_enclave_proxy.Prelude.{
  Text, eq_text, ◌≡◌, List, [], ◌∷◌, Option, none, some, Bool, true, false, ◌||◌, if◌then◌else◌,
}

module _ {ℓ} {V : Type ℓ} where
  unfoldable pub get : Text → List (Text × V) → Option V
  get k [] = none
  get k ((j, v) ∷ m) = if eq_text j k then some v else get k m

  unfoldable pub has : Text → List (Text × V) → Bool
  has k [] = false
  has k ((j, v) ∷ m) = eq_text j k || has k m

  unfoldable pub put : Text → V → List (Text × V) → List (Text × V)
  put k v [] = (k, v) ∷ []
  put k v ((j, w) ∷ m) = if eq_text j k then (j, v) ∷ m else (j, w) ∷ put k v m

  unfoldable pub delete : Text → List (Text × V) → List (Text × V)
  delete k [] = []
  delete k ((j, w) ∷ m) = if eq_text j k then m else (j, w) ∷ delete k m

  -- No key stands twice.
  abbrev pub Distinct : List (Text × V) → Type 0
  Distinct [] = Unit
  Distinct ((j, v) ∷ m) = (has j m ≡ false) × Distinct m
