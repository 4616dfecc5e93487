-- ===== src/JsMap/Laws.antt =====
-- The laws of the ordered map.
use ppq_enclave_proxy.Prelude.{
  subst, true, suc, ◌≤◌, ◌≡◌, refl, Text, eq_text, eq_text_iff, List, [], ◌∷◌, none, some, false,
  arith, length, if◌then◌else◌, ◌||◌,
}
use ppq_enclave_proxy.JsMap.{get, has, put, delete, Distinct}

module _ {ℓ} {V : Type ℓ} where
  pub get-put :
      (k j : Text) (v : V) (m : List (Text × V))
      → get j (put k v m) ≡ (if eq_text k j then some v else get j m)
  unfolding get put
  get-put k j v [] = refl
  get-put k j v ((i, w) ∷ m) =
      ground (arith, eq_text_iff k j, eq_text_iff i k, eq_text_iff i j, get-put k j v m)

  pub has_iff : (k : Text) (m : List (Text × V)) → has k m ≡ false → get k m ≡ none
  unfolding get has
  has_iff k [] h = refl
  has_iff k ((j, v) ∷ m) h = ground (arith, has_iff k m)

  pub get-delete :
      (k j : Text) (m : List (Text × V))
      → Distinct m
      → get j (delete k m) ≡ (if eq_text k j then none else get j m)
  unfolding get delete
  get-delete k j [] d = ground arith
  get-delete k j ((i, w) ∷ m) (fresh, d) =
      let gone : eq_text i j ≡ true → get j m ≡ none =
        λ e. subst (λ x. get x m ≡ none) ((eq_text_iff i j).0 e) (has_iff i m fresh) in
      ground (arith, eq_text_iff k j, eq_text_iff i k, eq_text_iff i j, get-delete k j m d, gone)

  pub length-put :
      (k : Text) (v : V) (m : List (Text × V))
      → length (put k v m) ≡ (if has k m then length m else suc (length m))
  unfolding put has
  length-put k v [] = refl
  length-put k v ((j, w) ∷ m) = ground (arith, length-put k v m)

  pub length-delete-le : (k : Text) (m : List (Text × V)) → length (delete k m) ≤ length m
  unfolding delete
  length-delete-le k [] = omega arith
  length-delete-le k ((j, w) ∷ m) = ground (arith, length-delete-le k m)

  pub has-put :
      (k j : Text) (v : V) (m : List (Text × V)) → has j (put k v m) ≡ eq_text k j || has j m
  unfolding put has
  has-put k j v [] = refl
  has-put k j v ((i, w) ∷ m) =
      ground (arith, has-put k j v m, eq_text_iff k j, eq_text_iff i k, eq_text_iff i j)

  pub has-delete : (k j : Text) (m : List (Text × V)) → has j m ≡ false → has j (delete k m) ≡ false
  unfolding delete has
  has-delete k j [] h = refl
  has-delete k j ((i, w) ∷ m) h = ground (arith, has-delete k j m)

  pub Distinct-put : (k : Text) (v : V) (m : List (Text × V)) → Distinct m → Distinct (put k v m)
  unfolding put has
  Distinct-put k v [] d = (refl, tt)
  Distinct-put k v ((j, w) ∷ m) (fresh, d) =
      ground (arith, Distinct-put k v m d, has-put k j v m, eq_text_iff k j, eq_text_iff j k)

  pub Distinct-delete : (k : Text) (m : List (Text × V)) → Distinct m → Distinct (delete k m)
  unfolding delete
  Distinct-delete k [] d = tt
  Distinct-delete k ((j, w) ∷ m) (fresh, d) =
      ground (arith, Distinct-delete k m d, has-delete k j m fresh)
