-- ===== src/Routing/Provider.antt =====
-- The directives on the `provider` object of a body, of enclave/src/routing.mjs. An object is its
-- fields in order; the copies that the code makes of arrays are the arrays.
use ppq_enclave_proxy.Prelude.{
  ◌≡◌, ◌≢◌, inl, inr, refl, sym, ap, Text, codes, eq_text, eq_text_iff, is_digit, is_lower, every,
  List, [], ◌∷◌, Option, none, some, Bool, true, false, ◌&&◌, ◌||◌, length, leb, if◌then◌else◌,
  arith, Bool-cases, if_both,
}
use mathlib.Core.Bool.{false≢true}
use ppq_enclave_proxy.JsMap.{get, has, put}
use ppq_enclave_proxy.JsMap.Laws.{get-put}
use ppq_enclave_proxy.Routing.Strips.{Slot, missing, falsy, truthy, items, all_texts}

-- A field of the object.
pub data Item : Type 0 where
  boolean : Bool → Item
  array : List (Option Text) → Item
  other : Item

abbrev pub Fields : Type 0
Fields = List (Text × Item)

-- `provider`: no value, a value that is no object (with what a spread
-- copies of it), or an object.
pub data Provider : Type 0 where
  absent : Provider
  scalar : (spread : Fields) → Provider
  object : Fields → Provider

abbrev is_true : Option Item → Bool
is_true (some (boolean b)) = b
is_true (some (array xs)) = false
is_true (some other) = false
is_true none = false

abbrev is_false : Option Item → Bool
is_false (some (boolean true)) = false
is_false (some (boolean false)) = true
is_false (some (array xs)) = false
is_false (some other) = false
is_false none = false

abbrev is_array : Option Item → Bool
is_array (some (array xs)) = true
is_array (some (boolean b)) = false
is_array (some other) = false
is_array none = false

abbrev is_filled_array : Option Item → Bool
is_filled_array (some (array (x ∷ xs))) = true
is_filled_array (some (array [])) = false
is_filled_array (some (boolean b)) = false
is_filled_array (some other) = false
is_filled_array none = false

abbrev pub fields_of : Provider → Fields
fields_of absent = []
fields_of (scalar spread) = []
fields_of (object fields) = fields

-- `provider?.zdr === true`
abbrev pub is_zdr : Provider → Bool
is_zdr p = is_true (get (codes "zdr") (fields_of p))

abbrev keep_zdr : Bool → Fields → Fields
keep_zdr zdr fields = if zdr then put (codes "zdr") (boolean true) fields else fields

-- applyProviderDirective; a directive that is no object is `none`.
unfoldable pub apply_provider_directive : Provider → Option Fields → Provider × Bool
apply_provider_directive p none = (p, false)
apply_provider_directive p (some d) = (object (keep_zdr (is_zdr p) d), true)

-- applyHardProviderPin, of a body.
unfoldable pub apply_hard_provider_pin : Provider → Option Fields → Provider × Bool
apply_hard_provider_pin p none = (p, false)
apply_hard_provider_pin p (some d) =
    if is_filled_array (get (codes "only") d)
    then (object (keep_zdr (is_zdr p) d), true)
    else (p, false)

-- QUANTIZATION_PATTERN
unfoldable pub is_quantization : Text → Bool
is_quantization s = leb 2 (length s) && leb (length s) 12 && every (λ c. is_lower c || is_digit c) s

-- parseProviderFloor, of the directive's `quantizations`.
unfoldable pub parse_provider_floor : Slot (Option Text) → Option (List Text)
parse_provider_floor (items (v ∷ vs)) =
    if leb (length (v ∷ vs)) 16 then all_texts is_quantization (v ∷ vs) else none
parse_provider_floor (items []) = none
parse_provider_floor missing = none
parse_provider_floor falsy = none
parse_provider_floor truthy = none

abbrev texts : List Text → List (Option Text)
texts [] = []
texts (t ∷ ts) = some t ∷ texts ts

-- The caller has chosen: precisions, a host list, no retention, or an order without fallbacks.
unfoldable pub has_choice : Fields → Bool
has_choice fields =
    has (codes "quantizations") fields
    || has (codes "only") fields
    || is_true (get (codes "zdr") fields)
    || (is_array (get (codes "order") fields) && is_false (get (codes "allow_fallbacks") fields))

abbrev add_floor : Fields → List Text → Fields
add_floor fields floor =
    if has_choice fields then fields else put (codes "quantizations") (array (texts floor)) fields

-- applyProviderFloor, with the floor's `quantizations` where they are an array.
unfoldable pub apply_provider_floor : Provider → Option (List Text) → Provider
apply_provider_floor p none = p
apply_provider_floor p (some []) = p
apply_provider_floor (scalar spread) (some (q ∷ qs)) = scalar spread
apply_provider_floor absent (some (q ∷ qs)) = object (add_floor [] (q ∷ qs))
apply_provider_floor (object fields) (some (q ∷ qs)) = object (add_floor fields (q ∷ qs))

keep_zdr-is_zdr : (fields : Fields) → is_zdr (object (keep_zdr true fields)) ≡ true
keep_zdr-is_zdr fields = ap is_true (get-put (codes "zdr") (codes "zdr") (boolean true) fields)

keep_zdr-frame :
    (b : Bool) (fields : Fields) (k : Text)
    → eq_text (codes "zdr") k ≡ false
    → get k (keep_zdr b fields) ≡ get k fields
keep_zdr-frame true fields k ne = rw (get-put (codes "zdr") k (boolean true) fields) (rw ne refl)
keep_zdr-frame false fields k ne = refl

directive-is_zdr :
    (p : Provider) (d : Option Fields)
    → is_zdr p ≡ true
    → is_zdr (apply_provider_directive p d).0 ≡ true
unfolding apply_provider_directive
directive-is_zdr p none z = z
directive-is_zdr p (some d) z = rw z (keep_zdr-is_zdr d)

pin-is_zdr :
    (p : Provider) (d : Option Fields)
    → is_zdr p ≡ true
    → is_zdr (apply_hard_provider_pin p d).0 ≡ true
unfolding apply_hard_provider_pin
pin-is_zdr p none z = z
pin-is_zdr p (some d) z =
    if_both (λ (r : Provider × Bool). is_zdr r.0 ≡ true) (is_filled_array (get (codes "only") d)) _
      (p, false) (rw z (keep_zdr-is_zdr d)) z

any_third : (a b c d : Bool) → c ≡ true → a || b || c || d ≡ true
any_third a b c d h = ground arith

has_choice-zdr :
    (fields : Fields) → is_true (get (codes "zdr") fields) ≡ true → has_choice fields ≡ true
unfolding has_choice
has_choice-zdr fields z =
    any_third (has (codes "quantizations") fields) (has (codes "only") fields)
      (is_true (get (codes "zdr") fields)) _ z

add_floor-chosen :
    (fields : Fields) (qs : List Text)
    → is_true (get (codes "zdr") fields) ≡ true
    → add_floor fields qs ≡ fields
add_floor-chosen fields qs z = rw (has_choice-zdr fields z) refl

floor-zdr :
    (p : Provider) (floor : Option (List Text)) → is_zdr p ≡ true → apply_provider_floor p floor ≡ p
unfolding apply_provider_floor get
floor-zdr p none z = refl
floor-zdr p (some []) z = refl
floor-zdr (scalar spread) (some (q ∷ qs)) z = refl
floor-zdr absent (some (q ∷ qs)) z = absurd (false≢true z)
floor-zdr (object fields) (some (q ∷ qs)) z = ap object (add_floor-chosen fields (q ∷ qs) z)

-- A caller's zero data retention survives every directive: the directive and the hard pin that
-- replace the provider object keep it, the quality floor changes nothing then; and of a directive
-- every other field is sent as it is.
pub directives_keep_zdr :
    (p : Provider) (d : Fields) (floor : Option (List Text)) (k : Text)
    → is_zdr p ≡ true
    → k ≢ codes "zdr"
    → (is_zdr (apply_provider_directive p (some d)).0 ≡ true)
      × (is_zdr (apply_hard_provider_pin p (some d)).0 ≡ true)
      × (apply_provider_floor p floor ≡ p)
      × (get k (fields_of (apply_provider_directive p (some d)).0) ≡ get k d)
unfolding apply_provider_directive
directives_keep_zdr p d floor k z ne =
    let other_field : eq_text (codes "zdr") k ≡ false =
      elim (Bool-cases (eq_text (codes "zdr") k)) [
        | inl e ↦ absurd (ne (sym ((eq_text_iff (codes "zdr") k).0 e)))
        | inr e ↦ e
      ] in
    (
      directive-is_zdr p (some d) z,
      pin-is_zdr p (some d) z,
      floor-zdr p floor z,
      keep_zdr-frame (is_zdr p) d k other_field,
    )
