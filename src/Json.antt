-- ===== src/Json.antt =====
-- The values that `JSON.parse` gives, as the code that reads them by `?.`, `typeof` and
-- `Array.isArray` sees them. A number stands by its literal. The members of an object stand in their
-- order, each name once.
use ppq_enclave_proxy.Prelude.{
  ◌≡◌, refl, false, inl, inr, Bool-cases, eq_text_refl, eq_text_iff, Text, eq_text, List, [], ◌∷◌,
  Option, none, some, Bool, if◌then◌else◌,
}

mutual
  pub data Json : Type 0 where
    null : Json
    boolean : Bool → Json
    number : Text → Json
    text : Text → Json
    array : Elements → Json
    object : Members → Json

  pub data Elements : Type 0 where
    no_elements : Elements
    element : Json → Elements → Elements

  pub data Members : Type 0 where
    no_members : Members
    member : Text → Json → Members → Members

unfoldable pub find : Text → Members → Option Json
find name no_members = none
find name (member key v ms) = if eq_text key name then some v else find name ms

-- `v?.name`: none is `undefined`.
unfoldable pub field : Text → Option Json → Option Json
field name (some (object ms)) = find name ms
field name _ = none

-- A value that is text.
unfoldable pub as_text : Option Json → Option Text
as_text (some (text s)) = some s
as_text _ = none

abbrev pub to_list : Elements → List Json
to_list no_elements = []
to_list (element v es) = v ∷ to_list es

-- The elements where `Array.isArray` holds, and none elsewhere.
unfoldable pub elements : Option Json → List Json
elements (some (array es)) = to_list es
elements _ = []

-- `v.name = value`: in place where the name is there, last where it is not.
unfoldable pub set : Text → Json → Members → Members
set name value no_members = member name value no_members
set name value (member key v ms) =
    if eq_text key name then member key value ms else member key v (set name value ms)

pub find-set :
    (name : Text) (value : Json) (ms : Members) → find name (set name value ms) ≡ some value
unfolding find set
find-set name value no_members = rw (eq_text_refl name) refl
find-set name value (member key v ms) = elim (Bool-cases (eq_text key name)) [
  | inl same ↦ rw (same, same) refl
  | inr other ↦ rw (other, other) (find-set name value ms)
]

pub find-set_other :
    (name other : Text) (value : Json) (ms : Members)
    → eq_text name other ≡ false
    → find other (set name value ms) ≡ find other ms
unfolding find set
find-set_other name other value no_members h = rw h refl
find-set_other name other value (member key v ms) h = elim (Bool-cases (eq_text key name)) [
  | inl same ↦ let eq : key ≡ name = (eq_text_iff key name).0 same in rw (same, eq, h) refl
  | inr apart ↦ rw apart (elim (Bool-cases (eq_text key other)) [
    | inl there ↦ rw there refl
    | inr further ↦ rw further (find-set_other name other value ms h)
  ])
]

-- `delete v.name`
unfoldable pub without : Text → Members → Members
without name no_members = no_members
without name (member key v ms) =
    if eq_text key name then without name ms else member key v (without name ms)

-- The member of a name, changed where it is there.
unfoldable pub update : Text → (Json → Json) → Members → Members
update name f no_members = no_members
update name f (member key v ms) =
    if eq_text key name then member key (f v) ms else member key v (update name f ms)

abbrev pub changed : (Json → Json) → Option Json → Option Json
changed f none = none
changed f (some v) = some (f v)

pub find-without : (name : Text) (ms : Members) → find name (without name ms) ≡ none
unfolding find without
find-without name no_members = refl
find-without name (member key v ms) = elim (Bool-cases (eq_text key name)) [
  | inl same ↦ rw same (find-without name ms)
  | inr other ↦ rw (other, other) (find-without name ms)
]

pub find-update :
    (name : Text) (f : Json → Json) (ms : Members)
    → find name (update name f ms) ≡ changed f (find name ms)
unfolding find update
find-update name f no_members = refl
find-update name f (member key v ms) = elim (Bool-cases (eq_text key name)) [
  | inl same ↦ rw (same, same) refl
  | inr other ↦ rw (other, other) (find-update name f ms)
]

pub find-update_other :
    (name other : Text) (f : Json → Json) (ms : Members)
    → eq_text name other ≡ false
    → find other (update name f ms) ≡ find other ms
unfolding find update
find-update_other name other f no_members h = refl
find-update_other name other f (member key v ms) h = elim (Bool-cases (eq_text key name)) [
  | inl same ↦ let eq : key ≡ name = (eq_text_iff key name).0 same in rw (same, eq, h) refl
  | inr apart ↦ rw apart (elim (Bool-cases (eq_text key other)) [
    | inl there ↦ rw there refl
    | inr further ↦ rw further (find-update_other name other f ms h)
  ])
]
