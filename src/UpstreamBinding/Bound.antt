-- ===== src/UpstreamBinding/Bound.antt =====
-- When a candidate's provider, host, key and dialect are those of one row of the providers' table,
-- said of the table and of the values alone.
use ppq_enclave_proxy.Prelude.{
  if◌then◌else◌, ◌≡◌, ◌↔◌, ◌⊎◌, inl, inr, refl, ap, sym, subst, ◌∙◌, Text, codes, eq_text,
  eq_text_iff, any_of, List, [], ◌∷◌, some, Bool, true, false, not, ◌&&◌, ◌||◌, arith, Bool-cases,
}
use mathlib.Core.Option.{some-injective}
use ppq_enclave_proxy.JsMap.{get}
use ppq_enclave_proxy.Values.{Value, undefined, null, text, array, object, number, boolean}
use ppq_enclave_proxy.UpstreamBinding.{
  includes, Rule, provider_bindings, Candidate, is_text, is_undefined, named_host, host_ok,
  style_ok,
}

-- An element of the list.
abbrev pub IsAmong : {A : Type 0} → A → List A → Type 0
IsAmong x [] = ⊥
IsAmong x (y ∷ ys) = (y ≡ x) ⊎ IsAmong x ys

-- A host that is text is blank or one of the row's.
abbrev pub IsHost : Rule → Value → Type 0
IsHost r v = (h : Text) → v ≡ text h → (h ≡ []) ⊎ IsAmong h r.hosts

-- The row's dialect, or another that it lists, or none where the row's is `openai`.
abbrev pub IsStyle : Rule → Value → Type 0
IsStyle r v =
    (v ≡ text r.api_style)
    ⊎ (((v ≡ undefined) × (r.api_style ≡ codes "openai"))
        ⊎ ((s : Text) × ((v ≡ text s) × IsAmong s r.also_api_styles)))

-- The candidate names the provider and the key of a row of the table, a dialect of the row, and no
-- host but the row's.
abbrev pub IsBound : Candidate → Text → Rule → Type 0
IsBound c p r =
    (c.provider ≡ text p)
    × IsAmong (p, r) provider_bindings
    × IsHost r c.host
    × (c.key_ref ≡ text r.key_ref)
    × IsStyle r c.api_style

pub is_text_iff : (v : Value) (t : Text) → (is_text v t ≡ true) ↔ (v ≡ text t)
is_text_iff (text s) t = ground (arith, eq_text_iff s t)
is_text_iff undefined t = ground arith
is_text_iff null t = ground arith
is_text_iff array t = ground arith
is_text_iff object t = ground arith
is_text_iff number t = ground arith
is_text_iff boolean t = ground arith

or_iff : (a b : Bool) → ((a || b) ≡ true) ↔ ((a ≡ true) ⊎ (b ≡ true))
or_iff true b = ((λ h. inl refl), (λ h. refl))
or_iff false b = ((λ h. inr h), (λ h. ground arith))

and_iff : (a b : Bool) → ((a && b) ≡ true) ↔ ((a ≡ true) × (b ≡ true))
and_iff a b = ground arith

includes_iff : (ts : List Text) (t : Text) → (includes ts t ≡ true) ↔ IsAmong t ts
includes_iff [] t = ground arith
includes_iff (u ∷ ts) t =
    let first = eq_text_iff u t in
    let rest = includes_iff ts t in
    let both = or_iff (eq_text u t) (includes ts t) in
    (
      (λ h. elim (both.0 h) [ inl a ↦ inl (first.0 a) | inr b ↦ inr (rest.0 b) ]),
      (λ h. elim h [ inl a ↦ both.1 (inl (first.1 a)) | inr b ↦ both.1 (inr (rest.1 b)) ]),
    )

text_inj : (s t : Text) → Value.text s ≡ Value.text t → s ≡ t
text_inj s t e = let same = (is_text_iff (text s) t).1 e in (eq_text_iff s t).0 same

pub host_ok_iff : (r : Rule) (v : Value) → (host_ok r (named_host v) ≡ true) ↔ IsHost r v
host_ok_iff r (text []) = ((λ h t e. inl (sym (text_inj [] t e))), (λ h. refl))
host_ok_iff r (text (c ∷ t)) =
    let inside = includes_iff r.hosts (c ∷ t) in
    (
      (λ h u e. inr (subst (λ (x : Text). IsAmong x r.hosts) (text_inj (c ∷ t) u e) (inside.0 h))),
      (λ h. elim (h (c ∷ t) refl) [ inl blank ↦ ground arith | inr i ↦ inside.1 i ]),
    )
host_ok_iff r undefined = ((λ h t e. ground arith), (λ h. refl))
host_ok_iff r null = ((λ h t e. ground arith), (λ h. refl))
host_ok_iff r array = ((λ h t e. ground arith), (λ h. refl))
host_ok_iff r object = ((λ h t e. ground arith), (λ h. refl))
host_ok_iff r number = ((λ h t e. ground arith), (λ h. refl))
host_ok_iff r boolean = ((λ h t e. ground arith), (λ h. refl))

also_iff :
    (v : Value) (ts : List Text)
    → (any_of (is_text v) ts ≡ true) ↔ ((s : Text) × ((v ≡ text s) × IsAmong s ts))
also_iff v [] = ((λ h. ground arith), (λ (s, (e, i)). absurd i))
also_iff v (t ∷ ts) =
    let first = is_text_iff v t in
    let rest = also_iff v ts in
    let both = or_iff (is_text v t) (any_of (is_text v) ts) in
    (
      (λ h. elim (both.0 h) [
        | inl a ↦ (t, (first.0 a, inl refl))
        | inr b ↦ let (s, (e, i)) = rest.0 b in (s, (e, inr i))
      ]),
      (λ (s, (e, i)). elim i [
        | inl here ↦ both.1 (inl (first.1 (e ∙ ap text (sym here))))
        | inr later ↦ both.1 (inr (rest.1 (s, (e, later))))
      ]),
    )

is_undefined_iff : (v : Value) → (is_undefined v ≡ true) ↔ (v ≡ undefined)
is_undefined_iff undefined = ground arith
is_undefined_iff null = ground arith
is_undefined_iff (text t) = ground arith
is_undefined_iff array = ground arith
is_undefined_iff object = ground arith
is_undefined_iff number = ground arith
is_undefined_iff boolean = ground arith

pub style_ok_iff : (r : Rule) (v : Value) → (style_ok r v ≡ true) ↔ IsStyle r v
unfolding style_ok
style_ok_iff r v =
    let own = is_text_iff v r.api_style in
    let legacy : Bool = is_undefined v && eq_text r.api_style (codes "openai") in
    let also = also_iff v r.also_api_styles in
    let last = or_iff (is_text v r.api_style || legacy) (any_of (is_text v) r.also_api_styles) in
    let first = or_iff (is_text v r.api_style) legacy in
    let omitted = and_iff (is_undefined v) (eq_text r.api_style (codes "openai")) in
    let absent = is_undefined_iff v in
    let plain = eq_text_iff r.api_style (codes "openai") in
    (
      (λ h. elim (last.0 h) [
        | inl b ↦ elim (first.0 b) [
          | inl a ↦ inl (own.0 a)
          | inr o ↦ let (u, s) = omitted.0 o in inr (inl (absent.0 u, plain.0 s))
        ]
        | inr l ↦ inr (inr (also.0 l))
      ]),
      (λ h. elim h [
        | inl a ↦ last.1 (inl (first.1 (inl (own.1 a))))
        | inr b ↦ elim b [
          | inl (u, s) ↦ last.1 (inl (first.1 (inr (omitted.1 (absent.1 u, plain.1 s)))))
          | inr l ↦ last.1 (inr (also.1 l))
        ]
      ]),
    )

-- No two rows have one name.
unfoldable keys_apart : List (Text × Rule) → Bool
keys_apart [] = true
keys_apart ((p, r) ∷ rows) =
    not (any_of (λ (x : Text × Rule). eq_text p x.0) rows) && keys_apart rows

bindings_apart : keys_apart provider_bindings ≡ true
unfolding keys_apart provider_bindings
bindings_apart = refl

get-IsAmong :
    (p : Text) (r : Rule) (rows : List (Text × Rule)) → get p rows ≡ some r → IsAmong (p, r) rows
unfolding get
get-IsAmong p r [] h = ground arith
get-IsAmong p r ((q, s) ∷ rows) h = elim (Bool-cases (eq_text q p)) [
  | inl y ↦
      let row : some s ≡ some r = subst (λ b. (if b then some s else get p rows) ≡ some r) y h in
      inl (rw ((eq_text_iff q p).0 y, some-injective s r row) refl)
  | inr n ↦
      let rest : get p rows ≡ some r =
        subst (λ b. (if b then some s else get p rows) ≡ some r) n h in
      inr (get-IsAmong p r rows rest)
]

IsAmong-named :
    (p q : Text) (r : Rule) (rows : List (Text × Rule))
    → IsAmong (p, r) rows
    → q ≡ p
    → any_of (λ (x : Text × Rule). eq_text q x.0) rows ≡ true
IsAmong-named p q r [] h e = absurd h
IsAmong-named p q r ((k, s) ∷ rows) h e = elim h [
  | inl here ↦
      let same : q ≡ k = e ∙ sym (ap (λ (x : Text × Rule). x.0) here) in
      let found = (eq_text_iff q k).1 same in ground arith
  | inr later ↦ let found = IsAmong-named p q r rows later e in ground arith
]

IsAmong-get :
    (p : Text) (r : Rule) (rows : List (Text × Rule))
    → keys_apart rows ≡ true
    → IsAmong (p, r) rows
    → get p rows ≡ some r
unfolding get keys_apart
IsAmong-get p r [] k h = absurd h
IsAmong-get p r ((q, s) ∷ rows) k h =
    let there : Bool = any_of (λ (x : Text × Rule). eq_text q x.0) rows in
    let (alone, rest) = (and_iff (not there) (keys_apart rows)).0 k in
    elim (Bool-cases (eq_text q p)) [
      | inl y ↦ elim h [
        | inl here ↦ rw y (ap (λ (x : Text × Rule). some x.1) here)
        | inr later ↦
            let again : there ≡ true = IsAmong-named p q r rows later ((eq_text_iff q p).0 y) in
            absurd (ground arith)
      ]
      | inr n ↦ elim h [
        | inl here ↦
            let same = (eq_text_iff q p).1 (ap (λ (x : Text × Rule). x.0) here) in
            absurd (ground arith)
        | inr later ↦ rw n (IsAmong-get p r rows rest later)
      ]
    ]

pub listed_iff :
    (p : Text) (r : Rule) → (get p provider_bindings ≡ some r) ↔ IsAmong (p, r) provider_bindings
listed_iff p r =
    (get-IsAmong p r provider_bindings, IsAmong-get p r provider_bindings bindings_apart)
