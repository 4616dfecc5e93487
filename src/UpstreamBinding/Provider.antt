-- ===== src/UpstreamBinding/Provider.antt =====
-- The binding of a provider to its hosts, its key and its dialect.
use ppq_enclave_proxy.Prelude.{
  ◌≤◌, ◌≡◌, ◌≢◌, ◌↔◌, inl, inr, refl, ap, subst, ◌∙◌, Text, codes, eq_text, eq_text_iff, every,
  List, [], ◌∷◌, Option, none, some, Bool, true, not, ◌||◌, leb, length, take, if◌then◌else◌, arith,
  Bool-cases, Option-cases, length-append, leb→le, length-take,
}
use ppq_enclave_proxy.JsMap.{get}
use ppq_enclave_proxy.Values.{Value, undefined, null, text, array, object, number, boolean}
use ppq_enclave_proxy.UpstreamBinding.Bound.{
  IsBound, is_text_iff, listed_iff, host_ok_iff, style_ok_iff,
}
use ppq_enclave_proxy.UpstreamBinding.{
  includes, Rule, provider_bindings, Candidate, candidate_label, agreed, disagreed, named_host,
  host_ok, style_ok, check_rule, check_found, rule_of, Mismatch, check_provider_binding,
}

-- The tests that a candidate passes for a row.
abbrev Passes : Candidate → Text → Rule → Type 0
Passes c p r =
    (c.provider ≡ text p)
    × (get p provider_bindings ≡ some r)
    × (host_ok r (named_host c.host) ≡ true)
    × (c.key_ref ≡ text r.key_ref)
    × (style_ok r c.api_style ≡ true)

check_rule_iff :
    (c : Candidate) (r : Rule)
    → (check_rule c r ≡ agreed) ↔ (
        (host_ok r (named_host c.host) ≡ true)
        × (c.key_ref ≡ text r.key_ref)
        × (style_ok r c.api_style ≡ true))
unfolding check_rule
check_rule_iff c r = ground (arith, is_text_iff c.key_ref r.key_ref)

disagreed≢agreed : {m : Mismatch} {f : Text} {e : Option Rule} → disagreed m f e ≢ agreed
disagreed≢agreed h = ground arith

passed :
    (c : Candidate) (v : Value)
    → c.provider ≡ v
    → check_found c (rule_of v) ≡ agreed
    → (p : Text) × (r : Rule) × Passes c p r
passed c (text p) e h = elim (Option-cases (get p provider_bindings)) [
  | inl unlisted ↦
      let unknown : check_found c none ≡ agreed =
        subst (λ o. check_found c o ≡ agreed) unlisted h in
      absurd (disagreed≢agreed unknown)
  | inr (r, listed) ↦
      let checked : check_rule c r ≡ agreed = subst (λ o. check_found c o ≡ agreed) listed h in
      let (h, k, s) = (check_rule_iff c r).0 checked in (p, r, (e, listed, h, k, s))
]
passed c undefined e h = absurd (disagreed≢agreed h)
passed c null e h = absurd (disagreed≢agreed h)
passed c array e h = absurd (disagreed≢agreed h)
passed c object e h = absurd (disagreed≢agreed h)
passed c number e h = absurd (disagreed≢agreed h)
passed c boolean e h = absurd (disagreed≢agreed h)

agreed_iff :
    (c : Candidate) → (check_provider_binding c ≡ agreed) ↔ ((p : Text) × (r : Rule) × Passes c p r)
unfolding check_provider_binding check_rule
agreed_iff c = (
  passed c c.provider refl,
  (λ (p, r, (e, g, h, k, s)). rw (e, g) ((check_rule_iff c r).1 (h, k, s))),
)

-- A candidate passes exactly when one row of the table has its provider, its host (where it names
-- one), its key and its dialect, or the row is of the legacy dialect and the candidate names none.
pub check_provider_binding_iff :
    (c : Candidate)
    → (check_provider_binding c ≡ agreed) ↔ ((p : Text) × (r : Rule) × IsBound c p r)
check_provider_binding_iff c = (
  (λ a.
      let (p, r, (e, g, h, k, s)) = (agreed_iff c).0 a in
      (
        p,
        r,
        (e, (listed_iff p r).0 g, (host_ok_iff r c.host).0 h, k, (style_ok_iff r c.api_style).0 s),
      )),
  (λ (p, r, (e, g, h, k, s)). (agreed_iff c).1 (
    p,
    r,
    (e, (listed_iff p r).1 g, (host_ok_iff r c.host).1 h, k, (style_ok_iff r c.api_style).1 s),
  )),
)

-- The provider of the first row that has the host.
abbrev pub owner : Text → List (Text × Rule) → Text
owner h [] = []
owner h ((p, r) ∷ rows) = if includes r.hosts h then p else owner h rows

-- A dialect is that of one provider.
unfoldable style_owned : Text → Text → Text × Rule → Bool
style_owned style provider (p, r) = not (style_ok r (text style)) || eq_text p provider

-- The key is named for the provider.
unfoldable key_owned : Text × Rule → Bool
key_owned (p, r) = eq_text r.key_ref p

-- The hosts are in no earlier row.
unfoldable hosts_owned : Text × Rule → Bool
hosts_owned (p, r) = every (λ h. eq_text (owner h provider_bindings) p) r.hosts

-- Every row has it.
abbrev Throughout : (Text × Rule → Bool) → Type 0
Throughout f = every f provider_bindings ≡ true

rows_owned :
    Throughout key_owned
    × Throughout hosts_owned
    × Throughout (style_owned (codes "bedrock") (codes "bedrock"))
    × Throughout (style_owned (codes "anthropic") (codes "anthropic"))
    × Throughout (style_owned (codes "openai-responses") (codes "openai"))
unfolding provider_bindings key_owned hosts_owned style_ok style_owned
rows_owned = (refl, refl, refl, refl, refl)

every-get :
    (p : Text) (r : Rule) (f : Text × Rule → Bool) (rows : List (Text × Rule))
    → every f rows ≡ true
    → get p rows ≡ some r
    → f (p, r) ≡ true
unfolding get
every-get p r f [] e h = ground arith
every-get p r f ((q, s) ∷ rows) e h = elim (Bool-cases (eq_text q p)) [
  | inl y ↦
      let key : q ≡ p = (eq_text_iff q p).0 y in
      let row : s ≡ r = ground arith in
      let first : f (q, s) ≡ true = ground arith in
      subst (λ x. f (x, r) ≡ true) key (subst (λ x. f (q, x) ≡ true) row first)
  | inr n ↦
      let rest : every f rows ≡ true = ground arith in
      let later : get p rows ≡ some r = ground arith in every-get p r f rows rest later
]

every-includes :
    (f : Text → Bool) (h : Text) (hosts : List Text)
    → every f hosts ≡ true
    → includes hosts h ≡ true
    → f h ≡ true
every-includes f h [] e i = ground arith
every-includes f h (u ∷ hosts) e i = elim (Bool-cases (eq_text u h)) [
  | inl y ↦
      let first : f u ≡ true = ground arith in subst (λ x. f x ≡ true) ((eq_text_iff u h).0 y) first
  | inr n ↦
      let rest : every f hosts ≡ true = ground arith in
      let later : includes hosts h ≡ true = ground arith in every-includes f h hosts rest later
]

abbrev IsSound : Text → Rule → Type 0
IsSound p r =
    (key_owned (p, r) ≡ true)
    × (hosts_owned (p, r) ≡ true)
    × (style_owned (codes "bedrock") (codes "bedrock") (p, r) ≡ true)
    × (style_owned (codes "anthropic") (codes "anthropic") (p, r) ≡ true)
    × (style_owned (codes "openai-responses") (codes "openai") (p, r) ≡ true)

row_of : (p : Text) (r : Rule) → get p provider_bindings ≡ some r → IsSound p r
row_of p r g =
    let of_row : (f : Text × Rule → Bool) → Throughout f → f (p, r) ≡ true =
      λ f t. every-get p r f provider_bindings t g in
    let (k, h, b, a, o) = rows_owned in
    (
      of_row key_owned k,
      of_row hosts_owned h,
      of_row (style_owned (codes "bedrock") (codes "bedrock")) b,
      of_row (style_owned (codes "anthropic") (codes "anthropic")) a,
      of_row (style_owned (codes "openai-responses") (codes "openai")) o,
    )

-- The row of the provider of a candidate that passes.
listed-Passes :
    (c : Candidate) (p : Text)
    → check_provider_binding c ≡ agreed
    → c.provider ≡ text p
    → (r : Rule) × IsSound p r × Passes c p r
listed-Passes c p a e =
    let (q, r, (f, g, h, k, s)) = (agreed_iff c).0 a in
    let same : q ≡ p = cc in
    let listed : get p provider_bindings ≡ some r =
      subst (λ x. get x provider_bindings ≡ some r) same g in
    (r, row_of p r listed, (e, listed, h, k, s))

-- The key of a candidate that passes is its provider's own, and its host, if it names one, is
-- a host of that provider and of no other.
pub key_and_host_bound :
    (c : Candidate) (p h : Text)
    → check_provider_binding c ≡ agreed
    → c.provider ≡ text p
    → (c.key_ref ≡ text p) × (named_host c.host ≡ some h → owner h provider_bindings ≡ p)
unfolding key_owned hosts_owned
key_and_host_bound c p h a e =
    let (r, (key, hosts, _, _, _), (_, _, ok, k, s)) = listed-Passes c p a e in
    (
      k ∙ ap text ((eq_text_iff r.key_ref p).0 key),
      λ n.
          let inside : includes r.hosts h ≡ true = subst (λ o. host_ok r o ≡ true) n ok in
          let own =
            every-includes (λ x. eq_text (owner x provider_bindings) p) h r.hosts hosts inside in
          (eq_text_iff (owner h provider_bindings) p).0 own,
    )

owned_style :
    (style provider p : Text) (r : Rule) (v : Value)
    → style_owned style provider (p, r) ≡ true
    → style_ok r v ≡ true
    → v ≡ text style
    → p ≡ provider
unfolding style_owned
owned_style style provider p r v o s e =
    let used : style_ok r (text style) ≡ true = subst (λ x. style_ok r x ≡ true) e s in
    ground (arith, eq_text_iff p provider)

-- A candidate that passes with a dialect that signs with a credential of its own is the provider
-- of that credential.
pub signing_style_bound :
    (c : Candidate) (p : Text)
    → check_provider_binding c ≡ agreed
    → c.provider ≡ text p
    → (c.api_style ≡ text (codes "bedrock") → p ≡ codes "bedrock")
      × (c.api_style ≡ text (codes "anthropic") → p ≡ codes "anthropic")
      × (c.api_style ≡ text (codes "openai-responses") → p ≡ codes "openai")
signing_style_bound c p a e =
    let (r, (_, _, b, n, o), (_, _, _, _, s)) = listed-Passes c p a e in
    (
      owned_style (codes "bedrock") (codes "bedrock") p r c.api_style b s,
      owned_style (codes "anthropic") (codes "anthropic") p r c.api_style n s,
      owned_style (codes "openai-responses") (codes "openai") p r c.api_style o s,
    )

label-le : (v : Value) → length (candidate_label v) ≤ 128
unfolding candidate_label
label-le (text t) = elim (Bool-cases (leb (length t) 128)) [
  | inl short ↦ rw short (leb→le (length t) 128 short)
  | inr long ↦
      let kept : length (take 125 t) ≡ 125 = length-take 125 t (ground arith) in
      rw long (omega (arith, length-append (take 125 t) (codes "..."), kept))
]
label-le undefined = omega arith
label-le null = omega arith
label-le array = omega arith
label-le object = omega arith
label-le number = omega arith
label-le boolean = omega arith

-- A label is at most 128 units long, and text that fits is its own label.
pub candidate_label_bounds :
    (v : Value) (t : Text)
    → (length (candidate_label v) ≤ 128) × (length t ≤ 128 → candidate_label (text t) ≡ t)
unfolding candidate_label
candidate_label_bounds v t = (label-le v, λ h. ground arith)
