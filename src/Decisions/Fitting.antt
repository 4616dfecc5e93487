-- ===== src/Decisions/Fitting.antt =====
-- The parts of a decisions body that are valid, and that the tests of the validator accept exactly
-- those.
use ppq_enclave_proxy.Prelude.{
  ℕ, ◌≡◌, ◌≤◌, ◌↔◌, refl, Text, codes, eq_text, every, List, [], ◌∷◌, Option, none, some, Bool,
  true, false, length, leb, if◌then◌else◌, arith, inl, inr, Bool-cases, All, ◌⊎◌, ◌≢◌, ap, subst,
  eq_text_iff, sym,
}
use mathlib.Core.Option.{none-ne-some, some-injective}
use ppq_enclave_proxy.Decisions.{
  Kind, undefined, null, text, array, object, scalar, is_entry, is_description, Criteria, omitted,
  labels, options, unusable, Verdict, ok, invalid, require, is_given, check_options, check_choice,
  check_score, check_noul, is_known, check_criteria, and_then, trim,
}

pub require_iff :
    (b : Bool) (f m : Text) (r : Verdict) → (require b f m r ≡ ok) ↔ ((b ≡ true) × (r ≡ ok))
require_iff true f m r = ground arith
require_iff false f m r = ground arith

pub and_then_iff : (v r : Verdict) → (and_then v r ≡ ok) ↔ ((v ≡ ok) × (r ≡ ok))
and_then_iff ok r = ground arith
and_then_iff (invalid f m) r = ground arith

pub leb_iff : (a b : ℕ) → (leb a b ≡ true) ↔ (a ≤ b)
leb_iff a b = ground arith

-- A text, an array or an object.
abbrev pub IsEntry : Kind → Type 0
IsEntry k = (k ≡ text) ⊎ ((k ≡ array) ⊎ (k ≡ object))

-- An option may be described by null as well.
abbrev pub IsDescription : Kind → Type 0
IsDescription k = (k ≡ null) ⊎ IsEntry k

is_entry-IsEntry : (k : Kind) → is_entry k ≡ true → IsEntry k
is_entry-IsEntry text h = inl refl
is_entry-IsEntry array h = inr (inl refl)
is_entry-IsEntry object h = inr (inr refl)
is_entry-IsEntry undefined h = ground arith
is_entry-IsEntry null h = ground arith
is_entry-IsEntry scalar h = ground arith

pub is_entry_iff : (k : Kind) → (is_entry k ≡ true) ↔ IsEntry k
is_entry_iff k = (
  is_entry-IsEntry k,
  λ h. elim h [
    | inl t ↦ rw t refl
    | inr more ↦ elim more [ inl a ↦ rw a refl | inr o ↦ rw o refl ]
  ],
)

described : (k : Kind) → is_entry k ≡ true → is_description k ≡ true
described text h = refl
described array h = refl
described object h = refl
described undefined h = ground arith
described null h = ground arith
described scalar h = ground arith

is_description-IsDescription : (k : Kind) → is_description k ≡ true → IsDescription k
is_description-IsDescription text h = inr (inl refl)
is_description-IsDescription array h = inr (inr (inl refl))
is_description-IsDescription object h = inr (inr (inr refl))
is_description-IsDescription null h = inl refl
is_description-IsDescription undefined h = ground arith
is_description-IsDescription scalar h = ground arith

is_description_iff : (k : Kind) → (is_description k ≡ true) ↔ IsDescription k
is_description_iff k = (
  is_description-IsDescription k,
  λ h. elim h [ inl n ↦ rw n refl | inr e ↦ described k ((is_entry_iff k).1 e) ],
)

every_iff : (ls : List Kind) → (every is_entry ls ≡ true) ↔ All IsEntry ls
every_iff [] = ((λ h. tt), (λ h. refl))
every_iff (l ∷ ls) =
    let first = is_entry_iff l in
    let rest = every_iff ls in
    (
      (λ h. (first.0 (ground arith), rest.0 (ground arith))),
      (λ (a, b). let x = first.1 a in let y = rest.1 b in ground arith),
    )

-- A text that is not blank.
abbrev pub IsGiven : Option Text → Type 0
IsGiven m = (t : Text) × ((m ≡ some t) × (trim t ≢ []))

pub is_given_iff : (m : Option Text) → (is_given m ≡ true) ↔ IsGiven m
is_given_iff none = ((λ h. ground arith), (λ (t, (e, n)). absurd (none-ne-some t e)))
is_given_iff (some t) = (
  (λ h. (t, (refl, λ e. let same = (eq_text_iff (trim t) []).1 e in ground arith))),
  (λ (u, (e, n)).
      let same : t ≡ u = some-injective t u e in
      let filled : trim t ≢ [] = rw same n in
      elim (Bool-cases (eq_text (trim t) [])) [
        | inl blank ↦ absurd (filled ((eq_text_iff (trim t) []).0 blank))
        | inr other ↦ rw other refl
      ]),
)

-- The criteria fit the type: a choice has 1 to 100 described options, a score 1 to 100 labels, and
-- any other question an object or none.
abbrev pub FitsChoice : Criteria → Type 0
FitsChoice (options opts) =
    (1 ≤ length opts) × (length opts ≤ 100) × All (λ o. IsDescription o.1) opts
FitsChoice (labels ls) = ⊥
FitsChoice omitted = ⊥
FitsChoice unusable = ⊥

abbrev pub FitsScore : Criteria → Type 0
FitsScore (labels ls) = (1 ≤ length ls) × (length ls ≤ 100) × All IsEntry ls
FitsScore (options opts) = ⊥
FitsScore omitted = ⊥
FitsScore unusable = ⊥

abbrev pub FitsNoul : Criteria → Type 0
FitsNoul omitted = Unit
FitsNoul (options opts) = Unit
FitsNoul (labels ls) = ⊥
FitsNoul unusable = ⊥

check_options_iff :
    (at : Text) (opts : List (Text × Kind))
    → (check_options at opts ≡ ok) ↔ All (λ o. IsDescription o.1) opts
unfolding check_options
check_options_iff at [] = ((λ h. tt), (λ h. refl))
check_options_iff at ((name, k) ∷ opts) =
    let first = require_iff (is_description k) _ _ (check_options at opts) in
    let fit = is_description_iff k in
    let rest = check_options_iff at opts in
    ((λ h. (fit.0 (first.0 h).0, rest.0 (first.0 h).1)), (λ (d, ds). first.1 (fit.1 d, rest.1 ds)))

check_choice_iff : (at : Text) (c : Criteria) → (check_choice at c ≡ ok) ↔ FitsChoice c
unfolding check_choice
check_choice_iff at (labels ls) = ground arith
check_choice_iff at omitted = ground arith
check_choice_iff at unusable = ground arith
check_choice_iff at (options opts) =
    let inner = check_options_iff at opts in
    let few = require_iff (leb (length opts) 100) _ _ (check_options at opts) in
    let some_one = require_iff (leb 1 (length opts)) _ _ _ in
    (
      (λ h.
          let (a, more) = some_one.0 h in
          let (b, ds) = few.0 more in
          ((leb_iff 1 (length opts)).0 a, (leb_iff (length opts) 100).0 b, inner.0 ds)),
      (λ (a, b, ds).
          some_one.1
            ((leb_iff 1 (length opts)).1 a, few.1 ((leb_iff (length opts) 100).1 b, inner.1 ds))),
    )

check_score_iff : (at : Text) (c : Criteria) → (check_score at c ≡ ok) ↔ FitsScore c
unfolding check_score
check_score_iff at (options opts) = ground arith
check_score_iff at omitted = ground arith
check_score_iff at unusable = ground arith
check_score_iff at (labels ls) =
    let entries = require_iff (every is_entry ls) _ _ ok in
    let few = require_iff (leb (length ls) 100) _ _ _ in
    let some_one = require_iff (leb 1 (length ls)) _ _ _ in
    (
      (λ h.
          let (a, more) = some_one.0 h in
          let (b, es) = few.0 more in
          (
            (leb_iff 1 (length ls)).0 a,
            (leb_iff (length ls) 100).0 b,
            (every_iff ls).0 (entries.0 es).0,
          )),
      (λ (a, b, es). some_one.1 (
        (leb_iff 1 (length ls)).1 a,
        few.1 ((leb_iff (length ls) 100).1 b, entries.1 ((every_iff ls).1 es, refl)),
      )),
    )

check_noul_iff : (at : Text) (c : Criteria) → (check_noul at c ≡ ok) ↔ FitsNoul c
unfolding check_noul
check_noul_iff at omitted = ((λ h. tt), (λ h. refl))
check_noul_iff at (options opts) = ((λ h. tt), (λ h. refl))
check_noul_iff at (labels ls) = ground arith
check_noul_iff at unusable = ground arith

abbrev pub Fits : Option Text → Criteria → Type 0
Fits none c = FitsNoul c
Fits (some t) c =
    if eq_text t (codes "choice")
    then FitsChoice c
    else if eq_text t (codes "score")
    then FitsScore c
    else FitsNoul c

pub check_criteria_iff :
    (at : Text) (t : Option Text) (c : Criteria) → (check_criteria at t c ≡ ok) ↔ Fits t c
check_criteria_iff at none c = check_noul_iff at c
check_criteria_iff at (some t) c = elim (Bool-cases (eq_text t (codes "choice"))) [
  | inl e ↦ rw e (check_choice_iff at c)
  | inr e ↦ elim (Bool-cases (eq_text t (codes "score"))) [
    | inl s ↦ rw (e, s) (check_score_iff at c)
    | inr s ↦ rw (e, s) (check_noul_iff at c)
  ]
]

-- One of the three types, with criteria that fit it.
abbrev pub IsTyped : Option Text → Criteria → Type 0
IsTyped t c =
    ((t ≡ some (codes "choice")) × FitsChoice c)
    ⊎ (((t ≡ some (codes "score")) × FitsScore c) ⊎ ((t ≡ some (codes "noul")) × FitsNoul c))

-- The criteria for the answers of the two tests of a type.
abbrev FitsTested : Criteria → Bool → Bool → Type 0
FitsTested c choice score =
    if choice then FitsChoice c else if score then FitsScore c else FitsNoul c

is_known-IsTyped : (t : Option Text) (c : Criteria) → is_known t ≡ true → Fits t c → IsTyped t c
is_known-IsTyped none c k f = ground arith
is_known-IsTyped (some t) c k f = elim (Bool-cases (eq_text t (codes "choice"))) [
  | inl e ↦ inl (
    ap some ((eq_text_iff t (codes "choice")).0 e),
    subst (λ b. FitsTested c b (eq_text t (codes "score"))) e f,
  )
  | inr e ↦ elim (Bool-cases (eq_text t (codes "score"))) [
    | inl s ↦ inr (
        inl (
          ap some ((eq_text_iff t (codes "score")).0 s),
          subst (FitsTested c false) s
              (subst (λ b. FitsTested c b (eq_text t (codes "score"))) e f),
        ))
    | inr s ↦
        let n : eq_text t (codes "noul") ≡ true = ground arith in
        inr (
          inr (
            ap some ((eq_text_iff t (codes "noul")).0 n),
            subst (FitsTested c false) s
                (subst (λ b. FitsTested c b (eq_text t (codes "score"))) e f),
          ))
  ]
]

abbrev KnownFits : Criteria → Option Text → Type 0
KnownFits c t = (is_known t ≡ true) × Fits t c

pub is_known_iff : (t : Option Text) (c : Criteria) → KnownFits c t ↔ IsTyped t c
is_known_iff t c = (
  (λ (k, f). is_known-IsTyped t c k f),
  λ h. elim h [
    | inl (e, f) ↦ subst (KnownFits c) (sym e) (refl, f)
    | inr more ↦ elim more [
      | inl (e, f) ↦ subst (KnownFits c) (sym e) (refl, f)
      | inr (e, f) ↦ subst (KnownFits c) (sym e) (refl, f)
    ]
  ],
)
