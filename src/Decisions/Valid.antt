-- ===== src/Decisions/Valid.antt =====
-- What a valid decisions body is, and that the validator accepts exactly those.
use ppq_enclave_proxy.Prelude.{
  ℕ, ◌≡◌, ◌≤◌, ◌↔◌, refl, Text, codes, List, [], ◌∷◌, ◌++◌, Option, none, some, true, not, length,
  leb, arith, All,
}
use ppq_enclave_proxy.Decisions.{
  Kind, undefined, null, text, array, object, scalar, is_entry, is_undefined, Question, Body, ok,
  is_given, is_known, check_question, check_questions, check_all, validate_decisions_request,
}
use ppq_enclave_proxy.Decisions.Fitting.{
  require_iff, and_then_iff, leb_iff, IsEntry, is_entry_iff, IsTyped, is_known_iff, IsGiven,
  is_given_iff, check_criteria_iff,
}

-- A question has instructions, and a known type with criteria that fit it.
abbrev pub IsQuestion : Option Question → Type 0
IsQuestion none = ⊥
IsQuestion (some q) = IsEntry q.instructions × IsTyped q.question_type q.criteria

entry_defined : (k : Kind) → is_entry k ≡ true → not (is_undefined k) ≡ true
entry_defined undefined h = ground arith
entry_defined null h = refl
entry_defined text h = refl
entry_defined array h = refl
entry_defined object h = refl
entry_defined scalar h = refl

check_question_iff : (at : Text) (q : Option Question) → (check_question at q ≡ ok) ↔ IsQuestion q
unfolding check_question
check_question_iff at none = ground arith
check_question_iff at (some q) =
    let fits = check_criteria_iff at q.question_type q.criteria in
    let typed = is_known_iff q.question_type q.criteria in
    let entry = require_iff (is_entry q.instructions) _ _ _ in
    let given = require_iff (not (is_undefined q.instructions)) _ _ _ in
    let known = require_iff (is_known q.question_type) _ _ _ in
    (
      (λ h.
          let (k, more) = known.0 h in
          let (e, c) = entry.0 (given.0 more).1 in
          ((is_entry_iff q.instructions).0 e, typed.0 (k, fits.0 c))),
      (λ (i, t).
          let e = (is_entry_iff q.instructions).1 i in
          let (k, c) = typed.1 t in
          known.1 (k, given.1 (entry_defined q.instructions e, entry.1 (e, fits.1 c)))),
    )

check_questions_iff :
    (qs : List (Text × Option Question)) → (check_questions qs ≡ ok) ↔ All (λ q. IsQuestion q.1) qs
unfolding check_questions
check_questions_iff [] = ((λ h. tt), (λ h. refl))
check_questions_iff ((key, q) ∷ qs) =
    let first = check_question_iff (codes "questions." ++ key) q in
    let rest = check_questions_iff qs in
    let both = and_then_iff (check_question (codes "questions." ++ key) q) (check_questions qs) in
    ((λ h. (first.0 (both.0 h).0, rest.0 (both.0 h).1)), (λ (a, b). both.1 (first.1 a, rest.1 b)))

-- 1 to 50 questions, each of them well formed, and no more characters than the limit.
abbrev pub AreQuestions : ℕ → Option (List (Text × Option Question)) → Type 0
AreQuestions chars none = ⊥
AreQuestions chars (some qs) =
    (1 ≤ length qs) × (length qs ≤ 50) × All (λ q. IsQuestion q.1) qs × (chars ≤ 150000)

check_all_iff :
    (chars : ℕ) (qs : Option (List (Text × Option Question)))
    → (check_all chars qs ≡ ok) ↔ AreQuestions chars qs
check_all_iff chars none = ground arith
check_all_iff chars (some qs) =
    let each = check_questions_iff qs in
    let short = require_iff (leb chars 150000) _ _ ok in
    let both = and_then_iff (check_questions qs) _ in
    let few = require_iff (leb (length qs) 50) _ _ _ in
    let some_one = require_iff (leb 1 (length qs)) _ _ _ in
    (
      (λ h.
          let (a, more) = some_one.0 h in
          let (b, rest) = few.0 more in
          let (c, d) = both.0 rest in
          (
            (leb_iff 1 (length qs)).0 a,
            (leb_iff (length qs) 50).0 b,
            each.0 c,
            (leb_iff chars 150000).0 (short.0 d).0,
          )),
      (λ (a, b, c, d). some_one.1 (
        (leb_iff 1 (length qs)).1 a,
        few.1 (
          (leb_iff (length qs) 50).1 b,
          both.1 (each.1 c, short.1 ((leb_iff chars 150000).1 d, refl)),
        ),
      )),
    )

-- A model that is not blank, a state that is text, an array or an object of at most 100000 characters, and well-formed questions.
abbrev pub IsDecisions : Option Body → Type 0
IsDecisions none = ⊥
IsDecisions (some b) =
    IsGiven b.model
    × IsEntry b.state
    × (b.state_chars ≤ 100000)
    × AreQuestions b.request_chars b.questions

-- The validator accepts exactly the bodies with a model that is not blank, a state that is text, an
-- array or an object of at most 100000 characters, and 1 to 50 questions that make at most 150000
-- characters with it: each with instructions of such a kind, and either a choice with 1 to 100 options
-- whose descriptions are of such a kind or null, a score with 1 to 100 labels of such a kind, or a noul
-- whose criteria, if any, are an object.
pub validate_decisions_request_iff :
    (b : Option Body) → (validate_decisions_request b ≡ ok) ↔ IsDecisions b
unfolding validate_decisions_request
validate_decisions_request_iff none = ground arith
validate_decisions_request_iff (some b) =
    let all = check_all_iff b.request_chars b.questions in
    let short = require_iff (leb b.state_chars 100000) _ _ _ in
    let entry = require_iff (is_entry b.state) _ _ _ in
    let given = require_iff (not (is_undefined b.state)) _ _ _ in
    let model = require_iff (is_given b.model) _ _ _ in
    (
      (λ h.
          let (m, r) = model.0 h in
          let (e, s) = entry.0 (given.0 r).1 in
          let (c, q) = short.0 s in
          (
            (is_given_iff b.model).0 m,
            (is_entry_iff b.state).0 e,
            (leb_iff b.state_chars 100000).0 c,
            all.0 q,
          )),
      (λ (m, i, c, q).
          let e = (is_entry_iff b.state).1 i in
          model.1 (
            (is_given_iff b.model).1 m,
            given.1 (
              entry_defined b.state e,
              entry.1 (e, short.1 ((leb_iff b.state_chars 100000).1 c, all.1 q)),
            ),
          )),
    )
