-- ===== src/Decisions.antt =====
-- enclave/src/decisions.mjs: the validator of a decisions body. What the platform's serialiser
-- measures is part of the body that is judged: the characters of the state (as text, or serialised)
-- and those of the state and the questions together.
pub mod Fitting
pub mod Valid
pub mod Tests
use ppq_enclave_proxy.Prelude.{
  ℕ, Text, codes, eq_text, trim, any_of, every, List, [], ◌∷◌, ◌++◌, Option, none, some, Bool, true,
  false, not, ◌||◌, length, leb, if◌then◌else◌,
}

-- What kind of JSON value stands somewhere.
pub data Kind : Type 0 where
  undefined : Kind
  null : Kind
  text : Kind
  array : Kind
  object : Kind
  scalar : Kind

abbrev pub is_entry : Kind → Bool
is_entry undefined = false
is_entry null = false
is_entry text = true
is_entry array = true
is_entry object = true
is_entry scalar = false

abbrev pub is_description : Kind → Bool
is_description undefined = false
is_description null = true
is_description text = true
is_description array = true
is_description object = true
is_description scalar = false

abbrev pub is_undefined : Kind → Bool
is_undefined undefined = true
is_undefined null = false
is_undefined text = false
is_undefined array = false
is_undefined object = false
is_undefined scalar = false

-- The criteria of a question.
pub data Criteria : Type 0 where
  omitted : Criteria
  labels : List Kind → Criteria
  options : List (Text × Kind) → Criteria
  unusable : Criteria

pub record Question : Type 0 where
  pub question_type : Option Text
  pub instructions : Kind
  pub criteria : Criteria

-- A body that is an object; a question that is no object is `none`.
pub record Body : Type 0 where
  pub model : Option Text
  pub state : Kind
  pub state_chars : ℕ
  pub questions : Option (List (Text × Option Question))
  pub request_chars : ℕ

abbrev pub max_questions : ℕ
max_questions = 50

abbrev pub max_criteria : ℕ
max_criteria = 100

abbrev pub max_state_chars : ℕ
max_state_chars = 100000

abbrev pub max_request_chars : ℕ
max_request_chars = 150000

pub data Verdict : Type 0 where
  ok : Verdict
  invalid : (field message : Text) → Verdict

-- `if (!test) return fail(field, message)`, and what follows.
abbrev pub require : Bool → Text → Text → Verdict → Verdict
require true field message rest = rest
require false field message rest = invalid field message

abbrev pub is_given : Option Text → Bool
is_given none = false
is_given (some m) = not (eq_text (trim m) [])

-- The descriptions of the options, in their order.
unfoldable pub check_options : Text → List (Text × Kind) → Verdict
check_options at [] = ok
check_options at ((name, k) ∷ opts) =
    require (is_description k) (at ++ codes ".criteria." ++ name)
      (codes "each option description must be a string, object, array, or null")
      (check_options at opts)

unfoldable pub check_choice : Text → Criteria → Verdict
check_choice at (options opts) =
    require (leb 1 (length opts)) (at ++ codes ".criteria")
      (codes "choice questions require at least 1 option")
      (require (leb (length opts) max_criteria) (at ++ codes ".criteria")
        (codes "at most 100 options are allowed") (check_options at opts))
check_choice at (labels ls) =
    invalid (at ++ codes ".criteria")
      (codes "choice questions require criteria as an object of option -> description")
check_choice at omitted =
    invalid (at ++ codes ".criteria")
      (codes "choice questions require criteria as an object of option -> description")
check_choice at unusable =
    invalid (at ++ codes ".criteria")
      (codes "choice questions require criteria as an object of option -> description")

unfoldable pub check_score : Text → Criteria → Verdict
check_score at (labels ls) =
    require (leb 1 (length ls)) (at ++ codes ".criteria")
      (codes "score questions require at least 1 label")
      (require (leb (length ls) max_criteria) (at ++ codes ".criteria")
        (codes "at most 100 labels are allowed")
        (require (every is_entry ls) (at ++ codes ".criteria")
          (codes "each label must be a string, object, or array") ok))
check_score at (options opts) =
    invalid (at ++ codes ".criteria")
      (codes "score questions require criteria as an array of ordered labels")
check_score at omitted =
    invalid (at ++ codes ".criteria")
      (codes "score questions require criteria as an array of ordered labels")
check_score at unusable =
    invalid (at ++ codes ".criteria")
      (codes "score questions require criteria as an array of ordered labels")

unfoldable pub check_noul : Text → Criteria → Verdict
check_noul at omitted = ok
check_noul at (options opts) = ok
check_noul at (labels ls) =
    invalid (at ++ codes ".criteria")
      (codes "noul criteria must be an object describing the true/false outcomes")
check_noul at unusable =
    invalid (at ++ codes ".criteria")
      (codes "noul criteria must be an object describing the true/false outcomes")

abbrev pub is_type : Text → Bool
is_type t = eq_text t (codes "noul") || eq_text t (codes "choice") || eq_text t (codes "score")

abbrev pub is_known : Option Text → Bool
is_known none = false
is_known (some t) = is_type t

abbrev pub check_criteria : Text → Option Text → Criteria → Verdict
check_criteria at none c = check_noul at c
check_criteria at (some t) c =
    if eq_text t (codes "choice")
    then check_choice at c
    else if eq_text t (codes "score")
    then check_score at c
    else check_noul at c

unfoldable pub check_question : Text → Option Question → Verdict
check_question at none = invalid at (codes "Each question must be an object")
check_question at (some q) =
    require (is_known q.question_type) (at ++ codes ".type")
      (codes "type must be one of: noul, choice, score")
      (require (not (is_undefined q.instructions)) (at ++ codes ".instructions")
        (codes "Missing required field: instructions")
        (require (is_entry q.instructions) (at ++ codes ".instructions")
          (codes "instructions must be a string, object, or array")
          (check_criteria at q.question_type q.criteria)))

abbrev pub and_then : Verdict → Verdict → Verdict
and_then ok rest = rest
and_then (invalid f m) rest = invalid f m

-- The loop over the questions.
unfoldable pub check_questions : List (Text × Option Question) → Verdict
check_questions [] = ok
check_questions ((key, q) ∷ qs) =
    and_then (check_question (codes "questions." ++ key) q) (check_questions qs)

abbrev pub check_all : ℕ → Option (List (Text × Option Question)) → Verdict
check_all chars none =
    invalid (codes "questions")
      (codes "Missing required field: questions (an object of question definitions)")
check_all chars (some qs) =
    require (leb 1 (length qs)) (codes "questions") (codes "At least one question is required") (
      require (leb (length qs) max_questions) (codes "questions")
        (codes "At most 50 questions are allowed")
        (and_then (check_questions qs) (
          require (leb chars max_request_chars) (codes "questions")
            (codes "state and questions together must serialize to at most 150000 characters") ok)))

abbrev state_message : Kind → Text
state_message text = codes "state must be at most 100000 characters"
state_message array = codes "state must serialize to at most 100000 characters"
state_message object = codes "state must serialize to at most 100000 characters"
state_message null = codes "state must serialize to at most 100000 characters"
state_message scalar = codes "state must serialize to at most 100000 characters"
state_message undefined = codes "state must serialize to at most 100000 characters"

-- validateDecisionsRequest; a body that is no object is `none`. What is accepted is given on as its
-- model, its state and its questions.
unfoldable pub validate_decisions_request : Option Body → Verdict
validate_decisions_request none =
    invalid (codes "body") (codes "Request body must be a JSON object")
validate_decisions_request (some b) =
    require (is_given b.model) (codes "model") (codes "Missing required field: model") (
      require (not (is_undefined b.state)) (codes "state") (codes "Missing required field: state") (
        require (is_entry b.state) (codes "state")
          (codes "state must be a string, object, or array")
          (require (leb b.state_chars max_state_chars) (codes "state") (state_message b.state)
            (check_all b.request_chars b.questions))))
