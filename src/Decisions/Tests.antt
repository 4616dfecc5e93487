-- ===== src/Decisions/Tests.antt =====
-- The decisions validator at work.
use ppq_enclave_proxy.Prelude.{◌≡◌, ◌↔◌, refl, codes, trim, [], ◌∷◌, some}
use ppq_enclave_proxy.Decisions.{
  text, null, options, Question, Body, ok, invalid, check_options, check_choice, check_score,
  check_noul, check_question, check_questions, validate_decisions_request,
}
use ppq_enclave_proxy.Decisions.Valid.{IsDecisions, validate_decisions_request_iff}

validator : Unit {0}
unfolding validate_decisions_request check_questions check_question check_noul check_score
    check_choice check_options trim
validator = tt

abbrev mood : Question
mood = record {
  question_type = some (codes "choice");
  instructions = text;
  criteria = options ((codes "calm", text) ∷ (codes "tense", null) ∷ []);
}

abbrev asked : Body
asked = record {
  model = some (codes "typesafe/jev");
  state = text;
  state_chars = 12;
  questions = some ((codes "mood", some mood) ∷ []);
  request_chars = 90;
}

accepted_body : validate_decisions_request (some asked) ≡ ok
unfolding validator
accepted_body = refl

mislabelled :
    validate_decisions_request (
      some (record asked {
        questions =
            some ((codes "mood", some (record mood { question_type = some (codes "score") })) ∷ []);
      }))
    ≡ invalid
        (codes "questions.mood.criteria")
        (codes "score questions require criteria as an array of ordered labels")
unfolding validator
mislabelled = refl

too_long :
    validate_decisions_request (some (record asked { state_chars = 100001 }))
    ≡ invalid (codes "state") (codes "state must be at most 100000 characters")
unfolding validator
too_long = refl

validate_decisions_request_iff_example :
    (validate_decisions_request (some asked) ≡ ok) ↔ IsDecisions (some asked)
validate_decisions_request_iff_example = validate_decisions_request_iff (some asked)
