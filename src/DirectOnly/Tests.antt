-- ===== src/DirectOnly/Tests.antt =====
-- The answers about direct-only models at work.
use ppq_enclave_proxy.Prelude.{◌≡◌, refl, ap, Text, codes, [], ◌∷◌, some, true}
use ppq_enclave_proxy.JsMap.{get}
use ppq_enclave_proxy.Address.{number_text}
use ppq_enclave_proxy.DirectOnly.{
  direct_only_namespace_for, direct_only_for, is_declared_provider, Input, find_failure, find_skip,
  failed_refusal, skipped_refusal, is_unavailable_reason, unsupported_messages, echoed,
  is_field_name, classify_direct_only_refusal,
}
use ppq_enclave_proxy.DirectOnly.Names.{Keeps, clean_fields, classify-clean}
use ppq_enclave_proxy.DirectOnly.Status.{Tells, classify-status}

answers : Unit {0}
unfolding direct_only_for direct_only_namespace_for is_declared_provider find_failure find_skip
    failed_refusal skipped_refusal is_unavailable_reason unsupported_messages echoed is_field_name
    classify_direct_only_refusal get number_text
answers = tt

abbrev two_images : Input
two_images = record {
  model = codes "venice/m";
  provider = codes "venice";
  skipped =
      record {
        provider = codes "venice";
        reason = codes "too_many_images";
        field = some (codes "2");
      }
      ∷ [];
  failed = [];
  supports_images = true;
}

images_counted :
    (classify_direct_only_refusal two_images).message
    ≡ codes
        "The model \"venice/m\" accepts at most 2 images per message. Send fewer images in one message and retry."
unfolding answers
images_counted = refl

abbrev hostile : Input
hostile = record two_images {
  skipped =
      record {
        provider = codes "venice";
        reason = codes "unsupported_field";
        field = some (codes "<script>");
      }
      ∷ [];
}

hostile_dropped :
    (classify_direct_only_refusal hostile).message
    ≡ codes
        "The request contains a field the model \"venice/m\" does not support. Remove it and retry."
unfolding answers
hostile_dropped = refl

abbrev throttled : Input
throttled = record two_images {
  failed = record { provider = codes "venice"; status = some 429 } ∷ [];
}

throttled_429 : (classify_direct_only_refusal throttled).status ≡ 429
unfolding answers
throttled_429 = refl

abbrev marked : Text → Text
marked s = b'x' ∷ s

tail_of : Text → Text
tail_of [] = []
tail_of (c ∷ s) = s

marked-Keeps : Keeps marked
unfolding tail_of
marked-Keeps a b e = ap tail_of e

classify-clean_example :
    classify_direct_only_refusal (clean_fields hostile) ≡ classify_direct_only_refusal hostile
classify-clean_example = classify-clean hostile

classify-status_example :
    Tells
      (classify_direct_only_refusal throttled).status
      (find_failure (codes "venice") throttled.failed)
classify-status_example = classify-status throttled
