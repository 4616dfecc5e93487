-- ===== src/DirectOnly.antt =====
-- enclave/src/directOnly.mjs: the models that one upstream alone can serve, and what is answered
-- when the enclave cannot serve them. What a number in a field says is read without the rounding of
-- doubles.
pub mod Names
pub mod Status
pub mod Tests
use ppq_enclave_proxy.Prelude.{
  ℕ, zero, suc, ◌+◌, ◌-◌, ◌*◌, Text, codes, eq_text, starts_with, to_lower, is_digit, is_lower,
  is_upper, every, any_of, map, List, [], ◌∷◌, ◌++◌, Option, none, some, Bool, true, false, not,
  ◌&&◌, ◌||◌, length, leb, ◌==◌, if◌then◌else◌,
}
use Prim.Native.String.{String}
use ppq_enclave_proxy.JsMap.{get}
use ppq_enclave_proxy.Address.{number_text}
use ppq_enclave_proxy.UpstreamBinding.{strip_tilde}

pub record Namespace : Type 0 where
  pub prefix : Text
  pub provider : Text

abbrev pub direct_only_namespaces : List Namespace
direct_only_namespaces = record { prefix = codes "venice/"; provider = codes "venice" } ∷ []

-- `find` over the namespaces.
abbrev find_namespace : List Namespace → Text → Option Namespace
find_namespace [] model = none
find_namespace (n ∷ ns) model =
    if starts_with model n.prefix then some n else find_namespace ns model

-- directOnlyNamespaceFor; a model that is not text is `none`.
unfoldable pub direct_only_namespace_for : Option Text → Option Namespace
direct_only_namespace_for none = none
direct_only_namespace_for (some []) = none
direct_only_namespace_for (some (c ∷ model)) =
    find_namespace direct_only_namespaces (strip_tilde (map to_lower (c ∷ model)))

abbrev is_found : Option Namespace → Bool
is_found none = false
is_found (some n) = true

unfoldable pub is_direct_only_model : Option Text → Bool
unfolding direct_only_namespace_for
is_direct_only_model model = is_found (direct_only_namespace_for model)

-- [a-z0-9_-]
abbrev is_provider_unit : ℕ → Bool
is_provider_unit c = is_lower c || is_digit c || c == b'_' || c == b'-'

-- /^[a-z][a-z0-9_-]{1,31}$/
unfoldable pub is_declared_provider : Text → Bool
is_declared_provider [] = false
is_declared_provider (c ∷ s) =
    is_lower c && leb 1 (length s) && leb (length s) 31 && every is_provider_unit s

-- What a request is bound to: a namespace of the list, or a provider that was declared.
pub data Target : Type 0 where
  listed : Namespace → Target
  declared : (provider : Text) → Target

abbrev pub declared_target : Option Text → Option Target
declared_target none = none
declared_target (some p) =
    if not (is_declared_provider p) || eq_text p (codes "openrouter")
    then none
    else some (declared p)

abbrev pub or_declared : Option Namespace → Option Text → Option Target
or_declared (some n) p = some (listed n)
or_declared none p = declared_target p

-- directOnlyFor, with the declared provider where that is text.
unfoldable pub direct_only_for : Option Text → Option Text → Option Target
direct_only_for model provider = or_declared (direct_only_namespace_for model) provider

pub record Refusal : Type 0 where
  pub status : ℕ
  pub kind : Text
  pub code : Text
  pub message : Text

-- A template with the model between its two parts.
abbrev about : String → Text → String → Text
about a m b = codes a ++ (m ++ codes b)

abbrev pub unavailable : Text → Refusal
unavailable m = record {
  status = 503;
  kind = codes "api_error";
  code = codes "direct_only_model_unavailable";
  message = about "The model \"" m "\" is temporarily unavailable. Please try again shortly.";
}

abbrev pub not_found : Text → Refusal
not_found m = record {
  status = 404;
  kind = codes "invalid_request_error";
  code = codes "model_not_found";
  message = about "The model \"" m "\" does not exist or is not available to your account.";
}

abbrev pub rate_limited : Text → Refusal
rate_limited m = record {
  status = 429;
  kind = codes "rate_limit_error";
  code = codes "direct_only_model_rate_limited";
  message = about "The model \"" m "\" is rate limited right now. Please retry in a few seconds.";
}

abbrev pub upstream_error : Text → Refusal
upstream_error m = record {
  status = 502;
  kind = codes "api_error";
  code = codes "direct_only_model_upstream_error";
  message =
      about "The model \"" m
        "\" could not be served because of an upstream error. Please try again; if it persists, contact support.";
}

abbrev pub unsupported : Text → Refusal
unsupported message = record {
  status = 400;
  kind = codes "invalid_request_error";
  code = codes "direct_only_model_unsupported_request";
  message = message;
}

unfoldable pub is_unavailable_reason : Text → Bool
is_unavailable_reason reason =
    eq_text reason (codes "no_tunnel_or_key")
    || eq_text reason (codes "upstream_not_bound_to_family")
    || eq_text reason (codes "model_disabled")

abbrev field_text : Text → Text → Text → String → Text
field_text f m a b = codes "The request field \"" ++ (f ++ (a ++ (m ++ codes b)))

unsupported_field : Text → Option Text → Bool → Text
unsupported_field m (some (c ∷ f)) images =
    field_text (c ∷ f) m (codes "\" is not supported by the model \"") "\". Remove it and retry."
unsupported_field m _ images =
    about "The request contains a field the model \"" m "\" does not support. Remove it and retry."

unmappable_field : Text → Option Text → Bool → Text
unmappable_field m (some (c ∷ f)) images =
    field_text (c ∷ f) m (codes "\" is not supported by the model \"") "\". Remove it and retry."
unmappable_field m _ images =
    about "The request contains an option the model \"" m
      "\" cannot be served with. Remove it and retry."

non_text_content : Text → Option Text → Bool → Text
non_text_content m field true =
    about "The model \"" m
      "\" accepts text and PNG, JPEG or WebP images sent as base64 data URLs. Remove other attachments, remote image URLs or oversized images and retry."
non_text_content m field false =
    about "The model \"" m
      "\" accepts text-only messages. Remove image or file content from the conversation and retry."

-- The digits at the start of a text, as a number; `none` where there is none.
leading_digits : Option ℕ → Text → Option ℕ
leading_digits n [] = n
leading_digits none (c ∷ s) = if is_digit c then leading_digits (some (c - b'0')) s else none
leading_digits (some n) (c ∷ s) =
    if is_digit c then leading_digits (some (n * 10 + (c - b'0'))) s else some n

-- A negative number is no maximum; minus zero is.
abbrev only_zero : Option ℕ → Option ℕ
only_zero (some zero) = some 0
only_zero (some (suc n)) = none
only_zero none = none

-- `Number.parseInt` of a field name, where that is an integer of 0 or more.
leading_number : Option Text → Option ℕ
unfolding leading_digits
leading_number none = none
leading_number (some []) = none
leading_number (some (c ∷ s)) =
    if c == b'-' then only_zero (leading_digits none s) else leading_digits none (c ∷ s)

abbrev at_most : Text → Option ℕ → Text
at_most m (some n) =
    codes "The model \""
    ++ (m
        ++ (codes "\" accepts at most "
            ++ (number_text 10 n
                ++ (codes " image"
                    ++ ((if n == 1 then [] else codes "s")
                        ++ codes " per message. Send fewer images in one message and retry.")))))
at_most m none =
    about "The model \"" m
      "\" accepts fewer images per message than this request sent. Send fewer images in one message and retry."

too_many_images : Text → Option Text → Bool → Text
unfolding leading_number
too_many_images m field images = at_most m (leading_number field)

-- UNSUPPORTED_MESSAGES.
unfoldable pub unsupported_messages : List (Text × (Text → Option Text → Bool → Text))
unfolding unsupported_field unmappable_field non_text_content too_many_images
unsupported_messages =
    (
      codes "web_search_requires_openrouter",
      λ m field images.
          about "The model \"" m
            "\" does not support web search. Retry without the web search plugin or tool, or choose a model that supports it.",
    )
    ∷ (
      codes "zdr_requested",
      λ m field images.
          about "The model \"" m
            "\" does not support zero data retention. Retry without \"provider.zdr\", or choose a model that supports it.",
    )
    ∷ (
      codes "or_routing_suffix",
      λ m field images.
          about "The model \"" m
            "\" does not support routing suffixes. Request the model id without the \":\" suffix.",
    )
    ∷ (codes "unsupported_field", unsupported_field)
    ∷ (
      codes "unsupported_message_field",
      λ m field images.
          about "A message in this request carries a field the model \"" m
            "\" does not support. Remove it and retry.",
    )
    ∷ (codes "non_text_content", non_text_content)
    ∷ (codes "too_many_images", too_many_images)
    ∷ (
      codes "tools_unsupported_by_model",
      λ m field images.
          about "The model \"" m
            "\" does not support tool calling. Retry without \"tools\", or choose a model that supports it.",
    )
    ∷ (
      codes "response_format_unsupported",
      λ m field images.
          about "The model \"" m
            "\" does not support the requested \"response_format\". Retry without it, or choose a model that supports it.",
    )
    ∷ (
      codes "malformed_messages",
      λ m field images.
          about "The \"messages\" array is not valid for the model \"" m
            "\". Each message needs a role and text content.",
    )
    ∷ (
      codes "endpoint_not_chat_completions",
      λ m field images.
          about "The model \"" m "\" is only available on the chat completions endpoint.",
    )
    ∷ (
      codes "endpoint_not_served_direct",
      λ m field images. about "The model \"" m "\" is not available on this endpoint.",
    )
    ∷ (codes "unmappable_field", unmappable_field)
    ∷ []

-- [A-Za-z0-9_.\-]
abbrev is_field_unit : ℕ → Bool
is_field_unit c = is_upper c || is_lower c || is_digit c || c == b'_' || c == b'.' || c == b'-'

-- /^[A-Za-z0-9_.\-]{1,64}$/
unfoldable pub is_field_name : Text → Bool
is_field_name f = leb 1 (length f) && leb (length f) 64 && every is_field_unit f

unfoldable pub echoed : Option Text → Option Text
unfolding is_field_name
echoed none = none
echoed (some f) = if is_field_name f then some f else none

-- A candidate that was left out, and one whose attempt failed. A field that is not text is `none`.
pub record Skip : Type 0 where
  pub provider : Text
  pub reason : Text
  pub field : Option Text

pub record Failure : Type 0 where
  pub provider : Text
  pub status : Option ℕ

pub record Input : Type 0 where
  pub model : Text
  pub provider : Text
  pub skipped : List Skip
  pub failed : List Failure
  pub supports_images : Bool

unfoldable pub find_failure : Text → List Failure → Option Failure
find_failure p [] = none
find_failure p (f ∷ fs) = if eq_text f.provider p then some f else find_failure p fs

unfoldable pub find_skip : Text → List Skip → Option Skip
find_skip p [] = none
find_skip p (s ∷ ss) = if eq_text s.provider p then some s else find_skip p ss

-- The answer after an attempt that failed.
unfoldable pub failed_refusal : Text → Option ℕ → Refusal
failed_refusal m none = unavailable m
failed_refusal m (some s) =
    if s == 429
    then rate_limited m
    else if s == 400 || s == 404 || s == 422
    then upstream_error m
    else unavailable m

abbrev pub worded : Text → Option Text → Bool → Option (Text → Option Text → Bool → Text) → Refusal
worded m field images none =
    unsupported (about "The model \"" m "\" cannot be served for this request.")
worded m field images (some message) = unsupported (message m (echoed field) images)

-- The answer where no attempt was made.
unfoldable pub skipped_refusal : Text → Bool → Option Skip → Refusal
skipped_refusal m images none = not_found m
skipped_refusal m images (some s) =
    if is_unavailable_reason s.reason
    then unavailable m
    else if eq_text s.reason (codes "model_not_in_catalog")
    then not_found m
    else worded m s.field images (get s.reason unsupported_messages)

abbrev pub refusal_of : Input → Option Failure → Refusal
refusal_of i (some f) = failed_refusal i.model f.status
refusal_of i none = skipped_refusal i.model i.supports_images (find_skip i.provider i.skipped)

-- classifyDirectOnlyRefusal.
unfoldable pub classify_direct_only_refusal : Input → Refusal
classify_direct_only_refusal i = refusal_of i (find_failure i.provider i.failed)
