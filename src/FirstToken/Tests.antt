-- ===== src/FirstToken/Tests.antt =====
-- The detector on a stream of three chunks.
use ppq_enclave_proxy.Prelude.{
  ◌≡◌, refl, Text, codes, eq_text, List, [], ◌∷◌, Option, none, some, if◌then◌else◌,
}
use mathlib.Core.List.{flatten}
use ppq_enclave_proxy.LineBuffer.{split_lines}
use ppq_enclave_proxy.Json.{Json, text, object, member, no_members, find}
use ppq_enclave_proxy.FirstToken.{content, first_kind, reports, listening}
use ppq_enclave_proxy.FirstToken.Lines.{first_report, reports-first_kind}

abbrev frame : Json
frame = object (
    member (codes "type") (text (codes "response.output_text.delta"))
      (member (codes "delta") (text (codes "Hi")) no_members))

abbrev parse : Text → Option Json
parse s = if eq_text s (codes "{x}") then some frame else none

abbrev chunks : List Text
chunks = codes ": ping\nda" ∷ codes "ta: {x}\r\nda" ∷ codes "ta: {x}\n" ∷ []

reports_lem : reports parse (listening []) chunks ≡ none ∷ some content ∷ none ∷ []
unfolding reports find
reports_lem = refl

reports-first_kind_example :
    first_report (reports parse (listening []) chunks)
    ≡ first_kind parse [] (split_lines (flatten chunks)).0
unfolding flatten
reports-first_kind_example = reports-first_kind parse chunks refl
