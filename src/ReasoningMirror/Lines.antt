-- ===== src/ReasoningMirror/Lines.antt =====
-- The rewriting of a chunk, of a line and of a body, done twice.
use ppq_enclave_proxy.Prelude.{
  ◌∷◌, if_both, ◌≡◌, ◌⊎◌, inl, inr, refl, Text, codes, eq_text, Option, some, true, false, ◌||◌,
  not, Bool-cases, Option-cases, eq_text_iff, trim, drop, ltb, length, starts_with, contains,
}
use ppq_enclave_proxy.Json.{
  Json, Members, Elements, null, boolean, number, text, object, array, no_members, member,
  no_elements, element,
}
use ppq_enclave_proxy.ReasoningMirror.{
  reasoning_content, mirror_member, mirror_choice, mirror_choices, mirror_array,
  mirror_chunk_members, mirror_reasoning_in_chunk, mirror_reasoning_line, written, data_line,
  max_line_chars,
}
use ppq_enclave_proxy.ReasoningMirror.Parts.{mirror_reasoning_into-settled}

mirror_member-settled :
    (name : Text) (ms : Members)
    → mirror_member name (mirror_member name ms).0 ≡ ((mirror_member name ms).0, false)
unfolding mirror_member
mirror_member-settled name no_members = refl
mirror_member-settled name (member key v ms) = elim (Bool-cases (eq_text key name)) [
  | inl same ↦ rw (same, same, mirror_reasoning_into-settled v) refl
  | inr other ↦ rw (other, other, mirror_member-settled name ms) refl
]

-- The rewriting of one member leaves another settled.
mirror_member_both :
    (name other : Text) (ms : Members)
    → eq_text name other ≡ false
    → mirror_member name (mirror_member other (mirror_member name ms).0).0
      ≡ ((mirror_member other (mirror_member name ms).0).0, false)
unfolding mirror_member
mirror_member_both name other no_members h = refl
mirror_member_both name other (member key v ms) h = elim (Bool-cases (eq_text key name)) [
  | inl same ↦
      let eq : key ≡ name = (eq_text_iff key name).0 same in
      let apart : eq_text key other ≡ false = rw eq h in
      rw (same, apart, same, mirror_reasoning_into-settled v) refl
  | inr apart ↦ elim (Bool-cases (eq_text key other)) [
    | inl there ↦ rw (apart, there, apart, mirror_member-settled name ms) refl
    | inr further ↦ rw (apart, further, apart, mirror_member_both name other ms h) refl
  ]
]

mirror_choice-settled :
    (choice : Json) → mirror_choice (mirror_choice choice).0 ≡ ((mirror_choice choice).0, false)
unfolding mirror_choice
mirror_choice-settled (object ms) =
    let d = (mirror_member (codes "delta") ms).0 in
    rw
      (
        mirror_member_both (codes "delta") (codes "message") ms refl,
        mirror_member-settled (codes "message") d,
      )
      refl
mirror_choice-settled null = refl
mirror_choice-settled (boolean b) = refl
mirror_choice-settled (number n) = refl
mirror_choice-settled (text s) = refl
mirror_choice-settled (array es) = refl

mirror_choices-settled :
    (choices : Elements)
    → mirror_choices (mirror_choices choices).0 ≡ ((mirror_choices choices).0, false)
unfolding mirror_choices
mirror_choices-settled no_elements = refl
mirror_choices-settled (element choice choices) =
    rw (mirror_choice-settled choice, mirror_choices-settled choices) refl

mirror_array-settled :
    (key : Text) (v : Json) (ms : Members)
    → eq_text key (codes "choices") ≡ true
    → mirror_chunk_members (mirror_array key v ms).0 ≡ ((mirror_array key v ms).0, false)
unfolding mirror_chunk_members mirror_array
mirror_array-settled key (array choices) ms h = rw (h, mirror_choices-settled choices) refl
mirror_array-settled key null ms h = rw h refl
mirror_array-settled key (boolean b) ms h = rw h refl
mirror_array-settled key (number n) ms h = rw h refl
mirror_array-settled key (text s) ms h = rw h refl
mirror_array-settled key (object es) ms h = rw h refl

mirror_chunk_members-settled :
    (ms : Members)
    → mirror_chunk_members (mirror_chunk_members ms).0 ≡ ((mirror_chunk_members ms).0, false)
unfolding mirror_chunk_members
mirror_chunk_members-settled no_members = refl
mirror_chunk_members-settled (member key v ms) = elim (Bool-cases (eq_text key (codes "choices"))) [
  | inl same ↦ rw same (mirror_array-settled key v ms same)
  | inr other ↦ rw (other, other, mirror_chunk_members-settled ms) refl
]

-- Rewriting a chunk that was rewritten changes nothing, and says so.
pub mirror_reasoning_in_chunk-settled :
    (obj : Json)
    → mirror_reasoning_in_chunk (mirror_reasoning_in_chunk obj).0
      ≡ ((mirror_reasoning_in_chunk obj).0, false)
unfolding mirror_reasoning_in_chunk
mirror_reasoning_in_chunk-settled (object ms) = rw (mirror_chunk_members-settled ms) refl
mirror_reasoning_in_chunk-settled null = refl
mirror_reasoning_in_chunk-settled (boolean b) = refl
mirror_reasoning_in_chunk-settled (number n) = refl
mirror_reasoning_in_chunk-settled (text s) = refl
mirror_reasoning_in_chunk-settled (array es) = refl

module _ (parse : Text → Option Json) (stringify : Json → Text) where
  -- A rewritten text is the text as it came, or the print of a chunk that it held.
  written_cases :
      (raw s : Text) (print : Json → Text)
      → (written parse stringify raw print (parse s) ≡ raw)
        ⊎ ((obj : Json) × ((parse s ≡ some obj)
              × (written parse stringify raw print (parse s)
                  ≡ print (mirror_reasoning_in_chunk obj).0)))
  unfolding written
  written_cases raw s print = elim (Option-cases (parse s)) [
    | inl broken ↦ rw broken (inl refl)
    | inr (obj, parsed) ↦ rw parsed (elim (Bool-cases (mirror_reasoning_in_chunk obj).1) [
      | inl changed ↦ inr (obj, (refl, rw changed refl))
      | inr same ↦ inl (rw same refl)
    ])
  ]

  written_settled :
      (raw : Text) (print : Json → Text) (obj : Json)
      → written parse stringify raw print (some (mirror_reasoning_in_chunk obj).0) ≡ raw
  unfolding written
  written_settled raw print obj = rw (mirror_reasoning_in_chunk-settled obj) refl

  line_cases :
      (line : Text)
      → (mirror_reasoning_line parse stringify line ≡ line)
        ⊎ ((obj : Json) × ((parse (trim (drop 5 line)) ≡ some obj)
              × (mirror_reasoning_line parse stringify line
                  ≡ data_line parse stringify (mirror_reasoning_in_chunk obj).0)))
  unfolding mirror_reasoning_line
  line_cases line =
      elim (Bool-cases
        (ltb max_line_chars (length line) || not (starts_with line (codes "data:")))) [
          | inl apart ↦ rw apart (inl refl)
          | inr event ↦
              let payload = trim (drop 5 line) in
              elim (Bool-cases (
                not (starts_with payload (codes "{"))
                || not (contains payload reasoning_content))) [
                  | inl plain ↦ rw (event, plain) (inl refl)
                  | inr named ↦
                      rw (event, named) (written_cases line payload (data_line parse stringify))
                ]
        ]

  data_line-settled :
      (obj : Json)
      → parse (trim (32 ∷ stringify (mirror_reasoning_in_chunk obj).0))
        ≡ some (mirror_reasoning_in_chunk obj).0
      → mirror_reasoning_line parse stringify
          (data_line parse stringify (mirror_reasoning_in_chunk obj).0)
        ≡ data_line parse stringify (mirror_reasoning_in_chunk obj).0
  unfolding mirror_reasoning_line
  data_line-settled obj h =
      let line = data_line parse stringify (mirror_reasoning_in_chunk obj).0 in
      let payload = trim (drop 5 line) in
      let w = written parse stringify line (data_line parse stringify) (parse payload) in
      let kept : w ≡ line = rw h (written_settled line (data_line parse stringify) obj) in
      if_both (λ (x : Text). x ≡ line)
        (ltb max_line_chars (length line) || not (starts_with line (codes "data:"))) line _ refl
        (if_both (λ (x : Text). x ≡ line)
          (not (starts_with payload (codes "{")) || not (contains payload reasoning_content)) line w
          refl kept)

  -- Where a printed chunk parses as that chunk, a line that was rewritten is left as it is.
  pub mirror_reasoning_line-settled :
      (line : Text)
      → ((s : Text) (obj : Json)
          → parse s ≡ some obj
          → parse (trim (32 ∷ stringify (mirror_reasoning_in_chunk obj).0))
            ≡ some (mirror_reasoning_in_chunk obj).0)
      → mirror_reasoning_line parse stringify (mirror_reasoning_line parse stringify line)
        ≡ mirror_reasoning_line parse stringify line
  mirror_reasoning_line-settled line h = elim (line_cases line) [
    | inl same ↦ rw (same, same) refl
    | inr (obj, (parsed, out)) ↦
        rw (out, data_line-settled obj (h (trim (drop 5 line)) obj parsed)) refl
  ]
