-- ===== src/ProxyProtocol/Decided.antt =====
-- The whole parser: what is decided stays decided.
use ppq_enclave_proxy.Prelude.{
  ℕ, ◌+◌, ◌≤◌, ◌<◌, ◌≡◌, refl, sym, ◌∙◌, inl, inr, Text, List, [], ◌∷◌, ◌++◌, Option, none, some,
  true, false, arith, length, length-append, take-append_le, leb, Bool-cases, Option-cases,
}
use ppq_enclave_proxy.ProxyProtocol.{
  proxy_v1_prefix, invalid, agrees, index_of_crlf, v1_line, parse_proxy_v1, parse_proxy_header,
}
use ppq_enclave_proxy.ProxyProtocol.Stable.{
  IsDecided, compatible, agrees-compatible, agrees-append_false, agrees-append_true,
  parse_proxy_v2-append, index_of_crlf-append, index_of_crlf-lt, index_of_crlf-ge,
}

-- The prefix of a v1 line holds no CRLF.
short_line :
    (s : List ℕ) → length s ≤ 5 → compatible s proxy_v1_prefix ≡ true → index_of_crlf s ≡ none
unfolding index_of_crlf
short_line [] h k = refl
short_line (a ∷ []) h k = refl
short_line (a ∷ b ∷ []) h k = ground arith
short_line (a ∷ b ∷ c ∷ []) h k = ground arith
short_line (a ∷ b ∷ c ∷ d ∷ []) h k = ground arith
short_line (a ∷ b ∷ c ∷ d ∷ e ∷ []) h k = ground arith
short_line (a ∷ b ∷ c ∷ d ∷ e ∷ f ∷ s) h k = absurd (omega arith)

module _ (is_ip : Text → ℕ) where
  -- Past the longest line there is no valid header, wherever the CRLF comes.
  v1_line_late :
      (s : List ℕ) (r : Option ℕ)
      → 107 ≤ length s
      → ((i : ℕ) → r ≡ some i → 107 ≤ i + 1)
      → v1_line is_ip s r ≡ invalid
  unfolding v1_line
  v1_line_late s none h late = ground arith
  v1_line_late s (some i) h late = ground (arith, late i refl)

  v1_line_early : (s : List ℕ) → length s < 107 → ¬ IsDecided (v1_line is_ip s none)
  unfolding v1_line
  v1_line_early s h d = let early : leb 107 (length s) ≡ false = ground arith in rw early at d

  v1_line-append :
      (s t : List ℕ)
      → IsDecided (v1_line is_ip s (index_of_crlf s))
      → v1_line is_ip (s ++ t) (index_of_crlf (s ++ t)) ≡ v1_line is_ip s (index_of_crlf s)
  unfolding v1_line
  v1_line-append s t d = elim (Option-cases (index_of_crlf s)) [
    | inl missing ↦ elim (Bool-cases (leb 107 (length s))) [
      | inl late ↦
          v1_line_late (s ++ t) (index_of_crlf (s ++ t)) (ground (arith, length-append s t))
            (λ i e. ground (arith, index_of_crlf-ge s t i missing e))
          ∙ sym (v1_line_late s (index_of_crlf s) (ground arith) (λ i e. ground arith))
      | inr early ↦ absurd (rw (missing, v1_line, early) at d)
    ]
    | inr (i, found) ↦ rw (
      found,
      index_of_crlf-append s t i found,
      v1_line,
      take-append_le i s t (omega (arith, index_of_crlf-lt s i found)),
    )
  ]

  parse_proxy_v1-append :
      (s t : List ℕ)
      → IsDecided (parse_proxy_v1 is_ip s)
      → parse_proxy_v1 is_ip (s ++ t) ≡ parse_proxy_v1 is_ip s
  unfolding parse_proxy_v1
  parse_proxy_v1-append s t d = elim (Bool-cases (agrees s proxy_v1_prefix)) [
    | inr differs ↦ rw (differs, agrees-append_false s t proxy_v1_prefix differs)
    | inl same ↦ elim (Bool-cases (leb 6 (length s))) [
      | inl long ↦
          rw (same, agrees-append_true s t proxy_v1_prefix (ground arith) ∙ same)
            (v1_line-append s t (rw same at d))
      | inr short ↦
          let none_yet : index_of_crlf s ≡ none =
            short_line s (ground arith) (sym (agrees-compatible s proxy_v1_prefix) ∙ same) in
          absurd (v1_line_early s (ground arith) (rw (same, none_yet) at d))
    ]
  ]

  -- Once the parser has accepted or refused, no byte that follows changes its answer.
  pub parse_proxy_header-append :
      (s t : List ℕ)
      → IsDecided (parse_proxy_header is_ip s)
      → parse_proxy_header is_ip (s ++ t) ≡ parse_proxy_header is_ip s
  unfolding parse_proxy_header
  parse_proxy_header-append [] t d = absurd d
  parse_proxy_header-append (b ∷ s) t d =
      ground (arith, parse_proxy_v2-append (b ∷ s) t, parse_proxy_v1-append (b ∷ s) t)
