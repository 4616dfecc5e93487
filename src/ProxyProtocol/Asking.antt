-- ===== src/ProxyProtocol/Asking.antt =====
-- The parser asks for the bytes of the header and no more.
use ppq_enclave_proxy.Prelude.{
  if_both, ℕ, ◌+◌, ◌≤◌, ◌<◌, ◌≡◌, refl, sym, ap, ◌∙◌, subst, inl, inr, Text, List, [], ◌∷◌, ◌++◌,
  Option, none, some, not, arith, length, take, drop, take-append-drop, length-take, ltb, ◌==◌,
  Bool-cases, Option-cases,
}
use ppq_enclave_proxy.ProxyProtocol.{
  proxy_v1_prefix, proxy_v2_signature, Command, Family, Header, Parsed, incomplete, invalid, ok,
  agrees, byte, read_u16, fixed_part, v2_block, parse_proxy_v2, index_of_crlf, v1_line,
  parse_proxy_v1, parse_proxy_header,
}
use ppq_enclave_proxy.ProxyProtocol.Stable.{index_of_crlf-ge, fixed_bytes-append}
use ppq_enclave_proxy.ProxyProtocol.Decided.{parse_proxy_header-append}
use ppq_enclave_proxy.ProxyProtocol.Reading.{
  IsWithin, Takes, Ends, v1_line-Ends, Ends-Takes, waits_for, waits_on, parse_proxy_header-IsWithin,
}

module _ (is_ip : Text → ℕ) where
  -- What is accepted after a wait has all the bytes that the wait was for.
  v2_block-Takes :
      (s t : List ℕ) (r : Option (Command × Family × ℕ)) (need : ℕ)
      → v2_block s r ≡ incomplete need
      → Takes need (v2_block (s ++ t) r)
  unfolding v2_block
  v2_block-Takes s t none need e = tt
  v2_block-Takes s t (some (c, fam, n)) need e =
      if_both (Takes need) (ltb (length (s ++ t)) (16 + n)) _ _ tt (ground arith)

  v2_block-Takes_fixed : (s : List ℕ) (r : Option (Command × Family × ℕ)) → Takes 16 (v2_block s r)
  unfolding v2_block
  v2_block-Takes_fixed s none = tt
  v2_block-Takes_fixed s (some (c, fam, n)) =
      if_both (Takes 16) (ltb (length s) (16 + n)) _ _ tt (omega arith)

  parse_proxy_v2-Takes_fixed : (s : List ℕ) → Takes 16 (parse_proxy_v2 s)
  unfolding parse_proxy_v2
  parse_proxy_v2-Takes_fixed s =
      if_both (Takes 16) (not (agrees s proxy_v2_signature)) invalid _ tt
        (if_both (Takes 16) (ltb (length s) 16) (incomplete 16) _ tt (v2_block-Takes_fixed s _))

  parse_proxy_v2-Takes_block :
      (s t : List ℕ) (need : ℕ)
      → 16 ≤ length s
      → v2_block s (fixed_part (byte s 12) (byte s 13) (read_u16 s 14)) ≡ incomplete need
      → Takes need (parse_proxy_v2 (s ++ t))
  unfolding parse_proxy_v2
  parse_proxy_v2-Takes_block s t need h e =
      if_both (Takes need) (not (agrees (s ++ t) proxy_v2_signature)) invalid _ tt (
        if_both (Takes need) (ltb (length (s ++ t)) 16) (incomplete 16) _ tt
          (rw (fixed_bytes-append s t h) (v2_block-Takes s t _ need e)))

  parse_proxy_v2-Takes :
      (s t : List ℕ) (need : ℕ)
      → parse_proxy_v2 s ≡ incomplete need
      → Takes need (parse_proxy_v2 (s ++ t))
  unfolding parse_proxy_v2
  parse_proxy_v2-Takes s t need e = elim (Bool-cases (agrees s proxy_v2_signature)) [
    | inr differs ↦ absurd (ground arith)
    | inl same ↦ elim (Bool-cases (ltb (length s) 16)) [
      | inl short ↦
          let fixed : 16 ≡ need = ground arith in
          subst (λ n. Takes n (parse_proxy_v2 (s ++ t))) fixed (parse_proxy_v2-Takes_fixed (s ++ t))
      | inr long ↦ parse_proxy_v2-Takes_block s t need (ground arith) (rw (same, long) at e)
    ]
  ]

  v1_line-Takes :
      (s t : List ℕ) (need : ℕ)
      → v1_line is_ip s (index_of_crlf s) ≡ incomplete need
      → Takes need (v1_line is_ip (s ++ t) (index_of_crlf (s ++ t)))
  v1_line-Takes s t need e = elim (Option-cases (index_of_crlf s)) [
    | inr (i, found) ↦ absurd (subst (Ends is_ip (i + 2)) (rw found at e) (v1_line-Ends is_ip s i))
    | inl missing ↦
        let asked : need ≡ length s + 1 = waits_for is_ip s need (rw missing at e) in
        elim (Option-cases (index_of_crlf (s ++ t))) [
          | inl still ↦ rw still (waits_on is_ip (s ++ t) need)
          | inr (j, found) ↦ rw found (
              Ends-Takes is_ip (j + 2) need _ (v1_line-Ends is_ip (s ++ t) j)
                (omega (arith, index_of_crlf-ge s t j missing found)))
        ]
  ]

  parse_proxy_v1-Takes :
      (s t : List ℕ) (need : ℕ)
      → parse_proxy_v1 is_ip s ≡ incomplete need
      → Takes need (parse_proxy_v1 is_ip (s ++ t))
  unfolding parse_proxy_v1
  parse_proxy_v1-Takes s t need e = elim (Bool-cases (agrees s proxy_v1_prefix)) [
    | inr differs ↦ absurd (ground arith)
    | inl same ↦
        if_both (Takes need) (not (agrees (s ++ t) proxy_v1_prefix)) invalid _ tt
          (v1_line-Takes s t need (rw same at e))
  ]

  Takes-mono : (n k : ℕ) (r : Parsed) → Takes n r → k ≤ n → Takes k r
  Takes-mono n k (incomplete need) t h = tt
  Takes-mono n k invalid t h = tt
  Takes-mono n k (ok header) t h = omega arith

  parse_proxy_v1-Takes_one : (s : List ℕ) → Takes 1 (parse_proxy_v1 is_ip s)
  unfolding parse_proxy_v1
  parse_proxy_v1-Takes_one s =
      if_both (Takes 1) (not (agrees s proxy_v1_prefix)) invalid _ tt (line (index_of_crlf s))
    where
      line : (r : Option ℕ) → Takes 1 (v1_line is_ip s r)
      line none = waits_on is_ip s 1
      line (some i) = Ends-Takes is_ip (i + 2) 1 _ (v1_line-Ends is_ip s i) (omega arith)

  parse_proxy_header-Takes_one : (s : List ℕ) → Takes 1 (parse_proxy_header is_ip s)
  unfolding parse_proxy_header
  parse_proxy_header-Takes_one [] = tt
  parse_proxy_header-Takes_one (b ∷ s) =
      if_both (Takes 1) (b == 13) _ _
        (Takes-mono 16 1 _ (parse_proxy_v2-Takes_fixed (b ∷ s)) (omega arith))
        (if_both (Takes 1) (b == b'P') _ _ (parse_proxy_v1-Takes_one (b ∷ s)) tt)

  parse_proxy_header-Takes :
      (s t : List ℕ) (need : ℕ)
      → parse_proxy_header is_ip s ≡ incomplete need
      → Takes need (parse_proxy_header is_ip (s ++ t))
  unfolding parse_proxy_header
  parse_proxy_header-Takes [] t need e =
      let one : 1 ≡ need = ground arith in
      subst (λ n. Takes n (parse_proxy_header is_ip t)) one (parse_proxy_header-Takes_one t)
  parse_proxy_header-Takes (b ∷ s) t need e = elim (Bool-cases (b == 13)) [
    | inl cr ↦ rw cr (parse_proxy_v2-Takes (b ∷ s) t need (rw cr at e))
    | inr other ↦ elim (Bool-cases (b == b'P')) [
      | inl p ↦ rw (other, p) (parse_proxy_v1-Takes (b ∷ s) t need (rw (other, p) at e))
      | inr neither ↦ absurd (ground arith)
    ]
  ]

  -- The reader is told to wait only for more bytes than it has, at most 564 in all, and the bytes
  -- that it waits for belong to the header: if the connection goes on with an accepted header, that
  -- header is at least as long as what was asked for.
  pub incomplete_asks :
      (s : List ℕ) (need : ℕ)
      → parse_proxy_header is_ip s ≡ incomplete need
      → (length s < need)
        × (need ≤ 564)
        × ((t : List ℕ) (h : Header)
            → parse_proxy_header is_ip (s ++ t) ≡ ok h
            → need ≤ h.header_length)
  incomplete_asks s need e =
      let within = subst (IsWithin (length s)) e (parse_proxy_header-IsWithin is_ip s) in
      (
        within.0,
        within.1,
        (λ t h accepted. subst (Takes need) accepted (parse_proxy_header-Takes s t need e)),
      )

  accepted_alone :
      (s t : List ℕ) (h : Header) (r : Parsed)
      → length s ≡ h.header_length
      → parse_proxy_header is_ip (s ++ t) ≡ ok h
      → parse_proxy_header is_ip s ≡ r
      → parse_proxy_header is_ip s ≡ ok h
  accepted_alone s t h (incomplete need) len e f =
      let asks = incomplete_asks s need f in absurd (omega (arith, asks.0, asks.2 t h e))
  accepted_alone s t h invalid len e f = sym (parse_proxy_header-append is_ip s t (rw f tt)) ∙ e
  accepted_alone s t h (ok h') len e f = sym (parse_proxy_header-append is_ip s t (rw f tt)) ∙ e

  -- An accepted header lies within the bytes read, and is decided by its own bytes: the same bytes
  -- alone give the same answer, and so do they with any other bytes behind them.
  pub accepted_exactly :
      (s : List ℕ) (h : Header)
      → parse_proxy_header is_ip s ≡ ok h
      → (h.header_length ≤ length s)
        × ((t : List ℕ) → parse_proxy_header is_ip (take h.header_length s ++ t) ≡ ok h)
  accepted_exactly s h e =
      let within : h.header_length ≤ length s =
        subst (IsWithin (length s)) e (parse_proxy_header-IsWithin is_ip s) in
      let own = take h.header_length s in
      let whole : parse_proxy_header is_ip (own ++ drop h.header_length s) ≡ ok h =
        ap (parse_proxy_header is_ip) (take-append-drop h.header_length s) ∙ e in
      let alone =
        accepted_alone own (drop h.header_length s) h _ (length-take h.header_length s within) whole
          refl in
      (within, λ t. parse_proxy_header-append is_ip own t (rw alone tt) ∙ alone)
