-- ===== src/ProxyProtocol/Reading.antt =====
-- How much of the connection the parser takes: it asks for the bytes of the header and no more.
use ppq_enclave_proxy.Prelude.{
  ◌⊎◌, if_both, ℕ, ◌+◌, ◌≤◌, ◌<◌, ◌≡◌, refl, inl, inr, Text, List, [], ◌∷◌, Option, none, some, not,
  ◌&&◌, arith, length, take, every, eq_text, codes, leb, ltb, ◌==◌, Bool-cases, Option-cases,
}
use ppq_enclave_proxy.ProxyProtocol.{
  proxy_v1_prefix, proxy_v2_signature, Command, Family, tcp4, tcp6, Parsed, incomplete, invalid, ok,
  agrees, byte, read_u16, fixed_part, v2_block, parse_proxy_v2, index_of_crlf, split_spaces,
  port_of, v1_ports, v1_addresses, v1_fields, v1_line, parse_proxy_v1, parse_proxy_header,
}
use ppq_enclave_proxy.ProxyProtocol.Stable.{index_of_crlf-lt, fixed_part-Fits}

-- The answer to `n` bytes: an accepted header lies within them, and a wait is for more than them,
-- and for at most 564.
abbrev pub IsWithin : ℕ → Parsed → Type 0
IsWithin n (incomplete need) = (n < need) × (need ≤ 564)
IsWithin n invalid = Unit
IsWithin n (ok h) = h.header_length ≤ n

-- An accepted header has at least so many bytes.
abbrev pub Takes : ℕ → Parsed → Type 0
Takes n (incomplete need) = Unit
Takes n invalid = Unit
Takes n (ok h) = n ≤ h.header_length

v2_block-IsWithin :
    (s : List ℕ) (v f l : ℕ) (r : Option (Command × Family × ℕ))
    → fixed_part v f l ≡ r
    → IsWithin (length s) (v2_block s r)
unfolding v2_block
v2_block-IsWithin s v f l none e = tt
v2_block-IsWithin s v f l (some (c, fam, n)) e =
    let bound : n ≤ 548 = (fixed_part-Fits v f l c fam n e).1 in ground arith

parse_proxy_v2-IsWithin : (s : List ℕ) → IsWithin (length s) (parse_proxy_v2 s)
unfolding parse_proxy_v2
parse_proxy_v2-IsWithin s =
    let block = v2_block-IsWithin s (byte s 12) (byte s 13) (read_u16 s 14) _ refl in
    elim (Bool-cases (agrees s proxy_v2_signature)) [
      | inr differs ↦ rw differs tt
      | inl same ↦ elim (Bool-cases (ltb (length s) 16)) [
        | inl short ↦ rw (same, short) (ground arith, omega arith)
        | inr long ↦ rw (same, long) block
      ]
    ]

module _ (is_ip : Text → ℕ) where
  -- A line is accepted with the length that was passed down, or refused.
  abbrev pub Ends : ℕ → Parsed → Type 0
  Ends n (incomplete need) = ⊥
  Ends n invalid = Unit
  Ends n (ok h) = h.header_length ≡ n

  v1_ports-Ends : (n : ℕ) (f : Family) (src : Text) (p q : Option ℕ) → Ends n (v1_ports n f src p q)
  v1_ports-Ends n f src none q = tt
  v1_ports-Ends n f src (some p) none = tt
  v1_ports-Ends n f src (some p) (some q) = refl

  v1_addresses-Ends :
      (n : ℕ) (f : Family) (v : ℕ) (fields : List Text) → Ends n (v1_addresses is_ip n f v fields)
  unfolding v1_addresses
  v1_addresses-Ends n f v [] = tt
  v1_addresses-Ends n f v (a ∷ []) = tt
  v1_addresses-Ends n f v (a ∷ b ∷ []) = tt
  v1_addresses-Ends n f v (a ∷ b ∷ c ∷ []) = tt
  v1_addresses-Ends n f v (a ∷ b ∷ c ∷ d ∷ []) = elim (Bool-cases (is_ip a == v && is_ip b == v)) [
    | inl good ↦ rw good (v1_ports-Ends n f a (port_of c) (port_of d))
    | inr bad ↦ rw bad tt
  ]
  v1_addresses-Ends n f v (a ∷ b ∷ c ∷ d ∷ e ∷ rest) = tt

  v1_fields-Ends : (n : ℕ) (fields : List Text) → Ends n (v1_fields is_ip n fields)
  unfolding v1_fields
  v1_fields-Ends n [] = tt
  v1_fields-Ends n (a ∷ []) = tt
  v1_fields-Ends n (a ∷ p ∷ rest) =
      let four = v1_addresses-Ends n tcp4 4 rest in
      let six = v1_addresses-Ends n tcp6 6 rest in
      if_both (Ends n) (not (eq_text a (codes "PROXY"))) _ _ tt (
        if_both (Ends n) (eq_text p (codes "UNKNOWN")) _ _ refl (
          if_both (Ends n) (eq_text p (codes "TCP4")) _ _ four
            (if_both (Ends n) (eq_text p (codes "TCP6")) _ _ six tt)))

  pub v1_line-Ends : (s : List ℕ) (i : ℕ) → Ends (i + 2) (v1_line is_ip s (some i))
  unfolding v1_line
  v1_line-Ends s i = if_both (Ends (i + 2)) (ltb 107 (i + 2)) _ _ tt (
      if_both (Ends (i + 2)) (not (every (λ c. leb 32 c && leb c 126) (take i s))) _ _ tt
        (v1_fields-Ends (i + 2) (split_spaces [] (take i s))))

  pub Ends-IsWithin : (n k : ℕ) (r : Parsed) → Ends n r → n ≤ k → IsWithin k r
  Ends-IsWithin n k (incomplete need) e h = absurd e
  Ends-IsWithin n k invalid e h = tt
  Ends-IsWithin n k (ok header) e h = omega arith

  pub Ends-Takes : (n k : ℕ) (r : Parsed) → Ends n r → k ≤ n → Takes k r
  Ends-Takes n k (incomplete need) e h = absurd e
  Ends-Takes n k invalid e h = tt
  Ends-Takes n k (ok header) e h = omega arith

  waits : (s : List ℕ) → IsWithin (length s) (v1_line is_ip s none)
  unfolding v1_line
  waits s = ground arith

  pub waits_for :
      (s : List ℕ) (need : ℕ) → v1_line is_ip s none ≡ incomplete need → need ≡ length s + 1
  unfolding v1_line
  waits_for s need e = ground arith

  pub waits_on : (s : List ℕ) (n : ℕ) → Takes n (v1_line is_ip s none)
  unfolding v1_line
  waits_on s n = if_both (Takes n) (leb 107 (length s)) invalid (incomplete (length s + 1)) tt tt

  parse_proxy_v1-IsWithin : (s : List ℕ) → IsWithin (length s) (parse_proxy_v1 is_ip s)
  unfolding parse_proxy_v1
  parse_proxy_v1-IsWithin s =
      if_both (IsWithin (length s)) (not (agrees s proxy_v1_prefix)) invalid _ tt
        (line (Option-cases _))
    where
      line :
          (index_of_crlf s ≡ none) ⊎ ((i : ℕ) × (index_of_crlf s ≡ some i))
          → IsWithin (length s) (v1_line is_ip s (index_of_crlf s))
      line (inl missing) = rw missing (waits s)
      line (inr (i, found)) =
          rw found
            (Ends-IsWithin (i + 2) (length s) _ (v1_line-Ends s i) (index_of_crlf-lt s i found))

  pub parse_proxy_header-IsWithin : (s : List ℕ) → IsWithin (length s) (parse_proxy_header is_ip s)
  unfolding parse_proxy_header
  parse_proxy_header-IsWithin [] = (omega arith, omega arith)
  parse_proxy_header-IsWithin (b ∷ s) =
      let within = IsWithin (length (b ∷ s)) in
      if_both within (b == 13) _ _ (parse_proxy_v2-IsWithin (b ∷ s))
        (if_both within (b == b'P') _ _ (parse_proxy_v1-IsWithin (b ∷ s)) tt)
