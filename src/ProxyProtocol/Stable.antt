-- ===== src/ProxyProtocol/Stable.antt =====
-- A decision about a header is never revised by the bytes that follow.
use ppq_enclave_proxy.Prelude.{
  ℕ, zero, suc, ◌+◌, ◌≤◌, ◌≡◌, refl, sym, ap, ◌∙◌, inl, inr, min, List, [], ◌∷◌, ◌++◌, Option, none,
  some, Bool, true, false, ◌&&◌, arith, length, length-append, get_or-append, take-drop-append, ltb,
  ◌==◌, Bool-cases,
}
use ppq_enclave_proxy.ProxyProtocol.{
  proxy_v2_signature, Command, Family, tcp4, tcp6, unspec, Parsed, incomplete, invalid, ok, byte,
  read_u16, agrees, fixed_part, v2_header, v2_block, parse_proxy_v2, index_of_crlf,
}

abbrev pub IsDecided : Parsed → Type 0
IsDecided (incomplete need) = ⊥
IsDecided invalid = Unit
IsDecided (ok h) = Unit

-- `agrees`, byte by byte.
abbrev pub compatible : List ℕ → List ℕ → Bool
compatible [] p = true
compatible (a ∷ s) [] = true
compatible (a ∷ s) (x ∷ p) = a == x && compatible s p

pub agrees-compatible : (s p : List ℕ) → agrees s p ≡ compatible s p
unfolding agrees
agrees-compatible [] [] = refl
agrees-compatible [] (x ∷ p) = let e : min 0 (length (x ∷ p)) ≡ 0 = omega arith in rw e
agrees-compatible (a ∷ s) [] = let e : min (length (a ∷ s)) 0 ≡ 0 = omega arith in rw e
agrees-compatible (a ∷ s) (x ∷ p) =
    let e : min (length (a ∷ s)) (length (x ∷ p)) ≡ suc (min (length s) (length p)) = omega arith in
    rw e (ap (λ b. a == x && b) (agrees-compatible s p))

compatible-append_false : (s t p : List ℕ) → compatible s p ≡ false → compatible (s ++ t) p ≡ false
compatible-append_false [] t p h = cc
compatible-append_false (a ∷ s) t [] h = cc
compatible-append_false (a ∷ s) t (x ∷ p) h = ground (arith, compatible-append_false s t p)

compatible_nil : (s : List ℕ) → compatible s [] ≡ true
compatible_nil [] = refl
compatible_nil (a ∷ s) = refl

compatible-append_true :
    (s t p : List ℕ) → length p ≤ length s → compatible (s ++ t) p ≡ compatible s p
compatible-append_true [] t [] h = compatible_nil t
compatible-append_true [] t (x ∷ p) h = elim h [ ]
compatible-append_true (a ∷ s) t [] h = refl
compatible-append_true (a ∷ s) t (x ∷ p) h =
    ap (λ b. a == x && b) (compatible-append_true s t p (omega arith))

pub agrees-append_false : (s t p : List ℕ) → agrees s p ≡ false → agrees (s ++ t) p ≡ false
agrees-append_false s t p h =
    agrees-compatible (s ++ t) p ∙ compatible-append_false s t p (sym (agrees-compatible s p) ∙ h)

pub agrees-append_true : (s t p : List ℕ) → length p ≤ length s → agrees (s ++ t) p ≡ agrees s p
agrees-append_true s t p h =
    agrees-compatible (s ++ t) p ∙ compatible-append_true s t p h ∙ sym (agrees-compatible s p)

-- The fixed part bounds the block, and the block holds the addresses.
abbrev Fits : Family → ℕ → Type 0
Fits tcp4 n = 12 ≤ n
Fits tcp6 n = 36 ≤ n
Fits unspec n = Unit

pub fixed_part-Fits :
    (v f l : ℕ) (c : Command) (fam : Family) (n : ℕ)
    → fixed_part v f l ≡ some (c, fam, n)
    → (n ≡ l) × (n ≤ 548) × Fits fam n
unfolding fixed_part
fixed_part-Fits v f l c tcp4 n h = ground arith
fixed_part-Fits v f l c tcp6 n h = ground arith
fixed_part-Fits v f l c unspec n h = ground arith

v2_header-append :
    (c : Command) (fam : Family) (n : ℕ) (s t : List ℕ)
    → Fits fam n
    → 16 + n ≤ length s
    → v2_header c fam n (s ++ t) ≡ v2_header c fam n s
v2_header-append c tcp4 n s t f h = cc (
  take-drop-append 16 4 s t (omega arith),
  get_or-append 24 s t 0 (omega arith),
  get_or-append 25 s t 0 (omega arith),
)
v2_header-append c tcp6 n s t f h = cc (
  take-drop-append 16 16 s t (omega arith),
  get_or-append 48 s t 0 (omega arith),
  get_or-append 49 s t 0 (omega arith),
)
v2_header-append c unspec n s t f h = refl

v2_block-append :
    (s t : List ℕ) (r : Option (Command × Family × ℕ))
    → ((c : Command) (fam : Family) (n : ℕ) → r ≡ some (c, fam, n) → Fits fam n)
    → IsDecided (v2_block s r)
    → v2_block (s ++ t) r ≡ v2_block s r
unfolding v2_block
v2_block-append s t none fits d = refl
v2_block-append s t (some (c, fam, n)) fits d = elim (Bool-cases (ltb (length s) (16 + n))) [
  | inl short ↦ absurd (rw short at d)
  | inr long ↦
      let enough : 16 + n ≤ length s = ground arith in
      let longer : ltb (length (s ++ t)) (16 + n) ≡ false = ground (arith, length-append s t) in
      rw (long, longer) (ap ok (v2_header-append c fam n s t (fits c fam n refl) enough))
]

-- The bytes that the fixed part is read from.
pub fixed_bytes-append :
    (s t : List ℕ)
    → 16 ≤ length s
    → fixed_part (byte (s ++ t) 12) (byte (s ++ t) 13) (read_u16 (s ++ t) 14)
      ≡ fixed_part (byte s 12) (byte s 13) (read_u16 s 14)
fixed_bytes-append s t h = cc (
  get_or-append 12 s t 0 (omega arith),
  get_or-append 13 s t 0 (omega arith),
  get_or-append 14 s t 0 (omega arith),
  get_or-append 15 s t 0 (omega arith),
)

pub parse_proxy_v2-append :
    (s t : List ℕ) → IsDecided (parse_proxy_v2 s) → parse_proxy_v2 (s ++ t) ≡ parse_proxy_v2 s
unfolding parse_proxy_v2
parse_proxy_v2-append s t d = elim (Bool-cases (agrees s proxy_v2_signature)) [
  | inr differs ↦ rw (differs, agrees-append_false s t proxy_v2_signature differs)
  | inl same ↦ elim (Bool-cases (ltb (length s) 16)) [
    | inl short ↦ absurd (rw (same, short) at d)
    | inr long ↦
        let enough : 16 ≤ length s = ground arith in
        let longer : ltb (length (s ++ t)) 16 ≡ false = ground (arith, length-append s t) in
        let same' : agrees (s ++ t) proxy_v2_signature ≡ true =
          agrees-append_true s t proxy_v2_signature (omega arith) ∙ same in
        rw (same, same', long, longer, fixed_bytes-append s t enough)
          (v2_block-append s t _ (λ c fam n e. (fixed_part-Fits _ _ _ c fam n e).2)
            (rw (same, long) at d))
  ]
]

-- The first CRLF does not move, and it may only come to straddle the old end.
pub index_of_crlf-append :
    (s t : List ℕ) (i : ℕ) → index_of_crlf s ≡ some i → index_of_crlf (s ++ t) ≡ some i
unfolding index_of_crlf
index_of_crlf-append [] t i h = cc
index_of_crlf-append (a ∷ []) t i h = cc
index_of_crlf-append (a ∷ b ∷ s) t zero h = ground arith
index_of_crlf-append (a ∷ b ∷ s) t (suc i) h = ground (arith, index_of_crlf-append (b ∷ s) t i)

pub index_of_crlf-lt : (s : List ℕ) (i : ℕ) → index_of_crlf s ≡ some i → i + 2 ≤ length s
unfolding index_of_crlf
index_of_crlf-lt [] i h = cc
index_of_crlf-lt (a ∷ []) i h = cc
index_of_crlf-lt (a ∷ b ∷ s) zero h = omega arith
index_of_crlf-lt (a ∷ b ∷ s) (suc i) h = ground (arith, index_of_crlf-lt (b ∷ s) i)

pub index_of_crlf-ge :
    (s t : List ℕ) (i : ℕ)
    → index_of_crlf s ≡ none
    → index_of_crlf (s ++ t) ≡ some i
    → length s ≤ i + 1
unfolding index_of_crlf
index_of_crlf-ge [] t i h k = omega arith
index_of_crlf-ge (a ∷ []) t i h k = omega arith
index_of_crlf-ge (a ∷ b ∷ s) t zero h k = ground arith
index_of_crlf-ge (a ∷ b ∷ s) t (suc i) h k = ground (arith, index_of_crlf-ge (b ∷ s) t i)
