-- ===== src/ProxyProtocol/RoundTrip.antt =====
-- What the v2 builder writes the parser reads back, whatever comes behind it.
use mathlib.Core.List.{append_assoc}
use ppq_enclave_proxy.Prelude.{
  ℕ, zero, suc, ◌+◌, ◌*◌, ◌/◌, ◌%◌, ◌≤◌, ◌<◌, ◌≡◌, ap, ◌∙◌, subst, Text, List, [], ◌∷◌, ◌++◌, some,
  Bool, true, false, arith, length, length-append, take, get_or, take-append, ltb, if◌then◌else◌,
}
use ppq_enclave_proxy.Address.{format_ipv4, format_ipv6}
use ppq_enclave_proxy.ProxyProtocol.{
  proxy_v2_signature, proxy, Family, tcp4, tcp6, Header, ok, agrees, fixed_part, v2_header,
  v2_block, parse_proxy_v2, parse_proxy_header, write_u16, build_proxy_v2,
}
use ppq_enclave_proxy.ProxyProtocol.Stable.{agrees-append_true}

get_or_skip :
    (n i : ℕ) (xs ys : List ℕ) → length xs ≡ n → get_or (xs ++ ys) (n + i) 0 ≡ get_or ys i 0
get_or_skip n i [] ys h = let e : n + i ≡ i = omega arith in rw e
get_or_skip zero i (x ∷ xs) ys h = absurd (omega arith)
get_or_skip (suc n) i (x ∷ xs) ys h =
    let e : suc n + i ≡ suc (n + i) = omega arith in rw e (get_or_skip n i xs ys (omega arith))

take_of_length : (n : ℕ) (xs ys : List ℕ) → length xs ≡ n → take n (xs ++ ys) ≡ xs
take_of_length n xs ys h = subst (λ k. take k (xs ++ ys) ≡ xs) h (take-append xs ys)

-- A buffer that starts with the signature, the two fixed bytes and the length of the block.
abbrev framed : ℕ → ℕ → ℕ → List ℕ → List ℕ
framed ver_cmd family len body =
    proxy_v2_signature ++ (ver_cmd ∷ family ∷ len / 256 ∷ len % 256 ∷ body)

framed-agrees :
    (v f len : ℕ) (body : List ℕ) → agrees (framed v f len body) proxy_v2_signature ≡ true
unfolding agrees
framed-agrees v f len body =
    agrees-append_true proxy_v2_signature (v ∷ f ∷ len / 256 ∷ len % 256 ∷ body) proxy_v2_signature
      (omega arith)

parse-framed :
    (v f len : ℕ) (body : List ℕ)
    → parse_proxy_v2 (framed v f len body) ≡ v2_block (framed v f len body) (fixed_part v f len)
unfolding parse_proxy_v2
parse-framed v f len body =
    let long : ltb (length (framed v f len body)) 16 ≡ false = ground arith in
    let word : len / 256 * 256 + len % 256 ≡ len = omega arith in
    rw (framed-agrees v f len body, long, word)

-- What is read where the addresses of `n` bytes stand before the ports.
module _ (n : ℕ) (src dst : List ℕ) (port : ℕ) (rest : List ℕ) (hs : length src ≡ n)
    (hd : length dst ≡ n) where
  abbrev block : List ℕ
  block = src ++ (dst ++ (write_u16 port ++ rest))

  high-block : get_or block (n + (n + 0)) 0 ≡ port / 256
  high-block = get_or_skip n (n + 0) src _ hs ∙ get_or_skip n 0 dst _ hd

  low-block : get_or block (n + (n + 1)) 0 ≡ port % 256
  low-block = get_or_skip n (n + 1) src _ hs ∙ get_or_skip n 1 dst _ hd

abbrev pub address_length : Bool → ℕ
address_length v6 = if v6 then 16 else 4

abbrev pub address_text : Bool → List ℕ → Text
address_text v6 a = if v6 then format_ipv6 a else format_ipv4 a

abbrev pub family_of : Bool → Family
family_of v6 = if v6 then tcp6 else tcp4

module _ (src dst : List ℕ) (port : ℕ) (rest : List ℕ) where
  header_of_block :
      (v6 : Bool) (f len : ℕ)
      → length src ≡ address_length v6
      → length dst ≡ address_length v6
      → v2_header proxy
          (family_of v6)
          len
          (framed 0x21 f len (src ++ (dst ++ (write_u16 port ++ rest))))
        ≡ record {
          version = 2;
          header_length = 16 + len;
          command = proxy;
          family = family_of v6;
          ip = some (address_text v6 src);
          port = some port;
        }
  header_of_block true f len hs hd =
      let word : port / 256 * 256 + port % 256 ≡ port = omega arith in
      rw (
        take_of_length 16 src (dst ++ (write_u16 port ++ rest)) hs,
        high-block 16 src dst port rest hs hd,
        low-block 16 src dst port rest hs hd,
        word,
      )
  header_of_block false f len hs hd =
      let word : port / 256 * 256 + port % 256 ≡ port = omega arith in
      rw (
        take_of_length 4 src (dst ++ (write_u16 port ++ rest)) hs,
        high-block 4 src dst port rest hs hd,
        low-block 4 src dst port rest hs hd,
        word,
      )

-- The header that a relayed connection is accepted with.
abbrev pub relayed : Bool → List ℕ → ℕ → ℕ → Header
relayed v6 src port header_length = record {
  version = 2;
  header_length = header_length;
  command = proxy;
  family = family_of v6;
  ip = some (address_text v6 src);
  port = some port;
}

abbrev family_byte : Bool → ℕ
family_byte v6 = if v6 then 0x21 else 0x11

fixed_part-relayed :
    (v6 : Bool) (len : ℕ)
    → 2 * address_length v6 + 4 ≤ len
    → len ≤ 2 * address_length v6 + 516
    → fixed_part 0x21 (family_byte v6) len ≡ some (proxy, family_of v6, len)
unfolding fixed_part
fixed_part-relayed true len lo hi = ground arith
fixed_part-relayed false len lo hi = ground arith

module _ (v6 : Bool) (src dst : List ℕ) (port : ℕ) (z : List ℕ) where
  parse-block :
      (len : ℕ)
      → length src ≡ address_length v6
      → length dst ≡ address_length v6
      → 2 * address_length v6 + 4 ≤ len
      → len ≤ 2 * address_length v6 + 516
      → len ≤ length (src ++ (dst ++ (write_u16 port ++ z)))
      → parse_proxy_v2 (framed 0x21 (family_byte v6) len (src ++ (dst ++ (write_u16 port ++ z))))
        ≡ ok (relayed v6 src port (16 + len))
  unfolding v2_block
  parse-block len hs hd lo hi within =
      let body = src ++ (dst ++ (write_u16 port ++ z)) in
      let long : ltb (length (framed 0x21 (family_byte v6) len body)) (16 + len) ≡ false =
        ground arith in
      parse-framed 0x21 (family_byte v6) len body
      ∙ rw (fixed_part-relayed v6 len lo hi, v2_block, long)
          (ap ok (header_of_block src dst port z v6 (family_byte v6) len hs hd))

-- A header that the builder writes, with addresses of the right length and extra fields of at most
-- 512 bytes, is accepted at exactly its length, whatever bytes follow, with the source address and
-- the source port that went in.
pub parse-build :
    (is_ip : Text → ℕ) (v6 : Bool) (src dst : List ℕ) (port dst_port : ℕ) (tlvs rest : List ℕ)
    → length src ≡ address_length v6
    → length dst ≡ address_length v6
    → port < 65536
    → dst_port < 65536
    → length tlvs ≤ 512
    → parse_proxy_header is_ip (build_proxy_v2 v6 src dst port dst_port tlvs ++ rest)
      ≡ ok (relayed v6 src port (length (build_proxy_v2 v6 src dst port dst_port tlvs)))
unfolding parse_proxy_header build_proxy_v2
parse-build is_ip v6 src dst port dst_port tlvs rest hs hd hp hq ht =
    let tail = write_u16 dst_port ++ tlvs in
    let body = src ++ (dst ++ (write_u16 port ++ tail)) in
    let size : length body ≡ length src + (length dst + (length tlvs + 4)) = omega (
      arith,
      length-append src (dst ++ (write_u16 port ++ tail)),
      length-append dst (write_u16 port ++ tail),
    ) in
    let moved : body ++ rest ≡ src ++ (dst ++ (write_u16 port ++ (tail ++ rest))) =
      append_assoc src _ rest ∙ ap (λ t. src ++ t) (append_assoc dst _ rest) in
    let total : 16 + length body ≡ length (build_proxy_v2 v6 src dst port dst_port tlvs) =
      omega arith in
    let within : length body ≤ length (src ++ (dst ++ (write_u16 port ++ (tail ++ rest)))) =
      subst (λ t. length body ≤ length t) moved (omega (arith, length-append body rest)) in
    rw moved (
      parse-block v6 src dst port (tail ++ rest) (length body) hs hd (omega arith) (omega arith)
        within
      ∙ ap (λ n. ok (relayed v6 src port n)) total)
