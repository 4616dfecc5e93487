-- ===== src/ProxyProtocol/Literals.antt =====
-- What the v2 builder writes for IPv4 addresses in text the parser reads back as that text.
use mathlib.Core.List.{append_assoc, append-nil}
use ppq_enclave_proxy.Prelude.{
  ℕ, ◌≡◌, ◌≤◌, ◌<◌, refl, sym, ap, ◌∙◌, Text, is_digit, List, [], ◌∷◌, ◌++◌, some, true, false,
  ◌==◌, length, arith,
}
use ppq_enclave_proxy.LineBuffer.Agree.{all_units}
use ppq_enclave_proxy.Address.{number_text, format_ipv4}
use ppq_enclave_proxy.Address.Numbers.{IsNumber, number_text-IsNumber}
use ppq_enclave_proxy.ProxyProtocol.{
  proxy, tcp4, Header, ok, split_dots, ipv4_bytes, build_proxy_v2, build_proxy_v2_ipv4,
  parse_proxy_header,
}
use ppq_enclave_proxy.ProxyProtocol.RoundTrip.{parse-build}

-- Four numbers in decimal, with dots between them.
abbrev pub quad : ℕ → ℕ → ℕ → ℕ → Text
quad a b c d =
    number_text 10 a
    ++ b'.' ∷ (number_text 10 b ++ b'.' ∷ (number_text 10 c ++ b'.' ∷ number_text 10 d))

number_text-digits : (n : ℕ) → all_units is_digit (number_text 10 n) ≡ true
number_text-digits n = digits_of (number_text 10 n) (number_text-IsNumber n)
  where
    digits_of : (s : Text) → IsNumber s → all_units is_digit s ≡ true
    digits_of [] h = absurd h
    digits_of (c ∷ s) h = h

split_dots-part :
    (cur s t : Text)
    → all_units is_digit s ≡ true
    → split_dots cur (s ++ b'.' ∷ t) ≡ (cur ++ s) ∷ split_dots [] t
unfolding split_dots
split_dots-part cur [] t h = ap (λ (x : Text). x ∷ split_dots [] t) (sym (append-nil cur))
split_dots-part cur (c ∷ s) t h =
    let other : (c == b'.') ≡ false = ground arith in
    rw other (
      split_dots-part (cur ++ c ∷ []) s t (ground arith)
      ∙ ap (λ (x : Text). x ∷ split_dots [] t) (append_assoc cur (c ∷ []) s))

split_dots-last : (cur s : Text) → all_units is_digit s ≡ true → split_dots cur s ≡ (cur ++ s) ∷ []
unfolding split_dots
split_dots-last cur [] h = ap (λ (x : Text). x ∷ []) (sym (append-nil cur))
split_dots-last cur (c ∷ s) h =
    let other : (c == b'.') ≡ false = ground arith in
    rw other (
      split_dots-last (cur ++ c ∷ []) s (ground arith)
      ∙ ap (λ (x : Text). x ∷ []) (append_assoc cur (c ∷ []) s))

split_dots-quad :
    (a b c d : ℕ)
    → split_dots [] (quad a b c d)
      ≡ number_text 10 a ∷ number_text 10 b ∷ number_text 10 c ∷ number_text 10 d ∷ []
split_dots-quad a b c d =
    split_dots-part [] (number_text 10 a) _ (number_text-digits a)
    ∙ ap (λ (ps : List Text). number_text 10 a ∷ ps)
        (split_dots-part [] (number_text 10 b) _ (number_text-digits b)
          ∙ ap (λ (ps : List Text). number_text 10 b ∷ ps)
              (split_dots-part [] (number_text 10 c) _ (number_text-digits c)
                ∙ ap (λ (ps : List Text). number_text 10 c ∷ ps)
                    (split_dots-last [] (number_text 10 d) (number_text-digits d))))

-- The reading of the decimal text of a byte.
abbrev pub ReadsBytes : (Text → ℕ) → Type 0
ReadsBytes to_byte = (n : ℕ) → n < 256 → to_byte (number_text 10 n) ≡ n

ipv4_bytes-quad :
    (to_byte : Text → ℕ) (a b c d : ℕ)
    → ReadsBytes to_byte
    → a < 256
    → b < 256
    → c < 256
    → d < 256
    → ipv4_bytes to_byte (quad a b c d) ≡ some (a ∷ b ∷ c ∷ d ∷ [])
unfolding ipv4_bytes
ipv4_bytes-quad to_byte a b c d r ha hb hc hd =
    rw (split_dots-quad a b c d, r a ha, r b hb, r c hc, r d hd) refl

format_ipv4-quad : (a b c d : ℕ) → format_ipv4 (a ∷ b ∷ c ∷ d ∷ []) ≡ quad a b c d
unfolding format_ipv4
format_ipv4-quad a b c d = refl

-- The header that a connection from an IPv4 address in text is accepted with.
abbrev pub from_ipv4 : Text → ℕ → ℕ → Header
from_ipv4 ip port header_length = record {
  version = 2;
  header_length = header_length;
  command = proxy;
  family = tcp4;
  ip = some ip;
  port = some port;
}

-- Where parts are read in decimal: for two IPv4 addresses written as four numbers below 256 with dots
-- between them, ports below 65536 and extra fields of at most 512 bytes, the builder writes a header,
-- which is accepted at exactly its length, whatever bytes follow, with the source address as it was
-- written and the source port.
pub parse-build_ipv4 :
    (is_ip to_byte : Text → ℕ) (a b c d a2 b2 c2 d2 port dst_port : ℕ) (tlvs rest : List ℕ)
    → ReadsBytes to_byte
    → (a < 256) × (b < 256) × (c < 256) × (d < 256)
    → (a2 < 256) × (b2 < 256) × (c2 < 256) × (d2 < 256)
    → port < 65536
    → dst_port < 65536
    → length tlvs ≤ 512
    → (header : List ℕ) × ((build_proxy_v2_ipv4 to_byte
            (quad a b c d)
            port
            (quad a2 b2 c2 d2)
            dst_port
            tlvs
          ≡ some header)
        × (parse_proxy_header is_ip (header ++ rest)
            ≡ ok (from_ipv4 (quad a b c d) port (length header))))
unfolding build_proxy_v2_ipv4
parse-build_ipv4 is_ip to_byte a b c d a2 b2 c2 d2 port dst_port tlvs rest r (ha, hb, hc, hd)
      (ha2, hb2, hc2, hd2) hp hq ht =
    let src = a ∷ b ∷ c ∷ d ∷ [] in
    let dst = a2 ∷ b2 ∷ c2 ∷ d2 ∷ [] in
    let header = build_proxy_v2 false src dst port dst_port tlvs in
    (
      header,
      (
        rw
            (
              ipv4_bytes-quad to_byte a b c d r ha hb hc hd,
              ipv4_bytes-quad to_byte a2 b2 c2 d2 r ha2 hb2 hc2 hd2,
            )
            refl,
        parse-build is_ip false src dst port dst_port tlvs rest refl refl hp hq ht
            ∙ ap (λ (ip : Text). ok (from_ipv4 ip port (length header))) (format_ipv4-quad a b c d),
      ),
    )
