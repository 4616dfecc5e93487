-- ===== src/ProxyProtocol/Tests.antt =====
-- The PROXY header parser at work.
use ppq_enclave_proxy.Prelude.{
  ℕ, ◌≤◌, ◌<◌, ◌≡◌, refl, Text, codes, List, [], ◌∷◌, ◌++◌, none, some, arith, length, take, leb,
  if◌then◌else◌,
}
use ppq_enclave_proxy.Address.{format_ipv4}
use ppq_enclave_proxy.ProxyProtocol.{
  proxy, local, tcp4, unspec, Header, incomplete, invalid, ok, agrees, fixed_part, v2_block,
  parse_proxy_v2, index_of_crlf, split_spaces, decimal, is_port_text, port_of, v1_addresses,
  v1_fields, v1_line, parse_proxy_v1, parse_proxy_header, build_proxy_v1, build_proxy_v2,
  build_proxy_v2_local, build_proxy_v2_ipv4,
}
use ppq_enclave_proxy.ProxyProtocol.Decided.{parse_proxy_header-append}
use ppq_enclave_proxy.ProxyProtocol.Asking.{incomplete_asks, accepted_exactly}
use ppq_enclave_proxy.Address.{number_text}
use ppq_enclave_proxy.Address.Numbers.{value, value-number_text}
use ppq_enclave_proxy.ProxyProtocol.Literals.{quad, ReadsBytes, from_ipv4, parse-build_ipv4}

parser : Unit {0}
unfolding parse_proxy_header parse_proxy_v1 parse_proxy_v2 v2_block fixed_part agrees v1_line
    v1_fields v1_addresses port_of is_port_text decimal split_spaces index_of_crlf build_proxy_v1
    build_proxy_v2 build_proxy_v2_local format_ipv4
parser = tt

-- Stands for `net.isIP`, on texts that are addresses.
abbrev toy_is_ip : Text → ℕ
toy_is_ip s = if leb (length s) 7 then 4 else 6

abbrev client : List ℕ
client = 10 ∷ 0 ∷ 0 ∷ 9 ∷ []

abbrev line : List ℕ
line = build_proxy_v1 tcp4 (codes "1.2.3.4") (codes "5.6.7.8") 51234 443

abbrev accepted_line : Header
accepted_line = record {
  version = 1;
  header_length = 38;
  command = proxy;
  family = tcp4;
  ip = some (codes "1.2.3.4");
  port = some 51234;
}

line_accepted : parse_proxy_header toy_is_ip (line ++ 22 ∷ 3 ∷ []) ≡ ok accepted_line
unfolding parser
line_accepted = refl

line_so_far : parse_proxy_header toy_is_ip (take 20 line) ≡ incomplete 21
unfolding parser
line_so_far = refl

hello_refused : parse_proxy_header toy_is_ip (22 ∷ 3 ∷ 1 ∷ []) ≡ invalid
unfolding parser
hello_refused = refl

unknown_accepted :
    parse_proxy_header toy_is_ip (build_proxy_v1 unspec [] [] 0 0)
    ≡ ok (record {
      version = 1;
      header_length = 15;
      command = proxy;
      family = unspec;
      ip = none;
      port = none;
    })
unfolding parser
unknown_accepted = refl

local_accepted :
    parse_proxy_header toy_is_ip build_proxy_v2_local
    ≡ ok (record {
      version = 2;
      header_length = 16;
      command = local;
      family = unspec;
      ip = none;
      port = none;
    })
unfolding parser
local_accepted = refl

parse_proxy_header-append_example :
    parse_proxy_header toy_is_ip ((22 ∷ 3 ∷ 1 ∷ []) ++ (0 ∷ []))
    ≡ parse_proxy_header toy_is_ip (22 ∷ 3 ∷ 1 ∷ [])
unfolding parser
parse_proxy_header-append_example =
    parse_proxy_header-append toy_is_ip (22 ∷ 3 ∷ 1 ∷ []) (0 ∷ []) tt

incomplete_asks_example :
    (length (take 20 line) < 21)
    × (21 ≤ 564)
    × ((t : List ℕ) (h : Header)
        → parse_proxy_header toy_is_ip (take 20 line ++ t) ≡ ok h
        → 21 ≤ h.header_length)
incomplete_asks_example = incomplete_asks toy_is_ip (take 20 line) 21 line_so_far

accepted_exactly_example :
    (accepted_line.header_length ≤ length (line ++ 22 ∷ 3 ∷ []))
    × ((t : List ℕ)
        → parse_proxy_header toy_is_ip (take accepted_line.header_length (line ++ 22 ∷ 3 ∷ []) ++ t)
          ≡ ok accepted_line)
accepted_exactly_example =
    accepted_exactly toy_is_ip (line ++ 22 ∷ 3 ∷ []) accepted_line line_accepted

-- The number that decimal text stands for, digit by digit.
abbrev toy_to_byte : Text → ℕ
toy_to_byte s = value 0 s

toy_reads : ReadsBytes toy_to_byte
toy_reads n h = value-number_text n

parse-build_ipv4_example :
    (header : List ℕ) × ((build_proxy_v2_ipv4 toy_to_byte
          (quad 203 0 113 7)
          51234
          (quad 10 0 0 9)
          443
          (4 ∷ [])
        ≡ some header)
      × (parse_proxy_header toy_is_ip (header ++ 22 ∷ [])
          ≡ ok (from_ipv4 (quad 203 0 113 7) 51234 (length header))))
parse-build_ipv4_example =
    parse-build_ipv4 toy_is_ip toy_to_byte 203 0 113 7 10 0 0 9 51234 443 (4 ∷ []) (22 ∷ [])
      toy_reads (omega arith, omega arith, omega arith, omega arith)
      (omega arith, omega arith, omega arith, omega arith) (omega arith) (omega arith) (omega arith)

quad_text : quad 203 0 113 7 ≡ codes "203.0.113.7"
unfolding number_text
quad_text = refl
