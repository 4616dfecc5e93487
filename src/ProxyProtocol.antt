-- ===== src/ProxyProtocol.antt =====
-- enclave/src/proxyProtocol.mjs: the PROXY protocol header before the TLS handshake. A buffer is
-- its list of bytes. `net.isIP` is the parameter `is_ip`. The builders take addresses as bytes (v2)
-- or text (v1), and ports below 65536.
pub mod Stable
pub mod Decided
pub mod Reading
pub mod Asking
pub mod RoundTrip
pub mod Literals
pub mod Tests
use ppq_enclave_proxy.Prelude.{
  ℕ, zero, suc, ◌+◌, ◌-◌, ◌*◌, ◌/◌, ◌%◌, min, Text, codes, eq_text, is_digit, every, List, [], ◌∷◌,
  ◌++◌, Option, none, some, Bool, true, false, not, ◌&&◌, ◌||◌, length, take, drop, get_or, leb,
  ltb, ◌==◌, if◌then◌else◌, map,
}
use ppq_enclave_proxy.Address.{format_ipv4, format_ipv6, number_text}

abbrev pub proxy_v2_signature : List ℕ
proxy_v2_signature = 13 ∷ 10 ∷ 13 ∷ 10 ∷ 0 ∷ 13 ∷ 10 ∷ b'Q' ∷ b'U' ∷ b'I' ∷ b'T' ∷ 10 ∷ []

abbrev pub proxy_v1_prefix : List ℕ
proxy_v1_prefix = codes "PROXY "

abbrev pub proxy_v1_max_line : ℕ
proxy_v1_max_line = 107

abbrev pub header_fixed : ℕ
header_fixed = 16

abbrev pub addr_len_tcp4 : ℕ
addr_len_tcp4 = 12

abbrev pub addr_len_tcp6 : ℕ
addr_len_tcp6 = 36

abbrev pub proxy_v2_max_block : ℕ
proxy_v2_max_block = addr_len_tcp6 + 512

pub data Command : Type 0 where
  proxy local : Command

pub data Family : Type 0 where
  tcp4 tcp6 unspec : Family

pub record Header : Type 0 where
  pub version : ℕ
  pub header_length : ℕ
  pub command : Command
  pub family : Family
  pub ip : Option Text
  pub port : Option ℕ

pub data Parsed : Type 0 where
  incomplete : (need : ℕ) → Parsed
  invalid : Parsed
  ok : Header → Parsed

abbrev pub byte : List ℕ → ℕ → ℕ
byte buf i = get_or buf i 0

-- readUInt16BE.
abbrev pub read_u16 : List ℕ → ℕ → ℕ
read_u16 buf i = byte buf i * 256 + byte buf (suc i)

-- The bytes so far agree with the start of a pattern.
pub agrees : List ℕ → List ℕ → Bool
agrees buf pattern =
    eq_text (take (min (length buf) (length pattern)) buf)
      (take (min (length buf) (length pattern)) pattern)

-- What the fixed 16 bytes of a v2 header say; `none` is a header that they prove wrong. The last
-- part is the length of the block that follows.
pub fixed_part : (ver_cmd family len : ℕ) → Option (Command × Family × ℕ)
fixed_part ver_cmd family len =
    if not (ver_cmd / 16 == 2)
    then none
    else if not (ver_cmd % 16 == 0) && not (ver_cmd % 16 == 1)
    then none
    else if ltb proxy_v2_max_block len
    then none
    else if ver_cmd % 16 == 0
    then some (local, unspec, len)
    else if family == 0x11
    then (if ltb len addr_len_tcp4 then none else some (proxy, tcp4, len))
    else if family == 0x21
    then (if ltb len addr_len_tcp6 then none else some (proxy, tcp6, len))
    else if family == 0
    then some (proxy, unspec, len)
    else none

abbrev v2_address : Family → List ℕ → Option Text × Option ℕ
v2_address tcp4 buf = (some (format_ipv4 (take 4 (drop 16 buf))), some (read_u16 buf 24))
v2_address tcp6 buf = (some (format_ipv6 (take 16 (drop 16 buf))), some (read_u16 buf 48))
v2_address unspec buf = (none, none)

abbrev v2_header : Command → Family → ℕ → List ℕ → Header
v2_header command family len buf = record {
  version = 2;
  header_length = header_fixed + len;
  command = command;
  family = family;
  ip = (v2_address family buf).0;
  port = (v2_address family buf).1;
}

pub v2_block : List ℕ → Option (Command × Family × ℕ) → Parsed
v2_block buf none = invalid
v2_block buf (some (command, family, len)) =
    if ltb (length buf) (header_fixed + len)
    then incomplete (header_fixed + len)
    else ok (v2_header command family len buf)

-- parseProxyV2.
pub parse_proxy_v2 : List ℕ → Parsed
parse_proxy_v2 buf =
    if not (agrees buf proxy_v2_signature)
    then invalid
    else if ltb (length buf) header_fixed
    then incomplete header_fixed
    else v2_block buf (fixed_part (byte buf 12) (byte buf 13) (read_u16 buf 14))

-- `buf.indexOf('\r\n')`
pub index_of_crlf : List ℕ → Option ℕ
index_of_crlf [] = none
index_of_crlf (a ∷ []) = none
index_of_crlf (a ∷ b ∷ s) =
    if a == 13 && b == 10
    then some 0
    else elim (index_of_crlf (b ∷ s)) [ none ↦ none | some i ↦ some (suc i) ]

-- `line.split(' ')`
pub split_spaces : Text → Text → List Text
split_spaces cur [] = cur ∷ []
split_spaces cur (c ∷ s) =
    let closed = cur ∷ split_spaces [] s in
    let longer = split_spaces (cur ++ c ∷ []) s in if c == 32 then closed else longer

pub decimal : ℕ → Text → ℕ
decimal acc [] = acc
decimal acc (c ∷ s) = decimal (acc * 10 + (c - b'0')) s

-- PORT_RE
pub is_port_text : Text → Bool
is_port_text [] = false
is_port_text (c ∷ s) =
    (c == b'0' && length s == 0)
    || (leb b'1' c && leb c b'9' && leb (length s) 4 && every is_digit s)

-- A port field, read.
pub port_of : Text → Option ℕ
port_of s = if is_port_text s && leb (decimal 0 s) 65535 then some (decimal 0 s) else none

abbrev v1_ok : ℕ → Family → Option Text → Option ℕ → Parsed
v1_ok header_length family ip port = ok (record {
  version = 1;
  header_length = header_length;
  command = proxy;
  family = family;
  ip = ip;
  port = port;
})

abbrev v1_ports : ℕ → Family → Text → Option ℕ → Option ℕ → Parsed
v1_ports header_length family src (some sport) (some dport) =
    v1_ok header_length family (some src) (some sport)
v1_ports header_length family src _ _ = invalid

module _ (is_ip : Text → ℕ) where
  pub v1_addresses : ℕ → Family → ℕ → List Text → Parsed
  v1_addresses header_length family version (src ∷ dst ∷ sport ∷ dport ∷ []) =
      if is_ip src == version && is_ip dst == version
      then v1_ports header_length family src (port_of sport) (port_of dport)
      else invalid
  v1_addresses header_length family version _ = invalid

  pub v1_fields : ℕ → List Text → Parsed
  v1_fields header_length (first ∷ proto ∷ rest) =
      if not (eq_text first (codes "PROXY"))
      then invalid
      else if eq_text proto (codes "UNKNOWN")
      then v1_ok header_length unspec none none
      else if eq_text proto (codes "TCP4")
      then v1_addresses header_length tcp4 4 rest
      else if eq_text proto (codes "TCP6")
      then v1_addresses header_length tcp6 6 rest
      else invalid
  v1_fields header_length _ = invalid

  pub v1_line : List ℕ → Option ℕ → Parsed
  v1_line buf none =
      if leb proxy_v1_max_line (length buf) then invalid else incomplete (length buf + 1)
  v1_line buf (some crlf) =
      if ltb proxy_v1_max_line (crlf + 2)
      then invalid
      else if not (every (λ c. leb 32 c && leb c 126) (take crlf buf))
      then invalid
      else v1_fields (crlf + 2) (split_spaces [] (take crlf buf))

  -- parseProxyV1.
  pub parse_proxy_v1 : List ℕ → Parsed
  parse_proxy_v1 buf =
      if not (agrees buf proxy_v1_prefix) then invalid else v1_line buf (index_of_crlf buf)

  -- parseProxyHeader.
  pub parse_proxy_header : List ℕ → Parsed
  parse_proxy_header [] = incomplete 1
  parse_proxy_header (b ∷ buf) =
      if b == 13
      then parse_proxy_v2 (b ∷ buf)
      else if b == b'P'
      then parse_proxy_v1 (b ∷ buf)
      else invalid

-- buildProxyV1; the ports are printed in decimal.
unfoldable pub build_proxy_v1 : Family → Text → Text → ℕ → ℕ → List ℕ
unfolding number_text
build_proxy_v1 unspec src dst sport dport = codes "PROXY UNKNOWN\r\n"
build_proxy_v1 tcp4 src dst sport dport =
    codes "PROXY TCP4 "
    ++ (src
        ++ (32
            ∷ (dst
                ++ (32
                    ∷ (number_text 10 sport ++ (32 ∷ (number_text 10 dport ++ (13 ∷ 10 ∷ []))))))))
build_proxy_v1 tcp6 src dst sport dport =
    codes "PROXY TCP6 "
    ++ (src
        ++ (32
            ∷ (dst
                ++ (32
                    ∷ (number_text 10 sport ++ (32 ∷ (number_text 10 dport ++ (13 ∷ 10 ∷ []))))))))

-- writeUInt16BE.
abbrev pub write_u16 : ℕ → List ℕ
write_u16 n = n / 256 ∷ n % 256 ∷ []

-- buildProxyV2 of a relayed connection; `v6` says that the addresses have 16 bytes.
unfoldable pub build_proxy_v2 : Bool → List ℕ → List ℕ → ℕ → ℕ → List ℕ → List ℕ
build_proxy_v2 v6 src dst port dst_port tlvs =
    let body = src ++ (dst ++ (write_u16 port ++ (write_u16 dst_port ++ tlvs))) in
    proxy_v2_signature ++ (0x21 ∷ (if v6 then 0x21 else 0x11) ∷ (write_u16 (length body) ++ body))

-- `split('.')`, after what stands already before the next dot.
unfoldable pub split_dots : Text → Text → List Text
split_dots cur [] = cur ∷ []
split_dots cur (c ∷ s) =
    let closed = cur ∷ split_dots [] s in
    let longer = split_dots (cur ++ c ∷ []) s in if c == b'.' then closed else longer

-- ipv4Bytes, with the byte that Buffer.from makes of the number of a part; none where it throws.
unfoldable pub ipv4_bytes : (to_byte : Text → ℕ) → Text → Option (List ℕ)
unfolding split_dots
ipv4_bytes to_byte ip =
    let parts = split_dots [] ip in if length parts == 4 then some (map to_byte parts) else none

abbrev pub build_between : Option (List ℕ) → Option (List ℕ) → ℕ → ℕ → List ℕ → Option (List ℕ)
unfolding build_proxy_v2
build_between (some src) (some dst) port dst_port tlvs =
    some (build_proxy_v2 false src dst port dst_port tlvs)
build_between (some src) none port dst_port tlvs = none
build_between none dst port dst_port tlvs = none

-- buildProxyV2 of a relayed connection from an address in text that has no colon.
unfoldable pub build_proxy_v2_ipv4 :
    (to_byte : Text → ℕ) → Text → ℕ → Text → ℕ → List ℕ → Option (List ℕ)
unfolding ipv4_bytes build_between
build_proxy_v2_ipv4 to_byte ip port dst_ip dst_port tlvs =
    build_between (ipv4_bytes to_byte ip) (ipv4_bytes to_byte dst_ip) port dst_port tlvs

-- buildProxyV2 of the proxy's own connection.
unfoldable pub build_proxy_v2_local : List ℕ
build_proxy_v2_local = proxy_v2_signature ++ (0x20 ∷ 0 ∷ write_u16 0)
