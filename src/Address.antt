-- ===== src/Address.antt =====
-- The address literals of enclave/src/proxyProtocol.mjs: decimal and hexadecimal printing, and the
-- shortest form of an IPv6 address. Bytes and 16-bit groups are natural numbers.
pub mod Numbers
use ppq_enclave_proxy.Prelude.{
  ◌≡◌, refl, ℕ, zero, suc, ◌+◌, ◌-◌, ◌*◌, ◌/◌, ◌%◌, Text, codes, List, [], ◌∷◌, ◌++◌, map, Bool,
  true, false, ◌&&◌, take, drop, get_or, ltb, ◌==◌, if◌then◌else◌,
}

-- The digit of a value below 16, as `toString(16)` writes it.
abbrev pub digit : ℕ → ℕ
digit n = if ltb n 10 then b'0' + n else b'a' + (n - 10)

unfoldable pub digits_from : ℕ → ℕ → ℕ → Text → Text
digits_from zero base n acc = acc
digits_from (suc fuel) base n acc = elim (n / base == 0) [
  | true ↦ digit n ∷ acc
  | false ↦ digits_from fuel base (n / base) (digit (n % base) ∷ acc)
]

-- The number in a base, with no leading zero; each round divides by the base, so `suc n` rounds
-- are enough.
unfoldable pub number_text : ℕ → ℕ → Text
unfolding digits_from
number_text base n = digits_from (suc n) base n []

pub join : Text → List Text → Text
join sep [] = []
join sep (x ∷ []) = x
join sep (x ∷ y ∷ ys) = x ++ (sep ++ join sep (y ∷ ys))

-- formatIPv4.
unfoldable pub format_ipv4 : List ℕ → Text
unfolding join number_text
format_ipv4 bytes = join (codes ".") (map (number_text 10) (take 4 bytes))

groups_of : List ℕ → List ℕ
groups_of [] = []
groups_of (a ∷ []) = []
groups_of (a ∷ b ∷ bytes) = (a * 256 + b) ∷ groups_of bytes

leading_zeros : List ℕ → ℕ
leading_zeros [] = 0
leading_zeros (g ∷ gs) = if g == 0 then suc (leading_zeros gs) else 0

-- The start and the length of the longest run of zero groups, the first of the longest; `i` is the
-- position of the list's head. Each round passes a group at least.
longest_run : ℕ → ℕ → List ℕ → ℕ × ℕ → ℕ × ℕ
unfolding leading_zeros
longest_run zero i gs best = best
longest_run (suc fuel) i [] best = best
longest_run (suc fuel) i (zero ∷ gs) (start, len) =
    let n = suc (leading_zeros gs) in
    longest_run fuel (i + n) (drop n (zero ∷ gs)) (if ltb len n then (i, n) else (start, len))
longest_run (suc fuel) i (suc g ∷ gs) best = longest_run fuel (i + 1) gs best

abbrev is_mapped : List ℕ → Bool
is_mapped gs =
    get_or gs 0 1 == 0
    && get_or gs 1 1 == 0
    && get_or gs 2 1 == 0
    && get_or gs 3 1 == 0
    && get_or gs 4 1 == 0
    && get_or gs 5 0 == 0xffff

compress : List Text → ℕ × ℕ → Text
unfolding join
compress hex (start, len) =
    if ltb len 2
    then join (codes ":") hex
    else join (codes ":") (take start hex)
      ++ (codes "::" ++ join (codes ":") (drop (start + len) hex))

-- formatIPv6, of 16 bytes.
unfoldable pub format_ipv6 : List ℕ → Text
unfolding groups_of longest_run compress format_ipv4
format_ipv6 bytes =
    let gs = groups_of bytes in
    if is_mapped gs
    then format_ipv4 (drop 12 bytes)
    else compress (map (number_text 16) gs) (longest_run 8 0 gs (0, 0))

test_v4 : format_ipv4 (203 ∷ 0 ∷ 113 ∷ 7 ∷ []) ≡ codes "203.0.113.7"
unfolding format_ipv4
test_v4 = refl

test_v6 :
    format_ipv6 (0x20 ∷ 1 ∷ 0xd ∷ 0xb8 ∷ 0 ∷ 0 ∷ 0 ∷ 0 ∷ 0 ∷ 1 ∷ 0 ∷ 0 ∷ 0 ∷ 0 ∷ 0 ∷ 1 ∷ [])
    ≡ codes "2001:db8::1:0:0:1"
unfolding format_ipv6
test_v6 = refl

test_mapped :
    format_ipv6 (0 ∷ 0 ∷ 0 ∷ 0 ∷ 0 ∷ 0 ∷ 0 ∷ 0 ∷ 0 ∷ 0 ∷ 0xff ∷ 0xff ∷ 10 ∷ 0 ∷ 0 ∷ 9 ∷ [])
    ≡ codes "10.0.0.9"
unfolding format_ipv6
test_mapped = refl
