-- ===== src/Std/Net.antt =====
-- `std::net::IpAddr`'s parser and `is_loopback`, and `u16`'s `from_str`.
use ruprogress_mcp.Base.{
  Bool, Bytes, List, Option, [], false, if◌then◌else◌, leb, ltb, none, some, true, nat_eq, ℕ, ◌^◌,
  ◌*◌, ◌+◌, ◌-◌, ◌==◌, ◌>>=◌, ◌&&◌, ◌||◌, ◌∷◌, ◌++◌, length, not, zero, suc,
}

-- `char::to_digit`.
unfoldable pub to_digit : ℕ → ℕ → Option ℕ
to_digit radix b =
    let digit =
      if leb b'0' b && leb b b'9'
      then b - 48
      else if leb b'a' b && leb b b'f'
      then b - 87
      else if leb b'A' b && leb b b'F'
      then b - 55
      else 99 in
    if ltb digit radix then some digit else none

-- The digits that a text starts with, and the text after them.
unfoldable pub read_digits : ℕ → Bytes → List ℕ × Bytes
unfolding to_digit
read_digits radix [] = ([], [])
read_digits radix (b ∷ bs) =
    let (digits, rest) = read_digits radix bs in
    elim (to_digit radix b) [ none ↦ ([], b ∷ bs) | some d ↦ (d ∷ digits, rest) ]

unfoldable pub number : ℕ → ℕ → List ℕ → ℕ
number radix n [] = n
number radix n (d ∷ ds) = number radix (n * radix + d) ds

-- Whether a number is written with a zero that it does not need.
abbrev pub zero_prefixed : List ℕ → Bool
zero_prefixed (d ∷ d' ∷ ds) = d == 0
zero_prefixed _ = false

-- `Parser::read_number`, of a number up to `bound`.
unfoldable pub read_number : ℕ → ℕ → Bool → ℕ → Bytes → Option (ℕ × Bytes)
unfolding read_digits number
read_number radix max_digits allow_zero_prefix bound text =
    let (digits, rest) = read_digits radix text in
    let n = number radix 0 digits in
    if length digits == 0 || ltb max_digits (length digits)
    then none
    else if not allow_zero_prefix && zero_prefixed digits
    then none
    else if ltb bound n
    then none
    else some (n, rest)

-- `Parser::read_given_char`.
unfoldable pub read_given_char : ℕ → Bytes → Option Bytes
read_given_char c [] = none
read_given_char c (b ∷ bs) = if b == c then some bs else none

-- `Parser::read_separator`: nothing is read before the first item.
abbrev pub read_separator : ℕ → ℕ → Bytes → Option Bytes
unfolding read_given_char
read_separator sep zero text = some text
read_separator sep (suc i) text = read_given_char sep text

-- `Parser::read_ipv4_addr`: the octets from the `i`th on.
unfoldable pub read_octets : ℕ → ℕ → Bytes → Option (List ℕ × Bytes)
unfolding read_number
read_octets zero i text = some ([], text)
read_octets (suc left) i text = do
  digits ← read_separator b'.' i text
  (octet, rest) ← read_number 10 3 false 255 digits
  (octets, rest') ← read_octets left (suc i) rest
  some (octet ∷ octets, rest')

-- The two groups that an embedded IPv4 address stands for.
abbrev pub groups_of : List ℕ → List ℕ
groups_of (a ∷ b ∷ c ∷ d ∷ []) = (a * 256 + b) ∷ (c * 256 + d) ∷ []
groups_of _ = []

-- `read_groups`: the groups, whether an IPv4 address ends them, and the text after them.
unfoldable pub read_groups : ℕ → ℕ → Bytes → List ℕ × Bool × Bytes
unfolding read_octets read_number
read_groups zero i text = ([], false, text)
read_groups (suc left) i text =
    let ipv4 = if left == 0 then none else (read_separator b':' i text >>= read_octets 4 0) in
    elim ipv4 [
      | some (octets, rest) ↦ (groups_of octets, true, rest)
      | none ↦ elim (read_separator b':' i text >>= read_number 16 4 true 65535) [
        | none ↦ ([], false, text)
        | some (group, rest) ↦
            let (groups, embedded, rest') = read_groups left (suc i) rest in
            (group ∷ groups, embedded, rest')
      ]
    ]

abbrev pub zeros : ℕ → List ℕ
zeros zero = []
zeros (suc n) = 0 ∷ zeros n

-- `Parser::read_ipv6_addr`.
unfoldable pub read_ipv6 : Bytes → Option (List ℕ × Bytes)
unfolding read_groups read_given_char
read_ipv6 text =
    let (head, head_ipv4, rest) = read_groups 8 0 text in
    if length head == 8 then some (head, rest) else if head_ipv4 then none else do
      colon ← read_given_char b':' rest
      tail_text ← read_given_char b':' colon
      let (tail, embedded, rest') = read_groups (7 - length head) 0 tail_text
      some (head ++ zeros (8 - length head - length tail) ++ tail, rest')

-- `Ipv4Addr::is_loopback` and `Ipv6Addr::is_loopback`.
abbrev pub loopback_octets : List ℕ → Bool
loopback_octets [] = false
loopback_octets (a ∷ rest) = a == 127

unfoldable pub loopback_groups : List ℕ → Bool
loopback_groups [] = false
loopback_groups (a ∷ []) = a == 1
loopback_groups (a ∷ b ∷ rest) = a == 0 && loopback_groups (b ∷ rest)

-- `text.parse::<IpAddr>().is_ok_and(|ip| ip.is_loopback())`.
unfoldable pub parses_loopback : Bytes → Bool
unfolding read_octets read_ipv6 loopback_groups
parses_loopback text = elim (read_octets 4 0 text) [
  | some (octets, []) ↦ loopback_octets octets
  | some (octets, b ∷ rest) ↦ false
  | none ↦ elim (read_ipv6 text) [ some (groups, []) ↦ loopback_groups groups | _ ↦ false ]
]

-- All digits, or none where a byte is not a digit.
abbrev pub only_digits : List ℕ × Bytes → Option (List ℕ)
only_digits ([], rest) = none
only_digits (d ∷ digits, []) = some (d ∷ digits)
only_digits (d ∷ digits, b ∷ rest) = none

abbrev pub skip_plus : Bytes → Bytes
skip_plus [] = []
skip_plus (b ∷ bs) = if b == b'+' then bs else b ∷ bs

-- `text.parse::<u16>()`.
unfoldable pub parse_u16 : Bytes → Option ℕ
unfolding read_digits number
parse_u16 text = do
  digits ← only_digits (read_digits 10 (skip_plus text))
  let n = number 10 0 digits
  if ltb 65535 n then none else some n

-- `text.parse::<u64>()`.
unfoldable pub parse_u64 : Bytes → Option ℕ
unfolding read_digits number
parse_u64 text = do
  digits ← only_digits (read_digits 10 (skip_plus text))
  let n = number 10 0 digits
  if ltb (2 ^ 64 - 1) n then none else some n
