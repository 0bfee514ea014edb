-- ===== src/Ipv4.antt =====
-- Python's `ipaddress` module as the services use it: IPv4 addresses as numbers below 2 ^ 32, their
-- texts, and networks with a prefix length (`strict=False`).
pub mod Laws
pub mod Networks
use terminal_access_manager.Prelude.{
  ℕ, zero, suc, ◌+◌, ◌-◌, ◌*◌, ◌/◌, ◌%◌, ◌^◌, Bool, true, false, not, ◌&&◌, ◌||◌, Option, none,
  some, List, [], ◌∷◌, ◌++◌, ltb, leb, ◌==◌, if◌then◌else◌, Text, length, all, is_empty, is_digit,
  to_int, split, join, text_eq, codes,
}

-- The character that parts the octets.
abbrev pub dot : ℕ
dot = b'.'

abbrev pub slash : ℕ
slash = b'/'

starts_with_zero : Text → Bool
starts_with_zero [] = false
starts_with_zero (c ∷ s) = c == b'0'

-- `_parse_octet`: one to three digits with no leading zero, at most 255
unfoldable pub parse_octet : Text → Option ℕ
unfolding starts_with_zero all
parse_octet s =
    if is_empty s
    then none
    else if not (all is_digit s)
    then none
    else if ltb 3 (length s)
    then none
    else if not (text_eq s (codes "0")) && starts_with_zero s
    then none
    else if ltb 255 (to_int s)
    then none
    else some (to_int s)

abbrev address_of : Option ℕ → Option ℕ → Option ℕ → Option ℕ → Option ℕ
address_of (some a) (some b) (some c) (some d) = some (((a * 256 + b) * 256 + c) * 256 + d)
address_of _ _ _ _ = none

abbrev parse_octets : List Text → Option ℕ
parse_octets (a ∷ b ∷ c ∷ d ∷ []) =
    address_of (parse_octet a) (parse_octet b) (parse_octet c) (parse_octet d)
parse_octets _ = none

-- `int(IPv4Address(s))`; `none` stands for its `AddressValueError`
unfoldable pub parse_ipv4 : Text → Option ℕ
parse_ipv4 s = parse_octets (split dot s)

abbrev digit : ℕ → ℕ
digit n = b'0' + n

-- The decimal text of a number below 1000.
unfoldable pub print_octet : ℕ → Text
print_octet n =
    if ltb n 10
    then digit n ∷ []
    else if ltb n 100
    then digit (n / 10) ∷ digit (n % 10) ∷ []
    else digit (n / 100) ∷ digit (n / 10 % 10) ∷ digit (n % 10) ∷ []

abbrev pub octets : ℕ → List Text
octets n =
    print_octet (n / 256 / 256 / 256)
    ∷ print_octet (n / 256 / 256 % 256)
    ∷ print_octet (n / 256 % 256)
    ∷ print_octet (n % 256)
    ∷ []

-- `str(address)`
unfoldable pub print_ipv4 : ℕ → Text
print_ipv4 n = join dot (octets n)

pub record Network : Type 0 where
  pub base : ℕ
  pub prefix : ℕ

-- The number of addresses of a network with this prefix length.
abbrev pub block_size : ℕ → ℕ
block_size prefix = 2 ^ (32 - prefix)

-- The address with its host bits cleared.
abbrev pub masked : ℕ → ℕ → ℕ
masked prefix address = address / block_size prefix * block_size prefix

-- `_prefix_from_ip_int`: the prefix length with this netmask, looked for from `p` downwards
mask_prefix : ℕ → ℕ → Option ℕ
mask_prefix zero mask = if mask == 0 then some 0 else none
mask_prefix (suc p) mask =
    let shorter = mask_prefix p mask in
    if mask == 2 ^ 32 - block_size (suc p) then some (suc p) else shorter

-- `_prefix_from_prefix_string`
unfoldable pub parse_prefix : Text → Option ℕ
unfolding all
parse_prefix s =
    if not (is_empty s) && all is_digit s && leb (to_int s) 32 then some (to_int s) else none

-- `_prefix_from_ip_string`: a netmask, or else a host mask
mask_string_prefix : Text → Option ℕ
unfolding parse_ipv4 mask_prefix
mask_string_prefix s = elim (parse_ipv4 s) [
  | none ↦ none
  | some mask ↦ elim (mask_prefix 32 mask) [
    | some p ↦ some p
    | none ↦ mask_prefix 32 (2 ^ 32 - 1 - mask)
  ]
]

abbrev network_of : Option ℕ → Option ℕ → Option Network
network_of (some address) (some p) = some (record { base = masked p address; prefix = p })
network_of _ _ = none

abbrev make_netmask : Text → Option ℕ
make_netmask s = elim (parse_prefix s) [ some p ↦ some p | none ↦ mask_string_prefix s ]

abbrev network_parts : List Text → Option Network
network_parts (a ∷ []) = network_of (parse_ipv4 a) (some 32)
network_parts (a ∷ m ∷ []) = network_of (parse_ipv4 a) (make_netmask m)
network_parts _ = none

-- `IPv4Network(s, strict=False)`; `none` stands for its `ValueError`
unfoldable pub parse_network : Text → Option Network
unfolding mask_string_prefix
parse_network s = network_parts (split slash s)

-- `address in network`
unfoldable pub in_network : ℕ → Network → Bool
in_network address net = masked net.prefix address == net.base

-- `str(network)`
unfoldable pub print_network : Network → Text
print_network net = print_ipv4 net.base ++ slash ∷ print_octet net.prefix
