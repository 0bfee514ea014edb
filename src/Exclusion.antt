-- ===== src/Exclusion.antt =====
-- Terminal exclusion rules, backend/app/services/terminal_exclusion_service.py: the matching
-- helpers and the validation here, the operations on the tables in `Purge` and `Rules`.
pub mod Patterns
pub mod Purge
pub mod Rules
use terminal_access_manager.Prelude.Results.{
  Result, ok, err, condition_required, ip_type_required, mac_type_required, invalid_ip,
  cidr_without_prefix, invalid_cidr_prefix, invalid_cidr, invalid_ip_range, range_start_after_end,
  range_end_above_255, ◌>>=◌, ◌>>◌, require,
}
use terminal_access_manager.Prelude.{
  ℕ, Bool, true, false, not, ◌&&◌, ◌||◌, Option, none, some, List, [], ◌∷◌, ◌++◌, leb, ltb, ◌==◌,
  if◌then◌else◌, Text, take, any, all, find, is_empty, is_digit, is_some, to_int, split, join,
  text_eq, starts_with, strip, contains_char, or_else,
}
use terminal_access_manager.Ipv4.{
  dot, slash, parse_ipv4, print_ipv4, print_octet, parse_network, print_network, in_network,
}
use terminal_access_manager.IpRange.{dash, Range, short_digits, parse_range, in_bounds}
use terminal_access_manager.Mac.{normalize_mac, validate_mac, validate_mac_prefix, format_mac_hex}

-- `IP_PATTERN_TYPES`, and any other text
pub data IpType : Type 0 where
  single_ip cidr ip_range other_ip_type : IpType

-- `MAC_PATTERN_TYPES`, and any other text
pub data MacType : Type 0 where
  mac mac_prefix other_mac_type : MacType

-- The condition columns of a rule, as `rule_to_dict` returns them
pub record Condition : Type 0 where
  pub ip_pattern : Option Text
  pub ip_pattern_type : Option IpType
  pub mac_address : Option Text
  pub mac_pattern_type : Option MacType

-- `bool(value)` of an optional text
abbrev pub present : Option Text → Bool
present none = false
present (some s) = not (is_empty s)

abbrev last_of : List Text → Text
last_of [] = []
last_of (w ∷ []) = w
last_of (w ∷ v ∷ ws) = last_of (v ∷ ws)

abbrev fourth : List Text → Text
fourth (a ∷ b ∷ c ∷ d ∷ ws) = d
fourth _ = []

abbrev match_range : ℕ → Option Range → Bool
match_range address none = false
match_range address (some r) =
    let parts = split dot (print_ipv4 address) in
    if not (text_eq (join dot (take 3 parts)) r.prefix)
    then false
    else in_bounds r (to_int (fourth parts))

abbrev match_cidr : ℕ → Text → Bool
match_cidr address pattern = elim (parse_network pattern) [
  | none ↦ false
  | some net ↦ in_network address net
]

abbrev match_address : ℕ → Text → IpType → Bool
match_address address pattern single_ip = text_eq (print_ipv4 address) pattern
match_address address pattern cidr = match_cidr address pattern
match_address address pattern ip_range = match_range address (parse_range short_digits pattern)
match_address address pattern other_ip_type = false

abbrev match_parsed : Option ℕ → Text → IpType → Bool
match_parsed none pattern type = false
match_parsed (some address) pattern type = match_address address pattern type

unfoldable pub match_ip : Text → Option Text → Option IpType → Bool
match_ip address none type = false
match_ip address (some pattern) none = false
match_ip address (some pattern) (some type) =
    if is_empty pattern then false else match_parsed (parse_ipv4 (strip address)) pattern type

abbrev match_mac_type : Text → Text → MacType → Bool
match_mac_type normalized target mac = text_eq normalized target
match_mac_type normalized target mac_prefix = starts_with normalized target
match_mac_type normalized target other_mac_type = false

unfoldable pub match_mac : Text → Option Text → Option MacType → Bool
match_mac address none type = false
match_mac address (some value) none = false
match_mac address (some value) (some type) =
    if is_empty value
    then false
    else if is_empty (normalize_mac address)
    then false
    else match_mac_type (normalize_mac address) (normalize_mac value) type

unfoldable pub matches_rule : Condition → Text → Text → Bool
unfolding match_ip match_mac
matches_rule rule ip_address mac_address =
    let has_ip = present rule.ip_pattern in
    let has_mac = present rule.mac_address in
    if not has_ip && not has_mac
    then false
    else if has_ip && not (match_ip ip_address rule.ip_pattern rule.ip_pattern_type)
    then false
    else not (has_mac && not (match_mac mac_address rule.mac_address rule.mac_pattern_type))

unfoldable pub matches_any : List Condition → Text → Text → Bool
unfolding matches_rule any
matches_any rules ip_address mac_address =
    any (λ rule. matches_rule rule ip_address mac_address) rules

unfoldable pub first_match : List Condition → Text → Text → Option Condition
unfolding matches_rule find
first_match rules ip_address mac_address =
    find (λ rule. matches_rule rule ip_address mac_address) rules

normalize_single : Text → Result (Text × IpType)
normalize_single value = elim (parse_ipv4 value) [
  | none ↦ err invalid_ip
  | some address ↦ ok (print_ipv4 address, single_ip)
]

normalize_cidr : Text → Result (Text × IpType)
normalize_cidr value = do
  let prefix = last_of (split slash value)
  require (contains_char slash value) cidr_without_prefix
  require ((not (is_empty prefix) && all is_digit prefix) && leb (to_int prefix) 32)
      invalid_cidr_prefix
  elim (parse_network value) [ none ↦ err invalid_cidr | some net ↦ ok (print_network net, cidr) ]

abbrev range_text : Range → Text
range_text r = r.prefix ++ dot ∷ (print_octet (to_int r.start) ++ dash ∷ print_octet (to_int r.end))

abbrev check_range : IpType → Range → Result (Text × IpType)
check_range type r = do
  require (is_some (parse_ipv4 (r.prefix ++ dot ∷ b'1' ∷ []))) invalid_ip_range
  require (not (ltb (to_int r.end) (to_int r.start))) range_start_after_end
  require (not (ltb 255 (to_int r.end))) range_end_above_255
  ok (range_text r, type)

normalize_range : IpType → Text → Result (Text × IpType)
normalize_range type value = elim (parse_range short_digits value) [
  | none ↦ err invalid_ip_range
  | some r ↦ check_range type r
]

-- `_normalize_ip`: every type but the first two is read as a range
unfoldable pub normalize_ip : IpType → Text → Result (Text × IpType)
unfolding normalize_single normalize_cidr normalize_range
normalize_ip single_ip value = normalize_single value
normalize_ip cidr value = normalize_cidr value
normalize_ip ip_range value = normalize_range ip_range value
normalize_ip other_ip_type value = normalize_range other_ip_type value

-- `_normalize_mac_condition`
unfoldable pub normalize_mac_condition : MacType → Text → Result (Text × MacType)
normalize_mac_condition mac value = do v ← validate_mac value; ok (format_mac_hex v, mac)
normalize_mac_condition type value = do v ← validate_mac_prefix value; ok (format_mac_hex v, type)

abbrev ip_condition : Option IpType → Text → Result (Option Text × Option IpType)
ip_condition type [] = ok (none, none)
ip_condition none (c ∷ value) = err ip_type_required
ip_condition (some other_ip_type) (c ∷ value) = err ip_type_required
ip_condition (some type) (c ∷ value) = do
  normalized ← normalize_ip type (c ∷ value)
  ok (some normalized.0, some normalized.1)

abbrev mac_condition : Option MacType → Text → Result (Option Text × Option MacType)
mac_condition type [] = ok (none, none)
mac_condition none (c ∷ value) = err mac_type_required
mac_condition (some other_mac_type) (c ∷ value) = err mac_type_required
mac_condition (some type) (c ∷ value) = do
  normalized ← normalize_mac_condition type (c ∷ value)
  ok (some normalized.0, some normalized.1)

-- `(value or "").strip()`
abbrev stripped : Option Text → Text
stripped value = strip (or_else value [])

unfoldable pub validate_and_normalize :
    Option IpType → Option Text → Option MacType → Option Text → Result Condition
unfolding normalize_ip normalize_mac_condition
validate_and_normalize ip_type ip_value mac_type mac_value = do
  require (not (is_empty (stripped ip_value) && is_empty (stripped mac_value))) condition_required
  of_ip ← ip_condition ip_type (stripped ip_value)
  of_mac ← mac_condition mac_type (stripped mac_value)
  ok (record {
    ip_pattern = of_ip.0;
    ip_pattern_type = of_ip.1;
    mac_address = of_mac.0;
    mac_pattern_type = of_mac.1;
  })
