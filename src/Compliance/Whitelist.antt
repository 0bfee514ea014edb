-- ===== src/Compliance/Whitelist.antt =====
-- Whitelist matching: `_match_whitelist_in_memory` and `_ip_matches_pattern`.
use mathlib.Core.List.{reverse}
use terminal_access_manager.Prelude.{
  ℕ, ◌-◌, Bool, not, ◌&&◌, Option, none, some, List, [], ◌∷◌, leb, if◌then◌else◌, Text, codes,
  length, take, is_empty, text_eq, starts_with, contains_char,
}
use terminal_access_manager.Models.{MatchType, mac, ip, both}
use terminal_access_manager.Ipv4.{slash, parse_ipv4, parse_network, in_network}
use terminal_access_manager.IpRange.{dash, ip_in_range}
use terminal_access_manager.Mac.{whitelist_mac}

-- The column `pattern_type`, and any other text
pub data PatternType : Type 0 where
  mac_only mac_prefix single_ip cidr ip_range both_pattern other_pattern : PatternType

pub record Entry : Type 0 where
  pub pattern_type : PatternType
  pub ip_pattern : Option Text
  pub mac_address : Option Text
  pub comments : Option Text

-- `{"match_type": ..., "comments": ...}`
pub record Match : Type 0 where
  pub match_type : MatchType
  pub comments : Option Text

-- `s.endswith(p)`
abbrev ends_with : Text → Text → Bool
ends_with s p = starts_with (reverse s) (reverse p)

-- `s[:-n]`
abbrev drop_last : ℕ → Text → Text
drop_last n s = take (length s - n) s

-- A pattern that is no network raises, and the handler compares the texts.
abbrev in_cidr : ℕ → Text → Text → Bool
in_cidr target address pattern = elim (parse_network pattern) [
  | none ↦ text_eq address pattern
  | some net ↦ in_network target net
]

abbrev guess_pattern : ℕ → Text → Text → Bool
guess_pattern target address pattern =
    if contains_char slash pattern
    then in_cidr target address pattern
    else if contains_char dash pattern
    then ip_in_range address pattern
    else text_eq address pattern

abbrev match_pattern : ℕ → Text → Text → PatternType → Bool
match_pattern target address pattern single_ip = text_eq address pattern
match_pattern target address pattern cidr = in_cidr target address pattern
match_pattern target address pattern ip_range = ip_in_range address pattern
match_pattern target address pattern both_pattern =
    if contains_char slash pattern && ends_with pattern (codes "/32")
    then text_eq address (drop_last 3 pattern)
    else guess_pattern target address pattern
match_pattern target address pattern _ = guess_pattern target address pattern

unfoldable pub ip_matches_pattern : Text → Text → PatternType → Bool
ip_matches_pattern address pattern type = elim (parse_ipv4 address) [
  | none ↦ text_eq address pattern
  | some target ↦ match_pattern target address pattern type
]

-- A text that is absent or empty is false.
abbrev pub given : Option Text → Text
given none = []
given (some s) = s

abbrev found : Entry → MatchType → Option Match
found entry type = some (record { match_type = type; comments = entry.comments })

-- The test of a `mac_only` entry, and `mac_match` of the others
abbrev pub same_mac : Entry → Text → Bool
same_mac entry normalized = text_eq (whitelist_mac (given entry.mac_address)) normalized

match_mac_only : Entry → Text → Option Match
match_mac_only entry normalized =
    if not (is_empty (given entry.mac_address)) && same_mac entry normalized
    then found entry mac
    else none

match_mac_prefix : Entry → Text → Option Match
match_mac_prefix entry normalized =
    let entry_mac = whitelist_mac (given entry.mac_address) in
    if not (is_empty (given entry.mac_address))
      && (not (is_empty entry_mac)
          && (leb (length entry_mac) (length normalized) && starts_with normalized entry_mac))
    then found entry mac
    else none

match_conditions : Entry → Text → Text → Option Match
match_conditions entry address normalized =
    let has_ip = not (is_empty (given entry.ip_pattern)) in
    let has_mac = not (is_empty (given entry.mac_address)) in
    let ip_match =
      has_ip && ip_matches_pattern address (given entry.ip_pattern) entry.pattern_type in
    let mac_match = has_mac && same_mac entry normalized in
    if has_ip && has_mac
    then (if ip_match && mac_match then found entry both else none)
    else if has_ip
    then (if ip_match then found entry ip else none)
    else if has_mac && mac_match
    then found entry mac
    else none

match_kind : PatternType → Entry → Text → Text → Option Match
match_kind mac_only entry address normalized = match_mac_only entry normalized
match_kind mac_prefix entry address normalized = match_mac_prefix entry normalized
match_kind _ entry address normalized = match_conditions entry address normalized

-- One turn of the loop
unfoldable pub match_entry : Entry → Text → Text → Option Match
unfolding match_mac_only match_mac_prefix match_conditions match_kind
match_entry entry address normalized = match_kind entry.pattern_type entry address normalized

match_from : List Entry → Text → Text → Option Match
match_from [] address normalized = none
match_from (entry ∷ entries) address normalized =
    let rest = match_from entries address normalized in
    elim (match_entry entry address normalized) [ some m ↦ some m | none ↦ rest ]

-- `_match_whitelist_in_memory`
unfoldable pub match_whitelist : List Entry → Text → Text → Option Match
unfolding match_from
match_whitelist data_rows address mac_address =
    match_from data_rows address (whitelist_mac mac_address)
