-- ===== src/Compliance/Scope.antt =====
-- Compliance scopes: `_extract_ipguard_mac_prefixes`, `_check_terminal_in_arp_scope` and
-- `_check_terminal_in_or_scope`. A CIDR scope is read as an IPv4 network, which is what
-- `_validate_scope_value` of compliance_scope_service.py lets in.
use terminal_access_manager.Prelude.{ℕ, Bool, false, Option, some, List, [], ◌∷◌, Text, any}
use terminal_access_manager.Ipv4.{parse_ipv4, Network, parse_network, in_network}
use terminal_access_manager.IpRange.{ip_in_range}
use terminal_access_manager.Mac.{mac_matches_any_prefix}

-- The column `scope_type`, and any other text
pub data ScopeType : Type 0 where
  ip_cidr ip_range mac_prefix_arp mac_prefix_ipguard : ScopeType
  ip_cidr_any ip_range_any mac_prefix_any other_scope : ScopeType

pub record Scope : Type 0 where
  pub scope_type : ScopeType
  pub scope_value : Text

unfoldable pub extract_ipguard_mac_prefixes : List Scope → List Text
extract_ipguard_mac_prefixes [] = []
extract_ipguard_mac_prefixes (scope ∷ scopes) =
    let rest = extract_ipguard_mac_prefixes scopes in
    elim scope.scope_type [ mac_prefix_ipguard ↦ scope.scope_value ∷ rest | _ ↦ rest ]

abbrev both_parsed : Option Network → Option ℕ → Bool
both_parsed (some net) (some address) = in_network address net
both_parsed _ _ = false

-- `ip_address(ip) in ip_network(value, strict=False)`; an exception counts as no match
abbrev in_cidr : Text → Text → Bool
in_cidr value ip = both_parsed (parse_network value) (parse_ipv4 ip)

abbrev arp_kind : ScopeType → Text → Text → Text → Bool
arp_kind ip_cidr value ip mac = in_cidr value ip
arp_kind ip_range value ip mac = ip_in_range ip value
arp_kind mac_prefix_arp value ip mac = mac_matches_any_prefix mac (value ∷ [])
arp_kind _ value ip mac = false

abbrev or_kind : ScopeType → Text → Text → Text → Bool
or_kind ip_cidr_any value ip mac = in_cidr value ip
or_kind ip_range_any value ip mac = ip_in_range ip value
or_kind mac_prefix_any value ip mac = mac_matches_any_prefix mac (value ∷ [])
or_kind _ value ip mac = false

unfoldable pub in_arp_scope : List Scope → Text → Text → Bool
unfolding any
in_arp_scope scopes ip mac =
    any (λ scope. arp_kind scope.scope_type scope.scope_value ip mac) scopes

unfoldable pub in_or_scope : List Scope → Text → Text → Bool
unfolding any
in_or_scope scopes ip mac = any (λ scope. or_kind scope.scope_type scope.scope_value ip mac) scopes
