-- ===== src/Compliance/Ipguard.antt =====
-- Matching against the IPGuard baseline: `_match_ipguard_in_memory` and its two simpler forms.
pub mod Reference
use terminal_access_manager.Prelude.{
  ℕ, ◌≡◌, refl, Bool, true, false, not, ◌&&◌, ◌||◌, Option, none, some, List, [], ◌∷◌, ◌++◌,
  if◌then◌else◌, Text, any, any-append, text_eq, arith, Bool-cases, inl, inr,
}
use terminal_access_manager.Models.{column_eq}
use terminal_access_manager.Mac.{ipguard_mac, mac_matches_any_prefix}

pub record Entry : Type 0 where
  pub ip_address : Option Text
  pub mac_address : Text

-- The cached entries of each baseline source
abbrev pub Baseline : Type 0
Baseline = List (Text × List Entry)

-- The state of the search: an early return, or the two flags
pub data Search : Type 0 where
  returned : Search
  searching : (ip_found mac_found : Bool) → Search

-- The result triple
pub record Found : Type 0 where
  pub is_compliant : Bool
  pub ip_found : Bool
  pub mac_found : Bool

abbrev pub same_ip : Text → Entry → Bool
same_ip ip e = column_eq e.ip_address ip

abbrev pub same_mac : Text → Entry → Bool
same_mac normalized_mac e = text_eq (ipguard_mac e.mac_address) normalized_mac

-- The two ways to match an entry that has the address
abbrev pub accepts : Text → List Text → Entry → Bool
accepts normalized_mac prefixes e =
    same_mac normalized_mac e || mac_matches_any_prefix (ipguard_mac e.mac_address) prefixes

module _ (ip normalized_mac : Text) (prefixes : List Text) where
  search_entries : List Entry → Bool → Bool → Search
  search_entries [] ip_found mac_found = searching ip_found mac_found
  search_entries (e ∷ es) ip_found mac_found =
      let rest =
        search_entries es (same_ip ip e || ip_found) (same_mac normalized_mac e || mac_found) in
      if same_ip ip e && accepts normalized_mac prefixes e then returned else rest

  search_sources : Baseline → Bool → Bool → Search
  search_sources [] ip_found mac_found = searching ip_found mac_found
  search_sources ((tag, es) ∷ sources) ip_found mac_found =
      elim (search_entries es ip_found mac_found) [
        | returned ↦ returned
        | searching i m ↦ search_sources sources i m
      ]

abbrev result_of : Search → Found
result_of returned = record { is_compliant = true; ip_found = true; mac_found = true }
result_of (searching i m) = record { is_compliant = false; ip_found = i; mac_found = m }

-- `_match_ipguard_in_memory`
unfoldable pub match_ipguard : Baseline → Text → Text → List Text → Found
unfolding search_entries search_sources
match_ipguard baseline ip mac prefixes =
    result_of (search_sources ip (ipguard_mac mac) prefixes baseline false false)

abbrev entry_with_ip : Text → List Entry → Bool
entry_with_ip ip = any (λ e. column_eq e.ip_address ip)

-- `_match_ipguard_ip_only_in_memory`
unfoldable pub match_ip_only : Baseline → Text → Bool
unfolding any
match_ip_only [] ip = false
match_ip_only ((tag, es) ∷ sources) ip = entry_with_ip ip es || match_ip_only sources ip

-- `_match_ipguard_or_in_memory`
unfoldable pub match_or : Baseline → Text → Text → Bool
match_or baseline ip mac =
    let found = match_ipguard baseline ip mac [] in found.ip_found || found.mac_found
