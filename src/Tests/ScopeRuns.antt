-- ===== src/Tests/ScopeRuns.antt =====
-- The operations on scopes at a table of one, and their theorems at it.
use terminal_access_manager.Prelude.Results.{ok, returned_or}
use terminal_access_manager.Prelude.{
  ◌≡◌, refl, true, false, none, some, [], ◌∷◌, Text, codes, strip_right, strip_left, contains_char,
  split, text_eq,
}
use terminal_access_manager.Ipv4.{parse_network, parse_octet, parse_prefix}
use terminal_access_manager.Compliance.Scope.{ip_cidr, mac_prefix_any, in_arp_scope}
use terminal_access_manager.Scopes.{
  ScopeRow, Database, Create, Update, validate_scope_value, create_scope, update_scope,
  toggle_scope,
}
use terminal_access_manager.Scopes.Reach.{
  Reach, here, next, creates, toggles, no_scopes, Reach-IsAccepted,
}
use terminal_access_manager.Scopes.Stored.{IsAccepted}

abbrev lab : ScopeRow
lab = record {
  id = 1;
  scope_type = ip_cidr;
  scope_value = codes "10.1.0.0/16";
  description = none;
  is_active = some true;
  created_by = codes "admin";
}

abbrev database : Database
database = record { scopes = lab ∷ []; next_id = 2 }

abbrev creation : Create
creation = record {
  scope_type = mac_prefix_any;
  scope_value = codes "aa:bb:cc";
  description = none;
}

abbrev created : Database
created = returned_or database (create_scope creation (codes "admin") database)

creation_accepted : create_scope creation (codes "admin") database ≡ ok created
unfolding create_scope strip_right strip_left split
creation_accepted = refl

abbrev change : Update
change = record {
  scope_type = none;
  scope_value = some (some (codes "10.2.0.0/16"));
  description = none;
  is_active = none;
}

abbrev updated : Database
updated = returned_or database (update_scope 1 change database)

change_accepted : update_scope 1 change database ≡ ok updated
unfolding update_scope strip_right strip_left contains_char split parse_network parse_octet text_eq
    parse_prefix
change_accepted = refl

-- A scope is created in the empty table, and switched off.
abbrev first : Database
first = returned_or no_scopes (create_scope creation (codes "admin") no_scopes)

first_accepted : create_scope creation (codes "admin") no_scopes ≡ ok first
unfolding create_scope strip_right strip_left split
first_accepted = refl

first_reached : Reach no_scopes (toggle_scope 1 first)
first_reached =
    next (next here (creates creation (codes "admin") no_scopes first first_accepted))
      (toggles 1 first)

Reach-IsAccepted_example : IsAccepted (toggle_scope 1 first)
Reach-IsAccepted_example = Reach-IsAccepted first_reached

abbrev padded : Text
padded = codes " 10.1.0.0/16"

-- A value with a leading blank is accepted, and matches nothing.
padded_accepted : validate_scope_value ip_cidr padded ≡ ok tt
unfolding validate_scope_value strip_right strip_left contains_char split parse_network parse_octet
    text_eq parse_prefix
padded_accepted = refl

padded_unmatched :
    in_arp_scope (record { scope_type = ip_cidr; scope_value = padded } ∷ []) (codes "10.1.0.1") []
    ≡ false
unfolding in_arp_scope parse_network split parse_octet
padded_unmatched = refl
