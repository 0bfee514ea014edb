-- ===== src/Tests/Rules.antt =====
-- The operations on rules at a table of two, and their theorems at it.
use terminal_access_manager.Prelude.Results.{ok, returned_or}
use terminal_access_manager.Prelude.{
  ◌≡◌, refl, true, false, none, some, [], ◌∷◌, codes, text_eq, strip_right, strip_left, split, join,
}
use terminal_access_manager.Exclusion.{single_ip, mac_prefix, validate_and_normalize}
use terminal_access_manager.Ipv4.{parse_ipv4, parse_octet, print_ipv4, print_octet}
use terminal_access_manager.Exclusion.Rules.{
  Rule, Database, Create, Update, Changed, create_rule, update_rule, toggle_rule, unchanged,
  same_condition,
}
use terminal_access_manager.Exclusion.Rules.Table.{IsRuleTable}
use terminal_access_manager.Exclusion.Rules.Reach.{
  Reach, here, next, creates, toggles, no_rules, Reach-IsRuleTable,
}
use terminal_access_manager.Tests.Samples.{world}

abbrev printers : Rule
printers = record {
  id = 1;
  condition = record {
    ip_pattern = none;
    ip_pattern_type = none;
    mac_address = some (codes "AA:BB:CC");
    mac_pattern_type = some mac_prefix;
  };
  comments = codes "printers";
  is_active = true;
  created_by = codes "admin";
}

abbrev gateway : Rule
gateway = record {
  id = 2;
  condition = record {
    ip_pattern = some (codes "10.0.0.1");
    ip_pattern_type = some single_ip;
    mac_address = none;
    mac_pattern_type = none;
  };
  comments = codes "gateway";
  is_active = false;
  created_by = codes "admin";
}

abbrev database : Database
database = record {
  rules = printers ∷ gateway ∷ [];
  next_id = 3;
  tables = record { terminals = []; rows = [] };
}

abbrev creation : Create
creation = record {
  ip_type = some single_ip;
  ip_value = some (codes " 10.0.0.2");
  mac_type = none;
  mac_value = none;
  comments = codes "camera ";
  unblock_blocked = false;
}

abbrev created : Changed
created = returned_or (unchanged database) (create_rule world creation (codes "admin") database)

creation_accepted : create_rule world creation (codes "admin") database ≡ ok created
unfolding create_rule validate_and_normalize strip_right strip_left parse_ipv4 split parse_octet
    text_eq same_condition print_ipv4 join print_octet
creation_accepted = refl

abbrev change : Update
change = record {
  ip_type = none;
  ip_value = some (some (codes "10.0.0.3"));
  mac_type = none;
  mac_value = none;
  comments = none;
  is_active = some (some true);
}

abbrev updated : Changed
updated = returned_or (unchanged database) (update_rule world 2 change database)

change_accepted : update_rule world 2 change database ≡ ok updated
unfolding update_rule validate_and_normalize strip_right strip_left parse_ipv4 split parse_octet
    text_eq same_condition print_ipv4 join print_octet
change_accepted = refl

-- A rule is created in a table without rules, and switched off.
abbrev empty : Database
empty = no_rules (record { terminals = []; rows = [] })

abbrev first : Changed
first = returned_or (unchanged empty) (create_rule world creation (codes "admin") empty)

first_accepted : create_rule world creation (codes "admin") empty ≡ ok first
unfolding create_rule validate_and_normalize strip_right strip_left parse_ipv4 split parse_octet
    text_eq same_condition print_ipv4 join print_octet
first_accepted = refl

first_reached : Reach empty (toggle_rule world 1 false first.database).database
first_reached =
    next (next here (creates world creation (codes "admin") empty first first_accepted))
      (toggles world 1 false first.database)

Reach-IsRuleTable_example : IsRuleTable (toggle_rule world 1 false first.database).database
Reach-IsRuleTable_example = Reach-IsRuleTable (record { terminals = []; rows = [] }) first_reached
