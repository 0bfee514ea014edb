-- ===== src/Tests/Samples.antt =====
-- Inputs that the tests share.
use terminal_access_manager.Prelude.{◌*◌, true, false, none, some, [], ◌∷◌, codes}
use terminal_access_manager.Models.{Terminal, minute, unblocked, compliant}
use terminal_access_manager.Compliance.Whitelist
use terminal_access_manager.Compliance.Whitelist.{single_ip}
use terminal_access_manager.Compliance.Ipguard
use terminal_access_manager.Compliance.Scope.{Scope, ip_cidr_any}
use terminal_access_manager.Compliance.Check.{Loaded, Entry, Grouping}
use terminal_access_manager.Compliance.Firewall.{DataSource, Binding, Appliance}
use terminal_access_manager.Compliance.Work.{Env, Call}
use terminal_access_manager.Exclusion.Purge.Unblocking.{World}

abbrev pub printer : Whitelist.Entry
printer = record {
  pattern_type = single_ip;
  ip_pattern = some (codes "10.0.0.9");
  mac_address = none;
  comments = some (codes "printer");
}

abbrev pub known_pc : Ipguard.Entry
known_pc = record { ip_address = some (codes "10.0.0.5"); mac_address = codes "aa-bb-cc-00-11-22" }

abbrev pub lab : Scope
lab = record { scope_type = ip_cidr_any; scope_value = codes "10.1.0.0/16" }

abbrev pub loaded : Loaded
loaded = record {
  whitelist = printer ∷ [];
  scopes = lab ∷ [];
  baseline = (codes "ipguard", known_pc ∷ []) ∷ [];
}

abbrev pub arp_to_firewall : Binding
arp_to_firewall = record { arp_source_tag = codes "arp1"; firewall_tag = codes "fw1" }

abbrev pub firewall : DataSource
firewall = record { tag = codes "fw1"; is_sangfor = true; enabled = true }

-- An appliance that does as it is told
abbrev pub obedient : Appliance
obedient = record {
  block_ip = λ tag ip. some (record { code = 0; blocked_count = 1 });
  unblock_ip = λ tag ip. some 0;
}

abbrev pub env : Env
env = record {
  now = 1000 * minute;
  cooldown_minutes = 10;
  block_time = codes "30d";
  loaded = loaded;
  grouping = none;
  bindings = arp_to_firewall ∷ [];
  sources = firewall ∷ [];
  appliance = obedient;
}

abbrev pub stranger : Terminal
stranger = record {
  id = 7;
  ip_address = codes "10.0.0.77";
  mac_address = codes "AA:BB:CC:00:11:77";
  mac_address_normalized = codes "AABBCC001177";
  status = unblocked;
  comments = [];
  timestamp = some minute;
  source_tag = some (codes "arp1");
  compliance_status = compliant;
  wl_match_type = none;
  firewall_tag = none;
  non_compliant_confirm_count = 0;
  compliant_confirm_count = 0;
  ip_changed_at = none;
  compliance_checked_at = none;
  compliant_checked_at = none;
  block_state = none;
  excluded_by_rule = false;
  non_compliant_type = none;
  device_id = none;
}

abbrev pub call : Call
call = record { ip_addr = codes "10.0.0.77"; mac_addr = codes "AA:BB:CC:00:11:77"; ig_match = none }

abbrev pub known_entry : Entry
known_entry = record {
  ip_address = codes "10.0.0.5";
  mac_address = codes "AA:BB:CC:00:11:22";
  device_id = none;
}

abbrev pub stranger_entry : Entry
stranger_entry = record {
  ip_address = codes "10.0.0.77";
  mac_address = codes "AA:BB:CC:00:11:77";
  device_id = some (codes "dev9");
}

abbrev pub devices : Grouping
devices = record {
  mac_to_device = (codes "AABBCC001177", codes "dev1") ∷ [];
  device_ids = codes "dev1" ∷ [];
}

abbrev pub world : World
world = record {
  now = 1000 * minute;
  bindings = arp_to_firewall ∷ [];
  sources = firewall ∷ [];
  appliance = obedient;
}
