-- ===== src/Tests/Sweeps.antt =====
-- Runs of the automatic unblock, and its theorems at them.
use terminal_access_manager.Prelude.{
  ◌≡◌, refl, ◌*◌, true, false, none, some, List, [], ◌∷◌, map, any, select, split, text_eq, Text,
  codes,
}
use terminal_access_manager.Models.{Terminal, Blacklist, blocked, minute, non_compliant}
use terminal_access_manager.Ipv4.{parse_ipv4, parse_octet, parse_network, parse_prefix, in_network}
use terminal_access_manager.Mac.{ipguard_mac}
use terminal_access_manager.Compliance.Whitelist.{match_entry, ip_matches_pattern}
use terminal_access_manager.Compliance.Ipguard.{match_ipguard}
use terminal_access_manager.Compliance.Scope.{in_or_scope, in_arp_scope}
use terminal_access_manager.Compliance.Sweep.{
  Pair, Sweep, released, Job, raised, finished, in_group, decide, auto_unblock_compliant,
}
use terminal_access_manager.Compliance.Sweep.Closed.{judged_row, auto_unblock-judged_row}
use terminal_access_manager.Compliance.Sweep.Address.{decide-address}
use terminal_access_manager.Tests.Samples.{env, stranger}

-- A terminal of the baseline that is blocked by mistake
abbrev pub pc : Terminal
pc = record stranger {
  ip_address = codes "10.0.0.5";
  mac_address = codes "AA:BB:CC:00:11:22";
  mac_address_normalized = codes "AABBCC001122";
  status = blocked;
  compliance_status = non_compliant;
  firewall_tag = some (codes "fw1");
}

-- Its row on a firewall
abbrev pub row_on : Text → Blacklist
row_on tag = record {
  ip_address = some (codes "10.0.0.5");
  mac_address = some (codes "AA:BB:CC:00:11:22");
  mac_address_normalized = some (codes "AABBCC001122");
  reason = codes "MAC";
  unblock_reason = none;
  blocked_at = minute;
  expires_at = some (5000 * minute);
  source_tag = none;
  firewall_tag = some tag;
  is_auto_blocked = true;
  auto_unblocked = false;
  unblocked_at = none;
  unflushed = none;
}

-- One firewall that answers, and one that is not configured
abbrev rows : List Blacklist
rows = row_on (codes "fw1") ∷ row_on (codes "fw2") ∷ []

abbrev pair : Pair
pair = (codes "AABBCC001122", codes "10.0.0.5")

abbrev sweep_or : Sweep → Job → Sweep
sweep_or s (raised r) = s
sweep_or s (finished u) = u

abbrev left : Sweep
left =
    sweep_or
      (record { rows = []; terminals = []; requests = []; unblocked_count = 9; skipped_count = 9 })
      (auto_unblock_compliant env [] rows (pc ∷ []))

partly_left :
    (left.unblocked_count ≡ 0)
    × (left.skipped_count ≡ 1)
    × (map (λ e. e.auto_unblocked) left.rows ≡ true ∷ false ∷ [])
unfolding auto_unblock_compliant text_eq match_entry ip_matches_pattern parse_ipv4 split parse_octet
    parse_network parse_prefix in_network match_ipguard ipguard_mac
partly_left = (refl, refl, refl)

left-finished : auto_unblock_compliant env [] rows (pc ∷ []) ≡ finished left
unfolding auto_unblock_compliant text_eq match_entry ip_matches_pattern parse_ipv4 split parse_octet
    parse_network parse_prefix in_network match_ipguard ipguard_mac
left-finished = refl

auto_unblock-judged_row_example : left.rows ≡ map (judged_row env [] rows (pc ∷ [])) rows
auto_unblock-judged_row_example = auto_unblock-judged_row env [] rows (pc ∷ []) left left-finished

pair-released :
    decide env [] rows (pc ∷ []) pair
    ≡ released (some pc) (codes "10.0.0.5") (codes "AA:BB:CC:00:11:22")
unfolding decide in_or_scope in_arp_scope text_eq match_entry ip_matches_pattern parse_ipv4 split
    parse_octet parse_network parse_prefix in_network match_ipguard ipguard_mac
pair-released = refl

decide-address_example : codes "10.0.0.5" ≡ pair.1
unfolding any in_group text_eq select
decide-address_example =
    decide-address env [] rows (pc ∷ []) pair (some pc) (codes "10.0.0.5")
      (codes "AA:BB:CC:00:11:22") refl pair-released
