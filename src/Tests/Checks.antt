-- ===== src/Tests/Checks.antt =====
-- Witnesses for the compliance check and its batch.
use terminal_access_manager.Prelude.{
  ◌≡◌, refl, true, false, none, some, [], ◌∷◌, Text, codes, any, select, split, text_eq,
  if◌then◌else◌,
}
use terminal_access_manager.Ipv4.{parse_ipv4, parse_octet}
use terminal_access_manager.Mac.{ipguard_mac, norm_mac_key}
use terminal_access_manager.Compliance.Device.{effective_device_id}
use terminal_access_manager.Compliance.Whitelist.{match_entry, ip_matches_pattern, match_whitelist}
use terminal_access_manager.Compliance.Ipguard.{Baseline, same_ip, same_mac, match_ipguard}
use terminal_access_manager.Compliance.Ipguard.Reference.{all_entries, hit, match_ipguard_lem}
use terminal_access_manager.Compliance.Check.{Entry, Grouping, check_compliance, judge}
use terminal_access_manager.Compliance.Check.Laws.{judge-check_compliance, judge-same_device}
use terminal_access_manager.Tests.Samples.{loaded, known_pc, stranger_entry, devices}

abbrev pc_mac : Text
pc_mac = codes "AA:BB:CC:00:11:22"

abbrev pc_ip : Text
pc_ip = codes "10.0.0.5"

abbrev baseline : Baseline
baseline = (codes "ipguard", known_pc ∷ []) ∷ []

match_ipguard_example : match_ipguard baseline pc_ip pc_mac [] ≡ (
    if any (hit pc_ip (ipguard_mac pc_mac) []) (all_entries baseline)
    then record { is_compliant = true; ip_found = true; mac_found = true }
    else record {
      is_compliant = false;
      ip_found = any (same_ip pc_ip) (all_entries baseline);
      mac_found = any (same_mac (ipguard_mac pc_mac)) (all_entries baseline);
    })
match_ipguard_example = match_ipguard_lem baseline pc_ip pc_mac []

pc_is_known : (match_ipguard baseline pc_ip pc_mac []).is_compliant ≡ true
unfolding match_ipguard text_eq ipguard_mac
pc_is_known = refl

judge-check_compliance_example :
    ((judge loaded none
        (record { ip_address = pc_ip; mac_address = pc_mac; device_id = none })).compliance_status
      ≡ (check_compliance loaded pc_ip pc_mac).compliance_status)
    × ((judge loaded none
          (record { ip_address = pc_ip; mac_address = pc_mac; device_id = none })).wl_match_type
        ≡ (check_compliance loaded pc_ip pc_mac).wl_match_type)
judge-check_compliance_example = judge-check_compliance loaded pc_ip pc_mac none

-- The other interface of the stranger's device
abbrev sibling_entry : Entry
sibling_entry = record {
  ip_address = codes "10.0.0.78";
  mac_address = codes "AA:BB:CC:00:11:78";
  device_id = none;
}

abbrev paired : Grouping
paired = record devices {
  mac_to_device = (codes "AABBCC001178", codes "dev1") ∷ devices.mac_to_device;
}

sibling_device :
    effective_device_id none (norm_mac_key (some sibling_entry.mac_address)) paired.mac_to_device
    ≡ some (codes "dev1")
unfolding effective_device_id norm_mac_key select text_eq
sibling_device = refl

stranger_paired :
    effective_device_id stranger_entry.device_id
      (norm_mac_key (some stranger_entry.mac_address))
      paired.mac_to_device
    ≡ some (codes "dev1")
unfolding effective_device_id norm_mac_key select text_eq
stranger_paired = refl

judge-same_device_example :
    (judge loaded (some paired) stranger_entry).compliance_status
    ≡ (judge loaded (some paired) sibling_entry).compliance_status
unfolding match_entry ip_matches_pattern match_whitelist text_eq parse_ipv4 split parse_octet
judge-same_device_example =
    judge-same_device loaded paired stranger_entry sibling_entry (codes "dev1") stranger_paired
      sibling_device refl
