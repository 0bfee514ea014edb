-- ===== src/Tests/Addresses.antt =====
-- Witnesses for MAC addresses and for the patterns of exclusion rules.
use terminal_access_manager.Prelude.{
  ◌≡◌, ◌+◌, refl, true, some, ◌&&◌, not, codes, is_empty, all, select, leb, ltb, text_eq,
  starts_with, arith,
}
use terminal_access_manager.Prelude.Results.{ok}
use terminal_access_manager.Ipv4.{print_ipv4, Network, block_size, print_network}
use terminal_access_manager.Ipv4.Networks.{IsNetwork}
use terminal_access_manager.IpRange.{range_pattern}
use terminal_access_manager.Mac.{normalize_mac, format_mac_hex, validate_mac, validate_mac_prefix}
use terminal_access_manager.Mac.Laws.{normalize_mac-format_mac_hex}
use terminal_access_manager.Exclusion.{
  cidr, ip_range, mac, mac_prefix, match_ip, match_mac, normalize_mac_condition,
}
use terminal_access_manager.Exclusion.Patterns.{
  match_ip-cidr, match_ip-ip_range, match_mac-normalize_mac, match_mac-normalize_mac_prefix,
}

normalize_mac-format_mac_hex_example :
    normalize_mac (format_mac_hex (codes "AABBCC001122")) ≡ codes "AABBCC001122"
normalize_mac-format_mac_hex_example =
    normalize_mac-format_mac_hex (codes "AABBCC001122") (unfold all in refl)

-- 10.0.0.0/24
abbrev office : Network
office = record { base = 167772160; prefix = 24 }

office-IsNetwork : IsNetwork office
office-IsNetwork = record { fits = omega arith; below = omega arith; clear = refl }

match_ip-cidr_example :
    match_ip (print_ipv4 167772169) (some (print_network office)) (some cidr)
    ≡ (leb 167772160 167772169 && ltb 167772169 (167772160 + block_size 24))
match_ip-cidr_example = match_ip-cidr 167772169 office (omega arith) office-IsNetwork

-- 10.0.0.5-20
match_ip-ip_range_example :
    match_ip (print_ipv4 167772169) (some (range_pattern 655360 5 20)) (some ip_range) ≡ true
match_ip-ip_range_example =
    match_ip-ip_range 167772169 655360 5 20 (omega arith) (omega arith) (omega arith) (omega arith)

stored_mac :
    normalize_mac_condition mac (codes "aa-bb-cc-00-11-22") ≡ ok (codes "AA:BB:CC:00:11:22", mac)
unfolding normalize_mac_condition validate_mac select format_mac_hex
stored_mac = refl

match_mac-normalize_mac_example :
    match_mac (codes "aabb.cc00.1122") (some (codes "AA:BB:CC:00:11:22")) (some mac) ≡ (
      not (is_empty (normalize_mac (codes "aabb.cc00.1122")))
      && text_eq
          (normalize_mac (codes "aabb.cc00.1122"))
          (normalize_mac (codes "aa-bb-cc-00-11-22")))
match_mac-normalize_mac_example =
    match_mac-normalize_mac (codes "aa-bb-cc-00-11-22") (codes "AA:BB:CC:00:11:22")
      (codes "aabb.cc00.1122") stored_mac

stored_mac_prefix :
    normalize_mac_condition mac_prefix (codes "aa-bb-cc") ≡ ok (codes "AA:BB:CC", mac_prefix)
unfolding normalize_mac_condition validate_mac_prefix select format_mac_hex
stored_mac_prefix = refl

match_mac-normalize_mac_prefix_example :
    match_mac (codes "aabb.cc00.1122") (some (codes "AA:BB:CC")) (some mac_prefix) ≡ (
      not (is_empty (normalize_mac (codes "aabb.cc00.1122")))
      && starts_with (normalize_mac (codes "aabb.cc00.1122")) (normalize_mac (codes "aa-bb-cc")))
match_mac-normalize_mac_prefix_example =
    match_mac-normalize_mac_prefix (codes "aa-bb-cc") (codes "AA:BB:CC") (codes "aabb.cc00.1122")
      stored_mac_prefix
