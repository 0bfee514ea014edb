-- ===== src/Compliance/Reasons.antt =====
-- The reasons that are stored with a block or an unblock: the breakdown at the head of
-- `_apply_compliance_result`, and `_build_unblock_reason`.
use terminal_access_manager.Prelude.{
  Bool, true, false, not, ◌&&◌, Option, none, some, List, Text, codes, if◌then◌else◌,
}
use terminal_access_manager.Models.{MatchType, ip, mac, both}
use terminal_access_manager.Compliance.Ipguard.{Baseline, match_ipguard}
use terminal_access_manager.Compliance.Scope.{
  in_arp_scope, in_or_scope, extract_ipguard_mac_prefixes,
}
use terminal_access_manager.Compliance.Check.{Loaded}

-- `block_reason` and `non_compliant_type`
pub record Details : Type 0 where
  pub block_reason : Text
  pub non_compliant_type : Option MatchType

abbrev pub plain_details : Details
plain_details = record { block_reason = codes "自动封锁：不合规"; non_compliant_type = none }

abbrev details_of : (ip_found mac_found : Bool) → Details
details_of false false = record {
  block_reason = codes "IP 和 MAC 都不合规";
  non_compliant_type = some both;
}
details_of false true = record {
  block_reason = codes "IP 不合规，MAC 合规";
  non_compliant_type = some ip;
}
details_of true false = record {
  block_reason = codes "MAC 不合规，IP 合规";
  non_compliant_type = some mac;
}
details_of true true = plain_details

-- The breakdown for a terminal that becomes non-compliant
unfoldable pub block_details : Loaded → Text → Text → Details
block_details d ip_addr mac_addr =
    let found = match_ipguard d.baseline ip_addr mac_addr (extract_ipguard_mac_prefixes d.scopes) in
    if in_arp_scope d.scopes ip_addr mac_addr && not (in_or_scope d.scopes ip_addr mac_addr)
    then record { block_reason = codes "IP 不合规"; non_compliant_type = some ip }
    else details_of found.ip_found found.mac_found

abbrev unblock_text : (ip_found mac_found : Bool) → Text
unblock_text true true = codes "IP 和 MAC 都合规"
unblock_text true false = codes "IP 合规，MAC 不合规"
unblock_text false true = codes "MAC 合规，IP 不合规"
unblock_text false false = codes "合规解封"

-- `_build_unblock_reason`
unfoldable pub build_unblock_reason :
    (wl_match use_ip_only use_or_match : Bool) → Baseline → Text → Text → List Text → Text
build_unblock_reason wl_match use_ip_only use_or_match baseline ip_addr mac_addr prefixes =
    let found = match_ipguard baseline ip_addr mac_addr prefixes in
    if wl_match
    then codes "加入白名单"
    else if use_ip_only && not use_or_match
    then codes "IP 合规"
    else unblock_text found.ip_found found.mac_found
