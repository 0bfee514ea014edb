-- ===== src/Compliance/Check.antt =====
-- The judgement of an address pair: `check_compliance` for one, `batch_check_compliance` for many
-- over data that is loaded once. What the caches and settings return is a parameter.
pub mod Laws
use terminal_access_manager.Prelude.{
  ℕ, suc, ◌+◌, Bool, true, false, not, ◌&&◌, ◌||◌, Option, none, some, List, [], ◌∷◌, ◌++◌, map,
  if◌then◌else◌, Text, length, select, is_some,
}
use terminal_access_manager.Models.{
  Compliance, compliant, bypass, non_compliant, unknown, MatchType, compliance_eq,
}
use terminal_access_manager.Mac.{norm_mac_key}
use terminal_access_manager.Compliance.Whitelist
use terminal_access_manager.Compliance.Whitelist.{Match, match_whitelist}
use terminal_access_manager.Compliance.Ipguard.{
  Baseline, Found, match_ipguard, match_ip_only, match_or,
}
use terminal_access_manager.Compliance.Scope.{
  Scope, in_arp_scope, in_or_scope, extract_ipguard_mac_prefixes,
}
use terminal_access_manager.Compliance.Device.{Registry, effective_device_id, contains}

-- What the loaders return
pub record Loaded : Type 0 where
  pub whitelist : List Whitelist.Entry
  pub scopes : List Scope
  pub baseline : Baseline

pub data Source : Type 0 where
  whitelist_source ipguard_source : Source

pub record Verdict : Type 0 where
  pub compliance_status : Compliance
  pub matched_sources : List Source
  pub whitelisted : Bool
  pub wl_match_type : Option MatchType

abbrev pub type_of : Option Match → Option MatchType
type_of none = none
type_of (some m) = some m.match_type

abbrev pub comments_of : Option Match → Option Text
comments_of none = none
comments_of (some m) = m.comments

-- The final `if` of both methods: the whitelist comes first.
abbrev pub classify : Bool → Bool → Compliance
classify whitelisted ig_match =
    if whitelisted then bypass else if ig_match then compliant else non_compliant

module _ (d : Loaded) (ip mac : Text) where
  abbrev pub prefixes : List Text
  prefixes = extract_ipguard_mac_prefixes d.scopes

  -- The baseline test that the scopes choose
  unfoldable pub ipguard_match : Bool
  ipguard_match =
      if in_or_scope d.scopes ip mac
      then match_or d.baseline ip mac
      else if in_arp_scope d.scopes ip mac
      then match_ip_only d.baseline ip
      else (match_ipguard d.baseline ip mac prefixes).is_compliant

  unfoldable pub check_compliance : Verdict
  unfolding ipguard_match
  check_compliance =
      let wl = match_whitelist d.whitelist ip mac in
      record {
        compliance_status = classify (is_some wl) ipguard_match;
        matched_sources =
            (if is_some wl then whitelist_source ∷ [] else [])
            ++ (if ipguard_match then ipguard_source ∷ [] else []);
        whitelisted = is_some wl;
        wl_match_type = type_of wl;
      }

-- The registry, when device grouping is enabled
pub record Grouping : Type 0 where
  pub mac_to_device : Registry
  pub device_ids : List Text

-- An entry as the caller passes it in
pub record Entry : Type 0 where
  pub ip_address : Text
  pub mac_address : Text
  pub device_id : Option Text

-- An entry with the keys that the loop adds
pub record Judged : Type 0 where
  pub entry : Entry
  pub use_ip_only : Bool
  pub ip_found : Bool
  pub mac_found : Bool
  pub ig_match : Bool
  pub compliance_status : Compliance
  pub wl_match_type : Option MatchType
  pub wl_comments : Option Text

-- The signals of the three branches; each has the flags of the full search.
pub record Signals : Type 0 where
  pub ig_match : Bool
  pub use_ip_only : Bool
  pub ip_found : Bool
  pub mac_found : Bool

unfoldable pub signals : Loaded → Text → Text → Signals
signals d ip mac =
    let found = match_ipguard d.baseline ip mac (extract_ipguard_mac_prefixes d.scopes) in
    if in_or_scope d.scopes ip mac
    then record {
      ig_match = match_or d.baseline ip mac;
      use_ip_only = false;
      ip_found = found.ip_found;
      mac_found = found.mac_found;
    }
    else if in_arp_scope d.scopes ip mac
    then record {
      ig_match = match_ip_only d.baseline ip;
      use_ip_only = true;
      ip_found = found.ip_found;
      mac_found = found.mac_found;
    }
    else record {
      ig_match = found.is_compliant;
      use_ip_only = false;
      ip_found = found.ip_found;
      mac_found = found.mac_found;
    }

-- `if effective_device_id is not None: ig_match = effective_device_id in device_ids`
abbrev pub device_match : Option Text → List Text → Bool → Bool
device_match none ids per_nic_match = per_nic_match
device_match (some id) ids per_nic_match = contains ids id

-- The grouping override: the new device id and the new match
abbrev pub grouped : Option Grouping → Entry → Bool → Option Text × Bool
grouped none e per_nic_match = (e.device_id, per_nic_match)
grouped (some g) e per_nic_match =
    let id = effective_device_id e.device_id (norm_mac_key (some e.mac_address)) g.mac_to_device in
    (id, device_match id g.device_ids per_nic_match)

-- One turn of the loop
unfoldable pub judge : Loaded → Option Grouping → Entry → Judged
unfolding signals
judge d g e =
    let wl = match_whitelist d.whitelist e.ip_address e.mac_address in
    let s = signals d e.ip_address e.mac_address in
    let (id, ig) = grouped g e s.ig_match in
    record {
      entry = record e { device_id = id };
      use_ip_only = s.use_ip_only;
      ip_found = s.ip_found;
      mac_found = s.mac_found;
      ig_match = ig;
      compliance_status = classify (is_some wl) ig;
      wl_match_type = type_of wl;
      wl_comments = comments_of wl;
    }

-- `ComplianceCheckResult`, its lists under `details`
pub record CheckResult : Type 0 where
  pub total_checked : ℕ
  pub compliant_count : ℕ
  pub bypass_count : ℕ
  pub non_compliant_count : ℕ
  pub unknown_count : ℕ
  pub compliant_list : List Judged
  pub non_compliant_list : List Judged
  pub bypass_list : List Judged

pub record Lists : Type 0 where
  pub compliant_list : List Judged
  pub non_compliant_list : List Judged
  pub bypass_list : List Judged

abbrev no_lists : Lists
no_lists = record { compliant_list = []; non_compliant_list = []; bypass_list = [] }

-- `append` to the list of the status
abbrev file_under : Compliance → Judged → Lists → Lists
file_under bypass j l = record l { bypass_list = l.bypass_list ++ j ∷ [] }
file_under compliant j l = record l { compliant_list = l.compliant_list ++ j ∷ [] }
file_under _ j l = record l { non_compliant_list = l.non_compliant_list ++ j ∷ [] }

batch_loop : Loaded → Option Grouping → List Entry → Lists → Lists
batch_loop d g [] l = l
batch_loop d g (e ∷ es) l =
    let j = judge d g e in batch_loop d g es (file_under j.compliance_status j l)

unfoldable pub batch_check_compliance : Loaded → Option Grouping → List Entry → CheckResult
unfolding judge batch_loop
batch_check_compliance d g entries =
    let l = batch_loop d g entries no_lists in
    record {
      total_checked = length entries;
      compliant_count = length l.compliant_list;
      bypass_count = length l.bypass_list;
      non_compliant_count = length l.non_compliant_list;
      unknown_count = 0;
      compliant_list = l.compliant_list;
      non_compliant_list = l.non_compliant_list;
      bypass_list = l.bypass_list;
    }
