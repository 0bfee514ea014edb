-- ===== src/Compliance/Recalc.antt =====
-- `recalculate_all_compliance` of compliance_service.py: what one turn of its loop decides for a
-- terminal. The tables and caches that it loads, and the settings, are arguments.
pub mod Loop
pub mod Laws
pub mod Rounds
use terminal_access_manager.Prelude.{
  ℕ, ◌+◌, ◌*◌, Bool, true, false, not, ◌&&◌, ◌||◌, Option, none, some, List, [], ◌∷◌, leb, ltb,
  if◌then◌else◌, Text, is_empty, is_some, text_eq,
}
use terminal_access_manager.Models.{
  Time, second, minute, Terminal, MatchType, Compliance, compliant, bypass, non_compliant, unknown,
  compliance_eq, same_key, is_offline,
}
use terminal_access_manager.Mac.{norm_mac_key}
use terminal_access_manager.Compliance.Whitelist.{Match, match_whitelist}
use terminal_access_manager.Compliance.Ipguard.{match_ipguard, match_ip_only}
use terminal_access_manager.Compliance.Scope.{
  in_arp_scope, in_or_scope, extract_ipguard_mac_prefixes,
}
use terminal_access_manager.Compliance.Device.{effective_device_id, contains}
use terminal_access_manager.Compliance.Check.{Loaded, Grouping, type_of, comments_of}
use terminal_access_manager.Compliance.Counts.{
  mac_non_compliant_total, reset_mac_non_compliant_counts, without_count, put,
}
use terminal_access_manager.Compliance.Settings.{
  Config, confirm_threshold, compliant_downgrade_threshold, ipguard_absence_threshold,
  ip_grace_minutes, confirm_min_interval_seconds, new_terminal_grace_minutes,
  compliant_grace_minutes, whitelist_miss_threshold,
}

-- What holds for the whole run
pub record Run : Type 0 where
  pub config : Config
  pub now : Time
  pub loaded : Loaded
  pub grouping : Option Grouping
  pub ipguard_cache_stale : Bool

-- What the caches say of one terminal
pub record Facts : Type 0 where
  pub whitelisted : Option Match
  pub use_ip_only : Bool
  pub ig_match : Bool
  pub ip_found : Bool
  pub mac_found : Bool

unfoldable pub nic_facts : Loaded → Text → Text → Facts
nic_facts d ip mac =
    let found = match_ipguard d.baseline ip mac (extract_ipguard_mac_prefixes d.scopes) in
    let use_ip_only = in_arp_scope d.scopes ip mac in
    record {
      whitelisted = match_whitelist d.whitelist ip mac;
      use_ip_only = use_ip_only;
      ig_match =
          if in_or_scope d.scopes ip mac
          then found.ip_found || found.mac_found
          else if use_ip_only
          then match_ip_only d.baseline ip
          else found.is_compliant;
      ip_found = found.ip_found;
      mac_found = found.mac_found;
    }

-- The stored device id is healed when a registry is there.
abbrev healed : Bool → Option Text → Terminal → Terminal
healed registry_empty id t =
    if not registry_empty && not (same_key t.device_id id) then record t { device_id = id } else t

abbrev device_facts : Option Text → List Text → Facts → Facts
device_facts none ids f = f
device_facts (some id) ids f =
    let present = contains ids id in
    record f { ig_match = present; ip_found = present; mac_found = present }

abbrev grouped_facts : Option Grouping → Terminal → Facts → Terminal × Facts
grouped_facts none t f = (t, f)
grouped_facts (some g) t f =
    let id = effective_device_id t.device_id (norm_mac_key (some t.mac_address)) g.mac_to_device in
    (healed (is_empty g.mac_to_device) id t, device_facts id g.device_ids f)

-- The terminal with its device id, and the facts with the override of its device
unfoldable pub facts_of : Run → Terminal → Terminal × Facts
unfolding nic_facts
facts_of run t = grouped_facts run.grouping t (nic_facts run.loaded t.ip_address t.mac_address)

-- `moment + length >= now`, false for an absent moment
abbrev pub within : Time → Option Time → Time → Bool
within now none length = false
within now (some moment) length = leb now (moment + length)

-- `now - moment < length`
abbrev pub younger : Time → Option Time → Time → Bool
younger now none length = false
younger now (some moment) length = ltb now (moment + length)

unfoldable pub in_ip_grace_period : Run → Terminal → Bool
in_ip_grace_period run t =
    not (compliance_eq t.compliance_status bypass)
    && within run.now t.ip_changed_at (ip_grace_minutes run.config * minute)

abbrev pub total_absence : Bool → Bool → Bool → Bool
total_absence use_ip_only ip_found mac_found =
    (not use_ip_only && (not ip_found && not mac_found)) || (use_ip_only && not ip_found)

unfoldable pub downgrade_threshold : Config → Terminal → Facts → ℕ
downgrade_threshold config t f =
    if total_absence f.use_ip_only f.ip_found f.mac_found && not (is_offline t.block_state)
    then ipguard_absence_threshold config
    else if compliance_eq t.compliance_status compliant
    then compliant_downgrade_threshold config
    else confirm_threshold config

-- The three guards in front of the count
unfoldable pub guard_hold : Run → Terminal → Bool
guard_hold run t =
    (compliance_eq t.compliance_status unknown
      && younger run.now t.timestamp (new_terminal_grace_minutes run.config * minute))
    || ((compliance_eq t.compliance_status compliant
          && younger run.now t.compliant_checked_at (compliant_grace_minutes run.config * minute))
        || younger run.now t.compliance_checked_at
            (confirm_min_interval_seconds run.config * second))

-- What a turn decides: the terminal and the other rows as it leaves them, and what is applied
pub record Decision : Type 0 where
  pub terminal : Terminal
  pub table : List Terminal
  pub status : Compliance
  pub wl_match_type : Option MatchType
  pub wl_comments : Option Text
  pub stale_held : Bool

abbrev decided : Terminal → List Terminal → Compliance → Decision
decided t ts status = record {
  terminal = t;
  table = put t ts;
  status = status;
  wl_match_type = none;
  wl_comments = none;
  stale_held = false;
}

-- The count of the device is compared with a threshold; a confirmed downgrade resets it.
unfoldable pub count_and_compare : ℕ → Terminal → List Terminal → Decision
unfolding put mac_non_compliant_total reset_mac_non_compliant_counts
count_and_compare threshold t ts =
    let key = norm_mac_key (some t.mac_address) in
    let table = put t ts in
    if leb threshold (mac_non_compliant_total key table)
    then decided (without_count t) (reset_mac_non_compliant_counts key table) non_compliant
    else decided t ts t.compliance_status

abbrev pub missed : Terminal → Terminal
missed t = record t { non_compliant_confirm_count = t.non_compliant_confirm_count + 1 }

-- A miss with its time
abbrev pub missed_at : Time → Terminal → Terminal
missed_at now t = record (missed t) {
  compliant_confirm_count = 0;
  compliance_checked_at = some now;
}

-- `bypass`, and the whitelist does not match now
unfoldable pub whitelist_miss : Run → Terminal → List Terminal → Decision
unfolding count_and_compare
whitelist_miss run t ts = count_and_compare (whitelist_miss_threshold run.config) (missed t) ts

-- Any other status but `non_compliant`
unfoldable pub confirm_downgrade : Run → Facts → Terminal → List Terminal → Decision
unfolding count_and_compare guard_hold downgrade_threshold
confirm_downgrade run f t ts =
    if guard_hold run t
    then decided t ts t.compliance_status
    else count_and_compare (downgrade_threshold run.config t f) (missed_at run.now t) ts

-- The check says non-compliant.
unfoldable pub miss : Run → Facts → Terminal → List Terminal → Decision
unfolding whitelist_miss confirm_downgrade
miss run f t ts = elim t.compliance_status [
  | bypass ↦ whitelist_miss run t ts
  | non_compliant ↦ decided (record t { compliant_confirm_count = 0 }) ts non_compliant
  | _ ↦ confirm_downgrade run f t ts
]

abbrev pub without_counts : Terminal → Terminal
without_counts t = record t { compliant_confirm_count = 0; non_compliant_confirm_count = 0 }

-- The branches, for a terminal with its facts
unfoldable pub decide_by : Run → Facts → Terminal → List Terminal → Decision
unfolding miss in_ip_grace_period
decide_by run f t ts =
    let grace = in_ip_grace_period run t in
    if is_some f.whitelisted
    then record (decided (without_counts t) ts bypass) {
      wl_match_type = type_of f.whitelisted;
      wl_comments = comments_of f.whitelisted;
    }
    else if not grace && f.ig_match
    then decided (without_counts t) ts compliant
    else if f.use_ip_only && (not f.ig_match && f.mac_found)
    then decided t ts t.compliance_status
    else if grace
    then decided t ts t.compliance_status
    else if run.ipguard_cache_stale
    then record (decided t ts t.compliance_status) { stale_held = true }
    else miss run f t ts

unfoldable pub decide : Run → Terminal → List Terminal → Decision
unfolding facts_of decide_by
decide run t ts = let (healed_terminal, f) = facts_of run t in decide_by run f healed_terminal ts
