-- ===== src/Compliance/Initial.antt =====
-- `apply_initial_compliance_result` of compliance_service.py: the result of the check of a terminal
-- that was just discovered. One reading of the clock serves the whole call.
pub mod Laws
use terminal_access_manager.Prelude.{
  ℕ, ◌+◌, ◌*◌, Bool, true, false, not, ◌&&◌, ◌||◌, Option, none, some, List, [], ◌∷◌, ltb,
  if◌then◌else◌,
}
use terminal_access_manager.Models.{
  minute, second, Terminal, Blacklist, blocked, status_eq, Compliance, compliant, bypass,
  non_compliant, unknown, is_offline,
}
use terminal_access_manager.Compliance.Counts.{
  mac_non_compliant_total, reset_mac_non_compliant_counts, without_count, put,
}
use terminal_access_manager.Compliance.Settings.{
  Config, confirm_threshold, ipguard_absence_threshold, ip_grace_minutes,
  confirm_min_interval_seconds, new_terminal_grace_minutes, BaselineRow, is_ipguard_sync_ready,
}
use terminal_access_manager.Compliance.Work.{Env, Call, mac_key}
use terminal_access_manager.Compliance.Apply.{Outcome, Applied, start, apply_compliance_result}
use terminal_access_manager.Compliance.Recalc.{within, younger, total_absence, missed_at}

-- The arguments and readings of a call besides those of `_apply_compliance_result`
pub record Discovery : Type 0 where
  pub config : Config
  pub baselines : List BaselineRow
  pub ip_found : Bool
  pub mac_found : Bool
  pub use_ip_only : Bool

-- What a call leaves, with the rows of the table terminals
pub record Discovered : Type 0 where
  pub applied : Applied
  pub table : List Terminal

abbrev pub hold : Terminal → List Terminal → List Blacklist → Discovered
hold t ts rows = record {
  applied = record {
    work = start t rows;
    status_changed = false;
    new_compliance = t.compliance_status;
  };
  table = put t ts;
}

-- The guards in front of the count, in their order
unfoldable pub initial_guard : Env → Discovery → Terminal → Bool
unfolding is_ipguard_sync_ready
initial_guard env d t =
    within env.now t.ip_changed_at (ip_grace_minutes d.config * minute)
    || (is_offline t.block_state && not (status_eq t.status blocked))
    || not (is_ipguard_sync_ready d.config env.now d.baselines)
    || within env.now t.timestamp (new_terminal_grace_minutes d.config * minute)
    || younger env.now t.compliance_checked_at (confirm_min_interval_seconds d.config * second)
    || (d.use_ip_only && (not d.ip_found && d.mac_found))

unfoldable pub initial_threshold : Discovery → Terminal → ℕ
initial_threshold d t =
    if total_absence d.use_ip_only d.ip_found d.mac_found && not (is_offline t.block_state)
    then ipguard_absence_threshold d.config
    else confirm_threshold d.config

abbrev pub applying : Env → Call → Outcome → Terminal → List Terminal → List Blacklist → Discovered
applying env c o t ts rows =
    let r = apply_compliance_result env c o t rows in
    record { applied = r; table = put r.work.terminal ts }

-- The branch of `non_compliant`
unfoldable pub initial_miss :
    Env → Discovery → Call → Outcome → Terminal → List Terminal → List Blacklist → Discovered
unfolding initial_guard initial_threshold put mac_non_compliant_total reset_mac_non_compliant_counts
initial_miss env d c o t ts rows =
    let counted = missed_at env.now t in
    let table = put counted ts in
    if initial_guard env d t
    then hold t ts rows
    else if ltb (mac_non_compliant_total (mac_key c) table) (initial_threshold d t)
    then hold counted ts rows
    else applying env c o (without_count counted) (reset_mac_non_compliant_counts (mac_key c) table)
        rows

unfoldable pub apply_initial_compliance_result :
    Env → Discovery → Call → Outcome → Terminal → List Terminal → List Blacklist → Discovered
unfolding initial_miss
apply_initial_compliance_result env d c o t ts rows = elim o.status [
  | non_compliant ↦ initial_miss env d c o t ts rows
  | unknown ↦ applying env c o t ts rows
  | _ ↦ applying env c o (without_count t) ts rows
]
