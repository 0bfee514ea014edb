-- ===== src/Tests/Recalcs.antt =====
-- Runs of the recalculation and of the first check, and their theorems at them.
use terminal_access_manager.Prelude.{
  ℕ, ◌*◌, ◌≡◌, refl, true, false, none, some, List, [], ◌∷◌, map, any, text_eq_iff, all,
  if◌then◌else◌, text_eq, select, codes, arith,
}
use terminal_access_manager.Models.{
  minute, Terminal, Blacklist, is_active_entry, bypass, compliant, non_compliant, unknown,
}
use terminal_access_manager.Mac.{norm_mac_key}
use terminal_access_manager.Compliance.Counts.{of_mac, mac_non_compliant_total}
use terminal_access_manager.Compliance.Settings.{
  Config, confirm_threshold, compliant_downgrade_threshold, ipguard_absence_threshold,
  cooldown_minutes, ip_grace_minutes, confirm_min_interval_seconds, compliant_grace_minutes,
  whitelist_miss_threshold, new_terminal_grace_minutes, ipguard_stale_threshold_minutes,
  BaselineRow, is_ipguard_sync_ready,
}
use terminal_access_manager.Compliance.Settings.Bounds.{Within, settings_bounds}
use terminal_access_manager.Compliance.Firewall.{block_on_firewall}
use terminal_access_manager.Compliance.Entries.{
  Block, is_holder, attach_active_blacklist, recently_unblocked, active_firewall_tags,
}
use terminal_access_manager.Compliance.Entries.Unique.{count, IsUnique}
use terminal_access_manager.Compliance.Unblock.{mark_closed}
use terminal_access_manager.Compliance.Unblock.Quiet.{is_block}
use terminal_access_manager.Compliance.Apply.{Outcome, apply_compliance_result}
use terminal_access_manager.Compliance.Recalc.{Run, Facts, in_ip_grace_period, decide_by}
use terminal_access_manager.Compliance.Recalc.Laws.{
  mac_key, is_confirmed, decide_by_status, decide_by_reset,
}
use terminal_access_manager.Compliance.Recalc.Rounds.{Round, rounds, is_miss, rounds_lem}
use terminal_access_manager.Compliance.Recalc.Loop.{
  Progress, begun, done, done_or, recalculate_all_compliance,
}
use terminal_access_manager.Compliance.Recalc.Loop.Totals.{total, run-total, run-IsUnique}
use terminal_access_manager.Compliance.Recalc.Loop.Stale.{run_stale-quiet}
use terminal_access_manager.Compliance.Initial.{
  Discovery, initial_guard, initial_threshold, initial_miss, apply_initial_compliance_result,
}
use terminal_access_manager.Compliance.Initial.Laws.{is_first_confirmed, apply_initial_blocks}
use terminal_access_manager.Tests.Sweeps.{pc, row_on}
use terminal_access_manager.Tests.Samples.{env, stranger, loaded, call}

abbrev defaults : Config
defaults = λ key. none

abbrev run : Run
run = record {
  config = defaults;
  now = 1000 * minute;
  loaded = loaded;
  grouping = none;
  ipguard_cache_stale = false;
}

abbrev absent : Facts
absent = record {
  whitelisted = none;
  use_ip_only = false;
  ig_match = false;
  ip_found = false;
  mac_found = false;
}

abbrev guest : Terminal
guest = record stranger { compliance_status = bypass }

-- Six recalculations with the default threshold
abbrev six : List Round
six =
    (run, absent)
    ∷ (run, absent)
    ∷ (run, absent)
    ∷ (run, absent)
    ∷ (run, absent)
    ∷ (run, absent)
    ∷ []

six_misses : all (is_miss 6) six ≡ true
unfolding all whitelist_miss_threshold
six_misses = refl

guest_keyed : of_mac (norm_mac_key (some guest.mac_address)) guest ≡ true
unfolding norm_mac_key text_eq select
guest_keyed = refl

rounds_lem_example : (rounds six guest).compliance_status ≡ non_compliant
rounds_lem_example =
    rounds_lem 6 six guest six_misses refl guest_keyed refl (omega arith) (omega arith)

decide_by_status_example :
    (decide_by run absent stranger (stranger ∷ [])).status
    ≡ (if is_confirmed run absent stranger (stranger ∷ []) then non_compliant else compliant)
unfolding in_ip_grace_period
decide_by_status_example = decide_by_status run absent stranger (stranger ∷ [])

-- The sixth miss in a row
abbrev missing : Terminal
missing = record guest { non_compliant_confirm_count = 5 }

missing_downgraded : (decide_by run absent missing (missing ∷ [])).status ≡ non_compliant
unfolding decide_by mac_non_compliant_total norm_mac_key text_eq select whitelist_miss_threshold
missing_downgraded = refl

decide_by_reset_example :
    mac_non_compliant_total (mac_key missing) (decide_by run absent missing (missing ∷ [])).table
    ≡ 0
decide_by_reset_example = decide_by_reset run absent missing (missing ∷ []) refl missing_downgraded

abbrev finished : ℕ × Progress
finished =
    done_or (0, begun [] []) (recalculate_all_compliance true env run [] (stranger ∷ guest ∷ []) [])

finished_done :
    recalculate_all_compliance true env run [] (stranger ∷ guest ∷ []) []
    ≡ done finished.0 finished.1
unfolding recalculate_all_compliance
finished_done = refl

run-total_example : (finished.0 ≡ 2) × (total finished.1.counters ≡ finished.0)
run-total_example =
    run-total true env run [] (stranger ∷ guest ∷ []) [] finished.0 finished.1 finished_done

-- A terminal of the baseline, blocked on two firewalls
abbrev jailed : List Blacklist
jailed = row_on (codes "fw1") ∷ row_on (codes "fw2") ∷ []

jailed-IsUnique : IsUnique jailed
unfolding count is_holder
jailed-IsUnique = record {
  at_most_one = λ i f. ground (arith, text_eq_iff (codes "fw1") f, text_eq_iff (codes "fw2") f);
}

abbrev freed : ℕ × Progress
freed =
    done_or (0, begun [] [])
      (recalculate_all_compliance true env run [] (pc ∷ stranger ∷ []) jailed)

freed_done :
    recalculate_all_compliance true env run [] (pc ∷ stranger ∷ []) jailed ≡ done freed.0 freed.1
unfolding recalculate_all_compliance
freed_done = refl

run-IsUnique_example : IsUnique freed.1.rows
run-IsUnique_example =
    run-IsUnique true env run [] (pc ∷ stranger ∷ []) jailed freed.0 freed.1 jailed-IsUnique
      freed_done

abbrev again : Block
again = record {
  mac_address = some (codes "AA:BB:CC:00:11:77");
  mac_norm = some (codes "AABBCC001177");
  reason = codes "MAC";
  source_tag = none;
  expires_at = 9000 * minute;
}

-- A block of an address whose row was closed in the same batch has no active row.
reused_row_closed :
    map is_active_entry (
      attach_active_blacklist minute
        (codes "10.0.0.5")
        (codes "fw1")
        again
        (mark_closed minute [] (row_on (codes "fw1")) ∷ []))
    ≡ false ∷ []
unfolding attach_active_blacklist text_eq
reused_row_closed = refl

abbrev stale : Run
stale = record run { ipguard_cache_stale = true }

abbrev stalled : ℕ × Progress
stalled =
    done_or (0, begun [] [])
      (recalculate_all_compliance true env stale [] (stranger ∷ guest ∷ []) [])

stalled_done :
    recalculate_all_compliance true env stale [] (stranger ∷ guest ∷ []) []
    ≡ done stalled.0 stalled.1
unfolding recalculate_all_compliance
stalled_done = refl

run_stale-quiet_example : any is_block stalled.1.effects ≡ false
run_stale-quiet_example =
    run_stale-quiet true env stale [] (stranger ∷ guest ∷ []) [] stalled.0 stalled.1 refl
      stalled_done

abbrev synced : BaselineRow
synced = record {
  enabled = true;
  last_sync_at = some (995 * minute);
  last_sync_status = some (codes "success");
}

abbrev discovery : Discovery
discovery = record {
  config = defaults;
  baselines = synced ∷ [];
  ip_found = true;
  mac_found = false;
  use_ip_only = false;
}

abbrev newcomer : Terminal
newcomer = record stranger { compliance_status = unknown; non_compliant_confirm_count = 1 }

abbrev verdict : Outcome
verdict = record { status = non_compliant; wl_match_type = none; wl_comments = none }

newcomer_blocked :
    any is_block
      (apply_initial_compliance_result env discovery call verdict newcomer
        (newcomer ∷ [])
        []).applied.work.effects
    ≡ true
unfolding apply_initial_compliance_result apply_compliance_result is_ipguard_sync_ready any text_eq
    select initial_guard initial_threshold mac_non_compliant_total norm_mac_key initial_miss
    recently_unblocked active_firewall_tags block_on_firewall new_terminal_grace_minutes
    confirm_threshold
newcomer_blocked = refl

apply_initial_blocks_example : is_first_confirmed env discovery call newcomer (newcomer ∷ []) ≡ true
apply_initial_blocks_example =
    apply_initial_blocks env discovery call verdict newcomer (newcomer ∷ []) [] newcomer_blocked

abbrev lavish : Config
lavish = λ key. some (codes "9999")

settings_bounds_example :
    Within 1 10 (confirm_threshold lavish)
    × Within 2 20 (compliant_downgrade_threshold lavish)
    × Within 2 200 (ipguard_absence_threshold lavish)
    × Within 5 60 (ipguard_stale_threshold_minutes lavish)
    × Within 1 60 (cooldown_minutes lavish)
    × Within 1 60 (ip_grace_minutes lavish)
    × Within 30 3600 (confirm_min_interval_seconds lavish)
    × Within 1 60 (new_terminal_grace_minutes lavish)
    × Within 1 60 (compliant_grace_minutes lavish)
    × Within 2 20 (whitelist_miss_threshold lavish)
settings_bounds_example = settings_bounds lavish
