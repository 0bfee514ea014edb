-- ===== src/Tests/Purges.antt =====
-- A rule at work on two terminals, and the theorems on purging at it.
use terminal_access_manager.Prelude.{
  ◌+◌, ◌≡◌, refl, true, false, none, some, List, [], ◌∷◌, map, any, not, ◌&&◌, select, length, all,
  codes,
}
use terminal_access_manager.Models.{Terminal, Blacklist, is_active_entry, blocked, minute}
use terminal_access_manager.Exclusion.{Condition, ip_range}
use terminal_access_manager.Exclusion.Purge.Unblocking.{unblock_blocked_terminals}
use terminal_access_manager.Exclusion.Purge.Tables.{
  Tables, mem_id, flagged_if, purge_matching, clear_stale_exclusion_flags,
}
use terminal_access_manager.Exclusion.Purge.Counts.{kept}
use terminal_access_manager.Exclusion.Purge.Deletions.{distinct_ids}
use terminal_access_manager.Exclusion.Purge.Result.{leaves, purge_matching_terminals}
use terminal_access_manager.Exclusion.Purge.Flags.{is_explained, flagged, clear_stale_lem}
use terminal_access_manager.Exclusion.Purge.Reports.{is_lifted, unblock-active}
use terminal_access_manager.Tests.Samples.{stranger, world}

abbrev rule : Condition
rule = record {
  ip_pattern = some (codes "10.0.0.70-80");
  ip_pattern_type = some ip_range;
  mac_address = none;
  mac_pattern_type = none;
}

abbrev barred : Terminal
barred = record stranger {
  id = 8;
  ip_address = codes "10.0.0.78";
  status = blocked;
  excluded_by_rule = true;
}

abbrev entry : Blacklist
entry = record {
  ip_address = some (codes "10.0.0.78");
  mac_address = none;
  mac_address_normalized = none;
  reason = codes "MAC";
  unblock_reason = none;
  blocked_at = minute;
  expires_at = none;
  source_tag = none;
  firewall_tag = some (codes "fw1");
  is_auto_blocked = true;
  auto_unblocked = false;
  unblocked_at = none;
  unflushed = none;
}

abbrev terminals : List Terminal
terminals = stranger ∷ barred ∷ []

abbrev rows : List Blacklist
rows = entry ∷ []

abbrev tables : Tables
tables = record { terminals = terminals; rows = rows }

terminals_distinct : distinct_ids terminals ≡ true
unfolding distinct_ids mem_id
terminals_distinct = refl

purge_matching_terminals_example :
    (purge_matching world rule true tables).tables.terminals
    ≡ map
        (λ t. flagged_if (kept world.now rows rule t) t)
        (select (λ t. not (leaves world rule tables true t)) terminals)
purge_matching_terminals_example =
    purge_matching_terminals world rule tables true terminals_distinct

clear_stale_example :
    let (after, cleared_flags) = clear_stale_exclusion_flags [] terminals in
    (all (is_explained []) after ≡ true)
    × (length (select flagged terminals) ≡ cleared_flags + length (select flagged after))
    × (clear_stale_exclusion_flags [] after ≡ (after, 0))
clear_stale_example = clear_stale_lem [] terminals

unblock-active_example :
    map is_active_entry (unblock_blocked_terminals world rows (barred ∷ [])).rows
    ≡ map (λ e. is_active_entry e && not (any (is_lifted world rows e) (barred ∷ []))) rows
unblock-active_example = unblock-active world rows (barred ∷ [])
