-- ===== src/Exclusion/Purge/Tables.antt =====
-- `purge_matching` and `clear_stale_exclusion_flags` on the tables of terminals and entries.
use terminal_access_manager.Prelude.{
  ℕ, ◌-◌, Bool, true, false, not, ◌&&◌, Option, none, some, List, [], ◌∷◌, ◌++◌, map, ◌==◌,
  if◌then◌else◌, Text, any, select, length,
}
use terminal_access_manager.Models.{Terminal, Blacklist}
use terminal_access_manager.Exclusion.{Condition, matches_any}
use terminal_access_manager.Exclusion.Purge.{Impact, Evaluation, evaluate}
use terminal_access_manager.Exclusion.Purge.Unblocking.{
  World, Report, Unblocking, requested_report, unblock_blocked_terminals,
}

pub record Tables : Type 0 where
  pub terminals : List Terminal
  pub rows : List Blacklist

-- The tables that `purge_matching` leaves, what it returns, and what it sends out
pub record Purged : Type 0 where
  pub tables : Tables
  pub impact : Impact
  pub unblock : Option Report
  pub requests : List (Text × Text)
  pub unblocked_events : List (Text × Text)

unfoldable pub mem_id : ℕ → List ℕ → Bool
unfolding any
mem_id id ids = any (λ i. i == id) ids

-- The DELETE and the UPDATE statements
unfoldable pub delete_terminals : List ℕ → List Terminal → List Terminal
unfolding mem_id select
delete_terminals ids ts = select (λ t. not (mem_id t.id ids)) ts

abbrev pub flagged_if : Bool → Terminal → Terminal
flagged_if b t = if b then record t { excluded_by_rule = true } else t

unfoldable pub flag_terminals : List ℕ → List Terminal → List Terminal
unfolding mem_id
flag_terminals ids ts = map (λ t. flagged_if (mem_id t.id ids) t) ts

abbrev pub settled_tables : List ℕ → List ℕ → List Terminal → List Terminal
settled_tables ids retained ts = flag_terminals retained (delete_terminals ids ts)

-- The branch `if blocked_terminals`; without a terminal set free the ids stay as they are, as the
-- filter and the subtraction then change nothing.
abbrev with_unblocking : Tables → Evaluation → Unblocking → Purged
with_unblocking db v u =
    let ids = v.terminal_ids ++ u.unblocked_ids in
    let retained = select (λ id. not (mem_id id u.unblocked_ids)) v.retained_ids in
    record {
      tables = record { terminals = settled_tables ids retained db.terminals; rows = u.rows };
      impact = record v.impact { retained = v.impact.retained - length u.unblocked_ids };
      unblock = some u.report;
      requests = u.requests;
      unblocked_events = u.unblocked_pairs;
    }

abbrev without_unblocking : Tables → Evaluation → Option Report → Purged
without_unblocking db v report = record {
  tables = record {
    terminals = settled_tables v.terminal_ids v.retained_ids db.terminals;
    rows = db.rows;
  };
  impact = v.impact;
  unblock = report;
  requests = [];
  unblocked_events = [];
}

abbrev pub after_evaluation : World → Bool → Tables → Evaluation → List Terminal → Purged
after_evaluation world false db v ts = without_unblocking db v none
after_evaluation world true db v [] = without_unblocking db v (some requested_report)
after_evaluation world true db v (t ∷ ts) =
    with_unblocking db v (unblock_blocked_terminals world db.rows (t ∷ ts))

-- `purge_matching`
unfoldable pub purge_matching : World → Condition → Bool → Tables → Purged
unfolding delete_terminals flag_terminals evaluate unblock_blocked_terminals
purge_matching world rule unblock_blocked db =
    let v = evaluate world.now db.rows rule db.terminals in
    after_evaluation world unblock_blocked db v v.blocked_terminals

-- The turn of `clear_stale_exclusion_flags` for one terminal
abbrev pub is_stale : List Condition → Terminal → Bool
is_stale rules t = t.excluded_by_rule && not (matches_any rules t.ip_address t.mac_address)

abbrev pub unflagged_if : Bool → Terminal → Terminal
unflagged_if b t = if b then record t { excluded_by_rule = false } else t

-- The terminals afterwards, and the number of flags cleared
unfoldable pub clear_stale_exclusion_flags : List Condition → List Terminal → List Terminal × ℕ
unfolding select matches_any
clear_stale_exclusion_flags rules ts =
    (map (λ t. unflagged_if (is_stale rules t) t) ts, length (select (is_stale rules) ts))
