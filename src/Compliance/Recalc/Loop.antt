-- ===== src/Compliance/Recalc/Loop.antt =====
-- The loop of `recalculate_all_compliance` over the terminals, and its counters. The rows of the table
-- blacklist that a turn closes are flushed at the end of a batch of 100, or by an earlier update of a
-- row; until then the queries of the next turns find them active.
pub mod Totals
pub mod Stale
use terminal_access_manager.Prelude.{
  ℕ, ◌+◌, Bool, true, false, not, ◌&&◌, Option, none, some, List, [], ◌∷◌, ◌++◌, map, if◌then◌else◌,
  ◌-◌, leb, is_some, is_empty, length, ◌==◌,
}
use terminal_access_manager.Models.{
  Terminal, Blacklist, flushed, Compliance, compliant, bypass, non_compliant, compliance_eq,
  blocked, status_eq, is_offline,
}
use terminal_access_manager.Exclusion.{Condition, first_match}
use terminal_access_manager.Compliance.Ipguard.{Baseline}
use terminal_access_manager.Compliance.Counts.{put, get}
use terminal_access_manager.Compliance.Work.{Env, Effect}
use terminal_access_manager.Compliance.Apply.{Outcome, Applied, apply_compliance_result}
use terminal_access_manager.Compliance.Recalc.{Run, Decision, Facts, facts_of, decide}

pub record Counters : Type 0 where
  pub bypass_count : ℕ
  pub compliant_count : ℕ
  pub non_compliant_count : ℕ
  pub unchanged_count : ℕ
  pub unblocked_count : ℕ
  pub corrected_count : ℕ
  pub stale_skip_count : ℕ
  pub offline_skip_count : ℕ
  pub excluded_skip_count : ℕ

abbrev pub zeros : Counters
zeros = record {
  bypass_count = 0;
  compliant_count = 0;
  non_compliant_count = 0;
  unchanged_count = 0;
  unblocked_count = 0;
  corrected_count = 0;
  stale_skip_count = 0;
  offline_skip_count = 0;
  excluded_skip_count = 0;
}

pub record Progress : Type 0 where
  pub terminals : List Terminal
  pub rows : List Blacklist
  pub effects : List Effect
  pub counters : Counters

abbrev one_if : Bool → ℕ
one_if b = if b then 1 else 0

abbrev count_change : Compliance → Counters → Counters
count_change bypass k = record k { bypass_count = k.bypass_count + 1 }
count_change compliant k = record k { compliant_count = k.compliant_count + 1 }
count_change _ k = record k { non_compliant_count = k.non_compliant_count + 1 }

-- The counters after `_apply_compliance_result`: the status decided on names the counter.
abbrev pub count_result : Compliance → Compliance → Bool → Applied → Counters → Counters
count_result old new stale_held r k =
    let noted = record k {
      corrected_count =
          k.corrected_count
          + one_if (compliance_eq old compliant && compliance_eq new non_compliant);
      stale_skip_count = k.stale_skip_count + one_if stale_held;
    } in
    if r.status_changed
    then count_change new
        (record noted { unblocked_count = k.unblocked_count + one_if r.work.unblocked })
    else record noted { unchanged_count = k.unchanged_count + 1 }

abbrev pub outcome_of : Decision → Outcome
outcome_of d = record {
  status = d.status;
  wl_match_type = d.wl_match_type;
  wl_comments = d.wl_comments;
}

-- `BATCH_SIZE`
abbrev pub batch_size : ℕ
batch_size = 100

unfoldable pub flush : Progress → Progress
unfolding flushed
flush p = record p { rows = map flushed p.rows }

-- A turn ends; the last one of a batch flushes.
unfoldable pub close_batch : ℕ → Progress → ℕ × Progress
unfolding flush
close_batch left p = if leb left 1 then (batch_size, flush p) else (left - 1, p)

module _ (env : Env) (run : Run) (rules : List Condition) where
  -- The call of `_apply_compliance_result` in a turn
  abbrev pub applied : Terminal → Progress → Applied
  applied t p =
      let d = decide run t p.terminals in
      let f = (facts_of run t).1 in
      apply_compliance_result env
        (record { ip_addr = t.ip_address; mac_addr = t.mac_address; ig_match = some f.ig_match })
        (outcome_of d) d.terminal p.rows

  -- A terminal that is not skipped
  unfoldable pub recalculate : Terminal → Progress → Progress
  unfolding put
  recalculate t p =
      let d = decide run t p.terminals in
      let r = applied t p in
      record {
        terminals = put r.work.terminal d.table;
        rows = r.work.rows;
        effects = p.effects ++ r.work.effects;
        counters = count_result t.compliance_status d.status d.stale_held r p.counters;
      }

  abbrev pub is_offline_skip : Terminal → Bool
  is_offline_skip t = is_offline t.block_state && not (status_eq t.status blocked)

  abbrev pub count_offline : Counters → Counters
  count_offline k = record k { offline_skip_count = k.offline_skip_count + 1 }

  abbrev pub count_excluded : Counters → Counters
  count_excluded k = record k { excluded_skip_count = k.excluded_skip_count + 1 }

  -- One turn, with its two ways to skip
  unfoldable pub turn : Terminal → Progress → Progress
  unfolding recalculate
  turn t p =
      if is_offline_skip t
      then record p { counters = count_offline p.counters }
      else if is_some (first_match rules t.ip_address t.mac_address)
      then record p { counters = count_excluded p.counters }
      else recalculate t p

  abbrev pub turn_for : Option Terminal → Progress → Progress
  turn_for none p = p
  turn_for (some t) p = turn t p

  -- The turns over the objects that were loaded, which are found by their ids. The number is of the
  -- turns left in the batch.
  unfoldable pub turns : List ℕ → ℕ × Progress → Progress
  unfolding turn get close_batch flush
  turns [] (left, p) = flush p
  turns (id ∷ ids) (left, p) = turns ids (close_batch left (turn_for (get id p.terminals) p))

abbrev pub begun : List Terminal → List Blacklist → Progress
begun ts rows = record { terminals = ts; rows = rows; effects = []; counters = zeros }

-- What the run returns: `skipped`, with its reason, or the counts
pub data Recalculated : Type 0 where
  locked_out no_ipguard_data nothing_to_do : Recalculated
  done : (total : ℕ) → Progress → Recalculated

abbrev pub done_or : ℕ × Progress → Recalculated → ℕ × Progress
done_or other (done n p) = (n, p)
done_or other _ = other

abbrev pub count_entries : Baseline → ℕ
count_entries [] = 0
count_entries ((tag, es) ∷ sources) = length es + count_entries sources

-- `recalculate_all_compliance`, where `locked` says whether the lock was acquired
unfoldable pub recalculate_all_compliance :
    Bool → Env → Run → List Condition → List Terminal → List Blacklist → Recalculated
unfolding turns
recalculate_all_compliance locked env run rules ts rows =
    if not locked
    then locked_out
    else if count_entries run.loaded.baseline == 0
    then no_ipguard_data
    else if is_empty ts
    then nothing_to_do
    else done (length ts) (turns env run rules (map (λ t. t.id) ts) (batch_size, begun ts rows))
