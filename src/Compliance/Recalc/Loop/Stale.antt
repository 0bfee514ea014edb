-- ===== src/Compliance/Recalc/Loop/Stale.antt =====
-- A run of `recalculate_all_compliance` while the cache of the baselines is stale.
use terminal_access_manager.Prelude.{
  ℕ, ◌≡◌, refl, subst, Bool, true, false, not, ◌||◌, Option, none, some, List, [], ◌∷◌, any,
  any-append, arith,
}
use terminal_access_manager.Models.{Terminal, Blacklist, compliance_eq}
use terminal_access_manager.Exclusion.{Condition}
use terminal_access_manager.Compliance.Counts.{get}
use terminal_access_manager.Compliance.Work.{Env}
use terminal_access_manager.Compliance.Unblock.Quiet.{is_block}
use terminal_access_manager.Compliance.Apply.{is_non_compliant}
use terminal_access_manager.Compliance.Apply.Quiet.{apply-quiet}
use terminal_access_manager.Compliance.Apply.Stages.{compliance_eq_refl}
use terminal_access_manager.Compliance.Recalc.{Run, Facts, Decision, decide, decide_by, facts_of}
use terminal_access_manager.Compliance.Recalc.Loop.{
  Progress, applied, recalculate, turn_for, turns, batch_size, flush, close_batch, begun, done,
  recalculate_all_compliance,
}
use terminal_access_manager.Compliance.Recalc.Loop.Totals.{
  turn_cases, close_batch_cases, Finished, run-Finished,
}

-- A decision that keeps the status or makes it better
IsMild : Decision → Type 0
IsMild d =
    (compliance_eq d.terminal.compliance_status d.status || not (is_non_compliant d.status)) ≡ true

IsMild-decide_by :
    (run : Run) (f : Facts) (t : Terminal) (ts : List Terminal)
    → run.ipguard_cache_stale ≡ true
    → IsMild (decide_by run f t ts)
unfolding decide_by IsMild
IsMild-decide_by run f t ts stale = ground (arith, compliance_eq_refl t.compliance_status)

module _ (env : Env) (run : Run) (rules : List Condition)
    (stale : run.ipguard_cache_stale ≡ true) where
  IsMild-decide : (t : Terminal) (ts : List Terminal) → IsMild (decide run t ts)
  unfolding decide
  IsMild-decide t ts = IsMild-decide_by run (facts_of run t).1 (facts_of run t).0 ts stale

  quiet-recalculate :
      (t : Terminal) (p : Progress)
      → any is_block p.effects ≡ false
      → any is_block (recalculate env run rules t p).effects ≡ false
  unfolding recalculate IsMild
  quiet-recalculate t p h =
      let r = applied env run rules t p in
      let quiet : any is_block r.work.effects ≡ false =
        apply-quiet env _ _ _ p.rows (IsMild-decide t p.terminals) in
      ground (arith, any-append is_block p.effects r.work.effects)

  quiet-turn_for :
      (u : Option Terminal) (p : Progress)
      → any is_block p.effects ≡ false
      → any is_block (turn_for env run rules u p).effects ≡ false
  quiet-turn_for none p h = h
  quiet-turn_for (some t) p h =
      turn_cases env run rules (λ q. any is_block q.effects ≡ false) t p (λ k. h)
        (quiet-recalculate t p h)

  quiet-turns :
      (is : List ℕ) (left : ℕ) (p : Progress)
      → any is_block p.effects ≡ false
      → any is_block (turns env run rules is (left, p)).effects ≡ false
  unfolding turns flush
  quiet-turns [] left p h = h
  quiet-turns (i ∷ is) left p h =
      let q = turn_for env run rules (get i p.terminals) p in
      quiet-turns is (close_batch left q).0 (close_batch left q).1 (
        close_batch_cases (λ r. any is_block r.effects ≡ false) left q (λ k. k)
          (quiet-turn_for (get i p.terminals) p h))

-- A recalculation that finishes while the cache of the baselines is stale has asked no firewall
-- to block and has sent no event of a block or a downgrade.
pub run_stale-quiet :
    (locked : Bool) (env : Env) (run : Run) (rules : List Condition) (ts : List Terminal)
    (rows : List Blacklist) (n : ℕ) (p : Progress)
    → run.ipguard_cache_stale ≡ true
    → recalculate_all_compliance locked env run rules ts rows ≡ done n p
    → any is_block p.effects ≡ false
unfolding any
run_stale-quiet locked env run rules ts rows n p stale h =
    subst (Finished (λ m q. any is_block q.effects ≡ false)) h (
      run-Finished locked env run rules ts rows _
        (quiet-turns env run rules stale _ batch_size (begun ts rows) refl))
