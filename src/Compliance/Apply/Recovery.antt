-- ===== src/Compliance/Apply/Recovery.antt =====
-- A blocked terminal that complies again, across `_apply_compliance_result`.
use terminal_access_manager.Prelude.{◌≡◌, refl, Bool, true, false, ◌&&◌, none, List, ◌∙◌, ap, arith}
use terminal_access_manager.Models.{
  Terminal, Blacklist, blocked, unblocked, Compliance, compliance_eq, status_eq,
}
use terminal_access_manager.Compliance.Unblock.{unblock_targets, auto_unblock}
use terminal_access_manager.Compliance.Unblock.Laws.{is_let_go, Answered, auto_unblock_lem}
use terminal_access_manager.Compliance.Work.{Env, Work, Call}
use terminal_access_manager.Compliance.Apply.{
  Outcome, is_non_compliant, is_recovered, written, on_change, clear_tag, finish, start,
  apply_compliance_result,
}
use terminal_access_manager.Compliance.Apply.Stages.{
  apply_worked, worked_changed, on_change-stages, recover-stages, finish_lem,
}

-- Set free, and the flag says so
pub record SetFree (w : Work) : Type 0 where
  pub status : w.terminal.status ≡ unblocked
  pub firewall_tag : w.terminal.firewall_tag ≡ none
  pub block_state : w.terminal.block_state ≡ none
  pub flag : w.unblocked ≡ true

-- Blocked still, with the rows as they were
pub record StillBlocked (rows : List Blacklist) (w : Work) : Type 0 where
  pub status : w.terminal.status ≡ blocked
  pub same_rows : w.rows ≡ rows
  pub flag : w.unblocked ≡ false

abbrev pub Recovery : Bool → List Blacklist → Work → Type 0
Recovery true rows w = SetFree w
Recovery false rows w = StillBlocked rows w

Recovery-Answered :
    (b : Bool) (before after : Work)
    → before.terminal.status ≡ blocked
    → before.unblocked ≡ false
    → Answered b before after
    → Recovery b before.rows after
Recovery-Answered true before after s u f = record {
  status = f.status;
  firewall_tag = f.firewall_tag;
  block_state = f.block_state;
  flag = f.flag;
}
Recovery-Answered false before after s u k = record {
  status = ap (λ t. t.status) k.terminal ∙ s;
  same_rows = k.rows;
  flag = k.flag ∙ u;
}

recover_lem :
    (env : Env) (c : Call) (new : Compliance) (w : Work)
    → w.terminal.status ≡ blocked
    → w.unblocked ≡ false
    → Recovery (is_let_go env c new w.terminal w.rows) w.rows (auto_unblock env c new w)
recover_lem env c new w b u =
    Recovery-Answered (is_let_go env c new w.terminal w.rows) w (auto_unblock env c new w) b u
      (auto_unblock_lem env c new w)

recovered-not_non_compliant : (s : Compliance) → is_recovered s ≡ true → is_non_compliant s ≡ false
recovered-not_non_compliant s r = ground arith

Recovery-clear_tag :
    (b : Bool) (rows : List Blacklist) (w : Work)
    → Recovery b rows w
    → Recovery b rows (clear_tag w)
Recovery-clear_tag true rows w f = record {
  status = ground (arith, f.status);
  firewall_tag = ground (arith, f.firewall_tag);
  block_state = ground (arith, f.block_state);
  flag = ground (arith, f.flag);
}
Recovery-clear_tag false rows w k = record {
  status = ground (arith, k.status);
  same_rows = ground (arith, k.same_rows);
  flag = ground (arith, k.flag);
}

Recovery-finish :
    (b : Bool) (rows : List Blacklist) (old : Compliance) (w : Work)
    → Recovery b rows w
    → Recovery b rows (finish old w).work
Recovery-finish true rows old w f =
    let (terminal, same_rows, flag, changed, new) = finish_lem old w in
    record {
      status = ap (λ t. t.status) terminal ∙ f.status;
      firewall_tag = ap (λ t. t.firewall_tag) terminal ∙ f.firewall_tag;
      block_state = ap (λ t. t.block_state) terminal ∙ f.block_state;
      flag = flag ∙ f.flag;
    }
Recovery-finish false rows old w k =
    let (terminal, same_rows, flag, changed, new) = finish_lem old w in
    record {
      status = ap (λ t. t.status) terminal ∙ k.status;
      same_rows = same_rows ∙ k.same_rows;
      flag = flag ∙ k.flag;
    }

on_change_recovers :
    (env : Env) (c : Call) (old new : Compliance) (w : Work)
    → w.terminal.status ≡ blocked
    → is_recovered new ≡ true
    → w.unblocked ≡ false
    → Recovery (is_let_go env c new w.terminal w.rows) w.rows (on_change env c old new w)
on_change_recovers env c old new w b r u =
    let test : (status_eq w.terminal.status blocked && is_recovered new) ≡ true = rw (b, r) refl in
    rw on_change-stages (
      rw (recovered-not_non_compliant new r)
        (rw recover-stages (rw test (recover_lem env c new w b u))))

-- When a blocked terminal is told to turn compliant or bypass and its status was another, the
-- call sets it free (unblocked, no firewall tag, no block state, flag set) if no cooldown holds
-- the unblock and a firewall to ask lifts the block or there is none to ask, and otherwise leaves
-- it blocked with the blacklist rows as they were and the flag unset.
pub apply_recovers :
    (env : Env) (c : Call) (o : Outcome) (t : Terminal) (rows : List Blacklist)
    → t.status ≡ blocked
    → is_recovered o.status ≡ true
    → compliance_eq t.compliance_status o.status ≡ false
    → Recovery (is_let_go env c o.status t rows) rows (apply_compliance_result env c o t rows).work
unfolding unblock_targets
apply_recovers env c o t rows b r changed =
    let old = t.compliance_status in
    let w = start (written env c o t) rows in
    let after = on_change env c old o.status w in
    let down = recovered-not_non_compliant o.status r in
    let go = is_let_go env c o.status t rows in
    rw (apply_worked env c o t rows (rw down refl)) (
      rw (worked_changed env c o t rows changed) (
        Recovery-finish go rows old (clear_tag after)
          (Recovery-clear_tag go rows after (on_change_recovers env c old o.status w b r refl))))
