-- ===== src/Compliance/Apply/Stages.antt =====
-- `_apply_compliance_result` stage by stage, for proofs that keep the stages shut.
use terminal_access_manager.Prelude.{
  ◌≡◌, refl, Bool, true, false, not, ◌&&◌, none, List, if◌then◌else◌, arith,
}
use terminal_access_manager.Models.{
  Status, Terminal, Blacklist, blocked, Compliance, non_compliant, compliance_eq, status_eq,
}
use terminal_access_manager.Compliance.Entries.{recently_unblocked}
use terminal_access_manager.Compliance.Unblock.{auto_unblock}
use terminal_access_manager.Compliance.Block.{auto_block}
use terminal_access_manager.Compliance.Work.{Env, Work, Call, mac_key, cooldown}
use terminal_access_manager.Compliance.Apply.{
  Outcome, is_non_compliant, is_recovered, details_for, written, recover, on_change, no_change,
  clear_tag, finish, start, apply_compliance_result,
}

-- The test that holds a downgrade before anything is written
abbrev pub is_held : Env → Call → Outcome → List Blacklist → Bool
is_held env c o rows =
    is_non_compliant o.status && recently_unblocked env.now (cooldown env) (mac_key c) rows

-- The work of a call that is not held
abbrev pub worked : Env → Call → Outcome → Terminal → List Blacklist → Work
worked env c o t rows =
    let w = start (written env c o t) rows in
    clear_tag (
      if compliance_eq t.compliance_status o.status
      then no_change env w
      else on_change env c t.compliance_status o.status w)

pub apply-stages :
    (env : Env) (c : Call) (o : Outcome) (t : Terminal) (rows : List Blacklist)
    → apply_compliance_result env c o t rows ≡ (
        if is_held env c o rows
        then record {
          work = start t rows;
          status_changed = false;
          new_compliance = t.compliance_status;
        }
        else finish t.compliance_status (worked env c o t rows))
unfolding apply_compliance_result
apply-stages env c o t rows = refl

pub on_change-stages :
    (env : Env) (c : Call) (old new : Compliance) (w : Work)
    → on_change env c old new w ≡ (
        if is_non_compliant new
        then auto_block env c old (details_for env c new).block_reason (recover env c new w)
        else recover env c new w)
unfolding on_change
on_change-stages env c old new w = refl

-- A downgrade has nothing to recover.
pub recover-non_compliant : (env : Env) (c : Call) (w : Work) → recover env c non_compliant w ≡ w
unfolding recover
recover-non_compliant env c w = ground arith

pub recover-stages :
    (env : Env) (c : Call) (new : Compliance) (w : Work)
    → recover env c new w ≡ (
        if status_eq w.terminal.status blocked && is_recovered new
        then auto_unblock env c new w
        else if is_recovered new
        then record w { terminal = record w.terminal { block_state = none } }
        else w)
unfolding recover
recover-stages env c new w = refl

-- What `finish` returns: the state it was given, and whether the status differs from the old one.
pub finish_lem :
    (old : Compliance) (w : Work)
    → ((finish old w).work.terminal ≡ w.terminal)
      × ((finish old w).work.rows ≡ w.rows)
      × ((finish old w).work.unblocked ≡ w.unblocked)
      × ((finish old w).status_changed ≡ not (compliance_eq w.terminal.compliance_status old))
      × ((finish old w).new_compliance ≡ w.terminal.compliance_status)
unfolding finish
finish_lem old w = ground arith

-- `no_change` touches the firewall tag only.
pub no_change_lem :
    (env : Env) (w : Work)
    → ((no_change env w).terminal.status ≡ w.terminal.status)
      × ((no_change env w).terminal.compliance_status ≡ w.terminal.compliance_status)
      × ((no_change env w).terminal.block_state ≡ w.terminal.block_state)
      × ((no_change env w).rows ≡ w.rows)
      × ((no_change env w).unblocked ≡ w.unblocked)
unfolding no_change
no_change_lem env w = ground arith

pub clear_tag_lem :
    (w : Work)
    → ((clear_tag w).terminal.status ≡ w.terminal.status)
      × ((clear_tag w).terminal.compliance_status ≡ w.terminal.compliance_status)
      × ((clear_tag w).terminal.block_state ≡ w.terminal.block_state)
      × ((clear_tag w).rows ≡ w.rows)
      × ((clear_tag w).unblocked ≡ w.unblocked)
clear_tag_lem w = ground arith

pub compliance_eq_refl : (s : Compliance) → compliance_eq s s ≡ true
compliance_eq_refl s = ground arith

pub compliance_eq→eq : (a b : Compliance) → compliance_eq a b ≡ true → a ≡ b
compliance_eq→eq a b h = ground arith

pub status_eq→blocked : (s : Status) → status_eq s blocked ≡ true → s ≡ blocked
status_eq→blocked s h = ground arith

-- A held call reports no change and leaves everything as it was.
pub apply_held :
    (env : Env) (c : Call) (o : Outcome) (t : Terminal) (rows : List Blacklist)
    → is_held env c o rows ≡ true
    → apply_compliance_result env c o t rows
      ≡ record { work = start t rows; status_changed = false; new_compliance = t.compliance_status }
apply_held env c o t rows h = rw apply-stages (rw h refl)

pub apply_worked :
    (env : Env) (c : Call) (o : Outcome) (t : Terminal) (rows : List Blacklist)
    → is_held env c o rows ≡ false
    → apply_compliance_result env c o t rows ≡ finish t.compliance_status (worked env c o t rows)
apply_worked env c o t rows h = rw apply-stages (rw h refl)

pub worked_changed :
    (env : Env) (c : Call) (o : Outcome) (t : Terminal) (rows : List Blacklist)
    → compliance_eq t.compliance_status o.status ≡ false
    → worked env c o t rows
      ≡ clear_tag (on_change env c t.compliance_status o.status (start (written env c o t) rows))
worked_changed env c o t rows h = rw h refl

pub worked_unchanged :
    (env : Env) (c : Call) (o : Outcome) (t : Terminal) (rows : List Blacklist)
    → compliance_eq t.compliance_status o.status ≡ true
    → worked env c o t rows ≡ clear_tag (no_change env (start (written env c o t) rows))
worked_unchanged env c o t rows h = rw h refl
