-- ===== src/Compliance/Apply/Rows.antt =====
-- The blacklist table across `_apply_compliance_result`.
use terminal_access_manager.Prelude.{inl, inr, ◌&&◌, List, Bool-cases, sym, subst}
use terminal_access_manager.Models.{
  Terminal, Blacklist, blocked, Compliance, compliance_eq, status_eq,
}
use terminal_access_manager.Compliance.Entries.Unique.{IsUnique}
use terminal_access_manager.Compliance.Unblock.Laws.{auto_unblock-IsUnique}
use terminal_access_manager.Compliance.Block.Laws.{auto_block-IsUnique}
use terminal_access_manager.Compliance.Work.{Env, Work, Call}
use terminal_access_manager.Compliance.Apply.{
  Outcome, is_non_compliant, is_recovered, written, recover, on_change, no_change, clear_tag,
  finish, start, apply_compliance_result,
}
use terminal_access_manager.Compliance.Apply.Stages.{
  is_held, worked, apply-stages, on_change-stages, recover-stages, finish_lem, no_change_lem,
  clear_tag_lem, worked_changed, worked_unchanged,
}

recover-IsUnique :
    (env : Env) (c : Call) (new : Compliance) (w : Work)
    → IsUnique w.rows
    → IsUnique (recover env c new w).rows
recover-IsUnique env c new w v =
    rw recover-stages (elim (Bool-cases (status_eq w.terminal.status blocked && is_recovered new)) [
      | inl e ↦ rw e (auto_unblock-IsUnique env c new w v)
      | inr e ↦ rw e (elim (Bool-cases (is_recovered new)) [ inl f ↦ rw f v | inr f ↦ rw f v ])
    ])

on_change-IsUnique :
    (env : Env) (c : Call) (old new : Compliance) (w : Work)
    → IsUnique w.rows
    → IsUnique (on_change env c old new w).rows
on_change-IsUnique env c old new w v =
    rw on_change-stages (elim (Bool-cases (is_non_compliant new)) [
      | inl e ↦ rw e (auto_block-IsUnique env c old _ _ (recover-IsUnique env c new w v))
      | inr e ↦ rw e (recover-IsUnique env c new w v)
    ])

clear_tag-IsUnique : (w : Work) → IsUnique w.rows → IsUnique (clear_tag w).rows
clear_tag-IsUnique w v = subst IsUnique (sym (clear_tag_lem w).3) v

no_change-IsUnique : (env : Env) (w : Work) → IsUnique w.rows → IsUnique (no_change env w).rows
no_change-IsUnique env w v = subst IsUnique (sym (no_change_lem env w).3) v

finish-IsUnique :
    (old : Compliance) (w : Work) → IsUnique w.rows → IsUnique (finish old w).work.rows
finish-IsUnique old w v = subst IsUnique (sym (finish_lem old w).1) v

worked-IsUnique :
    (env : Env) (c : Call) (o : Outcome) (t : Terminal) (rows : List Blacklist)
    → IsUnique rows
    → IsUnique (worked env c o t rows).rows
worked-IsUnique env c o t rows v =
    let w = start (written env c o t) rows in
    elim (Bool-cases (compliance_eq t.compliance_status o.status)) [
      | inl e ↦
          rw (worked_unchanged env c o t rows e)
            (clear_tag-IsUnique (no_change env w) (no_change-IsUnique env w v))
      | inr e ↦ rw (worked_changed env c o t rows e) (
          clear_tag-IsUnique (on_change env c t.compliance_status o.status w)
            (on_change-IsUnique env c t.compliance_status o.status w v))
    ]

-- Given rows with at most one active one for each address on each firewall, applying any result,
-- whatever the firewalls answer, keeps them so.
pub apply-IsUnique :
    (env : Env) (c : Call) (o : Outcome) (t : Terminal) (rows : List Blacklist)
    → IsUnique rows
    → IsUnique (apply_compliance_result env c o t rows).work.rows
apply-IsUnique env c o t rows v = rw apply-stages (elim (Bool-cases (is_held env c o rows)) [
  | inl h ↦ rw h v
  | inr go ↦ rw go (
      finish-IsUnique t.compliance_status (worked env c o t rows)
        (worked-IsUnique env c o t rows v))
])
