-- ===== src/Compliance/Apply/Quiet.antt =====
-- The calls of `_apply_compliance_result` that block nothing.
use terminal_access_manager.Prelude.{
  ◌≡◌, refl, ap, ◌∙◌, inl, inr, Bool, true, false, Bool-cases, not, ◌&&◌, ◌||◌, List, any,
  any-append, arith,
}
use terminal_access_manager.Models.{
  Terminal, Blacklist, blocked, Compliance, compliance_eq, status_eq,
}
use terminal_access_manager.Compliance.Unblock.{auto_unblock}
use terminal_access_manager.Compliance.Unblock.Laws.{Answered, is_let_go, auto_unblock_lem}
use terminal_access_manager.Compliance.Unblock.Quiet.{is_block, auto_unblock-quiet}
use terminal_access_manager.Compliance.Work.{Env, Work, Call}
use terminal_access_manager.Compliance.Apply.{
  Outcome, is_non_compliant, is_recovered, written, final_event, recover, on_change, no_change,
  clear_tag, finish, start, apply_compliance_result,
}
use terminal_access_manager.Compliance.Apply.Stages.{
  is_held, worked, on_change-stages, recover-stages, no_change_lem, clear_tag_lem, apply_held,
  apply_worked, worked_changed, worked_unchanged,
}

-- What a quiet stage keeps
record IsQuiet (before after : Work) : Type 0 where
  status : after.terminal.compliance_status ≡ before.terminal.compliance_status
  effects : any is_block after.effects ≡ any is_block before.effects

Answered-status :
    (b : Bool) (before after : Work)
    → Answered b before after
    → after.terminal.compliance_status ≡ before.terminal.compliance_status
Answered-status true before after f = f.compliance_status
Answered-status false before after k = ap (λ t. t.compliance_status) k.terminal

auto_unblock-IsQuiet :
    (env : Env) (c : Call) (new : Compliance) (w : Work) → IsQuiet w (auto_unblock env c new w)
auto_unblock-IsQuiet env c new w = record {
  status =
      Answered-status (is_let_go env c new w.terminal w.rows) w (auto_unblock env c new w)
        (auto_unblock_lem env c new w);
  effects = auto_unblock-quiet env c new w;
}

recover-IsQuiet :
    (env : Env) (c : Call) (new : Compliance) (w : Work) → IsQuiet w (recover env c new w)
recover-IsQuiet env c new w =
    rw recover-stages (elim (Bool-cases (status_eq w.terminal.status blocked && is_recovered new)) [
      | inl e ↦ rw e (auto_unblock-IsQuiet env c new w)
      | inr e ↦ rw e (elim (Bool-cases (is_recovered new)) [
        | inl f ↦ rw f (record { status = refl; effects = refl })
        | inr f ↦ rw f (record { status = refl; effects = refl })
      ])
    ])

on_change-IsQuiet :
    (env : Env) (c : Call) (old new : Compliance) (w : Work)
    → is_non_compliant new ≡ false
    → IsQuiet w (on_change env c old new w)
on_change-IsQuiet env c old new w up = rw on_change-stages (rw up (recover-IsQuiet env c new w))

no_change-IsQuiet : (env : Env) (w : Work) → IsQuiet w (no_change env w)
unfolding no_change
no_change-IsQuiet env w = record { status = (no_change_lem env w).1; effects = ground arith }

clear_tag-IsQuiet : (w : Work) → IsQuiet w (clear_tag w)
clear_tag-IsQuiet w = record { status = (clear_tag_lem w).1; effects = ground arith }

module _ (env : Env) (c : Call) (o : Outcome) (t : Terminal) (rows : List Blacklist) where
  abbrev begun : Work
  begun = start (written env c o t) rows

  begun-IsQuiet :
      (w : Work)
      → IsQuiet begun w
      → ((clear_tag w).terminal.compliance_status ≡ o.status)
        × (any is_block (clear_tag w).effects ≡ false)
  unfolding any
  begun-IsQuiet w q = let r = clear_tag-IsQuiet w in (r.status ∙ q.status, r.effects ∙ q.effects)

  -- A call that leaves the status alone, or that does not downgrade
  worked-quiet :
      (compliance_eq t.compliance_status o.status || not (is_non_compliant o.status)) ≡ true
      → ((worked env c o t rows).terminal.compliance_status ≡ o.status)
        × (any is_block (worked env c o t rows).effects ≡ false)
  worked-quiet h = elim (Bool-cases (compliance_eq t.compliance_status o.status)) [
    | inl e ↦
        rw (worked_unchanged env c o t rows e)
          (begun-IsQuiet (no_change env begun) (no_change-IsQuiet env begun))
    | inr e ↦
        let up : is_non_compliant o.status ≡ false = ground arith in
        rw (worked_changed env c o t rows e) (
          begun-IsQuiet (on_change env c t.compliance_status o.status begun)
            (on_change-IsQuiet env c t.compliance_status o.status begun up))
  ]

  finish-quiet :
      (old : Compliance) (w : Work)
      → any is_block w.effects ≡ false
      → (compliance_eq old w.terminal.compliance_status
          || not (is_non_compliant w.terminal.compliance_status))
        ≡ true
      → any is_block (finish old w).work.effects ≡ false
  unfolding finish any
  finish-quiet old w e h = elim (Bool-cases (compliance_eq w.terminal.compliance_status old)) [
    | inl f ↦ rw f e
    | inr f ↦
        rw f
          (ground (arith, any-append is_block w.effects (final_event w.terminal.compliance_status)))
  ]

  -- Such a call blocks nothing, and tells of no downgrade.
  pub apply-quiet :
      (compliance_eq t.compliance_status o.status || not (is_non_compliant o.status)) ≡ true
      → any is_block (apply_compliance_result env c o t rows).work.effects ≡ false
  unfolding any
  apply-quiet h = elim (Bool-cases (is_held env c o rows)) [
    | inl e ↦ rw (apply_held env c o t rows e) refl
    | inr e ↦
        let q = worked-quiet h in
        rw (apply_worked env c o t rows e)
          (finish-quiet t.compliance_status (worked env c o t rows) q.1 (rw q.0 h))
  ]
