-- ===== src/Compliance/Apply/States.antt =====
-- The states that `_apply_compliance_result` can leave a terminal in.
use terminal_access_manager.Prelude.{
  ◌≡◌, refl, ◌⊎◌, inl, inr, not, true, false, some, List, Bool-cases, sym, subst, ◌∙◌, arith,
}
use terminal_access_manager.Models.{
  Terminal, Blacklist, blocked, unblocked, no_firewall, Compliance, non_compliant, compliance_eq,
}
use terminal_access_manager.Compliance.Entries.{recently_unblocked}
use terminal_access_manager.Compliance.Block.Laws.{
  Ending, facts, unbound, covered, held, newly_blocked, rolled_back, retry_failed,
  auto_block-Ending,
}
use terminal_access_manager.Compliance.Work.{Env, Work, Call, mac_key, cooldown}
use terminal_access_manager.Compliance.Apply.{
  Outcome, written, on_change, no_change, clear_tag, finish, start, apply_compliance_result,
}
use terminal_access_manager.Compliance.Apply.Stages.{
  is_held, worked, on_change-stages, recover-non_compliant, finish_lem, no_change_lem,
  clear_tag_lem, compliance_eq_refl, compliance_eq→eq, apply_held, apply_worked, worked_changed,
  worked_unchanged,
}

-- A terminal that became non-compliant: blocked, or without a firewall to block it
abbrev pub IsContained : Terminal → Type 0
IsContained t = (t.status ≡ blocked) ⊎ ((t.block_state ≡ some no_firewall) × (t.status ≡ unblocked))

module _ (env : Env) (c : Call) (old : Compliance) (w : Work)
    (fresh : recently_unblocked env.now (cooldown env) (mac_key c) w.rows ≡ false)
    (differs : compliance_eq old non_compliant ≡ false) where
  -- Where a downgrade ends
  downgraded :
      (after : Work)
      → Ending (facts env c old w) old w after
      → IsContained after.terminal ⊎ (after.terminal.compliance_status ≡ old)
  downgraded after (unbound m b k a s r) = inl (inr (k, s))
  downgraded after (covered m b s a k r) = inl (inl s)
  downgraded after (held m h a r) = ground arith
  downgraded after (newly_blocked m h k s a b) = inl (inl s)
  downgraded after (rolled_back m h k g a b s r) = inr a
  downgraded after (retry_failed m h k g a b s r) = ground arith

  on_change_downgrade :
      IsContained (on_change env c old non_compliant w).terminal
      ⊎ ((on_change env c old non_compliant w).terminal.compliance_status ≡ old)
  on_change_downgrade =
      rw on_change-stages
        (rw recover-non_compliant (downgraded _ (auto_block-Ending env c old _ w)))

IsContained-clear_tag : (w : Work) → IsContained w.terminal → IsContained (clear_tag w).terminal
IsContained-clear_tag w h = ground (arith, clear_tag_lem w)

-- The status that a call leaves is the one that it reports, and the report of a change is true.
finish-changed :
    (old : Compliance) (w : Work)
    → (finish old w).status_changed ≡ true
    → compliance_eq w.terminal.compliance_status old ≡ false
finish-changed old w h = ground (arith, finish_lem old w)

module _ (env : Env) (c : Call) (o : Outcome) (t : Terminal) (rows : List Blacklist) where
  abbrev old_status : Compliance
  old_status = t.compliance_status

  worked_status_unchanged :
      compliance_eq old_status o.status ≡ true
      → (worked env c o t rows).terminal.compliance_status ≡ old_status
  worked_status_unchanged e = rw (worked_unchanged env c o t rows e) (
      (clear_tag_lem (no_change env (start (written env c o t) rows))).1
      ∙ (no_change_lem env (start (written env c o t) rows)).1
      ∙ sym (compliance_eq→eq old_status o.status e))

  worked_contains :
      o.status ≡ non_compliant
      → is_held env c o rows ≡ false
      → compliance_eq (worked env c o t rows).terminal.compliance_status old_status ≡ false
      → IsContained (worked env c o t rows).terminal
  worked_contains down go changed =
      let w = start (written env c o t) rows in
      elim (Bool-cases (compliance_eq old_status o.status)) [
        | inl e ↦ ground (arith, worked_status_unchanged e, compliance_eq_refl old_status)
        | inr e ↦
            let after = on_change env c old_status o.status w in
            let ends =
              subst
                (λ s.
                  IsContained (on_change env c old_status s w).terminal
                  ⊎ ((on_change env c old_status s w).terminal.compliance_status ≡ old_status))
                (sym down) (on_change_downgrade env c old_status w (ground arith) (ground arith)) in
            elim ends [
              | inl safe ↦ rw (worked_changed env c o t rows e) (IsContained-clear_tag after safe)
              | inr back ↦ ground (
                arith,
                worked_changed env c o t rows e,
                clear_tag_lem after,
                compliance_eq_refl old_status,
              )
            ]
      ]

  -- When a downgrade to non-compliant is reported as a change of status, the terminal that the
  -- call leaves is blocked, or it is unblocked with the block state no_firewall.
  pub apply_contains :
      o.status ≡ non_compliant
      → (apply_compliance_result env c o t rows).status_changed ≡ true
      → IsContained (apply_compliance_result env c o t rows).work.terminal
  apply_contains down changed = elim (Bool-cases (is_held env c o rows)) [
    | inl h ↦ ground (arith, apply_held env c o t rows h)
    | inr go ↦ rw (apply_worked env c o t rows go) (
        subst IsContained (sym (finish_lem old_status (worked env c o t rows)).0) (
          worked_contains down go (
            finish-changed old_status (worked env c o t rows)
              (rw (apply_worked env c o t rows go) at changed))))
  ]

  -- The status that a call returns is that of the terminal it leaves, and a change is returned
  -- exactly if that differs from the status before.
  pub apply_reports :
      let r = apply_compliance_result env c o t rows in
      (r.new_compliance ≡ r.work.terminal.compliance_status)
      × (r.status_changed ≡ not (compliance_eq r.work.terminal.compliance_status old_status))
  apply_reports = elim (Bool-cases (is_held env c o rows)) [
    | inl h ↦ rw (apply_held env c o t rows h) (refl, rw (compliance_eq_refl old_status) refl)
    | inr go ↦
        rw (apply_worked env c o t rows go)
          (ground (arith, finish_lem old_status (worked env c o t rows)))
  ]
