-- ===== src/Compliance/Initial/Laws.antt =====
-- What the check of a discovered terminal can do before it is confirmed.
use terminal_access_manager.Prelude.{
  ◌⊎◌, subst, sym, ◌≡◌, inl, inr, Bool, true, false, Bool-cases, not, ◌&&◌, List, [], leb, any,
  arith,
}
use terminal_access_manager.Models.{Terminal, Blacklist}
use terminal_access_manager.Compliance.Counts.{without_count, mac_non_compliant_total, put}
use terminal_access_manager.Compliance.Entries.Unique.{IsUnique}
use terminal_access_manager.Compliance.Unblock.Quiet.{is_block}
use terminal_access_manager.Compliance.Work.{Env, Call, mac_key}
use terminal_access_manager.Compliance.Apply.{Outcome, apply_compliance_result}
use terminal_access_manager.Compliance.Apply.Rows.{apply-IsUnique}
use terminal_access_manager.Compliance.Apply.Quiet.{apply-quiet}
use terminal_access_manager.Compliance.Recalc.{missed_at}
use terminal_access_manager.Compliance.Initial.{
  Discovery, Discovered, initial_guard, initial_threshold, initial_miss,
  apply_initial_compliance_result,
}

-- No guard holds the result, and the misses of the device reach the threshold, this one included.
abbrev pub is_first_confirmed : Env → Discovery → Call → Terminal → List Terminal → Bool
is_first_confirmed env d c t ts =
    not (initial_guard env d t)
    && leb (initial_threshold d t)
        (mac_non_compliant_total (mac_key c) (put (missed_at env.now t) ts))

-- Nothing happened but the count.
pub record IsHeld (t : Terminal) (rows : List Blacklist) (r : Discovered) : Type 0 where
  pub rows_kept : r.applied.work.rows ≡ rows
  pub no_effects : r.applied.work.effects ≡ []
  pub no_change : r.applied.status_changed ≡ false
  pub compliance_kept : r.applied.work.terminal.compliance_status ≡ t.compliance_status
  pub status_kept : r.applied.work.terminal.status ≡ t.status

module _ (env : Env) (d : Discovery) (c : Call) (o : Outcome) (t : Terminal) (ts : List Terminal)
    (rows : List Blacklist) where
  initial_miss-IsHeld :
      is_first_confirmed env d c t ts ≡ false → IsHeld t rows (initial_miss env d c o t ts rows)
  unfolding initial_miss
  initial_miss-IsHeld h = ground arith

  quiet-initial :
      is_first_confirmed env d c t ts ≡ false
      → any is_block (apply_initial_compliance_result env d c o t ts rows).applied.work.effects
        ≡ false
  unfolding apply_initial_compliance_result any
  quiet-initial h = ground (
    arith,
    initial_miss-IsHeld h,
    apply-quiet env c o t rows,
    apply-quiet env c o (without_count t) rows,
  )

  -- When the call for a discovered terminal requests a block or sends an event of a block or a
  -- downgrade, no guard held it and the misses of the device, this one included, reach the
  -- threshold.
  pub apply_initial_blocks :
      any is_block (apply_initial_compliance_result env d c o t ts rows).applied.work.effects ≡ true
      → is_first_confirmed env d c t ts ≡ true
  apply_initial_blocks h = elim (Bool-cases (is_first_confirmed env d c t ts)) [
    | inl e ↦ e
    | inr e ↦ ground (arith, quiet-initial e)
  ]

  rows-initial :
      let rows_after = λ (u : Terminal). (apply_compliance_result env c o u rows).work.rows in
      let after = (apply_initial_compliance_result env d c o t ts rows).applied.work.rows in
      (after ≡ rows)
      ⊎ ((after ≡ rows_after t)
          ⊎ ((after ≡ rows_after (without_count t))
              ⊎ (after ≡ rows_after (without_count (missed_at env.now t)))))
  unfolding apply_initial_compliance_result initial_miss
  rows-initial = ground arith

  -- Given rows with at most one active one for each address on each firewall, a call keeps them so.
  pub apply_initial-IsUnique :
      IsUnique rows
      → IsUnique (apply_initial_compliance_result env d c o t ts rows).applied.work.rows
  apply_initial-IsUnique v = elim rows-initial [
    | inl e ↦ subst IsUnique (sym e) v
    | inr (inl e) ↦ subst IsUnique (sym e) (apply-IsUnique env c o t rows v)
    | inr (inr (inl e)) ↦ subst IsUnique (sym e) (apply-IsUnique env c o (without_count t) rows v)
    | inr (inr (inr e)) ↦
        subst IsUnique (sym e) (apply-IsUnique env c o (without_count (missed_at env.now t)) rows v)
  ]
