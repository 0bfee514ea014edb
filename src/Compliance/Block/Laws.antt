-- ===== src/Compliance/Block/Laws.antt =====
-- What the automatic block leaves behind.
use terminal_access_manager.Prelude.{
  ◌≡◌, ◌⊎◌, inl, inr, refl, sym, ap, ◌∙◌, Bool, true, false, not, ◌||◌, any, none, some, List, [],
  ◌∷◌, ◌++◌, map, if◌then◌else◌, Text, is_empty, arith, Bool-cases,
}
use terminal_access_manager.Models.{
  Time, Terminal, Status, Blacklist, blocked, unblocked, no_firewall, block_failed, Compliance,
  non_compliant, compliance_eq, status_eq,
}
use terminal_access_manager.Compliance.Firewall.{block_on_firewall, bound_firewall_tags}
use terminal_access_manager.Compliance.Entries.{
  Block, attach_active_blacklist, active_firewall_tags, recently_unblocked,
}
use terminal_access_manager.Compliance.Entries.Unique.{IsUnique, attach-IsUnique}
use terminal_access_manager.Compliance.Work.{
  Env, Effect, Work, Call, mac_key, cooldown, block_request,
}
use terminal_access_manager.Compliance.Block.{
  Attempts, attempt_blocks, attach_all, after_attempts, nothing_missing, missing_tags,
  already_blocked, auto_block, none_blocked, some_blocked,
}

pub attach_all-IsUnique :
    (now : Time) (ip : Text) (b : Block) (tags : List Text) (rows : List Blacklist)
    → IsUnique rows
    → IsUnique (attach_all now ip b tags rows)
attach_all-IsUnique now ip b [] rows v = unfold attach_all in v
attach_all-IsUnique now ip b (tag ∷ tags) rows v = attach_step (
    attach_all-IsUnique now ip b tags (attach_active_blacklist now ip tag b rows)
      (attach-IsUnique now ip tag b rows v))
  where
    attach_step :
        IsUnique (attach_all now ip b tags (attach_active_blacklist now ip tag b rows))
        → IsUnique (attach_all now ip b (tag ∷ tags) rows)
    attach_step h = unfold attach_all in h

after_attempts-stages :
    (env : Env) (c : Call) (old : Compliance) (reason : Text) (active : List Text) (a : Attempts)
    (w : Work)
    → after_attempts env c old reason active a w
      ≡ (if is_empty a.successful then none_blocked old w else some_blocked env c reason active a w)
unfolding after_attempts
after_attempts-stages env c old reason active a w = refl

after_attempts-IsUnique :
    (env : Env) (c : Call) (old : Compliance) (reason : Text) (active : List Text) (a : Attempts)
    (w : Work)
    → IsUnique w.rows
    → IsUnique (after_attempts env c old reason active a w).rows
after_attempts-IsUnique env c old reason active a w v =
    rw after_attempts-stages (elim (Bool-cases (is_empty a.successful)) [
      | inl e ↦ rw e v
      | inr e ↦ rw e (attach_all-IsUnique env.now c.ip_addr _ a.successful w.rows v)
    ])

nothing_missing-rows : (tags : List Text) (w : Work) → (nothing_missing tags w).rows ≡ w.rows
unfolding nothing_missing
nothing_missing-rows [] w = refl
nothing_missing-rows (tag ∷ tags) w = ground arith

-- The stages of a block, one after the other
auto_block-stages :
    (env : Env) (c : Call) (old : Compliance) (reason : Text) (w : Work)
    → auto_block env c old reason w ≡ (
        if is_empty (missing_tags env c w.terminal w.rows)
        then nothing_missing (bound_firewall_tags env.bindings w.terminal.source_tag) w
        else if recently_unblocked env.now (cooldown env) (mac_key c) w.rows
        then w
        else after_attempts env c old reason
            (active_firewall_tags (mac_key c) c.ip_addr w.rows)
            (attempt_blocks env c w.terminal (missing_tags env c w.terminal w.rows))
            (record w {
              effects =
                  w.effects
                  ++ map block_request
                      (attempt_blocks env c w.terminal
                        (missing_tags env c w.terminal w.rows)).requested;
            }))
unfolding auto_block
auto_block-stages env c old reason w = refl

pub auto_block-IsUnique :
    (env : Env) (c : Call) (old : Compliance) (reason : Text) (w : Work)
    → IsUnique w.rows
    → IsUnique (auto_block env c old reason w).rows
auto_block-IsUnique env c old reason w v =
    rw auto_block-stages (elim (Bool-cases (is_empty (missing_tags env c w.terminal w.rows))) [
      | inl e ↦ rw e (rw nothing_missing-rows v)
      | inr e ↦
          rw e (elim (Bool-cases (recently_unblocked env.now (cooldown env) (mac_key c) w.rows)) [
            | inl held ↦ rw held v
            | inr go ↦ rw go (after_attempts-IsUnique env c old reason _ _ _ v)
          ])
    ])

status_eq-blocked : (s : Status) → status_eq s blocked ≡ true → s ≡ blocked
status_eq-blocked blocked h = refl
status_eq-blocked unblocked h = ground arith

-- A firewall that holds the address when it is attempted
abbrev pub accepts : Env → Call → Terminal → Text → Bool
accepts env c t tag =
    already_blocked t tag || (block_on_firewall env.sources env.appliance c.ip_addr tag).0

-- The facts that tell how a block ends: whether firewalls are bound to the source, whether some of
-- them have no active entry, whether the cooldown holds the block, whether one of the missing ones
-- takes it, and whether the terminal was non-compliant before.
pub record Facts : Type 0 where
  pub is_bound : Bool
  pub is_missing : Bool
  pub is_held : Bool
  pub is_accepted : Bool
  pub is_again : Bool

abbrev pub facts : Env → Call → Compliance → Work → Facts
facts env c old w = record {
  is_bound = not (is_empty (bound_firewall_tags env.bindings w.terminal.source_tag));
  is_missing = not (is_empty (missing_tags env c w.terminal w.rows));
  is_held = recently_unblocked env.now (cooldown env) (mac_key c) w.rows;
  is_accepted = any (accepts env c w.terminal) (missing_tags env c w.terminal w.rows);
  is_again = compliance_eq old non_compliant;
}

-- How a block can end, by these facts
pub data Ending (f : Facts) (old : Compliance) (w after : Work) : Type 0 where
  unbound :
      f.is_missing ≡ false
      → f.is_bound ≡ false
      → after.terminal.block_state ≡ some no_firewall
      → after.terminal.compliance_status ≡ w.terminal.compliance_status
      → after.terminal.status ≡ unblocked
      → after.rows ≡ w.rows
      → Ending f old w after
  covered :
      f.is_missing ≡ false
      → f.is_bound ≡ true
      → after.terminal.status ≡ blocked
      → after.terminal.compliance_status ≡ w.terminal.compliance_status
      → (after.terminal.block_state ≡ none) ⊎ (after.terminal.block_state ≡ w.terminal.block_state)
      → after.rows ≡ w.rows
      → Ending f old w after
  held :
      f.is_missing ≡ true
      → f.is_held ≡ true
      → after.terminal ≡ w.terminal
      → after.rows ≡ w.rows
      → Ending f old w after
  newly_blocked :
      f.is_missing ≡ true
      → f.is_held ≡ false
      → f.is_accepted ≡ true
      → after.terminal.status ≡ blocked
      → after.terminal.compliance_status ≡ w.terminal.compliance_status
      → after.terminal.block_state ≡ none
      → Ending f old w after
  rolled_back :
      f.is_missing ≡ true
      → f.is_held ≡ false
      → f.is_accepted ≡ false
      → f.is_again ≡ false
      → after.terminal.compliance_status ≡ old
      → after.terminal.block_state ≡ none
      → after.terminal.status ≡ w.terminal.status
      → after.rows ≡ w.rows
      → Ending f old w after
  retry_failed :
      f.is_missing ≡ true
      → f.is_held ≡ false
      → f.is_accepted ≡ false
      → f.is_again ≡ true
      → after.terminal.compliance_status ≡ w.terminal.compliance_status
      → after.terminal.block_state ≡ some block_failed
      → after.terminal.status ≡ w.terminal.status
      → after.rows ≡ w.rows
      → Ending f old w after

-- A firewall is successful exactly if it holds the address.
attempts-accepted :
    (env : Env) (c : Call) (t : Terminal) (tags : List Text)
    → not (is_empty (attempt_blocks env c t tags).successful) ≡ any (accepts env c t) tags
unfolding attempt_blocks any
attempts-accepted env c t [] = refl
attempts-accepted env c t (tag ∷ tags) = ground (arith, attempts-accepted env c t tags)

-- No firewall is missing.
nothing_missing-Ending :
    (f : Facts) (old : Compliance) (tags : List Text) (w : Work)
    → f.is_missing ≡ false
    → f.is_bound ≡ not (is_empty tags)
    → Ending f old w (nothing_missing tags w)
unfolding nothing_missing
nothing_missing-Ending f old [] w m b = unbound m b refl refl refl refl
nothing_missing-Ending f old (tag ∷ tags) w m b =
    elim (Bool-cases (status_eq w.terminal.status blocked)) [
      | inl e ↦ rw e (covered m b (status_eq-blocked w.terminal.status e) refl (inr refl) refl)
      | inr e ↦ rw e (covered m b refl refl (inl refl) refl)
    ]

-- Some are, and nothing holds the block.
after_attempts-Ending :
    (env : Env) (c : Call) (f : Facts) (old : Compliance) (reason : Text) (active : List Text)
    (a : Attempts) (w : Work) (effects : List Effect)
    → f.is_missing ≡ true
    → f.is_held ≡ false
    → f.is_accepted ≡ not (is_empty a.successful)
    → f.is_again ≡ compliance_eq old non_compliant
    → Ending f old w (after_attempts env c old reason active a (record w { effects = effects }))
after_attempts-Ending env c f old reason active a w effects m h k g =
    rw after_attempts-stages (elim (Bool-cases (is_empty a.successful)) [
      | inl e ↦ rw e (elim (Bool-cases (compliance_eq old non_compliant)) [
        | inl again ↦ rw again (retry_failed m h (ground arith) (ground arith) refl refl refl refl)
        | inr first ↦ rw first (rolled_back m h (ground arith) (ground arith) refl refl refl refl)
      ])
      | inr e ↦ rw e (newly_blocked m h (ground arith) refl refl refl)
    ])

auto_block_by :
    (env : Env) (c : Call) (f : Facts) (old : Compliance) (reason : Text) (w : Work)
    → f ≡ facts env c old w
    → Ending f old w (auto_block env c old reason w)
auto_block_by env c f old reason w p =
    let missing = missing_tags env c w.terminal w.rows in
    let m : f.is_missing ≡ not (is_empty missing) = ap (λ g. g.is_missing) p in
    let b : f.is_bound ≡ not (is_empty (bound_firewall_tags env.bindings w.terminal.source_tag)) =
      ap (λ g. g.is_bound) p in
    let h : f.is_held ≡ recently_unblocked env.now (cooldown env) (mac_key c) w.rows =
      ap (λ g. g.is_held) p in
    let k : f.is_accepted ≡ any (accepts env c w.terminal) missing = ap (λ g. g.is_accepted) p in
    let again : f.is_again ≡ compliance_eq old non_compliant = ap (λ g. g.is_again) p in
    rw auto_block-stages (elim (Bool-cases (is_empty missing)) [
      | inl e ↦ rw e (nothing_missing-Ending f old _ w (ground arith) b)
      | inr e ↦
          rw e (elim (Bool-cases (recently_unblocked env.now (cooldown env) (mac_key c) w.rows)) [
            | inl q ↦ rw q (held (ground arith) (h ∙ q) refl refl)
            | inr q ↦ rw q (
                after_attempts-Ending env c f old reason _ _ w _ (ground arith) (h ∙ q)
                  (k ∙ sym (attempts-accepted env c w.terminal missing)) again)
          ])
    ])

-- The automatic block ends by the facts: with no bound firewall without an active row, unblocked
-- with no_firewall if none is bound and blocked otherwise; else left as it was when the cooldown
-- holds it; else blocked with the new compliance status if a firewall without a row holds the
-- address, and if none does, rolled back to the old compliance status, or block_failed on a
-- terminal that was non-compliant before, the rows changing only when a firewall takes the block.
pub auto_block-Ending :
    (env : Env) (c : Call) (old : Compliance) (reason : Text) (w : Work)
    → Ending (facts env c old w) old w (auto_block env c old reason w)
auto_block-Ending env c old reason w = auto_block_by env c (facts env c old w) old reason w refl
