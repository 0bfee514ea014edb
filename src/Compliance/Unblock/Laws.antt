-- ===== src/Compliance/Unblock/Laws.antt =====
-- What the automatic unblock leaves behind.
use native.Mathlib.Nat.{le_trans}
use terminal_access_manager.Prelude.{
  ◌≤◌, ◌≡◌, inl, inr, refl, subst, Bool, true, false, not, ◌&&◌, ◌||◌, any, select, is_empty, none,
  List, [], ◌∷◌, map, if◌then◌else◌, Text, arith, Bool-cases,
}
use terminal_access_manager.Models.{Time, Terminal, Blacklist, unblocked, Compliance}
use terminal_access_manager.Compliance.Firewall.{unblock_on_firewall}
use terminal_access_manager.Compliance.Entries.{is_holder}
use terminal_access_manager.Compliance.Entries.Unique.{count, count-map, IsUnique}
use terminal_access_manager.Compliance.Work.{Env, Effect, Work, Call}
use terminal_access_manager.Compliance.Unblock.{
  holds_unblock, unblock_targets, mark_closed, after_unblock, unblock_all, auto_unblock,
}

-- The terminal as it was
pub record Kept (before after : Work) : Type 0 where
  pub terminal : after.terminal ≡ before.terminal
  pub rows : after.rows ≡ before.rows
  pub flag : after.unblocked ≡ before.unblocked

-- A terminal that was set free
pub record Freed (before after : Work) : Type 0 where
  pub status : after.terminal.status ≡ unblocked
  pub firewall_tag : after.terminal.firewall_tag ≡ none
  pub block_state : after.terminal.block_state ≡ none
  pub flag : after.unblocked ≡ true
  pub compliance_status : after.terminal.compliance_status ≡ before.terminal.compliance_status
  pub wl_match_type : after.terminal.wl_match_type ≡ before.terminal.wl_match_type
  pub source_tag : after.terminal.source_tag ≡ before.terminal.source_tag

-- Whether a terminal is let go: no cooldown holds it, and a firewall to ask lifts the block or there
-- is none to ask.
abbrev pub is_let_go : Env → Call → Compliance → Terminal → List Blacklist → Bool
is_let_go env c new t rows =
    not (holds_unblock env c new rows)
    && (is_empty (unblock_targets env c t rows)
        || any (unblock_on_firewall env.sources env.appliance c.ip_addr)
            (unblock_targets env c t rows))

abbrev pub Answered : Bool → Work → Work → Type 0
Answered true before after = Freed before after
Answered false before after = Kept before after

after_unblock_lem :
    (env : Env) (c : Call) (new : Compliance) (successful failed : List Text) (w : Work)
    → Answered (not (is_empty successful)) w (after_unblock env c new successful failed w)
unfolding after_unblock
after_unblock_lem env c new [] failed w = record { terminal = refl; rows = refl; flag = refl }
after_unblock_lem env c new (s ∷ ss) failed w = record {
  status = refl;
  firewall_tag = refl;
  block_state = refl;
  flag = refl;
  compliance_status = refl;
  wl_match_type = refl;
  source_tag = refl;
}

-- The effects of a call do not matter to what it keeps.
Answered-effects :
    (b : Bool) (before after : Work) (effects : List Effect)
    → Answered b (record before { effects = effects }) after
    → Answered b before after
Answered-effects true before after effects f = record {
  status = f.status;
  firewall_tag = f.firewall_tag;
  block_state = f.block_state;
  flag = f.flag;
  compliance_status = f.compliance_status;
  wl_match_type = f.wl_match_type;
  source_tag = f.source_tag;
}
Answered-effects false before after effects k = record {
  terminal = k.terminal;
  rows = k.rows;
  flag = k.flag;
}

any-select : (p : Text → Bool) (ts : List Text) → not (is_empty (select p ts)) ≡ any p ts
unfolding select any
any-select p [] = refl
any-select p (t ∷ ts) = ground (arith, any-select p ts)

unblock_all_lem :
    (env : Env) (c : Call) (new : Compliance) (tags : List Text) (w : Work)
    → Answered
        (is_empty tags || any (unblock_on_firewall env.sources env.appliance c.ip_addr) tags)
        w
        (unblock_all env c new tags w)
unfolding unblock_all
unblock_all_lem env c new [] w = record {
  status = refl;
  firewall_tag = refl;
  block_state = refl;
  flag = refl;
  compliance_status = refl;
  wl_match_type = refl;
  source_tag = refl;
}
unblock_all_lem env c new (t ∷ ts) w =
    let success = unblock_on_firewall env.sources env.appliance c.ip_addr in
    let after = unblock_all env c new (t ∷ ts) w in
    subst (λ b. Answered b w after) (any-select success (t ∷ ts))
      (Answered-effects _ w after _ (after_unblock_lem env c new (select success (t ∷ ts)) _ _))

-- The automatic unblock sets the terminal free (unblocked, no firewall tag, no block state, flag
-- set) with compliance status, match type and source kept if no cooldown holds it and a firewall
-- to ask lifts the block or there is none to ask, and otherwise, whatever the failures, keeps
-- terminal, rows and flag as they were.
pub auto_unblock_lem :
    (env : Env) (c : Call) (new : Compliance) (w : Work)
    → Answered (is_let_go env c new w.terminal w.rows) w (auto_unblock env c new w)
unfolding auto_unblock
auto_unblock_lem env c new w = elim (Bool-cases (holds_unblock env c new w.rows)) [
  | inl held ↦ rw held (record { terminal = refl; rows = refl; flag = refl })
  | inr go ↦ rw go (unblock_all_lem env c new (unblock_targets env c w.terminal w.rows) w)
]

is_holder-mark_closed :
    (i f : Text) (now : Time) (reason : Text) (e : Blacklist)
    → is_holder i f (mark_closed now reason e) ≡ is_holder i f e
unfolding is_holder
is_holder-mark_closed i f now reason e = refl

count-mark_where :
    (p : Blacklist → Bool) (i f : Text) (now : Time) (reason : Text) (rows : List Blacklist)
    → count (is_holder i f) (map (λ e. if p e then mark_closed now reason e else e) rows)
      ≤ count (is_holder i f) rows
count-mark_where p i f now reason rows =
    count-map (is_holder i f) (λ e. if p e then mark_closed now reason e else e) rows
      (λ e h. ground (arith, is_holder-mark_closed i f now reason e))

after_unblock-IsUnique :
    (env : Env) (c : Call) (new : Compliance) (successful failed : List Text) (w : Work)
    → IsUnique w.rows
    → IsUnique (after_unblock env c new successful failed w).rows
unfolding after_unblock
after_unblock-IsUnique env c new [] failed w v = v
after_unblock-IsUnique env c new (s ∷ ss) failed w v = record {
  at_most_one = λ i f. le_trans (count-mark_where _ i f env.now _ w.rows) (v.at_most_one i f);
}

unblock_all-IsUnique :
    (env : Env) (c : Call) (new : Compliance) (tags : List Text) (w : Work)
    → IsUnique w.rows
    → IsUnique (unblock_all env c new tags w).rows
unfolding unblock_all
unblock_all-IsUnique env c new [] w v = v
unblock_all-IsUnique env c new (t ∷ ts) w v = after_unblock-IsUnique env c new _ _ _ v

pub auto_unblock-IsUnique :
    (env : Env) (c : Call) (new : Compliance) (w : Work)
    → IsUnique w.rows
    → IsUnique (auto_unblock env c new w).rows
unfolding auto_unblock
auto_unblock-IsUnique env c new w v = elim (Bool-cases (holds_unblock env c new w.rows)) [
  | inl held ↦ rw held v
  | inr go ↦ rw go (unblock_all-IsUnique env c new (unblock_targets env c w.terminal w.rows) w v)
]
