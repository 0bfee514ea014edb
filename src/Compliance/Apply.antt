-- ===== src/Compliance/Apply.antt =====
-- `_apply_compliance_result`: the result of a compliance check becomes the state of a terminal,
-- with its firewall requests, its blacklist entries and its events.
pub mod Stages
pub mod States
pub mod Recovery
pub mod Rows
pub mod Quiet
use terminal_access_manager.Prelude.{
  Bool, true, false, not, ◌&&◌, ◌||◌, Option, none, some, List, [], ◌∷◌, ◌++◌, if◌then◌else◌, Text,
  is_empty, or_else, codes,
}
use terminal_access_manager.Models.{
  Time, Terminal, Blacklist, blocked, unblocked, Compliance, compliant, bypass, non_compliant,
  unknown, MatchType, status_eq, compliance_eq,
}
use terminal_access_manager.Comments.{sync_whitelist_comments, drop_whitelist_comment, join_with}
use terminal_access_manager.Compliance.Firewall.{bound_firewall_tags}
use terminal_access_manager.Compliance.Entries.{recently_unblocked}
use terminal_access_manager.Compliance.Reasons.{Details, plain_details, block_details}
use terminal_access_manager.Compliance.Unblock.{auto_unblock}
use terminal_access_manager.Compliance.Block.{auto_block, joined}
use terminal_access_manager.Compliance.Work.{
  Env, Effect, terminal_compliant, terminal_non_compliant, Work, Call, mac_key, cooldown,
}

-- The result that the method is told to apply
pub record Outcome : Type 0 where
  pub status : Compliance
  pub wl_match_type : Option MatchType
  pub wl_comments : Option Text

-- The returned dict, with the state that the call leaves
pub record Applied : Type 0 where
  pub work : Work
  pub status_changed : Bool
  pub new_compliance : Compliance

abbrev pub is_non_compliant : Compliance → Bool
is_non_compliant non_compliant = true
is_non_compliant _ = false

abbrev pub is_recovered : Compliance → Bool
is_recovered compliant = true
is_recovered bypass = true
is_recovered _ = false

abbrev details_for : Env → Call → Compliance → Details
details_for env c new =
    if is_non_compliant new then block_details env.loaded c.ip_addr c.mac_addr else plain_details

abbrev new_comments : Outcome → Text → Text
new_comments o comments = elim o.status [
  | bypass ↦ sync_whitelist_comments comments o.wl_comments
  | _ ↦ drop_whitelist_comment comments
]

-- The assignments that every call makes
abbrev written : Env → Call → Outcome → Terminal → Terminal
written env c o t = record t {
  comments = new_comments o t.comments;
  compliance_status = o.status;
  wl_match_type = o.wl_match_type;
  non_compliant_type = (details_for env c o.status).non_compliant_type;
  compliant_checked_at =
      if not (compliance_eq t.compliance_status o.status) && is_recovered o.status
      then some env.now
      else t.compliant_checked_at;
}

-- The first `if` on a change: unblock, or clear a stale block state
pub recover : Env → Call → Compliance → Work → Work
unfolding auto_unblock
recover env c new w =
    if status_eq w.terminal.status blocked && is_recovered new
    then auto_unblock env c new w
    else if is_recovered new
    then record w { terminal = record w.terminal { block_state = none } }
    else w

-- A change of status
pub on_change : Env → Call → Compliance → Compliance → Work → Work
unfolding recover auto_block
on_change env c old new w =
    let recovered = recover env c new w in
    if is_non_compliant new
    then auto_block env c old (details_for env c new).block_reason recovered
    else recovered

abbrev fill_tag : List Text → Terminal → Terminal
fill_tag [] t = t
fill_tag (tag ∷ tags) t = record t { firewall_tag = some (joined (tag ∷ tags)) }

-- No change: a blocked terminal gets a missing firewall tag.
pub no_change : Env → Work → Work
unfolding join_with
no_change env w =
    if status_eq w.terminal.status blocked && is_empty (or_else w.terminal.firewall_tag [])
    then record w {
      terminal = fill_tag (bound_firewall_tags env.bindings w.terminal.source_tag) w.terminal;
    }
    else w

-- `if terminal.status != "blocked": terminal.firewall_tag = None`
abbrev clear_tag : Work → Work
clear_tag w =
    if status_eq w.terminal.status blocked
    then w
    else record w { terminal = record w.terminal { firewall_tag = none } }

abbrev pub final_event : Compliance → List Effect
final_event compliant = terminal_compliant ∷ []
final_event non_compliant = terminal_non_compliant ∷ []
final_event _ = []

pub finish : Compliance → Work → Applied
finish old w =
    let final = w.terminal.compliance_status in
    let changed = not (compliance_eq final old) in
    record {
      work = if changed then record w { effects = w.effects ++ final_event final } else w;
      status_changed = changed;
      new_compliance = final;
    }

abbrev pub start : Terminal → List Blacklist → Work
start t rows = record { terminal = t; rows = rows; effects = []; unblocked = false }

unfoldable pub apply_compliance_result : Env → Call → Outcome → Terminal → List Blacklist → Applied
unfolding on_change no_change finish
apply_compliance_result env c o t rows =
    let old = t.compliance_status in
    let w = start (written env c o t) rows in
    if is_non_compliant o.status && recently_unblocked env.now (cooldown env) (mac_key c) rows
    then record { work = start t rows; status_changed = false; new_compliance = old }
    else finish old (
        clear_tag
          (if compliance_eq old o.status then no_change env w else on_change env c old o.status w))
