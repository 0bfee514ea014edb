-- ===== src/Compliance/Block.antt =====
-- The automatic block inside `_apply_compliance_result`.
pub mod Laws
use terminal_access_manager.Prelude.{
  ℕ, ◌+◌, Bool, true, false, not, ◌&&◌, ◌||◌, Option, none, some, List, [], ◌∷◌, ◌++◌, map,
  if◌then◌else◌, Text, codes, is_empty, any, select, split, or_else, text_eq,
}
use terminal_access_manager.Models.{
  Time, Terminal, Blacklist, blocked, unblocked, no_firewall, block_failed, Compliance,
  non_compliant, status_eq, compliance_eq,
}
use terminal_access_manager.BlockTime.{parse_block_time}
use terminal_access_manager.Comments.{append_comment, sort, join_with}
use terminal_access_manager.Compliance.Firewall.{block_on_firewall, bound_firewall_tags}
use terminal_access_manager.Compliance.Entries.{
  active_firewall_tags, recently_unblocked, Block, attach_active_blacklist,
}
use terminal_access_manager.Compliance.Unblock.{mem, dedupe}
use terminal_access_manager.Compliance.Work.{
  Env, Effect, block_request, terminal_blocked, block_failed_error, Work, Call, mac_key, cooldown,
}

-- One tag, or the tags parted by commas
abbrev pub joined : List Text → Text
joined = join_with (codes ",")

-- What the loop over the missing firewalls collects
pub record Attempts : Type 0 where
  pub successful : List Text
  pub newly : List Text
  pub requested : List Text

abbrev pub no_attempts : Attempts
no_attempts = record { successful = []; newly = []; requested = [] }

-- `already_blocked_on_fw`
unfoldable pub already_blocked : Terminal → Text → Bool
unfolding mem split
already_blocked t tag =
    status_eq t.status blocked
    && (not (is_empty (or_else t.firewall_tag []))
        && mem tag (split b',' (or_else t.firewall_tag [])))

abbrev pub prepend_if : Bool → Text → List Text → List Text
prepend_if b t ts = if b then t ∷ ts else ts

-- The loop, its lists in the order of the firewalls
unfoldable pub attempt_blocks : Env → Call → Terminal → List Text → Attempts
unfolding already_blocked
attempt_blocks env c t [] = no_attempts
attempt_blocks env c t (tag ∷ tags) =
    let rest = attempt_blocks env c t tags in
    let (is_blocked, newly_blocked) = block_on_firewall env.sources env.appliance c.ip_addr tag in
    if already_blocked t tag then record rest { successful = tag ∷ rest.successful } else record {
      successful = prepend_if is_blocked tag rest.successful;
      newly = prepend_if (is_blocked && newly_blocked) tag rest.newly;
      requested = tag ∷ rest.requested;
    }

-- The loop that creates the entries
unfoldable pub attach_all : Time → Text → Block → List Text → List Blacklist → List Blacklist
unfolding attach_active_blacklist
attach_all now ip b [] rows = rows
attach_all now ip b (tag ∷ tags) rows =
    attach_all now ip b tags (attach_active_blacklist now ip tag b rows)

abbrev block_of : Env → Call → Text → Terminal → Block
block_of env c reason t = record {
  mac_address = some c.mac_addr;
  mac_norm = mac_key c;
  reason = reason;
  source_tag = t.source_tag;
  expires_at = env.now + parse_block_time env.block_time;
}

pub block_comment : List Text → Text
block_comment newly =
    codes "Auto-blocked by TAM on firewall [" ++ (joined (sort newly) ++ codes "]")

-- A comment only for genuinely new blocks
abbrev pub comment_block : List Text → Text → Text
comment_block [] comments = comments
comment_block (t ∷ ts) comments = append_comment comments (block_comment (t ∷ ts))

abbrev event_of : List Text → List Effect
event_of [] = []
event_of (t ∷ ts) = terminal_blocked ∷ []

-- At least one firewall holds the address now.
abbrev some_blocked : Env → Call → Text → List Text → Attempts → Work → Work
some_blocked env c reason active a w =
    let t = w.terminal in
    record w {
      terminal = record t {
        status = blocked;
        firewall_tag = some (joined (sort (dedupe [] (active ++ a.successful))));
        block_state = none;
        comments = comment_block a.newly t.comments;
      };
      rows = attach_all env.now c.ip_addr (block_of env c reason t) a.successful w.rows;
      effects = w.effects ++ event_of a.newly;
    }

-- Every firewall failed: a first downgrade is rolled back.
abbrev none_blocked : Compliance → Work → Work
none_blocked old w =
    let t = w.terminal in
    record w {
      terminal =
          if compliance_eq old non_compliant
          then record t { block_state = some block_failed }
          else record t { compliance_status = old; block_state = none; non_compliant_type = none };
      effects = w.effects ++ block_failed_error ∷ [];
    }

after_attempts : Env → Call → Compliance → Text → List Text → Attempts → Work → Work
unfolding attach_all block_comment append_comment sort dedupe join_with
after_attempts env c old reason active a w =
    if is_empty a.successful then none_blocked old w else some_blocked env c reason active a w

-- No firewall misses an active entry.
nothing_missing : List Text → Work → Work
unfolding join_with
nothing_missing [] w = record w {
  terminal = record w.terminal {
    status = unblocked;
    firewall_tag = none;
    block_state = some no_firewall;
  };
}
nothing_missing (tag ∷ tags) w = if status_eq w.terminal.status blocked then w else record w {
  terminal = record w.terminal {
    status = blocked;
    firewall_tag = some (joined (tag ∷ tags));
    block_state = none;
  };
}

unfoldable pub missing_tags : Env → Call → Terminal → List Blacklist → List Text
unfolding mem select
missing_tags env c t rows =
    select (λ tag. not (mem tag (active_firewall_tags (mac_key c) c.ip_addr rows)))
      (bound_firewall_tags env.bindings t.source_tag)

-- The branch of a terminal that becomes non-compliant
unfoldable pub auto_block : Env → Call → Compliance → Text → Work → Work
unfolding after_attempts nothing_missing missing_tags attempt_blocks
auto_block env c old reason w =
    let missing = missing_tags env c w.terminal w.rows in
    let a = attempt_blocks env c w.terminal missing in
    if is_empty missing
    then nothing_missing (bound_firewall_tags env.bindings w.terminal.source_tag) w
    else if recently_unblocked env.now (cooldown env) (mac_key c) w.rows
    then w
    else after_attempts env c old reason (active_firewall_tags (mac_key c) c.ip_addr w.rows) a
        (record w { effects = w.effects ++ map block_request a.requested })
