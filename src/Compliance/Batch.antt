-- ===== src/Compliance/Batch.antt =====
-- `auto_block_non_compliant` of compliance_service.py and `_expand_non_compliant_to_device`: the
-- non-compliant terminals of one ARP source are blocked on its firewalls. The event for many blocks
-- and the audit log are left out.
pub mod Requests
pub mod Counts
use terminal_access_manager.Prelude.{
  ℕ, ◌+◌, Bool, true, false, not, ◌&&◌, ◌||◌, Option, none, some, List, [], ◌∷◌, ◌++◌, map, any,
  find, select, if◌then◌else◌, is_empty, is_some, or_else, length, ◌==◌, Text, text_eq, codes,
}
use terminal_access_manager.Models.{
  Terminal, Blacklist, blocked, status_eq, Compliance, bypass, non_compliant, compliance_eq,
  no_firewall, block_failed, is_offline, is_active_entry, column_eq, same_key,
}
use terminal_access_manager.Mac.{norm_mac_key}
use terminal_access_manager.BlockTime.{parse_block_time}
use terminal_access_manager.Comments.{append_comment, join_with, sort}
use terminal_access_manager.Exclusion.{Condition, first_match}
use terminal_access_manager.Compliance.Whitelist.{match_whitelist}
use terminal_access_manager.Compliance.Device.{Registry, non_empty, effective_device_id}
use terminal_access_manager.Compliance.Counts.{put}
use terminal_access_manager.Compliance.Firewall.{usable, block_on_firewall, bound_firewall_tags}
use terminal_access_manager.Compliance.Entries.{Block, attach_active_blacklist}
use terminal_access_manager.Compliance.Reasons.{block_details}
use terminal_access_manager.Compliance.Block.{
  Attempts, no_attempts, prepend_if, attach_all, joined, comment_block,
}
use terminal_access_manager.Compliance.Work.{Env, Effect, terminal_blocked, block_failed_error}

-- Of the source, not blocked, not offline
abbrev pub is_open : Text → Terminal → Bool
is_open arp_source t =
    column_eq t.source_tag arp_source
    && (not (status_eq t.status blocked) && not (is_offline t.block_state))

abbrev pub is_candidate : Text → Terminal → Bool
is_candidate arp_source t = is_open arp_source t && compliance_eq t.compliance_status non_compliant

-- A terminal to block, with the one that its device was found by if it is a sibling
pub record Target : Type 0 where
  pub entry : Terminal
  pub trigger : Option Terminal

-- The registry still has the terminal's MAC under its device.
unfoldable pub is_trusted : Registry → Terminal → Bool
unfolding norm_mac_key effective_device_id
is_trusted registry t =
    same_key (effective_device_id t.device_id (norm_mac_key (some t.mac_address)) registry)
      t.device_id

abbrev pub shares_device : Terminal → Terminal → Bool
shares_device s e = elim (non_empty e.device_id) [ none ↦ false | some d ↦ column_eq s.device_id d ]

abbrev pub is_sibling : Text → (trusted entries : List Terminal) → Terminal → Bool
is_sibling arp_source trusted entries s =
    is_open arp_source s && (any (shares_device s) trusted && not (any (λ e. e.id == s.id) entries))

-- `_expand_non_compliant_to_device`; the registry is empty when it is not available.
unfoldable pub expand : Text → Registry → (all_terminals entries : List Terminal) → List Target
unfolding is_trusted any find select
expand arp_source registry ts entries =
    let trusted = if is_empty registry then entries else select (is_trusted registry) entries in
    map (λ e. record { entry = e; trigger = none }) entries
    ++ map (λ s. record { entry = s; trigger = find (shares_device s) trusted })
        (select (is_sibling arp_source trusted entries) ts)

-- `is_already_blacklisted`
unfoldable pub is_blacklisted : Text → List Blacklist → Terminal → Bool
unfolding any is_active_entry norm_mac_key
is_blacklisted arp_source rows t =
    any
      (λ e.
        column_eq e.source_tag arp_source
        && (is_active_entry e
            && (column_eq e.ip_address t.ip_address
                && same_key e.mac_address_normalized (norm_mac_key (some t.mac_address)))))
      rows

abbrev pub is_excluded : List Condition → Terminal → Bool
is_excluded rules t = is_some (first_match rules t.ip_address t.mac_address)

abbrev pub is_whitelisted : Env → Terminal → Bool
is_whitelisted env t = is_some (match_whitelist env.loaded.whitelist t.ip_address t.mac_address)

-- A terminal that the whitelist matches after all
abbrev pub healed : Terminal → Terminal
healed t = record t {
  compliance_status = bypass;
  compliant_confirm_count = 0;
  non_compliant_confirm_count = 0;
}

unfoldable pub heal_all : Env → List Target → List Terminal → List Terminal
unfolding put match_whitelist
heal_all env [] ts = ts
heal_all env (x ∷ xs) ts =
    heal_all env xs (if is_whitelisted env x.entry then put (healed x.entry) ts else ts)

-- What the loop leaves
pub record Batch : Type 0 where
  pub terminals : List Terminal
  pub rows : List Blacklist
  pub requests : List (Text × Text)
  pub effects : List Effect
  pub blocked_count : ℕ
  pub skipped_count : ℕ

-- The firewalls of one terminal, in order
unfoldable pub attempts : Env → Text → List Text → Attempts
unfolding usable block_on_firewall
attempts env ip [] = no_attempts
attempts env ip (tag ∷ tags) =
    let rest = attempts env ip tags in
    let (is_blocked, newly_blocked) = block_on_firewall env.sources env.appliance ip tag in
    record {
      successful = prepend_if is_blocked tag rest.successful;
      newly = prepend_if (is_blocked && newly_blocked) tag rest.newly;
      requested = prepend_if (usable env.sources tag) tag rest.requested;
    }

-- The reason tells of the sibling that a device was blocked by.
abbrev pub reason_of : Env → Target → Text
reason_of env x =
    let reason = (block_details env.loaded x.entry.ip_address x.entry.mac_address).block_reason in
    elim x.trigger [
      | none ↦ reason
      | some t ↦
          reason
          ++ (codes "（设备归组连带：触发 "
              ++ (t.ip_address ++ (codes "，设备 " ++ (or_else x.entry.device_id [] ++ codes "）"))))
    ]

abbrev pub block_for : Env → Text → Target → Block
block_for env arp_source x = record {
  mac_address = some x.entry.mac_address;
  mac_norm = norm_mac_key (some x.entry.mac_address);
  reason = reason_of env x;
  source_tag = some arp_source;
  expires_at = env.now + parse_block_time env.block_time;
}

abbrev pub events_of : List Text → List Effect
events_of [] = []
events_of (t ∷ ts) = terminal_blocked ∷ []

abbrev pub blocked_terminal : Attempts → Terminal → Terminal
blocked_terminal a t = record t {
  status = blocked;
  firewall_tag = some (joined (sort a.successful));
  block_state = none;
  comments = comment_block a.newly t.comments;
}

-- What the answers of the firewalls lead to
abbrev pub concluded : Env → Text → Target → Attempts → Batch → Batch
concluded env arp_source x a b =
    if is_empty a.successful
    then record b {
      terminals = put (record x.entry { block_state = some block_failed }) b.terminals;
      effects = b.effects ++ block_failed_error ∷ [];
      skipped_count = b.skipped_count + 1;
    }
    else record b {
      terminals = put (blocked_terminal a x.entry) b.terminals;
      rows = attach_all env.now x.entry.ip_address (block_for env arp_source x) a.successful b.rows;
      effects = b.effects ++ events_of a.newly;
      blocked_count = b.blocked_count + 1;
    }

module _ (env : Env) (arp_source : Text) (dry_run : Bool) (tags : List Text) where
  -- One turn of the loop
  unfoldable pub block_target : Target → Batch → Batch
  unfolding attempts put attach_all attach_active_blacklist append_comment sort join_with
  block_target x b =
      let a = attempts env x.entry.ip_address tags in
      if dry_run
      then record b { blocked_count = b.blocked_count + 1 }
      else concluded env arp_source x a
          (record b { requests = b.requests ++ map (λ tag. (tag, x.entry.ip_address)) a.requested })

  unfoldable pub block_targets : List Target → Batch → Batch
  unfolding block_target
  block_targets [] b = b
  block_targets (x ∷ xs) b = block_targets xs (block_target x b)

abbrev pub put_all : List Terminal → List Terminal → List Terminal
put_all [] ts = ts
put_all (u ∷ us) ts = put_all us (put u ts)

-- `AutoBlockResult`, with the state that the call leaves
pub record Result : Type 0 where
  pub total_non_compliant : ℕ
  pub batch : Batch

abbrev pub untouched : List Terminal → List Blacklist → Batch
untouched ts rows = record {
  terminals = ts;
  rows = rows;
  requests = [];
  effects = [];
  blocked_count = 0;
  skipped_count = 0;
}

-- `device_block` has the registry when devices are blocked as a whole.
unfoldable pub targets : Text → Option Registry → List Terminal → List Target
unfolding expand select
targets arp_source none ts =
    map (λ e. record { entry = e; trigger = none }) (select (is_candidate arp_source) ts)
targets arp_source (some registry) ts =
    expand arp_source registry ts (select (is_candidate arp_source) ts)

-- The targets that are neither blacklisted nor excluded
unfoldable pub screened :
    List Condition → Text → Option Registry → List Terminal → List Blacklist → List Target
unfolding targets is_blacklisted first_match select
screened rules arp_source device_block ts rows =
    select (λ x. not (is_excluded rules x.entry))
      (select (λ x. not (is_blacklisted arp_source rows x.entry))
        (targets arp_source device_block ts))

unfoldable pub to_block : Env → List Target → List Target
unfolding select match_whitelist
to_block env xs = select (λ x. not (is_whitelisted env x.entry)) xs

-- The calls once the targets are known
unfoldable pub block_screened :
    Env → Text → Bool → List Target → List Terminal → List Blacklist → Result
unfolding block_targets heal_all to_block put
block_screened env arp_source dry_run xs ts rows =
    let chosen = to_block env xs in
    let tags = bound_firewall_tags env.bindings (some arp_source) in
    let start = untouched (heal_all env xs ts) rows in
    if is_empty chosen
    then record { total_non_compliant = 0; batch = start }
    else if is_empty tags
    then record {
      total_non_compliant = length chosen;
      batch = record start {
        terminals =
            put_all (map (λ x. record x.entry { block_state = some no_firewall }) chosen)
              start.terminals;
        skipped_count = length chosen;
      };
    }
    else record {
      total_non_compliant = length chosen;
      batch = block_targets env arp_source dry_run tags chosen start;
    }

unfoldable pub auto_block_non_compliant :
    Env → List Condition → Option Registry → Text → Bool → List Terminal → List Blacklist → Result
unfolding block_screened screened
auto_block_non_compliant env rules device_block arp_source dry_run ts rows =
    block_screened env arp_source dry_run (screened rules arp_source device_block ts rows) ts rows
