-- ===== src/Compliance/Unblock.antt =====
-- The automatic unblock inside `_apply_compliance_result`.
pub mod Laws
pub mod Quiet
use terminal_access_manager.Prelude.{
  ℕ, Bool, true, false, not, ◌&&◌, ◌||◌, Option, none, some, List, [], ◌∷◌, ◌++◌, map,
  if◌then◌else◌, Text, codes, text_eq, is_empty, any, all, select,
}
use terminal_access_manager.Models.{
  Time, Terminal, Blacklist, unblocked, Compliance, bypass, compliant,
}
use terminal_access_manager.Mac.{norm_mac_key}
use terminal_access_manager.Comments.{append_comment, sort, join_with}
use terminal_access_manager.Compliance.Scope.{
  in_arp_scope, in_or_scope, extract_ipguard_mac_prefixes,
}
use terminal_access_manager.Compliance.Device.{lookup, contains, non_empty}
use terminal_access_manager.Compliance.Check.{Loaded, Grouping}
use terminal_access_manager.Compliance.Firewall.{unblock_on_firewall, bound_firewall_tags}
use terminal_access_manager.Compliance.Entries.{pair_is_active, tags_of, recently_blocked}
use terminal_access_manager.Compliance.Reasons.{build_unblock_reason}
use terminal_access_manager.Compliance.Work.{
  Env, Effect, unblock_request, Work, Call, mac_key, cooldown,
}

-- `t in ts`
unfoldable pub mem : Text → List Text → Bool
unfolding any
mem t ts = any (text_eq t) ts

-- `list(dict.fromkeys(ts))`: the first of each text, in order, given those seen before
unfoldable pub dedupe : List Text → List Text → List Text
unfolding mem
dedupe seen [] = []
dedupe seen (t ∷ ts) =
    let rest = dedupe (t ∷ seen) ts in
    let skipped = dedupe seen ts in if mem t seen then skipped else t ∷ rest

-- `[*bound_fw_tags, *sorted(bl_fw_tags)]` without repetition
unfoldable pub unblock_targets : Env → Call → Terminal → List Blacklist → List Text
unfolding dedupe sort tags_of select pair_is_active bound_firewall_tags
unblock_targets env c t rows = dedupe [] (
    bound_firewall_tags env.bindings t.source_tag
    ++ sort (
        select (λ tag. not (is_empty tag))
          (tags_of (select (pair_is_active (mac_key c) c.ip_addr) rows))))

abbrev is_bypass : Compliance → Bool
is_bypass bypass = true
is_bypass _ = false

abbrev is_compliant : Compliance → Bool
is_compliant compliant = true
is_compliant _ = false

abbrev is_true : Option Bool → Bool
is_true (some true) = true
is_true _ = false

-- `_cooldown_skip_unblock`
unfoldable pub holds_unblock : Env → Call → Compliance → List Blacklist → Bool
holds_unblock env c new rows =
    not (is_bypass new)
    && (not (is_compliant new && is_true c.ig_match)
        && recently_blocked env.now (cooldown env) (mac_key c) rows)

-- `terminal.device_id or mac2dev.get(self._norm_mac_key(mac_addr))`
known_device : Grouping → Terminal → Text → Option Text
unfolding lookup norm_mac_key
known_device g t mac = elim (non_empty t.device_id) [
  | some id ↦ some id
  | none ↦ elim (norm_mac_key (some mac)) [ none ↦ none | some k ↦ lookup k g.mac_to_device ]
]

abbrev device_mark : Option Grouping → Terminal → Text → Text → Text
device_mark none t mac reason = reason
device_mark (some g) t mac reason = elim (known_device g t mac) [
  | none ↦ reason
  | some id ↦
      if contains g.device_ids id
      then reason ++ (codes "（设备归组判定：设备 " ++ (id ++ codes " 合规）"))
      else reason
]

-- The reason that the unblocked rows keep
unfoldable pub compliance_unblock_reason : Env → Call → Compliance → Terminal → Text
unfolding known_device
compliance_unblock_reason env c new t =
    let d = env.loaded in
    if is_bypass new
    then codes "加入白名单"
    else device_mark env.grouping t c.mac_addr (
        build_unblock_reason false (in_arp_scope d.scopes c.ip_addr c.mac_addr)
          (in_or_scope d.scopes c.ip_addr c.mac_addr) d.baseline c.ip_addr c.mac_addr
          (extract_ipguard_mac_prefixes d.scopes))

abbrev failed_part : List Text → Text
failed_part [] = []
failed_part (t ∷ ts) = codes " (failed on: " ++ (join_with (codes ",") (sort (t ∷ ts)) ++ codes ")")

unblock_comment : (successful failed : List Text) → Text
unblock_comment successful failed =
    codes "Auto-unblocked by TAM from firewall ["
    ++ (join_with (codes ",") (sort successful) ++ (codes "]" ++ failed_part failed))

-- `bl_entry.source_tag or terminal.source_tag`
abbrev source_or : Option Text → Option Text → Option Text
source_or own other = elim (non_empty own) [ some s ↦ some s | none ↦ other ]

-- `entry_ok`
unfoldable pub entry_ok : Env → Terminal → List Text → Blacklist → Bool
unfolding mem all
entry_ok env t successful e = elim e.firewall_tag [
  | some tag ↦ mem tag successful
  | none ↦
      let tags = bound_firewall_tags env.bindings (source_or e.source_tag t.source_tag) in
      not (is_empty tags) && all (λ tag. mem tag successful) tags
]

abbrev pub close_row : Time → Text → Blacklist → Blacklist
close_row now reason e = record e {
  auto_unblocked = true;
  unblocked_at = some now;
  unblock_reason = some reason;
}

-- The close of a row that is not flushed here
abbrev pub mark_closed : Time → Text → Blacklist → Blacklist
mark_closed now reason e = record e {
  unflushed = some (record { closed_at = now; closing_reason = reason });
}

-- The loop over `bl_entries`
unfoldable pub close_rows :
    Env → Call → Terminal → List Text → Text → List Blacklist → List Blacklist
unfolding pair_is_active entry_ok
close_rows env c t successful reason = map (λ e.
    if pair_is_active (mac_key c) c.ip_addr e && entry_ok env t successful e
    then mark_closed env.now reason e
    else e)

abbrev freed : Terminal → Terminal
freed t = record t { status = unblocked; firewall_tag = none; block_state = none }

-- The `if successful_fw_tags` statement
after_unblock : Env → Call → Compliance → (successful failed : List Text) → Work → Work
unfolding close_rows compliance_unblock_reason unblock_comment append_comment
after_unblock env c new [] failed w = w
after_unblock env c new (s ∷ ss) failed w =
    let t = freed w.terminal in
    let commented = record t {
      comments = append_comment t.comments (unblock_comment (s ∷ ss) failed);
    } in
    record w {
      terminal = commented;
      rows =
          close_rows env c commented (s ∷ ss) (compliance_unblock_reason env c new commented)
            w.rows;
      unblocked = true;
    }

unblock_all : Env → Call → Compliance → List Text → Work → Work
unfolding after_unblock select
unblock_all env c new [] w = record w { terminal = freed w.terminal; unblocked = true }
unblock_all env c new (t ∷ ts) w =
    let success = λ (tag : Text). unblock_on_firewall env.sources env.appliance c.ip_addr tag in
    after_unblock env c new (select success (t ∷ ts)) (select (λ tag. not (success tag)) (t ∷ ts))
      (record w { effects = w.effects ++ map unblock_request (t ∷ ts) })

-- The branch of a blocked terminal that becomes compliant or whitelisted
unfoldable pub auto_unblock : Env → Call → Compliance → Work → Work
unfolding unblock_all holds_unblock unblock_targets
auto_unblock env c new w =
    if holds_unblock env c new w.rows
    then w
    else unblock_all env c new (unblock_targets env c w.terminal w.rows) w
