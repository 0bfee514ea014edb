-- ===== src/Exclusion/Purge/Unblocking.antt =====
-- `_unblock_blocked_terminals`: the firewalls of each blocked terminal that a rule covers.
use terminal_access_manager.Prelude.{
  ℕ, ◌+◌, Bool, true, false, not, ◌&&◌, ◌||◌, List, [], ◌∷◌, ◌++◌, map, if◌then◌else◌, Text, codes,
  any, all, select, is_empty, or_else,
}
use terminal_access_manager.Models.{
  Time, Terminal, Blacklist, column_eq, not_expired, is_active_entry,
}
use terminal_access_manager.Compliance.Firewall.{
  DataSource, Binding, Appliance, bound_firewall_tags, unblock_on_firewall,
}
use terminal_access_manager.Compliance.Unblock.{close_row}
use terminal_access_manager.Exclusion.{present}

-- What the service reads besides the tables
pub record World : Type 0 where
  pub now : Time
  pub bindings : List Binding
  pub sources : List DataSource
  pub appliance : Appliance

-- `ExclusionUnblockResult`
pub record Report : Type 0 where
  pub requested : Bool
  pub unblocked_count : ℕ
  pub failed : ℕ
  pub skipped : ℕ

pub data Settled : Type 0 where
  all_success partial_or_failed not_located : Settled

-- The query for the entries of a terminal
unfoldable pub located : Time → Terminal → Blacklist → Bool
located now t e =
    is_active_entry e
    && (not_expired now e.expires_at
        && (column_eq e.ip_address t.ip_address
            || (not (is_empty t.mac_address_normalized)
                && column_eq e.mac_address_normalized t.mac_address_normalized)))

-- `entry.ip_address or ip_address`
abbrev pub blocked_ip : Terminal → Blacklist → Text
blocked_ip t e = if present e.ip_address then or_else e.ip_address [] else t.ip_address

unfoldable pub firewall_tags : List Binding → Blacklist → List Text
firewall_tags bindings e =
    if present e.firewall_tag
    then or_else e.firewall_tag [] ∷ []
    else if present e.source_tag
    then bound_firewall_tags bindings e.source_tag
    else []

module _ (world : World) (t : Terminal) where
  -- `entry_success`, of an entry with firewalls
  unfoldable pub entry_success : Blacklist → Bool
  unfolding firewall_tags all
  entry_success e =
      let tags = firewall_tags world.bindings e in
      not (is_empty tags)
      && all (λ tag. unblock_on_firewall world.sources world.appliance (blocked_ip t e) tag) tags

  unfoldable pub entries_of : List Blacklist → List Blacklist
  unfolding located select
  entries_of rows = select (located world.now t) rows

  -- Every firewall of every entry is asked, whatever the others answered.
  unfoldable pub requests_of : List Blacklist → List (Text × Text)
  unfolding firewall_tags
  requests_of [] = []
  requests_of (e ∷ es) =
      map (λ tag. (blocked_ip t e, tag)) (firewall_tags world.bindings e) ++ requests_of es

  -- One turn of the loop over the terminals: which branch it ends in
  unfoldable pub settle : List Blacklist → Settled
  unfolding entries_of entry_success all any
  settle rows =
      let entries = entries_of rows in
      if is_empty entries
      then not_located
      else if all entry_success entries
      then all_success
      else if any (λ e. not (is_empty (firewall_tags world.bindings e))) entries
      then partial_or_failed
      else not_located

abbrev pub reason_of : Settled → Text
reason_of all_success = codes "excluded_by_rule"
reason_of _ = codes "excluded_by_rule（部分成功）"

abbrev pub is_all_success : Settled → Bool
is_all_success all_success = true
is_all_success _ = false

unfoldable pub freed : World → List Blacklist → Terminal → Bool
unfolding settle
freed world rows t = is_all_success (settle world t rows)

-- The row that is left of `e`, a row as the queries read it, after the terminals in turn: `now_is`
-- is what the earlier ones made of it.
unfoldable pub close_for :
    World → List Blacklist → List Terminal → Blacklist → Blacklist → Blacklist
unfolding settle
close_for world rows [] e now_is = now_is
close_for world rows (t ∷ ts) e now_is = close_for world rows ts e (
    if located world.now t e && entry_success world t e
    then close_row world.now (reason_of (settle world t rows)) now_is
    else now_is)

abbrev pub count_in : Settled → Report → Report
count_in all_success r = record r { unblocked_count = r.unblocked_count + 1 }
count_in partial_or_failed r = record r { failed = r.failed + 1 }
count_in not_located r = record r { skipped = r.skipped + 1 }

unfoldable pub report_of : World → List Blacklist → List Terminal → Report → Report
unfolding settle
report_of world rows [] r = r
report_of world rows (t ∷ ts) r = report_of world rows ts (count_in (settle world t rows) r)

unfoldable pub all_requests : World → List Blacklist → List Terminal → List (Text × Text)
unfolding requests_of entries_of
all_requests world rows [] = []
all_requests world rows (t ∷ ts) =
    requests_of world t (entries_of world t rows) ++ all_requests world rows ts

pub record Unblocking : Type 0 where
  pub report : Report
  pub unblocked_ids : List ℕ
  pub unblocked_pairs : List (Text × Text)
  pub rows : List Blacklist
  pub requests : List (Text × Text)

abbrev pub requested_report : Report
requested_report = record { requested = true; unblocked_count = 0; failed = 0; skipped = 0 }

unfoldable pub unblock_blocked_terminals : World → List Blacklist → List Terminal → Unblocking
unfolding freed close_for report_of all_requests select
unblock_blocked_terminals world rows ts =
    let done = select (freed world rows) ts in
    record {
      report = report_of world rows ts requested_report;
      unblocked_ids = map (λ t. t.id) done;
      unblocked_pairs = map (λ t. (t.ip_address, t.mac_address)) done;
      rows = map (λ e. close_for world rows ts e e) rows;
      requests = all_requests world rows ts;
    }
