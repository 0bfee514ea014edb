-- ===== src/Expiry.antt =====
-- `cleanup_expired_blacklist` of backend/app/services/terminal_service.py: expired rows of the table
-- blacklist are closed, after the address is unblocked on its firewall. The queries are made before
-- the loop, so its decisions are about the rows as they were. The recalculation that follows the
-- commit is in Compliance/Recalc/Loop.
pub mod Rows
pub mod Freed
use terminal_access_manager.Prelude.{
  ℕ, ◌+◌, ◌*◌, Bool, true, false, not, ◌&&◌, ◌||◌, Option, none, some, List, [], ◌∷◌, ◌++◌, map,
  any, select, if◌then◌else◌, ltb, ◌==◌, is_empty, is_some, or_else, length, Text, text_eq, codes,
}
use terminal_access_manager.Models.{
  Time, minute, Terminal, Blacklist, blocked, unblocked, status_eq, unknown, is_active_entry,
  column_eq, same_key, not_expired,
}
use terminal_access_manager.Compliance.Device.{non_empty}
use terminal_access_manager.Compliance.Counts.{put}

-- The service of a firewall: whether it has a base URL, and the code that `unblock_ip` answers for an
-- address, `none` when the call raises
pub record Service : Type 0 where
  pub has_base_url : Bool
  pub unblock_ip : Text → Option ℕ

-- `_get_sangfor_service_by_tag`: `none` for a firewall that is missing or disabled
abbrev pub Services : Type 0
Services = Text → Option Service

-- A row of the query: `expires_at < now AND auto_unblocked == False`
unfoldable pub is_expired_entry : Time → Blacklist → Bool
is_expired_entry now e = not (not_expired now e.expires_at) && not e.auto_unblocked

-- The rows of `active_block_pairs` for the pair of a row
unfoldable pub is_live_for : Time → Blacklist → Blacklist → Bool
unfolding is_active_entry
is_live_for now e a =
    is_active_entry a
    && (not_expired now a.expires_at
        && (same_key a.mac_address_normalized e.mac_address_normalized
            && same_key a.ip_address e.ip_address))

-- `has_other_active`: never for a row without a MAC key
unfoldable pub has_other_active : Time → List Blacklist → Blacklist → Bool
unfolding is_live_for any
has_other_active now rows e =
    is_some (non_empty e.mac_address_normalized) && any (is_live_for now e) rows

abbrev pub code_is_zero : Option ℕ → Bool
code_is_zero none = false
code_is_zero (some code) = code == 0

-- `sangfor_unblock_success`, with a service and an address
abbrev pub answered : Option Service → Text → Bool
answered none ip = false
answered (some s) ip =
    if not (is_empty ip) && s.has_base_url then code_is_zero (s.unblock_ip ip) else true

-- `sangfor_unblock_success`
abbrev pub unblock_succeeds : Services → Blacklist → Bool
unblock_succeeds services e = elim (non_empty e.firewall_tag) [
  | none ↦ true
  | some tag ↦ answered (services tag) (or_else e.ip_address [])
]

-- Whether the firewall is asked
abbrev pub asks : Services → Blacklist → Bool
asks services e = elim (non_empty e.firewall_tag) [
  | none ↦ false
  | some tag ↦ elim (services tag) [
    | none ↦ false
    | some s ↦ not (is_empty (or_else e.ip_address [])) && s.has_base_url
  ]
]

abbrev expiry_reason : Text
expiry_reason = codes "封锁时间到期自动解封"

-- The row is closed by its time: `auto_unblocked` stays false.
abbrev pub closed : Time → Blacklist → Blacklist
closed now e = record e { unblocked_at = some now; unblock_reason = some expiry_reason }

-- The row is kept for the next cleanup.
abbrev pub extended : Time → Blacklist → Blacklist
extended now e = record e { expires_at = some (now + 30 * minute) }

-- The branch that a row ends in
pub data Settled : Type 0 where
  other_active released failed : Settled

-- A turn of the loop: which branch it takes
unfoldable pub settle : Services → Time → List Blacklist → Blacklist → Settled
unfolding has_other_active
settle services now rows e =
    if has_other_active now rows e
    then other_active
    else if unblock_succeeds services e
    then released
    else failed

abbrev pub settled_row : Time → Settled → Blacklist → Blacklist
settled_row now failed e = extended now e
settled_row now _ e = closed now e

abbrev pub restored : Terminal → Terminal
restored t = record t {
  status = unblocked;
  compliance_status = unknown;
  non_compliant_confirm_count = 0;
  compliant_confirm_count = 0;
  firewall_tag = none;
  block_state = none;
}

-- `terminal_by_pair.get(pair_key)`: of several terminals, the last one
unfoldable pub terminal_of : Blacklist → List Terminal → Option Terminal
terminal_of e [] = none
terminal_of e (t ∷ ts) =
    let rest = terminal_of e ts in
    if is_some rest
    then rest
    else if column_eq e.mac_address_normalized t.mac_address_normalized
        && column_eq e.ip_address t.ip_address
    then some t
    else none

abbrev pub restore_if_blocked : Option Terminal → List Terminal → List Terminal
restore_if_blocked none ts = ts
restore_if_blocked (some t) ts = if status_eq t.status blocked then put (restored t) ts else ts

-- What a turn does to the terminals. `processed_pairs` is left out: the terminal of a pair that was
-- processed is not blocked any more.
unfoldable pub restore : Settled → Blacklist → List Terminal → List Terminal
unfolding terminal_of put
restore released e ts =
    if is_some (non_empty e.mac_address_normalized)
    then restore_if_blocked (terminal_of e ts) ts
    else ts
restore _ e ts = ts

-- The loop, over the terminals
unfoldable pub restore_all :
    Services → Time → List Blacklist → List Blacklist → List Terminal → List Terminal
unfolding settle restore
restore_all services now rows [] ts = ts
restore_all services now rows (e ∷ es) ts =
    restore_all services now rows es (restore (settle services now rows e) e ts)

pub record Cleaned : Type 0 where
  pub rows : List Blacklist
  pub terminals : List Terminal
  pub requests : List (Option Text × Option Text)
  pub count : ℕ

abbrev pub cleaned_row : Services → Time → List Blacklist → Blacklist → Blacklist
cleaned_row services now rows e =
    if is_expired_entry now e then settled_row now (settle services now rows e) e else e

unfoldable pub cleanup_expired_blacklist :
    Services → Time → List Blacklist → List Terminal → Cleaned
unfolding is_expired_entry restore_all settle select
cleanup_expired_blacklist services now rows ts =
    let expired = select (is_expired_entry now) rows in
    record {
      rows = map (cleaned_row services now rows) rows;
      terminals = restore_all services now rows expired ts;
      requests =
          map (λ e. (e.firewall_tag, e.ip_address))
            (select (λ e. not (has_other_active now rows e) && asks services e) expired);
      count = length expired;
    }
