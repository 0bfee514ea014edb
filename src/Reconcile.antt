-- ===== src/Reconcile.antt =====
-- backend/app/services/firewall_reconciliation_service.py: what the firewalls block is compared
-- with the active blacklist rows, for each firewall on its own. A Python set of addresses is a list
-- without duplicates, in the order of the firewall's answer or of the rows; the source leaves the
-- order of its sets open. Rows with a firewall have an address, so the comparison passes over rows
-- with none. One reading of the clock serves a run.
pub mod Run
pub mod Rows
pub mod Covers
pub mod Status
pub mod Repair
use terminal_access_manager.Prelude.{
  ℕ, ◌+◌, Bool, true, false, not, ◌&&◌, ◌||◌, Option, none, some, List, [], ◌∷◌, ◌++◌, map, any,
  find, select, if◌then◌else◌, leb, ltb, ◌==◌, is_empty, is_some, or_else, Text, text_eq, codes,
}
use terminal_access_manager.Models.{
  Time, Terminal, Blacklist, blocked, unblocked, status_eq, Compliance, compliant, bypass,
  non_compliant, unknown, compliance_eq, is_active_entry, column_eq, not_expired, is_null,
}
use terminal_access_manager.Compliance.Whitelist
use terminal_access_manager.Compliance.Whitelist.{match_whitelist, Match}
use terminal_access_manager.Compliance.Check.{type_of}
use terminal_access_manager.Compliance.Counts.{put}
use terminal_access_manager.Compliance.Entries.{Block, is_holder, new_row}
use terminal_access_manager.Compliance.Firewall.{Appliance, BlockAnswer}

-- An entry of the answer to `get_blocked_ips`, if it is a dict
pub record Item : Type 0 where
  pub url : Option Text
  pub src_ip : Option Text
  pub ip : Option Text

-- The answer: no dict with a dict `data` with a list `items`, or that list
pub data Listing : Type 0 where
  malformed : Listing
  items : List (Option Item) → Listing

abbrev first_truthy : Option Text → Option Text → Option Text
first_truthy none other = other
first_truthy (some []) other = other
first_truthy (some (c ∷ s)) other = some (c ∷ s)

abbrev pub address_of : Option Item → Option Text
address_of none = none
address_of (some i) = first_truthy i.url (first_truthy i.src_ip (first_truthy i.ip none))

-- `ips.add(ip)`
abbrev pub add_address : Option Text → List Text → List Text
add_address none ips = ips
add_address (some ip) ips = if any (text_eq ip) ips then ips else ip ∷ ips

abbrev addresses : List (Option Item) → List Text
addresses [] = []
addresses (i ∷ is) = add_address (address_of i) (addresses is)

unfoldable pub parse_blocked_ips : Listing → List Text
unfolding any
parse_blocked_ips malformed = []
parse_blocked_ips (items is) = addresses is

-- A row that `_get_db_active_blacklist_by_firewall` puts under a firewall
unfoldable pub is_expected : Time → Text → Blacklist → Bool
unfolding is_active_entry
is_expected now fw e =
    is_active_entry e && (column_eq e.firewall_tag fw && not_expired now e.expires_at)

-- `by_fw.get(fw_tag, set())`
unfoldable pub expected_ips : Time → Text → List Blacklist → List Text
unfolding is_expected any
expected_ips now fw [] = []
expected_ips now fw (e ∷ es) =
    let rest = expected_ips now fw es in
    if is_expected now fw e then add_address e.ip_address rest else rest

-- The set difference
unfoldable pub without : List Text → List Text → List Text
unfolding select any
without ips others = select (λ ip. not (any (text_eq ip) others)) ips

-- The tables, and the requests to block that were sent
pub record Store : Type 0 where
  pub terminals : List Terminal
  pub rows : List Blacklist
  pub requests : List (Text × Text)

-- What a run reads besides the tables
pub record World : Type 0 where
  pub now : Time
  pub block_delta : Time
  pub whitelist : List Whitelist.Entry
  pub appliance : Appliance

-- The order of `Terminal.timestamp.desc()`, in which NULL comes first
abbrev pub newer : Option Time → Option Time → Bool
newer none b = true
newer (some a) none = false
newer (some a) (some b) = leb b a

abbrev pub newest_of : Terminal → Option Terminal → Terminal
newest_of t none = t
newest_of t (some u) = if newer t.timestamp u.timestamp then t else u

-- The first of the terminals with an address, the newest first
unfoldable pub newest_at : Text → List Terminal → Option Terminal
newest_at ip [] = none
newest_at ip (t ∷ ts) =
    let rest = newest_at ip ts in if text_eq t.ip_address ip then some (newest_of t rest) else rest

abbrev pub mark_blocked : Terminal → Terminal
mark_blocked t = record t { status = blocked }

-- An unknown terminal gets the compliance status that the firewall shows.
abbrev pub converged : Option Match → Terminal → Terminal
converged found t =
    if compliance_eq t.compliance_status unknown
    then record t {
      compliance_status = if is_some found then bypass else non_compliant;
      wl_match_type = type_of found;
      non_compliant_confirm_count = 0;
      compliant_confirm_count = 0;
    }
    else t

-- Whether the whitelist keeps the row from being made
abbrev pub is_spared : Option Match → Terminal → Bool
is_spared found t =
    is_some found
    && (compliance_eq t.compliance_status bypass || compliance_eq t.compliance_status unknown)

abbrev pub source_of : Option Text → Text
source_of none = codes "reconciliation"
source_of (some []) = codes "reconciliation"
source_of (some (c ∷ s)) = c ∷ s

abbrev creation_reason : Text → Text
creation_reason fw =
    codes "Reconciliation: IP blocked on firewall '" ++ (fw ++ codes "' but missing in DB")

-- The values of the row of an address whose terminal, if there is one, is given
abbrev pub created_block : World → Text → Option Terminal → Block
created_block w fw none = record {
  mac_address = none;
  mac_norm = none;
  reason = creation_reason fw;
  source_tag = some (source_of none);
  expires_at = w.now + w.block_delta;
}
created_block w fw (some t) = record {
  mac_address = some t.mac_address;
  mac_norm = some t.mac_address_normalized;
  reason = creation_reason fw;
  source_tag = some (source_of t.source_tag);
  expires_at = w.now + w.block_delta;
}

-- The query for an existing row and the insertion: with a row, or several, there is none.
unfoldable pub insert_row : World → Text → Text → Option Terminal → List Blacklist → List Blacklist
unfolding is_holder new_row any
insert_row w fw ip t rows =
    if any (is_holder ip fw) rows
    then rows
    else rows ++ new_row w.now ip fw (created_block w fw t) ∷ []

abbrev pub whitelisted : World → Terminal → Text → Option Match
whitelisted w t ip = match_whitelist w.whitelist ip t.mac_address

abbrev pub create_for : World → Text → Text → Option Terminal → Store → Store
create_for w fw ip none s = record s { rows = insert_row w fw ip none s.rows }
create_for w fw ip (some t) s =
    let found = whitelisted w t ip in
    let terminals = put (converged found (mark_blocked t)) s.terminals in
    if is_spared found t
    then record s { terminals = terminals }
    else record s { terminals = terminals; rows = insert_row w fw ip (some t) s.rows }

-- One turn of the loop of `_create_db_entries_for_firewall`
unfoldable pub create_entry : World → Text → Text → Store → Store
unfolding newest_at insert_row put match_whitelist
create_entry w fw ip s = create_for w fw ip (newest_at ip s.terminals) s

-- `created` counts the rows that were made.
unfoldable pub create_entries : World → Text → List Text → Store → Store
unfolding create_entry
create_entries w fw [] s = s
create_entries w fw (ip ∷ ips) s = create_entries w fw ips (create_entry w fw ip s)

-- The query for the terminal of a row: by its MAC key and address, or by the address
abbrev pub owns : Option Blacklist → Text → Terminal → Bool
owns none ip t = text_eq t.ip_address ip
owns (some e) ip t =
    (is_empty (or_else e.mac_address_normalized [])
      || column_eq e.mac_address_normalized t.mac_address_normalized)
    && text_eq t.ip_address ip

-- The firewall's state written back
abbrev pub reblocked : Text → Terminal → Terminal
reblocked fw t = converged none (
    if status_eq t.status blocked then t else record t {
      status = blocked;
      firewall_tag = if is_empty (or_else t.firewall_tag []) then some fw else t.firewall_tag;
      block_state = none;
    })

abbrev pub write_back : Text → Option Terminal → List Terminal → List Terminal
write_back fw none ts = ts
write_back fw (some t) ts = put (reblocked fw t) ts

abbrev pub has_code_zero : Option BlockAnswer → Bool
has_code_zero none = false
has_code_zero (some r) = r.code == 0

-- One turn of the loop of `_reblock_on_firewall`; an exception changes nothing.
unfoldable pub reblock : World → Text → Text → Store → Store
unfolding put find is_holder
reblock w fw ip s =
    let asked = record s { requests = s.requests ++ (fw, ip) ∷ [] } in
    let entry = find (is_holder ip fw) s.rows in
    if has_code_zero (w.appliance.block_ip fw ip)
    then record asked { terminals = write_back fw (find (owns entry ip) s.terminals) s.terminals }
    else asked

unfoldable pub reblock_all : World → Text → List Text → Store → Store
unfolding reblock
reblock_all w fw [] s = s
reblock_all w fw (ip ∷ ips) s = reblock_all w fw ips (reblock w fw ip s)

-- Whether a row backs a blocked terminal in `_repair_stale_terminal_status`
unfoldable pub backs : Terminal → Blacklist → Bool
unfolding is_active_entry
backs t e =
    is_active_entry e
    && (column_eq e.ip_address t.ip_address
        && (is_null e.mac_address_normalized
            || column_eq e.mac_address_normalized t.mac_address_normalized))

unfoldable pub is_orphan : List Blacklist → Terminal → Bool
unfolding backs any
is_orphan rows t = status_eq t.status blocked && not (any (backs t) rows)

abbrev pub released : Terminal → Terminal
released t = record t { status = unblocked; firewall_tag = none }

-- The query reads the terminals as they are stored; the objects may have changes that are not
-- written yet.
unfoldable pub repair : (stored : List Terminal) → List Blacklist → List Terminal → List Terminal
unfolding is_orphan any
repair stored rows ts =
    map (λ t. if any (λ s. s.id == t.id && is_orphan rows s) stored then released t else t) ts
