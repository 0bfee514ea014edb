-- ===== src/Compliance/Entries.antt =====
-- The queries and updates of compliance_service.py on the table `blacklist`. Where the source calls
-- `scalar_one_or_none`, two matching rows raise; `exactly_one` says that the call returns a row.
pub mod Unique
use terminal_access_manager.Prelude.{
  ℕ, ◌+◌, Bool, true, false, not, ◌&&◌, ◌||◌, Option, none, some, List, [], ◌∷◌, ◌++◌, map,
  if◌then◌else◌, Text, text_eq, any, select, leb, or_else,
}
use terminal_access_manager.Models.{
  Time, Blacklist, flushed, is_active_entry, column_eq, same_key, is_null,
}

abbrev pub exactly_one {ℓ} : {A : Type ℓ} → List A → Bool
exactly_one (x ∷ []) = true
exactly_one _ = false

abbrev at_or_after : Time → Time → Option Time → Bool
at_or_after now window none = false
at_or_after now window (some t) = leb now (t + window)

-- The rows of the query `bl_recent_stmt`: auto-unblocked for this MAC within the cooldown
unfoldable pub recent_unblocks : Time → Time → Option Text → List Blacklist → List Blacklist
unfolding select
recent_unblocks now cooldown mac_norm = select (λ e.
    same_key e.mac_address_normalized mac_norm
    && (e.auto_unblocked && at_or_after now cooldown e.unblocked_at))

-- The rows of the query `bl_recent_block_stmt`: auto-blocked for this MAC within the cooldown
unfoldable pub recent_blocks : Time → Time → Option Text → List Blacklist → List Blacklist
unfolding select
recent_blocks now cooldown mac_norm = select (λ e.
    same_key e.mac_address_normalized mac_norm
    && (e.is_auto_blocked && (leb now (e.blocked_at + cooldown) && not e.auto_unblocked)))

-- `if recent_unblock`, in a `try` whose handler passes
unfoldable pub recently_unblocked : Time → Time → Option Text → List Blacklist → Bool
unfolding recent_unblocks
recently_unblocked now cooldown mac_norm rows =
    exactly_one (recent_unblocks now cooldown mac_norm rows)

-- `if recent_block`, in a `try` whose handler passes
unfoldable pub recently_blocked : Time → Time → Option Text → List Blacklist → Bool
unfolding recent_blocks
recently_blocked now cooldown mac_norm rows = exactly_one (recent_blocks now cooldown mac_norm rows)

-- The rows of `bl_stmt` and `bl_active_stmt`: active, for this pair
unfoldable pub pair_is_active : Option Text → Text → Blacklist → Bool
unfolding is_active_entry
pair_is_active mac_norm ip e =
    same_key e.mac_address_normalized mac_norm && (column_eq e.ip_address ip && is_active_entry e)

abbrev tag_list : Option Text → List Text
tag_list none = []
tag_list (some t) = t ∷ []

-- The firewall tags of some rows
unfoldable pub tags_of : List Blacklist → List Text
tags_of [] = []
tags_of (e ∷ es) = tag_list e.firewall_tag ++ tags_of es

unfoldable pub active_firewall_tags : Option Text → Text → List Blacklist → List Text
unfolding pair_is_active tags_of select
active_firewall_tags mac_norm ip rows = tags_of (select (pair_is_active mac_norm ip) rows)

-- An active row of an address on a firewall
unfoldable pub is_holder : Text → Text → Blacklist → Bool
unfolding is_active_entry
is_holder ip firewall_tag e =
    column_eq e.ip_address ip && (column_eq e.firewall_tag firewall_tag && is_active_entry e)

-- The arguments of `_attach_active_blacklist` besides the key
pub record Block : Type 0 where
  pub mac_address : Option Text
  pub mac_norm : Option Text
  pub reason : Text
  pub source_tag : Option Text
  pub expires_at : Time

-- `if new is not None: column = new`
abbrev overwrite : Option Text → Option Text → Option Text
overwrite none old = old
overwrite (some t) old = some t

unfoldable pub updated_row : Block → Blacklist → Blacklist
updated_row b e = record e {
  mac_address = overwrite b.mac_address e.mac_address;
  mac_address_normalized = overwrite b.mac_norm e.mac_address_normalized;
  reason = b.reason;
  source_tag = b.source_tag;
  expires_at = some b.expires_at;
}

unfoldable pub new_row : Time → Text → Text → Block → Blacklist
new_row now ip firewall_tag b = record {
  ip_address = some ip;
  mac_address = b.mac_address;
  mac_address_normalized = b.mac_norm;
  reason = b.reason;
  unblock_reason = none;
  blocked_at = now;
  expires_at = some b.expires_at;
  source_tag = b.source_tag;
  firewall_tag = some firewall_tag;
  is_auto_blocked = true;
  auto_unblocked = false;
  unblocked_at = none;
  unflushed = none;
}

update_holder : Text → Text → Block → Blacklist → Blacklist
unfolding is_holder updated_row
update_holder ip firewall_tag b e = if is_holder ip firewall_tag e then updated_row b e else e

-- `_attach_active_blacklist`. The unique index on (ip, firewall) lets at most one holder be. An
-- update flushes the session, so a holder whose close was not flushed is closed then.
unfoldable pub attach_active_blacklist :
    Time → Text → Text → Block → List Blacklist → List Blacklist
unfolding update_holder new_row flushed any
attach_active_blacklist now ip firewall_tag b rows =
    if any (is_holder ip firewall_tag) rows
    then map (λ e. flushed (update_holder ip firewall_tag b e)) rows
    else rows ++ new_row now ip firewall_tag b ∷ []
