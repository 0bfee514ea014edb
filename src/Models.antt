-- ===== src/Models.antt =====
-- The rows of the tables `terminals` and `blacklist` (backend/app/models/terminal.py and
-- blacklist.py). A datetime is a number of microseconds since the epoch in UTC. Columns that the
-- services never read are left out, and so are the names of the operators who acted.
use terminal_access_manager.Prelude.{
  ℕ, ◌*◌, Bool, true, false, not, ◌&&◌, Option, none, some, Text, text_eq, leb,
}

abbrev pub Time : Type 0
Time = ℕ

abbrev pub second : ℕ
second = 1000000

abbrev pub minute : ℕ
minute = 60 * second

-- `TerminalStatus`
pub data Status : Type 0 where
  blocked unblocked : Status

pub data BlockState : Type 0 where
  no_firewall block_failed offline : BlockState

-- The column `compliance_status`
pub data Compliance : Type 0 where
  compliant bypass non_compliant unknown : Compliance

pub data MatchType : Type 0 where
  mac ip both : MatchType

pub record Terminal : Type 0 where
  pub id : ℕ
  pub ip_address : Text
  pub mac_address : Text
  pub mac_address_normalized : Text
  pub status : Status
  pub comments : Text
  pub timestamp : Option Time
  pub source_tag : Option Text
  pub compliance_status : Compliance
  pub wl_match_type : Option MatchType
  pub firewall_tag : Option Text
  pub non_compliant_confirm_count : ℕ
  pub compliant_confirm_count : ℕ
  pub ip_changed_at : Option Time
  pub compliance_checked_at : Option Time
  pub compliant_checked_at : Option Time
  pub block_state : Option BlockState
  pub excluded_by_rule : Bool
  pub non_compliant_type : Option MatchType
  pub device_id : Option Text

-- The values that a row is closed with, `auto_unblocked = True` among them
pub record Closing : Type 0 where
  pub closed_at : Time
  pub closing_reason : Text

-- A row of the table, with the close that the session holds for it and has not flushed. The sessions
-- have autoflush off, so a query sees the other fields only.
pub record Blacklist : Type 0 where
  pub ip_address : Option Text
  pub mac_address : Option Text
  pub mac_address_normalized : Option Text
  pub reason : Text
  pub unblock_reason : Option Text
  pub blocked_at : Time
  pub expires_at : Option Time
  pub source_tag : Option Text
  pub firewall_tag : Option Text
  pub is_auto_blocked : Bool
  pub auto_unblocked : Bool
  pub unblocked_at : Option Time
  pub unflushed : Option Closing

-- `flush()`, at one row
unfoldable pub flushed : Blacklist → Blacklist
flushed e = elim e.unflushed [
  | none ↦ e
  | some c ↦ record e {
    auto_unblocked = true;
    unblocked_at = some c.closed_at;
    unblock_reason = some c.closing_reason;
    unflushed = none;
  }
]

abbrev pub status_eq : Status → Status → Bool
status_eq blocked blocked = true
status_eq unblocked unblocked = true
status_eq _ _ = false

abbrev pub compliance_eq : Compliance → Compliance → Bool
compliance_eq compliant compliant = true
compliance_eq bypass bypass = true
compliance_eq non_compliant non_compliant = true
compliance_eq unknown unknown = true
compliance_eq _ _ = false

abbrev pub is_offline : Option BlockState → Bool
is_offline (some offline) = true
is_offline _ = false

-- `column == value` in a query: NULL equals nothing
abbrev pub column_eq : Option Text → Text → Bool
column_eq none t = false
column_eq (some s) t = text_eq s t

abbrev pub is_null {ℓ} : {A : Type ℓ} → Option A → Bool
is_null none = true
is_null (some a) = false

-- `expires_at >= now OR expires_at IS NULL`
abbrev pub not_expired : Time → Option Time → Bool
not_expired now none = true
not_expired now (some t) = leb now t

-- `auto_unblocked == False AND unblocked_at IS NULL`
unfoldable pub is_active_entry : Blacklist → Bool
is_active_entry e = not e.auto_unblocked && is_null e.unblocked_at

-- `column == value` where `value` may be `None`: the query then asks for NULL
abbrev pub same_key : Option Text → Option Text → Bool
same_key none none = true
same_key none (some t) = false
same_key (some s) none = false
same_key (some s) (some t) = text_eq s t
