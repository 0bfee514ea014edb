-- ===== src/Exclusion/Rules.antt =====
-- The operations on the table of exclusion rules, backend/app/services/terminal_exclusion_service.py:
-- `_find_duplicate`, `create_rule`, `update_rule`, `delete_rule` and `toggle_rule`. An error is
-- raised before anything is committed, so it leaves the database as it was.
pub mod Distinct
pub mod Table
pub mod Updates
pub mod Reach
use terminal_access_manager.Prelude.Results.{
  Result, ok, err, duplicate_rule, comments_empty, ◌>>=◌, ◌>>◌, require,
}
use terminal_access_manager.Prelude.{
  ℕ, ◌+◌, Bool, true, false, not, ◌&&◌, ◌||◌, Option, none, some, List, [], ◌∷◌, ◌++◌, map, ◌==◌,
  if◌then◌else◌, Text, any, select, find, is_empty, is_some, or_else, strip,
}
use terminal_access_manager.Models.{same_key}
use terminal_access_manager.Exclusion.{
  IpType, single_ip, cidr, ip_range, other_ip_type, MacType, mac, mac_prefix, other_mac_type,
  Condition, validate_and_normalize,
}
use terminal_access_manager.Exclusion.Purge.{Impact}
use terminal_access_manager.Exclusion.Purge.Unblocking.{World, Report}
use terminal_access_manager.Exclusion.Purge.Tables.{
  Tables, Purged, purge_matching, clear_stale_exclusion_flags,
}

-- A row of the table terminal_exclusions
pub record Rule : Type 0 where
  pub id : ℕ
  pub condition : Condition
  pub comments : Text
  pub is_active : Bool
  pub created_by : Text

-- The database; the next id is the sequence of the primary key.
pub record Database : Type 0 where
  pub rules : List Rule
  pub next_id : ℕ
  pub tables : Tables

pub record Create : Type 0 where
  pub ip_type : Option IpType
  pub ip_value : Option Text
  pub mac_type : Option MacType
  pub mac_value : Option Text
  pub comments : Text
  pub unblock_blocked : Bool

-- A field that the request leaves out is `none`, one that it sets to null is `some none`.
pub record Update : Type 0 where
  pub ip_type : Option (Option IpType)
  pub ip_value : Option (Option Text)
  pub mac_type : Option (Option MacType)
  pub mac_value : Option (Option Text)
  pub comments : Option (Option Text)
  pub is_active : Option (Option Bool)

abbrev ip_type_eq : IpType → IpType → Bool
ip_type_eq single_ip single_ip = true
ip_type_eq cidr cidr = true
ip_type_eq ip_range ip_range = true
ip_type_eq other_ip_type other_ip_type = true
ip_type_eq _ _ = false

abbrev mac_type_eq : MacType → MacType → Bool
mac_type_eq mac mac = true
mac_type_eq mac_prefix mac_prefix = true
mac_type_eq other_mac_type other_mac_type = true
mac_type_eq _ _ = false

abbrev both_or_none {ℓ} : {A : Type ℓ} → (A → A → Bool) → Option A → Option A → Bool
both_or_none eq none none = true
both_or_none eq (some a) (some b) = eq a b
both_or_none eq _ _ = false

-- The four `_column_equals` conditions
unfoldable pub same_condition : Condition → Condition → Bool
same_condition a b =
    (same_key a.ip_pattern b.ip_pattern
      && both_or_none ip_type_eq a.ip_pattern_type b.ip_pattern_type)
    && (same_key a.mac_address b.mac_address
        && both_or_none mac_type_eq a.mac_pattern_type b.mac_pattern_type)

-- The id that `exclude_id` takes out of the search
abbrev pub excluded_id : Option ℕ → ℕ → Bool
excluded_id none id = false
excluded_id (some k) id = id == k

-- Whether `_find_duplicate` returns a rule
unfoldable pub find_duplicate : List Rule → Condition → Option ℕ → Bool
unfolding any
find_duplicate rules values exclude_id =
    any (λ r. same_condition r.condition values && not (excluded_id exclude_id r.id)) rules

-- `load_active_rules`
unfoldable pub load_active_rules : List Rule → List Condition
unfolding select
load_active_rules rules = map (λ r. r.condition) (select (λ r. r.is_active) rules)

-- `get_rule`
unfoldable pub get_rule : ℕ → List Rule → Option Rule
unfolding find
get_rule id rules = find (λ r. r.id == id) rules

-- What a call returns, and the database that it leaves
pub record Changed : Type 0 where
  pub database : Database
  pub rule : Option Rule
  pub impact : Option Impact
  pub unblock : Option Report
  pub requests : List (Text × Text)

abbrev pub unchanged : Database → Changed
unchanged db = record { database = db; rule = none; impact = none; unblock = none; requests = [] }

abbrev pub purged_database : World → Database → Rule → Bool → Changed
purged_database world db rule unblock_blocked =
    let p = purge_matching world rule.condition unblock_blocked db.tables in
    record {
      database = record db { tables = p.tables };
      rule = some rule;
      impact = some p.impact;
      unblock = p.unblock;
      requests = p.requests;
    }

-- The database after `clear_stale_exclusion_flags`
abbrev pub refreshed : Database → Database
refreshed db = record db {
  tables = record db.tables {
    terminals = (clear_stale_exclusion_flags (load_active_rules db.rules) db.tables.terminals).0;
  };
}

abbrev pub new_rule : Database → Create → Condition → Text → Rule
new_rule db request values username = record {
  id = db.next_id;
  condition = values;
  comments = strip request.comments;
  is_active = true;
  created_by = username;
}

abbrev pub with_new_rule : Database → Rule → Database
with_new_rule db rule = record db { rules = db.rules ++ rule ∷ []; next_id = db.next_id + 1 }

unfoldable pub create_rule : World → Create → Text → Database → Result Changed
unfolding find_duplicate purge_matching
create_rule world request username db = do
  values ←
      validate_and_normalize request.ip_type request.ip_value request.mac_type request.mac_value
  require (not (find_duplicate db.rules values none)) duplicate_rule
  let rule = new_rule db request values username
  ok (purged_database world (with_new_rule db rule) rule request.unblock_blocked)

abbrev pub conditions_changed : Update → Bool
conditions_changed request =
    (is_some request.ip_type || is_some request.ip_value)
    || (is_some request.mac_type || is_some request.mac_value)

abbrev pub checked_condition : Update → Rule → List Rule → Result Condition
checked_condition request rule rules = do
  values ←
      validate_and_normalize (or_else request.ip_type rule.condition.ip_pattern_type)
        (or_else request.ip_value rule.condition.ip_pattern)
        (or_else request.mac_type rule.condition.mac_pattern_type)
        (or_else request.mac_value rule.condition.mac_address)
  require (not (find_duplicate rules values (some rule.id))) duplicate_rule
  ok values

-- The values for the condition columns of the rule
unfoldable pub updated_condition : Update → Rule → List Rule → Result Condition
unfolding find_duplicate
updated_condition request rule rules =
    if conditions_changed request then checked_condition request rule rules else ok rule.condition

abbrev pub updated_comments : Option (Option Text) → Text → Result Text
updated_comments (some (some comments)) old = do
  require (not (is_empty (strip comments))) comments_empty
  ok (strip comments)
updated_comments _ old = ok old

abbrev pub updated_active : Option (Option Bool) → Bool → Bool
updated_active (some (some active)) old = active
updated_active _ old = old

-- The row of the rule is replaced.
unfoldable pub replace_rule : Rule → List Rule → List Rule
replace_rule rule rules = map (λ r. if r.id == rule.id then rule else r) rules

abbrev pub with_rule : Database → Rule → Database
with_rule db rule = record db { rules = replace_rule rule db.rules }

abbrev pub refresh_if : Bool → Changed → Changed
refresh_if b c = if b then record c { database = refreshed c.database } else c

abbrev pub purge_if : Bool → World → Database → Rule → Bool → Changed
purge_if b world db rule unblock_blocked =
    if b
    then purged_database world db rule unblock_blocked
    else record (unchanged db) { rule = some rule }

-- `update_rule` for a rule that was found
unfoldable pub update_found : World → Update → Database → Rule → Result Changed
unfolding updated_condition purge_matching clear_stale_exclusion_flags load_active_rules
    replace_rule
update_found world request db rule = do
  values ← updated_condition request rule db.rules
  comments ← updated_comments request.comments rule.comments
  let updated = record rule {
    condition = values;
    comments = comments;
    is_active = updated_active request.is_active rule.is_active;
  }
  let changed = conditions_changed request
  ok (
      refresh_if (changed || not updated.is_active) (
        purge_if (updated.is_active && (changed || not rule.is_active)) world (with_rule db updated)
          updated false))

unfoldable pub update_rule : World → ℕ → Update → Database → Result Changed
unfolding get_rule update_found
update_rule world id request db = elim (get_rule id db.rules) [
  | none ↦ ok (unchanged db)
  | some rule ↦ update_found world request db rule
]

-- `delete_rule`; the result says whether there was such a rule.
unfoldable pub delete_rule : ℕ → Database → Database × Bool
unfolding get_rule select clear_stale_exclusion_flags load_active_rules
delete_rule id db =
    if is_some (get_rule id db.rules)
    then (refreshed (record db { rules = select (λ r. not (r.id == id)) db.rules }), true)
    else (db, false)

abbrev pub toggled : Rule → Rule
toggled rule = record rule { is_active = not rule.is_active }

unfoldable pub toggle_rule : World → ℕ → Bool → Database → Changed
unfolding get_rule replace_rule purge_matching clear_stale_exclusion_flags load_active_rules
toggle_rule world id unblock_blocked db = elim (get_rule id db.rules) [
  | none ↦ unchanged db
  | some rule ↦ refresh_if rule.is_active (
      purge_if (not rule.is_active) world (with_rule db (toggled rule)) (toggled rule)
        unblock_blocked)
]
