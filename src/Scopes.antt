-- ===== src/Scopes.antt =====
-- The table of compliance scopes, backend/app/services/compliance_scope_service.py: the validation
-- of a value, and the operations. Each of these also drops the cached scopes, which is left out.
pub mod Stored
pub mod Reach
use terminal_access_manager.Prelude.Results.{
  Result, ok, err, scope_value_empty, cidr_without_prefix, invalid_cidr_prefix, invalid_cidr,
  invalid_ip_range, range_start_after_end, range_end_above_255, mac_prefix_segments,
  mac_prefix_segment, unknown_scope_type, ◌>>=◌, ◌>>◌, require,
}
use terminal_access_manager.Prelude.{
  ℕ, ◌+◌, Bool, true, false, not, ◌&&◌, ◌||◌, Option, none, some, List, [], ◌∷◌, ◌++◌, map, ltb,
  leb, ◌==◌, if◌then◌else◌, Text, all, select, find, is_empty, is_digit, is_some, is_upper_hex,
  length, or_else, split, strip, to_int, upper, contains_char,
}
use terminal_access_manager.Ipv4.{dot, slash, parse_ipv4, parse_network}
use terminal_access_manager.IpRange.{Range, parse_range, short_digits}
use terminal_access_manager.Mac.{colon}
use terminal_access_manager.Compliance.Scope.{
  ScopeType, ip_cidr, ip_range, mac_prefix_arp, mac_prefix_ipguard, ip_cidr_any, ip_range_any,
  mac_prefix_any, other_scope,
}

-- A row of the table compliance_scopes
pub record ScopeRow : Type 0 where
  pub id : ℕ
  pub scope_type : ScopeType
  pub scope_value : Text
  pub description : Option Text
  pub is_active : Option Bool
  pub created_by : Text

pub record Database : Type 0 where
  pub scopes : List ScopeRow
  pub next_id : ℕ

pub record Create : Type 0 where
  pub scope_type : ScopeType
  pub scope_value : Text
  pub description : Option Text

-- A field that the request leaves out is `none`, one that it sets to null is `some none`.
pub record Update : Type 0 where
  pub scope_type : Option (Option ScopeType)
  pub scope_value : Option (Option Text)
  pub description : Option (Option Text)
  pub is_active : Option (Option Bool)

abbrev last_of : List Text → Text
last_of [] = []
last_of (w ∷ []) = w
last_of (w ∷ v ∷ ws) = last_of (v ∷ ws)

unfoldable pub validate_cidr : Text → Result (Unit {0})
validate_cidr value = do
  let prefix = last_of (split slash value)
  require (contains_char slash value) cidr_without_prefix
  require ((not (is_empty prefix) && all is_digit prefix) && leb (to_int prefix) 32)
      invalid_cidr_prefix
  require (is_some (parse_network value)) invalid_cidr

abbrev check_ends : Range → Result (Unit {0})
check_ends r = do
  require (is_some (parse_ipv4 (r.prefix ++ dot ∷ b'1' ∷ []))) invalid_ip_range
  require (not (ltb (to_int r.end) (to_int r.start))) range_start_after_end
  require (not (ltb 255 (to_int r.end))) range_end_above_255

unfoldable pub validate_range : Text → Result (Unit {0})
validate_range value = elim (parse_range short_digits value) [
  | none ↦ err invalid_ip_range
  | some r ↦ check_ends r
]

-- `^[0-9A-F]{2}$`, which lets a final newline pass
abbrev is_segment : Text → Bool
is_segment (a ∷ b ∷ []) = is_upper_hex a && is_upper_hex b
is_segment (a ∷ b ∷ c ∷ []) = (is_upper_hex a && is_upper_hex b) && c == 10
is_segment _ = false

unfoldable pub validate_segments : Text → Result (Unit {0})
unfolding all
validate_segments value = do
  let segments = split colon (upper value)
  require (leb 3 (length segments) && leb (length segments) 5) mac_prefix_segments
  require (all is_segment segments) mac_prefix_segment

abbrev validate_kind : ScopeType → Text → Result (Unit {0})
validate_kind ip_cidr value = validate_cidr value
validate_kind ip_cidr_any value = validate_cidr value
validate_kind ip_range value = validate_range value
validate_kind ip_range_any value = validate_range value
validate_kind mac_prefix_arp value = validate_segments value
validate_kind mac_prefix_ipguard value = validate_segments value
validate_kind mac_prefix_any value = validate_segments value
validate_kind other_scope value = err unknown_scope_type

-- `_validate_scope_value`: the value is stripped for the checks, and only for these.
unfoldable pub validate_scope_value : ScopeType → Text → Result (Unit {0})
unfolding validate_cidr validate_range validate_segments
validate_scope_value scope_type value = do
  require (not (is_empty (strip value))) scope_value_empty
  validate_kind scope_type (strip value)

unfoldable pub get_scope : ℕ → List ScopeRow → Option ScopeRow
unfolding find
get_scope id scopes = find (λ s. s.id == id) scopes

abbrev pub new_scope : Database → Create → Text → ScopeRow
new_scope db request username = record {
  id = db.next_id;
  scope_type = request.scope_type;
  scope_value = request.scope_value;
  description = request.description;
  is_active = some true;
  created_by = username;
}

unfoldable pub create_scope : Create → Text → Database → Result Database
unfolding validate_scope_value
create_scope request username db = do
  validate_scope_value request.scope_type request.scope_value
  ok (record { scopes = db.scopes ++ new_scope db request username ∷ []; next_id = db.next_id + 1 })

-- A null type is none of the known ones, and a null value is empty for the check.
abbrev new_type : Update → ScopeRow → ScopeType
new_type request scope = or_else (or_else request.scope_type (some scope.scope_type)) other_scope

abbrev new_value : Update → ScopeRow → Text
new_value request scope = or_else (or_else request.scope_value (some scope.scope_value)) []

abbrev pub updated_scope : Update → ScopeRow → ScopeRow
updated_scope request scope = record scope {
  scope_type = new_type request scope;
  scope_value = new_value request scope;
  description = or_else request.description scope.description;
  is_active = or_else request.is_active scope.is_active;
}

abbrev pub validate_update : Update → ScopeRow → Result (Unit {0})
validate_update request scope =
    if is_some request.scope_type || is_some request.scope_value
    then validate_scope_value (new_type request scope) (new_value request scope)
    else ok tt

unfoldable pub replace_scope : ScopeRow → List ScopeRow → List ScopeRow
replace_scope scope scopes = map (λ s. if s.id == scope.id then scope else s) scopes

abbrev pub update_found : Update → Database → ScopeRow → Result Database
update_found request db scope = do
  validate_update request scope
  ok (record db { scopes = replace_scope (updated_scope request scope) db.scopes })

unfoldable pub update_scope : ℕ → Update → Database → Result Database
unfolding get_scope validate_scope_value replace_scope
update_scope id request db = elim (get_scope id db.scopes) [
  | none ↦ ok db
  | some scope ↦ update_found request db scope
]

unfoldable pub delete_scope : ℕ → Database → Database × Bool
unfolding get_scope select
delete_scope id db =
    if is_some (get_scope id db.scopes)
    then (record db { scopes = select (λ s. not (s.id == id)) db.scopes }, true)
    else (db, false)

abbrev pub toggled : ScopeRow → ScopeRow
toggled scope = record scope { is_active = some (not (or_else scope.is_active false)) }

unfoldable pub toggle_scope : ℕ → Database → Database
unfolding get_scope replace_scope
toggle_scope id db = elim (get_scope id db.scopes) [
  | none ↦ db
  | some scope ↦ record db { scopes = replace_scope (toggled scope) db.scopes }
]
