-- ===== src/Compliance/Settings.antt =====
-- The settings that steer a change of compliance: the getters of compliance_service.py over the
-- text that `ConfigService.get` returns, `none` for an absent value or a failed read. `int()` reads
-- ASCII digits here.
pub mod Bounds
use terminal_access_manager.Prelude.{
  ℕ, ◌+◌, ◌*◌, max, min, Bool, true, false, not, ◌&&◌, ◌||◌, Option, none, some, List, [], ◌∷◌,
  ◌++◌, leb, ltb, ◌==◌, if◌then◌else◌, Text, codes, all, any, is_empty, is_digit, is_some, split,
  strip, select, text_eq, to_int,
}
use terminal_access_manager.Models.{Time, minute}

-- What `int(text)` gives: it counts below all bounds when it is negative.
pub data Parsed : Type 0 where
  negative : Parsed
  natural : ℕ → Parsed
  not_a_number : Parsed

abbrev concat : List Text → Text
concat [] = []
concat (w ∷ ws) = w ++ concat ws

abbrev is_group : Text → Bool
is_group w = not (is_empty w) && all is_digit w

-- Digits, with single underscores between them
abbrev parse_digits : Text → Option ℕ
parse_digits s =
    let groups = split b'_' s in if all is_group groups then some (to_int (concat groups)) else none

abbrev unsigned : Option ℕ → Parsed
unsigned none = not_a_number
unsigned (some n) = natural n

abbrev negated : Option ℕ → Parsed
negated none = not_a_number
negated (some n) = if n == 0 then natural 0 else negative

abbrev parse_signed : Text → Parsed
parse_signed [] = not_a_number
parse_signed (c ∷ s) =
    if c == b'-'
    then negated (parse_digits s)
    else unsigned (parse_digits (if c == b'+' then s else c ∷ s))

unfoldable pub parse_int : Text → Parsed
unfolding all split
parse_int s = parse_signed (strip s)

-- `max(low, min(high, int(value)))`, and the default where `int` raises
abbrev pub clamped : ℕ → ℕ → ℕ → Parsed → ℕ
clamped low high default (natural n) = max low (min high n)
clamped low high default negative = low
clamped low high default not_a_number = default

-- `get(key) or default`: an empty text is no value.
unfoldable pub clamped_setting : ℕ → ℕ → ℕ → Option Text → ℕ
unfolding parse_int
clamped_setting low high default none = default
clamped_setting low high default (some []) = default
clamped_setting low high default (some (c ∷ s)) = clamped low high default (parse_int (c ∷ s))

abbrev pub Config : Type 0
Config = Text → Option Text

module _ (config : Config) where
  unfoldable pub confirm_threshold : ℕ
  unfolding clamped_setting
  confirm_threshold = clamped_setting 1 10 2 (config (codes "compliance_confirm_threshold"))

  unfoldable pub compliant_downgrade_threshold : ℕ
  unfolding clamped_setting
  compliant_downgrade_threshold =
      clamped_setting 2 20 6 (config (codes "compliance_compliant_downgrade_threshold"))

  unfoldable pub ipguard_absence_threshold : ℕ
  unfolding clamped_setting
  ipguard_absence_threshold =
      clamped_setting 2 200 18 (config (codes "compliance_ipguard_absence_threshold"))

  unfoldable pub ipguard_stale_threshold_minutes : ℕ
  unfolding clamped_setting
  ipguard_stale_threshold_minutes =
      clamped_setting 5 60 12 (config (codes "ipguard_stale_threshold_minutes"))

  unfoldable pub cooldown_minutes : ℕ
  unfolding clamped_setting
  cooldown_minutes = clamped_setting 1 60 10 (config (codes "compliance_cooldown_minutes"))

  unfoldable pub ip_grace_minutes : ℕ
  unfolding clamped_setting
  ip_grace_minutes = clamped_setting 1 60 10 (config (codes "compliance_ip_grace_minutes"))

  unfoldable pub confirm_min_interval_seconds : ℕ
  unfolding clamped_setting
  confirm_min_interval_seconds =
      clamped_setting 30 3600 300 (config (codes "compliance_confirm_min_interval_seconds"))

  unfoldable pub new_terminal_grace_minutes : ℕ
  unfolding clamped_setting
  new_terminal_grace_minutes =
      clamped_setting 1 60 10 (config (codes "compliance_new_terminal_grace_minutes"))

  unfoldable pub compliant_grace_minutes : ℕ
  unfolding clamped_setting
  compliant_grace_minutes =
      clamped_setting 1 60 10 (config (codes "compliance_compliant_grace_minutes"))

  unfoldable pub whitelist_miss_threshold : ℕ
  unfolding clamped_setting
  whitelist_miss_threshold =
      clamped_setting 2 20 6 (config (codes "compliance_whitelist_miss_threshold"))

-- A row of compliance_baselines, as the check of the last synchronisation reads it
pub record BaselineRow : Type 0 where
  pub enabled : Bool
  pub last_sync_at : Option Time
  pub last_sync_status : Option Text

abbrev succeeded : Option Text → Bool
succeeded none = false
succeeded (some s) = text_eq s (codes "success")

abbrev pub successful : BaselineRow → Bool
successful b = is_some b.last_sync_at && succeeded b.last_sync_status

abbrev pub sync_time : Option Time → Time
sync_time none = 0
sync_time (some t) = t

-- `max(b.last_sync_at for b in successful)`
unfoldable pub newest_sync : List BaselineRow → Time
newest_sync [] = 0
newest_sync (b ∷ bs) = max (sync_time b.last_sync_at) (newest_sync bs)

unfoldable pub is_ipguard_sync_ready : Config → Time → List BaselineRow → Bool
unfolding newest_sync select ipguard_stale_threshold_minutes
is_ipguard_sync_ready config now rows =
    let good = select successful (select (λ b. b.enabled) rows) in
    not (is_empty good)
    && leb now (newest_sync good + ipguard_stale_threshold_minutes config * minute)
