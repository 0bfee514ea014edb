-- ===== src/Compliance/Settings/Bounds.antt =====
-- The ranges of the settings, and when the baseline counts as fresh.
use terminal_access_manager.Prelude.{
  ℕ, ◌+◌, ◌*◌, ◌≤◌, ◌≡◌, refl, max, Bool, true, ◌&&◌, Option, none, some, List, [], ◌∷◌, ◌||◌, ◌∙◌,
  leb, any, select, arith, is_empty, not, Text,
}
use terminal_access_manager.Models.{Time, minute}
use terminal_access_manager.Compliance.Settings.{
  Parsed, natural, negative, not_a_number, Config, BaselineRow, clamped, clamped_setting,
  confirm_threshold, compliant_downgrade_threshold, ipguard_absence_threshold,
  ipguard_stale_threshold_minutes, cooldown_minutes, ip_grace_minutes, confirm_min_interval_seconds,
  new_terminal_grace_minutes, compliant_grace_minutes, whitelist_miss_threshold, newest_sync,
  sync_time, successful, is_ipguard_sync_ready,
}

abbrev pub Within : ℕ → ℕ → ℕ → Type 0
Within low high n = (low ≤ n) × (n ≤ high)

clamped_bounds :
    (low high default : ℕ) (p : Parsed)
    → low ≤ default
    → default ≤ high
    → Within low high (clamped low high default p)
clamped_bounds low high default (natural n) l h = omega arith
clamped_bounds low high default negative l h = omega arith
clamped_bounds low high default not_a_number l h = omega arith

pub clamped_setting_bounds :
    (low high default : ℕ) (value : Option Text)
    → low ≤ default
    → default ≤ high
    → Within low high (clamped_setting low high default value)
unfolding clamped_setting
clamped_setting_bounds low high default none l h = (l, h)
clamped_setting_bounds low high default (some []) l h = (l, h)
clamped_setting_bounds low high default (some (c ∷ s)) l h = clamped_bounds low high default _ l h

-- Whatever text is configured, each of the ten settings is within its documented range.
pub settings_bounds :
    (config : Config)
    → Within 1 10 (confirm_threshold config)
      × Within 2 20 (compliant_downgrade_threshold config)
      × Within 2 200 (ipguard_absence_threshold config)
      × Within 5 60 (ipguard_stale_threshold_minutes config)
      × Within 1 60 (cooldown_minutes config)
      × Within 1 60 (ip_grace_minutes config)
      × Within 30 3600 (confirm_min_interval_seconds config)
      × Within 1 60 (new_terminal_grace_minutes config)
      × Within 1 60 (compliant_grace_minutes config)
      × Within 2 20 (whitelist_miss_threshold config)
unfolding confirm_threshold compliant_downgrade_threshold ipguard_absence_threshold
    ipguard_stale_threshold_minutes cooldown_minutes ip_grace_minutes confirm_min_interval_seconds
    new_terminal_grace_minutes compliant_grace_minutes whitelist_miss_threshold
settings_bounds config =
    let bounds = λ (low high default : ℕ) (value : Option Text).
      clamped_setting_bounds low high default value in
    (
      bounds 1 10 2 _ (omega arith) (omega arith),
      bounds 2 20 6 _ (omega arith) (omega arith),
      bounds 2 200 18 _ (omega arith) (omega arith),
      bounds 5 60 12 _ (omega arith) (omega arith),
      bounds 1 60 10 _ (omega arith) (omega arith),
      bounds 1 60 10 _ (omega arith) (omega arith),
      bounds 30 3600 300 _ (omega arith) (omega arith),
      bounds 1 60 10 _ (omega arith) (omega arith),
      bounds 1 60 10 _ (omega arith) (omega arith),
      bounds 2 20 6 _ (omega arith) (omega arith),
    )

-- A row whose last synchronisation is recent
abbrev fresh : Time → Time → BaselineRow → Bool
fresh now age b = leb now (sync_time b.last_sync_at + age)

leb-max : (now a b k : ℕ) → leb now (max a b + k) ≡ (leb now (a + k) || leb now (b + k))
leb-max now a b k = ground arith

leb-zero : (now a k : ℕ) → leb now (0 + k) ≡ true → leb now (a + k) ≡ true
leb-zero now a k h = ground arith

newest_fresh :
    (now age : Time) (rows : List BaselineRow)
    → (not (is_empty rows) && leb now (newest_sync rows + age)) ≡ any (fresh now age) rows
unfolding newest_sync any
newest_fresh now age [] = refl
newest_fresh now age (b ∷ []) = ground (
  arith,
  leb-max now (sync_time b.last_sync_at) 0 age,
  leb-zero now (sync_time b.last_sync_at) age,
)
newest_fresh now age (b ∷ c ∷ rows) = ground (
  arith,
  newest_fresh now age (c ∷ rows),
  leb-max now (sync_time b.last_sync_at) (newest_sync (c ∷ rows)) age,
)

any-select :
    (p q : BaselineRow → Bool) (rows : List BaselineRow)
    → any p (select q rows) ≡ any (λ b. q b && p b) rows
unfolding any select
any-select p q [] = refl
any-select p q (b ∷ rows) = ground (arith, any-select p q rows)

-- The baseline is ready exactly if some enabled row has a successful synchronisation that is not
-- older than the threshold.
pub is_ipguard_sync_ready_lem :
    (config : Config) (now : Time) (rows : List BaselineRow)
    → is_ipguard_sync_ready config now rows
      ≡ any
          (λ b.
            b.enabled
            && (successful b && fresh now (ipguard_stale_threshold_minutes config * minute) b))
          rows
unfolding is_ipguard_sync_ready
is_ipguard_sync_ready_lem config now rows =
    let age = ipguard_stale_threshold_minutes config * minute in
    newest_fresh now age (select successful (select (λ b. b.enabled) rows))
    ∙ any-select (fresh now age) successful (select (λ b. b.enabled) rows)
    ∙ any-select (λ b. successful b && fresh now age b) (λ b. b.enabled) rows
