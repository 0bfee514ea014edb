-- ===== src/Compliance/Recalc/Laws.antt =====
-- What a turn of the recalculation decides, in one description.
use terminal_access_manager.Prelude.{
  ℕ, ◌≡◌, refl, Bool, true, false, not, ◌&&◌, Option, some, List, leb, if◌then◌else◌, Text, is_some,
  arith,
}
use terminal_access_manager.Models.{
  Terminal, Compliance, compliant, bypass, non_compliant, compliance_eq,
}
use terminal_access_manager.Mac.{norm_mac_key}
use terminal_access_manager.Compliance.Counts.{
  mac_non_compliant_total, reset_mac_non_compliant_counts, without_count, put,
}
use terminal_access_manager.Compliance.Counts.Laws.{
  SameCount, total-put-same, total-reset, total-put-zero,
}
use terminal_access_manager.Compliance.Settings.{whitelist_miss_threshold}
use terminal_access_manager.Compliance.Recalc.{
  Run, Facts, in_ip_grace_period, guard_hold, downgrade_threshold, count_and_compare,
  whitelist_miss, confirm_downgrade, miss, missed, missed_at, decide_by,
}

abbrev pub mac_key : Terminal → Option Text
mac_key t = norm_mac_key (some t.mac_address)

-- The count of the device, this miss included
abbrev pub counted : Terminal → List Terminal → ℕ
counted t ts = mac_non_compliant_total (mac_key t) (put (missed t) ts)

-- The count that takes a status away
abbrev pub required : Run → Facts → Terminal → ℕ
required run f t =
    if compliance_eq t.compliance_status bypass
    then whitelist_miss_threshold run.config
    else downgrade_threshold run.config t f

-- Whether a miss is held back: the guards do not protect a whitelisted terminal.
abbrev pub held : Run → Terminal → Bool
held run t = not (compliance_eq t.compliance_status bypass) && guard_hold run t

-- When a turn takes a status away
abbrev pub is_confirmed : Run → Facts → Terminal → List Terminal → Bool
is_confirmed run f t ts =
    not (f.use_ip_only && f.mac_found)
    && (not (in_ip_grace_period run t)
        && (not run.ipguard_cache_stale
            && (not (held run t) && leb (required run f t) (counted t ts))))

count_status :
    (threshold : ℕ) (t : Terminal) (ts : List Terminal)
    → (count_and_compare threshold t ts).status ≡ (
        if leb threshold (mac_non_compliant_total (mac_key t) (put t ts))
        then non_compliant
        else t.compliance_status)
unfolding count_and_compare
count_status threshold t ts = ground arith

counted_alike :
    (t u : Terminal) (ts : List Terminal)
    → SameCount u (missed t)
    → mac_non_compliant_total (mac_key t) (put u ts) ≡ counted t ts
counted_alike t u ts s = total-put-same (mac_key t) u (missed t) ts s

confirm_status :
    (run : Run) (f : Facts) (t : Terminal) (ts : List Terminal)
    → (confirm_downgrade run f t ts).status ≡ (
        if guard_hold run t
        then t.compliance_status
        else if leb (downgrade_threshold run.config t f) (counted t ts)
        then non_compliant
        else t.compliance_status)
unfolding confirm_downgrade
confirm_status run f t ts =
    let u = missed_at run.now t in
    ground (
      arith,
      count_status (downgrade_threshold run.config t f) u ts,
      counted_alike t u ts (record { id = refl; key = refl; count = refl }),
    )

whitelist_miss_status :
    (run : Run) (t : Terminal) (ts : List Terminal)
    → (whitelist_miss run t ts).status ≡ (
        if leb (whitelist_miss_threshold run.config) (counted t ts)
        then non_compliant
        else t.compliance_status)
unfolding whitelist_miss
whitelist_miss_status run t ts = count_status (whitelist_miss_threshold run.config) (missed t) ts

-- A miss takes the status away exactly if it is not held and the count is full.
miss_status :
    (run : Run) (f : Facts) (t : Terminal) (ts : List Terminal)
    → (miss run f t ts).status ≡ (
        if not (held run t) && leb (required run f t) (counted t ts)
        then non_compliant
        else t.compliance_status)
unfolding miss
miss_status run f t ts = ground (arith, whitelist_miss_status run t ts, confirm_status run f t ts)

-- A turn of the recalculation decides bypass on a whitelist match, else compliant on a baseline
-- match outside the grace period of the address, else non-compliant exactly if the miss is
-- confirmed (not an IP-only scope with the MAC found, not in the grace period, cache fresh, no
-- guard, and the count of the device with this miss reaches the threshold of the status), else
-- the status as it was.
pub decide_by_status :
    (run : Run) (f : Facts) (t : Terminal) (ts : List Terminal)
    → (decide_by run f t ts).status ≡ (
        if is_some f.whitelisted
        then bypass
        else if not (in_ip_grace_period run t) && f.ig_match
        then compliant
        else if is_confirmed run f t ts
        then non_compliant
        else t.compliance_status)
unfolding decide_by
decide_by_status run f t ts = ground (arith, miss_status run f t ts)

compliance_eq-true : (a b : Compliance) → compliance_eq a b ≡ true → a ≡ b
compliance_eq-true a b h = ground arith

-- The rows after a confirmed downgrade
count_reset :
    (threshold : ℕ) (t : Terminal) (ts : List Terminal)
    → compliance_eq t.compliance_status non_compliant ≡ false
    → (count_and_compare threshold t ts).status ≡ non_compliant
    → mac_non_compliant_total (mac_key t) (count_and_compare threshold t ts).table ≡ 0
unfolding count_and_compare
count_reset threshold t ts old h =
    let key = mac_key t in
    ground (
      arith,
      total-put-zero key (without_count t) (reset_mac_non_compliant_counts key (put t ts)),
      total-reset key (put t ts),
    )

confirm_reset :
    (run : Run) (f : Facts) (t : Terminal) (ts : List Terminal)
    → compliance_eq t.compliance_status non_compliant ≡ false
    → (confirm_downgrade run f t ts).status ≡ non_compliant
    → mac_non_compliant_total (mac_key t) (confirm_downgrade run f t ts).table ≡ 0
unfolding confirm_downgrade
confirm_reset run f t ts old h =
    let u = missed_at run.now t in
    ground (arith, count_reset (downgrade_threshold run.config t f) u ts)

miss_reset :
    (run : Run) (f : Facts) (t : Terminal) (ts : List Terminal)
    → compliance_eq t.compliance_status non_compliant ≡ false
    → (miss run f t ts).status ≡ non_compliant
    → mac_non_compliant_total (mac_key t) (miss run f t ts).table ≡ 0
unfolding miss whitelist_miss
miss_reset run f t ts old h = ground (
  arith,
  confirm_reset run f t ts,
  count_reset (whitelist_miss_threshold run.config) (missed t) ts,
)

-- When a turn decides non-compliant for a terminal that was not, the sum of the counts of its
-- device is 0 in the rows that it leaves.
pub decide_by_reset :
    (run : Run) (f : Facts) (t : Terminal) (ts : List Terminal)
    → compliance_eq t.compliance_status non_compliant ≡ false
    → (decide_by run f t ts).status ≡ non_compliant
    → mac_non_compliant_total (mac_key t) (decide_by run f t ts).table ≡ 0
unfolding decide_by
decide_by_reset run f t ts old h = ground (arith, miss_reset run f t ts)
