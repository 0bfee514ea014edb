-- ===== src/Compliance/Recalc/Rounds.antt =====
-- The recalculations, one after another, of a terminal that the whitelist no longer matches.
use terminal_access_manager.Prelude.{
  Text, ℕ, ◌+◌, ◌≤◌, ◌<◌, ◌≡◌, refl, ◌∙◌, ap, Bool, true, not, ◌&&◌, Option, none, some, List, [],
  ◌∷◌, all, leb, ltb, ◌==◌, length, if◌then◌else◌, is_some, arith,
}
use terminal_access_manager.Models.{Terminal, bypass, non_compliant}
use terminal_access_manager.Mac.{norm_mac_key}
use terminal_access_manager.Compliance.Counts.{of_mac, mac_non_compliant_total, put}
use terminal_access_manager.Compliance.Settings.{whitelist_miss_threshold}
use terminal_access_manager.Compliance.Recalc.{
  Run, Facts, in_ip_grace_period, count_and_compare, whitelist_miss, miss, missed, decide_by,
}
use terminal_access_manager.Compliance.Recalc.Laws.{mac_key}

-- One recalculation: what holds for the run, and what the caches say of the terminal
abbrev pub Round : Type 0
Round = Run × Facts

-- A fresh cache, no match in whitelist or baseline, and no MAC to fall back on
abbrev pub is_miss : ℕ → Round → Bool
is_miss threshold (run, f) =
    not (is_some f.whitelisted)
    && (not f.ig_match
        && (not (f.use_ip_only && f.mac_found)
            && (not run.ipguard_cache_stale && whitelist_miss_threshold run.config == threshold)))

abbrev after_round : Round → Terminal → Terminal
after_round (run, f) t =
    let d = decide_by run f t (t ∷ []) in record d.terminal { compliance_status = d.status }

-- The decisions on a terminal that is alone with its MAC
unfoldable pub rounds : List Round → Terminal → Terminal
unfolding decide_by
rounds [] t = t
rounds (r ∷ rs) t = rounds rs (after_round r t)

total-alone :
    (t : Terminal)
    → of_mac (mac_key t) t ≡ true
    → mac_non_compliant_total (mac_key t) (put (missed t) (t ∷ []))
      ≡ t.non_compliant_confirm_count + 1
unfolding mac_non_compliant_total put
total-alone t h = ground arith

-- The first miss of a row
round_step :
    (threshold : ℕ) (r : Round) (t : Terminal)
    → is_miss threshold r ≡ true
    → t.compliance_status ≡ bypass
    → of_mac (mac_key t) t ≡ true
    → let u = after_round r t in
      (u.compliance_status
        ≡ (if leb threshold (t.non_compliant_confirm_count + 1) then non_compliant else bypass))
      × ((ltb (t.non_compliant_confirm_count + 1) threshold ≡ true)
          → u.non_compliant_confirm_count ≡ t.non_compliant_confirm_count + 1)
      × (u.mac_address ≡ t.mac_address)
      × (u.mac_address_normalized ≡ t.mac_address_normalized)
unfolding decide_by miss whitelist_miss count_and_compare in_ip_grace_period
round_step threshold (run, f) t m b k = ground (arith, total-alone t)

of_mac-same :
    (key : Option Text) (u t : Terminal)
    → u.mac_address_normalized ≡ t.mac_address_normalized
    → of_mac key u ≡ of_mac key t
of_mac-same none u t h = refl
of_mac-same (some k) u t h = rw h refl

keyed-same :
    (u t : Terminal)
    → u.mac_address ≡ t.mac_address
    → u.mac_address_normalized ≡ t.mac_address_normalized
    → of_mac (mac_key u) u ≡ of_mac (mac_key t) t
keyed-same u t a n = of_mac-same (mac_key u) u t n ∙ ap (λ m. of_mac (norm_mac_key (some m)) t) a

rounds_from :
    (threshold : ℕ) (rs : List Round) (t : Terminal)
    → all (is_miss threshold) rs ≡ true
    → t.compliance_status ≡ bypass
    → of_mac (mac_key t) t ≡ true
    → t.non_compliant_confirm_count < threshold
    → t.non_compliant_confirm_count + length rs ≤ threshold
    → (rounds rs t).compliance_status ≡ (
        if ltb (t.non_compliant_confirm_count + length rs) threshold then bypass else non_compliant)
unfolding rounds all
rounds_from threshold [] t m b k lt le = ground arith
rounds_from threshold (r ∷ []) t m b k lt le = ground (arith, round_step threshold r t)
rounds_from threshold (r ∷ q ∷ rs) t m b k lt le =
    let u = after_round r t in
    let step = round_step threshold r t (ground arith) b k in
    let below = step.1 (ground arith) in
    ground (
      arith,
      step,
      below,
      rounds_from threshold (q ∷ rs) u (ground arith) (ground arith)
          (keyed-same u t step.2 step.3 ∙ k) (omega (arith, below)) (omega (arith, below)),
    )

-- A bypass terminal that is alone with its MAC and has no misses counted, in at most as many
-- recalculations as the threshold of misses, in each of which the cache is fresh, the whitelist
-- and the baseline do not match it, and no scope by address alone applies to it with its MAC
-- found, is judged bypass after fewer of them than the threshold, and non-compliant after
-- threshold many.
pub rounds_lem :
    (threshold : ℕ) (rs : List Round) (t : Terminal)
    → all (is_miss threshold) rs ≡ true
    → t.compliance_status ≡ bypass
    → of_mac (mac_key t) t ≡ true
    → t.non_compliant_confirm_count ≡ 0
    → 1 ≤ threshold
    → length rs ≤ threshold
    → (rounds rs t).compliance_status
      ≡ (if ltb (length rs) threshold then bypass else non_compliant)
rounds_lem threshold rs t m b k z pos le =
    ground (arith, z, rounds_from threshold rs t m b k (omega (arith, z)) (omega (arith, z)))
