-- ===== src/Exclusion/Purge/Reports.antt =====
-- The report of `_unblock_blocked_terminals`, and the entries that it leaves.
use terminal_access_manager.Prelude.{
  ◌+◌, ◌≡◌, refl, ap, ap₂, ◌∙◌, Bool, true, false, not, ◌&&◌, ◌||◌, any, all, is_empty, List, [],
  ◌∷◌, map, if◌then◌else◌, Text, select, length, arith,
}
use terminal_access_manager.Models.{Time, Terminal, Blacklist, is_active_entry}
use terminal_access_manager.Compliance.Firewall.{unblock_on_firewall}
use terminal_access_manager.Compliance.Unblock.{close_row}
use terminal_access_manager.Exclusion.Purge.Unblocking.{
  World, Report, located, firewall_tags, blocked_ip, entry_success, settle, reason_of, freed,
  count_in, report_of, requested_report, close_for, unblock_blocked_terminals,
}

is_active_entry-close_if :
    (b : Bool) (now : Time) (reason : Text) (e : Blacklist)
    → is_active_entry (if b then close_row now reason e else e) ≡ (is_active_entry e && not b)
unfolding is_active_entry
is_active_entry-close_if true now reason e = ground arith
is_active_entry-close_if false now reason e = ground arith

and_not-or : (a b c : Bool) → ((a && not b) && not c) ≡ (a && not (b || c))
and_not-or a b c = ground arith

module _ (world : World) (rows : List Blacklist) where
  report_of_lem :
      (ts : List Terminal) (r : Report)
      → let s = report_of world rows ts r in
        (s.unblocked_count ≡ r.unblocked_count + length (select (freed world rows) ts))
        × (s.unblocked_count + s.failed + s.skipped
            ≡ r.unblocked_count + r.failed + r.skipped + length ts)
  unfolding report_of select freed
  report_of_lem [] r = ground arith
  report_of_lem (t ∷ ts) r = ground (arith, report_of_lem ts (count_in (settle world t rows) r))

  length-map-id : (ts : List Terminal) → length (map (λ t. t.id) ts) ≡ length ts
  length-map-id [] = refl
  length-map-id (t ∷ ts) = ground (arith, length-map-id ts)

  -- The report on unblocking counts every terminal once, and counts as unblocked as many as ids
  -- are returned.
  pub report_counts :
      (ts : List Terminal)
      → let u = unblock_blocked_terminals world rows ts in
        (u.report.unblocked_count ≡ length u.unblocked_ids)
        × (u.report.unblocked_count + u.report.failed + u.report.skipped ≡ length ts)
  unfolding unblock_blocked_terminals
  report_counts ts =
      let (a, b) = report_of_lem ts requested_report in
      (omega (arith, a, length-map-id (select (freed world rows) ts)), omega (arith, b))

  -- An entry of a terminal, on firewalls that all lift the address
  abbrev pub is_lifted : Blacklist → Terminal → Bool
  is_lifted e t =
      let tags = firewall_tags world.bindings e in
      located world.now t e
      && (not (is_empty tags)
          && all (unblock_on_firewall world.sources world.appliance (blocked_ip t e)) tags)

  is_active_entry-close_for :
      (ts : List Terminal) (e now_is : Blacklist)
      → is_active_entry (close_for world rows ts e now_is)
        ≡ (is_active_entry now_is && not (any (is_lifted e) ts))
  unfolding close_for any is_active_entry entry_success
  is_active_entry-close_for [] e now_is = ground arith
  is_active_entry-close_for (t ∷ ts) e now_is =
      let b = is_lifted e t in
      let reason = reason_of (settle world t rows) in
      let now' = if b then close_row world.now reason now_is else now_is in
      is_active_entry-close_for ts e now'
      ∙ (ap (λ x. x && not (any (is_lifted e) ts))
            (is_active_entry-close_if b world.now reason now_is)
          ∙ and_not-or (is_active_entry now_is) b (any (is_lifted e) ts))

  active-close_for :
      (ts : List Terminal) (es : List Blacklist)
      → map is_active_entry (map (λ e. close_for world rows ts e e) es)
        ≡ map (λ e. is_active_entry e && not (any (is_lifted e) ts)) es
  active-close_for ts [] = refl
  active-close_for ts (e ∷ es) =
      ap₂ (λ b bs. b ∷ bs) (is_active_entry-close_for ts e e) (active-close_for ts es)

  -- Lifting the blocks of excluded terminals leaves a blacklist row active exactly if it was
  -- active and for none of the terminals is it a located entry with at least one firewall, all of
  -- whose firewalls lift the address.
  pub unblock-active :
      (ts : List Terminal)
      → map is_active_entry (unblock_blocked_terminals world rows ts).rows
        ≡ map (λ e. is_active_entry e && not (any (is_lifted e) ts)) rows
  unfolding unblock_blocked_terminals
  unblock-active ts = active-close_for ts rows
