-- ===== src/Exclusion/Purge.antt =====
-- What a rule does to the terminals that it covers, backend/app/services/terminal_exclusion_service.py:
-- `_evaluate`, `_unblock_blocked_terminals`, `purge_matching` and `clear_stale_exclusion_flags`.
-- The session does not flush before a query, so each query of the unblocking loop reads the rows as
-- they were before the loop. The error texts of the report are left out.
pub mod Unblocking
pub mod Tables
pub mod Counts
pub mod Deletions
pub mod Result
pub mod Flags
pub mod Reports
use terminal_access_manager.Prelude.{
  ℕ, ◌+◌, ◌-◌, Bool, true, false, not, ◌&&◌, ◌||◌, Option, none, some, List, [], ◌∷◌, ◌++◌, map,
  ltb, ◌==◌, if◌then◌else◌, Text, codes, any, all, select, length, is_empty, text_eq, or_else,
}
use terminal_access_manager.Models.{
  Time, Status, blocked, Terminal, Blacklist, status_eq, column_eq, not_expired, is_active_entry,
}
use terminal_access_manager.Compliance.Firewall.{
  DataSource, Binding, Appliance, bound_firewall_tags, unblock_on_firewall,
}
use terminal_access_manager.Compliance.Unblock.{close_row}
use terminal_access_manager.Exclusion.{Condition, present, matches_rule, matches_any}

pub data Reason : Type 0 where
  blocked_reason active_blacklist purge : Reason

pub record Sample : Type 0 where
  pub ip_address : Text
  pub mac_address : Text
  pub status : Status
  pub reason : Reason

pub record Impact : Type 0 where
  pub matched : ℕ
  pub purgeable : ℕ
  pub retained : ℕ
  pub blocked_count : ℕ
  pub samples : List Sample

-- The four results of `_evaluate`, with `collect_ids`
pub record Evaluation : Type 0 where
  pub impact : Impact
  pub terminal_ids : List ℕ
  pub retained_ids : List ℕ
  pub blocked_terminals : List Terminal

abbrev pub sample_limit : ℕ
sample_limit = 20

-- `load_active_blacklist_ips`, as the test whether an address is in the set: NULL and the empty
-- address are not.
unfoldable pub in_active_blacklist : Time → List Blacklist → Text → Bool
unfolding any
in_active_blacklist now rows ip =
    not (is_empty ip)
    && any (λ e. is_active_entry e && (not_expired now e.expires_at && column_eq e.ip_address ip))
        rows

abbrev pub is_blocked : Terminal → Bool
is_blocked t = status_eq t.status blocked

-- `can_purge`
abbrev pub can_purge : Time → List Blacklist → Terminal → Bool
can_purge now rows t = not (is_blocked t) && not (in_active_blacklist now rows t.ip_address)

abbrev pub covers : Condition → Terminal → Bool
covers rule t = matches_rule rule t.ip_address t.mac_address

abbrev reason_for : Time → List Blacklist → Terminal → Reason
reason_for now rows t =
    if is_blocked t
    then blocked_reason
    else if in_active_blacklist now rows t.ip_address
    then active_blacklist
    else purge

abbrev is_purge : Reason → Bool
is_purge purge = true
is_purge _ = false

abbrev sampled : Terminal → Reason → List Sample → List Sample
sampled t reason samples =
    if ltb (length samples) sample_limit
    then samples
      ++ record {
        ip_address = t.ip_address;
        mac_address = t.mac_address;
        status = t.status;
        reason = reason;
      }
        ∷ []
    else samples

abbrev pub one_if : Bool → ℕ
one_if b = if b then 1 else 0

abbrev pub ids_if : Bool → Terminal → List ℕ
ids_if b t = if b then t.id ∷ [] else []

-- One turn of the loop over the terminals, for a terminal that the rule covers
unfoldable pub note : Time → List Blacklist → Terminal → Evaluation → Evaluation
note now rows t v =
    let reason = reason_for now rows t in
    let i = v.impact in
    record {
      impact = record {
        matched = i.matched + 1;
        purgeable = i.purgeable + one_if (is_purge reason);
        retained = i.retained + one_if (not (is_purge reason));
        blocked_count = i.blocked_count + one_if (is_blocked t);
        samples = sampled t reason i.samples;
      };
      terminal_ids = v.terminal_ids ++ ids_if (is_purge reason) t;
      retained_ids = v.retained_ids ++ ids_if (not (is_purge reason)) t;
      blocked_terminals = v.blocked_terminals ++ (if is_blocked t then t ∷ [] else []);
    }

unfoldable pub evaluate_from :
    Time → List Blacklist → Condition → List Terminal → Evaluation → Evaluation
unfolding note
evaluate_from now rows rule [] v = v
evaluate_from now rows rule (t ∷ ts) v =
    evaluate_from now rows rule ts (if covers rule t then note now rows t v else v)

abbrev pub nothing : Evaluation
nothing = record {
  impact = record { matched = 0; purgeable = 0; retained = 0; blocked_count = 0; samples = [] };
  terminal_ids = [];
  retained_ids = [];
  blocked_terminals = [];
}

-- `_evaluate`
unfoldable pub evaluate : Time → List Blacklist → Condition → List Terminal → Evaluation
unfolding evaluate_from
evaluate now rows rule ts = evaluate_from now rows rule ts nothing
