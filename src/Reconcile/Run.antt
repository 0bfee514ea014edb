-- ===== src/Reconcile/Run.antt =====
-- `reconcile` of firewall_reconciliation_service.py: the loop over the firewalls.
use terminal_access_manager.Prelude.{
  ℕ, ◌+◌, ◌-◌, Bool, true, not, ◌&&◌, ◌||◌, Option, none, some, List, [], ◌∷◌, ◌++◌, map, select,
  if◌then◌else◌, ltb, is_empty, length, Text,
}
use terminal_access_manager.Models.{Terminal, Blacklist}
use terminal_access_manager.Compliance.Firewall.{DataSource}
use terminal_access_manager.Reconcile.{
  Listing, parse_blocked_ips, expected_ips, without, Store, World, create_entries, reblock_all,
  repair, has_code_zero,
}

-- What the service reads besides the tables: `get_blocked_ips` of a firewall, `none` when its
-- service cannot be had or the call raises, and the search for one address, which may raise
pub record Firewalls : Type 0 where
  pub sources : List DataSource
  pub get_blocked_ips : Text → Option Listing
  pub find_blacklist_entry : Text → Text → Option Bool

pub data FirewallError : Type 0 where
  faulty_list unknown_state query_failed : FirewallError

-- `results`; the numbers of created rows and of blocks sent again are summed over the firewalls.
pub record Results : Type 0 where
  pub store : Store
  pub firewall_ip_count : ℕ
  pub created : ℕ
  pub reblocked : ℕ
  pub missing_in_db : List (Text × Text)
  pub missing_in_firewall : List (Text × Text)
  pub firewall_errors : List (Text × FirewallError)

abbrev failed : Text → FirewallError → Results → Results
failed fw e r = record r { firewall_errors = r.firewall_errors ++ (fw, e) ∷ [] }

-- The probe with an address that the rows expect, when the list is empty
abbrev probed : Option Bool → FirewallError
probed (some true) = faulty_list
probed _ = unknown_state

abbrev probe : Firewalls → Text → List Text → FirewallError
probe api fw [] = unknown_state
probe api fw (ip ∷ ips) = probed (api.find_blacklist_entry fw ip)

abbrev count_codes : World → Text → List Text → ℕ
count_codes w fw [] = 0
count_codes w fw (ip ∷ ips) =
    (if has_code_zero (w.appliance.block_ip fw ip) then 1 else 0) + count_codes w fw ips

-- A firewall whose list is taken
unfoldable pub synchronize : World → Text → (found expected : List Text) → Results → Results
unfolding create_entries reblock_all without
synchronize w fw found expected r =
    let missing = without found expected in
    let lost = without expected found in
    let created = create_entries w fw missing r.store in
    record r {
      store = reblock_all w fw lost created;
      firewall_ip_count = r.firewall_ip_count + length found;
      created = r.created + (length created.rows - length r.store.rows);
      reblocked = r.reblocked + count_codes w fw lost;
      missing_in_db = r.missing_in_db ++ map (λ ip. (fw, ip)) missing;
      missing_in_firewall = r.missing_in_firewall ++ map (λ ip. (fw, ip)) lost;
    }

-- The answer of a firewall, with the addresses that the rows expected on it before the run
unfoldable pub on_answer : World → Firewalls → Text → List Text → Option Listing → Results → Results
unfolding parse_blocked_ips synchronize
on_answer w api fw expected none r = failed fw query_failed r
on_answer w api fw expected (some l) r =
    let found = parse_blocked_ips l in
    if is_empty found && not (is_empty expected)
    then failed fw (probe api fw expected) r
    else synchronize w fw found expected r

-- `before` has the rows as they were at the start of the run.
unfoldable pub reconcile_all :
    World → Firewalls → List Blacklist → List DataSource → Results → Results
unfolding on_answer expected_ips
reconcile_all w api before [] r = r
reconcile_all w api before (fw ∷ fws) r =
    reconcile_all w api before fws
      (on_answer w api fw.tag (expected_ips w.now fw.tag before) (api.get_blocked_ips fw.tag) r)

abbrev pub no_results : List Terminal → List Blacklist → Results
no_results ts rows = record {
  store = record { terminals = ts; rows = rows; requests = [] };
  firewall_ip_count = 0;
  created = 0;
  reblocked = 0;
  missing_in_db = [];
  missing_in_firewall = [];
  firewall_errors = [];
}

-- `if total_created > 0 or total_reblocked > 0: commit`, then the repair
unfoldable pub finish : List Terminal → Results → Results
unfolding repair
finish before r =
    let stored = if ltb 0 r.created || ltb 0 r.reblocked then r.store.terminals else before in
    record r { store = record r.store { terminals = repair stored r.store.rows r.store.terminals } }

abbrev pub enabled_firewalls : Firewalls → List DataSource
enabled_firewalls api = select (λ s. s.is_sangfor && s.enabled) api.sources

-- What the loop over the firewalls leaves
abbrev pub gathered : World → Firewalls → List Terminal → List Blacklist → Results
gathered w api ts rows = reconcile_all w api rows (enabled_firewalls api) (no_results ts rows)

unfoldable pub reconcile : World → Firewalls → List Terminal → List Blacklist → Results
unfolding reconcile_all finish select
reconcile w api ts rows = finish ts (gathered w api ts rows)
