-- ===== src/Tests/Reconciles.antt =====
-- Runs of the reconciliation, and its theorems at them.
use terminal_access_manager.Prelude.{
  ◌+◌, ◌*◌, ◌<◌, ◌≡◌, refl, true, none, some, [], ◌∷◌, any, all, select, text_eq, Text, codes,
  arith,
}
use terminal_access_manager.Models.{minute, Terminal, unknown}
use terminal_access_manager.Compliance.Whitelist.{match_whitelist}
use terminal_access_manager.Compliance.Entries.{is_holder}
use terminal_access_manager.Reconcile.{Item, items, World, Store, create_entries}
use terminal_access_manager.Reconcile.Run.{Firewalls, reconcile}
use terminal_access_manager.Reconcile.Rows.{IsGrown, reconcile-IsGrown}
use terminal_access_manager.Reconcile.Covers.{create_entries-holds}
use terminal_access_manager.Reconcile.Status.{all_from, reconcile_from}
use terminal_access_manager.Reconcile.Repair.{backed, reconcile_backs}
use terminal_access_manager.Tests.Samples.{stranger, firewall, obedient}

abbrev ip : Text
ip = codes "10.0.0.77"

abbrev fw : Text
fw = codes "fw1"

abbrev world : World
world = record {
  now = 1000 * minute;
  block_delta = 30 * minute;
  whitelist = [];
  appliance = obedient;
}

abbrev listed : Item
listed = record { url = none; src_ip = some ip; ip = none }

abbrev firewalls : Firewalls
firewalls = record {
  sources = firewall ∷ [];
  get_blocked_ips = λ tag. some (items (some listed ∷ none ∷ []));
  find_blacklist_entry = λ tag ip. some true;
}

abbrev newcomer : Terminal
newcomer = record stranger { compliance_status = unknown }

reconcile_from_example :
    all_from (newcomer ∷ []) (reconcile world firewalls (newcomer ∷ []) []).store.terminals ≡ true
reconcile_from_example = reconcile_from world firewalls (newcomer ∷ []) []

reconcile-IsGrown_example : IsGrown [] (reconcile world firewalls (newcomer ∷ []) []).store.rows
reconcile-IsGrown_example = reconcile-IsGrown world firewalls (newcomer ∷ []) []

-- The row of the address is created.
one_created :
    0
    < (reconcile world firewalls (newcomer ∷ []) []).created
      + (reconcile world firewalls (newcomer ∷ []) []).reblocked
unfolding reconcile text_eq select
one_created = omega arith

reconcile_backs_example :
    all
      (backed (reconcile world firewalls (newcomer ∷ []) []).store.rows)
      (reconcile world firewalls (newcomer ∷ []) []).store.terminals
    ≡ true
reconcile_backs_example = reconcile_backs world firewalls (newcomer ∷ []) [] one_created

abbrev store : Store
store = record { terminals = newcomer ∷ []; rows = []; requests = [] }

not_whitelisted : (mac : Text) → match_whitelist [] ip mac ≡ none
unfolding match_whitelist
not_whitelisted mac = refl

listed_here : any (text_eq ip) (ip ∷ []) ≡ true
unfolding any text_eq
listed_here = refl

create_entries-holds_example :
    any (is_holder ip fw) (create_entries world fw (ip ∷ []) store).rows ≡ true
create_entries-holds_example =
    create_entries-holds world fw ip not_whitelisted (ip ∷ []) store listed_here
