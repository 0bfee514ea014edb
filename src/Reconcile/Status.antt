-- ===== src/Reconcile/Status.antt =====
-- The compliance statuses across a reconciliation.
use terminal_access_manager.Prelude.{
  ◌≡◌, refl, inl, inr, Bool, true, Bool-cases, not, ◌&&◌, ◌||◌, Option, none, some, List, [], ◌∷◌,
  any, all, any_mono, all_mono, find, ◌==◌, is_empty, Text, arith,
}
use terminal_access_manager.Models.{
  Terminal, Blacklist, Compliance, bypass, non_compliant, unknown, compliance_eq,
}
use terminal_access_manager.Compliance.Whitelist.{Match}
use terminal_access_manager.Compliance.Counts.{put}
use terminal_access_manager.Compliance.Counts.Laws.{all-put}
use terminal_access_manager.Compliance.Firewall.{DataSource}
use terminal_access_manager.Reconcile.{
  Listing, parse_blocked_ips, expected_ips, without, Store, World, mark_blocked, converged,
  whitelisted, is_spared, create_for, create_entry, create_entries, newest_at, newest_of, reblocked,
  write_back, has_code_zero, reblock, reblock_all, released, repair,
}
use terminal_access_manager.Reconcile.Run.{
  Firewalls, Results, synchronize, on_answer, reconcile_all, finish, reconcile, no_results,
  enabled_firewalls, gathered,
}

-- A terminal that keeps its compliance status, or that was unknown and is judged now
unfoldable pub is_settled : Terminal → Terminal → Bool
is_settled t u =
    u.id == t.id
    && (compliance_eq u.compliance_status t.compliance_status
        || (compliance_eq t.compliance_status unknown
            && (compliance_eq u.compliance_status bypass
                || compliance_eq u.compliance_status non_compliant)))

abbrev pub comes_from : List Terminal → Terminal → Bool
comes_from ts u = any (λ t. is_settled t u) ts

is_settled_refl : (t : Terminal) → is_settled t t ≡ true
unfolding is_settled
is_settled_refl t = ground arith

compliance_eq→eq : (a b : Compliance) → compliance_eq a b ≡ true → a ≡ b
compliance_eq→eq a b h = ground arith

is_settled_trans :
    (t u v : Terminal) → is_settled t u ≡ true → is_settled u v ≡ true → is_settled t v ≡ true
unfolding is_settled
is_settled_trans t u v h k = ground arith

comes_from_trans :
    (ts : List Terminal) (u v : Terminal)
    → is_settled u v ≡ true
    → comes_from ts u ≡ true
    → comes_from ts v ≡ true
comes_from_trans ts u v k = any_mono _ _ ts (λ t h. is_settled_trans t u v h k)

-- What holds of a terminal that a query found
abbrev of_found : (Terminal → Bool) → Option Terminal → Bool
of_found p none = true
of_found p (some t) = p t

of_found-newest_of :
    (p : Terminal → Bool) (t : Terminal) (u : Option Terminal)
    → p t ≡ true
    → of_found p u ≡ true
    → p (newest_of t u) ≡ true
of_found-newest_of p t none h k = h
of_found-newest_of p t (some u) h k = ground arith

all-newest_at :
    (p : Terminal → Bool) (ip : Text) (ts : List Terminal)
    → all p ts ≡ true
    → of_found p (newest_at ip ts) ≡ true
unfolding all newest_at
all-newest_at p ip [] h = refl
all-newest_at p ip (u ∷ ts) h =
    ground (arith, all-newest_at p ip ts, of_found-newest_of p u (newest_at ip ts))

all-found :
    (p q : Terminal → Bool) (ts : List Terminal) → all p ts ≡ true → of_found p (find q ts) ≡ true
unfolding all find
all-found p q [] h = refl
all-found p q (t ∷ ts) h = ground (arith, all-found p q ts)

is_settled-created :
    (found : Option Match) (t : Terminal) → is_settled t (converged found (mark_blocked t)) ≡ true
unfolding is_settled
is_settled-created found t = ground arith

is_settled-reblocked : (fw : Text) (t : Terminal) → is_settled t (reblocked fw t) ≡ true
unfolding is_settled
is_settled-reblocked fw t = ground arith

is_settled-released : (t : Terminal) → is_settled t (released t) ≡ true
unfolding is_settled
is_settled-released t = ground arith

-- All terminals of a store come from those of the start.
abbrev pub all_from : List Terminal → List Terminal → Bool
all_from ts us = all (comes_from ts) us

module _ (ts : List Terminal) (w : World) where
  put_from :
      (u v : Terminal) (us : List Terminal)
      → is_settled u v ≡ true
      → comes_from ts u ≡ true
      → all_from ts us ≡ true
      → all_from ts (put v us) ≡ true
  put_from u v us h k a = all-put (comes_from ts) v us (comes_from_trans ts u v h k) a

  create_for_from :
      (fw ip : Text) (t : Option Terminal) (s : Store)
      → of_found (comes_from ts) t ≡ true
      → all_from ts s.terminals ≡ true
      → all_from ts (create_for w fw ip t s).terminals ≡ true
  create_for_from fw ip none s h a = a
  create_for_from fw ip (some t) s h a =
      let found = whitelisted w t ip in
      let put = put_from t _ s.terminals (is_settled-created found t) h a in
      elim (Bool-cases (is_spared found t)) [ inl e ↦ rw e put | inr e ↦ rw e put ]

  create_entries_from :
      (fw : Text) (ips : List Text) (s : Store)
      → all_from ts s.terminals ≡ true
      → all_from ts (create_entries w fw ips s).terminals ≡ true
  unfolding create_entries create_entry
  create_entries_from fw [] s a = a
  create_entries_from fw (ip ∷ ips) s a = create_entries_from fw ips (create_entry w fw ip s) (
      create_for_from fw ip (newest_at ip s.terminals) s
        (all-newest_at (comes_from ts) ip s.terminals a) a)

  write_back_from :
      (fw : Text) (t : Option Terminal) (us : List Terminal)
      → of_found (comes_from ts) t ≡ true
      → all_from ts us ≡ true
      → all_from ts (write_back fw t us) ≡ true
  write_back_from fw none us h a = a
  write_back_from fw (some t) us h a = put_from t _ us (is_settled-reblocked fw t) h a

  reblock_from :
      (fw ip : Text) (s : Store)
      → all_from ts s.terminals ≡ true
      → all_from ts (reblock w fw ip s).terminals ≡ true
  unfolding reblock
  reblock_from fw ip s a = elim (Bool-cases (has_code_zero (w.appliance.block_ip fw ip))) [
    | inl e ↦ rw e (write_back_from fw _ s.terminals (all-found (comes_from ts) _ s.terminals a) a)
    | inr e ↦ rw e a
  ]

  reblock_all_from :
      (fw : Text) (ips : List Text) (s : Store)
      → all_from ts s.terminals ≡ true
      → all_from ts (reblock_all w fw ips s).terminals ≡ true
  unfolding reblock_all
  reblock_all_from fw [] s a = a
  reblock_all_from fw (ip ∷ ips) s a =
      reblock_all_from fw ips (reblock w fw ip s) (reblock_from fw ip s a)

  synchronize_from :
      (fw : Text) (found expected : List Text) (r : Results)
      → all_from ts r.store.terminals ≡ true
      → all_from ts (synchronize w fw found expected r).store.terminals ≡ true
  unfolding synchronize
  synchronize_from fw found expected r a =
      reblock_all_from fw (without expected found)
        (create_entries w fw (without found expected) r.store)
        (create_entries_from fw (without found expected) r.store a)

  on_answer_from :
      (api : Firewalls) (fw : Text) (expected : List Text) (answer : Option Listing) (r : Results)
      → all_from ts r.store.terminals ≡ true
      → all_from ts (on_answer w api fw expected answer r).store.terminals ≡ true
  unfolding on_answer
  on_answer_from api fw expected none r a = a
  on_answer_from api fw expected (some l) r a =
      elim (Bool-cases (is_empty (parse_blocked_ips l) && not (is_empty expected))) [
        | inl e ↦ rw e a
        | inr e ↦ rw e (synchronize_from fw (parse_blocked_ips l) expected r a)
      ]

  reconcile_all_from :
      (api : Firewalls) (before : List Blacklist) (fws : List DataSource) (r : Results)
      → all_from ts r.store.terminals ≡ true
      → all_from ts (reconcile_all w api before fws r).store.terminals ≡ true
  unfolding reconcile_all
  reconcile_all_from api before [] r a = a
  reconcile_all_from api before (fw ∷ fws) r a =
      let expected = expected_ips w.now fw.tag before in
      let answer = api.get_blocked_ips fw.tag in
      reconcile_all_from api before fws (on_answer w api fw.tag expected answer r)
        (on_answer_from api fw.tag expected answer r a)

repair_from :
    (ts stored : List Terminal) (rows : List Blacklist) (us : List Terminal)
    → all_from ts us ≡ true
    → all_from ts (repair stored rows us) ≡ true
unfolding repair all
repair_from ts stored rows [] a = refl
repair_from ts stored rows (u ∷ us) a = ground (
  arith,
  repair_from ts stored rows us,
  comes_from_trans ts u (released u) (is_settled-released u),
)

all_from-more :
    (t : Terminal) (ts us : List Terminal) → all_from ts us ≡ true → all_from (t ∷ ts) us ≡ true
unfolding any
all_from-more t ts us h = all_mono _ _ us (λ u k. ground arith) h

all_from_self : (ts : List Terminal) → all_from ts ts ≡ true
unfolding all any
all_from_self [] = refl
all_from_self (t ∷ ts) = ground (arith, is_settled_refl t, all_from-more t ts ts, all_from_self ts)

-- Every terminal after a reconciliation has the id of one before, with the same compliance status
-- or with bypass or non-compliant where that one was unknown.
pub reconcile_from :
    (w : World) (api : Firewalls) (ts : List Terminal) (rows : List Blacklist)
    → all_from ts (reconcile w api ts rows).store.terminals ≡ true
unfolding reconcile finish
reconcile_from w api ts rows =
    let r = gathered w api ts rows in
    repair_from ts _ r.store.rows r.store.terminals (
      reconcile_all_from ts w api rows (enabled_firewalls api) (no_results ts rows)
        (all_from_self ts))
