-- ===== src/Reconcile/Repair.antt =====
-- `_repair_stale_terminal_status`, and what a run that committed leaves.
use terminal_access_manager.Prelude.{
  ◌+◌, ◌<◌, ◌≡◌, refl, Bool, true, false, not, ◌&&◌, ◌||◌, List, [], ◌∷◌, any, all, ◌==◌, arith,
}
use terminal_access_manager.Models.{Terminal, Blacklist}
use terminal_access_manager.Reconcile.{World, is_orphan, released, repair}
use terminal_access_manager.Reconcile.Run.{Firewalls, Results, finish, gathered, reconcile}

abbrev pub backed : List Blacklist → Terminal → Bool
backed rows t = not (is_orphan rows t)

is_orphan-released : (rows : List Blacklist) (t : Terminal) → is_orphan rows (released t) ≡ false
unfolding is_orphan
is_orphan-released rows t = refl

-- The terminals that the query finds
abbrev is_found : List Terminal → List Blacklist → Terminal → Bool
is_found stored rows t = any (λ s. s.id == t.id && is_orphan rows s) stored

-- Repairing terminals that are all stored
repair_from :
    (stored : List Terminal) (rows : List Blacklist) (ts : List Terminal)
    → all (λ t. not (is_orphan rows t) || is_found stored rows t) ts ≡ true
    → all (backed rows) (repair stored rows ts) ≡ true
unfolding repair all
repair_from stored rows [] h = refl
repair_from stored rows (t ∷ ts) h =
    ground (arith, is_orphan-released rows t, repair_from stored rows ts)

found-more :
    (x : Terminal) (stored : List Terminal) (rows : List Blacklist) (ts : List Terminal)
    → all (λ t. not (is_orphan rows t) || is_found stored rows t) ts ≡ true
    → all (λ t. not (is_orphan rows t) || is_found (x ∷ stored) rows t) ts ≡ true
unfolding all any
found-more x stored rows [] h = refl
found-more x stored rows (t ∷ ts) h = ground (arith, found-more x stored rows ts)

found_self :
    (rows : List Blacklist) (ts : List Terminal)
    → all (λ t. not (is_orphan rows t) || is_found ts rows t) ts ≡ true
unfolding all any
found_self rows [] = refl
found_self rows (t ∷ ts) = ground (arith, found-more t ts rows ts, found_self rows ts)

-- With the terminals stored as they are, every terminal that is blocked after the repair is backed
-- by an active row.
pub repair_backs :
    (rows : List Blacklist) (ts : List Terminal) → all (backed rows) (repair ts rows ts) ≡ true
repair_backs rows ts = repair_from ts rows ts (found_self rows ts)

finish_backs :
    (before : List Terminal) (r : Results)
    → 0 < r.created + r.reblocked
    → all (backed r.store.rows) (finish before r).store.terminals ≡ true
unfolding finish
finish_backs before r h = ground (arith, repair_backs r.store.rows r.store.terminals)

-- After a reconciliation that created a row or sent a block again, every blocked terminal is
-- backed by an active row.
pub reconcile_backs :
    (w : World) (api : Firewalls) (ts : List Terminal) (rows : List Blacklist)
    → let r = reconcile w api ts rows in
      0 < r.created + r.reblocked → all (backed r.store.rows) r.store.terminals ≡ true
unfolding reconcile finish
reconcile_backs w api ts rows h = finish_backs ts (gathered w api ts rows) h
