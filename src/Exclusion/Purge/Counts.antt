-- ===== src/Exclusion/Purge/Counts.antt =====
-- The evaluation of a rule, described by selections from the table of terminals.
use mathlib.Core.List.{append_assoc, append-nil}
use terminal_access_manager.Prelude.{
  ℕ, ◌+◌, ◌≤◌, ◌≡◌, refl, sym, ap, ◌∙◌, Bool, not, ◌&&◌, List, [], ◌∷◌, ◌++◌, map, if◌then◌else◌,
  select, length, arith,
}
use terminal_access_manager.Models.{Time, Terminal, Blacklist}
use terminal_access_manager.Exclusion.{Condition}
use terminal_access_manager.Exclusion.Purge.{
  Evaluation, note, evaluate_from, evaluate, nothing, covers, can_purge, is_blocked, ids_if, one_if,
}

-- The ids of the terminals that pass a test
unfoldable pub ids_where : (Terminal → Bool) → List Terminal → List ℕ
unfolding select
ids_where p ts = map (λ t. t.id) (select p ts)

pub ids_where-cons :
    (p : Terminal → Bool) (t : Terminal) (ts : List Terminal)
    → ids_where p (t ∷ ts) ≡ ids_if (p t) t ++ ids_where p ts
unfolding ids_where
ids_where-cons p t ts = ground arith

select-cons :
    (p : Terminal → Bool) (t : Terminal) (ts : List Terminal)
    → select p (t ∷ ts) ≡ (if p t then t ∷ [] else []) ++ select p ts
unfolding select
select-cons p t ts = ground arith

module _ (now : Time) (rows : List Blacklist) (rule : Condition) where
  abbrev pub purged : Terminal → Bool
  purged t = covers rule t && can_purge now rows t

  abbrev pub kept : Terminal → Bool
  kept t = covers rule t && not (can_purge now rows t)

  abbrev pub covered_blocked : Terminal → Bool
  covered_blocked t = covers rule t && is_blocked t

  abbrev turn : Terminal → Evaluation → Evaluation
  turn t v = if covers rule t then note now rows t v else v

  turn_lists :
      (t : Terminal) (v : Evaluation)
      → ((turn t v).terminal_ids ≡ v.terminal_ids ++ ids_if (purged t) t)
        × ((turn t v).retained_ids ≡ v.retained_ids ++ ids_if (kept t) t)
        × ((turn t v).blocked_terminals
            ≡ v.blocked_terminals ++ (if covered_blocked t then t ∷ [] else []))
  unfolding note
  turn_lists t v =
      ground (
        arith,
        append-nil v.terminal_ids,
        append-nil v.retained_ids,
        append-nil v.blocked_terminals,
      )

  turn_counts :
      (t : Terminal) (v : Evaluation)
      → ((turn t v).impact.matched ≡ v.impact.matched + one_if (covers rule t))
        × ((turn t v).impact.purgeable ≡ v.impact.purgeable + one_if (purged t))
        × ((turn t v).impact.retained ≡ v.impact.retained + one_if (kept t))
        × ((turn t v).impact.blocked_count ≡ v.impact.blocked_count + one_if (covered_blocked t))
  unfolding note
  turn_counts t v = ground arith

  length-select-cons :
      (p : Terminal → Bool) (t : Terminal) (ts : List Terminal)
      → length (select p (t ∷ ts)) ≡ one_if (p t) + length (select p ts)
  unfolding select
  length-select-cons p t ts = ground arith

  evaluate_from-cons :
      (t : Terminal) (ts : List Terminal) (v : Evaluation)
      → evaluate_from now rows rule (t ∷ ts) v ≡ evaluate_from now rows rule ts (turn t v)
  unfolding evaluate_from
  evaluate_from-cons t ts v = refl

  evaluate_from_lists :
      (ts : List Terminal) (v : Evaluation)
      → let r = evaluate_from now rows rule ts v in
        (r.terminal_ids ≡ v.terminal_ids ++ ids_where purged ts)
        × (r.retained_ids ≡ v.retained_ids ++ ids_where kept ts)
        × (r.blocked_terminals ≡ v.blocked_terminals ++ select covered_blocked ts)
  evaluate_from_lists [] v =
      unfold evaluate_from ids_where select in
      (
        sym (append-nil v.terminal_ids),
        sym (append-nil v.retained_ids),
        sym (append-nil v.blocked_terminals),
      )
  evaluate_from_lists (t ∷ ts) v =
      let (a, b, c) = evaluate_from_lists ts (turn t v) in
      let (ta, tb, tc) = turn_lists t v in
      rw evaluate_from-cons (
        a
            ∙ ap (λ x. x ++ ids_where purged ts) ta
            ∙ append_assoc v.terminal_ids (ids_if (purged t) t) (ids_where purged ts)
            ∙ ap (λ x. v.terminal_ids ++ x) (sym (ids_where-cons purged t ts)),
        b
            ∙ ap (λ x. x ++ ids_where kept ts) tb
            ∙ append_assoc v.retained_ids (ids_if (kept t) t) (ids_where kept ts)
            ∙ ap (λ x. v.retained_ids ++ x) (sym (ids_where-cons kept t ts)),
        c
            ∙ ap (λ x. x ++ select covered_blocked ts) tc
            ∙ append_assoc v.blocked_terminals _ (select covered_blocked ts)
            ∙ ap (λ x. v.blocked_terminals ++ x) (sym (select-cons covered_blocked t ts)),
      )

  evaluate_from_counts :
      (ts : List Terminal) (v : Evaluation)
      → let r = evaluate_from now rows rule ts v in
        (r.impact.matched ≡ v.impact.matched + length (select (covers rule) ts))
        × (r.impact.purgeable ≡ v.impact.purgeable + length (select purged ts))
        × (r.impact.retained ≡ v.impact.retained + length (select kept ts))
        × (r.impact.blocked_count ≡ v.impact.blocked_count + length (select covered_blocked ts))
  evaluate_from_counts [] v = unfold evaluate_from select in ground arith
  evaluate_from_counts (t ∷ ts) v =
      let (a, b, c, d) = evaluate_from_counts ts (turn t v) in
      let (ta, tb, tc, td) = turn_counts t v in
      rw evaluate_from-cons (
        omega (arith, a, ta, length-select-cons (covers rule) t ts),
        omega (arith, b, tb, length-select-cons purged t ts),
        omega (arith, c, tc, length-select-cons kept t ts),
        omega (arith, d, td, length-select-cons covered_blocked t ts),
      )

  -- The evaluation of a rule returns the ids of the covered terminals that may be deleted, the
  -- ids of the other covered ones, and the covered blocked terminals, each in the order of the
  -- table.
  pub evaluate_lists :
      (ts : List Terminal)
      → let r = evaluate now rows rule ts in
        (r.terminal_ids ≡ ids_where purged ts)
        × (r.retained_ids ≡ ids_where kept ts)
        × (r.blocked_terminals ≡ select covered_blocked ts)
  unfolding evaluate
  evaluate_lists ts = evaluate_from_lists ts nothing

  three_counts :
      (ts : List Terminal)
      → (length (select (covers rule) ts) ≡ length (select purged ts) + length (select kept ts))
        × (length (select covered_blocked ts) ≤ length (select kept ts))
  unfolding select
  three_counts [] = ground arith
  three_counts (t ∷ ts) = ground (arith, three_counts ts)

  -- The number matched is that of the covered terminals, it is the sum of the purgeable and the
  -- retained ones, and the blocked ones are no more than the retained.
  pub evaluate_counts :
      (ts : List Terminal)
      → let i = (evaluate now rows rule ts).impact in
        (i.matched ≡ length (select (covers rule) ts))
        × (i.matched ≡ i.purgeable + i.retained)
        × (i.blocked_count ≤ i.retained)
  unfolding evaluate
  evaluate_counts ts =
      let (a, b, c, d) = evaluate_from_counts ts nothing in
      let (split, blocked) = three_counts ts in
      (omega (arith, a), omega (arith, a, b, c, split), omega (arith, c, d, blocked))
