-- ===== src/Compliance/Recalc/Loop/Totals.antt =====
-- What the loop of `recalculate_all_compliance` keeps: its rows, its terminals and its counters.
use native.Mathlib.Nat.{le_trans}
use terminal_access_manager.Prelude.{
  Text, ℕ, ◌+◌, ◌-◌, leb, ◌≡◌, refl, subst, ◌∙◌, inl, inr, Bool, true, Bool-cases, not, Option,
  none, some, List, [], ◌∷◌, map, any, all, find, is_some, is_empty, length, ◌==◌, arith,
}
use terminal_access_manager.Models.{Terminal, Blacklist, flushed, Compliance}
use terminal_access_manager.Exclusion.{Condition, first_match}
use terminal_access_manager.Compliance.Counts.{
  put, get, without_count, reset_mac_non_compliant_counts,
}
use terminal_access_manager.Compliance.Entries.{is_holder}
use terminal_access_manager.Compliance.Entries.Unique.{IsUnique, count-map, is_holder-flushed}
use terminal_access_manager.Compliance.Work.{Env}
use terminal_access_manager.Compliance.Apply.{Applied}
use terminal_access_manager.Compliance.Apply.Rows.{apply-IsUnique}
use terminal_access_manager.Compliance.Recalc.{
  Run, Facts, missed, missed_at, downgrade_threshold, without_counts, decide, decide_by, facts_of,
  count_and_compare, whitelist_miss, confirm_downgrade, miss,
}
use terminal_access_manager.Compliance.Settings.{whitelist_miss_threshold}
use terminal_access_manager.Compliance.Recalc.Laws.{mac_key}
use terminal_access_manager.Compliance.Recalc.Loop.{
  Counters, Progress, count_result, applied, turn_for, is_offline_skip, recalculate, turn, turns,
  batch_size, flush, close_batch, begun, count_entries, Recalculated, done,
  recalculate_all_compliance,
}

-- Every way in which a terminal can be counted
abbrev pub total : Counters → ℕ
total k =
    k.bypass_count + k.compliant_count + k.non_compliant_count + k.unchanged_count
    + k.offline_skip_count + k.excluded_skip_count

total-count_result :
    (old new : Compliance) (held : Bool) (r : Applied) (k : Counters)
    → total (count_result old new held r k) ≡ total k + 1
total-count_result old new held r k = ground arith

flush-IsUnique : (p : Progress) → IsUnique p.rows → IsUnique (flush p).rows
unfolding flush
flush-IsUnique p v = record {
  at_most_one = λ i f.
      le_trans (count-map (is_holder i f) flushed p.rows (is_holder-flushed i f))
        (v.at_most_one i f);
}

-- What a flush keeps, the end of a turn keeps.
pub close_batch_cases {ℓ} :
    (P : Progress → Type ℓ) (left : ℕ) (p : Progress)
    → (P p → P (flush p))
    → P p
    → P (close_batch left p).1
unfolding close_batch
close_batch_cases P left p h k = elim (Bool-cases (leb left 1)) [
  | inl e ↦ rw e (h k)
  | inr e ↦ rw e k
]

module _ (env : Env) (run : Run) (rules : List Condition) where
  total-recalculate :
      (t : Terminal) (p : Progress)
      → total (recalculate env run rules t p).counters ≡ total p.counters + 1
  unfolding recalculate
  total-recalculate t p =
      let d = decide run t p.terminals in
      total-count_result t.compliance_status d.status d.stale_held (applied env run rules t p)
        p.counters

  total-turn :
      (t : Terminal) (p : Progress) → total (turn env run rules t p).counters ≡ total p.counters + 1
  unfolding turn
  total-turn t p = ground (arith, total-recalculate t p)

  -- A turn changes the counters only, or recalculates the terminal.
  pub turn_cases {ℓ} :
      (P : Progress → Type ℓ) (t : Terminal) (p : Progress)
      → ((k : Counters) → P (record p { counters = k }))
      → P (recalculate env run rules t p)
      → P (turn env run rules t p)
  unfolding turn
  turn_cases P t p skipped worked = elim (Bool-cases (is_offline_skip env run rules t)) [
    | inl e ↦ rw e (skipped _)
    | inr e ↦ rw e (elim (Bool-cases (is_some (first_match rules t.ip_address t.mac_address))) [
      | inl f ↦ rw f (skipped _)
      | inr f ↦ rw f worked
    ])
  ]

  recalculate-IsUnique :
      (t : Terminal) (p : Progress)
      → IsUnique p.rows
      → IsUnique (recalculate env run rules t p).rows
  unfolding recalculate
  recalculate-IsUnique t p v = apply-IsUnique env _ _ _ p.rows v

  turn-IsUnique :
      (t : Terminal) (p : Progress) → IsUnique p.rows → IsUnique (turn env run rules t p).rows
  turn-IsUnique t p v = turn_cases (λ q. IsUnique q.rows) t p (λ k. v) (recalculate-IsUnique t p v)

abbrev ids : List Terminal → List ℕ
ids ts = map (λ t. t.id) ts

ids-put : (t : Terminal) (ts : List Terminal) → ids (put t ts) ≡ ids ts
unfolding put
ids-put t [] = refl
ids-put t (u ∷ ts) = ground (arith, ids-put t ts)

ids-reset :
    (key : Option Text) (ts : List Terminal) → ids (reset_mac_non_compliant_counts key ts) ≡ ids ts
unfolding reset_mac_non_compliant_counts
ids-reset key [] = refl
ids-reset key (u ∷ ts) = ground (arith, ids-reset key ts)

ids-count :
    (threshold : ℕ) (t : Terminal) (ts : List Terminal)
    → ids (count_and_compare threshold t ts).table ≡ ids ts
unfolding count_and_compare
ids-count threshold t ts =
    let table = reset_mac_non_compliant_counts (mac_key t) (put t ts) in
    ground (arith, ids-put (without_count t) table, ids-reset (mac_key t) (put t ts), ids-put t ts)

ids-confirm :
    (run : Run) (f : Facts) (t : Terminal) (ts : List Terminal)
    → ids (confirm_downgrade run f t ts).table ≡ ids ts
unfolding confirm_downgrade
ids-confirm run f t ts =
    ground
      (arith, ids-put t ts, ids-count (downgrade_threshold run.config t f) (missed_at run.now t) ts)

ids-miss :
    (run : Run) (f : Facts) (t : Terminal) (ts : List Terminal)
    → ids (miss run f t ts).table ≡ ids ts
unfolding miss whitelist_miss
ids-miss run f t ts = ground (
  arith,
  ids-put (record t { compliant_confirm_count = 0 }) ts,
  ids-confirm run f t ts,
  ids-count (whitelist_miss_threshold run.config) (missed t) ts,
)

ids-decide_by :
    (run : Run) (f : Facts) (t : Terminal) (ts : List Terminal)
    → ids (decide_by run f t ts).table ≡ ids ts
unfolding decide_by
ids-decide_by run f t ts =
    ground (arith, ids-miss run f t ts, ids-put t ts, ids-put (without_counts t) ts)

ids-decide : (run : Run) (t : Terminal) (ts : List Terminal) → ids (decide run t ts).table ≡ ids ts
unfolding decide
ids-decide run t ts = ids-decide_by run (facts_of run t).1 (facts_of run t).0 ts

-- A row is found exactly if its id is in the table.
is_some-get : (id : ℕ) (ts : List Terminal) → is_some (get id ts) ≡ any (λ i. i == id) (ids ts)
unfolding get find any
is_some-get id [] = refl
is_some-get id (t ∷ ts) = ground (arith, is_some-get id ts)

module _ (env : Env) (run : Run) (rules : List Condition) where
  ids-recalculate :
      (t : Terminal) (p : Progress)
      → ids (recalculate env run rules t p).terminals ≡ ids p.terminals
  unfolding recalculate
  ids-recalculate t p =
      ids-put (applied env run rules t p).work.terminal (decide run t p.terminals).table
      ∙ ids-decide run t p.terminals

  ids-turn :
      (t : Terminal) (p : Progress) → ids (turn env run rules t p).terminals ≡ ids p.terminals
  ids-turn t p =
      turn_cases env run rules (λ q. ids q.terminals ≡ ids p.terminals) t p (λ k. refl)
        (ids-recalculate t p)

  ids-turn_for :
      (u : Option Terminal) (p : Progress)
      → ids (turn_for env run rules u p).terminals ≡ ids p.terminals
  ids-turn_for none p = refl
  ids-turn_for (some t) p = ids-turn t p

  total-turn_for :
      (u : Option Terminal) (p : Progress)
      → is_some u ≡ true
      → total (turn_for env run rules u p).counters ≡ total p.counters + 1
  total-turn_for none p h = ground arith
  total-turn_for (some t) p h = total-turn env run rules t p

  turn_for-IsUnique :
      (u : Option Terminal) (p : Progress)
      → IsUnique p.rows
      → IsUnique (turn_for env run rules u p).rows
  turn_for-IsUnique none p v = v
  turn_for-IsUnique (some t) p v = turn-IsUnique env run rules t p v

  turns-IsUnique :
      (is : List ℕ) (left : ℕ) (p : Progress)
      → IsUnique p.rows
      → IsUnique (turns env run rules is (left, p)).rows
  unfolding turns
  turns-IsUnique [] left p v = flush-IsUnique p v
  turns-IsUnique (i ∷ is) left p v =
      let q = turn_for env run rules (get i p.terminals) p in
      turns-IsUnique is (close_batch left q).0 (close_batch left q).1 (
        close_batch_cases (λ r. IsUnique r.rows) left q (flush-IsUnique q)
          (turn_for-IsUnique (get i p.terminals) p v))

  -- The end of a turn, as far as the counters and the ids go
  total-after :
      (q : Progress) (is : List ℕ)
      → ((left : ℕ) (p : Progress)
          → all (λ i. any (λ j. j == i) (ids p.terminals)) is ≡ true
          → total (turns env run rules is (left, p)).counters ≡ total p.counters + length is)
      → (left : ℕ) → all (λ i. any (λ j. j == i) (ids q.terminals)) is ≡ true
      → total (turns env run rules is (close_batch left q)).counters ≡ total q.counters + length is
  unfolding close_batch flush
  total-after q is next left h = elim (Bool-cases (leb left 1)) [
    | inl e ↦ rw e (next batch_size (flush q) h)
    | inr e ↦ rw e (next (left - 1) q h)
  ]

  -- Every id of a list of ids that the table has is counted once.
  total-turns :
      (is : List ℕ) (left : ℕ) (p : Progress)
      → all (λ i. any (λ j. j == i) (ids p.terminals)) is ≡ true
      → total (turns env run rules is (left, p)).counters ≡ total p.counters + length is
  unfolding turns all flush
  total-turns [] left p h = omega arith
  total-turns (i ∷ is) left p h =
      let u = get i p.terminals in
      let q = turn_for env run rules u p in
      ground (
        arith,
        is_some-get i p.terminals,
        total-turn_for u p,
        subst
            (λ js.
              all (λ i. any (λ j. j == i) js) is ≡ true
              → total (turns env run rules is (close_batch left q)).counters
                ≡ total q.counters + length is)
            (ids-turn_for u p) (total-after q is (total-turns is) left),
      )

all-any-tail :
    (x : ℕ) (is ks : List ℕ)
    → all (λ i. any (λ j. j == i) is) ks ≡ true
    → all (λ i. any (λ j. j == i) (x ∷ is)) ks ≡ true
unfolding all any
all-any-tail x is [] h = refl
all-any-tail x is (k ∷ ks) h = ground (arith, all-any-tail x is ks)

all-any_self : (is : List ℕ) → all (λ i. any (λ j. j == i) is) is ≡ true
unfolding all any
all-any_self [] = refl
all-any_self (i ∷ is) = ground (arith, all-any-tail i is is, all-any_self is)

length-ids : (ts : List Terminal) → length (ids ts) ≡ length ts
length-ids [] = refl
length-ids (t ∷ ts) = omega (arith, length-ids ts)

-- A property of what a finished run leaves
abbrev pub Finished {ℓ} : (ℕ → Progress → Type ℓ) → Recalculated → Type ℓ
Finished P (done n p) = P n p
Finished P _ = Unit

module _ (locked : Bool) (env : Env) (run : Run) (rules : List Condition) (ts : List Terminal)
    (rows : List Blacklist) where
  -- A finished run has taken the turns of all terminals.
  pub run-Finished {ℓ} :
      (P : ℕ → Progress → Type ℓ)
      → P (length ts) (turns env run rules (ids ts) (batch_size, begun ts rows))
      → Finished P (recalculate_all_compliance locked env run rules ts rows)
  unfolding recalculate_all_compliance
  run-Finished P h = elim (Bool-cases (not locked)) [
    | inl e ↦ rw e tt
    | inr e ↦ rw e (elim (Bool-cases (count_entries run.loaded.baseline == 0)) [
      | inl f ↦ rw f tt
      | inr f ↦ rw f (elim (Bool-cases (is_empty ts)) [ inl g ↦ rw g tt | inr g ↦ rw g h ])
    ])
  ]

  -- A recalculation that finishes returns the number of terminals, and its counts of changed,
  -- unchanged, offline and excluded terminals add up to it.
  pub run-total :
      (n : ℕ) (p : Progress)
      → recalculate_all_compliance locked env run rules ts rows ≡ done n p
      → (n ≡ length ts) × (total p.counters ≡ n)
  run-total n p h = subst (Finished (λ m q. (m ≡ length ts) × (total q.counters ≡ m))) h (
      run-Finished _ (
        refl,
        omega (
          arith,
          total-turns env run rules (ids ts) batch_size (begun ts rows) (all-any_self (ids ts)),
          length-ids ts,
        ),
      ))

  -- Given rows with at most one active one for each address on each firewall, a recalculation
  -- that finishes, with its closes of rows flushed by batches of 100 or by an update, leaves rows
  -- that are so.
  pub run-IsUnique :
      (n : ℕ) (p : Progress)
      → IsUnique rows
      → recalculate_all_compliance locked env run rules ts rows ≡ done n p
      → IsUnique p.rows
  run-IsUnique n p v h =
      subst (Finished (λ m q. IsUnique q.rows)) h
        (run-Finished _ (turns-IsUnique env run rules (ids ts) batch_size (begun ts rows) v))
