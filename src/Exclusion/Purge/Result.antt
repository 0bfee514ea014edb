-- ===== src/Exclusion/Purge/Result.antt =====
-- What `purge_matching` leaves of the table of terminals.
use mathlib.Core.List.{append-nil}
use terminal_access_manager.Prelude.{
  ℕ, ◌≡◌, refl, ◌∙◌, Bool, true, false, not, ◌&&◌, ◌||◌, List, [], ◌∷◌, ◌++◌, map, if◌then◌else◌,
  select, all, arith,
}
use terminal_access_manager.Models.{Terminal}
use terminal_access_manager.Exclusion.{Condition}
use terminal_access_manager.Exclusion.Purge.{Evaluation, evaluate}
use terminal_access_manager.Exclusion.Purge.Unblocking.{World, freed, unblock_blocked_terminals}
use terminal_access_manager.Exclusion.Purge.Tables.{
  Tables, mem_id, delete_terminals, flag_terminals, flagged_if, settled_tables, after_evaluation,
  purge_matching,
}
use terminal_access_manager.Exclusion.Purge.Counts.{
  ids_where, purged, kept, covered_blocked, evaluate_lists,
}
use terminal_access_manager.Exclusion.Purge.Deletions.{
  same, mem_id-nil, mem_id-append, mem_id-select-not, select-select, distinct_ids, ids_agree,
  settled_agree,
}

select_all : (xs : List ℕ) → select (λ i. not (mem_id i [])) xs ≡ xs
unfolding select
select_all [] = refl
select_all (x ∷ xs) = ground (arith, select_all xs, mem_id-nil x)

agree_or :
    (p q : Terminal → Bool) (xs ys : List ℕ) (us : List Terminal)
    → all (λ u. same (mem_id u.id xs) (p u)) us ≡ true
    → all (λ u. same (mem_id u.id ys) (q u)) us ≡ true
    → all (λ u. same (mem_id u.id (xs ++ ys)) (p u || q u)) us ≡ true
unfolding all
agree_or p q xs ys [] h k = refl
agree_or p q xs ys (u ∷ us) h k = ground (arith, agree_or p q xs ys us, mem_id-append u.id xs ys)

agree_rest :
    (p q r : Terminal → Bool) (ys zs : List ℕ) (us : List Terminal)
    → all (λ u. same (mem_id u.id ys) (q u)) us ≡ true
    → all (λ u. same (mem_id u.id zs) (r u)) us ≡ true
    → all (λ u. (p u || q u) || same (mem_id u.id (select (λ i. not (mem_id i ys)) zs)) (r u)) us
      ≡ true
unfolding all
agree_rest p q r ys zs [] h k = refl
agree_rest p q r ys zs (u ∷ us) h k =
    ground (arith, agree_rest p q r ys zs us, mem_id-select-not u.id ys zs)

agree_nil : (us : List Terminal) → all (λ u. same (mem_id u.id []) false) us ≡ true
unfolding all
agree_nil [] = refl
agree_nil (u ∷ us) = ground (arith, agree_nil us, mem_id-nil u.id)

module _ (world : World) (rule : Condition) (db : Tables) where
  abbrev cb : Terminal → Bool
  cb = covered_blocked world.now db.rows rule

  -- The blocked terminals that the call sets free on every firewall
  abbrev pub set_free : Bool → Terminal → Bool
  set_free unblock_blocked t =
      unblock_blocked && (covered_blocked world.now db.rows rule t && freed world db.rows t)

  -- The terminals that the call deletes
  abbrev pub leaves : Bool → Terminal → Bool
  leaves unblock_blocked t = purged world.now db.rows rule t || set_free unblock_blocked t

  abbrev freed_ids : Bool → List Terminal → List ℕ
  freed_ids b bs = if b then map (λ t. t.id) (select (freed world db.rows) bs) else []

  -- The table after the branches on the blocked terminals, as one expression
  after_evaluation_lem :
      (b : Bool) (v : Evaluation) (bs : List Terminal)
      → (after_evaluation world b db v bs).tables.terminals
        ≡ settled_tables
            (v.terminal_ids ++ freed_ids b bs)
            (select (λ id. not (mem_id id (freed_ids b bs))) v.retained_ids)
            db.terminals
  unfolding unblock_blocked_terminals
  after_evaluation_lem false v bs = rw append-nil (rw select_all refl)
  after_evaluation_lem true v [] = unfold select in rw append-nil (rw select_all refl)
  after_evaluation_lem true v (c ∷ cs) = refl

  freed_agree :
      (b : Bool)
      → distinct_ids db.terminals ≡ true
      → all
          (λ u. same (mem_id u.id (freed_ids b (select cb db.terminals))) (set_free b u))
          db.terminals
        ≡ true
  unfolding ids_where
  freed_agree false d = agree_nil db.terminals
  freed_agree true d =
      rw (select-select (freed world db.rows) cb db.terminals)
        (ids_agree (λ t. cb t && freed world db.rows t) db.terminals d)

  settled_tables_lem :
      (ids retained : List ℕ) (ts : List Terminal)
      → settled_tables ids retained ts
        ≡ map (λ t. flagged_if (mem_id t.id retained) t) (select (λ t. not (mem_id t.id ids)) ts)
  unfolding delete_terminals flag_terminals
  settled_tables_lem ids retained ts = refl

  settled_by_tests :
      (b : Bool)
      → distinct_ids db.terminals ≡ true
      → let freed = freed_ids b (select cb db.terminals) in
        settled_tables
          (ids_where (purged world.now db.rows rule) db.terminals ++ freed)
          (select
            (λ id. not (mem_id id freed))
            (ids_where (kept world.now db.rows rule) db.terminals))
          db.terminals
        ≡ map
            (λ t. flagged_if (kept world.now db.rows rule t) t)
            (select (λ t. not (leaves b t)) db.terminals)
  settled_by_tests b d =
      settled_tables_lem _ _ db.terminals
      ∙ settled_agree _ (leaves b) _ (kept world.now db.rows rule) db.terminals
          (agree_or (purged world.now db.rows rule) (set_free b) _ _ db.terminals
            (ids_agree (purged world.now db.rows rule) db.terminals d) (freed_agree b d))
          (agree_rest (purged world.now db.rows rule) (set_free b) (kept world.now db.rows rule) _ _
            db.terminals (freed_agree b d) (ids_agree (kept world.now db.rows rule) db.terminals d))

  -- With distinct ids, the table of terminals after a purge is the table before without the
  -- covered terminals that may be deleted and, when unblocking is asked for, without the covered
  -- blocked ones whose every located entry every firewall has lifted, and with the other covered
  -- ones flagged.
  pub purge_matching_terminals :
      (unblock_blocked : Bool)
      → distinct_ids db.terminals ≡ true
      → (purge_matching world rule unblock_blocked db).tables.terminals
        ≡ map
            (λ t. flagged_if (kept world.now db.rows rule t) t)
            (select (λ t. not (leaves unblock_blocked t)) db.terminals)
  unfolding purge_matching
  purge_matching_terminals b d =
      let v = evaluate world.now db.rows rule db.terminals in
      let (terminal_ids, retained_ids, blocked_terminals) =
        evaluate_lists world.now db.rows rule db.terminals in
      after_evaluation_lem b v v.blocked_terminals
      ∙ rw terminal_ids (rw retained_ids (rw blocked_terminals (settled_by_tests b d)))
