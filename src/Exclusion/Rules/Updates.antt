-- ===== src/Exclusion/Rules/Updates.antt =====
-- The table of rules across `update_rule`, `delete_rule` and `toggle_rule`.
use terminal_access_manager.Prelude.Results.{
  ok, require, duplicate_rule, >>=-eq-ok, ok-injective, require-holds,
}
use terminal_access_manager.Prelude.{
  ℕ, ◌≡◌, refl, sym, subst, Bool, true, false, not, some, List, [], ◌∷◌, ◌==◌, ==_iff, ltb, all,
  arith, select, Bool-cases, inl, inr, is_some, Option-cases,
}
use terminal_access_manager.Exclusion.{Condition, validate_and_normalize}
use terminal_access_manager.Exclusion.Purge.Unblocking.{World}
use terminal_access_manager.Exclusion.Rules.{
  Rule, Database, Update, Changed, find_duplicate, get_rule, replace_rule, with_rule, refresh_if,
  purge_if, conditions_changed, checked_condition, updated_condition, updated_comments,
  update_found, update_rule, delete_rule, toggle_rule, toggled,
}
use terminal_access_manager.Exclusion.Rules.Distinct.{
  no_duplicates, no_duplicates-replace_rule, no_duplicates-select, others_differ,
  others_differ-find_duplicate, others_differ-get_rule, get_rule-id,
}
use terminal_access_manager.Exclusion.Rules.Table.{IsRuleTable}

ahead-replace :
    (k : ℕ) (n : Rule) (rs : List Rule)
    → all (λ r. ltb r.id k) rs ≡ true
    → all (λ r. ltb r.id k) (replace_rule n rs) ≡ true
unfolding all replace_rule
ahead-replace k n [] h = refl
ahead-replace k n (r ∷ rs) h = ground (arith, ahead-replace k n rs, ==_iff r.id n.id)

ahead-select :
    (k : ℕ) (q : Rule → Bool) (rs : List Rule)
    → all (λ r. ltb r.id k) rs ≡ true
    → all (λ r. ltb r.id k) (select q rs) ≡ true
unfolding all select
ahead-select k q [] h = refl
ahead-select k q (r ∷ rs) h = ground (arith, ahead-select k q rs)

with_rule-IsRuleTable :
    (db : Database) (n : Rule)
    → IsRuleTable db
    → others_differ n.id n.condition db.rules ≡ true
    → IsRuleTable (with_rule db n)
with_rule-IsRuleTable db n v h = record {
  distinct = no_duplicates-replace_rule n db.rules v.distinct h;
  ahead = ahead-replace db.next_id n db.rules v.ahead;
}

refresh_if-IsRuleTable :
    (b : Bool) (c : Changed) → IsRuleTable c.database → IsRuleTable (refresh_if b c).database
refresh_if-IsRuleTable true c v = record { distinct = v.distinct; ahead = v.ahead }
refresh_if-IsRuleTable false c v = v

purge_if-IsRuleTable :
    (b : Bool) (world : World) (db : Database) (rule : Rule) (unblock_blocked : Bool)
    → IsRuleTable db
    → IsRuleTable (purge_if b world db rule unblock_blocked).database
purge_if-IsRuleTable true world db rule u v = record { distinct = v.distinct; ahead = v.ahead }
purge_if-IsRuleTable false world db rule u v = v

-- The row of a rule, replaced by one with its id and a condition of its own, and the calls after it
replaced-IsRuleTable :
    (refresh purge : Bool) (world : World) (db : Database) (n : Rule) (u : Bool)
    → IsRuleTable db
    → others_differ n.id n.condition db.rules ≡ true
    → IsRuleTable (refresh_if refresh (purge_if purge world (with_rule db n) n u)).database
replaced-IsRuleTable refresh purge world db n u v h =
    refresh_if-IsRuleTable refresh _
      (purge_if-IsRuleTable purge world (with_rule db n) n u (with_rule-IsRuleTable db n v h))

found_differs :
    (id : ℕ) (rule : Rule) (rules : List Rule)
    → no_duplicates rules ≡ true
    → get_rule id rules ≡ some rule
    → others_differ rule.id rule.condition rules ≡ true
found_differs id rule rules h k =
    subst (λ i. others_differ i rule.condition rules ≡ true) (sym (get_rule-id id rules rule k))
      (others_differ-get_rule id rules rule h k)

checked_differs :
    (request : Update) (rule : Rule) (rules : List Rule) (values : Condition)
    → checked_condition request rule rules ≡ ok values
    → others_differ rule.id values rules ≡ true
checked_differs request rule rules values h =
    let (found, accepted, rest) = >>=-eq-ok (validate_and_normalize _ _ _ _) _ h in
    let free = not (find_duplicate rules found (some rule.id)) in
    let (u, unused, done) = >>=-eq-ok (require free duplicate_rule) _ rest in
    subst (λ c. others_differ rule.id c rules ≡ true) (ok-injective done)
      (others_differ-find_duplicate rule.id found rules
        (ground (arith, require-holds free duplicate_rule unused)))

updated_differs :
    (id : ℕ) (request : Update) (rule : Rule) (rules : List Rule) (values : Condition)
    → no_duplicates rules ≡ true
    → get_rule id rules ≡ some rule
    → updated_condition request rule rules ≡ ok values
    → others_differ rule.id values rules ≡ true
unfolding updated_condition
updated_differs id request rule rules values v k h =
    elim (Bool-cases (conditions_changed request)) [
      | inl e ↦ checked_differs request rule rules values (rw e at h)
      | inr e ↦
          subst (λ c. others_differ rule.id c rules ≡ true) (ok-injective (rw e at h))
            (found_differs id rule rules v k)
    ]

update_found-IsRuleTable :
    (world : World) (id : ℕ) (request : Update) (db : Database) (rule : Rule) (c : Changed)
    → IsRuleTable db
    → get_rule id db.rules ≡ some rule
    → update_found world request db rule ≡ ok c
    → IsRuleTable c.database
unfolding update_found
update_found-IsRuleTable world id request db rule c v k h =
    let (values, accepted, rest) = >>=-eq-ok (updated_condition request rule db.rules) _ h in
    let (comments, commented, done) =
      >>=-eq-ok (updated_comments request.comments rule.comments) _ rest in
    subst (λ x. IsRuleTable x.database) (ok-injective done)
      (replaced-IsRuleTable _ _ world db _ false v
        (updated_differs id request rule db.rules values v.distinct k accepted))

-- An accepted update of a rule, with or without a change of its conditions, keeps a table of
-- rules with distinct ids and distinct conditions, and the sequence of ids ahead of it, as such a
-- table.
pub update_rule-IsRuleTable :
    (world : World) (id : ℕ) (request : Update) (db : Database) (c : Changed)
    → IsRuleTable db
    → update_rule world id request db ≡ ok c
    → IsRuleTable c.database
unfolding update_rule
update_rule-IsRuleTable world id request db c v h = elim (Option-cases (get_rule id db.rules)) [
  | inl e ↦ subst (λ x. IsRuleTable x.database) (ok-injective (rw (e, update_rule) at h)) v
  | inr (rule, e) ↦
      update_found-IsRuleTable world id request db rule c v e (rw (e, update_rule) at h)
]

-- Toggling a rule keeps a table of rules with distinct ids and distinct conditions, and the
-- sequence of ids ahead of it, as such a table.
pub toggle_rule-IsRuleTable :
    (world : World) (id : ℕ) (unblock_blocked : Bool) (db : Database)
    → IsRuleTable db
    → IsRuleTable (toggle_rule world id unblock_blocked db).database
unfolding toggle_rule
toggle_rule-IsRuleTable world id u db v = elim (Option-cases (get_rule id db.rules)) [
  | inl e ↦ rw (e, toggle_rule) v
  | inr (rule, e) ↦
      rw (e, toggle_rule)
        (replaced-IsRuleTable rule.is_active _ world db (toggled rule) u v
          (found_differs id rule db.rules v.distinct e))
]

-- Deleting a rule keeps a table of rules with distinct ids and distinct conditions, and the
-- sequence of ids ahead of it, as such a table.
pub delete_rule-IsRuleTable :
    (id : ℕ) (db : Database) → IsRuleTable db → IsRuleTable (delete_rule id db).0
unfolding delete_rule
delete_rule-IsRuleTable id db v = elim (Bool-cases (is_some (get_rule id db.rules))) [
  | inl e ↦ rw e (record {
    distinct = no_duplicates-select (λ r. not (r.id == id)) db.rules v.distinct;
    ahead = ahead-select db.next_id (λ r. not (r.id == id)) db.rules v.ahead;
  })
  | inr e ↦ rw e v
]
