-- ===== src/Exclusion/Rules/Table.antt =====
-- The table of rules across the operations: ids and conditions stay distinct.
use terminal_access_manager.Prelude.Results.{
  ok, >>=-eq-ok, ok-injective, require, duplicate_rule, require-holds,
}
use terminal_access_manager.Prelude.{
  ℕ, ◌+◌, ◌≡◌, refl, sym, subst, true, false, not, none, List, [], ◌∷◌, ◌++◌, ltb, Text, all, arith,
  strip,
}
use terminal_access_manager.Exclusion.{validate_and_normalize}
use terminal_access_manager.Exclusion.Purge.Unblocking.{World}
use terminal_access_manager.Exclusion.Rules.{
  Rule, Database, Create, Changed, find_duplicate, create_rule,
}
use terminal_access_manager.Exclusion.Rules.Distinct.{
  no_duplicates, no_duplicates-snoc, no_conflict-find_duplicate,
}

-- Ids and conditions are distinct, and the sequence of ids is ahead of the rows.
pub record IsRuleTable (db : Database) : Type 0 where
  pub distinct : no_duplicates db.rules ≡ true
  pub ahead : all (λ r. ltb r.id db.next_id) db.rules ≡ true

ahead-snoc :
    (n : ℕ) (r : Rule) (rs : List Rule)
    → all (λ s. ltb s.id n) rs ≡ true
    → r.id ≡ n
    → all (λ s. ltb s.id (n + 1)) (rs ++ r ∷ []) ≡ true
unfolding all
ahead-snoc n r [] h e = ground arith
ahead-snoc n r (s ∷ rs) h e = ground (arith, ahead-snoc n r rs)

added :
    (db : Database) (r : Rule)
    → IsRuleTable db
    → r.id ≡ db.next_id
    → find_duplicate db.rules r.condition none ≡ false
    → (no_duplicates (db.rules ++ r ∷ []) ≡ true)
      × (all (λ s. ltb s.id (db.next_id + 1)) (db.rules ++ r ∷ []) ≡ true)
added db r v e free = (
  no_duplicates-snoc r db.rules v.distinct (
      no_conflict-find_duplicate r db.rules
        (subst (λ n. all (λ s. ltb s.id n) db.rules ≡ true) (sym e) v.ahead) free),
  ahead-snoc db.next_id r db.rules v.ahead e,
)

-- An accepted creation of a rule keeps a table of rules with distinct ids and distinct
-- conditions, and the sequence of ids ahead of it, as such a table.
pub create_rule-IsRuleTable :
    (world : World) (request : Create) (username : Text) (db : Database) (c : Changed)
    → IsRuleTable db
    → create_rule world request username db ≡ ok c
    → IsRuleTable c.database
unfolding create_rule
create_rule-IsRuleTable world request username db c v h =
    let (values, accepted, rest) =
      >>=-eq-ok
        (validate_and_normalize request.ip_type request.ip_value request.mac_type request.mac_value)
        _ h in
    let unused = not (find_duplicate db.rules values none) in
    let (u, free, done) = >>=-eq-ok (require unused duplicate_rule) _ rest in
    let (distinct, ahead) =
      added db
        (record {
          id = db.next_id;
          condition = values;
          comments = strip request.comments;
          is_active = true;
          created_by = username;
        })
        v refl (ground (arith, require-holds unused duplicate_rule free)) in
    subst (λ x. IsRuleTable x.database) (ok-injective done)
      (record { distinct = distinct; ahead = ahead })
