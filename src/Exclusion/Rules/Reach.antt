-- ===== src/Exclusion/Rules/Reach.antt =====
-- The sequences of operations on the table of exclusion rules.
use terminal_access_manager.Prelude.Results.{ok}
use terminal_access_manager.Prelude.{ℕ, ◌≡◌, refl, [], all, Bool, Text}
use terminal_access_manager.Exclusion.Purge.Unblocking.{World}
use terminal_access_manager.Exclusion.Purge.Tables.{Tables}
use terminal_access_manager.Exclusion.Rules.{
  Database, Create, Update, Changed, create_rule, update_rule, toggle_rule, delete_rule,
}
use terminal_access_manager.Exclusion.Rules.Distinct.{no_duplicates}
use terminal_access_manager.Exclusion.Rules.Table.{IsRuleTable, create_rule-IsRuleTable}
use terminal_access_manager.Exclusion.Rules.Updates.{
  update_rule-IsRuleTable, toggle_rule-IsRuleTable, delete_rule-IsRuleTable,
}

-- An accepted call of an operation of the service
pub data Step : Database → Database → Type 0 where
  creates :
      (world : World) (request : Create) (username : Text) (db : Database) (c : Changed)
      → create_rule world request username db ≡ ok c
      → Step db c.database
  updates :
      (world : World) (id : ℕ) (request : Update) (db : Database) (c : Changed)
      → update_rule world id request db ≡ ok c
      → Step db c.database
  toggles :
      (world : World) (id : ℕ) (unblock_blocked : Bool) (db : Database)
      → Step db (toggle_rule world id unblock_blocked db).database
  deletes : (id : ℕ) (db : Database) → Step db (delete_rule id db).0

pub data Reach (start : Database) : Database → Type 0 where
  here : Reach start start
  next : {db after : Database} → Reach start db → Step db after → Reach start after

Step-IsRuleTable : {db after : Database} → Step db after → IsRuleTable db → IsRuleTable after
Step-IsRuleTable (creates world request username db c h) v =
    create_rule-IsRuleTable world request username db c v h
Step-IsRuleTable (updates world id request db c h) v =
    update_rule-IsRuleTable world id request db c v h
Step-IsRuleTable (toggles world id u db) v = toggle_rule-IsRuleTable world id u db v
Step-IsRuleTable (deletes id db) v = delete_rule-IsRuleTable id db v

abbrev pub no_rules : Tables → Database
no_rules tables = record { rules = []; next_id = 1; tables = tables }

no_rules-IsRuleTable : (tables : Tables) → IsRuleTable (no_rules tables)
unfolding no_duplicates all
no_rules-IsRuleTable tables = record { distinct = refl; ahead = refl }

-- Every table of rules that accepted creations, accepted updates, toggles and deletions make out
-- of one without rules has distinct ids and distinct conditions, and the sequence of ids ahead of
-- it.
pub Reach-IsRuleTable :
    (tables : Tables) {db : Database} → Reach (no_rules tables) db → IsRuleTable db
Reach-IsRuleTable tables here = no_rules-IsRuleTable tables
Reach-IsRuleTable tables (next r s) = Step-IsRuleTable s (Reach-IsRuleTable tables r)
