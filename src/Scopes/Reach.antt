-- ===== src/Scopes/Reach.antt =====
-- The sequences of operations on the table of compliance scopes.
use terminal_access_manager.Prelude.Results.{ok}
use terminal_access_manager.Prelude.{ℕ, ◌≡◌, refl, [], all, Text}
use terminal_access_manager.Scopes.{
  Database, Create, Update, create_scope, update_scope, toggle_scope, delete_scope,
}
use terminal_access_manager.Scopes.Stored.{
  IsAccepted, create_scope-IsAccepted, update_scope-IsAccepted, toggle_scope-IsAccepted,
  delete_scope-IsAccepted,
}

-- An accepted call of an operation of the service
pub data Step : Database → Database → Type 0 where
  creates :
      (request : Create) (username : Text) (db after : Database)
      → create_scope request username db ≡ ok after
      → Step db after
  updates :
      (id : ℕ) (request : Update) (db after : Database)
      → update_scope id request db ≡ ok after
      → Step db after
  toggles : (id : ℕ) (db : Database) → Step db (toggle_scope id db)
  deletes : (id : ℕ) (db : Database) → Step db (delete_scope id db).0

pub data Reach (start : Database) : Database → Type 0 where
  here : Reach start start
  next : {db after : Database} → Reach start db → Step db after → Reach start after

Step-IsAccepted : {db after : Database} → Step db after → IsAccepted db → IsAccepted after
Step-IsAccepted (creates request username db after h) v =
    create_scope-IsAccepted request username db after v h
Step-IsAccepted (updates id request db after h) v = update_scope-IsAccepted id request db after v h
Step-IsAccepted (toggles id db) v = toggle_scope-IsAccepted id db v
Step-IsAccepted (deletes id db) v = delete_scope-IsAccepted id db v

abbrev pub no_scopes : Database
no_scopes = record { scopes = []; next_id = 1 }

no_scopes-IsAccepted : IsAccepted no_scopes
unfolding all
no_scopes-IsAccepted = record { rows_accepted = refl }

-- In every table of scopes that accepted creations, accepted updates, toggles and deletions make
-- out of the empty one, every stored value passes the validation of its type, which looks at the
-- value without the blanks around it.
pub Reach-IsAccepted : {db : Database} → Reach no_scopes db → IsAccepted db
Reach-IsAccepted here = no_scopes-IsAccepted
Reach-IsAccepted (next r s) = Step-IsAccepted s (Reach-IsAccepted r)
