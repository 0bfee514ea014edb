-- ===== src/Scopes/Stored.antt =====
-- Every stored scope passes the validation, which strips the blanks around the value that is stored.
use terminal_access_manager.Prelude.Results.{Result, ok, err, >>=-eq-ok, ok-injective}
use terminal_access_manager.Prelude.{
  all-snoc, all-find, all-select-of, ℕ, ◌≡◌, refl, subst, Bool, true, false, not, some, List, [],
  ◌∷◌, ◌==◌, Text, all, is_some, arith, Bool-cases, Option-cases, inl, inr,
}
use terminal_access_manager.Scopes.{
  ScopeRow, Database, Create, Update, validate_scope_value, get_scope, new_scope, create_scope,
  updated_scope, validate_update, replace_scope, update_scope, delete_scope, toggled, toggle_scope,
}

abbrev accepts : Result (Unit {0}) → Bool
accepts (ok u) = true
accepts (err raised) = false

abbrev is_accepted : ScopeRow → Bool
is_accepted s = accepts (validate_scope_value s.scope_type s.scope_value)

-- The rows hold values that the validation of their types accepts.
pub record IsAccepted (db : Database) : Type 0 where
  pub rows_accepted : all is_accepted db.scopes ≡ true

all-replace :
    (p : ScopeRow → Bool) (n : ScopeRow) (rs : List ScopeRow)
    → all p rs ≡ true
    → p n ≡ true
    → all p (replace_scope n rs) ≡ true
unfolding all replace_scope
all-replace p n [] h k = refl
all-replace p n (r ∷ rs) h k = ground (arith, all-replace p n rs)

found_accepted :
    (id : ℕ) (db : Database) (s : ScopeRow)
    → IsAccepted db
    → get_scope id db.scopes ≡ some s
    → is_accepted s ≡ true
unfolding get_scope
found_accepted id db s v e = all-find is_accepted (λ r. r.id == id) db.scopes s v.rows_accepted e

-- An accepted creation of a scope keeps a table in which every stored value is accepted for its type
-- as such a table.
pub create_scope-IsAccepted :
    (request : Create) (username : Text) (db after : Database)
    → IsAccepted db
    → create_scope request username db ≡ ok after
    → IsAccepted after
unfolding create_scope
create_scope-IsAccepted request username db after v h =
    let (u, accepted, done) =
      >>=-eq-ok (validate_scope_value request.scope_type request.scope_value) _ h in
    subst IsAccepted (ok-injective done) (record {
      rows_accepted =
          all-snoc is_accepted db.scopes (new_scope db request username) v.rows_accepted
            (rw accepted refl);
    })

updated_accepted :
    (request : Update) (s : ScopeRow) (u : Unit {0})
    → is_accepted s ≡ true
    → validate_update request s ≡ ok u
    → is_accepted (updated_scope request s) ≡ true
updated_accepted request s u v h = ground arith

-- An accepted update of a scope, whether type and value change or not, keeps a table in which
-- every stored value is accepted for its type as such a table.
pub update_scope-IsAccepted :
    (id : ℕ) (request : Update) (db after : Database)
    → IsAccepted db
    → update_scope id request db ≡ ok after
    → IsAccepted after
unfolding update_scope
update_scope-IsAccepted id request db after v h = elim (Option-cases (get_scope id db.scopes)) [
  | inl e ↦ subst IsAccepted (ok-injective (rw (e, update_scope) at h)) v
  | inr (scope, e) ↦
      let (u, accepted, done) =
        >>=-eq-ok (validate_update request scope) _ (rw (e, update_scope) at h) in
      subst IsAccepted (ok-injective done) (record {
        rows_accepted =
            all-replace is_accepted (updated_scope request scope) db.scopes v.rows_accepted
              (updated_accepted request scope u (found_accepted id db scope v e) accepted);
      })
]

-- Toggling a scope keeps a table in which every stored value is accepted for its type as such a
-- table.
pub toggle_scope-IsAccepted :
    (id : ℕ) (db : Database) → IsAccepted db → IsAccepted (toggle_scope id db)
unfolding toggle_scope
toggle_scope-IsAccepted id db v = elim (Option-cases (get_scope id db.scopes)) [
  | inl e ↦ rw (e, toggle_scope) v
  | inr (scope, e) ↦
      rw (e, toggle_scope)
        (record {
          rows_accepted =
              all-replace is_accepted (toggled scope) db.scopes v.rows_accepted
                (found_accepted id db scope v e);
        })
]

-- Deleting a scope keeps a table in which every stored value is accepted for its type as such a
-- table.
pub delete_scope-IsAccepted :
    (id : ℕ) (db : Database) → IsAccepted db → IsAccepted (delete_scope id db).0
unfolding delete_scope
delete_scope-IsAccepted id db v = elim (Bool-cases (is_some (get_scope id db.scopes))) [
  | inl e ↦ rw e (record {
    rows_accepted = all-select-of is_accepted (λ s. not (s.id == id)) db.scopes v.rows_accepted;
  })
  | inr e ↦ rw e v
]
