-- ===== src/Reconcile/Rows.antt =====
-- The blacklist rows across a reconciliation.
use terminal_access_manager.Prelude.{
  ◌≡◌, refl, sym, subst, ◌∙◌, ap, inl, inr, true, Bool-cases, not, ◌&&◌, Option, none, some, List,
  [], ◌∷◌, ◌++◌, any, all, all-snoc, is_empty, Text, arith,
}
use terminal_access_manager.Models.{Terminal, Blacklist, is_active_entry}
use terminal_access_manager.Compliance.Entries.{is_holder, new_row, attach_active_blacklist}
use terminal_access_manager.Compliance.Entries.Unique.{IsUnique, attach-IsUnique}
use terminal_access_manager.Compliance.Firewall.{DataSource}
use terminal_access_manager.Reconcile.{
  Listing, parse_blocked_ips, expected_ips, without, Store, World, created_block, insert_row,
  create_for, create_entry, create_entries, reblock, reblock_all, newest_at, whitelisted, is_spared,
}
use terminal_access_manager.Reconcile.Run.{
  Firewalls, Results, synchronize, on_answer, reconcile_all, finish, enabled_firewalls, reconcile,
  no_results,
}

reblock-rows : (w : World) (fw ip : Text) (s : Store) → (reblock w fw ip s).rows ≡ s.rows
unfolding reblock
reblock-rows w fw ip s = ground arith

reblock_all-rows :
    (w : World) (fw : Text) (ips : List Text) (s : Store) → (reblock_all w fw ips s).rows ≡ s.rows
unfolding reblock_all
reblock_all-rows w fw [] s = refl
reblock_all-rows w fw (ip ∷ ips) s =
    reblock_all-rows w fw ips (reblock w fw ip s) ∙ reblock-rows w fw ip s

-- What every insertion of a row keeps, a run keeps.
module _ {ℓ} (P : List Blacklist → Type ℓ) (w : World)
    (step : (fw ip : Text) (t : Option Terminal) (rows : List Blacklist)
      → P rows
      → P (insert_row w fw ip t rows)) where
  keeps-create_for :
      (fw ip : Text) (t : Option Terminal) (s : Store) → P s.rows → P (create_for w fw ip t s).rows
  keeps-create_for fw ip none s h = step fw ip none s.rows h
  keeps-create_for fw ip (some t) s h = elim (Bool-cases (is_spared (whitelisted w t ip) t)) [
    | inl e ↦ rw e h
    | inr e ↦ rw e (step fw ip (some t) s.rows h)
  ]

  keeps-create_entry : (fw ip : Text) (s : Store) → P s.rows → P (create_entry w fw ip s).rows
  unfolding create_entry
  keeps-create_entry fw ip s h = keeps-create_for fw ip (newest_at ip s.terminals) s h

  pub keeps-create_entries :
      (fw : Text) (ips : List Text) (s : Store) → P s.rows → P (create_entries w fw ips s).rows
  unfolding create_entries
  keeps-create_entries fw [] s h = h
  keeps-create_entries fw (ip ∷ ips) s h =
      keeps-create_entries fw ips (create_entry w fw ip s) (keeps-create_entry fw ip s h)

  keeps-synchronize :
      (fw : Text) (found expected : List Text) (r : Results)
      → P r.store.rows
      → P (synchronize w fw found expected r).store.rows
  unfolding synchronize
  keeps-synchronize fw found expected r h =
      subst P
        (sym (
          reblock_all-rows w fw (without expected found)
            (create_entries w fw (without found expected) r.store)))
        (keeps-create_entries fw (without found expected) r.store h)

  keeps-on_answer :
      (api : Firewalls) (fw : Text) (expected : List Text) (answer : Option Listing) (r : Results)
      → P r.store.rows
      → P (on_answer w api fw expected answer r).store.rows
  unfolding on_answer
  keeps-on_answer api fw expected none r h = h
  keeps-on_answer api fw expected (some l) r h =
      elim (Bool-cases (is_empty (parse_blocked_ips l) && not (is_empty expected))) [
        | inl e ↦ rw e h
        | inr e ↦ rw e (keeps-synchronize fw (parse_blocked_ips l) expected r h)
      ]

  keeps-reconcile_all :
      (api : Firewalls) (before : List Blacklist) (fws : List DataSource) (r : Results)
      → P r.store.rows
      → P (reconcile_all w api before fws r).store.rows
  unfolding reconcile_all
  keeps-reconcile_all api before [] r h = h
  keeps-reconcile_all api before (fw ∷ fws) r h =
      let expected = expected_ips w.now fw.tag before in
      let answer = api.get_blocked_ips fw.tag in
      keeps-reconcile_all api before fws (on_answer w api fw.tag expected answer r)
        (keeps-on_answer api fw.tag expected answer r h)

  keeps-reconcile :
      (api : Firewalls) (ts : List Terminal) (rows : List Blacklist)
      → P rows
      → P (reconcile w api ts rows).store.rows
  unfolding reconcile finish
  keeps-reconcile api ts rows h =
      keeps-reconcile_all api rows (enabled_firewalls api) (no_results ts rows) h

insert_row-IsUnique :
    (w : World) (fw ip : Text) (t : Option Terminal) (rows : List Blacklist)
    → IsUnique rows
    → IsUnique (insert_row w fw ip t rows)
unfolding insert_row attach_active_blacklist
insert_row-IsUnique w fw ip t rows v = elim (Bool-cases (any (is_holder ip fw) rows)) [
  | inl e ↦ rw e v
  | inr e ↦ rw e (rw e at (attach-IsUnique w.now ip fw (created_block w fw t) rows v))
]

-- The rows as they were, with active rows after them
pub record IsGrown (before after : List Blacklist) : Type 0 where
  pub made : List Blacklist
  pub appended : after ≡ before ++ made
  pub all_active : all is_active_entry made ≡ true

append_nil : (xs : List Blacklist) → xs ++ [] ≡ xs
append_nil [] = refl
append_nil (x ∷ xs) = ap (λ r. x ∷ r) (append_nil xs)

append_assoc : (xs ys zs : List Blacklist) → (xs ++ ys) ++ zs ≡ xs ++ (ys ++ zs)
append_assoc [] ys zs = refl
append_assoc (x ∷ xs) ys zs = ap (λ r. x ∷ r) (append_assoc xs ys zs)

insert_row-IsGrown :
    (w : World) (before : List Blacklist) (fw ip : Text) (t : Option Terminal)
    (rows : List Blacklist)
    → IsGrown before rows
    → IsGrown before (insert_row w fw ip t rows)
unfolding insert_row is_active_entry new_row
insert_row-IsGrown w before fw ip t rows g = elim (Bool-cases (any (is_holder ip fw) rows)) [
  | inl e ↦ rw e g
  | inr e ↦ rw e (record {
    made = g.made ++ new_row w.now ip fw (created_block w fw t) ∷ [];
    appended =
        ap (λ r. r ++ new_row w.now ip fw (created_block w fw t) ∷ []) g.appended
        ∙ append_assoc before g.made _;
    all_active =
        all-snoc is_active_entry g.made (new_row w.now ip fw (created_block w fw t)) g.all_active
          refl;
  })
]

-- Given rows with at most one active one for each address on each firewall, a run keeps them so.
pub reconcile-IsUnique :
    (w : World) (api : Firewalls) (ts : List Terminal) (rows : List Blacklist)
    → IsUnique rows
    → IsUnique (reconcile w api ts rows).store.rows
reconcile-IsUnique w api ts rows v =
    keeps-reconcile IsUnique w (insert_row-IsUnique w) api ts rows v

-- A reconciliation leaves the blacklist rows as they were, in order, and appends active rows
-- only.
pub reconcile-IsGrown :
    (w : World) (api : Firewalls) (ts : List Terminal) (rows : List Blacklist)
    → IsGrown rows (reconcile w api ts rows).store.rows
unfolding all
reconcile-IsGrown w api ts rows =
    keeps-reconcile (IsGrown rows) w (insert_row-IsGrown w rows) api ts rows
      (record { made = []; appended = sym (append_nil rows); all_active = refl })
