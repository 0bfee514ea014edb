-- ===== src/Reconcile/Covers.antt =====
-- The addresses that a firewall blocks have rows after `_create_db_entries_for_firewall`.
use terminal_access_manager.Prelude.{
  ◌≡◌, inl, inr, true, Bool-cases, Option, none, some, List, [], ◌∷◌, any, any-append, Text,
  text_eq, text_eq_refl, text_eq_iff, subst, arith,
}
use terminal_access_manager.Models.{Terminal, Blacklist}
use terminal_access_manager.Compliance.Whitelist.{match_whitelist}
use terminal_access_manager.Compliance.Entries.{Block, is_holder, new_row}
use terminal_access_manager.Reconcile.{
  Store, World, created_block, insert_row, create_for, create_entry, create_entries, newest_at,
}
use terminal_access_manager.Reconcile.Rows.{keeps-create_entries}

is_holder-new_row :
    (now : _) (ip fw : Text) (b : Block) → is_holder ip fw (new_row now ip fw b) ≡ true
unfolding is_holder new_row
is_holder-new_row now ip fw b = ground (arith, text_eq_refl ip, text_eq_refl fw)

insert_row-holds :
    (w : World) (fw ip : Text) (t : Option Terminal) (rows : List Blacklist)
    → any (is_holder ip fw) (insert_row w fw ip t rows) ≡ true
unfolding insert_row any
insert_row-holds w fw ip t rows =
    let row = new_row w.now ip fw (created_block w fw t) in
    ground (
      arith,
      any-append (is_holder ip fw) rows (row ∷ []),
      is_holder-new_row w.now ip fw (created_block w fw t),
    )

-- An insertion takes no holder away.
insert_row-keeps :
    (w : World) (fw ip : Text) (g jp : Text) (t : Option Terminal) (rows : List Blacklist)
    → any (is_holder ip fw) rows ≡ true
    → any (is_holder ip fw) (insert_row w g jp t rows) ≡ true
unfolding insert_row
insert_row-keeps w fw ip g jp t rows h =
    ground
      (arith, any-append (is_holder ip fw) rows (new_row w.now jp g (created_block w g t) ∷ []))

module _ (w : World) (fw ip : Text)
    (unlisted : (mac : Text) → match_whitelist w.whitelist ip mac ≡ none) where
  create_for-holds :
      (t : Option Terminal) (s : Store) → any (is_holder ip fw) (create_for w fw ip t s).rows ≡ true
  create_for-holds none s = insert_row-holds w fw ip none s.rows
  create_for-holds (some t) s =
      ground (arith, unlisted t.mac_address, insert_row-holds w fw ip (some t) s.rows)

  create_entry-holds : (s : Store) → any (is_holder ip fw) (create_entry w fw ip s).rows ≡ true
  unfolding create_entry
  create_entry-holds s = create_for-holds (newest_at ip s.terminals) s

  -- An address in the list given for a firewall that the whitelist matches under no MAC has an
  -- active row on the firewall after the rows are created.
  pub create_entries-holds :
      (ips : List Text) (s : Store)
      → any (text_eq ip) ips ≡ true
      → any (is_holder ip fw) (create_entries w fw ips s).rows ≡ true
  unfolding create_entries any
  create_entries-holds [] s h = ground arith
  create_entries-holds (jp ∷ ips) s h = elim (Bool-cases (text_eq ip jp)) [
    | inl e ↦
        keeps-create_entries (λ rows. any (is_holder ip fw) rows ≡ true) w
          (λ g kp t rows. insert_row-keeps w fw ip g kp t rows) fw ips (create_entry w fw jp s)
          (subst (λ k. any (is_holder ip fw) (create_entry w fw k s).rows ≡ true)
            ((text_eq_iff ip jp).0 e) (create_entry-holds s))
    | inr e ↦ create_entries-holds ips (create_entry w fw jp s) (ground arith)
  ]
