-- ===== src/Expiry/Rows.antt =====
-- The blacklist rows after a cleanup.
use native.Mathlib.Nat.{le_trans}
use terminal_access_manager.Prelude.{
  ◌≤◌, ◌≡◌, refl, Bool, true, false, not, ◌&&◌, List, [], ◌∷◌, map, any, Text, arith,
}
use terminal_access_manager.Models.{Time, Terminal, Blacklist, is_active_entry, not_expired}
use terminal_access_manager.Compliance.Entries.{is_holder}
use terminal_access_manager.Compliance.Entries.Unique.{count, IsUnique}
use terminal_access_manager.Expiry.{
  Services, is_expired_entry, cleaned_row, cleanup_expired_blacklist,
}

-- An active row past its time
abbrev pub is_overdue : Time → Blacklist → Bool
is_overdue now e = is_active_entry e && not (not_expired now e.expires_at)

cleaned_row-not_overdue :
    (services : Services) (now : Time) (rows : List Blacklist) (e : Blacklist)
    → is_overdue now (cleaned_row services now rows e) ≡ false
unfolding is_expired_entry is_active_entry
cleaned_row-not_overdue services now rows e = ground arith

none_overdue :
    (services : Services) (now : Time) (rows es : List Blacklist)
    → any (is_overdue now) (map (cleaned_row services now rows) es) ≡ false
unfolding any
none_overdue services now rows [] = refl
none_overdue services now rows (e ∷ es) =
    ground (arith, cleaned_row-not_overdue services now rows e, none_overdue services now rows es)

-- After a cleanup no active row is past its time.
pub cleanup-none_overdue :
    (services : Services) (now : Time) (rows : List Blacklist) (ts : List Terminal)
    → any (is_overdue now) (cleanup_expired_blacklist services now rows ts).rows ≡ false
unfolding cleanup_expired_blacklist
cleanup-none_overdue services now rows ts = none_overdue services now rows rows

holder-cleaned_row :
    (services : Services) (now : Time) (rows : List Blacklist) (i f : Text) (e : Blacklist)
    → is_holder i f (cleaned_row services now rows e) ≡ true
    → is_holder i f e ≡ true
unfolding is_holder is_active_entry
holder-cleaned_row services now rows i f e h = ground arith

count-cleaned :
    (services : Services) (now : Time) (rows es : List Blacklist) (i f : Text)
    → count (is_holder i f) (map (cleaned_row services now rows) es) ≤ count (is_holder i f) es
unfolding count
count-cleaned services now rows [] i f = omega arith
count-cleaned services now rows (e ∷ es) i f =
    ground
      (arith, holder-cleaned_row services now rows i f e, count-cleaned services now rows es i f)

-- Given rows with at most one active one for each address on each firewall, a cleanup keeps them so.
pub cleanup-IsUnique :
    (services : Services) (now : Time) (rows : List Blacklist) (ts : List Terminal)
    → IsUnique rows
    → IsUnique (cleanup_expired_blacklist services now rows ts).rows
unfolding cleanup_expired_blacklist
cleanup-IsUnique services now rows ts v = record {
  at_most_one = λ i f. le_trans (count-cleaned services now rows rows i f) (v.at_most_one i f);
}
