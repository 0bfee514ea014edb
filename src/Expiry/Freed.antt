-- ===== src/Expiry/Freed.antt =====
-- The terminals that a cleanup sets free.
use terminal_access_manager.Prelude.{
  Bool, true, not, ◌&&◌, ◌||◌, Option, none, some, List, any, ◌==◌,
}
use terminal_access_manager.Models.{
  Time, Terminal, Blacklist, status_eq, is_active_entry, not_expired, column_eq,
}

-- An active row, not past its time, of the pair of a terminal
unfoldable pub is_live_of : Time → Terminal → Blacklist → Bool
is_live_of now t a =
    is_active_entry a
    && (not_expired now a.expires_at
        && (column_eq a.mac_address_normalized t.mac_address_normalized
            && column_eq a.ip_address t.ip_address))

-- A terminal as one before, or without such a row
unfoldable pub is_fair : Time → List Blacklist → List Terminal → Terminal → Bool
is_fair now rows ts u =
    any (λ t. u.id == t.id && status_eq u.status t.status) ts || not (any (is_live_of now u) rows)

abbrev is_pair_of : Blacklist → Terminal → Bool
is_pair_of e t =
    column_eq e.mac_address_normalized t.mac_address_normalized
    && column_eq e.ip_address t.ip_address

abbrev matches : Blacklist → Option Terminal → Bool
matches e none = true
matches e (some t) = is_pair_of e t
