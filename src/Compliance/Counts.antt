-- ===== src/Compliance/Counts.antt =====
-- The confirmation counts of compliance_service.py: `_mac_non_compliant_total`,
-- `_reset_mac_non_compliant_counts`, and the row of a terminal in the table. The rows are the objects
-- of the session, so a change of one is seen by the sum at once.
pub mod Laws
use terminal_access_manager.Prelude.{
  ℕ, ◌+◌, Bool, true, false, not, Option, none, some, List, [], ◌∷◌, map, find, ◌==◌, if◌then◌else◌,
  Text, is_empty, text_eq,
}
use terminal_access_manager.Models.{Terminal}

-- Whether a row is of the device with a MAC key, `if not mac_norm: return` included
abbrev pub of_mac : Option Text → Terminal → Bool
of_mac none t = false
of_mac (some k) t = if is_empty k then false else text_eq t.mac_address_normalized k

unfoldable pub mac_non_compliant_total : Option Text → List Terminal → ℕ
mac_non_compliant_total key [] = 0
mac_non_compliant_total key (t ∷ ts) =
    (if of_mac key t then t.non_compliant_confirm_count else 0) + mac_non_compliant_total key ts

abbrev pub without_count : Terminal → Terminal
without_count t = record t { non_compliant_confirm_count = 0 }

unfoldable pub reset_mac_non_compliant_counts : Option Text → List Terminal → List Terminal
reset_mac_non_compliant_counts key ts = map (λ t. if of_mac key t then without_count t else t) ts

-- The row of a terminal that was changed
unfoldable pub put : Terminal → List Terminal → List Terminal
put t ts = map (λ u. if u.id == t.id then t else u) ts

unfoldable pub get : ℕ → List Terminal → Option Terminal
unfolding find
get id ts = find (λ t. t.id == id) ts
