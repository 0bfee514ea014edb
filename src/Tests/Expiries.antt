-- ===== src/Tests/Expiries.antt =====
-- Cleanups of expired rows, and their theorems at them.
use terminal_access_manager.Prelude.{◌*◌, ◌≡◌, refl, true, false, none, some, [], ◌∷◌, any, codes}
use terminal_access_manager.Models.{minute, Blacklist, Terminal, blocked, non_compliant}
use terminal_access_manager.Expiry.{Services, has_other_active, cleanup_expired_blacklist}
use terminal_access_manager.Expiry.Rows.{is_overdue, cleanup-none_overdue}
use terminal_access_manager.Tests.Samples.{stranger}

abbrev services : Services
services = λ tag. some (record { has_base_url = true; unblock_ip = λ ip. some 0 })

abbrev row : Blacklist
row = record {
  ip_address = some (codes "10.0.0.77");
  mac_address = some (codes "AA:BB:CC:00:11:77");
  mac_address_normalized = some (codes "AABBCC001177");
  reason = codes "MAC";
  unblock_reason = none;
  blocked_at = minute;
  expires_at = some (5 * minute);
  source_tag = none;
  firewall_tag = some (codes "fw1");
  is_auto_blocked = true;
  auto_unblocked = false;
  unblocked_at = none;
  unflushed = none;
}

abbrev barred : Terminal
barred = record stranger { status = blocked; compliance_status = non_compliant }

cleanup-none_overdue_example :
    any
      (is_overdue (9 * minute))
      (cleanup_expired_blacklist services (9 * minute) (row ∷ []) (barred ∷ [])).rows
    ≡ false
cleanup-none_overdue_example = cleanup-none_overdue services (9 * minute) (row ∷ []) (barred ∷ [])

-- A row that a cleanup closed is expired still, and its address is unblocked once more.
abbrev closed_row : Blacklist
closed_row = record row { unblocked_at = some (6 * minute) }

closed_again :
    (cleanup_expired_blacklist services (9 * minute) (closed_row ∷ []) []).requests
    ≡ (some (codes "fw1"), some (codes "10.0.0.77")) ∷ []
unfolding cleanup_expired_blacklist has_other_active any
closed_again = refl
