-- ===== src/Tests/Batches.antt =====
-- Automatic blocks of a source, and their theorems at them.
use terminal_access_manager.Prelude.{◌≡◌, true, false, some, List, [], ◌∷◌, all, codes}
use terminal_access_manager.Models.{Terminal, non_compliant}
use terminal_access_manager.Compliance.Batch.{auto_block_non_compliant}
use terminal_access_manager.Compliance.Batch.Requests.{is_justified, auto_block_justified}
use terminal_access_manager.Tests.Samples.{env, stranger}

-- A laptop with two addresses, of which one was judged
abbrev wired : Terminal
wired = record stranger { compliance_status = non_compliant; device_id = some (codes "dev9") }

abbrev wireless : Terminal
wireless = record stranger {
  id = 8;
  ip_address = codes "10.0.0.78";
  mac_address = codes "AA:BB:CC:00:11:78";
  mac_address_normalized = codes "AABBCC001178";
  device_id = some (codes "dev9");
}

abbrev laptop : List Terminal
laptop = wired ∷ wireless ∷ []

auto_block_justified_example :
    all
      (is_justified env [] (some []) (codes "arp1") laptop [])
      (auto_block_non_compliant env [] (some []) (codes "arp1") false laptop []).batch.requests
    ≡ true
auto_block_justified_example = auto_block_justified env [] (some []) (codes "arp1") laptop [] false
