-- ===== src/Compliance/Work.antt =====
-- What `_apply_compliance_result` reads and writes. One reading of the clock serves a whole call.
use terminal_access_manager.Prelude.{ℕ, ◌*◌, Bool, Option, some, List, Text}
use terminal_access_manager.Models.{Time, minute, Terminal, Blacklist}
use terminal_access_manager.Mac.{norm_mac_key}
use terminal_access_manager.Compliance.Check.{Loaded, Grouping}
use terminal_access_manager.Compliance.Firewall.{DataSource, Binding, Appliance}

pub record Env : Type 0 where
  pub now : Time
  pub cooldown_minutes : ℕ
  pub block_time : Text
  pub loaded : Loaded
  pub grouping : Option Grouping
  pub bindings : List Binding
  pub sources : List DataSource
  pub appliance : Appliance

-- Requests to a firewall, and events for the notification service
pub data Effect : Type 0 where
  block_request unblock_request : (firewall_tag : Text) → Effect
  terminal_blocked block_failed_error terminal_compliant terminal_non_compliant : Effect

pub record Work : Type 0 where
  pub terminal : Terminal
  pub rows : List Blacklist
  pub effects : List Effect
  pub unblocked : Bool

-- The arguments of a call besides the terminal
pub record Call : Type 0 where
  pub ip_addr : Text
  pub mac_addr : Text
  pub ig_match : Option Bool

abbrev pub mac_key : Call → Option Text
mac_key c = norm_mac_key (some c.mac_addr)

abbrev pub cooldown : Env → Time
cooldown env = env.cooldown_minutes * minute
