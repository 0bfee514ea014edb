-- ===== src/Compliance/Firewall.antt =====
-- Firewall calls of compliance_service.py: `_block_outcome`, `_block_on_firewall_detailed`,
-- `_unblock_on_firewall` and the bindings of `_get_bound_firewall_tags`. The appliance (Sangfor AF)
-- is a parameter: what it answers to a request, or that the request raised.
use terminal_access_manager.Prelude.{
  ℕ, Bool, false, ◌&&◌, Option, none, some, List, [], map, if◌then◌else◌, Text, text_eq, select,
  find, ◌==◌, ltb,
}

-- A row of `data_sources`
pub record DataSource : Type 0 where
  pub tag : Text
  pub is_sangfor : Bool
  pub enabled : Bool

-- A row of `data_source_bindings`
pub record Binding : Type 0 where
  pub arp_source_tag : Text
  pub firewall_tag : Text

-- The answer to a block request: its `code`, and the length of `data.blocked`
pub record BlockAnswer : Type 0 where
  pub code : ℕ
  pub blocked_count : ℕ

-- What the appliance behind a firewall tag answers about an address; `none` when the call raises
pub record Appliance : Type 0 where
  pub block_ip : Text → Text → Option BlockAnswer
  pub unblock_ip : Text → Text → Option ℕ

-- `_block_outcome`: `(is_blocked, newly_blocked)`
unfoldable pub block_outcome : BlockAnswer → Bool × Bool
block_outcome r = (r.code == 0, ltb 0 r.blocked_count)

-- `if fw_source and fw_source.enabled` on the source with this tag
unfoldable pub usable : List DataSource → Text → Bool
unfolding find
usable sources firewall_tag =
    elim (find (λ s. text_eq s.tag firewall_tag && s.is_sangfor) sources) [
      | none ↦ false
      | some s ↦ s.enabled
    ]

abbrev outcome_or_failed : Option BlockAnswer → Bool × Bool
outcome_or_failed none = (false, false)
outcome_or_failed (some r) = block_outcome r

-- `_block_on_firewall_detailed`
unfoldable pub block_on_firewall : List DataSource → Appliance → Text → Text → Bool × Bool
unfolding block_outcome usable
block_on_firewall sources appliance ip firewall_tag =
    if usable sources firewall_tag
    then outcome_or_failed (appliance.block_ip firewall_tag ip)
    else (false, false)

abbrev code_is_zero : Option ℕ → Bool
code_is_zero none = false
code_is_zero (some code) = code == 0

-- `_unblock_on_firewall`
unfoldable pub unblock_on_firewall : List DataSource → Appliance → Text → Text → Bool
unfolding usable
unblock_on_firewall sources appliance ip firewall_tag =
    usable sources firewall_tag && code_is_zero (appliance.unblock_ip firewall_tag ip)

-- `_get_bound_firewall_tags`; a NULL source tag is bound to nothing
unfoldable pub bound_firewall_tags : List Binding → Option Text → List Text
unfolding select
bound_firewall_tags bindings none = []
bound_firewall_tags bindings (some source_tag) =
    map (λ b. b.firewall_tag) (select (λ b. text_eq b.arp_source_tag source_tag) bindings)
