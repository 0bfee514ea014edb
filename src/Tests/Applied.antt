-- ===== src/Tests/Applied.antt =====
-- Runs of `apply_compliance_result`, and its theorems at them.
use terminal_access_manager.Prelude.{
  ◌≡◌, refl, not, true, false, none, some, [], Text, codes, text_eq, arith,
}
use terminal_access_manager.Models.{Terminal, blocked, compliance_eq, compliant, non_compliant}
use terminal_access_manager.Compliance.Firewall.{block_on_firewall}
use terminal_access_manager.Compliance.Entries.{recently_unblocked, active_firewall_tags}
use terminal_access_manager.Compliance.Entries.Unique.{count, IsUnique}
use terminal_access_manager.Compliance.Unblock.{auto_unblock}
use terminal_access_manager.Compliance.Unblock.Laws.{Answered, is_let_go, auto_unblock_lem}
use terminal_access_manager.Compliance.Block.{auto_block}
use terminal_access_manager.Compliance.Block.Laws.{Ending, facts, auto_block-Ending}
use terminal_access_manager.Compliance.Work.{Work}
use terminal_access_manager.Compliance.Apply.{Outcome, apply_compliance_result}
use terminal_access_manager.Compliance.Apply.Rows.{apply-IsUnique}
use terminal_access_manager.Compliance.Apply.States.{IsContained, apply_contains, apply_reports}
use terminal_access_manager.Compliance.Apply.Recovery.{Recovery, apply_recovers}
use terminal_access_manager.Tests.Samples.{env, stranger, call}

abbrev downgrade : Outcome
downgrade = record { status = non_compliant; wl_match_type = none; wl_comments = none }

pub no_rows-IsUnique : IsUnique []
unfolding count
no_rows-IsUnique = record { at_most_one = λ i f. omega arith }

-- The downgraded terminal is blocked on the firewall of its source.
downgrade_blocks :
    (apply_compliance_result env call downgrade stranger []).work.terminal.firewall_tag
    ≡ some (codes "fw1")
unfolding apply_compliance_result block_on_firewall recently_unblocked active_firewall_tags text_eq
downgrade_blocks = refl

downgrade_changes : (apply_compliance_result env call downgrade stranger []).status_changed ≡ true
unfolding apply_compliance_result block_on_firewall recently_unblocked active_firewall_tags text_eq
downgrade_changes = refl

apply_contains_example :
    IsContained (apply_compliance_result env call downgrade stranger []).work.terminal
apply_contains_example = apply_contains env call downgrade stranger [] refl downgrade_changes

apply-IsUnique_example : IsUnique (apply_compliance_result env call downgrade stranger []).work.rows
apply-IsUnique_example = apply-IsUnique env call downgrade stranger [] no_rows-IsUnique

abbrev tag : Text
tag = codes "fw1"

abbrev idle : Work
idle = record { terminal = stranger; rows = []; effects = []; unblocked = false }

abbrev barred : Terminal
barred = record stranger {
  status = blocked;
  compliance_status = non_compliant;
  firewall_tag = some tag;
}

abbrev jailed : Work
jailed = record { terminal = barred; rows = []; effects = []; unblocked = false }

auto_unblock_example :
    Answered
      (is_let_go env call compliant barred [])
      jailed
      (auto_unblock env call compliant jailed)
auto_unblock_example = auto_unblock_lem env call compliant jailed

auto_block_example :
    Ending
      (facts env call compliant idle)
      compliant
      idle
      (auto_block env call compliant (codes "MAC") idle)
auto_block_example = auto_block-Ending env call compliant (codes "MAC") idle

apply_reports_example :
    let r = apply_compliance_result env call downgrade stranger [] in
    (r.new_compliance ≡ r.work.terminal.compliance_status)
    × (r.status_changed ≡ not (compliance_eq r.work.terminal.compliance_status compliant))
apply_reports_example = apply_reports env call downgrade stranger []

abbrev upgrade : Outcome
upgrade = record { status = compliant; wl_match_type = none; wl_comments = none }

apply_recovers_example :
    Recovery
      (is_let_go env call compliant barred [])
      []
      (apply_compliance_result env call upgrade barred []).work
apply_recovers_example = apply_recovers env call upgrade barred [] refl refl refl
