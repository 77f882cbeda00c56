-- ===== src/Tests/Bulk.antt =====
-- A list of two rules for an array table.
use rids.Prelude.{ℕ, ◌≡◌, ◌⊎◌, refl, List, [], ◌∷◌, some, true}
use rids.Registry.{RteStatus}
use rids.Rules.{Rule}
use rids.Rules.Match.{Match, array}
use rids.Rules.Check.{RuleAction}
use rids.Rules.Calls.{Control}
use rids.Rules.Calls.Bulk.{check_rules, pipeline_table_rule_add_bulk}
use rids.Rules.Calls.Bulk.Counts.{IsReport, pipeline_table_rule_add_bulk-IsReport}
use rids.Tests.ArrayPlane.{Entries, data_plane, two_ports, to_port_1, Kept, ready}

abbrev two_rules : List (Rule Match (RuleAction ℕ))
two_rules =
    record { match = array 4; action = to_port_1; entry = 0 }
    ∷ record { match = array 5; action = to_port_1; entry = 0 }
    ∷ []

added :
    (result : Control ℕ ℕ Entries × (RteStatus ⊎ (ℕ × ℕ))) × (pipeline_table_rule_add_bulk
        data_plane
        (ready true)
        0
        (some two_rules)
        two_ports
      ≡ some result)
unfolding pipeline_table_rule_add_bulk check_rules
added = (_, refl)

pipeline_table_rule_add_bulk-IsReport_example :
    IsReport data_plane (some 3) 0 two_rules two_ports added.0
pipeline_table_rule_add_bulk-IsReport_example =
    pipeline_table_rule_add_bulk-IsReport data_plane (ready true) 0 two_rules two_ports added.0
      added.1
