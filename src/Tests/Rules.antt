-- ===== src/Tests/Rules.antt =====
-- Rules of an array table, and a small data plane that stores the handles of the entries.
use rids.Prelude.{ℕ, ◌≡◌, refl, true, false, List, [], ◌∷◌, none, some}
use rids.Registry.{RteStatus}
use rids.Rules.{
  Rule, RuleTable, table_rule_find, table_rule_add, table_rule_add_bulk, table_rule_delete,
}
use rids.Rules.Match.{Match, acl, array, ipv6, match_equality}
use rids.Rules.Convert.{MatchLl, match_convert}
use rids.Rules.Convert.Keys.{IsRaw}
use rids.Rules.Check.{match_check}
use rids.Rules.Check.Accepted.{match_check-converts}
use rids.Rules.Store.{AreDistinct}
use rids.Rules.History.{Change, add, add_bulk, delete, run, replay, change, run_refines}
use rids.Rules.Calls.{Control, pipeline_table_rule_add}
use rids.Rules.Calls.Sequences.{
  RuleCall, pipeline_table_rule_add-Agrees, pipeline_table_rule_delete-Agrees,
}
use rids.Rules.Calls.Sequences
use rids.Tests.ArrayPlane.{Entries, data_plane, two_ports, to_port_1, ready}

abbrev rule : ℕ → ℕ → Rule Match ℕ
rule pos action = record { match = array pos; action = action; entry = 0 }

abbrev changes : List (Change Match ℕ)
changes =
    add (rule 1 10) ∷ add_bulk (rule 2 20 ∷ rule 1 30 ∷ rule 3 40 ∷ []) 2 ∷ delete (array 2) ∷ []

abbrev no_rules : RuleTable Match ℕ
no_rules = record { rules = []; rule_default = none }

run_refines_example :
    AreDistinct (run changes no_rules).rules
    × (table_rule_find (run changes no_rules) ≡ replay changes (table_rule_find no_rules))
run_refines_example = run_refines changes no_rules tt

run-changes : (run changes no_rules).rules ≡ rule 1 30 ∷ []
unfolding run change table_rule_add table_rule_add_bulk table_rule_delete
run-changes = refl

abbrev acl_match : Match
acl_match = acl (record {
  addresses = ipv6 (1 ∷ []) (2 ∷ []);
  sa_depth = 70;
  da_depth = 128;
  sp0 = 0;
  sp1 = 65535;
  dp0 = 80;
  dp1 = 80;
  proto = 6;
  proto_mask = 255;
  priority = 3;
})

converted : (key : MatchLl) × (match_convert acl_match true ≡ some key)
unfolding match_convert
converted = (_, refl)

acl_match-is-plain : ¬ IsRaw acl_match
acl_match-is-plain h = h

match_check-converts_example : (key : MatchLl) × (match_convert (array 4) true ≡ some key)
unfolding match_check
match_check-converts_example = match_check-converts (array 4) two_ports.tables 0 true refl

added_rule :
    (after : Control ℕ ℕ Entries × RteStatus) × (pipeline_table_rule_add data_plane
        (ready true)
        0
        (some (array 4))
        (some to_port_1)
        two_ports
      ≡ some after)
unfolding pipeline_table_rule_add
added_rule = (_, refl)

abbrev three_calls : List (RuleCall ℕ)
three_calls =
    Sequences.add (ready true) 0 (array 4) (some to_port_1)
    ∷ Sequences.add (ready false) 0 (array 5) (some to_port_1)
    ∷ Sequences.delete (ready true) 0 (array 4)
    ∷ []
