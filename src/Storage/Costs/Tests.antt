-- ===== src/Storage/Costs/Tests.antt =====
-- Costs on both sides of a midnight, and the theorems on them.
use unified_ai_orchestrator.Base.{ℕ, ◌+◌, ◌≡◌, refl, arith, none, some, []}
use unified_ai_orchestrator.Base.Text.{codes}
use unified_ai_orchestrator.Storage.Costs.{
  CostTable, record_cost, tracker_record_cost, is_column, fits, get_costs, get_total_cost,
}
use unified_ai_orchestrator.Storage.Costs.Totals.{get_total_cost-split, get_total_cost-record}

program : Unit {0}
unfolding record_cost tracker_record_cost is_column fits get_costs get_total_cost
program = tt

abbrev paid : ℕ → ℕ → CostTable → CostTable
paid amount now s =
    tracker_record_cost (codes "claude") (codes "m") 10 20 amount none (some (codes "p")) none now s

no_costs : CostTable
no_costs = record { next_id = 1; rows = [] }

abbrev three : CostTable
three = paid 4 86400 (paid 2 86399 (paid 1 100 no_costs))

first_day : get_total_cost (some 0) (some 86400) none none three ≡ 7
unfolding program no_costs
first_day = refl

second_day : get_total_cost (some 86400) (some 172800) none none three ≡ 4
unfolding program no_costs
second_day = refl

other_project : get_total_cost none none none (some (codes "q")) three ≡ 0
unfolding program no_costs
other_project = refl

get_total_cost-split_example :
    get_total_cost (some 0) (some 86400) none none three
      + get_total_cost (some 86400) (some 172800) none none three
    ≡ get_total_cost (some 0) (some 172800) none none three
      + get_total_cost (some 86400) (some 86400) none none three
get_total_cost-split_example =
    get_total_cost-split 0 86400 172800 none none three (omega arith) (omega arith)

get_total_cost-record_example :
    get_total_cost (some 0) none none none (paid 9 86401 three)
    ≡ get_total_cost (some 0) none none none three + 9
unfolding program
get_total_cost-record_example =
    get_total_cost-record (codes "claude") (codes "m") 10 20 9 none none (some (codes "p")) none
      none (some 0) none 86401 three
