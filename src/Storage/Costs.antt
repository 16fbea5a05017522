-- ===== src/Storage/Costs.antt =====
-- The table `cost_records` of python-glue/unified_ai/storage/sqlite.py, and the tracker of
-- python-glue/unified_ai/cost/tracker.py, whose storage it is. A cost is a number of
-- millionths of a dollar, so that sums are exact; times are in seconds.
pub mod Totals
mod Tests
use unified_ai_orchestrator.Base.{
  ℕ, ◌+◌, Bool, true, false, Option, none, some, List, [], ◌∷◌, ◌++◌, map, select, ◌&&◌, leb,
  if◌then◌else◌,
}
use unified_ai_orchestrator.Base.Text.{Text, text_eq, same_text, has_text}
use unified_ai_orchestrator.Base.Rows.{newest_first, sum_of}

pub record CostRow : Type 0 where
  pub id : ℕ
  pub tool : Text
  pub model : Text
  pub input_tokens : ℕ
  pub output_tokens : ℕ
  pub cost_usd : ℕ
  pub conversation_id : Option Text
  pub project_id : Option Text
  pub created_at : ℕ

-- The table, with the number of the next row.
pub record CostTable : Type 0 where
  pub next_id : ℕ
  pub rows : List CostRow

-- `SQLiteStorage.record_cost`, at the time `now`.
unfoldable pub record_cost :
    Text → Text → ℕ → ℕ → ℕ → Option Text → Option Text → ℕ → CostTable → CostTable
record_cost tool model input_tokens output_tokens cost_usd conversation_id project_id now s =
    let row : CostRow = record {
      id = s.next_id;
      tool = tool;
      model = model;
      input_tokens = input_tokens;
      output_tokens = output_tokens;
      cost_usd = cost_usd;
      conversation_id = conversation_id;
      project_id = project_id;
      created_at = now;
    } in
    record { next_id = s.next_id + 1; rows = s.rows ++ row ∷ [] }

from_start : Option ℕ → ℕ → Bool
from_start none t = true
from_start (some start) t = leb start t

to_end : Option ℕ → ℕ → Bool
to_end none t = true
to_end (some end) t = leb t end

-- `if tool:` and `tool = ?`: an empty text is no condition.
unfoldable pub is_column : Option Text → Option Text → Bool
is_column wanted column = if has_text wanted then same_text column wanted else true

-- The WHERE clause.
unfoldable pub fits : Option ℕ → Option ℕ → Option Text → Option Text → CostRow → Bool
unfolding from_start to_end is_column
fits start end tool project_id r =
    from_start start r.created_at
    && to_end end r.created_at
    && is_column tool (some r.tool)
    && is_column project_id r.project_id

-- `SQLiteStorage.get_costs`
unfoldable pub get_costs :
    Option ℕ → Option ℕ → Option Text → Option Text → CostTable → List CostRow
get_costs start_date end_date tool project_id s =
    newest_first (λ r. r.created_at) [] (select (fits start_date end_date tool project_id) s.rows)

-- `CostTracker.get_total_cost`; `user_id` is not used.
unfoldable pub get_total_cost : Option ℕ → Option ℕ → Option Text → Option Text → CostTable → ℕ
get_total_cost start end user_id project_id s =
    sum_of (λ r. r.cost_usd) (get_costs start end none project_id s)

-- `CostTracker.record_cost` hands on what it is given but for the user.
unfoldable pub tracker_record_cost :
    Text → Text → ℕ → ℕ → ℕ → Option Text → Option Text → Option Text → ℕ → CostTable → CostTable
tracker_record_cost tool model input_tokens output_tokens cost_usd user_id project_id
      conversation_id now s =
    record_cost tool model input_tokens output_tokens cost_usd conversation_id project_id now s
