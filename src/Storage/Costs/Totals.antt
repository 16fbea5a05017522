-- ===== src/Storage/Costs/Totals.antt =====
-- What the totals of a period count.
use unified_ai_orchestrator.Base.{
  ℕ, ◌+◌, ◌≤◌, ◌≡◌, refl, ◌∙◌, Bool, true, Option, none, some, List, [], ◌∷◌, ◌++◌, select, ◌&&◌,
  leb, if◌then◌else◌, arith,
}
use unified_ai_orchestrator.Base.Text.{Text, same_text, has_text}
use unified_ai_orchestrator.Base.Rows.{sum_of, sum_of-newest_first}
use unified_ai_orchestrator.Storage.Costs.{
  CostRow, CostTable, record_cost, tracker_record_cost, from_start, to_end, is_column, fits,
  get_costs, get_total_cost,
}

-- What the rows in a period cost.
abbrev pub total_of : (CostRow → Bool) → List CostRow → ℕ
total_of p [] = 0
total_of p (r ∷ rows) = if p r then r.cost_usd + total_of p rows else total_of p rows

sum-select :
    (p : CostRow → Bool) (rows : List CostRow)
    → sum_of (λ r. r.cost_usd) (select p rows) ≡ total_of p rows
sum-select p [] = refl
sum-select p (r ∷ rows) = ground (arith, sum-select p rows)

get_total_cost-total_of :
    (start end : Option ℕ) (user_id project_id : Option Text) (s : CostTable)
    → get_total_cost start end user_id project_id s
      ≡ total_of (fits start end none project_id) s.rows
unfolding get_total_cost get_costs
get_total_cost-total_of start end user_id project_id s =
    let kept = select (fits start end none project_id) s.rows in
    omega (
      arith,
      sum_of-newest_first (λ r. r.cost_usd) (λ r. r.created_at) [] kept,
      sum-select (fits start end none project_id) s.rows,
    )

total_of-split :
    (a m b : ℕ) (project_id : Option Text) (rows : List CostRow)
    → a ≤ m
    → m ≤ b
    → total_of (fits (some a) (some m) none project_id) rows
        + total_of (fits (some m) (some b) none project_id) rows
      ≡ total_of (fits (some a) (some b) none project_id) rows
        + total_of (fits (some m) (some m) none project_id) rows
unfolding fits from_start to_end
total_of-split a m b project_id [] h k = refl
total_of-split a m b project_id (r ∷ rows) h k =
    ground (arith, total_of-split a m b project_id rows h k)

-- The totals of two periods that follow each other count what was recorded at the second where they
-- meet twice: together they are the total of the whole period and that of this second. A daily
-- report ends at the midnight with which the next one starts.
pub get_total_cost-split :
    (a m b : ℕ) (user_id project_id : Option Text) (s : CostTable)
    → a ≤ m
    → m ≤ b
    → get_total_cost (some a) (some m) user_id project_id s
        + get_total_cost (some m) (some b) user_id project_id s
      ≡ get_total_cost (some a) (some b) user_id project_id s
        + get_total_cost (some m) (some m) user_id project_id s
get_total_cost-split a m b user_id project_id s h k = omega (
  arith,
  total_of-split a m b project_id s.rows h k,
  get_total_cost-total_of (some a) (some m) user_id project_id s,
  get_total_cost-total_of (some m) (some b) user_id project_id s,
  get_total_cost-total_of (some a) (some b) user_id project_id s,
  get_total_cost-total_of (some m) (some m) user_id project_id s,
)

total_of-snoc :
    (p : CostRow → Bool) (rows : List CostRow) (r : CostRow)
    → total_of p (rows ++ r ∷ []) ≡ total_of p rows + (if p r then r.cost_usd else 0)
total_of-snoc p [] r = ground arith
total_of-snoc p (q ∷ rows) r = ground (arith, total_of-snoc p rows r)

-- The time is not before the start and not after the end, where they are given.
abbrev pub within : Option ℕ → Option ℕ → ℕ → Bool
within none none now = true
within none (some end) now = leb now end
within (some start) none now = leb start now
within (some start) (some end) now = leb start now && leb now end

fits-within :
    (start end : Option ℕ) (wanted : Option Text) (r : CostRow)
    → fits start end none wanted r ≡ (
        within start end r.created_at
        && (if has_text wanted then same_text r.project_id wanted else true))
unfolding fits from_start to_end is_column
fits-within none none wanted r = refl
fits-within none (some end) wanted r = ground arith
fits-within (some start) none wanted r = ground arith
fits-within (some start) (some end) wanted r = ground arith

-- What is recorded is counted: after `record_cost` at the time `now`, the total of a period grows by the cost
-- if `now` is in the period, its ends included, and the total is that of all projects or of the
-- project that was recorded, and is unchanged if not. The user makes no difference.
pub get_total_cost-record :
    (tool model : Text) (input_tokens output_tokens cost_usd : ℕ)
    (payer user_id project wanted conversation : Option Text) (start end : Option ℕ) (now : ℕ)
    (s : CostTable)
    → get_total_cost start end user_id wanted (
        tracker_record_cost tool model input_tokens output_tokens cost_usd payer project
          conversation now s)
      ≡ get_total_cost start end user_id wanted s
        + (if within start end now && (if has_text wanted then same_text project wanted else true)
            then cost_usd
            else 0)
unfolding tracker_record_cost record_cost
get_total_cost-record tool model input_tokens output_tokens cost_usd payer user_id project wanted
      conversation start end now s =
    let row : CostRow = record {
      id = s.next_id;
      tool = tool;
      model = model;
      input_tokens = input_tokens;
      output_tokens = output_tokens;
      cost_usd = cost_usd;
      conversation_id = conversation;
      project_id = project;
      created_at = now;
    } in
    let after =
      tracker_record_cost tool model input_tokens output_tokens cost_usd payer project conversation
        now s in
    get_total_cost-total_of start end user_id wanted after
    ∙ total_of-snoc (fits start end none wanted) s.rows row
    ∙ rw (fits-within start end wanted row, get_total_cost-total_of start end user_id wanted s) refl
