-- ===== src/Daemon/Tests.antt =====
-- The theorems about restacks and the budget at small inputs.
use othala.Base.{ℕ, ◌≡◌, refl, false, none, List, [], ◌∷◌, String, string_eq, ◌==◌}
use othala.Base.Assoc.{get}
use othala.Core.Task.{TaskId}
use othala.Daemon.{
  BudgetState, RestackRetryState, first, saturating_add, charge_output,
  estimate_tokens_from_char_count,
}
use othala.Daemon.Restacks.{idle, pace, schedule_all, schedule_all-pace}
use othala.Daemon.Budget.{track_all, written_by, charge_output-written}

abbrev waiting : List (String × RestackRetryState ℕ)
waiting = ("T9", first 3) ∷ []

schedule_all-pace_example :
    ((schedule_all waiting "T1" (10 ∷ 20 ∷ 30 ∷ 40 ∷ 50 ∷ [])).0
      ≡ pace idle (10 ∷ 20 ∷ 30 ∷ 40 ∷ 50 ∷ []))
    × ((other : String)
        → ("T1" == other) ≡ false
        → get (schedule_all waiting "T1" (10 ∷ 20 ∷ 30 ∷ 40 ∷ 50 ∷ [])).1 other ≡ get waiting other)
unfolding get
schedule_all-pace_example = schedule_all-pace waiting "T1" idle 0 (10 ∷ 20 ∷ 30 ∷ 40 ∷ 50 ∷ []) refl

abbrev fresh_budget : BudgetState
fresh_budget = record {
  budget_used_today = 7;
  budget_used_month = 90;
  budget_last_reset_day = none;
  budget_last_reset_month = none;
  budget_output_chars_by_task = [];
}

abbrev output : List (TaskId × List String)
output = ("T1", "abc" ∷ "de" ∷ []) ∷ ("T2", "xyz" ∷ []) ∷ ("T1", "f" ∷ []) ∷ []

charge_output-written_example :
    let after = charge_output (track_all fresh_budget output) "T1" in
    let tokens = estimate_tokens_from_char_count (written_by "T1" output) in
    (after.budget_used_today ≡ saturating_add 7 tokens)
    × (after.budget_used_month ≡ saturating_add 90 tokens)
    × (get after.budget_output_chars_by_task "T1" ≡ none)
unfolding get
charge_output-written_example = charge_output-written fresh_budget "T1" output refl
