-- ===== src/Daemon/Budget.antt =====
-- What the output of agents costs, and when the budgets start anew.
use othala.Base.{
  ℕ, ◌+◌, ◌≡◌, refl, ◌∙◌, ap, none, List, [], ◌∷◌, String, if◌then◌else◌, inl, inr, unwrap_or,
  string_eq, ◌==◌, ==_refl, arith, Bool-cases,
}
use othala.Base.Assoc.{get, get-insert, get-remove}
use othala.Core.Task.{TaskId}
use othala.Daemon.{
  BudgetState, saturating_add, count_chars, track_output_chars, charge_output,
  estimate_tokens_from_char_count,
}

-- The chunks of output that the agents of all tasks write, in order.
unfoldable pub track_all : BudgetState → List (TaskId × List String) → BudgetState
unfolding track_output_chars
track_all state [] = state
track_all state ((task_id, lines) ∷ chunks) =
    track_all (track_output_chars state task_id lines) chunks

-- The characters of a task among them.
unfoldable pub written_by : TaskId → List (TaskId × List String) → ℕ
unfolding count_chars
written_by task_id [] = 0
written_by task_id ((writer, lines) ∷ chunks) =
    let later = written_by task_id chunks in
    if writer == task_id then count_chars lines + later else later

abbrev chars_of : BudgetState → TaskId → ℕ
chars_of state task_id = unwrap_or (get state.budget_output_chars_by_task task_id) 0

track_output_chars_lem :
    (state : BudgetState) (writer task_id : TaskId) (lines : List String)
    → chars_of (track_output_chars state writer lines) task_id
      ≡ chars_of state task_id + (if writer == task_id then count_chars lines else 0)
unfolding track_output_chars
track_output_chars_lem state writer task_id lines = elim (Bool-cases (writer == task_id)) [
  | inl hit ↦
      let same : writer ≡ task_id = (string_eq.same_iff writer task_id).0 hit in
      let found =
        get-insert state.budget_output_chars_by_task writer task_id
          (chars_of state writer + count_chars lines) in
      ap (λ o. unwrap_or o 0) found ∙ rw hit (ap (λ id. chars_of state id + count_chars lines) same)
  | inr miss ↦
      let found =
        get-insert state.budget_output_chars_by_task writer task_id
          (chars_of state writer + count_chars lines) in
      ap (λ o. unwrap_or o 0) found ∙ rw miss (omega arith)
]

track_all-chars :
    (chunks : List (TaskId × List String)) (state : BudgetState) (task_id : TaskId)
    → chars_of (track_all state chunks) task_id ≡ chars_of state task_id + written_by task_id chunks
unfolding track_all written_by
track_all-chars [] state task_id = omega arith
track_all-chars ((writer, lines) ∷ chunks) state task_id = ground (
  arith,
  track_output_chars_lem state writer task_id lines,
  track_all-chars chunks (track_output_chars state writer lines) task_id,
)

track_all-budgets :
    (chunks : List (TaskId × List String)) (state : BudgetState)
    → ((track_all state chunks).budget_used_today ≡ state.budget_used_today)
      × ((track_all state chunks).budget_used_month ≡ state.budget_used_month)
unfolding track_all track_output_chars
track_all-budgets [] state = (refl, refl)
track_all-budgets ((writer, lines) ∷ chunks) state =
    track_all-budgets chunks (track_output_chars state writer lines)

pub charge_output-written :
    (state : BudgetState) (task_id : TaskId) (chunks : List (TaskId × List String))
    → get state.budget_output_chars_by_task task_id ≡ none
    → let after = charge_output (track_all state chunks) task_id in
      let tokens = estimate_tokens_from_char_count (written_by task_id chunks) in
      (after.budget_used_today ≡ saturating_add state.budget_used_today tokens)
      × (after.budget_used_month ≡ saturating_add state.budget_used_month tokens)
      × (get after.budget_output_chars_by_task task_id ≡ none)
unfolding charge_output
charge_output-written state task_id chunks fresh =
    let (today, month) = track_all-budgets chunks state in
    let counted : chars_of (track_all state chunks) task_id ≡ written_by task_id chunks =
      track_all-chars chunks state task_id
      ∙ ap (λ o. unwrap_or o 0 + written_by task_id chunks) fresh
      ∙ omega arith in
    (
      (λ i. saturating_add (today i) (estimate_tokens_from_char_count (counted i))),
      (λ i. saturating_add (month i) (estimate_tokens_from_char_count (counted i))),
      get-remove (track_all state chunks).budget_output_chars_by_task task_id task_id
          ∙ rw (==_refl task_id) refl,
    )
