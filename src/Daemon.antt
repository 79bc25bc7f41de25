-- ===== src/Daemon.antt =====
-- crates/orchd/src/daemon_loop.rs: what the loop keeps of the restacks that it will try again, and of
-- the budget of tokens; and the mode in which a task is submitted. The loop itself, which starts
-- processes, is not modelled.
pub mod Restacks
pub mod Budget
mod Tests
use othala.Base.{
  ℕ, suc, ◌+◌, ◌-◌, ◌*◌, ◌/◌, ◌^◌, min, Bool, true, false, ◌&&◌, not, Option, none, some, List, [],
  ◌∷◌, String, length, leb, ltb, if◌then◌else◌, unwrap_or, string_eq, index_eq, opt_beq,
}
use othala.Base.Text.{chars}
use othala.Base.Assoc.{Assoc, get, insert, remove}
use othala.Core.Time.{Chrono}
use othala.Core.Task.{Task, TaskId, SubmitMode, single, stack}

abbrev restack_retry_max_retries : ℕ
restack_retry_max_retries = 3

abbrev restack_retry_initial_backoff_secs : ℕ
restack_retry_initial_backoff_secs = 5

pub record RestackRetryState (T : Type 0) : Type 0 where
  pub attempts : ℕ
  pub max_retries : ℕ
  pub last_attempt : T
  pub backoff_secs : ℕ

-- `saturating_mul` on 64 bits.
abbrev pub saturating_mul : ℕ → ℕ → ℕ
saturating_mul a b = min (a * b) (2 ^ 64 - 1)

abbrev pub saturating_add : ℕ → ℕ → ℕ
saturating_add a b = min (a + b) (2 ^ 64 - 1)

module _ {T : Type 0} where
  abbrev pub first : T → RestackRetryState T
  first now = record {
    attempts = 1;
    max_retries = restack_retry_max_retries;
    last_attempt = now;
    backoff_secs = restack_retry_initial_backoff_secs;
  }

  abbrev pub next : RestackRetryState T → T → Option (RestackRetryState T)
  next self now =
      if leb self.max_retries self.attempts
      then none
      else some (record {
        attempts = self.attempts + 1;
        max_retries = self.max_retries;
        last_attempt = now;
        backoff_secs = saturating_mul self.backoff_secs 2;
      })

  -- The seconds are few enough for the cast to a signed number to keep them.
  abbrev pub retry_ready_at : ⦃chrono : Chrono T⦄ → RestackRetryState T → T
  retry_ready_at ⦃chrono⦄ self = chrono.add_secs self.last_attempt self.backoff_secs

  abbrev pub is_ready : ⦃chrono : Chrono T⦄ → RestackRetryState T → T → Bool
  is_ready ⦃chrono⦄ self now = chrono.le (retry_ready_at self) now

  abbrev pub next_for : Option (RestackRetryState T) → T → Option (RestackRetryState T)
  next_for none now = some (first now)
  next_for (some existing) now = next existing now

  abbrev pub keep :
      Assoc String (RestackRetryState T)
      → String
      → Option (RestackRetryState T)
      → Option (RestackRetryState T) × Assoc String (RestackRetryState T)
  keep retries task_id none = (none, remove retries task_id)
  keep retries task_id (some state) = (some state, insert retries task_id state)

  -- On the map `restack_retries` of the daemon's state.
  unfoldable pub schedule_restack_retry :
      Assoc String (RestackRetryState T)
      → TaskId
      → T
      → Option (RestackRetryState T) × Assoc String (RestackRetryState T)
  schedule_restack_retry retries task_id now =
      keep retries task_id (next_for (get retries task_id) now)

  abbrev pub resolve_submit_mode_for_task : Task T → SubmitMode → SubmitMode
  resolve_submit_mode_for_task task default_mode = either task.submit_mode
    where
      either : SubmitMode → SubmitMode
      either stack = stack
      either single = default_mode

pub record BudgetConfig : Type 0 where
  pub enabled : Bool
  pub daily_token_limit : ℕ
  pub monthly_token_limit : ℕ

-- The fields of the daemon's state that are about the budget.
pub record BudgetState : Type 0 where
  pub budget_used_today : ℕ
  pub budget_used_month : ℕ
  pub budget_last_reset_day : Option ℕ
  pub budget_last_reset_month : Option ℕ
  pub budget_output_chars_by_task : Assoc String ℕ

unfoldable pub check_budget : BudgetState → BudgetConfig → Bool
check_budget state config =
    if not config.enabled
    then true
    else (ltb state.budget_used_today config.daily_token_limit
        && ltb state.budget_used_month config.monthly_token_limit)

abbrev pub reset_day : BudgetState → ℕ → BudgetState
reset_day state today =
    if opt_beq state.budget_last_reset_day (some today)
    then state
    else record state { budget_used_today = 0; budget_last_reset_day = some today }

abbrev pub reset_month : BudgetState → ℕ → BudgetState
reset_month state month =
    if opt_beq state.budget_last_reset_month (some month)
    then state
    else record state { budget_used_month = 0; budget_last_reset_month = some month }

-- `today` is the day of the month and `month` the month of the year, as the clock tells them.
unfoldable pub maybe_reset_budget : BudgetState → ℕ → ℕ → BudgetState
maybe_reset_budget state today month = reset_month (reset_day state today) month

-- Numbers of characters in memory do not overflow.
unfoldable pub count_chars : List String → ℕ
unfolding chars
count_chars [] = 0
count_chars (line ∷ lines) = length (chars line) + count_chars lines

unfoldable pub track_output_chars : BudgetState → TaskId → List String → BudgetState
unfolding count_chars
track_output_chars state task_id lines =
    let so_far = unwrap_or (get state.budget_output_chars_by_task task_id) 0 in
    record state {
      budget_output_chars_by_task =
          insert state.budget_output_chars_by_task task_id (so_far + count_chars lines);
    }

-- `div_ceil(4)`
abbrev pub estimate_tokens_from_char_count : ℕ → ℕ
estimate_tokens_from_char_count n = (n + 3) / 4

unfoldable pub estimate_tokens_from_prompt : String → ℕ
unfolding chars
estimate_tokens_from_prompt prompt = estimate_tokens_from_char_count (length (chars prompt))

-- What the end of an agent charges for the task's output: the count of its characters is taken out of
-- the map, and its tokens go to both budgets, `saturating_add` on 64 bits.
unfoldable pub charge_output : BudgetState → TaskId → BudgetState
charge_output state task_id =
    let output_chars = unwrap_or (get state.budget_output_chars_by_task task_id) 0 in
    let output_tokens = estimate_tokens_from_char_count output_chars in
    record state {
      budget_output_chars_by_task = remove state.budget_output_chars_by_task task_id;
      budget_used_today = saturating_add state.budget_used_today output_tokens;
      budget_used_month = saturating_add state.budget_used_month output_tokens;
    }
