-- ===== src/Retry.antt =====
-- crates/orchd/src/retry.rs: whether a failed task is retried, and with which model.
pub mod Health
pub mod Evaluate
pub mod Tracker
pub mod Select
mod Tests
use Prim.Native.String.{◌++◌}
use othala.Base.{
  ℕ, ◌+◌, Bool, true, false, not, ◌&&◌, ◌||◌, String, Option, some, none, List, [], ◌∷◌, leb, find,
  if◌then◌else◌, ◌==◌, contains,
}
use othala.Base.Text.{decimal}
use othala.Core.Task.{TaskId, ModelKind, model_eq, model_str, Task}
use othala.Base.{ℤ}

-- crates/orchd/src/supervisor.rs: what an agent session ended with.
pub record AgentOutcome : Type 0 where
  pub task_id : TaskId
  pub model : ModelKind
  pub exit_code : Option ℤ
  pub patch_ready : Bool
  pub needs_human : Bool
  pub success : Bool
  pub duration_secs : ℕ

pub record RetryDecision : Type 0 where
  pub should_retry : Bool
  pub next_model : Option ModelKind
  pub reason : String

abbrev refuse : String → RetryDecision
refuse reason = record { should_retry = false; next_model = none; reason = reason }

module _ {T : Type 0} where
  -- The guard of both selections: not the model that just failed, and none that failed before.
  abbrev pub is_usable : Task T → ModelKind → ModelKind → Bool
  is_usable task just_failed m = not (m == just_failed) && not (contains task.failed_models m)

  abbrev pub preferred_if_usable : Task T → ModelKind → List ModelKind → Option ModelKind
  preferred_if_usable task just_failed enabled = elim task.preferred_model [
    | none ↦ none
    | some preferred ↦
        if is_usable task just_failed preferred && contains enabled preferred
        then some preferred
        else none
  ]

  unfoldable pub pick_next_model : Task T → ModelKind → List ModelKind → Option ModelKind
  pick_next_model task just_failed enabled = elim (preferred_if_usable task just_failed enabled) [
    | some preferred ↦ some preferred
    | none ↦ find (is_usable task just_failed) enabled
  ]

  unfoldable pub evaluate_retry : Task T → AgentOutcome → List ModelKind → RetryDecision
  unfolding decimal model_str
  evaluate_retry task outcome enabled =
      if outcome.success || outcome.patch_ready
      then refuse "task succeeded"
      else if outcome.needs_human
      then refuse "agent requested human help"
      else if leb task.max_retries task.retry_count
      then refuse ("max retries (" ++ decimal task.max_retries ++ ") exhausted")
      else elim (pick_next_model task outcome.model enabled) [
        | some model ↦ record {
          should_retry = true;
          next_model = some model;
          reason =
              "retrying (attempt "
              ++ decimal (task.retry_count + 1)
              ++ "/"
              ++ decimal task.max_retries
              ++ ") with "
              ++ model_str model;
        }
        | none ↦ refuse "no available models left (all have failed)"
      ]
