-- ===== src/Scheduler.antt =====
-- crates/orchd/src/scheduler.rs: which queued tasks are started, and on which model.
pub mod Order
pub mod Models
pub mod Plan
mod Tests
use othala.Base.{ℕ, Bool, List, Option, [], ◌^◌, ◌-◌}
use othala.Base.Assoc.{Assoc, insert}
use othala.Core.State.{TaskState}
use othala.Core.Task.{
  TaskId, RepoId, ModelKind, claude, codex, gemini, model_eq, SubmitMode, TaskPriority,
}

-- crates/orch-core/src/config.rs
pub record ConcurrencyConfig : Type 0 where
  pub per_repo : ℕ
  pub claude : ℕ
  pub codex : ℕ
  pub gemini : ℕ

pub record SchedulerConfig : Type 0 where
  pub per_repo_limit : ℕ
  pub per_model_limit : Assoc ModelKind ℕ

-- Of the `OrgConfig` only its `concurrency` is read.
unfoldable pub from_org_config : ConcurrencyConfig → SchedulerConfig
from_org_config concurrency = record {
  per_repo_limit = concurrency.per_repo;
  per_model_limit =
      insert (insert (insert [] claude concurrency.claude) codex concurrency.codex) gemini
        concurrency.gemini;
}

pub record QueuedTask (T : Type 0) : Type 0 where
  pub task_id : TaskId
  pub repo_id : RepoId
  pub depends_on : List TaskId
  pub submit_mode : SubmitMode
  pub preferred_model : Option ModelKind
  pub priority : TaskPriority
  pub enqueued_at : T

pub record RunningTask : Type 0 where
  pub task_id : TaskId
  pub repo_id : RepoId
  pub model : ModelKind

pub record ModelAvailability : Type 0 where
  pub model : ModelKind
  pub available : Bool

pub record SchedulingInput (T : Type 0) : Type 0 where
  pub queued : List (QueuedTask T)
  pub running : List RunningTask
  pub all_task_states : Assoc TaskId TaskState
  pub enabled_models : List ModelKind
  pub availability : List ModelAvailability

pub data BlockReason : Type 0 where
  dependencies_unresolved repo_limit_reached model_limit_reached no_available_model : BlockReason

pub record ScheduledAssignment : Type 0 where
  pub task_id : TaskId
  pub repo_id : RepoId
  pub model : ModelKind

pub record BlockedTask : Type 0 where
  pub task_id : TaskId
  pub reason : BlockReason

pub record SchedulePlan : Type 0 where
  pub assignments : List ScheduledAssignment
  pub blocked : List BlockedTask

-- On a machine of 64 bits.
abbrev pub usize_max : ℕ
usize_max = 2 ^ 64 - 1
