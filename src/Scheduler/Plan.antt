-- ===== src/Scheduler/Plan.antt =====
-- `Scheduler::plan`.
pub mod Step
pub mod Limits
pub mod Outcome
use othala.Base.{
  ℕ, suc, ◌+◌, Bool, true, false, ◌&&◌, ◌||◌, Option, some, none, List, [], ◌∷◌, ◌++◌, leb, all,
  is_empty, if◌then◌else◌, ◌==◌, PartialEq, string_eq, unwrap_or,
}
use othala.Base.Assoc.{Assoc, get, insert}
use othala.Core.State.{TaskState, awaiting_merge, merged, state_eq}
use othala.Core.Time.{Chrono}
use othala.Core.Task.{TaskId, RepoId, ModelKind, model_eq, is_stack}
use othala.Scheduler.{
  SchedulerConfig, QueuedTask, RunningTask, SchedulingInput, BlockReason, dependencies_unresolved,
  repo_limit_reached, model_limit_reached, no_available_model, ScheduledAssignment, BlockedTask,
  SchedulePlan,
}
use othala.Scheduler.Order.{sort_queued}
use othala.Scheduler.Models.{available_models_in_priority_order, select_model_with_capacity}

module _ {K : Type 0} ⦃cmp : PartialEq K⦄ where
  -- `get(key).copied().unwrap_or(0)`
  unfoldable pub count_of : Assoc K ℕ → K → ℕ
  count_of counts key = unwrap_or (get counts key) 0

  -- `*entry(key).or_insert(0) += 1`; a count of tasks in memory does not overflow.
  unfoldable pub bump : Assoc K ℕ → K → Assoc K ℕ
  unfolding count_of
  bump counts key = insert counts key (count_of counts key + 1)

-- The variables of the loop.
pub record Progress : Type 0 where
  pub repo_counts : Assoc RepoId ℕ
  pub model_counts : Assoc ModelKind ℕ
  pub assignments : List ScheduledAssignment
  pub blocked : List BlockedTask

-- The loop over the running tasks.
unfoldable pub count_running : Progress → List RunningTask → Progress
unfolding bump
count_running p [] = p
count_running p (r ∷ rest) =
    count_running
      (record p {
        repo_counts = bump p.repo_counts r.repo_id;
        model_counts = bump p.model_counts r.model;
      })
      rest

abbrev pub is_resolved : Bool → Option TaskState → Bool
is_resolved stacked none = false
is_resolved stacked (some s) = s == merged || (stacked && s == awaiting_merge)

module _ {T : Type 0} where
  unfoldable pub deps_resolved : Assoc TaskId TaskState → QueuedTask T → Bool
  deps_resolved states queued =
      all (λ dep. is_resolved (is_stack queued.submit_mode) (get states dep)) queued.depends_on

  abbrev pub block : Progress → QueuedTask T → BlockReason → Progress
  block p queued reason = record p {
    blocked = p.blocked ++ record { task_id = queued.task_id; reason = reason } ∷ [];
  }

  abbrev pub assign : Progress → QueuedTask T → ModelKind → Progress
  assign p queued model = record {
    repo_counts = bump p.repo_counts queued.repo_id;
    model_counts = bump p.model_counts model;
    assignments =
        p.assignments
        ++ record { task_id = queued.task_id; repo_id = queued.repo_id; model = model } ∷ [];
    blocked = p.blocked;
  }

  module _ (config : SchedulerConfig) (states : Assoc TaskId TaskState)
      (available : List ModelKind) where
    -- The body of the loop over the queue, with its early `continue`s.
    unfoldable pub place : Progress → QueuedTask T → Progress
    place p queued =
        if deps_resolved states queued
        then if leb config.per_repo_limit (count_of p.repo_counts queued.repo_id)
          then block p queued repo_limit_reached
          else if is_empty available
          then block p queued no_available_model
          else elim (select_model_with_capacity queued.preferred_model available p.model_counts
              config.per_model_limit) [
                | none ↦ block p queued model_limit_reached
                | some model ↦ assign p queued model
              ]
        else block p queued dependencies_unresolved

    unfoldable pub place_all : Progress → List (QueuedTask T) → Progress
    place_all p [] = p
    place_all p (q ∷ rest) = place_all (place p q) rest

abbrev pub no_progress : Progress
no_progress = record { repo_counts = []; model_counts = []; assignments = []; blocked = [] }

module _ {T : Type 0} ⦃chrono : Chrono T⦄ where
  abbrev pub final_progress : SchedulerConfig → SchedulingInput T → Progress
  final_progress config input =
      place_all config input.all_task_states
        (available_models_in_priority_order input.enabled_models input.availability)
        (count_running no_progress input.running) (sort_queued input.queued)

  unfoldable pub plan : SchedulerConfig → SchedulingInput T → SchedulePlan
  unfolding sort_queued count_running place_all place
  plan config input =
      let p = final_progress config input in
      record { assignments = p.assignments; blocked = p.blocked }
