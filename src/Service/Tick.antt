-- ===== src/Service/Tick.antt =====
-- `schedule_queued_tasks`: one tick of the scheduler over the stored tasks and the open runs.
pub mod Limits
use Prim.Native.String.{◌++◌ as ◌++ₛ◌}
use othala.Base.{
  Option, none, some, List, [], ◌∷◌, String, Action, pure, ◌>>=◌, ◌>>◌, map, string_eq,
}
use othala.Base.Assoc.{Assoc, insert}
use othala.Core.Time.{Chrono}
use othala.Core.State.{TaskState, chatting}
use othala.Core.Task.{Task, TaskId, ModelKind, model_str}
use othala.Core.Event.{TaskRunRecord}
use othala.Store.{Codecs}
use othala.Store.Tasks.{list_tasks, list_tasks_by_state}
use othala.Store.Runs.{list_open_runs, insert_run}
use othala.Scheduler.{
  SchedulerConfig, QueuedTask, RunningTask, ModelAvailability, SchedulingInput, SchedulePlan,
  ScheduledAssignment, BlockedTask,
}
use othala.Scheduler.Plan.{plan}
use othala.Service.{ServiceError, State, on_store}

pub record SchedulingTickOutcome : Type 0 where
  pub scheduled : List ScheduledAssignment
  pub blocked : List BlockedTask

module _ {T F : Type 0} where
  abbrev pub running_of : TaskRunRecord T F → RunningTask
  running_of run = record { task_id = run.task_id; repo_id = run.repo_id; model = run.model }

  -- `tick_nonce` is the instant in nanoseconds, as it is printed.
  abbrev pub run_of : T → String → ScheduledAssignment → TaskRunRecord T F
  run_of at tick_nonce a = record {
    run_id = "RUN-" ++ₛ a.task_id ++ₛ "-" ++ₛ model_str a.model ++ₛ "-" ++ₛ tick_nonce;
    task_id = a.task_id;
    repo_id = a.repo_id;
    model = a.model;
    started_at = at;
    finished_at = none;
    stop_reason = none;
    exit_code = none;
    estimated_tokens = none;
    duration_secs = none;
  }

module _ {T : Type 0} where
  abbrev pub queued_of : Task T → QueuedTask T
  queued_of task = record {
    task_id = task.id;
    repo_id = task.repo_id;
    depends_on = task.depends_on;
    submit_mode = task.submit_mode;
    preferred_model = task.preferred_model;
    priority = task.priority;
    enqueued_at = task.created_at;
  }

  -- `collect::<HashMap<_, _>>()`, where a later task of the same id wins.
  unfoldable pub states_of : Assoc TaskId TaskState → List (Task T) → Assoc TaskId TaskState
  states_of states [] = states
  states_of states (task ∷ tasks) = states_of (insert states task.id task.state) tasks

module _ {T F : Type 0} (enabled_models : List ModelKind)
    (availability : List ModelAvailability) where
  abbrev pub input_of : List (Task T) → List (Task T) → List (TaskRunRecord T F) → SchedulingInput T
  input_of chatting_tasks all_tasks open_runs = record {
    queued = map queued_of chatting_tasks;
    running = map running_of open_runs;
    all_task_states = states_of [] all_tasks;
    enabled_models = enabled_models;
    availability = availability;
  }

module _ {Doc T F W : Type 0} (c : Codecs Doc T F) (at : T) (tick_nonce : String) where
  -- The loop that records a run for each assignment; it ends at the first that fails.
  unfoldable pub insert_runs :
      List ScheduledAssignment → Action (State Doc F W) (ServiceError Doc) (Unit {0})
  unfolding insert_run
  insert_runs [] = pure tt
  insert_runs (a ∷ rest) = do on_store (insert_run c (run_of at tick_nonce a)); insert_runs rest

  unfoldable pub start_planned :
      SchedulePlan → Action (State Doc F W) (ServiceError Doc) SchedulingTickOutcome
  unfolding insert_runs
  start_planned chosen = do
    insert_runs chosen.assignments
    pure (record { scheduled = chosen.assignments; blocked = chosen.blocked })

  module _ ⦃chrono : Chrono T⦄ (config : SchedulerConfig) (enabled_models : List ModelKind)
      (availability : List ModelAvailability) where
    unfoldable pub schedule_chatting :
        List (Task T) → Action (State Doc F W) (ServiceError Doc) SchedulingTickOutcome
    unfolding list_tasks list_open_runs plan start_planned states_of
    schedule_chatting [] = pure (record { scheduled = []; blocked = [] })
    schedule_chatting (task ∷ rest) = do
      all_tasks ← on_store (list_tasks c)
      open_runs ← on_store (list_open_runs c)
      start_planned
          (plan config (input_of enabled_models availability (task ∷ rest) all_tasks open_runs))

    unfoldable pub schedule_queued_tasks :
        Action (State Doc F W) (ServiceError Doc) SchedulingTickOutcome
    unfolding list_tasks_by_state schedule_chatting
    schedule_queued_tasks = do
      chatting_tasks ← on_store (list_tasks_by_state c chatting)
      schedule_chatting chatting_tasks
