-- ===== src/Service.antt =====
-- crates/orchd/src/service.rs: the store, the event log, the state machine, the dependency graph and
-- the scheduler put together.
--
-- A method works on the connection to the database and on the disk. What it has written stays
-- written when a later call of it fails: nothing is rolled back.
pub mod Rules
pub mod Safe
pub mod Overwrites
pub mod Traces
pub mod Submit
pub mod Tick
pub mod Diagnose
mod Tests
use Prim.Native.String.{◌++◌ as ◌++ₛ◌}
use othala.Base.{
  ℕ, suc, ◌≡◌, Bool, true, false, Option, none, some, List, [], ◌∷◌, String, Action, Result, ok,
  err, pure, raise, or_raise, ◌>>=◌, ◌>>◌, if◌then◌else◌, filter, not, is_some, ◌+◌, ◌%◌, ◌^◌,
}
use othala.Core.State.{TaskState, ready, submitting, restacking, merged, display}
use othala.Core.Task.{Task, TaskId, SubmitMode, mark_submitted}
use othala.Core.Event.{
  Event, EventId, EventKind, task_state_changed, submit_started, submit_completed, restack_started,
  restack_completed,
}
use othala.Store.{Codecs, Connection, PersistenceError}
use othala.Store.Tasks
use othala.Store.Events.{append_event}
use othala.EventLog.{Disk, EventLogError, JsonlEventLog, append_both}
use othala.StateMachine.{StateTransition, StateMachineError, transition_task}
use othala.Dependencies.{build_dependency_graph, restack_descendants_for_parent}

pub data ServiceError (Doc : Type 0) : Type 0 where
  persistence : PersistenceError Doc → ServiceError Doc
  event_log : EventLogError → ServiceError Doc
  state_machine : StateMachineError → ServiceError Doc
  task_not_found : (task_id : String) → ServiceError Doc

pub record State (Doc F W : Type 0) : Type 0 where
  pub store : Connection Doc F
  pub disk : W

module _ {Doc F W A : Type 0} where
  abbrev pub from_store :
      State Doc F W
      → Result A (PersistenceError Doc) × Connection Doc F
      → Result A (ServiceError Doc) × State Doc F W
  from_store s (ok a, store) = (ok a, record s { store = store })
  from_store s (err e, store) = (err (persistence e), record s { store = store })

  -- `self.store.method(...)?`
  abbrev pub on_store :
      Action (Connection Doc F) (PersistenceError Doc) A
      → Action (State Doc F W) (ServiceError Doc) A
  on_store m s = from_store s (m s.store)

  abbrev pub from_log :
      State Doc F W → Result A EventLogError × W → Result A (ServiceError Doc) × State Doc F W
  from_log s (ok a, disk) = (ok a, record s { disk = disk })
  from_log s (err e, disk) = (err (event_log e), record s { disk = disk })

  -- `self.event_log.method(...)?`
  abbrev pub on_log : Action W EventLogError A → Action (State Doc F W) (ServiceError Doc) A
  on_log m s = from_log s (m s.disk)

module _ {Doc T F W : Type 0} (c : Codecs Doc T F) (disk : Disk W Doc) (log : JsonlEventLog) where
  unfoldable pub record_event : Event T → Action (State Doc F W) (ServiceError Doc) (Unit {0})
  unfolding append_event append_both
  record_event event = do
    on_store (append_event c event)
    on_log (append_both disk c.events log event)

  unfoldable pub create_task :
      Task T → Event T → Action (State Doc F W) (ServiceError Doc) (Unit {0})
  unfolding Tasks.upsert_task record_event
  create_task task created_event = do
    on_store (Tasks.upsert_task c task)
    record_event created_event

  unfoldable pub upsert_task : Task T → Action (State Doc F W) (ServiceError Doc) (Unit {0})
  upsert_task task = on_store (Tasks.upsert_task c task)

  unfoldable pub load : TaskId → Action (State Doc F W) (ServiceError Doc) (Task T)
  unfolding Tasks.load_task
  load task_id = do
    found ← on_store (Tasks.load_task c task_id)
    or_raise found (task_not_found task_id)

  -- The tasks without a parent task.
  unfoldable pub list_top_level_tasks : Action (State Doc F W) (ServiceError Doc) (List (Task T))
  unfolding Tasks.list_tasks
  list_top_level_tasks = do
    all ← on_store (Tasks.list_tasks c)
    pure (filter (λ t. not (is_some t.parent_task_id)) all)

  unfoldable pub delete_task : TaskId → Action (State Doc F W) (ServiceError Doc) Bool
  delete_task task_id = on_store (Tasks.delete_task c task_id)

  abbrev pub event_of : Task T → EventId → T → EventKind → Event T
  event_of task id at kind = record {
    id = id;
    task_id = some task.id;
    repo_id = some task.repo_id;
    at = at;
    kind = kind;
  }

  abbrev pub raise_refusal :
      Result (StateTransition T) StateMachineError
      → Action (State Doc F W) (ServiceError Doc) (StateTransition T)
  raise_refusal (ok transition) = pure transition
  raise_refusal (err e) = raise (state_machine e)

  -- Writing the task that has moved, and recording its move.
  unfoldable pub save_move :
      Task T → StateTransition T → EventId → T → Action (State Doc F W) (ServiceError Doc) (Task T)
  unfolding Tasks.upsert_task record_event
  save_move task transition event_id at = do
    on_store (Tasks.upsert_task c task)
    record_event (
        event_of task event_id at
          (task_state_changed (display transition.from) (display transition.to)))
    pure task

  unfoldable pub move :
      TaskState → EventId → T → Task T → Action (State Doc F W) (ServiceError Doc) (Task T)
  unfolding transition_task save_move
  move to event_id at loaded = do
    transition ← raise_refusal (transition_task loaded to at).1
    save_move (transition_task loaded to at).0 transition event_id at

  unfoldable pub transition_task_state :
      TaskId → TaskState → EventId → T → Action (State Doc F W) (ServiceError Doc) (Task T)
  unfolding load move
  transition_task_state task_id to event_id at = do
    loaded ← load task_id
    move to event_id at loaded

  -- The count is 32 bits wide.
  unfoldable pub increment_retry :
      TaskId → String → Action (State Doc F W) (ServiceError Doc) (Unit {0})
  unfolding load Tasks.upsert_task
  increment_retry task_id reason = do
    task ← load task_id
    on_store (
        Tasks.upsert_task c (record task {
          retry_count = (task.retry_count + 1) % 2 ^ 32;
          last_failure_reason = some reason;
        }))

  unfoldable pub mark_ready :
      TaskId → EventId → T → Action (State Doc F W) (ServiceError Doc) (Task T)
  unfolding transition_task_state
  mark_ready task_id event_id at = transition_task_state task_id ready event_id at

  -- A transition, and then a second event about it.
  unfoldable pub move_with_event :
      TaskId
      → TaskState
      → EventId
      → T
      → String
      → EventKind
      → Action (State Doc F W) (ServiceError Doc) (Task T)
  unfolding transition_task_state record_event
  move_with_event task_id to event_id at suffix kind = do
    task ← transition_task_state task_id to event_id at
    record_event (event_of task (event_id ++ₛ suffix) at kind)
    pure task

  unfoldable pub start_submit :
      TaskId → SubmitMode → EventId → T → Action (State Doc F W) (ServiceError Doc) (Task T)
  unfolding move_with_event
  start_submit task_id mode event_id at =
      move_with_event task_id submitting event_id at "-submit-started" (submit_started mode)

  -- What follows once the task is marked as submitted.
  unfoldable pub save_submitted :
      Task T → EventId → T → Action (State Doc F W) (ServiceError Doc) (Task T)
  unfolding Tasks.upsert_task record_event
  save_submitted task event_id at = do
    on_store (Tasks.upsert_task c task)
    record_event (event_of task event_id at (task_state_changed "SUBMITTING" "AWAITING_MERGE"))
    record_event (event_of task (event_id ++ₛ "-submit-completed") at submit_completed)
    pure task

  -- `now` is what `Utc::now()` answers in `mark_submitted`.
  unfoldable pub complete_submit :
      TaskId → String → ℕ → EventId → T → T → Action (State Doc F W) (ServiceError Doc) (Task T)
  unfolding load save_submitted mark_submitted
  complete_submit task_id pr_url pr_number event_id at now = do
    loaded ← load task_id
    save_submitted (mark_submitted loaded pr_url pr_number now) event_id at

  unfoldable pub mark_merged :
      TaskId → EventId → T → Action (State Doc F W) (ServiceError Doc) (Task T)
  unfolding transition_task_state
  mark_merged task_id event_id at = transition_task_state task_id merged event_id at

  unfoldable pub start_restack :
      TaskId → EventId → T → Action (State Doc F W) (ServiceError Doc) (Task T)
  unfolding move_with_event
  start_restack task_id event_id at =
      move_with_event task_id restacking event_id at "-restack-started" restack_started

  unfoldable pub complete_restack :
      TaskId → EventId → T → Action (State Doc F W) (ServiceError Doc) (Task T)
  unfolding move_with_event
  complete_restack task_id event_id at =
      move_with_event task_id ready event_id at "-restack-completed" restack_completed

  -- The answer is that of the walk through the graph, which always ends.
  unfoldable pub restack_targets_for_parent :
      TaskId → Action (State Doc F W) (ServiceError Doc) (Option (List TaskId))
  unfolding Tasks.list_tasks build_dependency_graph restack_descendants_for_parent
  restack_targets_for_parent parent_task_id = do
    tasks ← on_store (Tasks.list_tasks c)
    pure (restack_descendants_for_parent (build_dependency_graph tasks) parent_task_id)
