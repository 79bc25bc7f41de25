-- ===== src/Service/Diagnose.antt =====
-- `reconciliation_diagnostics`: the tasks that are stuck around a merge or a restack.
use othala.Base.{
  ℤ, Bool, true, false, not, ◌||◌, Option, none, some, List, [], ◌∷◌, ◌++◌, String, Action, pure,
  ◌>>=◌, if◌then◌else◌, is_empty, string_eq,
}
use othala.Base.Assoc.{Assoc, insert, get}
use othala.Core.State.{
  TaskState, merged, ready, submitting, awaiting_merge, chatting, restacking, display,
}
use othala.Core.Task.{Task, TaskId}
use othala.Store.{Codecs}
use othala.Store.Tasks.{list_tasks}
use othala.Dependencies.{DependencyGraph, build_dependency_graph, children}
use othala.Service.{ServiceError, State, on_store}

pub record UnreconciledChild (T : Type 0) : Type 0 where
  pub parent_id : String
  pub child_id : String
  pub child_state : String
  pub parent_merged_at : T

pub record StuckTask (T : Type 0) : Type 0 where
  pub task_id : String
  pub state : String
  pub since : T
  pub elapsed_secs : ℤ

pub record ReconciliationReport (T : Type 0) : Type 0 where
  pub unreconciled_children : List (UnreconciledChild T)
  pub stuck_restacking : List (StuckTask T)
  pub stale_awaiting_merge : List (StuckTask T)
  pub has_issues : Bool

-- What chrono answers about `now - since`: its whole seconds, and whether it is longer than a count
-- of seconds.
pub record Elapsed (T : Type 0) : Type 0 where
  pub num_seconds : (now since : T) → ℤ
  pub exceeds : (now since : T) → ℤ → Bool

-- The `matches!` on the state of a child.
abbrev pub needs_reconciliation : TaskState → Bool
needs_reconciliation ready = true
needs_reconciliation submitting = true
needs_reconciliation awaiting_merge = true
needs_reconciliation chatting = true
needs_reconciliation _ = false

module _ {T : Type 0} where
  unfoldable pub tasks_by_id : Assoc TaskId (Task T) → List (Task T) → Assoc TaskId (Task T)
  tasks_by_id map [] = map
  tasks_by_id map (task ∷ tasks) = tasks_by_id (insert map task.id task) tasks

  abbrev pub unreconciled : Task T → TaskId → Option (Task T) → List (UnreconciledChild T)
  unreconciled parent child_id none = []
  unreconciled parent child_id (some child) =
      if needs_reconciliation child.state
      then record {
        parent_id = parent.id;
        child_id = child_id;
        child_state = display child.state;
        parent_merged_at = parent.updated_at;
      }
        ∷ []
      else []

  -- The loop over the children of a merged task.
  unfoldable pub unreconciled_of :
      Assoc TaskId (Task T) → Task T → List TaskId → List (UnreconciledChild T)
  unreconciled_of by_id parent [] = []
  unreconciled_of by_id parent (child_id ∷ rest) =
      unreconciled parent child_id (get by_id child_id) ++ unreconciled_of by_id parent rest

  module _ (elapsed : Elapsed T) (now : T) (stale_threshold_secs : ℤ) where
    abbrev pub stuck : Task T → StuckTask T
    stuck task = record {
      task_id = task.id;
      state = display task.state;
      since = task.updated_at;
      elapsed_secs = elapsed.num_seconds now task.updated_at;
    }

    abbrev pub is_stale : Task T → Bool
    is_stale task = elapsed.exceeds now task.updated_at stale_threshold_secs

    -- The arms of the `match` on a task's state, each with the list that it fills.
    abbrev of_merged :
        DependencyGraph → Assoc TaskId (Task T) → Task T → TaskState → List (UnreconciledChild T)
    of_merged graph by_id task merged = unreconciled_of by_id task (children graph task.id)
    of_merged graph by_id task _ = []

    abbrev of_restacking : Task T → TaskState → List (StuckTask T)
    of_restacking task restacking = stuck task ∷ []
    of_restacking task _ = []

    abbrev of_awaiting : Task T → TaskState → List (StuckTask T)
    of_awaiting task awaiting_merge = if is_stale task then stuck task ∷ [] else []
    of_awaiting task _ = []

    unfoldable pub all_unreconciled :
        DependencyGraph → Assoc TaskId (Task T) → List (Task T) → List (UnreconciledChild T)
    unfolding unreconciled_of
    all_unreconciled graph by_id [] = []
    all_unreconciled graph by_id (task ∷ tasks) =
        of_merged graph by_id task task.state ++ all_unreconciled graph by_id tasks

    unfoldable pub all_restacking : List (Task T) → List (StuckTask T)
    all_restacking [] = []
    all_restacking (task ∷ tasks) = of_restacking task task.state ++ all_restacking tasks

    unfoldable pub all_stale : List (Task T) → List (StuckTask T)
    all_stale [] = []
    all_stale (task ∷ tasks) = of_awaiting task task.state ++ all_stale tasks

    -- The report over the listed tasks.
    unfoldable pub report_of : List (Task T) → ReconciliationReport T
    unfolding all_unreconciled all_restacking all_stale build_dependency_graph tasks_by_id
    report_of all_tasks =
        let children_left =
          all_unreconciled (build_dependency_graph all_tasks) (tasks_by_id [] all_tasks)
            all_tasks in
        let restacks = all_restacking all_tasks in
        let stale = all_stale all_tasks in
        record {
          unreconciled_children = children_left;
          stuck_restacking = restacks;
          stale_awaiting_merge = stale;
          has_issues =
              not (is_empty children_left) || not (is_empty restacks) || not (is_empty stale);
        }

    unfoldable pub reconciliation_diagnostics :
        {Doc F W : Type 0}
        → Codecs Doc T F
        → Action (State Doc F W) (ServiceError Doc) (ReconciliationReport T)
    unfolding list_tasks report_of
    reconciliation_diagnostics c = do
      all_tasks ← on_store (list_tasks c)
      pure (report_of all_tasks)
