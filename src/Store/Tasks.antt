-- ===== src/Store/Tasks.antt =====
-- The operations of the store on the tables `tasks` and `archived_tasks`.
pub mod View
pub mod Refines
pub mod Removal
use Prim.Native.String.{compare as compare_text, ◌++◌ as ◌++ₛ◌}
use Prim.Native.Nat.{Ordering}
use othala.Base.{
  ℕ, ◌≡◌, Bool, true, false, not, ◌&&◌, ◌||◌, Option, none, some, List, [], ◌∷◌, String, Action,
  Result, ok, err, pure, raise, or_raise, ◌>>=◌, ◌>>◌, if◌then◌else◌, filter, find, any, all, ◌==◌,
  string_eq, unwrap_or, length, ltb,
}
use othala.Base.Sorting.{sort_by}
use othala.Core.State.{TaskState, chatting, display}
use othala.Core.Task.{Task, TaskId, ModelKind, TaskPriority, normal}
use othala.Core.Words.{priority_str, parse_priority}
use othala.Store.{
  TaskRow, RunRow, EventRow, ArtifactRow, ArchivedRow, Tables, PersistenceError, sql, json,
  task_not_found, timestamp_parse, Connection, Codecs, Json,
}
use othala.Store.Sql.{insert_row, upsert_row, delete_where, execute, query, change}

pub record ArchivedTaskRecord (Doc T : Type 0) : Type 0 where
  pub task_id : TaskId
  pub repo_id : String
  pub state_tag : String
  pub payload_json : Doc
  pub created_at : T
  pub archived_at : T

pub record TaskCloneOverrides : Type 0 where
  pub title : Option String
  pub preferred_model : Option ModelKind
  pub priority : Option TaskPriority

abbrev pub text_after : String → String → Bool
text_after a b = elim (compare_text a b) [ Ordering.gt ↦ true | _ ↦ false ]

-- A comparison with NULL is not true.
abbrev pub is_of : TaskId → Option String → Bool
is_of task_id none = false
is_of task_id (some id) = id == task_id

module _ {Doc : Type 0} where
  abbrev same_task : TaskRow Doc → TaskRow Doc → Bool
  same_task a b = a.task_id == b.task_id

  -- `DO UPDATE SET`, which keeps `created_at`.
  abbrev overwrite : TaskRow Doc → TaskRow Doc → TaskRow Doc
  overwrite old excluded = record old {
    repo_id = excluded.repo_id;
    state_tag = excluded.state_tag;
    priority = excluded.priority;
    labels_json = excluded.labels_json;
    payload_json = excluded.payload_json;
    updated_at = excluded.updated_at;
  }

  abbrev pub upsert_task_row : List (TaskRow Doc) → TaskRow Doc → List (TaskRow Doc)
  upsert_task_row = upsert_row same_task overwrite

  abbrev pub same_archived : ArchivedRow Doc → ArchivedRow Doc → Bool
  same_archived a b = a.task_id == b.task_id

  abbrev pub replace_archived : ArchivedRow Doc → ArchivedRow Doc → ArchivedRow Doc
  replace_archived old excluded = record old {
    repo_id = excluded.repo_id;
    state_tag = excluded.state_tag;
    payload_json = excluded.payload_json;
    created_at = excluded.created_at;
    archived_at = excluded.archived_at;
  }

module _ {Doc F : Type 0} where
  abbrev pub put_archived : ArchivedRow Doc → Tables Doc F → Tables Doc F
  put_archived row t = record t {
    archived_tasks = upsert_row same_archived replace_archived t.archived_tasks row;
  }

module _ {Doc F : Type 0} (task_id : TaskId) where
  abbrev pub drop_runs : Tables Doc F → Tables Doc F
  drop_runs t = record t { runs = delete_where (λ r. r.task_id == task_id) t.runs }

  abbrev pub drop_artifacts : Tables Doc F → Tables Doc F
  drop_artifacts t = record t { artifacts = delete_where (λ r. r.task_id == task_id) t.artifacts }

  abbrev pub drop_events : Tables Doc F → Tables Doc F
  drop_events t = record t { events = delete_where (λ r. is_of task_id r.task_id) t.events }

  abbrev pub drop_task : Tables Doc F → Tables Doc F
  drop_task t = record t { tasks = delete_where (λ r. r.task_id == task_id) t.tasks }

  abbrev pub delete_row : Action (Connection Doc F) (PersistenceError Doc) Bool
  delete_row = execute (λ t. some (any (λ r. r.task_id == task_id) t.tasks, drop_task t))

module _ {Doc T F : Type 0} (c : Codecs Doc T F) where
  -- `ORDER BY ... DESC, task_id ASC`
  abbrev pub desc_after : Doc → String → Doc → String → Bool
  desc_after at id other_at other_id =
      if c.doc_le other_at at then c.doc_le at other_at && text_after id other_id else true

  abbrev pub task_after : TaskRow Doc → TaskRow Doc → Bool
  task_after a b = desc_after a.updated_at a.task_id b.updated_at b.task_id

  -- The row that `upsert_task` writes.
  unfoldable pub row_of : Task T → Doc → Doc → TaskRow Doc
  row_of task payload labels = record {
    task_id = task.id;
    repo_id = task.repo_id;
    state_tag = display task.state;
    priority = priority_str task.priority;
    labels_json = labels;
    payload_json = payload;
    created_at = c.to_rfc3339 task.created_at;
    updated_at = c.to_rfc3339 task.updated_at;
  }

  unfoldable pub upsert_task : Task T → Action (Connection Doc F) (PersistenceError Doc) (Unit {0})
  unfolding row_of
  upsert_task task = do
    payload ← or_raise (c.tasks.to_string task) json
    labels ← or_raise (c.strings.to_string task.labels) json
    change (λ t. record t { tasks = upsert_task_row t.tasks (row_of task payload labels) })

  abbrev with_columns : Option (Task T) → Option (List String) → String → Option (Task T)
  with_columns (some task) (some labels) priority =
      some (record task { priority = unwrap_or (parse_priority priority) normal; labels = labels })
  with_columns _ _ priority = none

  -- A task from the columns that the queries read.
  unfoldable pub task_of_row : TaskRow Doc → Option (Task T)
  task_of_row row =
      with_columns (c.tasks.from_str row.payload_json) (c.strings.from_str row.labels_json)
        row.priority

  abbrev pub task_of_found :
      Option (TaskRow Doc) → Action (Connection Doc F) (PersistenceError Doc) (Option (Task T))
  task_of_found none = pure none
  task_of_found (some row) = do task ← or_raise (task_of_row row) json; pure (some task)

  unfoldable pub load_task :
      TaskId → Action (Connection Doc F) (PersistenceError Doc) (Option (Task T))
  unfolding task_of_row
  load_task task_id = do
    row ← query (λ t. find (λ r. task_id == r.task_id) t.tasks)
    task_of_found row

  abbrev cons_task : Option (Task T) → Option (List (Task T)) → Option (List (Task T))
  cons_task (some task) (some tasks) = some (task ∷ tasks)
  cons_task _ _ = none

  -- The loop over the rows, which stops at the first that cannot be read.
  unfoldable pub tasks_of_rows : List (TaskRow Doc) → Option (List (Task T))
  unfolding task_of_row
  tasks_of_rows [] = some []
  tasks_of_rows (row ∷ rows) = cons_task (task_of_row row) (tasks_of_rows rows)

  unfoldable pub list_tasks : Action (Connection Doc F) (PersistenceError Doc) (List (Task T))
  unfolding tasks_of_rows
  list_tasks = do rows ← query (λ t. sort_by task_after t.tasks); or_raise (tasks_of_rows rows) json

  unfoldable pub list_tasks_by_state :
      TaskState → Action (Connection Doc F) (PersistenceError Doc) (List (Task T))
  unfolding tasks_of_rows
  list_tasks_by_state state = do
    rows ← query (λ t. sort_by task_after (filter (λ r. r.state_tag == display state) t.tasks))
    or_raise (tasks_of_rows rows) json

  -- The instant is what `Utc::now()` answers.
  abbrev pub cloned : T → Task T → String → TaskCloneOverrides → Task T
  cloned now source new_id overrides = record source {
    id = new_id;
    title = unwrap_or overrides.title source.title;
    preferred_model = elim overrides.preferred_model [
      | none ↦ source.preferred_model
      | some model ↦ some model
    ];
    priority = unwrap_or overrides.priority source.priority;
    state = chatting;
    retry_count = 0;
    failed_models = [];
    created_at = now;
    updated_at = now;
  }

  unfoldable pub clone_task :
      T
      → String
      → String
      → TaskCloneOverrides
      → Action (Connection Doc F) (PersistenceError Doc) (Unit {0})
  unfolding load_task upsert_task
  clone_task now source_id new_id overrides = do
    found ← load_task source_id
    source ← or_raise found (task_not_found source_id)
    upsert_task (cloned now source new_id overrides)

  -- Four statements, outside a transaction. The answer is whether there was a task.
  unfoldable pub delete_task : TaskId → Action (Connection Doc F) (PersistenceError Doc) Bool
  delete_task task_id = do
    change (drop_runs task_id)
    change (drop_artifacts task_id)
    change (drop_events task_id)
    delete_row task_id

  abbrev pub archived_row : Task T → T → Doc → ArchivedRow Doc
  archived_row task archived_at payload = record {
    task_id = task.id;
    repo_id = task.repo_id;
    state_tag = display task.state;
    payload_json = payload;
    created_at = c.to_rfc3339 task.created_at;
    archived_at = c.to_rfc3339 archived_at;
  }

  unfoldable pub archive_task :
      Task T → T → Action (Connection Doc F) (PersistenceError Doc) (Unit {0})
  archive_task task archived_at = do
    payload ← or_raise (c.tasks.to_string task) json
    change (put_archived (archived_row task archived_at payload))
    change (drop_task task.id)
