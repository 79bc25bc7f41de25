-- ===== src/Store/Runs.antt =====
-- The operations of the store on the tables `runs` and `artifacts`.

pub mod Open
use othala.Base.{
  ℕ, ℤ, ◌≡◌, refl, Bool, true, false, not, ◌&&◌, Option, none, some, List, [], ◌∷◌, String, Action,
  Result, ok, err, pure, raise, or_raise, ◌>>=◌, ◌>>◌, if◌then◌else◌, filter, count, ◌==◌,
  string_eq, is_some,
}
use othala.Base.Sorting.{sort_by}
use othala.Core.Task.{TaskId, model_str}
use othala.Core.Event.{TaskRunRecord, ArtifactRecord}
use othala.Store.{
  RunRow, ArtifactRow, Tables, PersistenceError, json, timestamp_parse, Connection, Codecs, Json,
}
use othala.Store.Sql.{insert_row, update_where, execute, query}
use othala.Store.Tasks.{text_after}

abbrev pub or_else {ℓ} : {A : Type ℓ} → Option A → Option A → Option A
or_else none other = other
or_else (some a) other = some a

module _ {Doc : Type 0} where
  abbrev same_artifact : ArtifactRow Doc → ArtifactRow Doc → Bool
  same_artifact a b = a.artifact_id == b.artifact_id

module _ {Doc F : Type 0} where
  abbrev pub same_run : RunRow Doc F → RunRow Doc F → Bool
  same_run a b = a.run_id == b.run_id

  -- `finished_at IS NULL`
  abbrev pub is_open : RunRow Doc F → Bool
  is_open row = not (is_some row.finished_at)

  abbrev pub is_open_of : TaskId → RunRow Doc F → Bool
  is_open_of task_id row = row.task_id == task_id && is_open row

  abbrev pub finish : Doc → String → Option ℤ → Option F → RunRow Doc F → RunRow Doc F
  finish at reason code secs row = record row {
    finished_at = some at;
    stop_reason = some reason;
    exit_code = code;
    duration_secs = secs;
  }

  abbrev pub insert_run_row : RunRow Doc F → Tables Doc F → Option (Unit {0} × Tables Doc F)
  insert_run_row row t = elim (insert_row same_run t.runs row) [
    | none ↦ none
    | some rows ↦ some (tt, record t { runs = rows })
  ]

  abbrev insert_artifact_row : ArtifactRow Doc → Tables Doc F → Option (Unit {0} × Tables Doc F)
  insert_artifact_row row t = elim (insert_row same_artifact t.artifacts row) [
    | none ↦ none
    | some rows ↦ some (tt, record t { artifacts = rows })
  ]

module _ {Doc T F : Type 0} (c : Codecs Doc T F) where
  abbrev pub stamp_of : Option T → Option Doc
  stamp_of none = none
  stamp_of (some at) = some (c.to_rfc3339 at)

  unfoldable pub run_row : TaskRunRecord T F → Doc → RunRow Doc F
  run_row run payload = record {
    run_id = run.run_id;
    task_id = run.task_id;
    model = model_str run.model;
    started_at = c.to_rfc3339 run.started_at;
    finished_at = stamp_of run.finished_at;
    stop_reason = run.stop_reason;
    exit_code = run.exit_code;
    estimated_tokens = run.estimated_tokens;
    duration_secs = run.duration_secs;
    payload_json = payload;
  }

  unfoldable pub insert_run :
      TaskRunRecord T F → Action (Connection Doc F) (PersistenceError Doc) (Unit {0})
  unfolding run_row
  insert_run run = do
    payload ← or_raise (c.runs.to_string run) json
    execute (insert_run_row (run_row run payload))

  -- Both answer how many rows they changed. The payload keeps what it was written with.
  unfoldable pub set_open_run_estimated_tokens :
      TaskId → ℕ → Action (Connection Doc F) (PersistenceError Doc) ℕ
  set_open_run_estimated_tokens task_id estimated_tokens = execute (λ t. some (
    count (is_open_of task_id) t.runs,
    record t {
      runs =
          update_where (is_open_of task_id)
            (λ row. record row { estimated_tokens = some estimated_tokens }) t.runs;
    },
  ))

  unfoldable pub finish_open_runs_for_task :
      TaskId → T → String → Option ℤ → Option F → Action (Connection Doc F) (PersistenceError Doc) ℕ
  finish_open_runs_for_task task_id finished_at stop_reason exit_code duration_secs = execute (λ t.
      some (
        count (is_open_of task_id) t.runs,
        record t {
          runs =
              update_where (is_open_of task_id)
                (finish (c.to_rfc3339 finished_at) stop_reason exit_code duration_secs) t.runs;
        },
      ))

  unfoldable pub parse_optional_rfc3339 : Option Doc → Result (Option T) (PersistenceError Doc)
  parse_optional_rfc3339 none = ok none
  parse_optional_rfc3339 (some raw) = elim (c.parse_from_rfc3339 raw) [
    | none ↦ err (timestamp_parse raw)
    | some at ↦ ok (some at)
  ]

  abbrev with_columns :
      Option (TaskRunRecord T F)
      → Result (Option T) (PersistenceError Doc)
      → RunRow Doc F
      → Result (TaskRunRecord T F) (PersistenceError Doc)
  with_columns none _ row = err json
  with_columns (some run) (err e) row = err e
  with_columns (some run) (ok finished_at) row = ok (record run {
    finished_at = finished_at;
    stop_reason = row.stop_reason;
    exit_code = row.exit_code;
    estimated_tokens = or_else row.estimated_tokens run.estimated_tokens;
    duration_secs = or_else row.duration_secs run.duration_secs;
  })

  -- The body of the loop of both lists.
  unfoldable pub run_of_row : RunRow Doc F → Result (TaskRunRecord T F) (PersistenceError Doc)
  unfolding parse_optional_rfc3339
  run_of_row row =
      with_columns (c.runs.from_str row.payload_json) (parse_optional_rfc3339 row.finished_at) row

  abbrev pub cons_run :
      Result (TaskRunRecord T F) (PersistenceError Doc)
      → Result (List (TaskRunRecord T F)) (PersistenceError Doc)
      → Result (List (TaskRunRecord T F)) (PersistenceError Doc)
  cons_run (err e) runs = err e
  cons_run (ok run) (err e) = err e
  cons_run (ok run) (ok runs) = ok (run ∷ runs)

  unfoldable pub runs_of_rows :
      List (RunRow Doc F) → Result (List (TaskRunRecord T F)) (PersistenceError Doc)
  unfolding run_of_row
  runs_of_rows [] = ok []
  runs_of_rows (row ∷ rows) = cons_run (run_of_row row) (runs_of_rows rows)

  -- `ORDER BY started_at ASC, run_id ASC`
  abbrev pub run_after : RunRow Doc F → RunRow Doc F → Bool
  run_after a b =
      if c.doc_le a.started_at b.started_at
      then c.doc_le b.started_at a.started_at && text_after a.run_id b.run_id
      else true

  abbrev pub answer_runs :
      List (RunRow Doc F)
      → Action (Connection Doc F) (PersistenceError Doc) (List (TaskRunRecord T F))
  answer_runs rows s = (runs_of_rows rows, s)

  unfoldable pub list_open_runs :
      Action (Connection Doc F) (PersistenceError Doc) (List (TaskRunRecord T F))
  unfolding runs_of_rows
  list_open_runs = do
    rows ← query (λ t. sort_by run_after (filter is_open t.runs))
    answer_runs rows

  unfoldable pub list_runs_for_task :
      TaskId → Action (Connection Doc F) (PersistenceError Doc) (List (TaskRunRecord T F))
  unfolding runs_of_rows
  list_runs_for_task task_id = do
    rows ← query (λ t. sort_by run_after (filter (λ r. r.task_id == task_id) t.runs))
    answer_runs rows

  unfoldable pub insert_artifact :
      ArtifactRecord T → Action (Connection Doc F) (PersistenceError Doc) (Unit {0})
  insert_artifact artifact = do
    payload ← or_raise (c.artifacts.to_string artifact) json
    execute (
        insert_artifact_row record {
          artifact_id = artifact.artifact_id;
          task_id = artifact.task_id;
          kind = artifact.kind;
          path = artifact.path;
          created_at = c.to_rfc3339 artifact.created_at;
          payload_json = payload;
        })
