-- ===== src/Store/Tasks/Removal.antt =====
-- Deleting, archiving and cloning a task.
use mathlib.Core.List.{Memᴰ}
use othala.Base.{
  ◌≡◌, refl, ap, ◌∙◌, Bool, not, filter, opt_beq, arith, Option, String, filter-agree, none, some,
  List, [], ◌∷◌, ok, ◌>>◌, err, Result, Option-cases, inl, inr, Bool-cases, if◌then◌else◌, any,
  ◌==◌, string_eq,
}
use othala.Core.Task.{Task, TaskId}
use othala.Store.{
  Codecs, RunRow, ArtifactRow, EventRow, Tables, ArchivedRow, Connection, PersistenceError,
}
use othala.Store.Sql.{next, upsert_row, delete_where, change, change-rule, answer-rule}
use othala.Store.Tasks.{
  is_of, drop_task, drop_runs, drop_artifacts, drop_events, delete_row, same_archived,
  replace_archived, archived_row, put_archived, delete_task, archive_task,
}
use othala.Store.Tasks.View.{IsTable, delete_where-IsTable, stored-delete_where}
use othala.Store.Tasks.Refines.{task_at}

module _ {Row : Type 0} where
  -- What `DELETE` leaves are the rows that do not pass its test, so a second deletion by the same test
  -- deletes nothing.
  delete_where_twice :
      (test : Row → Bool) (rows : List Row)
      → delete_where test (delete_where test rows) ≡ delete_where test rows
  delete_where_twice test [] = refl
  delete_where_twice test (row ∷ rows) = ground (arith, delete_where_twice test rows)

module _ {Doc F : Type 0} (id : TaskId) where
  -- The rows of a table that are about other tasks.
  abbrev pub runs_of_others : Tables Doc F → List (RunRow Doc F)
  runs_of_others t = filter (λ r. not (r.task_id == id)) t.runs

  abbrev pub artifacts_of_others : Tables Doc F → List (ArtifactRow Doc)
  artifacts_of_others t = filter (λ r. not (r.task_id == id)) t.artifacts

  abbrev pub events_of_others : Tables Doc F → List (EventRow Doc)
  events_of_others t = filter (λ r. not (opt_beq r.task_id (some id))) t.events

names-task : (id : TaskId) (o : Option String) → not (is_of id o) ≡ not (opt_beq o (some id))
names-task id none = refl
names-task id (some other) = refl

module _ {Doc : Type 0} (id : TaskId) where
  -- The test of the statement on events is that the row names the task.
  left-events :
      (rows : List (EventRow Doc))
      → delete_where (λ r. is_of id r.task_id) rows
        ≡ filter (λ r. not (opt_beq r.task_id (some id))) rows
  left-events rows = filter-agree _ _ (λ row. names-task id row.task_id) rows

module _ {Doc T F : Type 0} (c : Codecs Doc T F) (s : Connection Doc F) (id : TaskId) where
  -- Nothing that is about another task has changed.
  abbrev pub SpareOthers : Tables Doc F → Type 0
  SpareOthers t =
      (runs_of_others id t ≡ runs_of_others id s.tables)
      × (artifacts_of_others id t ≡ artifacts_of_others id s.tables)
      × (events_of_others id t ≡ events_of_others id s.tables)
      × (t.sessions ≡ s.tables.sessions)
      × (t.archived_tasks ≡ s.tables.archived_tasks)

  -- What a deletion has done, by how it ended.
  abbrev pub Deletes : Result Bool (PersistenceError Doc) × Connection Doc F → Type 0
  Deletes (ok removed, after) =
      (removed ≡ any (λ r. r.task_id == id) s.tables.tasks)
      × IsTable c after.tables.tasks
      × ((other : TaskId)
          → task_at c after other ≡ (if other == id then none else task_at c s other))
      × (after.tables.runs ≡ runs_of_others id s.tables)
      × (after.tables.artifacts ≡ artifacts_of_others id s.tables)
      × (after.tables.events ≡ events_of_others id s.tables)
      × SpareOthers after.tables
  Deletes (err _, after) = (after.tables.tasks ≡ s.tables.tasks) × SpareOthers after.tables

  abbrev after_runs : Connection Doc F → Connection Doc F
  after_runs d = record (next d) { tables = drop_runs id d.tables }

  abbrev after_artifacts : Connection Doc F → Connection Doc F
  after_artifacts d = record (next d) { tables = drop_artifacts id d.tables }

  abbrev after_events : Connection Doc F → Connection Doc F
  after_events d = record (next d) { tables = drop_events id d.tables }

  spared-events :
      events_of_others id
        (record s.tables { events = delete_where (λ r. is_of id r.task_id) s.tables.events })
      ≡ events_of_others id s.tables
  spared-events =
      ap (λ rows. filter (λ r. not (opt_beq r.task_id (some id))) rows)
        (left-events id s.tables.events)
      ∙ delete_where_twice (λ r. opt_beq r.task_id (some id)) s.tables.events

  -- A deletion that is accepted leaves no task, run, artifact or event of the id and all those of
  -- every other task as they were, and tells whether there was such a task. One that fails on the way
  -- has deleted no task and nothing of other tasks, though the runs, artifacts and events of the task
  -- may be gone.
  pub delete_task-Deletes : IsTable c s.tables.tasks → Deletes (delete_task c id s)
  unfolding delete_task
  delete_task-Deletes h =
      let runs = delete_where_twice (λ r. r.task_id == id) s.tables.runs in
      let artifacts = delete_where_twice (λ r. r.task_id == id) s.tables.artifacts in
      change-rule Deletes s (drop_runs id)
        (λ _. change (drop_artifacts id) >> (change (drop_events id) >> delete_row id))
        (refl, (refl, refl, refl, refl, refl))
        (change-rule Deletes (after_runs s) (drop_artifacts id)
          (λ _. change (drop_events id) >> delete_row id) (refl, (runs, refl, refl, refl, refl))
          (change-rule Deletes (after_artifacts (after_runs s)) (drop_events id)
            (λ _. delete_row id) (refl, (runs, artifacts, refl, refl, refl))
            (answer-rule Deletes (after_events (after_artifacts (after_runs s)))
              (λ t. any (λ r. r.task_id == id) t.tasks) (drop_task id)
              (refl, (runs, artifacts, spared-events, refl, refl))
              (
                refl,
                delete_where-IsTable c id s.tables.tasks h,
                stored-delete_where c id s.tables.tasks,
                refl,
                refl,
                left-events id s.tables.events,
                (runs, artifacts, spared-events, refl, refl),
              ))))

module _ {Doc T F : Type 0} (c : Codecs Doc T F) (s : Connection Doc F) where
  -- What archiving a task has done, by how it ended.
  abbrev pub Archives :
      Task T → T → Result (Unit {0}) (PersistenceError Doc) × Connection Doc F → Type 0
  Archives task at (ok _, after) =
      ((payload : Doc) × (c.tasks.to_string task ≡ some payload)
        × Memᴰ (archived_row c task at payload) after.tables.archived_tasks)
      × IsTable c after.tables.tasks
      × ((id : TaskId) → task_at c after id ≡ (if id == task.id then none else task_at c s id))
  Archives task at (err _, after) = after.tables.tasks ≡ s.tables.tasks

  mem-upsert_archived :
      (rows : List (ArchivedRow Doc)) (row : ArchivedRow Doc)
      → Memᴰ row (upsert_row same_archived replace_archived rows row)
  unfolding upsert_row
  mem-upsert_archived [] row = Memᴰ.head refl
  mem-upsert_archived (old ∷ rows) row = elim (Bool-cases (row.task_id == old.task_id)) [
    | inl hit ↦
        let same : row ≡ replace_archived old row =
          λ i. record row { task_id = (string_eq.same_iff row.task_id old.task_id).0 hit i } in
        rw hit (Memᴰ.head same)
    | inr miss ↦ rw miss (Memᴰ.tail (mem-upsert_archived rows row))
  ]

  -- Archiving a task that is accepted leaves its row in the archive, with the task's own payload, and
  -- no task of its id among the others, which are as they were. When it fails no task is gone: the
  -- row is written to the archive first.
  pub archive_task-Archives :
      (task : Task T) (at : T)
      → IsTable c s.tables.tasks
      → Archives task at (archive_task c task at s)
  unfolding archive_task
  archive_task-Archives task at h = elim (Option-cases (c.tasks.to_string task)) [
    | inl miss ↦ rw miss refl
    | inr (payload, e) ↦ rw e (
        change-rule (Archives task at) s (put_archived (archived_row c task at payload))
          (λ _. change (drop_task task.id)) refl
          (answer-rule (Archives task at) (after_put payload) (λ _. tt) (drop_task task.id) refl
            (
              (payload, e, mem-upsert_archived s.tables.archived_tasks _),
              delete_where-IsTable c task.id s.tables.tasks h,
              stored-delete_where c task.id s.tables.tasks,
            )))
  ]
    where
      after_put : Doc → Connection Doc F
      after_put payload = record (next s) {
        tables = put_archived (archived_row c task at payload) s.tables;
      }
