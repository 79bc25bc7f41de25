-- ===== src/Store/Tasks/Refines.antt =====
-- The operations on tasks refine a map from ids to tasks.
use mathlib.Core.List.{Memᴰ}
use othala.Base.{
  ◌≡◌, refl, sym, ap, ◌∙◌, ◌↔◌, true, Option, some, List, arith, ok, err, Result, Option-cases, inl,
  inr, if◌then◌else◌, find, filter, or_raise, or_raise_keeps, ◌==◌, string_eq, mem-filter, All-mem,
}
use mathlib.Core.Option.{some_inj}
use othala.Base.Sorting.{sort_by, mem-sort_by}
use othala.Core.State.{TaskState, display, display-injective}
use othala.Core.Task.{Task, TaskId}
use othala.Store.{Codecs, TaskRow, Tables, Connection, PersistenceError, json, sql}
use othala.Store.Sql.{execute, query-then, query-rule, next}
use othala.Store.Tasks.{
  upsert_task, load_task, list_tasks, list_tasks_by_state, row_of, upsert_task_row, task_of_row,
  tasks_of_rows, task_after, task_of_found,
}
use othala.Store.Tasks.View.{
  IsTable, IsRow, stored, upsert_task_row-IsTable, stored-upsert_task_row, stored-from_row,
  row-from_stored, listed-IsRow, tasks_of_rows_lem, stored-cases,
}

-- The map that a connection holds.
abbrev pub task_at :
    {Doc T F : Type 0} → Codecs Doc T F → Connection Doc F → TaskId → Option (Task T)
task_at c s id = stored c s.tables.tasks id

module _ {Doc T F : Type 0} (c : Codecs Doc T F) (s : Connection Doc F) where
  -- Only the table `tasks` may differ.
  abbrev pub SameElsewhere : Connection Doc F → Type 0
  SameElsewhere after = after.tables ≡ record s.tables { tasks = after.tables.tasks }

  upsert_task-parts :
      (task : Task T)
      → (upsert_task c task s).0 ≡ ok tt
      → (payload labels : Doc) × (c.tasks.to_string task ≡ some payload)
        × (c.strings.to_string task.labels ≡ some labels)
        × ((upsert_task c task s).1.tables ≡ record s.tables {
          tasks = upsert_task_row s.tables.tasks (row_of c task payload labels);
        })
  unfolding upsert_task execute
  upsert_task-parts task h = elim (Option-cases (c.tasks.to_string task)) [
    | inl miss ↦ ground arith
    | inr (payload, e) ↦ elim (Option-cases (c.strings.to_string task.labels)) [
      | inl miss ↦ ground arith
      | inr (labels, e') ↦ (payload, labels, e, e', ground arith)
    ]
  ]

  -- What writing a task has done, by how it ended.
  abbrev pub Writes : Task T → Result (Unit {0}) (PersistenceError Doc) × Connection Doc F → Type 0
  Writes task (ok _, after) =
      IsTable c after.tables.tasks
      × SameElsewhere after
      × ((id : TaskId) → task_at c after id ≡ (if id == task.id then some task else task_at c s id))
  Writes task (err _, after) = after.tables ≡ s.tables

  Writes-of :
      (task : Task T) (x : Result (Unit {0}) (PersistenceError Doc) × Connection Doc F)
      → (x.0 ≡ ok tt → Writes task (ok tt, x.1))
      → ((e : PersistenceError Doc) → x.0 ≡ err e → x.1.tables ≡ s.tables)
      → Writes task x
  Writes-of task (ok tt, after) good bad = good refl
  Writes-of task (err e, after) good bad = bad e refl

  upsert_task-err :
      (task : Task T) (e : PersistenceError Doc)
      → (upsert_task c task s).0 ≡ err e
      → (upsert_task c task s).1.tables ≡ s.tables
  unfolding upsert_task execute
  upsert_task-err task e h = elim (Option-cases (c.tasks.to_string task)) [
    | inl miss ↦ ground arith
    | inr (payload, e) ↦ elim (Option-cases (c.strings.to_string task.labels)) [
      | inl miss ↦ ground arith
      | inr (labels, e') ↦ ground arith
    ]
  ]

  -- Writing a task that is accepted makes it the one task of its id, leaves every other task and
  -- every other table as they were, and keeps the invariant of the table; a write that fails leaves
  -- all tables as they were.
  pub upsert_task-Writes :
      (task : Task T) → IsTable c s.tables.tasks → Writes task (upsert_task c task s)
  upsert_task-Writes task h =
      Writes-of task (upsert_task c task s)
        (λ good.
          let (payload, labels, e, e', t) = upsert_task-parts task good in
          let rows = ap (λ (tables : Tables Doc F). tables.tasks) t in
          (
            rw rows (upsert_task_row-IsTable c task payload labels e e' s.tables.tasks h),
            rw t,
            λ id. rw rows (stored-upsert_task_row c task payload labels e e' s.tables.tasks id),
          ))
        (upsert_task-err task)

  -- Loading is one statement. Unless the database refuses it, the answer is what is stored.
  pub load_task_lem :
      (id : TaskId)
      → IsTable c s.tables.tasks
      → load_task c id s ≡ (if s.refuses s.statements then err sql else ok (task_at c s id), next s)
  unfolding load_task stored
  load_task_lem id h =
      query-then (λ t. find (λ r. id == r.task_id) t.tasks) (task_of_found c) s (task_at c s id)
        (elim (Option-cases (find (λ r. id == r.task_id) s.tables.tasks)) [
          | inl miss ↦ rw miss
          | inr (row, hit) ↦
              let (t, reads, e) = stored-cases c s.tables.tasks id h row hit in rw (hit, reads)
        ])

  -- Unless the database refuses the statement, the list has exactly the stored tasks.
  pub list_tasks_lem :
      IsTable c s.tables.tasks
      → (tasks : List (Task T)) × (list_tasks c s
          ≡ (if s.refuses s.statements then err sql else ok tasks, next s))
        × ((t : Task T) → Memᴰ t tasks ↔ (task_at c s t.id ≡ some t))
  unfolding list_tasks
  list_tasks_lem h =
      let rows = s.tables.tasks in
      let listed = sort_by (task_after c) rows in
      let (tasks, e, same) =
        tasks_of_rows_lem c listed
          (listed-IsRow c rows listed h (λ row. (mem-sort_by (task_after c) rows).0)) in
      (
        tasks,
        query-then (λ t. sort_by (task_after c) t.tasks)
            (λ found. or_raise (tasks_of_rows c found) json) s tasks (rw e),
        λ t. (
          λ m.
              let (row, there, reads) = (same t).0 m in
              stored-from_row c rows h t row ((mem-sort_by (task_after c) rows).0 there) reads,
          λ at.
              let (row, there, reads) = row-from_stored c rows t at in
              (same t).1 (row, (mem-sort_by (task_after c) rows).1 there, reads),
        ),
      )

  tagged :
      (row : TaskRow Doc) (t : Task T) (state : TaskState)
      → IsTable c s.tables.tasks
      → Memᴰ row s.tables.tasks
      → task_of_row c row ≡ some t
      → ((row.state_tag == display state) ≡ true) ↔ (t.state ≡ state)
  tagged row t state h m reads =
      let r = All-mem (IsRow c) s.tables.tasks h.sound m in
      let tag : row.state_tag ≡ display t.state =
        r.tagged ∙ ap (λ u. display u.state) (some_inj.0 (sym r.reads ∙ reads)) in
      let (to, from) = string_eq.same_iff row.state_tag (display state) in
      (
        λ same. display-injective t.state state (sym tag ∙ to same),
        λ same. from (tag ∙ ap display same),
      )

  -- The same for the stored tasks in one state.
  pub list_tasks_by_state_lem :
      (state : TaskState)
      → IsTable c s.tables.tasks
      → (tasks : List (Task T)) × (list_tasks_by_state c state s
          ≡ (if s.refuses s.statements then err sql else ok tasks, next s))
        × ((t : Task T) → Memᴰ t tasks ↔ ((task_at c s t.id ≡ some t) × (t.state ≡ state)))
  unfolding list_tasks_by_state
  list_tasks_by_state_lem state h =
      let rows = s.tables.tasks in
      let kept = filter (λ r. r.state_tag == display state) rows in
      let listed = sort_by (task_after c) kept in
      let from : (row : TaskRow Doc)
          → Memᴰ row listed
          → Memᴰ row rows × ((row.state_tag == display state) ≡ true) =
        λ row m.
          (mem-filter (λ r. r.state_tag == display state) rows).0
            ((mem-sort_by (task_after c) kept).0 m) in
      let (tasks, e, same) =
        tasks_of_rows_lem c listed (listed-IsRow c rows listed h (λ row m. (from row m).0)) in
      (
        tasks,
        query-then
            (λ t. sort_by (task_after c) (filter (λ r. r.state_tag == display state) t.tasks))
            (λ found. or_raise (tasks_of_rows c found) json) s tasks (rw e),
        λ t. (
          λ m.
              let (row, there, reads) = (same t).0 m in
              let (in_rows, tag) = from row there in
              (
                stored-from_row c rows h t row in_rows reads,
                (tagged row t state h in_rows reads).0 tag,
              ),
          λ w.
              let (row, there, reads) = row-from_stored c rows t w.0 in
              (same t).1 (
                row,
                (mem-sort_by (task_after c) kept).1 (
                    (mem-filter (λ r. r.state_tag == display state) rows).1
                      (there, (tagged row t state h there reads).1 w.1)),
                reads,
              ),
        ),
      )

  -- Neither list changes a table, however it ends.
  pub list_tasks-tables : (list_tasks c s).1.tables ≡ s.tables
  unfolding list_tasks
  list_tasks-tables =
      query-rule (λ x. x.1.tables ≡ s.tables) s (λ t. sort_by (task_after c) t.tasks)
        (λ found. or_raise (tasks_of_rows c found) json) refl
        (ap (λ (d : Connection Doc F). d.tables) (or_raise_keeps _ _ (next s)))

  pub list_tasks_by_state-tables :
      (state : TaskState) → (list_tasks_by_state c state s).1.tables ≡ s.tables
  unfolding list_tasks_by_state
  list_tasks_by_state-tables state =
      query-rule (λ x. x.1.tables ≡ s.tables) s
        (λ t. sort_by (task_after c) (filter (λ r. r.state_tag == display state) t.tasks))
        (λ found. or_raise (tasks_of_rows c found) json) refl
        (ap (λ (d : Connection Doc F). d.tables) (or_raise_keeps _ _ (next s)))
