-- ===== src/Store/Tasks/View.antt =====
-- The table `tasks` as a map from ids to tasks, and what the statements do to that map.
use mathlib.Core.List.{Memᴰ}
use mathlib.Core.List.Memᴰ
use othala.Base.{
  ◌≡◌, refl, sym, ap, ◌∙◌, ◌↔◌, false, Option, none, some, List, [], ◌∷◌, arith, if◌then◌else◌,
  find, All, All-mem, All-weaken, ◌==◌, string_eq, Bool-cases, Option-cases, inl, inr, find-some,
}
use mathlib.Core.Option.{some_inj, none-ne-some}
use othala.Core.State.{display}
use othala.Core.Task.{Task, TaskId}
use othala.Core.Words.{parse_priority-priority_str}
use othala.Store.{TaskRow, Codecs}
use othala.Store.Sql.{upsert_row, delete_where}
use othala.Store.Tasks.{row_of, task_of_row, tasks_of_rows, upsert_task_row}

module _ {Doc T F : Type 0} (c : Codecs Doc T F) where
  abbrev found : Option (TaskRow Doc) → Option (Task T)
  found none = none
  found (some row) = task_of_row c row

  -- The task that the table holds under an id.
  unfoldable pub stored : List (TaskRow Doc) → TaskId → Option (Task T)
  stored rows id = found (find (λ r. id == r.task_id) rows)

  -- The columns agree with the task in the payload.
  pub record IsRow (row : TaskRow Doc) : Type 0 where
    pub task : Task T
    pub reads : task_of_row c row ≡ some task
    pub keyed : row.task_id ≡ task.id
    pub tagged : row.state_tag ≡ display task.state
    pub stamped : row.updated_at ≡ c.to_rfc3339 task.updated_at

  abbrev pub OncePerId : List (TaskRow Doc) → Type 0
  OncePerId [] = Unit
  OncePerId (row ∷ rows) = All (λ r. (row.task_id == r.task_id) ≡ false) rows × OncePerId rows

  -- The invariant of the table.
  pub record IsTable (rows : List (TaskRow Doc)) : Type 0 where
    pub sound : All IsRow rows
    pub once : OncePerId rows

  module _ (task : Task T) (payload labels : Doc) (written : c.tasks.to_string task ≡ some payload)
      (labelled : c.strings.to_string task.labels ≡ some labels) where
    pub task_of_row-row_of : task_of_row c (row_of c task payload labels) ≡ some task
    unfolding task_of_row row_of
    task_of_row-row_of = rw (
      c.tasks.from_str-to_string task payload written,
      c.strings.from_str-to_string task.labels labels labelled,
      parse_priority-priority_str task.priority,
    )

    pub row_of-IsRow : IsRow (row_of c task payload labels)
    unfolding row_of
    row_of-IsRow = record {
      task = task;
      reads = task_of_row-row_of;
      keyed = refl;
      tagged = refl;
      stamped = refl;
    }

    -- An update leaves the row of the new task, but for the column `created_at`, which is not read.
    All-upsert_task_row :
        (rows : List (TaskRow Doc))
        → All IsRow rows
        → All IsRow (upsert_task_row rows (row_of c task payload labels))
    unfolding upsert_row row_of task_of_row
    All-upsert_task_row [] h = (row_of-IsRow, tt)
    All-upsert_task_row (old ∷ rows) h = elim (Bool-cases (task.id == old.task_id)) [
      | inl hit ↦ rw hit (
        record {
          task = task;
          reads = task_of_row-row_of;
          keyed = sym ((string_eq.same_iff task.id old.task_id).0 hit);
          tagged = refl;
          stamped = refl;
        },
        h.1,
      )
      | inr miss ↦ rw miss (h.0, All-upsert_task_row rows h.1)
    ]

    apart-upsert_task_row :
        (id : TaskId) (rows : List (TaskRow Doc))
        → (id == task.id) ≡ false
        → All (λ r. (id == r.task_id) ≡ false) rows
        → All (λ r. (id == r.task_id) ≡ false) (upsert_task_row rows (row_of c task payload labels))
    unfolding upsert_row row_of
    apart-upsert_task_row id [] new h = (new, tt)
    apart-upsert_task_row id (old ∷ rows) new h = elim (Bool-cases (task.id == old.task_id)) [
      | inl hit ↦ rw hit h
      | inr miss ↦ rw miss (h.0, apart-upsert_task_row id rows new h.1)
    ]

    once-upsert_task_row :
        (rows : List (TaskRow Doc))
        → OncePerId rows
        → OncePerId (upsert_task_row rows (row_of c task payload labels))
    unfolding upsert_row row_of
    once-upsert_task_row [] h = (tt, tt)
    once-upsert_task_row (old ∷ rows) h = elim (Bool-cases (task.id == old.task_id)) [
      | inl hit ↦ rw hit h
      | inr miss ↦
          let apart : (old.task_id == task.id) ≡ false = ground (
            arith,
            string_eq.same_iff old.task_id task.id,
            string_eq.same_iff task.id old.task_id,
          ) in
          rw miss (apart-upsert_task_row old.task_id rows apart h.0, once-upsert_task_row rows h.1)
    ]

    pub upsert_task_row-IsTable :
        (rows : List (TaskRow Doc))
        → IsTable rows
        → IsTable (upsert_task_row rows (row_of c task payload labels))
    upsert_task_row-IsTable rows h = record {
      sound = All-upsert_task_row rows h.sound;
      once = once-upsert_task_row rows h.once;
    }

    pub stored-upsert_task_row :
        (rows : List (TaskRow Doc)) (id : TaskId)
        → stored (upsert_task_row rows (row_of c task payload labels)) id
          ≡ (if id == task.id then some task else stored rows id)
    unfolding stored upsert_row row_of task_of_row
    stored-upsert_task_row [] id = elim (Bool-cases (id == task.id)) [
      | inl hit ↦ rw (hit, task_of_row-row_of)
      | inr miss ↦ rw miss
    ]
    stored-upsert_task_row (old ∷ rows) id = elim (Bool-cases (task.id == old.task_id)) [
      | inl hit ↦
          let same : old.task_id ≡ task.id = sym ((string_eq.same_iff task.id old.task_id).0 hit) in
          elim (Bool-cases (id == task.id)) [
            | inl here ↦ rw (hit, same, here, task_of_row-row_of)
            | inr there ↦ rw (hit, same, there)
          ]
      | inr miss ↦ elim (Bool-cases (id == old.task_id)) [
        | inl here ↦
            let other : (id == task.id) ≡ false = ground (
              arith,
              string_eq.same_iff id old.task_id,
              string_eq.same_iff id task.id,
              string_eq.same_iff task.id old.task_id,
            ) in
            rw (miss, here, other)
        | inr there ↦ rw (miss, there) (stored-upsert_task_row rows id)
      ]
    ]

  module _ (id : TaskId) where
    abbrev gone : List (TaskRow Doc) → List (TaskRow Doc)
    gone rows = delete_where (λ r. r.task_id == id) rows

    All-gone {ℓ} :
        (P : TaskRow Doc → Type ℓ) (rows : List (TaskRow Doc)) → All P rows → All P (gone rows)
    All-gone P [] h = tt
    All-gone P (row ∷ rows) h = elim (Bool-cases (row.task_id == id)) [
      | inl hit ↦ rw hit (All-gone P rows h.1)
      | inr miss ↦ rw miss (h.0, All-gone P rows h.1)
    ]

    once-gone : (rows : List (TaskRow Doc)) → OncePerId rows → OncePerId (gone rows)
    once-gone [] h = tt
    once-gone (row ∷ rows) h = elim (Bool-cases (row.task_id == id)) [
      | inl hit ↦ rw hit (once-gone rows h.1)
      | inr miss ↦ rw miss (All-gone _ rows h.0, once-gone rows h.1)
    ]

    pub delete_where-IsTable : (rows : List (TaskRow Doc)) → IsTable rows → IsTable (gone rows)
    delete_where-IsTable rows h = record {
      sound = All-gone IsRow rows h.sound;
      once = once-gone rows h.once;
    }

    pub stored-delete_where :
        (rows : List (TaskRow Doc)) (other : TaskId)
        → stored (gone rows) other ≡ (if other == id then none else stored rows other)
    unfolding stored
    stored-delete_where [] other = ground arith
    stored-delete_where (row ∷ rows) other = elim (Bool-cases (row.task_id == id)) [
      | inl hit ↦
          let same = (string_eq.same_iff row.task_id id).0 hit in
          elim (Bool-cases (other == id)) [
            | inl here ↦ rw (hit, same, here) (rw here at (stored-delete_where rows other))
            | inr there ↦ rw (hit, same, there) (rw there at (stored-delete_where rows other))
          ]
      | inr miss ↦ elim (Bool-cases (other == row.task_id)) [
        | inl here ↦
            let apart : (other == id) ≡ false = ground (
              arith,
              string_eq.same_iff other row.task_id,
              string_eq.same_iff other id,
              string_eq.same_iff row.task_id id,
            ) in
            rw (miss, here, apart)
        | inr there ↦ rw (miss, there) (stored-delete_where rows other)
      ]
    ]

  -- Every row of the table is read, and the list has the tasks of the rows.
  pub tasks_of_rows_lem :
      (rows : List (TaskRow Doc))
      → All IsRow rows
      → (tasks : List (Task T)) × (tasks_of_rows c rows ≡ some tasks)
        × ((t : Task T)
            → Memᴰ t tasks ↔ ((row : TaskRow Doc) × Memᴰ row rows × (task_of_row c row ≡ some t)))
  unfolding tasks_of_rows
  tasks_of_rows_lem [] h =
      ([], refl, λ t. (λ m. absurd (Memᴰ.not-nil m), λ w. absurd (Memᴰ.not-nil w.1)))
  tasks_of_rows_lem (row ∷ rows) h =
      let (tasks, e, same) = tasks_of_rows_lem rows h.1 in
      let r = h.0 in
      (
        r.task ∷ tasks,
        rw (r.reads, e),
        λ t. (
          λ m. elim (Memᴰ.cases_cons m) [
            | inl here ↦ (row, Memᴰ.head refl, r.reads ∙ ap some (sym here))
            | inr later ↦
                let (found_row, there, reads) = (same t).0 later in
                (found_row, Memᴰ.tail there, reads)
          ],
          λ w. elim (Memᴰ.cases_cons w.1) [
            | inl here ↦ Memᴰ.head (some_inj.0 (sym w.2 ∙ ap (task_of_row c) here ∙ r.reads))
            | inr later ↦ Memᴰ.tail ((same t).1 (w.0, later, w.2))
          ],
        ),
      )

  find-once :
      (rows : List (TaskRow Doc)) (id : TaskId) (row : TaskRow Doc)
      → OncePerId rows
      → Memᴰ row rows
      → row.task_id ≡ id
      → find (λ r. id == r.task_id) rows ≡ some row
  find-once [] id row once m e = absurd (Memᴰ.not-nil m)
  find-once (first ∷ rows) id row once m e = elim (Memᴰ.cases_cons m) [
    | inl here ↦
        let hit = (string_eq.same_iff id first.task_id).1 (sym e ∙ ap (λ r. r.task_id) here) in
        rw hit (ap some (sym here))
    | inr later ↦
        let apart : (first.task_id == row.task_id) ≡ false = All-mem _ rows once.0 later in
        let miss : (id == first.task_id) ≡ false = ground (
          arith,
          e,
          string_eq.same_iff id first.task_id,
          string_eq.same_iff first.task_id row.task_id,
        ) in
        rw miss (find-once rows id row once.1 later e)
  ]

  pub stored-from_row :
      (rows : List (TaskRow Doc)) (h : IsTable rows) (t : Task T) (row : TaskRow Doc)
      → Memᴰ row rows
      → task_of_row c row ≡ some t
      → stored rows t.id ≡ some t
  unfolding stored
  stored-from_row rows h t row m e =
      let r = All-mem IsRow rows h.sound m in
      let same : row.task_id ≡ t.id = r.keyed ∙ ap (λ u. u.id) (some_inj.0 (sym r.reads ∙ e)) in
      rw (find-once rows t.id row h.once m same) e

  pub row-from_stored :
      (rows : List (TaskRow Doc)) (t : Task T)
      → stored rows t.id ≡ some t
      → (row : TaskRow Doc) × Memᴰ row rows × (task_of_row c row ≡ some t)
  unfolding stored
  row-from_stored rows t e = elim (Option-cases (find (λ r. t.id == r.task_id) rows)) [
    | inl miss ↦ absurd (none-ne-some _ (rw miss at e))
    | inr (row, hit) ↦ (row, (find-some _ rows hit).1, rw hit at e)
  ]

  -- What is stored under an id has that id, and there is nothing that cannot be read.
  pub stored-cases :
      (rows : List (TaskRow Doc)) (id : TaskId)
      → IsTable rows
      → (found_row : TaskRow Doc) → find (λ r. id == r.task_id) rows ≡ some found_row
      → (t : Task T) × (task_of_row c found_row ≡ some t) × (t.id ≡ id)
  stored-cases rows id h row hit =
      let (same, m) = find-some _ rows hit in
      let r = All-mem IsRow rows h.sound m in
      (r.task, r.reads, sym r.keyed ∙ sym ((string_eq.same_iff id row.task_id).0 same))

  -- What a `SELECT` lists can be read.
  pub listed-IsRow :
      (rows listed : List (TaskRow Doc))
      → IsTable rows
      → ((row : TaskRow Doc) → Memᴰ row listed → Memᴰ row rows)
      → All IsRow listed
  listed-IsRow rows listed h sub =
      All-weaken IsRow listed (λ row m. All-mem IsRow rows h.sound (sub row m))

  -- What is stored under an id has that id.
  pub stored-id :
      (rows : List (TaskRow Doc)) (id : TaskId) (t : Task T)
      → IsTable rows
      → stored rows id ≡ some t
      → t.id ≡ id
  unfolding stored
  stored-id rows id t h e = elim (Option-cases (find (λ r. id == r.task_id) rows)) [
    | inl miss ↦ absurd (none-ne-some _ (rw miss at e))
    | inr (row, hit) ↦
        let (u, reads, same) = stored-cases rows id h row hit in
        let there : task_of_row c row ≡ some t = rw hit at e in
        ap (λ v. v.id) (some_inj.0 (sym there ∙ reads)) ∙ same
  ]
