-- ===== src/Store/Runs/Open.antt =====
-- Which runs are open: inserting a run, reading it back, and closing the runs of a task.
use mathlib.Core.Option.{some_inj, none-ne-some}
use othala.Base.{
  ℕ, ℤ, ◌≡◌, refl, sym, ap, ◌∙◌, Bool, true, false, ◌&&◌, not, Option, none, some, List, [], ◌∷◌,
  ◌++◌, String, arith, ok, err, Result, Option-cases, Bool-cases, inl, inr, filter, map,
  if◌then◌else◌, count, any, All, ◌==◌, string_eq, is_some,
}
use othala.Core.Task.{TaskId}
use othala.Core.Event.{TaskRunRecord}
use othala.Store.{Codecs, RunRow, Tables, Connection, PersistenceError}
use othala.Store.Sql.{next, update_where, insert_row, insert_row-some, answer-rule, execute-rule}
use othala.Store.Runs.{
  or_else, stamp_of, same_run, insert_run_row, is_open, is_open_of, finish,
  finish_open_runs_for_task, run_row, run_of_row, parse_optional_rfc3339, insert_run,
}

or_else_self {ℓ} : {A : Type ℓ} (o : Option A) → or_else o o ≡ o
or_else_self none = refl
or_else_self (some a) = refl

module _ {Doc T F : Type 0} (c : Codecs Doc T F) where
  parse-stamp_of : (at : Option T) → parse_optional_rfc3339 c (stamp_of c at) ≡ ok at
  unfolding parse_optional_rfc3339
  parse-stamp_of none = refl
  parse-stamp_of (some at) = rw (c.parse-to_rfc3339 at)

  -- Every field of a run that was written is read back as it was.
  pub run_of_row-run_row :
      (run : TaskRunRecord T F) (payload : Doc)
      → c.runs.to_string run ≡ some payload
      → run_of_row c (run_row c run payload) ≡ ok run
  unfolding run_of_row run_row parse_optional_rfc3339
  run_of_row-run_row run payload written =
      rw (written_back, parse-stamp_of run.finished_at, or_else_self, or_else_self)
    where
      written_back : c.runs.from_str payload ≡ some run
      written_back = c.runs.from_str-to_string run payload written

update_head {ℓ} :
    {A : Type ℓ} (b : Bool) (fresh old : A) (later : List A)
    → (if b then fresh ∷ later else old ∷ later) ≡ (if b then fresh else old) ∷ later
update_head true fresh old later = refl
update_head false fresh old later = refl

closed_row {ℓ κ} :
    {A : Type ℓ} {B : Type κ} (b : Bool) (o : Option B) (fresh old : A)
    → (if b && not (is_some o) then fresh else old)
      ≡ (if b then elim o [ some _ ↦ old | none ↦ fresh ] else old)
closed_row true none fresh old = refl
closed_row true (some _) fresh old = refl
closed_row false o fresh old = refl

module _ {Doc F : Type 0} (id : TaskId) (at : Doc) (reason : String) (code : Option ℤ)
    (secs : Option F) where
  abbrev closed : List (RunRow Doc F) → List (RunRow Doc F)
  closed rows = update_where (is_open_of id) (finish at reason code secs) rows

  closed-none : (rows : List (RunRow Doc F)) → All (λ r. is_open_of id r ≡ false) (closed rows)
  unfolding update_where
  closed-none [] = tt
  closed-none (row ∷ rows) = elim (Bool-cases (is_open_of id row)) [
    | inl hit ↦ rw hit (ground arith, closed-none rows)
    | inr miss ↦ rw miss (miss, closed-none rows)
  ]

  -- What becomes of a run: an open one of the task gets the four values, any other stays.
  abbrev pub after_close : RunRow Doc F → RunRow Doc F
  after_close row =
      if row.task_id == id
      then elim row.finished_at [
        | some _ ↦ row
        | none ↦ record row {
          finished_at = some at;
          stop_reason = some reason;
          exit_code = code;
          duration_secs = secs;
        }
      ]
      else row

  closed-rows : (rows : List (RunRow Doc F)) → closed rows ≡ map after_close rows
  unfolding update_where
  closed-rows [] = refl
  closed-rows (row ∷ rows) =
      update_head (is_open_of id row) (finish at reason code secs row) row (closed rows) ∙ (λ i.
        closed_row (row.task_id == id) row.finished_at (finish at reason code secs row) row i
        ∷ closed-rows rows i)

  closed-others :
      (rows : List (RunRow Doc F))
      → filter (λ r. not (r.task_id == id)) (closed rows) ≡ filter (λ r. not (r.task_id == id)) rows
  unfolding update_where
  closed-others [] = refl
  closed-others (row ∷ rows) = ground (arith, closed-others rows)

module _ {Doc T F : Type 0} (c : Codecs Doc T F) (s : Connection Doc F) (id : TaskId) (at : T)
    (reason : String) (code : Option ℤ) (secs : Option F) where
  -- What closing the runs of a task has done, by how it ended.
  abbrev pub Finishes : Result ℕ (PersistenceError Doc) × Connection Doc F → Type 0
  Finishes (ok updated, after) =
      (updated ≡ count (is_open_of id) s.tables.runs)
      × All (λ r. is_open_of id r ≡ false) after.tables.runs
      × (filter (λ r. not (r.task_id == id)) after.tables.runs
          ≡ filter (λ r. not (r.task_id == id)) s.tables.runs)
      × (after.tables ≡ record s.tables {
        runs = map (after_close id (c.to_rfc3339 at) reason code secs) s.tables.runs;
      })
  Finishes (err _, after) = after.tables ≡ s.tables

  -- After the call the task has no open run, and the answer is how many were closed. Each that was
  -- open is still there, now with the given end, reason, exit code and duration and otherwise as it
  -- was; the runs that were closed before, those of every other task and every other table are as
  -- they were. A call that fails changes no table.
  pub finish_open_runs_for_task-Finishes :
      Finishes (finish_open_runs_for_task c id at reason code secs s)
  unfolding finish_open_runs_for_task
  finish_open_runs_for_task-Finishes =
      answer-rule Finishes s (λ t. count (is_open_of id) t.runs)
        (λ t. record t { runs = closed id (c.to_rfc3339 at) reason code secs t.runs }) refl
        (
          refl,
          closed-none id (c.to_rfc3339 at) reason code secs s.tables.runs,
          closed-others id (c.to_rfc3339 at) reason code secs s.tables.runs,
          ap (λ runs. record s.tables { runs = runs })
              (closed-rows id (c.to_rfc3339 at) reason code secs s.tables.runs),
        )

module _ {Doc T F : Type 0} (c : Codecs Doc T F) (s : Connection Doc F)
    (run : TaskRunRecord T F) where
  -- What inserting a run has done, by how it ended.
  abbrev pub Inserts : Result (Unit {0}) (PersistenceError Doc) × Connection Doc F → Type 0
  Inserts (ok _, after) =
      (row : RunRow Doc F) × (run_of_row c row ≡ ok run)
      × (row.run_id ≡ run.run_id)
      × (row.task_id ≡ run.task_id)
      × (is_open row ≡ not (is_some run.finished_at))
      × (any (λ r. row.run_id == r.run_id) s.tables.runs ≡ false)
      × (after.tables ≡ record s.tables { runs = s.tables.runs ++ row ∷ [] })
  Inserts (err _, after) = after.tables ≡ s.tables

  is_open-run_row :
      (payload : Doc) → is_open (run_row c run payload) ≡ not (is_some run.finished_at)
  unfolding run_row
  is_open-run_row payload = elim (Option-cases run.finished_at) [
    | inl e ↦ rw e
    | inr (at, e) ↦ rw e
  ]

  insert_run_row-Inserts :
      (payload : Doc) (tables : Tables Doc F)
      → c.runs.to_string run ≡ some payload
      → insert_run_row (run_row c run payload) s.tables ≡ some (tt, tables)
      → Inserts (ok tt, record (next s) { tables = tables })
  unfolding run_row
  insert_run_row-Inserts payload tables written h =
      elim (Option-cases (insert_row same_run s.tables.runs (run_row c run payload))) [
        | inl taken ↦ absurd (none-ne-some _ (rw (insert_run_row, taken) at h))
        | inr (rows, e) ↦
            let (grown, fresh) = insert_row-some same_run s.tables.runs _ e in
            (
              run_row c run payload,
              run_of_row-run_row c run payload written,
              refl,
              refl,
              is_open-run_row payload,
              fresh,
              sym (
                    ap (λ (answer : Unit {0} × Tables Doc F). answer.1)
                      (some_inj.0 (rw (insert_run_row, e) at h)))
                  ∙ ap (λ runs. record s.tables { runs = runs }) grown,
            )
      ]

  -- A run that is inserted has an id that no run had, is read back field for field, and stands behind
  -- the others; a call that fails changes no table.
  pub insert_run-Inserts : Inserts (insert_run c run s)
  unfolding insert_run
  insert_run-Inserts = elim (Option-cases (c.runs.to_string run)) [
    | inl miss ↦ rw miss refl
    | inr (payload, written) ↦ rw written (
        execute-rule Inserts s (insert_run_row (run_row c run payload)) refl
          (λ _ tables h. insert_run_row-Inserts payload tables written h))
  ]
