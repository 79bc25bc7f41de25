-- ===== src/Store/Tests.antt =====
-- A small store, and the theorems about its tables at it.
use othala.Base.{ℕ, some, pos}
use othala.Core.Task.{Task, new}
use othala.Core.Event.{Event, TaskRunRecord}
use othala.Store.Plain.{plain}
use othala.Store.Sample.{first, run, event, store, store-IsTable}
use othala.Store.Tasks.{upsert_task, delete_task, archive_task}
use othala.Store.Tasks.Refines.{Writes, upsert_task-Writes}
use othala.Store.Tasks.Removal.{Deletes, delete_task-Deletes, Archives, archive_task-Archives}
use othala.Store.Runs.{finish_open_runs_for_task, insert_run}
use othala.Store.Runs.Open.{
  Finishes, finish_open_runs_for_task-Finishes, Inserts, insert_run-Inserts,
}
use othala.Store.Events.{append_event}
use othala.Store.Events.Recorded.{Records, append_event-Records}

abbrev renamed : Task ℕ
unfolding new
renamed = record first { title = "First, again"; updated_at = 9 }

upsert_task-Writes_example : Writes plain store renamed (upsert_task plain renamed store)
upsert_task-Writes_example = upsert_task-Writes plain store renamed store-IsTable

delete_task-Deletes_example : Deletes plain store "T1" (delete_task plain "T1" store)
delete_task-Deletes_example = delete_task-Deletes plain store "T1" store-IsTable

archive_task-Archives_example : Archives plain store first 8 (archive_task plain first 8 store)
archive_task-Archives_example = archive_task-Archives plain store first 8 store-IsTable

finish_open_runs_for_task-Finishes_example :
    Finishes plain store "T1" 9 "completed"
      (some (pos 0))
      (some 5)
      (finish_open_runs_for_task plain "T1" 9 "completed" (some (pos 0)) (some 5) store)
finish_open_runs_for_task-Finishes_example =
    finish_open_runs_for_task-Finishes plain store "T1" 9 "completed" (some (pos 0)) (some 5)

abbrev later_run : TaskRunRecord ℕ ℕ
later_run = record run { run_id = "R2"; task_id = "T2" }

insert_run-Inserts_example : Inserts plain store later_run (insert_run plain later_run store)
insert_run-Inserts_example = insert_run-Inserts plain store later_run

abbrev later_event : Event ℕ
later_event = record event { id = "E2"; task_id = some "T2" }

append_event-Records_example :
    Records plain store later_event (append_event plain later_event store)
append_event-Records_example = append_event-Records plain store later_event
