-- ===== src/Store/Sample.antt =====
-- A small store by which examples run: two tasks, one event and one open run.
use othala.Base.{ℕ, refl, false, some, none, [], ◌∷◌}
use othala.Core.State.{ready}
use othala.Core.Task.{Task, claude, new, high}
use othala.Core.Event.{Event, TaskRunRecord, task_created}
use othala.Store.{TaskRow, Connection}
use othala.Store.Plain.{Plain, plain, task_text, strings_text, run_text, event_text}
use othala.Store.Tasks.{row_of}
use othala.Store.Tasks.View.{IsTable, row_of-IsRow}
use othala.Store.Runs.{run_row}
use othala.Store.Events.{event_row}

abbrev pub first : Task ℕ
unfolding new
first = record (new 3 "T1" "api" "First" "wt/T1") { priority = high; labels = "ui" ∷ [] }

abbrev pub second : Task ℕ
unfolding new
second = record (new 5 "T2" "api" "Second" "wt/T2") { state = ready }

abbrev pub row : Task ℕ → TaskRow Plain
row task = row_of plain task (task_text task) (strings_text task.labels)

abbrev pub run : TaskRunRecord ℕ ℕ
run = record {
  run_id = "R1";
  task_id = "T1";
  repo_id = "api";
  model = claude;
  started_at = 4;
  finished_at = none;
  stop_reason = none;
  exit_code = none;
  estimated_tokens = some 12;
  duration_secs = none;
}

abbrev pub event : Event ℕ
event = record { id = "E1"; task_id = some "T1"; repo_id = some "api"; at = 4; kind = task_created }

abbrev pub store : Connection Plain ℕ
store = record {
  tables = record {
    tasks = row first ∷ row second ∷ [];
    events = event_row plain event (event_text event) ∷ [];
    runs = run_row plain run (run_text run) ∷ [];
    artifacts = [];
    sessions = [];
    archived_tasks = [];
  };
  statements = 0;
  refuses = λ _. false;
}

pub store-IsTable : IsTable plain store.tables.tasks
unfolding row_of new
store-IsTable = record {
  sound = (
    row_of-IsRow plain first (task_text first) (strings_text first.labels) refl refl,
    (row_of-IsRow plain second (task_text second) (strings_text second.labels) refl refl, tt),
  );
  once = ((refl, tt), (tt, tt));
}
