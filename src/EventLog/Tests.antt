-- ===== src/EventLog/Tests.antt =====
-- A log in memory, and the theorem about appending to it.
use othala.Base.{ℕ, ◌≡◌, refl, some, [], ◌∷◌, if◌then◌else◌, ◌==◌, string_eq}
use othala.Core.Event.{Event, task_created}
use othala.Store.Plain.{Plain, plain, event_text}
use othala.EventLog.{
  FilePath, Location, JsonlEventLog, join, new, task_log_path, append_both, ensure_layout,
  append_global, append_task, append_json_line, text, newline,
}
use othala.EventLog.Journal.{Files, journal, journal_with}
use othala.EventLog.Appends.{Logs, append_both-Logs}

abbrev event : Event ℕ
event = record { id = "E1"; task_id = some "T1"; repo_id = some "api"; at = 4; kind = task_created }

abbrev no_files : Files Plain
no_files _ = []

joins : join ".orch/events" "tasks" ≡ ".orch/events/tasks"
unfolding join
joins = refl

joins_slash : join "events/" "tasks" ≡ "events/tasks"
unfolding join
joins_slash = refl

-- An identifier that starts with a slash takes the log out of its directory.
replaces : task_log_path (new ".orch/events") "/tmp/T1" ≡ "/tmp/T1.jsonl"
unfolding task_log_path new join
replaces = refl

own_path : task_log_path (new ".orch/events") "T1" ≡ ".orch/events/tasks/T1.jsonl"
unfolding task_log_path new join
own_path = refl

append_both-Logs_example :
    Logs journal plain.events
      (new ".orch/events")
      event
      no_files
      (append_both journal plain.events (new ".orch/events") event no_files)
append_both-Logs_example = append_both-Logs journal plain.events (new ".orch/events") event no_files

-- The path that the task `../global` has, on a disk without links.
abbrev resolve : FilePath → Location
resolve path = if path == "events/tasks/../global.jsonl" then "events/global.jsonl" else path

abbrev log : JsonlEventLog
log = record { root = "events"; global_file = "events/global.jsonl"; task_dir = "events/tasks" }

-- The event of such a task is in the global file twice.
abbrev outside : Event ℕ
outside = record event { task_id = some "../global" }

twice :
    (append_both (journal_with resolve) plain.events log outside no_files).1 "events/global.jsonl"
    ≡ text (event_text outside) ∷ newline ∷ text (event_text outside) ∷ newline ∷ []
unfolding append_both ensure_layout append_global append_task append_json_line task_log_path join
twice = refl
