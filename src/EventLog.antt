-- ===== src/EventLog.antt =====
-- crates/orchd/src/event_log.rs: the event log, a file of lines for all events and one per task.
--
-- The files are the operating system's: a parameter, with what its calls promise. `W` is the state
-- of the disk.
use othala.Base.{
  ◌≡◌, ◌≢◌, ℕ, Bool, true, false, Option, none, some, List, [], ◌∷◌, ◌++◌, String, nat_beq, not,
  Action, Result, ok, err, pure, or_raise, ◌>>=◌, ◌>>◌, if◌then◌else◌,
}
use Prim.Native.String.{◌++◌ as ◌++ₛ◌}
use othala.Base.Text.{chars}
use othala.Core.Task.{TaskId}
use othala.Core.Event.{Event}
use othala.Store.{Json}
pub mod Appends
pub mod Journal
mod Tests

-- A path as the source spells it.
abbrev pub FilePath : Type 0
FilePath = String

-- Which file of the disk it is, however its path is spelled.
abbrev pub Location : Type 0
Location = String

abbrev is_separator : ℕ → Bool
is_separator c = nat_beq c 47

unfoldable is_absolute : List ℕ → Bool
is_absolute [] = false
is_absolute (c ∷ cs) = is_separator c

unfoldable needs_separator : List ℕ → Bool
needs_separator [] = false
needs_separator (c ∷ []) = not (is_separator c)
needs_separator (c ∷ d ∷ cs) = needs_separator (d ∷ cs)

-- `Path::join` on Unix: an absolute path replaces the one it is joined to. Nothing is normalised.
unfoldable pub join : FilePath → FilePath → FilePath
unfolding is_absolute needs_separator chars
join base path =
    if is_absolute (chars path)
    then path
    else (if needs_separator (chars base) then base ++ₛ ("/" ++ₛ path) else base ++ₛ path)

-- What is written by one call.
pub data Chunk (Doc : Type 0) : Type 0 where
  text : Doc → Chunk Doc
  newline : Chunk Doc

-- `names` is the file that a path leads to, with `..` and links followed: two paths may name one
-- file. The links and directories on these paths do not change while the log runs. Each call answers
-- whether it succeeded. One that fails may have written a part, but only to the file it was opened on.
pub record Disk (W Doc : Type 0) : Type 0 where
  pub names : FilePath → Location
  pub create_dir_all : FilePath → W → Bool × W
  pub open_append : FilePath → W → Bool × W
  pub write_all : FilePath → Chunk Doc → W → Bool × W
  pub content : W → Location → List (Chunk Doc)
  pub create_keeps :
      (dir : FilePath) (at : Location) (w : W) → content (create_dir_all dir w).1 at ≡ content w at
  pub open_keeps :
      (path : FilePath) (at : Location) (w : W) → content (open_append path w).1 at ≡ content w at
  pub write_appends :
      (path : FilePath) (chunk : Chunk Doc) (w : W)
      → (write_all path chunk w).0 ≡ true
      → content (write_all path chunk w).1 (names path) ≡ content w (names path) ++ chunk ∷ []
  pub write_keeps :
      (path : FilePath) (at : Location) (chunk : Chunk Doc) (w : W)
      → at ≢ names path
      → content (write_all path chunk w).1 at ≡ content w at

pub data EventLogError : Type 0 where
  create_dir append : (path : FilePath) → EventLogError
  serialize : EventLogError

pub record JsonlEventLog : Type 0 where
  pub root : FilePath
  pub global_file : FilePath
  pub task_dir : FilePath

unfoldable pub new : FilePath → JsonlEventLog
unfolding join
new root = record {
  root = root;
  global_file = join root "global.jsonl";
  task_dir = join root "tasks";
}

unfoldable pub task_log_path : JsonlEventLog → TaskId → FilePath
unfolding join
task_log_path log task_id = join log.task_dir (task_id ++ₛ ".jsonl")

module _ {W : Type 0} where
  abbrev answered : EventLogError → Bool × W → Result (Unit {0}) EventLogError × W
  answered e (done, w) = (if done then ok tt else err e, w)

  -- `map_err(...)?` on a call of the operating system.
  abbrev pub attempt : (W → Bool × W) → EventLogError → Action W EventLogError (Unit {0})
  attempt call e w = answered e (call w)

module _ {W Doc T : Type 0} (disk : Disk W Doc) (events : Json Doc (Event T)) where
  unfoldable pub append_json_line : FilePath → Event T → Action W EventLogError (Unit {0})
  append_json_line path event = do
    line ← or_raise (events.to_string event) serialize
    attempt (disk.open_append path) (append path)
    attempt (disk.write_all path (text line)) (append path)
    attempt (disk.write_all path newline) (append path)

  module _ (log : JsonlEventLog) where
    unfoldable pub ensure_layout : Action W EventLogError (Unit {0})
    ensure_layout = do
      attempt (disk.create_dir_all log.root) (create_dir log.root)
      attempt (disk.create_dir_all log.task_dir) (create_dir log.task_dir)

    unfoldable pub append_global : Event T → Action W EventLogError (Unit {0})
    unfolding append_json_line
    append_global event = append_json_line log.global_file event

    abbrev pub append_for : Option TaskId → Event T → Action W EventLogError (Unit {0})
    append_for none event = pure tt
    append_for (some task_id) event = append_json_line (task_log_path log task_id) event

    unfoldable pub append_task : Event T → Action W EventLogError (Unit {0})
    unfolding append_json_line task_log_path
    append_task event = append_for event.task_id event

    unfoldable pub append_both : Event T → Action W EventLogError (Unit {0})
    unfolding ensure_layout append_global append_task
    append_both event = do ensure_layout; append_global event; append_task event
