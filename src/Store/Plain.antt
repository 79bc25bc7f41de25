-- ===== src/Store/Plain.antt =====
-- Texts that keep what they were written from: an instance of the codecs, by which examples run.
use othala.Base.{ℕ, ◌≡◌, refl, sym, ap, ◌∙◌, Bool, true, Option, none, some, List, String, leb}
use mathlib.Core.Option.{some_inj}
use othala.Core.Task.{Task}
use othala.Core.Event.{Event, TaskRunRecord, ArtifactRecord}
use othala.Store.{Json, Codecs}

pub data Plain : Type 0 where
  task_text : Task ℕ → Plain
  event_text : Event ℕ → Plain
  run_text : TaskRunRecord ℕ ℕ → Plain
  artifact_text : ArtifactRecord ℕ → Plain
  strings_text : List String → Plain
  stamp : ℕ → Plain

abbrev read_task : Plain → Option (Task ℕ)
read_task (task_text a) = some a
read_task _ = none

abbrev read_event : Plain → Option (Event ℕ)
read_event (event_text a) = some a
read_event _ = none

abbrev read_run : Plain → Option (TaskRunRecord ℕ ℕ)
read_run (run_text a) = some a
read_run _ = none

abbrev read_artifact : Plain → Option (ArtifactRecord ℕ)
read_artifact (artifact_text a) = some a
read_artifact _ = none

abbrev read_strings : Plain → Option (List String)
read_strings (strings_text a) = some a
read_strings _ = none

abbrev read_stamp : Plain → Option ℕ
read_stamp (stamp a) = some a
read_stamp _ = none

abbrev stamp_le : Plain → Plain → Bool
stamp_le (stamp a) (stamp b) = leb a b
stamp_le _ _ = true

-- A text and its reader, when the reader undoes the writer.
module _ {A : Type 0} (write : A → Plain) (read : Plain → Option A)
    (undoes : (a : A) → read (write a) ≡ some a) where
  abbrev json_of : Json Plain A
  json_of = record {
    to_string = λ a. some (write a);
    from_str = read;
    from_str-to_string = λ a doc h. ap read (sym (some_inj.0 h)) ∙ undoes a;
  }

abbrev pub plain : Codecs Plain ℕ ℕ
plain = record {
  tasks = json_of task_text read_task (λ a. refl);
  events = json_of event_text read_event (λ a. refl);
  runs = json_of run_text read_run (λ a. refl);
  artifacts = json_of artifact_text read_artifact (λ a. refl);
  strings = json_of strings_text read_strings (λ a. refl);
  to_rfc3339 = stamp;
  parse_from_rfc3339 = read_stamp;
  parse-to_rfc3339 = λ at. refl;
  doc_le = stamp_le;
}
