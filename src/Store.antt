-- ===== src/Store.antt =====
-- crates/orchd/src/persistence.rs: the tables that `migrate` creates, and what can go wrong.
--
-- The SQL statements stand in the source, and are modelled by what SQL says that they do to the
-- tables. What the packages around them do is a parameter: the texts that serde_json and chrono
-- write into the columns (the type `Doc`), and which statements the database refuses.
pub mod Sql
pub mod Tasks
pub mod Runs
pub mod Events
pub mod Sessions
pub mod Plain
pub mod Sample
mod Tests
use othala.Base.{ℕ, ℤ, ◌≡◌, Bool, String, Option, some, List}
use othala.Core.Task.{Task, TaskId}
use othala.Core.Event.{Event, TaskRunRecord, ArtifactRecord}

-- The `CREATE TABLE` statements, with the columns that `ALTER TABLE` adds.
pub record TaskRow (Doc : Type 0) : Type 0 where
  pub task_id : String
  pub repo_id : String
  pub state_tag : String
  pub priority : String
  pub labels_json : Doc
  pub payload_json : Doc
  pub created_at : Doc
  pub updated_at : Doc

pub record EventRow (Doc : Type 0) : Type 0 where
  pub event_id : String
  pub task_id : Option String
  pub repo_id : Option String
  pub at : Doc
  pub kind_tag : String
  pub payload_json : Doc

pub record RunRow (Doc F : Type 0) : Type 0 where
  pub run_id : String
  pub task_id : String
  pub model : String
  pub started_at : Doc
  pub finished_at : Option Doc
  pub stop_reason : Option String
  pub exit_code : Option ℤ
  pub estimated_tokens : Option ℕ
  pub duration_secs : Option F
  pub payload_json : Doc

pub record ArtifactRow (Doc : Type 0) : Type 0 where
  pub artifact_id : String
  pub task_id : String
  pub kind : String
  pub path : String
  pub created_at : Doc
  pub payload_json : Doc

pub record SessionRow (Doc : Type 0) : Type 0 where
  pub session_id : String
  pub title : String
  pub created_at : Doc
  pub updated_at : Doc
  pub task_ids_json : Doc
  pub parent_session_id : Option String
  pub status : String

pub record ArchivedRow (Doc : Type 0) : Type 0 where
  pub task_id : String
  pub repo_id : String
  pub state_tag : String
  pub payload_json : Doc
  pub created_at : Doc
  pub archived_at : Doc

pub record Tables (Doc F : Type 0) : Type 0 where
  pub tasks : List (TaskRow Doc)
  pub events : List (EventRow Doc)
  pub runs : List (RunRow Doc F)
  pub artifacts : List (ArtifactRow Doc)
  pub sessions : List (SessionRow Doc)
  pub archived_tasks : List (ArchivedRow Doc)

pub data PersistenceError (Doc : Type 0) : Type 0 where
  sql json : PersistenceError Doc
  timestamp_parse : (value : Doc) → PersistenceError Doc
  task_not_found : (task_id : String) → PersistenceError Doc
  session_not_found : (session_id : String) → PersistenceError Doc

-- The connection: the tables, how many statements it has run, and which of them, by that count,
-- the database refuses, be it busy, full or unreadable.
pub record Connection (Doc F : Type 0) : Type 0 where
  pub tables : Tables Doc F
  pub statements : ℕ
  pub refuses : ℕ → Bool

-- serde_json on one type. What it writes it reads back.
pub record Json (Doc A : Type 0) : Type 0 where
  pub to_string : A → Option Doc
  pub from_str : Doc → Option A
  pub from_str-to_string : (a : A) (doc : Doc) → to_string a ≡ some doc → from_str doc ≡ some a

-- The packages that write and read the columns. `doc_le` is the order of the texts, in which
-- `ORDER BY` and `WHERE` compare them.
pub record Codecs (Doc T F : Type 0) : Type 0 where
  pub tasks : Json Doc (Task T)
  pub events : Json Doc (Event T)
  pub runs : Json Doc (TaskRunRecord T F)
  pub artifacts : Json Doc (ArtifactRecord T)
  pub strings : Json Doc (List String)
  pub to_rfc3339 : T → Doc
  pub parse_from_rfc3339 : Doc → Option T
  pub parse-to_rfc3339 : (at : T) → parse_from_rfc3339 (to_rfc3339 at) ≡ some at
  pub doc_le : Doc → Doc → Bool
