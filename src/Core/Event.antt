-- ===== src/Core/Event.antt =====
-- crates/orch-core/src/events.rs, the run records of crates/orchd/src/types.rs, and the tags under
-- which crates/orchd/src/persistence.rs stores the events.
use othala.Base.{ℕ, ℤ, Bool, String, Option, List}
use othala.Core.Task.{TaskId, RepoId, ModelKind, SubmitMode}

abbrev pub EventId : Type 0
EventId = String

pub data EventKind : Type 0 where
  task_created : EventKind
  task_state_changed : (from to : String) → EventKind
  parent_head_updated : (parent_task_id : TaskId) → EventKind
  restack_started restack_completed restack_conflict verify_started : EventKind
  verify_completed : (success : Bool) → EventKind
  ready_reached : EventKind
  submit_started : (mode : SubmitMode) → EventKind
  submit_completed : EventKind
  needs_human : (reason : String) → EventKind
  error : (code message : String) → EventKind
  retry_scheduled : (attempt : ℕ) (model reason : String) → EventKind
  agent_spawned : (model : String) → EventKind
  agent_completed : (model : String) (success : Bool) (duration_secs : ℕ) → EventKind
  cancellation_requested : (reason : String) → EventKind
  model_fallback : (from_model to_model reason : String) → EventKind
  context_regen_started : EventKind
  context_regen_completed : (success : Bool) → EventKind
  config_reloaded : (changes : String) → EventKind
  task_failed : (reason : String) (is_final : Bool) → EventKind
  test_spec_validated : (passed : Bool) (details : String) → EventKind
  orchestrator_decomposed : (sub_task_ids : List String) → EventKind
  qa_started : (qa_type : String) → EventKind
  qa_completed : (passed failed total : ℕ) → EventKind
  qa_failed : (failures : List String) → EventKind
  budget_exceeded : EventKind
  task_respawned : (previous_reason : String) → EventKind
  graphite_sync_started : EventKind
  graphite_sync_completed : (success : Bool) → EventKind

pub record Event (T : Type 0) : Type 0 where
  pub id : EventId
  pub task_id : Option TaskId
  pub repo_id : Option RepoId
  pub at : T
  pub kind : EventKind

unfoldable pub event_kind_tag : EventKind → String
event_kind_tag task_created = "task_created"
event_kind_tag (task_state_changed _ _) = "task_state_changed"
event_kind_tag (parent_head_updated _) = "parent_head_updated"
event_kind_tag restack_started = "restack_started"
event_kind_tag restack_completed = "restack_completed"
event_kind_tag restack_conflict = "restack_conflict"
event_kind_tag verify_started = "verify_started"
event_kind_tag (verify_completed _) = "verify_completed"
event_kind_tag ready_reached = "ready_reached"
event_kind_tag (submit_started _) = "submit_started"
event_kind_tag submit_completed = "submit_completed"
event_kind_tag (needs_human _) = "needs_human"
event_kind_tag (error _ _) = "error"
event_kind_tag (retry_scheduled _ _ _) = "retry_scheduled"
event_kind_tag (agent_spawned _) = "agent_spawned"
event_kind_tag (agent_completed _ _ _) = "agent_completed"
event_kind_tag (cancellation_requested _) = "cancellation_requested"
event_kind_tag (model_fallback _ _ _) = "model_fallback"
event_kind_tag context_regen_started = "context_regen_started"
event_kind_tag (context_regen_completed _) = "context_regen_completed"
event_kind_tag (config_reloaded _) = "config_reloaded"
event_kind_tag (task_failed _ _) = "task_failed"
event_kind_tag (test_spec_validated _ _) = "test_spec_validated"
event_kind_tag (orchestrator_decomposed _) = "orchestrator_decomposed"
event_kind_tag (qa_started _) = "qa_started"
event_kind_tag (qa_completed _ _ _) = "qa_completed"
event_kind_tag (qa_failed _) = "qa_failed"
event_kind_tag budget_exceeded = "budget_exceeded"
event_kind_tag (task_respawned _) = "task_respawned"
event_kind_tag graphite_sync_started = "graphite_sync_started"
event_kind_tag (graphite_sync_completed _) = "graphite_sync_completed"

-- `F` is the type of the 64-bit floats, which are only stored and compared.
pub record TaskRunRecord (T F : Type 0) : Type 0 where
  pub run_id : String
  pub task_id : TaskId
  pub repo_id : RepoId
  pub model : ModelKind
  pub started_at : T
  pub finished_at : Option T
  pub stop_reason : Option String
  pub exit_code : Option ℤ
  pub estimated_tokens : Option ℕ
  pub duration_secs : Option F

pub record ArtifactRecord (T : Type 0) : Type 0 where
  pub artifact_id : String
  pub task_id : TaskId
  pub kind : String
  pub path : String
  pub created_at : T
  pub metadata_json : Option String
