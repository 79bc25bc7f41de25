-- ===== src/Core/Task.antt =====
-- crates/orch-core/src/types.rs: models, priorities, submit modes and the task record.
use othala.Base.{
  ℕ, ◌≡◌, ◌↔◌, Bool, true, false, String, Option, none, some, List, [], ◌∷◌, ◌++◌, arith, nat_beq,
  PartialEq, ◌==◌, string_eq, all, find,
}
use othala.Core.State.{
  TaskState, VerifyStatus, chatting, ready, submitting, restacking, awaiting_merge, merged, not_run,
  state_eq,
}

pub data TaskPriority : Type 0 where
  low normal high critical : TaskPriority

-- The discriminant, by which the derived `Ord` compares.
abbrev pub priority_index : TaskPriority → ℕ
priority_index low = 0
priority_index normal = 1
priority_index high = 2
priority_index critical = 3

pub data ModelKind : Type 0 where
  claude codex gemini : ModelKind

abbrev pub model_index : ModelKind → ℕ
model_index claude = 0
model_index codex = 1
model_index gemini = 2

abbrev pub model_beq : ModelKind → ModelKind → Bool
model_beq a b = nat_beq (model_index a) (model_index b)

pub model_beq_iff : (a b : ModelKind) → (model_beq a b ≡ true) ↔ (a ≡ b)
model_beq_iff a b = ground arith

instance abbrev pub model_eq : PartialEq ModelKind
model_eq = record { same = model_beq; same_iff = model_beq_iff }

-- `as_str`
unfoldable pub model_str : ModelKind → String
model_str claude = "claude"
model_str codex = "codex"
model_str gemini = "gemini"

pub data SubmitMode : Type 0 where
  single stack : SubmitMode

abbrev pub is_stack : SubmitMode → Bool
is_stack stack = true
is_stack single = false

pub data TaskType : Type 0 where
  implement test_spec_write test_validate orchestrate : TaskType

-- The newtypes over `String`.
abbrev pub TaskId : Type 0
TaskId = String

abbrev pub RepoId : Type 0
RepoId = String

abbrev pub FilePath : Type 0
FilePath = String

pub record PullRequestRef : Type 0 where
  pub number : ℕ
  pub url : String
  pub draft : Bool

pub record Task (T : Type 0) : Type 0 where
  pub id : TaskId
  pub repo_id : RepoId
  pub title : String
  pub state : TaskState
  pub preferred_model : Option ModelKind
  pub priority : TaskPriority
  pub depends_on : List TaskId
  pub submit_mode : SubmitMode
  pub labels : List String
  pub branch_name : Option String
  pub worktree_path : FilePath
  pub pr : Option PullRequestRef
  pub verify_status : VerifyStatus
  pub created_at : T
  pub updated_at : T
  pub retry_count : ℕ
  pub max_retries : ℕ
  pub failed_models : List ModelKind
  pub last_failure_reason : Option String
  pub task_type : TaskType
  pub test_spec_path : Option FilePath
  pub parent_task_id : Option TaskId

abbrev pub default_max_retries : ℕ
default_max_retries = 3

module _ {T : Type 0} where
  -- `Task::new`; the instant is what `Utc::now()` answers.
  unfoldable pub new : T → TaskId → RepoId → String → FilePath → Task T
  new now id repo_id title worktree_path = record {
    id = id;
    repo_id = repo_id;
    title = title;
    state = chatting;
    preferred_model = none;
    priority = normal;
    depends_on = [];
    submit_mode = single;
    labels = [];
    branch_name = none;
    worktree_path = worktree_path;
    pr = none;
    verify_status = not_run;
    created_at = now;
    updated_at = now;
    retry_count = 0;
    max_retries = default_max_retries;
    failed_models = [];
    last_failure_reason = none;
    task_type = implement;
    test_spec_path = none;
    parent_task_id = none;
  }

  unfoldable pub with_dependency : Task T → TaskId → Task T
  with_dependency t dep = record t { depends_on = t.depends_on ++ dep ∷ [] }

  unfoldable pub with_model : Task T → ModelKind → Task T
  with_model t model = record t { preferred_model = some model }

  -- The setters, which do not ask the state machine. The instant is what `Utc::now()` answers.
  abbrev set_state : Task T → TaskState → T → Task T
  set_state t state now = record t { state = state; updated_at = now }

  unfoldable pub mark_ready : Task T → T → Task T
  mark_ready t now = set_state t ready now

  unfoldable pub mark_submitting : Task T → T → Task T
  mark_submitting t now = set_state t submitting now

  unfoldable pub mark_restacking : Task T → T → Task T
  mark_restacking t now = set_state t restacking now

  unfoldable pub mark_submitted : Task T → String → ℕ → T → Task T
  mark_submitted t pr_url pr_number now = record (set_state t awaiting_merge now) {
    pr = some record { number = pr_number; url = pr_url; draft = false };
  }

  unfoldable pub mark_merged : Task T → T → Task T
  mark_merged t now = set_state t merged now

  abbrev state_is_merged : Option (Task T) → Bool
  state_is_merged none = false
  state_is_merged (some t) = t.state == merged

  unfoldable pub dependencies_resolved : Task T → List (Task T) → Bool
  dependencies_resolved self tasks =
      all (λ dep_id. state_is_merged (find (λ t. t.id == dep_id) tasks)) self.depends_on
