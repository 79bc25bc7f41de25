-- ===== src/Delegation.antt =====
-- crates/orchd/src/delegation.rs: a task that is split into subtasks, and the tracker that hands
-- them out.
pub mod Runnable
pub mod Once
pub mod Waves
mod Tests
use othala.Base.{
  ℕ, zero, suc, ◌+◌, Bool, true, false, ◌&&◌, ◌||◌, not, Option, none, some, List, [], ◌∷◌, ◌++◌,
  all, any, String, string_eq, index_eq, length, ltb, leb, if◌then◌else◌, is_some, unwrap_or,
}
use othala.Base.Assoc.{Assoc, get, insert, contains_key}

pub data DelegationStrategy : Type 0 where
  sequential parallel conditional : DelegationStrategy

pub record SubTaskSpec : Type 0 where
  pub title : String
  pub description : String
  pub model : Option String
  pub priority : Option String
  pub depends_on : List String
  pub files : List String
  pub verify_command : Option String

pub record DelegationPlan (T : Type 0) : Type 0 where
  pub parent_task_id : String
  pub strategy : DelegationStrategy
  pub subtasks : List SubTaskSpec
  pub created_at : T
  pub max_parallel : ℕ
  pub fail_fast : Bool
  pub timeout_secs : Option ℕ

pub data SubTaskStatus : Type 0 where
  pending running completed : SubTaskStatus
  failed : String → SubTaskStatus
  skipped : SubTaskStatus

abbrev pub is_pending : SubTaskStatus → Bool
is_pending pending = true
is_pending _ = false

abbrev pub is_completed : SubTaskStatus → Bool
is_completed completed = true
is_completed _ = false

abbrev pub has_failed : SubTaskStatus → Bool
has_failed (failed reason) = true
has_failed _ = false

-- `!matches!(status, Pending | Running)`
abbrev pub is_settled : SubTaskStatus → Bool
is_settled pending = false
is_settled running = false
is_settled _ = true

pub record DelegationTracker (T : Type 0) : Type 0 where
  pub plan : DelegationPlan T
  pub statuses : Assoc ℕ SubTaskStatus
  pub task_id_mapping : Assoc ℕ String
  pub started_at : Option T
  pub completed_at : Option T

-- `0..n`, from `start` on.
abbrev pub range : ℕ → ℕ → List ℕ
range start zero = []
range start (suc n) = start ∷ range (suc start) n

-- The loop of `DelegationTracker::new`.
unfoldable pub all_pending : List ℕ → Assoc ℕ SubTaskStatus → Assoc ℕ SubTaskStatus
all_pending [] statuses = statuses
all_pending (idx ∷ rest) statuses = all_pending rest (insert statuses idx pending)

-- `title_to_idx`: of two subtasks with one title, the later one.
unfoldable pub index_titles : ℕ → List SubTaskSpec → Assoc String ℕ → Assoc String ℕ
index_titles idx [] titles = titles
index_titles idx (subtask ∷ rest) titles =
    index_titles (suc idx) rest (insert titles subtask.title idx)

-- `is_some_and(|dep_status| matches!(dep_status, Completed))`
abbrev pub is_met : Option SubTaskStatus → Bool
is_met none = false
is_met (some dep_status) = is_completed dep_status

-- The closure of `deps_met`, for what a title stands for.
abbrev pub dep_met : Assoc ℕ SubTaskStatus → Option ℕ → Bool
dep_met statuses none = false
dep_met statuses (some dep_idx) = is_met (get statuses dep_idx)

module _ {T : Type 0} where
  -- `DelegationPlan::new`; the instant is what `Utc::now()` answers.
  unfoldable pub new_plan : T → String → DelegationPlan T
  new_plan now parent_id = record {
    parent_task_id = parent_id;
    strategy = sequential;
    subtasks = [];
    created_at = now;
    max_parallel = 1;
    fail_fast = true;
    timeout_secs = none;
  }

  unfoldable pub add_subtask : DelegationPlan T → SubTaskSpec → DelegationPlan T
  add_subtask self spec = record self { subtasks = self.subtasks ++ spec ∷ [] }

  unfoldable pub new : DelegationPlan T → DelegationTracker T
  unfolding all_pending
  new plan = record {
    plan = plan;
    statuses = all_pending (range 0 (length plan.subtasks)) [];
    task_id_mapping = [];
    started_at = none;
    completed_at = none;
  }

  abbrev pub status_of : DelegationTracker T → ℕ → SubTaskStatus
  status_of self idx = unwrap_or (get self.statuses idx) pending

  abbrev pub is_complete : DelegationTracker T → Bool
  is_complete self =
      all (λ idx. is_settled (status_of self idx)) (range 0 (length self.plan.subtasks))

  abbrev pub is_failed : DelegationTracker T → Bool
  is_failed self = any (λ entry. has_failed entry.1) self.statuses

  unfoldable pub start_subtask : DelegationTracker T → ℕ → String → T → DelegationTracker T
  start_subtask self idx task_id now =
      if leb (length self.plan.subtasks) idx then self else record self {
        started_at = if is_some self.started_at then self.started_at else some now;
        statuses = insert self.statuses idx running;
        task_id_mapping = insert self.task_id_mapping idx task_id;
      }

  -- What `complete_subtask`, `fail_subtask` and `skip_subtask` share: the status, and the instant of
  -- completion if nothing is left.
  abbrev pub settle : DelegationTracker T → ℕ → SubTaskStatus → T → DelegationTracker T
  settle self idx status now =
      if leb (length self.plan.subtasks) idx
      then self
      else (let settled = record self { statuses = insert self.statuses idx status } in
          if is_complete settled then record settled { completed_at = some now } else settled)

  unfoldable pub complete_subtask : DelegationTracker T → ℕ → T → DelegationTracker T
  complete_subtask self idx now = settle self idx completed now

  unfoldable pub fail_subtask : DelegationTracker T → ℕ → String → T → DelegationTracker T
  fail_subtask self idx reason now = settle self idx (failed reason) now

  unfoldable pub skip_subtask : DelegationTracker T → ℕ → T → DelegationTracker T
  skip_subtask self idx now = settle self idx skipped now

  abbrev pub titles_of : DelegationTracker T → Assoc String ℕ
  titles_of self = index_titles 0 self.plan.subtasks []

  abbrev pub deps_met : DelegationTracker T → Assoc String ℕ → SubTaskSpec → Bool
  deps_met self titles subtask =
      all (λ dep. dep_met self.statuses (get titles dep)) subtask.depends_on

  -- The body of the loop: its two `continue`s and its last test.
  abbrev pub is_runnable : DelegationTracker T → Assoc String ℕ → ℕ → SubTaskSpec → Bool
  is_runnable self titles idx subtask =
      is_pending (status_of self idx)
      && not (contains_key self.task_id_mapping idx)
      && deps_met self titles subtask

  unfoldable pub runnable_from :
      DelegationTracker T → Assoc String ℕ → ℕ → List SubTaskSpec → List ℕ
  runnable_from self titles idx [] = []
  runnable_from self titles idx (subtask ∷ rest) =
      let later = runnable_from self titles (suc idx) rest in
      if is_runnable self titles idx subtask then idx ∷ later else later

  unfoldable pub next_runnable : DelegationTracker T → List ℕ
  unfolding runnable_from index_titles
  next_runnable self =
      if self.plan.fail_fast && is_failed self
      then []
      else runnable_from self (titles_of self) 0 self.plan.subtasks
