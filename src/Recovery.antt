-- ===== src/Recovery.antt =====
-- crates/orchd/src/sisyphus_recovery.rs: the recovery of stopped tasks, over the classification of
-- their errors by crates/orchd/src/problem_classifier.rs.
--
-- The texts that decisions and summaries carry, and the context that is handed to an agent, are left
-- out: no decision depends on them. That `evaluate` panics, which its wrapper catches, is left out too.
pub mod Classes
pub mod Patterns
pub mod Classifier
pub mod Attempts
pub mod Repeated
mod Tests
use othala.Base.{
  ℕ, ◌+◌, Bool, true, false, not, Option, none, some, List, [], ◌∷◌, ◌++◌, map, filter, String,
  is_some, ltb, leb, if◌then◌else◌, unwrap_or, string_eq,
}
use othala.Base.Assoc.{Assoc, get, insert, remove, contains_key}
use othala.Core.Time.{Chrono}
use othala.Core.Task.{ModelKind, claude}
use othala.Recovery.Classes.{
  ErrorClass, AgentRole, RecoveryAction, class_name, retry_delay_secs, model, is_agent_fixable,
  retry, retry_with_agent, wait_and_retry, escalate_human, stop,
}
use othala.Recovery.Classifier.{
  ProblemClassifier, ClassificationResult, new_classifier, classify, detect_repeated_pattern,
}

pub record RecoveryAttempt (T : Type 0) : Type 0 where
  pub attempt_number : ℕ
  pub agent : String
  pub started_at : T
  pub ended_at : Option T
  pub error_class : String
  pub outcome : String
  pub changes : List String

pub record RecoveryState (T : Type 0) : Type 0 where
  pub task_id : String
  pub sisyphus_attempts : ℕ
  pub max_sisyphus_attempts : ℕ
  pub current_error : Option String
  pub error_class : Option ErrorClass
  pub history : List (RecoveryAttempt T)
  pub started_at : T
  pub next_retry_at : Option T
  pub complete : Bool
  pub succeeded : Bool

pub record SisyphusRecoveryLoop (T : Type 0) : Type 0 where
  pub classifier : ProblemClassifier
  pub recoveries : Assoc String (RecoveryState T)

pub data RecoveryDecision : Type 0 where
  retry_with_sisyphus : RecoveryDecision
  retry_with_role : AgentRole → RecoveryDecision
  wait : (wait_secs : ℕ) → RecoveryDecision
  escalate : RecoveryDecision
  give_up : RecoveryDecision
  success : RecoveryDecision

abbrev pub recovery_to_model : RecoveryDecision → Option ModelKind
recovery_to_model retry_with_sisyphus = some claude
recovery_to_model (retry_with_role role) = some (model role)
recovery_to_model _ = none

unfoldable pub is_recoverable_failure : String → Bool
unfolding classify
is_recoverable_failure reason = is_agent_fixable ((classify new_classifier reason).0).class

module _ {T : Type 0} where
  unfoldable pub new : T → String → RecoveryState T
  new now task_id = record {
    task_id = task_id;
    sisyphus_attempts = 0;
    max_sisyphus_attempts = 2;
    current_error = none;
    error_class = none;
    history = [];
    started_at = now;
    next_retry_at = none;
    complete = false;
    succeeded = false;
  }

  abbrev pub should_escalate : RecoveryState T → Bool
  should_escalate self = leb self.max_sisyphus_attempts self.sisyphus_attempts

  abbrev pub ready_to_retry : ⦃chrono : Chrono T⦄ → RecoveryState T → T → Bool
  ready_to_retry ⦃chrono⦄ self now = is_due self.next_retry_at
    where
      is_due : Option T → Bool
      is_due none = true
      is_due (some time) = chrono.le time now

  unfoldable pub record_sisyphus_attempt : RecoveryState T → ErrorClass → T → RecoveryState T
  record_sisyphus_attempt self class now = record self {
    sisyphus_attempts = self.sisyphus_attempts + 1;
    history =
        self.history
        ++ record {
          attempt_number = self.sisyphus_attempts + 1;
          agent = "sisyphus";
          started_at = now;
          ended_at = none;
          error_class = class_name class;
          outcome = "in_progress";
          changes = [];
        }
          ∷ [];
  }

  -- `history.last_mut()`
  unfoldable pub end_last :
      List (RecoveryAttempt T) → T → String → List String → List (RecoveryAttempt T)
  end_last [] now outcome changes = []
  end_last (attempt ∷ []) now outcome changes =
      record attempt { ended_at = some now; outcome = outcome; changes = changes } ∷ []
  end_last (attempt ∷ next ∷ rest) now outcome changes =
      attempt ∷ end_last (next ∷ rest) now outcome changes

  unfoldable pub complete_attempt : RecoveryState T → Bool → List String → T → RecoveryState T
  unfolding end_last
  complete_attempt self good changes now =
      let ended = record self {
        history = end_last self.history now (if good then "success" else "failed") changes;
      } in
      if good then record ended { complete = true; succeeded = true } else ended

  -- What `evaluate` does to the recovery of the task once the error is classified.
  abbrev pub noted : RecoveryState T → String → ErrorClass → RecoveryState T
  noted recovery failure_reason class = record recovery {
    current_error = some failure_reason;
    error_class = some class;
  }

  abbrev pub completed : RecoveryState T → RecoveryState T
  completed recovery = record recovery { complete = true }

  -- The part behind the `match` on the action.
  abbrev pub try_sisyphus :
      RecoveryState T → ErrorClass → Bool → T → RecoveryDecision × RecoveryState T
  try_sisyphus recovery class has_repeated_pattern now =
      if should_escalate recovery
      then (escalate, completed recovery)
      else (if has_repeated_pattern
          then (escalate, completed recovery)
          else (retry_with_sisyphus, record_sisyphus_attempt recovery class now))

  abbrev pub decide :
      ⦃chrono : Chrono T⦄
      → RecoveryState T
      → RecoveryAction
      → ErrorClass
      → Bool
      → T
      → RecoveryDecision × RecoveryState T
  decide recovery escalate_human class has_repeated_pattern now = (escalate, completed recovery)
  decide ⦃chrono⦄ recovery wait_and_retry class has_repeated_pattern now =
      let wait_secs = unwrap_or (retry_delay_secs class) 60 in
      (wait wait_secs, record recovery { next_retry_at = some (chrono.add_secs now wait_secs) })
  decide recovery stop class has_repeated_pattern now = (give_up, completed recovery)
  decide recovery retry_with_agent class has_repeated_pattern now =
      try_sisyphus recovery class has_repeated_pattern now
  decide recovery retry class has_repeated_pattern now =
      try_sisyphus recovery class has_repeated_pattern now

  -- The recovery of a task, a new one if there is none.
  abbrev pub recovery_of : SisyphusRecoveryLoop T → String → T → RecoveryState T
  recovery_of self task_id now = unwrap_or (get self.recoveries task_id) (new now task_id)

  unfoldable pub evaluate :
      ⦃chrono : Chrono T⦄
      → SisyphusRecoveryLoop T
      → String
      → String
      → T
      → RecoveryDecision × SisyphusRecoveryLoop T
  unfolding classify detect_repeated_pattern record_sisyphus_attempt new
  evaluate self task_id failure_reason now =
      let (classification, classifier) = classify self.classifier failure_reason in
      let has_repeated_pattern = is_some (detect_repeated_pattern classifier 3) in
      let recovery = noted (recovery_of self task_id now) failure_reason classification.class in
      let (decision, after) =
        decide recovery classification.action classification.class has_repeated_pattern now in
      (
        decision,
        record { classifier = classifier; recoveries = insert self.recoveries task_id after },
      )

  abbrev pub with_recovery :
      SisyphusRecoveryLoop T → String → Option (RecoveryState T) → SisyphusRecoveryLoop T
  with_recovery self task_id none = self
  with_recovery self task_id (some recovery) = record self {
    recoveries = insert self.recoveries task_id recovery;
  }

  abbrev pub ended : Option (RecoveryState T) → Bool → List String → T → Option (RecoveryState T)
  ended none good changes now = none
  ended (some recovery) good changes now = some (complete_attempt recovery good changes now)

  unfoldable pub mark_success :
      SisyphusRecoveryLoop T → String → List String → T → SisyphusRecoveryLoop T
  unfolding complete_attempt
  mark_success self task_id changes now =
      with_recovery self task_id (ended (get self.recoveries task_id) true changes now)

  unfoldable pub mark_failure : SisyphusRecoveryLoop T → String → T → SisyphusRecoveryLoop T
  unfolding complete_attempt
  mark_failure self task_id now =
      with_recovery self task_id (ended (get self.recoveries task_id) false [] now)

  unfoldable pub cleanup : SisyphusRecoveryLoop T → String → SisyphusRecoveryLoop T
  cleanup self task_id = record self { recoveries = remove self.recoveries task_id }

  unfoldable pub active_recoveries : SisyphusRecoveryLoop T → List (RecoveryState T)
  active_recoveries self = filter (λ r. not r.complete) (map (λ entry. entry.1) self.recoveries)
