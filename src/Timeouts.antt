-- ===== src/Timeouts.antt =====
-- crates/orchd/src/task_timeout.rs: deadlines of tasks, a grace period behind each, and the kill.
pub mod Sweep
pub mod Extend
pub mod Laws
mod Tests
use othala.Base.{
  ℕ, min, Bool, true, false, Option, none, some, List, [], ◌∷◌, ◌++◌, String, string_eq, length,
  unwrap_or, if◌then◌else◌, not, is_some, Result, ok, err, ℤ, pos, negsuc, as_i64, as_u64, add_ℤ,
  leb_ℤ, ltb, ◌^◌,
}
use othala.Base.Assoc.{Assoc, get, insert, remove, contains_key}
use othala.Core.Time.{Chrono}

abbrev pub warn_threshold_secs : ℕ
warn_threshold_secs = 300

pub record TimeoutConfig : Type 0 where
  pub default_timeout_secs : ℕ
  pub max_timeout_secs : ℕ
  pub grace_period_secs : ℕ
  pub check_interval_secs : ℕ
  pub per_state_timeouts : Assoc String ℕ

abbrev pub default_config : TimeoutConfig
default_config = record {
  default_timeout_secs = 3600;
  max_timeout_secs = 86400;
  grace_period_secs = 60;
  check_interval_secs = 30;
  per_state_timeouts = [];
}

pub record TimeoutEntry (T : Type 0) : Type 0 where
  pub task_id : String
  pub started_at : T
  pub deadline : T
  pub state_at_start : String
  pub grace_expires : Option T

pub data TimeoutAction : Type 0 where
  warn : (task_id : String) (remaining_secs : ℕ) → TimeoutAction
  grace_period : (task_id : String) → TimeoutAction
  kill : (task_id : String) → TimeoutAction

pub data TimeoutError : Type 0 where
  task_not_tracked : String → TimeoutError
  exceeds_maximum : ℕ → TimeoutError

pub record TimeoutTracker (T : Type 0) : Type 0 where
  pub entries : Assoc String (TimeoutEntry T)
  pub config : TimeoutConfig

abbrev pub new : {T : Type 0} → TimeoutConfig → TimeoutTracker T
new config = record { entries = []; config = config }

abbrev pub timeout_for_state : TimeoutConfig → String → ℕ
timeout_for_state config state =
    min (unwrap_or (get config.per_state_timeouts state) config.default_timeout_secs)
      config.max_timeout_secs

-- `shift t n` is the source's `t + Duration::seconds(n)`, and `secs_since a b` its
-- `(a - b).num_seconds()`. That a limit of the configuration is so large that `Duration::seconds` or
-- the sum panics is outside the model; for the extension, which a caller chooses, see there.
module _ {T : Type 0} (shift : T → ℤ → T) where
  unfoldable pub start_tracking :
      TimeoutTracker T → String → String → T → TimeoutEntry T × TimeoutTracker T
  start_tracking self task_id state now =
      let entry : TimeoutEntry T = record {
        task_id = task_id;
        started_at = now;
        deadline = shift now (as_i64 (timeout_for_state self.config state));
        state_at_start = state;
        grace_expires = none;
      } in
      (entry, record self { entries = insert self.entries task_id entry })

  unfoldable pub stop_tracking :
      TimeoutTracker T → String → Option (TimeoutEntry T) × TimeoutTracker T
  stop_tracking self task_id =
      (get self.entries task_id, record self { entries = remove self.entries task_id })

  abbrev pub is_tracked : TimeoutTracker T → String → Bool
  is_tracked self task_id = contains_key self.entries task_id

  abbrev pub active_count : TimeoutTracker T → ℕ
  active_count self = length self.entries

  module _ (secs_since : T → T → ℤ) where
    unfoldable pub remaining_secs : TimeoutTracker T → String → T → Option ℤ
    remaining_secs self task_id now = elim (get self.entries task_id) [
      | none ↦ none
      | some entry ↦ some (secs_since (unwrap_or entry.grace_expires entry.deadline) now)
    ]

    module _ ⦃chrono : Chrono T⦄ where
      -- The entry as one round of the loop leaves it, its actions, and whom it is to kill.
      abbrev pub Round : Type 0
      Round = TimeoutEntry T × List TimeoutAction × List String

      abbrev pub check_grace : T → String → TimeoutEntry T → T → Round
      check_grace now task_id entry grace_expires =
          if chrono.le grace_expires now
          then (entry, kill task_id ∷ [], task_id ∷ [])
          else (entry, [], [])

      abbrev pub check_deadline : TimeoutConfig → T → String → TimeoutEntry T → ℤ → Round
      check_deadline config now task_id entry remaining =
          if leb_ℤ remaining (pos 0)
          then (
            record entry { grace_expires = some (shift now (as_i64 config.grace_period_secs)) },
            grace_period task_id ∷ [],
            [],
          )
          else if leb_ℤ remaining (pos warn_threshold_secs)
          then (entry, warn task_id (as_u64 remaining) ∷ [], [])
          else (entry, [], [])

      unfoldable pub check_entry : TimeoutConfig → T → String → TimeoutEntry T → Round
      check_entry config now task_id entry = elim entry.grace_expires [
        | some grace_expires ↦ check_grace now task_id entry grace_expires
        | none ↦ check_deadline config now task_id entry (secs_since entry.deadline now)
      ]

      unfoldable pub check_entries :
          TimeoutConfig
          → T
          → Assoc String (TimeoutEntry T)
          → Assoc String (TimeoutEntry T) × List TimeoutAction × List String
      unfolding check_entry
      check_entries config now [] = ([], [], [])
      check_entries config now ((task_id, entry) ∷ rest) =
          let (entry', actions, to_kill) = check_entry config now task_id entry in
          let (rest', actions', to_kill') = check_entries config now rest in
          ((task_id, entry') ∷ rest', actions ++ actions', to_kill ++ to_kill')

      unfoldable pub remove_all :
          Assoc String (TimeoutEntry T) → List String → Assoc String (TimeoutEntry T)
      remove_all entries [] = entries
      remove_all entries (task_id ∷ rest) = remove_all (remove entries task_id) rest

      unfoldable pub check_timeouts_at :
          TimeoutTracker T → T → List TimeoutAction × TimeoutTracker T
      unfolding check_entries check_entry remove_all
      check_timeouts_at self now =
          let (entries, actions, to_kill) = check_entries self.config now self.entries in
          (actions, record self { entries = remove_all entries to_kill })

-- The number is in the range of `i64`.
abbrev is_i64 : ℤ → Bool
is_i64 (pos n) = ltb n (2 ^ 63)
is_i64 (negsuc n) = ltb n (2 ^ 63)

-- `checked_shift t n` is `t + Duration::seconds(n)` where neither of the two panics. The answer of the
-- extension is none where the source panics: there, and where the sum of seconds is no 64-bit number
-- (it overflows, and without a check of that the duration is out of range).
module _ {T : Type 0} (checked_shift : T → ℤ → Option T) (secs_since : T → T → ℤ) where
  -- The assignment to the deadline.
  abbrev pub with_deadline :
      TimeoutTracker T
      → String
      → TimeoutEntry T
      → Option T
      → Option (Result (TimeoutTracker T) TimeoutError)
  with_deadline self task_id entry none = none
  with_deadline self task_id entry (some deadline) = some (
      ok (record self {
        entries = insert self.entries task_id record entry { deadline = deadline };
      }))

  -- What follows the `let Some(entry) = .. else`.
  abbrev pub extend_found :
      TimeoutTracker T
      → String
      → ℕ
      → Option (TimeoutEntry T)
      → Option (Result (TimeoutTracker T) TimeoutError)
  extend_found self task_id extra_secs none = some (err (task_not_tracked task_id))
  extend_found self task_id extra_secs (some entry) =
      let requested_total_secs =
        add_ℤ (secs_since entry.deadline entry.started_at) (as_i64 extra_secs) in
      if not (is_i64 requested_total_secs)
      then none
      else (if not (leb_ℤ requested_total_secs (as_i64 self.config.max_timeout_secs))
          then some (err (exceeds_maximum (as_u64 requested_total_secs)))
          else with_deadline self task_id entry (checked_shift entry.deadline (as_i64 extra_secs)))

  unfoldable pub extend_deadline :
      TimeoutTracker T → String → ℕ → Option (Result (TimeoutTracker T) TimeoutError)
  extend_deadline self task_id extra_secs =
      extend_found self task_id extra_secs (get self.entries task_id)
