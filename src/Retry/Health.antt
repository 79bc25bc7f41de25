-- ===== src/Retry/Health.antt =====
-- `ModelHealthTracker` of retry.rs: consecutive failures put a model into cooldown.
use othala.Base.{
  ℕ, ◌+◌, ◌-◌, ◌^◌, min, max, Bool, true, not, Option, some, none, [], ltb, leb, if◌then◌else◌, ℤ,
  at_least_one,
}
use othala.Base.Assoc.{Assoc, get, insert}
use othala.Core.Time.{Chrono}
use othala.Core.Task.{ModelKind, model_eq}

abbrev pub u32_max : ℕ
u32_max = 2 ^ 32 - 1

abbrev pub default_failure_threshold : ℕ
default_failure_threshold = 3

abbrev pub default_cooldown_secs : ℕ
default_cooldown_secs = 60

pub data HealthState : Type 0 where
  healthy degraded cooldown : HealthState

pub record ModelHealth (T : Type 0) : Type 0 where
  pub consecutive_failures : ℕ
  pub last_failure : Option T
  pub cooldown_until : Option T

pub record ModelHealthTracker (T : Type 0) : Type 0 where
  pub state : Assoc ModelKind (ModelHealth T)
  pub failure_threshold : ℕ
  pub cooldown_duration : ℕ

module _ {T : Type 0} where
  abbrev pub new_health : ModelHealth T
  new_health = record { consecutive_failures = 0; last_failure = none; cooldown_until = none }

  abbrev pub new : ModelHealthTracker T
  new = record {
    state = [];
    failure_threshold = default_failure_threshold;
    cooldown_duration = default_cooldown_secs;
  }

  unfoldable pub with_config : ℕ → ℤ → ModelHealthTracker T
  with_config failure_threshold cooldown_secs = record {
    state = [];
    failure_threshold = max failure_threshold 1;
    cooldown_duration = at_least_one cooldown_secs;
  }

  -- `entry(model).or_insert_with(ModelHealth::new)`
  unfoldable pub entry : ModelHealthTracker T → ModelKind → ModelHealth T
  entry self model = elim (get self.state model) [ none ↦ new_health | some h ↦ h ]

  unfoldable pub after_success : ModelHealth T → ModelHealth T
  after_success health = record health { consecutive_failures = 0; cooldown_until = none }

  unfoldable pub record_success : ModelHealthTracker T → ModelKind → ModelHealthTracker T
  record_success self model = record self {
    state = insert self.state model (after_success (entry self model));
  }

  abbrev pub last_failure_of : ModelHealthTracker T → ModelKind → Option T
  last_failure_of self model = elim (get self.state model) [ none ↦ none | some h ↦ h.last_failure ]

module _ {T : Type 0} ⦃chrono : Chrono T⦄ where
  open chrono use {le, add_secs}

  -- The addition to the counter saturates.
  unfoldable pub after_failure : ModelHealthTracker T → ModelHealth T → T → ModelHealth T
  after_failure self health now =
      let failures = min (health.consecutive_failures + 1) u32_max in
      record {
        consecutive_failures = failures;
        last_failure = some now;
        cooldown_until =
            if leb self.failure_threshold failures
            then some (add_secs now self.cooldown_duration)
            else health.cooldown_until;
      }

  unfoldable pub record_failure_at : ModelHealthTracker T → ModelKind → T → ModelHealthTracker T
  record_failure_at self model now = record self {
    state = insert self.state model (after_failure self (entry self model) now);
  }

  -- `is_none_or(|until| now >= until)`
  abbrev pub is_over : Option T → T → Bool
  is_over none now = true
  is_over (some until) now = le until now

  unfoldable pub is_available : ModelHealthTracker T → ModelKind → T → Bool
  is_available self model now = elim (get self.state model) [
    | none ↦ true
    | some h ↦ is_over h.cooldown_until now
  ]

  abbrev pub state_of : ModelHealth T → T → HealthState
  state_of h now =
      if not (is_over h.cooldown_until now)
      then cooldown
      else if ltb 0 h.consecutive_failures
      then degraded
      else healthy

  unfoldable pub health_state : ModelHealthTracker T → ModelKind → T → HealthState
  health_state self model now = elim (get self.state model) [
    | none ↦ healthy
    | some h ↦ state_of h now
  ]
