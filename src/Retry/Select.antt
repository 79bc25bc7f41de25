-- ===== src/Retry/Select.antt =====
-- `pick_next_model_with_health` of retry.rs. The early return on an empty list of candidates is the
-- last case of `choose`.
pub mod Candidates
pub mod Facts
use othala.Base.{
  ℕ, Bool, true, false, not, ◌&&◌, Option, some, none, List, [], ◌∷◌, ◌++◌, filter, if◌then◌else◌,
  ◌==◌, contains,
}
use othala.Core.Time.{Chrono}
use othala.Core.Task.{ModelKind, model_eq, Task}
use othala.Retry.{is_usable, preferred_if_usable}
use othala.Retry.Health.{
  HealthState, healthy, degraded, cooldown, ModelHealthTracker, health_state, last_failure_of,
}

module _ {T : Type 0} where
  -- The loop that pushes the other enabled models behind the preferred one.
  unfoldable pub collect : Task T → ModelKind → List ModelKind → List ModelKind → List ModelKind
  collect task just_failed ordered [] = ordered
  collect task just_failed ordered (m ∷ rest) =
      collect task just_failed
        (if is_usable task just_failed m && not (contains ordered m)
          then ordered ++ m ∷ []
          else ordered)
        rest

  unfoldable pub ordered_candidates : Task T → ModelKind → List ModelKind → List ModelKind
  unfolding collect
  ordered_candidates task just_failed enabled =
      collect task just_failed
        (elim (preferred_if_usable task just_failed enabled) [ none ↦ [] | some p ↦ p ∷ [] ])
        enabled

abbrev pub is_healthy : HealthState → Bool
is_healthy healthy = true
is_healthy _ = false

abbrev pub is_degraded : HealthState → Bool
is_degraded degraded = true
is_degraded _ = false

abbrev pub is_cooldown : HealthState → Bool
is_cooldown cooldown = true
is_cooldown _ = false

module _ {T : Type 0} ⦃chrono : Chrono T⦄ where
  open chrono use {le}

  -- `<=` on `Option<DateTime>`: `None` is least.
  abbrev pub opt_le : Option T → Option T → Bool
  opt_le none b = true
  opt_le (some a) none = false
  opt_le (some a) (some b) = le a b

  -- `min_by_key` keeps the first of equal elements.
  unfoldable pub min_from : (ModelKind → Option T) → ModelKind → List ModelKind → ModelKind
  min_from key best [] = best
  min_from key best (m ∷ rest) = min_from key (if opt_le (key best) (key m) then best else m) rest

  abbrev pub min_by_key : (ModelKind → Option T) → List ModelKind → Option ModelKind
  min_by_key key [] = none
  min_by_key key (m ∷ rest) = some (min_from key m rest)

  -- `healthy.first()`, else `degraded.first()`, else the one in cooldown that failed longest ago.
  abbrev pub choose : ModelHealthTracker T → (well worse cold : List ModelKind) → Option ModelKind
  choose tracker (m ∷ rest) worse cold = some m
  choose tracker [] (m ∷ rest) cold = some m
  choose tracker [] [] cold = min_by_key (last_failure_of tracker) cold

  abbrev pub in_state :
      (HealthState → Bool) → ModelHealthTracker T → T → List ModelKind → List ModelKind
  in_state test tracker now = filter (λ m. test (health_state tracker m now))

  unfoldable pub pick_next_model_with_health :
      Task T → ModelKind → List ModelKind → ModelHealthTracker T → T → Option ModelKind
  unfolding ordered_candidates min_from
  pick_next_model_with_health task just_failed enabled tracker now =
      let candidates = ordered_candidates task just_failed enabled in
      choose tracker (in_state is_healthy tracker now candidates)
        (in_state is_degraded tracker now candidates) (in_state is_cooldown tracker now candidates)
