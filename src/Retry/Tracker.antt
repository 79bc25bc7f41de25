-- ===== src/Retry/Tracker.antt =====
-- The health tracker as a circuit breaker.
use othala.Base.{
  ℕ, suc, ◌+◌, ◌≤◌, ◌<◌, min, ◌≡◌, refl, ◌∙◌, ◌↔◌, false, ◌||◌, some, none, List, [], ◌∷◌, ◌++◌,
  arith, ltb, leb, ==_refl, ◌==◌, length, if◌then◌else◌,
}
use othala.Base.Assoc.{insert, get-insert}
use othala.Core.Time.{Chrono}
use othala.Core.Task.{ModelKind, model_eq}
use othala.Retry.Health.{
  ModelHealth, ModelHealthTracker, healthy, cooldown, u32_max, entry, after_success, record_success,
  after_failure, record_failure_at, is_over, is_available, health_state,
}

module _ {T : Type 0} ⦃chrono : Chrono T⦄ where
  -- A model is in cooldown exactly when it is not available, at every instant.
  pub cooldown_iff_unavailable :
      (self : ModelHealthTracker T) (m : ModelKind) (now : T)
      → (health_state self m now ≡ cooldown) ↔ (is_available self m now ≡ false)
  unfolding health_state is_available
  cooldown_iff_unavailable self m now = ground arith

  -- A success makes the model healthy at every instant, whatever failed before, and leaves the
  -- state of every other model as it was.
  pub health_state-record_success :
      (self : ModelHealthTracker T) (m other : ModelKind) (now : T)
      → health_state (record_success self m) other now
        ≡ (if m == other then healthy else health_state self other now)
  unfolding health_state record_success after_success
  health_state-record_success self m other now =
      ground (arith, get-insert self.state m other (after_success (entry self m)))

  -- The failures of one model, at a sequence of instants.
  unfoldable pub record_failures : ModelHealthTracker T → ModelKind → List T → ModelHealthTracker T
  record_failures self m [] = self
  record_failures self m (t ∷ ts) = record_failures (record_failure_at self m t) m ts

  entry-insert :
      (self : ModelHealthTracker T) (m : ModelKind) (h : ModelHealth T)
      → entry (record self { state = insert self.state m h }) m ≡ h
  unfolding entry
  entry-insert self m h = ground (arith, get-insert self.state m m h, ==_refl m)

  record RecordFailureAtFacts (self : ModelHealthTracker T) (m : ModelKind) (t : T) : Type 0 where
    entered : entry (record_failure_at self m t) m ≡ after_failure self (entry self m) t
    threshold : (record_failure_at self m t).failure_threshold ≡ self.failure_threshold
    duration : (record_failure_at self m t).cooldown_duration ≡ self.cooldown_duration

  record_failure_at_lem :
      (self : ModelHealthTracker T) (m : ModelKind) (t : T) → RecordFailureAtFacts self m t
  unfolding record_failure_at
  record_failure_at_lem self m t = record {
    entered = entry-insert self m (after_failure self (entry self m) t);
    threshold = refl;
    duration = refl;
  }

  -- Below the threshold no cooldown is set.
  abbrev IsCalm : ℕ → ModelHealth T → Type 0
  IsCalm threshold h = h.consecutive_failures < threshold → h.cooldown_until ≡ none

  after_failure-IsCalm :
      (self : ModelHealthTracker T) (h : ModelHealth T) (t : T)
      → self.failure_threshold ≤ u32_max
      → IsCalm self.failure_threshold h
      → IsCalm self.failure_threshold (after_failure self h t)
  unfolding after_failure
  after_failure-IsCalm self h t small calm below = ground (arith, calm)

  after_failure-count :
      (self : ModelHealthTracker T) (h : ModelHealth T) (t : T)
      → (after_failure self h t).consecutive_failures ≡ min (h.consecutive_failures + 1) u32_max
  unfolding after_failure
  after_failure-count self h t = refl

  -- The entry after failures at `ts`, and then one at `t`.
  entry-record_failures :
      (self : ModelHealthTracker T) (m : ModelKind) (ts : List T) (t : T)
      → self.failure_threshold ≤ u32_max
      → IsCalm self.failure_threshold (entry self m)
      → let failures = min ((entry self m).consecutive_failures + suc (length ts)) u32_max in
        (entry (record_failures self m (ts ++ t ∷ [])) m).cooldown_until ≡ (
          if leb self.failure_threshold failures
          then some (chrono.add_secs t self.cooldown_duration)
          else none)
  unfolding record_failures
  entry-record_failures self m [] t small calm =
      rw ((record_failure_at_lem self m t).entered) (unfold after_failure in ground (arith, calm))
  entry-record_failures self m (t' ∷ ts) t small calm =
      let first = record_failure_at self m t' in
      let facts = record_failure_at_lem self m t' in
      let still : IsCalm first.failure_threshold (entry first m) =
        rw (facts.entered, facts.threshold)
          (after_failure-IsCalm self (entry self m) t' small calm) in
      let rest = entry-record_failures first m ts t (rw facts.threshold small) still in
      ground (arith, rest, facts, after_failure-count self (entry self m) t')

  is_available_entry :
      (self : ModelHealthTracker T) (m : ModelKind) (now : T)
      → is_available self m now ≡ is_over (entry self m).cooldown_until now
  unfolding is_available entry
  is_available_entry self m now = ground arith

  -- The circuit breaker, for a threshold that a counter of 32 bits can reach: after a success and
  -- then a run of failures, the last of them at `t`, a model is available exactly if the run is
  -- shorter than the threshold or the cooldown that started at `t` is over.
  pub is_available-record_failures :
      (self : ModelHealthTracker T) (m : ModelKind) (ts : List T) (t now : T)
      → self.failure_threshold ≤ u32_max
      → is_available (record_failures (record_success self m) m (ts ++ t ∷ [])) m now ≡ (
          ltb (suc (length ts)) self.failure_threshold
          || chrono.le (chrono.add_secs t self.cooldown_duration) now)
  unfolding record_success
  is_available-record_failures self m ts t now small =
      let healed = record self { state = insert self.state m (after_success (entry self m)) } in
      let entered = entry-insert self m (after_success (entry self m)) in
      let clean : entry healed m
          ≡ record (entry self m) { consecutive_failures = 0; cooldown_until = none } =
        entered ∙ unfold after_success in refl in
      let run = entry-record_failures healed m ts t small (rw clean (λ _. refl)) in
      rw (is_available_entry (record_failures healed m (ts ++ t ∷ [])) m now)
        (ground (arith, run, clean))
