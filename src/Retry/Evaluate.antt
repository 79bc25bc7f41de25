-- ===== src/Retry/Evaluate.antt =====
-- When a failed task is retried, and with which model.
use mathlib.Core.List.{Memᴰ}
use othala.Base.{
  ◌≡◌, ◌≢◌, ◌↔◌, inl, inr, ◌<◌, true, false, some, none, List, arith, contains, contains_iff,
  find-some, find-none, Option-cases, All-mem, ap, ◌∙◌,
}
use othala.Core.Task.{ModelKind, model_eq, model_beq_iff, Task}
use othala.Retry.{AgentOutcome, is_usable, preferred_if_usable, pick_next_model, evaluate_retry}

-- A model that may be tried next: enabled, not the one that just failed, and not failed before.
pub record Candidate {T : Type 0} (task : Task T) (just_failed : ModelKind)
    (enabled : List ModelKind) (m : ModelKind) : Type 0 where
  pub is_enabled : Memᴰ m enabled
  pub is_other : m ≢ just_failed
  pub is_fresh : ¬ Memᴰ m task.failed_models

module _ {T : Type 0} (task : Task T) (just_failed : ModelKind) (enabled : List ModelKind) where
  pub is_usable_iff :
      (m : ModelKind)
      → (is_usable task just_failed m ≡ true) ↔ ((m ≢ just_failed) × (¬ Memᴰ m task.failed_models))
  is_usable_iff m = ground (arith, model_beq_iff m just_failed, contains_iff task.failed_models m)

  pub Candidate-of_usable :
      {m : ModelKind}
      → is_usable task just_failed m ≡ true
      → Memᴰ m enabled
      → Candidate task just_failed enabled m
  Candidate-of_usable {m} usable there =
      let (other, fresh) = (is_usable_iff m).0 usable in
      record { is_enabled = there; is_other = other; is_fresh = fresh }

  -- The preferred model is taken exactly when it is a candidate.
  pub preferred_if_usable-some :
      {m : ModelKind}
      → preferred_if_usable task just_failed enabled ≡ some m
      → (task.preferred_model ≡ some m)
        × (is_usable task just_failed m ≡ true)
        × (contains enabled m ≡ true)
  preferred_if_usable-some h = ground arith

  pub pick_next_model-Candidate :
      {m : ModelKind}
      → pick_next_model task just_failed enabled ≡ some m
      → Candidate task just_failed enabled m
  unfolding pick_next_model
  pick_next_model-Candidate {m} h =
      elim (Option-cases (preferred_if_usable task just_failed enabled)) [
        | inr (p, e) ↦
            let same : p ≡ m = ground arith in
            let (_, usable, known) = preferred_if_usable-some (e ∙ ap some same) in
            Candidate-of_usable usable ((contains_iff enabled m).0 known)
        | inl e ↦
            let (usable, there) =
              find-some (is_usable task just_failed) enabled (rw (e, pick_next_model) at h) in
            Candidate-of_usable usable there
      ]

  pub usable_of_Candidate :
      {m : ModelKind} → Candidate task just_failed enabled m → is_usable task just_failed m ≡ true
  usable_of_Candidate {m} c = (is_usable_iff m).1 (c.is_other, c.is_fresh)

  pub pick_next_model-none :
      {m : ModelKind}
      → pick_next_model task just_failed enabled ≡ none
      → ¬ Candidate task just_failed enabled m
  unfolding pick_next_model
  pick_next_model-none {m} h c =
      elim (Option-cases (preferred_if_usable task just_failed enabled)) [
        | inr (p, e) ↦ ground arith
        | inl e ↦
            let all_bad =
              find-none (is_usable task just_failed) enabled (rw (e, pick_next_model) at h) in
            let bad = All-mem _ enabled all_bad c.is_enabled in cc (usable_of_Candidate c)
      ]

module _ {T : Type 0} (task : Task T) (outcome : AgentOutcome) (enabled : List ModelKind) where
  -- A retry names a candidate: an enabled model that neither just failed nor failed before on this
  -- task; and it is only decided after a run that neither succeeded nor produced a patch nor asked
  -- for a human, while retries are left.
  pub evaluate_retry_sound :
      {m : ModelKind}
      → (evaluate_retry task outcome enabled).next_model ≡ some m
      → Candidate task outcome.model enabled m
        × ((evaluate_retry task outcome enabled).should_retry ≡ true)
        × (outcome.success ≡ false)
        × (outcome.patch_ready ≡ false)
        × (outcome.needs_human ≡ false)
        × (task.retry_count < task.max_retries)
  unfolding evaluate_retry
  evaluate_retry_sound h = (
    pick_next_model-Candidate task outcome.model enabled (ground arith),
    ground arith,
    ground arith,
    ground arith,
    ground arith,
    ground arith,
  )

  -- After a run that neither succeeded nor produced a patch nor asked for a human, with retries
  -- left and an enabled model that is a candidate, a retry is decided, and it names a model.
  pub evaluate_retry_complete :
      {m : ModelKind}
      → outcome.success ≡ false
      → outcome.patch_ready ≡ false
      → outcome.needs_human ≡ false
      → task.retry_count < task.max_retries
      → Candidate task outcome.model enabled m
      → (next : ModelKind) × ((evaluate_retry task outcome enabled).next_model ≡ some next)
        × ((evaluate_retry task outcome enabled).should_retry ≡ true)
  unfolding evaluate_retry
  evaluate_retry_complete s p n left c =
      elim (Option-cases (pick_next_model task outcome.model enabled)) [
        | inl e ↦ absurd (pick_next_model-none task outcome.model enabled e c)
        | inr (next, e) ↦ (next, ground arith, ground arith)
      ]
