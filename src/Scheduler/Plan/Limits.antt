-- ===== src/Scheduler/Plan/Limits.antt =====
-- The concurrency limits: no plan starts more tasks than a repository or a model has room for.
use othala.Base.{ℕ, ◌+◌, ◌-◌, ◌≤◌, ◌≡◌, List, [], ◌∷◌, arith, ◌==◌, string_eq, count, count-append}
use othala.Base.Assoc.{Assoc, get}
use othala.Core.State.{TaskState}
use othala.Core.Time.{Chrono}
use othala.Core.Task.{TaskId, RepoId, ModelKind, claude, model_eq, model_beq_iff}
use othala.Scheduler.{
  SchedulerConfig, QueuedTask, RunningTask, SchedulingInput, ScheduledAssignment,
}
use othala.Scheduler.Order.{sort_queued}
use othala.Scheduler.Models.{limit_of, available_models_in_priority_order}
use othala.Scheduler.Plan.{
  Progress, count_of, count_running, no_progress, place, place_all, final_progress, plan,
}
use othala.Scheduler.Plan.Step.{
  count_of-bump, count_running-counts, Placed, blocks, assigns, place-Placed,
}

abbrev pub running_in : List RunningTask → RepoId → ℕ
running_in rs repo = count (λ r. r.repo_id == repo) rs

abbrev pub running_on : List RunningTask → ModelKind → ℕ
running_on rs model = count (λ r. r.model == model) rs

abbrev pub assigned_in : List ScheduledAssignment → RepoId → ℕ
assigned_in placed repo = count (λ a. a.repo_id == repo) placed

abbrev pub assigned_on : List ScheduledAssignment → ModelKind → ℕ
assigned_on placed model = count (λ a. a.model == model) placed

module _ (config : SchedulerConfig) (running : List RunningTask) where
  -- Between two rounds: the counters count what runs and what is assigned, and no limit is passed.
  pub record Inv (p : Progress) : Type 0 where
    pub repo_counted :
        (repo : RepoId)
        → count_of p.repo_counts repo ≡ running_in running repo + assigned_in p.assignments repo
    pub model_counted :
        (m : ModelKind)
        → count_of p.model_counts m ≡ running_on running m + assigned_on p.assignments m
    pub repo_capped :
        (repo : RepoId)
        → assigned_in p.assignments repo ≤ config.per_repo_limit - running_in running repo
    pub model_capped :
        (m : ModelKind)
        → assigned_on p.assignments m ≤ limit_of config.per_model_limit m - running_on running m

  start-Inv : Inv (count_running no_progress running)
  unfolding count_of get
  start-Inv =
      let counted = count_running-counts no_progress running in
      record {
        repo_counted = λ repo. ground (arith, counted repo claude);
        model_counted = λ m. ground (arith, counted "" m);
        repo_capped = λ repo. ground (arith, counted repo claude);
        model_capped = λ m. ground (arith, counted "" m);
      }

  module _ {T : Type 0} (states : Assoc TaskId TaskState) (available : List ModelKind) where
    step-Inv :
        {p : Progress} {q : QueuedTask T} {p' : Progress}
        → Placed config states available p q p'
        → Inv p
        → Inv p'
    step-Inv (blocks reason why) inv = record {
      repo_counted = inv.repo_counted;
      model_counted = inv.model_counted;
      repo_capped = inv.repo_capped;
      model_capped = inv.model_capped;
    }
    step-Inv {p} {q} (assigns m can) inv =
        let new : ScheduledAssignment = record {
          task_id = q.task_id;
          repo_id = q.repo_id;
          model = m;
        } in
        record {
          repo_counted = λ repo. ground (
            arith,
            count_of-bump p.repo_counts q.repo_id repo,
            count-append (λ a. a.repo_id == repo) p.assignments (new ∷ []),
            inv.repo_counted repo,
          );
          model_counted = λ k. ground (
            arith,
            count_of-bump p.model_counts m k,
            count-append (λ a. a.model == k) p.assignments (new ∷ []),
            inv.model_counted k,
          );
          repo_capped = λ repo. ground (
            arith,
            count-append (λ a. a.repo_id == repo) p.assignments (new ∷ []),
            inv.repo_capped repo,
            inv.repo_counted repo,
            string_eq.same_iff q.repo_id repo,
            can,
          );
          model_capped = λ k. ground (
            arith,
            count-append (λ a. a.model == k) p.assignments (new ∷ []),
            inv.model_capped k,
            inv.model_counted k,
            model_beq_iff m k,
            can,
          );
        }

    place_all-Inv :
        (p : Progress) (qs : List (QueuedTask T))
        → Inv p
        → Inv (place_all config states available p qs)
    unfolding place_all
    place_all-Inv p [] inv = inv
    place_all-Inv p (q ∷ qs) inv =
        place_all-Inv (place config states available p q) qs
          (step-Inv (place-Placed config states available p q) inv)

module _ {T : Type 0} ⦃chrono : Chrono T⦄ (config : SchedulerConfig)
    (input : SchedulingInput T) where
  pub plan-Inv : Inv config input.running (final_progress config input)
  plan-Inv =
      place_all-Inv config input.running input.all_task_states
        (available_models_in_priority_order input.enabled_models input.availability) _
        (sort_queued input.queued) (start-Inv config input.running)

  -- A plan starts in a repository at most as many tasks as the limit for one repository less the
  -- number of tasks that run there, and so none where those use up the limit already.
  pub plan-le_repo_limit :
      (repo : RepoId)
      → assigned_in (plan config input).assignments repo
        ≤ config.per_repo_limit - running_in input.running repo
  unfolding plan
  plan-le_repo_limit repo = plan-Inv.repo_capped repo

  -- A plan starts on a model at most as many tasks as the limit of that model less the number of
  -- tasks that run on it, and so none where those use up the limit already. A model without a
  -- configured limit has the largest `usize` for one.
  pub plan-le_model_limit :
      (m : ModelKind)
      → assigned_on (plan config input).assignments m
        ≤ limit_of config.per_model_limit m - running_on input.running m
  unfolding plan
  plan-le_model_limit m = plan-Inv.model_capped m
