-- ===== src/Scheduler/Plan/Outcome/Blocked.antt =====
-- What holds of each task that a plan blocks.
use mathlib.Core.List.{Memᴰ}
use mathlib.Core.List.Memᴰ
use othala.Base.{
  ◌+◌, ◌≤◌, ◌≡◌, refl, subst, ◌⊎◌, inl, inr, false, Option, some, none, List, [], ◌∷◌, arith, all,
  All, All-map, All-append, All-mem, All-self, All-weaken, Bool-cases, string_eq,
}
use othala.Base.Assoc.{Assoc, get}
use othala.Core.State.{TaskState, awaiting_merge, merged, state_eq, state_beq_iff}
use othala.Core.Time.{Chrono}
use othala.Core.Task.{TaskId, ModelKind, claude, model_eq, SubmitMode, is_stack}
use othala.Scheduler.{
  SchedulerConfig, QueuedTask, SchedulingInput, SchedulePlan, BlockedTask, BlockReason,
  dependencies_unresolved, repo_limit_reached, model_limit_reached, no_available_model,
}
use othala.Scheduler.Order.{sort_queued}
use othala.Scheduler.Order.Laws.{sort_queued-All}
use othala.Scheduler.Models.{is_open, limit_of, available_models_in_priority_order}
use othala.Scheduler.Models.Laws.{mem-available_models}
use othala.Scheduler.Plan.{
  Progress, count_of, count_running, no_progress, final_progress, is_resolved, deps_resolved, block,
  place, place_all, plan,
}
use othala.Scheduler.Plan.Step.{
  count_of-bump, count_running-counts, Why, Placed, blocks, assigns, place-Placed,
}
use othala.Scheduler.Plan.Limits.{running_in, running_on, assigned_in, assigned_on, plan-Inv}
use othala.Scheduler.Plan.Outcome.Started.{IsMet}

-- The first dependency that is not met.
IsMet-resolved :
    (mode : SubmitMode) (s : Option TaskState)
    → is_resolved (is_stack mode) s ≡ false
    → ¬ IsMet mode s
IsMet-resolved mode none h met = ground arith
IsMet-resolved mode (some s) h met =
    ground (arith, state_beq_iff s merged, state_beq_iff s awaiting_merge)

some_unmet :
    (states : Assoc TaskId TaskState) (mode : SubmitMode) (deps : List TaskId)
    → all (λ dep. is_resolved (is_stack mode) (get states dep)) deps ≡ false
    → (dep : TaskId) × Memᴰ dep deps × (¬ IsMet mode (get states dep))
some_unmet states mode [] h = cc
some_unmet states mode (dep ∷ deps) h =
    elim (Bool-cases (is_resolved (is_stack mode) (get states dep))) [
      | inl met ↦
          let (other, there, unmet) = some_unmet states mode deps (rw met at h) in
          (other, Memᴰ.tail there, unmet)
      | inr unmet ↦ (dep, Memᴰ.head refl, IsMet-resolved mode (get states dep) unmet)
    ]

module _ {T : Type 0} (config : SchedulerConfig) (input : SchedulingInput T) where
  -- The reasons, in terms of the input and of what the plan starts.
  abbrev pub Reason : SchedulePlan → QueuedTask T → BlockReason → Type 0
  Reason p q dependencies_unresolved =
      (dep : TaskId) × Memᴰ dep q.depends_on
      × (¬ IsMet q.submit_mode (get input.all_task_states dep))
  Reason p q repo_limit_reached =
      config.per_repo_limit
      ≤ running_in input.running q.repo_id + assigned_in p.assignments q.repo_id
  Reason p q no_available_model =
      All (λ m. is_open input.availability m ≡ false) input.enabled_models
  Reason p q model_limit_reached =
      All
        (λ m.
          (is_open input.availability m ≡ false)
          ⊎ (limit_of config.per_model_limit m
              ≤ running_on input.running m + assigned_on p.assignments m))
        input.enabled_models

  pub record Blocked (p : SchedulePlan) (b : BlockedTask) : Type 0 where
    pub task : QueuedTask T
    pub is_queued : Memᴰ task input.queued
    pub same_id : b.task_id ≡ task.task_id
    pub holds : Reason p task b.reason

  abbrev available : List ModelKind
  available = available_models_in_priority_order input.enabled_models input.availability

  -- While the loop runs, the reasons are read off the counters.
  record Noted (p : Progress) (b : BlockedTask) : Type 0 where
    task : QueuedTask T
    is_queued : Memᴰ task input.queued
    same_id : b.task_id ≡ task.task_id
    why : Why config input.all_task_states available p task b.reason

  record Grows (p p' : Progress) : Type 0 where
    repos : (repo : TaskId) → count_of p.repo_counts repo ≤ count_of p'.repo_counts repo
    models : (m : ModelKind) → count_of p.model_counts m ≤ count_of p'.model_counts m

  step-Grows :
      {p : Progress} {q : QueuedTask T} {p' : Progress}
      → Placed config input.all_task_states available p q p'
      → Grows p p'
  step-Grows (blocks reason why) = record { repos = λ r. omega arith; models = λ m. omega arith }
  step-Grows {p} {q} (assigns m can) = record {
    repos = λ r. ground (arith, count_of-bump p.repo_counts q.repo_id r);
    models = λ k. ground (arith, count_of-bump p.model_counts m k);
  }

  grow-Why :
      (q : QueuedTask T) (reason : BlockReason) {p p' : Progress}
      → Grows p p'
      → Why config input.all_task_states available p q reason
      → Why config input.all_task_states available p' q reason
  grow-Why q dependencies_unresolved g why = why
  grow-Why q repo_limit_reached g why = omega (arith, g.repos q.repo_id)
  grow-Why q no_available_model g why = why
  grow-Why q model_limit_reached g why = All-map (λ m h. omega (arith, g.models m)) available why

  grow-Noted : {p p' : Progress} → Grows p p' → (b : BlockedTask) → Noted p b → Noted p' b
  grow-Noted g b n = record {
    task = n.task;
    is_queued = n.is_queued;
    same_id = n.same_id;
    why = grow-Why n.task b.reason g n.why;
  }

  step-Noted :
      {p : Progress} {q : QueuedTask T} {p' : Progress}
      → Placed config input.all_task_states available p q p'
      → Memᴰ q input.queued
      → All (Noted p) p.blocked
      → All (Noted p') p'.blocked
  step-Noted {p} {q} (blocks reason why) m h =
      let grows : Grows p (block p q reason) = step-Grows {p = p} {q = q} (blocks reason why) in
      let noted : Noted (block p q reason) (record { task_id = q.task_id; reason = reason }) =
        record { task = q; is_queued = m; same_id = refl; why = grow-Why q reason grows why } in
      All-append (Noted (block p q reason)) p.blocked _ (All-map (grow-Noted grows) p.blocked h)
        (noted, tt)
  step-Noted {p} {q} (assigns model can) m h =
      All-map (grow-Noted (step-Grows (assigns model can))) p.blocked h

  place_all-Noted :
      (p : Progress) (qs : List (QueuedTask T))
      → All (λ q. Memᴰ q input.queued) qs
      → All (Noted p) p.blocked
      → let end = place_all config input.all_task_states available p qs in
        All (Noted end) end.blocked
  unfolding place_all
  place_all-Noted p [] ms h = h
  place_all-Noted p (q ∷ qs) ms h =
      place_all-Noted (place config input.all_task_states available p q) qs ms.1
        (step-Noted (place-Placed config input.all_task_states available p q) ms.0 h)

  module _ ⦃chrono : Chrono T⦄ where
    end : Progress
    end = final_progress config input

    end-Noted : All (Noted end) end.blocked
    unfolding end
    end-Noted =
        let start = count_running no_progress input.running in
        let (_, _, _, none_blocked) = count_running-counts no_progress input.running "" claude in
        let queued = sort_queued-All _ input.queued (All-self input.queued) in
        place_all-Noted start (sort_queued input.queued) queued (rw none_blocked tt)

    open_or_not :
        (m : ModelKind)
        → Memᴰ m input.enabled_models
        → (is_open input.availability m ≡ false) ⊎ Memᴰ m available
    open_or_not m there = elim (Bool-cases (is_open input.availability m)) [
      | inl opened ↦
          inr ((mem-available_models input.enabled_models input.availability m).1 (there, opened))
      | inr shut ↦ inl shut
    ]

    Reason-of_Why :
        (q : QueuedTask T) (reason : BlockReason)
        → Why config input.all_task_states available end q reason
        → Reason (plan config input) q reason
    unfolding end plan deps_resolved
    Reason-of_Why q dependencies_unresolved why =
        some_unmet input.all_task_states q.submit_mode q.depends_on why
    Reason-of_Why q repo_limit_reached why =
        let counted = (plan-Inv config input).repo_counted q.repo_id in omega (arith, counted)
    Reason-of_Why q no_available_model why = All-weaken _ input.enabled_models λ m there.
        elim (open_or_not m there) [
          | inl shut ↦ shut
          | inr listed ↦ absurd (Memᴰ.not-nil (subst (Memᴰ m) why listed))
        ]
    Reason-of_Why q model_limit_reached why = All-weaken _ input.enabled_models λ m there.
        elim (open_or_not m there) [
          | inl shut ↦ inl shut
          | inr listed ↦
              let full = All-mem _ available why listed in
              let counted = (plan-Inv config input).model_counted m in
              inr (omega (arith, full, counted))
        ]

-- No queued task is blocked without a cause: a dependency is not met, or what runs and what the plan
-- starts fill the repository's limit, or no enabled model is available, or every enabled model is
-- unavailable or filled to its limit.
pub plan-Blocked :
    {T : Type 0} ⦃chrono : Chrono T⦄ (config : SchedulerConfig) (input : SchedulingInput T)
    {b : BlockedTask}
    → Memᴰ b (plan config input).blocked
    → Blocked config input (plan config input) b
unfolding plan end
plan-Blocked config input {b} m =
    let noted = All-mem (Noted config input (end config input)) _ (end-Noted config input) m in
    record {
      task = noted.task;
      is_queued = noted.is_queued;
      same_id = noted.same_id;
      holds = Reason-of_Why config input noted.task b.reason noted.why;
    }
