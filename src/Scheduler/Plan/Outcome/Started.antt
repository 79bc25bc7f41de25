-- ===== src/Scheduler/Plan/Outcome/Started.antt =====
-- What holds of each assignment in a plan.
use mathlib.Core.List.{Memᴰ}
use othala.Base.{
  ◌≡◌, refl, ◌⊎◌, true, Option, some, none, List, [], ◌∷◌, arith, all, All, All-append, All-mem,
  All-self, &&-true, string_eq,
}
use othala.Base.Assoc.{Assoc, get}
use othala.Core.State.{TaskState, awaiting_merge, merged, state_eq, state_beq_iff}
use othala.Core.Time.{Chrono}
use othala.Core.Task.{TaskId, ModelKind, claude, SubmitMode, stack, is_stack}
use othala.Scheduler.{SchedulerConfig, QueuedTask, SchedulingInput, ScheduledAssignment}
use othala.Scheduler.Order.{sort_queued}
use othala.Scheduler.Order.Laws.{sort_queued-All}
use othala.Scheduler.Models.{is_open, available_models_in_priority_order}
use othala.Scheduler.Models.Laws.{mem-available_models}
use othala.Scheduler.Plan.{
  Progress, count_running, no_progress, is_resolved, deps_resolved, place, place_all, plan,
}
use othala.Scheduler.Plan.Step.{count_running-counts, Placed, blocks, assigns, place-Placed}

-- A dependency is met by a merged task, and in a stack also by one that awaits its merge.
abbrev pub IsMet : SubmitMode → Option TaskState → Type 0
IsMet mode s = (s ≡ some merged) ⊎ ((mode ≡ stack) × (s ≡ some awaiting_merge))

IsMet-of_resolved :
    (mode : SubmitMode) (s : Option TaskState) → is_resolved (is_stack mode) s ≡ true → IsMet mode s
IsMet-of_resolved mode none h = cc
IsMet-of_resolved mode (some s) h =
    ground (arith, state_beq_iff s merged, state_beq_iff s awaiting_merge)

all-IsMet :
    (states : Assoc TaskId TaskState) (mode : SubmitMode) (deps : List TaskId)
    → all (λ dep. is_resolved (is_stack mode) (get states dep)) deps ≡ true
    → All (λ dep. IsMet mode (get states dep)) deps
all-IsMet states mode [] h = tt
all-IsMet states mode (dep ∷ deps) h =
    let (first, others) = &&-true _ _ h in
    (IsMet-of_resolved mode (get states dep) first, all-IsMet states mode deps others)

module _ {T : Type 0} (states : Assoc TaskId TaskState) where
  abbrev pub AllMet : QueuedTask T → Type 0
  AllMet q = All (λ dep. IsMet q.submit_mode (get states dep)) q.depends_on

  AllMet-of_resolved : (q : QueuedTask T) → deps_resolved states q ≡ true → AllMet q
  unfolding deps_resolved
  AllMet-of_resolved q h = all-IsMet states q.submit_mode q.depends_on h

-- The queued task that an assignment starts, with what makes it fit to run.
pub record Started {T : Type 0} (input : SchedulingInput T) (a : ScheduledAssignment) : Type 0 where
  pub task : QueuedTask T
  pub is_queued : Memᴰ task input.queued
  pub same_id : a.task_id ≡ task.task_id
  pub same_repo : a.repo_id ≡ task.repo_id
  pub deps_met : AllMet input.all_task_states task
  pub is_enabled : Memᴰ a.model input.enabled_models
  pub is_available : is_open input.availability a.model ≡ true

module _ {T : Type 0} (config : SchedulerConfig) (input : SchedulingInput T) where
  abbrev available : List ModelKind
  available = available_models_in_priority_order input.enabled_models input.availability

  step-Started :
      {p : Progress} {q : QueuedTask T} {p' : Progress}
      → Placed config input.all_task_states available p q p'
      → Memᴰ q input.queued
      → All (Started input) p.assignments
      → All (Started input) p'.assignments
  step-Started (blocks reason why) m h = h
  step-Started {p} {q} (assigns model can) m h =
      let (enabled, opened) =
        (mem-available_models input.enabled_models input.availability model).0 can.known in
      All-append (Started input) p.assignments _ h (
        record {
          task = q;
          is_queued = m;
          same_id = refl;
          same_repo = refl;
          deps_met = AllMet-of_resolved input.all_task_states q can.resolved;
          is_enabled = enabled;
          is_available = opened;
        },
        tt,
      )

  place_all-Started :
      (p : Progress) (qs : List (QueuedTask T))
      → All (λ q. Memᴰ q input.queued) qs
      → All (Started input) p.assignments
      → All (Started input) (place_all config input.all_task_states available p qs).assignments
  unfolding place_all
  place_all-Started p [] ms h = h
  place_all-Started p (q ∷ qs) ms h =
      place_all-Started (place config input.all_task_states available p q) qs ms.1
        (step-Started (place-Placed config input.all_task_states available p q) ms.0 h)

-- Each assignment starts a queued task in its repository, all of whose dependencies are merged (or,
-- for a task of a stack, await their merge), on a model that is enabled and not reported as
-- unavailable.
pub plan-Started :
    {T : Type 0} ⦃chrono : Chrono T⦄ (config : SchedulerConfig) (input : SchedulingInput T)
    {a : ScheduledAssignment}
    → Memᴰ a (plan config input).assignments
    → Started input a
unfolding plan
plan-Started config input m =
    let (_, _, none_assigned, _) = count_running-counts no_progress input.running "" claude in
    let start = count_running no_progress input.running in
    let queued = sort_queued-All _ input.queued (All-self input.queued) in
    All-mem (Started input) _
      (place_all-Started config input start (sort_queued input.queued) queued (rw none_assigned tt))
      m
