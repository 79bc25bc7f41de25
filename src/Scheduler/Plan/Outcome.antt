-- ===== src/Scheduler/Plan/Outcome.antt =====
-- What a plan says of each queued task: it is started or blocked, and for a reason.
pub mod Started
pub mod Blocked
use mathlib.Core.List.{Perm, map-append, append_assoc, append-nil, perm_append_comm, perm_middle}
use mathlib.Core.List.Perm
use othala.Base.{◌≡◌, refl, sym, List, [], ◌∷◌, ◌++◌, map}
use othala.Base.Assoc.{Assoc}
use othala.Core.State.{TaskState}
use othala.Core.Time.{Chrono}
use othala.Core.Task.{TaskId, ModelKind, claude}
use othala.Scheduler.{
  SchedulerConfig, QueuedTask, SchedulingInput, SchedulePlan, ScheduledAssignment, BlockedTask,
}
use othala.Scheduler.Order.{sort_queued}
use othala.Scheduler.Order.Laws.{sort_queued-IsOrdered}
use othala.Scheduler.Models.{available_models_in_priority_order}
use othala.Scheduler.Plan.{
  Progress, count_running, no_progress, final_progress, place, place_all, plan,
}
use othala.Scheduler.Plan.Step.{count_running-counts, Placed, blocks, assigns, place-Placed}

abbrev pub assigned_ids : List ScheduledAssignment → List TaskId
assigned_ids = map (λ a. a.task_id)

abbrev pub blocked_ids : List BlockedTask → List TaskId
blocked_ids = map (λ b. b.task_id)

abbrev pub queued_ids : {T : Type 0} → List (QueuedTask T) → List TaskId
queued_ids = map (λ q. q.task_id)

abbrev ids : Progress → List TaskId
ids p = assigned_ids p.assignments ++ blocked_ids p.blocked

module _ {T : Type 0} (config : SchedulerConfig) (states : Assoc TaskId TaskState)
    (available : List ModelKind) where
  step-ids :
      {p : Progress} {q : QueuedTask T} {p' : Progress}
      → Placed config states available p q p'
      → Perm (ids p') (q.task_id ∷ ids p)
  step-ids {p} {q} (blocks reason why) =
      rw (map-append, ← append_assoc) (perm_append_comm (ids p) (q.task_id ∷ []))
  step-ids {p} {q} (assigns m can) = rw map-append (
      Perm.append_right (blocked_ids p.blocked)
        (perm_append_comm (assigned_ids p.assignments) (q.task_id ∷ [])))

  place_all-ids :
      (p : Progress) (qs : List (QueuedTask T))
      → Perm (ids (place_all config states available p qs)) (queued_ids qs ++ ids p)
  unfolding place_all
  place_all-ids p [] = Perm.rfl
  place_all-ids p (q ∷ qs) =
      let p' = place config states available p q in
      Perm.trans (place_all-ids p' qs) (
        Perm.trans
          (Perm.append_left (queued_ids qs) (step-ids (place-Placed config states available p q)))
          (perm_middle (queued_ids qs) (ids p)))

module _ {T : Type 0} ⦃chrono : Chrono T⦄ (config : SchedulerConfig)
    (input : SchedulingInput T) where
  -- A plan decides on every queued task once: the ids that it assigns and those that it blocks are
  -- together the ids of the queue, each as often.
  pub plan-perm :
      Perm
        (assigned_ids (plan config input).assignments ++ blocked_ids (plan config input).blocked)
        (queued_ids input.queued)
  unfolding plan
  plan-perm =
      let start = count_running no_progress input.running in
      let (_, _, none_assigned, none_blocked) =
        count_running-counts no_progress input.running "" claude in
      let empty : ids start ≡ [] = rw (none_assigned, none_blocked) in
      let available = available_models_in_priority_order input.enabled_models input.availability in
      let placed =
        place_all-ids config input.all_task_states available start (sort_queued input.queued) in
      let whole = rw (empty, append-nil) at placed in
      Perm.trans whole (Perm.map (λ q. q.task_id) (sort_queued-IsOrdered input.queued).0)
