-- ===== src/Service/Traces.antt =====
-- crates/orchd/src/service.rs: sequences of calls of the service.
use othala.Base.{
  ℕ, ◌≡◌, sym, subst, Bool, false, All, ◌==◌, string_eq, refl, ap, ◌∙◌, Option, none, some, List,
  [], ◌∷◌, String, ◌>>◌, bind-rule, pure, ◌+◌, ◌%◌, ◌^◌,
}
use Prim.Native.String.{◌++◌ as ◌++ₛ◌}
use othala.Core.State.{TaskState, ready, submitting, restacking, merged}
use othala.Core.Task.{Task, TaskId, SubmitMode}
use othala.Core.Event.{Event, EventId, EventKind}
use othala.Store.{Codecs}
use othala.Store.Tasks
use othala.EventLog.{Disk, JsonlEventLog}
use othala.StateMachine.Laws.{◌⟶*◌, stay, here, then}
use othala.Service.Overwrites.{
  Spares, upsert_task-Spares, create_task-Spares, delete_task-Spares, complete_submit-Spares,
}
use othala.Service.{
  complete_submit, create_task, upsert_task, delete_task, State, on_store, record_event,
  transition_task_state, increment_retry, mark_ready, move_with_event, start_submit, mark_merged,
  start_restack, complete_restack, event_of,
}
use othala.Service.Safe.{
  held, IsValid, Moves, Moves-same, Safe, Safe-same, Safe-loaded, Ends, load-rule, loaded,
  upsert-alone, record_event-tasks, record_event-Ends, transition_task_state-Safe,
}

-- The methods that write tasks or events. (The tick of the scheduler writes runs only.)
pub data Call (T : Type 0) : Type 0 where
  transitions : TaskId → TaskState → EventId → T → Call T
  marks_ready marks_merged starts_restack completes_restack : TaskId → EventId → T → Call T
  starts_submit : TaskId → SubmitMode → EventId → T → Call T
  completes_submit : (id : TaskId) → (pr_url : String) → ℕ → EventId → (at now : T) → Call T
  increments_retry : TaskId → String → Call T
  records : Event T → Call T
  creates : Task T → Event T → Call T
  upserts : Task T → Call T
  deletes : TaskId → Call T

-- The call writes or removes the task of this id without asking the state machine.
abbrev pub overwrites : {T : Type 0} → TaskId → Call T → Bool
overwrites id (completes_submit key _ _ _ _ _) = id == key
overwrites id (creates task _) = id == task.id
overwrites id (upserts task) = id == task.id
overwrites id (deletes key) = id == key
overwrites id _ = false

module _ {T : Type 0} where
  -- A path through the diagram.
  abbrev pub Reaches : Option (Task T) → Option (Task T) → Type 0
  Reaches none none = Unit
  Reaches (some t) (some t') = t.state ⟶* t'.state
  Reaches _ _ = ⊥

  Reaches-same : (o : Option (Task T)) → Reaches o o
  Reaches-same none = tt
  Reaches-same (some t) = here

  Reaches-then : (o p q : Option (Task T)) → Moves o p → Reaches p q → Reaches o q
  Reaches-then none none none m r = tt
  Reaches-then none none (some q) m r = absurd r
  Reaches-then none (some p) q m r = absurd m
  Reaches-then (some o) none q m r = absurd m
  Reaches-then (some o) (some p) none m r = absurd r
  Reaches-then (some o) (some p) (some q) m r = then m r

module _ {Doc T F W : Type 0} (c : Codecs Doc T F) (disk : Disk W Doc) (log : JsonlEventLog) where
  unfoldable pub run_call : Call T → State Doc F W → State Doc F W
  unfolding transition_task_state mark_ready mark_merged start_restack complete_restack start_submit
      increment_retry record_event complete_submit create_task upsert_task delete_task
  run_call (transitions id to event_id at) s =
      (transition_task_state c disk log id to event_id at s).1
  run_call (marks_ready id event_id at) s = (mark_ready c disk log id event_id at s).1
  run_call (marks_merged id event_id at) s = (mark_merged c disk log id event_id at s).1
  run_call (starts_restack id event_id at) s = (start_restack c disk log id event_id at s).1
  run_call (completes_restack id event_id at) s = (complete_restack c disk log id event_id at s).1
  run_call (starts_submit id mode event_id at) s = (start_submit c disk log id mode event_id at s).1
  run_call (increments_retry id reason) s = (increment_retry c disk log id reason s).1
  run_call (records event) s = (record_event c disk log event s).1
  run_call (completes_submit id pr_url pr_number event_id at now) s =
      (complete_submit c disk log id pr_url pr_number event_id at now s).1
  run_call (creates task event) s = (create_task c disk log task event s).1
  run_call (upserts task) s = (upsert_task c disk log task s).1
  run_call (deletes id) s = (delete_task c disk log id s).1

  unfoldable pub run_calls : List (Call T) → State Doc F W → State Doc F W
  run_calls [] s = s
  run_calls (call ∷ calls) s = run_calls calls (run_call call s)

  module _ (s : State Doc F W) (valid : IsValid c s) where
    move_with_event-Safe :
        (id : TaskId) (to : TaskState) (event_id : EventId) (at : T) (suffix : String)
        (kind : EventKind)
        → Safe c s (move_with_event c disk log id to event_id at suffix kind s).1
    unfolding move_with_event
    move_with_event-Safe id to event_id at suffix kind =
        let first = transition_task_state-Safe c disk log s id to event_id at valid in
        bind-rule (transition_task_state c disk log id to event_id at)
          (λ task.
            record_event c disk log (event_of c disk log task (event_id ++ₛ suffix) at kind)
            >> pure task)
          (Ends c disk log s) s
          (λ task _.
            record_event-Ends c disk log s _
              (event_of c disk log task (event_id ++ₛ suffix) at kind) task first)
          (λ _ _. first)

    increment_retry-Safe :
        (id : TaskId) (reason : String) → Safe c s (increment_retry c disk log id reason s).1
    unfolding increment_retry
    increment_retry-Safe id reason =
        let retried = λ (t : Task T). record t {
          retry_count = (t.retry_count + 1) % 2 ^ 32;
          last_failure_reason = some reason;
        } in
        load-rule c disk log s valid (Ends c disk log s) id
          (λ t. on_store (Tasks.upsert_task c (retried t)))
          (λ t there own. Safe-loaded c disk log s valid _ (
            upsert-alone c disk log (loaded c disk log s valid) valid t (retried t)
              (ap (held c s) own ∙ there) stay))
          (λ _ _. Safe-same c s _ valid refl)

  -- What a call does to the tasks that it does not overwrite.
  record Follows (call : Call T) (s after : State Doc F W) : Type 0 where
    valid : IsValid c after
    moves : (id : TaskId) → overwrites id call ≡ false → Moves (held c s id) (held c after id)

  Follows-Safe : (call : Call T) (s after : State Doc F W) → Safe c s after → Follows call s after
  Follows-Safe call s after h = record { valid = h.valid; moves = λ id _. h.moves id }

  Follows-Spares :
      (call : Call T) (key : TaskId) (s after : State Doc F W)
      → ((id : TaskId) → overwrites id call ≡ (id == key))
      → Spares c key s after
      → Follows call s after
  Follows-Spares call key s after same h = record {
    valid = h.valid;
    moves = λ id off.
        subst (Moves (held c s id)) (sym (h.others id (sym (same id) ∙ off)))
          (Moves-same (held c s id));
  }

  run_call-Follows :
      (s : State Doc F W) (call : Call T) → IsValid c s → Follows call s (run_call call s)
  unfolding run_call mark_ready mark_merged start_restack complete_restack start_submit upsert_task
      delete_task
  run_call-Follows s (transitions id to event_id at) valid =
      Follows-Safe _ s _ (transition_task_state-Safe c disk log s id to event_id at valid)
  run_call-Follows s (marks_ready id event_id at) valid =
      Follows-Safe _ s _ (transition_task_state-Safe c disk log s id ready event_id at valid)
  run_call-Follows s (marks_merged id event_id at) valid =
      Follows-Safe _ s _ (transition_task_state-Safe c disk log s id merged event_id at valid)
  run_call-Follows s (starts_restack id event_id at) valid =
      Follows-Safe _ s _ (move_with_event-Safe s valid id restacking event_id at _ _)
  run_call-Follows s (completes_restack id event_id at) valid =
      Follows-Safe _ s _ (move_with_event-Safe s valid id ready event_id at _ _)
  run_call-Follows s (starts_submit id mode event_id at) valid =
      Follows-Safe _ s _ (move_with_event-Safe s valid id submitting event_id at _ _)
  run_call-Follows s (increments_retry id reason) valid =
      Follows-Safe _ s _ (increment_retry-Safe s valid id reason)
  run_call-Follows s (records event) valid =
      Follows-Safe _ s _ (Safe-same c s _ valid (record_event-tasks c disk log event s))
  run_call-Follows s (completes_submit id pr_url pr_number event_id at now) valid =
      Follows-Spares _ id s _ (λ _. refl)
        (complete_submit-Spares c disk log s valid id pr_url pr_number event_id at now)
  run_call-Follows s (creates task event) valid =
      Follows-Spares _ task.id s _ (λ _. refl) (create_task-Spares c s valid disk log task event)
  run_call-Follows s (upserts task) valid =
      Follows-Spares _ task.id s _ (λ _. refl) (upsert_task-Spares c s valid disk log task)
  run_call-Follows s (deletes id) valid =
      Follows-Spares _ id s _ (λ _. refl) (delete_task-Spares c s valid disk log id)

  -- After any sequence of the calls that write or remove tasks or record events, whatever each of
  -- them answered, the table of tasks is valid. And a task that none of them completes the submit of,
  -- creates, upserts or deletes, whatever they do to other tasks, is there exactly if it was there
  -- before, in a state that the diagram of the state machine leads to from the state it was in.
  pub run_calls-Reaches :
      (s : State Doc F W) (calls : List (Call T)) (id : TaskId)
      → IsValid c s
      → All (λ call. overwrites id call ≡ false) calls
      → IsValid c (run_calls calls s) × Reaches (held c s id) (held c (run_calls calls s) id)
  unfolding run_calls
  run_calls-Reaches s [] id valid off = (valid, Reaches-same (held c s id))
  run_calls-Reaches s (call ∷ calls) id valid off =
      let first = run_call-Follows s call valid in
      let (after, reaches) = run_calls-Reaches (run_call call s) calls id first.valid off.1 in
      (after, Reaches-then _ _ _ (first.moves id off.0) reaches)
