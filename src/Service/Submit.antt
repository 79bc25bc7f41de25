-- ===== src/Service/Submit.antt =====
-- What a transition that succeeds has done, how one is refused, and the completion of a submit.
use Prim.Native.String.{◌++◌ as ◌++ₛ◌}
use othala.Base.{
  ℕ, ◌≡◌, refl, sym, ap, subst, ◌∙◌, false, none, some, [], ◌∷◌, ◌++◌, String, Result, ok, err,
  Action, ◌>>=◌, ◌>>◌, bind-rule, bind-ok, bind-err, if◌then◌else◌, ◌==◌, string_eq, pure, or_raise,
}
use othala.Core.State.{TaskState, awaiting_merge, display}
use othala.Core.Task.{Task, TaskId, mark_submitted}
use othala.Core.Event.{Event, EventId, task_state_changed, submit_completed}
use othala.Store.{Codecs, Tables}
use othala.Store.Events.{append_event, event_row}
use othala.Store.Events.Recorded.{Records, append_event-Records}
use othala.Store.Tasks
use othala.Store.Tasks.View.{IsTable, stored}
use othala.Store.Tasks.Refines.{Writes, upsert_task-Writes}
use othala.EventLog.{Disk, JsonlEventLog, append_both}
use othala.StateMachine.{transition_task, StateTransition, StateMachineError, invalid_transition}
use othala.StateMachine.Laws.{◌⟶◌, transition_task-ok, transition_task_refused}
use othala.Service.{
  ServiceError, persistence, event_log, state_machine, task_not_found, State, on_log, record_event,
  load, move, save_move, transition_task_state, event_of, raise_refusal, complete_submit,
  save_submitted,
}
use othala.Service.Rules.{on_store-rule, on_log-last}
use othala.Service.Safe.{held, IsValid, Fails, loaded, load-rule, load_accepted}

module _ {Doc T F W : Type 0} (c : Codecs Doc T F) (disk : Disk W Doc) (log : JsonlEventLog) where
  -- The table of events has this event as its last row.
  abbrev pub HasEvent : Event T → State Doc F W → State Doc F W → Type 0
  HasEvent event s after =
      (payload : Doc) × (c.events.from_str payload ≡ some event)
      × (after.store.tables ≡ record s.store.tables {
        events = s.store.tables.events ++ event_row c event payload ∷ [];
      })

  -- An error of the database or of the event log.
  abbrev IsOutside : ServiceError Doc → Type 0
  IsOutside (persistence _) = Unit
  IsOutside (event_log _) = Unit
  IsOutside _ = ⊥

  Fails-outside :
      (Missing : Type 0) (id : TaskId) (e : ServiceError Doc) → IsOutside e → Fails Missing id e
  Fails-outside Missing id (persistence _) h = tt
  Fails-outside Missing id (event_log _) h = tt
  Fails-outside Missing id (state_machine _) h = absurd h
  Fails-outside Missing id (task_not_found _) h = absurd h

  abbrev Recorded :
      Event T → State Doc F W → Result (Unit {0}) (ServiceError Doc) × State Doc F W → Type 0
  Recorded event s (ok _, after) = HasEvent event s after
  Recorded event s (err e, after) = IsOutside e

  record_event-Recorded :
      (event : Event T) (s : State Doc F W) → Recorded event s (record_event c disk log event s)
  unfolding record_event
  record_event-Recorded event s =
      let call = append_event c event s.store in
      on_store-rule (Recorded event s) (append_event c event)
        (λ _. on_log (append_both disk c.events log event)) s
        (λ _ good.
          let (payload, reads, _, tables) =
            subst (λ x. Records c s.store event (x, call.1)) good
              (append_event-Records c s.store event) in
          on_log-last (Recorded event s) (append_both disk c.events log event) _
            (λ _ _. (payload, reads, tables)) (λ _ _. tt))
        (λ _ _. tt)

  -- To prove something of a method that goes on after recording an event.
  record_event-rule :
      {A : Type 0} (P : Result A (ServiceError Doc) × State Doc F W → Type 0) (event : Event T)
      (k : Unit {0} → Action (State Doc F W) (ServiceError Doc) A) (s : State Doc F W)
      → ((after : State Doc F W) → HasEvent event s after → P (k tt after))
      → ((e : ServiceError Doc) (after : State Doc F W) → IsOutside e → P (err e, after))
      → P ((record_event c disk log event >>= k) s)
  record_event-rule P event k s good bad =
      bind-rule (record_event c disk log event) k P s
        (λ _ h. good _ (
          subst (λ x. Recorded event s (x, (record_event c disk log event s).1)) h
            (record_event-Recorded event s)))
        (λ e h. bad e _ (
          subst (λ x. Recorded event s (x, (record_event c disk log event s).1)) h
            (record_event-Recorded event s)))

  -- A transition from `from` to `to` that succeeded.
  pub record Moved (s : State Doc F W) (id : TaskId) (to : TaskState) (event_id : EventId) (at : T)
      (task : Task T) (after : State Doc F W) : Type 0 where
    pub before : Task T
    pub there : held c s id ≡ some before
    pub edge : before.state ⟶ to
    pub result : task ≡ record before { state = to; updated_at = at }
    pub stores :
        (other : TaskId) → held c after other ≡ (if other == id then some task else held c s other)
    pub event :
        (payload : Doc) × (c.events.from_str payload
          ≡ some (
              event_of c disk log task event_id at
                (task_state_changed (display before.state) (display to))))
        × (after.store.tables.events
            ≡ s.store.tables.events
              ++ event_row c
                  (event_of c disk log task event_id at
                    (task_state_changed (display before.state) (display to)))
                  payload
                ∷ [])
    pub valid : IsValid c after

  module _ (s : State Doc F W) (valid : IsValid c s) (id : TaskId) (to : TaskState)
      (event_id : EventId) (at : T) where
    abbrev pub Moves : Result (Task T) (ServiceError Doc) × State Doc F W → Type 0
    Moves (ok task, after) = Moved s id to event_id at task after
    Moves (err _, after) = Unit

    abbrev moved : Task T → Task T
    moved t = record t { state = to; updated_at = at }

    abbrev change_event : Task T → Task T → Event T
    change_event t task =
        event_of c disk log task event_id at (task_state_changed (display t.state) (display to))

    save_move-Moves :
        (t : Task T)
        → held c s id ≡ some t
        → t.id ≡ id
        → t.state ⟶ to
        → Moves (
            save_move c disk log
              (moved t)
              record { from = t.state; to = to; at = at }
              event_id
              at
              (loaded c disk log s valid))
    unfolding save_move
    save_move-Moves t there own edge =
        let start = loaded c disk log s valid in
        let task = moved t in
        let call = Tasks.upsert_task c task start.store in
        let middle : State Doc F W = record start { store = call.1 } in
        let event = change_event t task in
        on_store-rule Moves (Tasks.upsert_task c task)
          (λ _. record_event c disk log event >> pure task) start
          (λ _ good.
            let (table, elsewhere, stores) =
              subst (λ x. Writes c start.store task (x, call.1)) good
                (upsert_task-Writes c start.store task valid) in
            record_event-rule Moves event (λ _. pure task) middle
              (λ after (payload, reads, tables). record {
                before = t;
                there = there;
                edge = edge;
                result = refl;
                stores = λ other.
                    ap (λ (tb : Tables Doc F). stored c tb.tasks other) tables
                    ∙ stores other
                    ∙ ap (λ k. if other == k then some task else held c s other) own;
                event = (
                  payload,
                  reads,
                  ap (λ (tb : Tables Doc F). tb.events) tables
                      ∙ ap (λ (tb : Tables Doc F). tb.events ++ event_row c event payload ∷ [])
                          elsewhere,
                );
                valid = subst (IsTable c) (sym (ap (λ (tb : Tables Doc F). tb.tasks) tables)) table;
              })
              (λ _ _ _. tt))
          (λ _ _. tt)

    move-Moves :
        (t : Task T)
        → held c s id ≡ some t
        → t.id ≡ id
        → Moves (move c disk log to event_id at t (loaded c disk log s valid))
    unfolding move
    move-Moves t there own = go (transition_task t to at).1 refl
      where
        go :
            (r : Result (StateTransition T) StateMachineError)
            → (transition_task t to at).1 ≡ r
            → Moves (
                (raise_refusal c disk log r >>= λ transition.
                save_move c disk log (transition_task t to at).0 transition event_id at)
                  (loaded c disk log s valid))
        go (err e) h = tt
        go (ok r) h =
            let (edge, reported, result) = transition_task-ok t to at h in
            subst
              (λ (p : Task T × StateTransition T).
                Moves (save_move c disk log p.0 p.1 event_id at (loaded c disk log s valid)))
              (λ i. (sym result i, sym reported i)) (save_move-Moves t there own edge)

    -- A state transition that succeeds has found the task, has moved it along an edge of the diagram
    -- and answers it so, has changed no other task, and has recorded both states as one more event.
    pub transition_task_state-Moves : Moves (transition_task_state c disk log id to event_id at s)
    unfolding transition_task_state
    transition_task_state-Moves =
        load-rule c disk log s valid Moves id (move c disk log to event_id at)
          (λ t there own. move-Moves t there own) (λ _ _. tt)

    -- A transition that the diagram has no edge for is refused with an error that names both states,
    -- and neither the tables nor the disk are touched.
    pub transition_task_state_refused :
        (t : Task T)
        → s.store.refuses s.store.statements ≡ false
        → held c s id ≡ some t
        → ¬ (t.state ⟶ to)
        → transition_task_state c disk log id to event_id at s
          ≡ (err (state_machine (invalid_transition t.state to)), loaded c disk log s valid)
    unfolding transition_task_state move
    transition_task_state_refused t accepted there none_there =
        let found =
          load_accepted c disk log s valid id accepted
          ∙ ap (λ o. or_raise o (task_not_found id) (loaded c disk log s valid)) there in
        bind-ok (load c disk log id) (move c disk log to event_id at) found
        ∙ bind-err (raise_refusal c disk log (transition_task t to at).1)
            (λ transition. save_move c disk log (transition_task t to at).0 transition event_id at)
            (ap (λ r. raise_refusal c disk log r (loaded c disk log s valid))
              (transition_task_refused t to at none_there))

  module _ (s : State Doc F W) (valid : IsValid c s) (id : TaskId) (pr_url : String) (pr_number : ℕ)
      (event_id : EventId) (at now : T) where
    abbrev submitted_event : Task T → Event T
    submitted_event task =
        event_of c disk log task event_id at (task_state_changed "SUBMITTING" "AWAITING_MERGE")

    -- What the completion of a submit has done when it succeeds.
    abbrev pub Completes : Result (Task T) (ServiceError Doc) × State Doc F W → Type 0
    Completes (ok task, after) =
        (before : Task T) × (held c s id ≡ some before)
        × (task ≡ mark_submitted before pr_url pr_number now)
        × (task.state ≡ awaiting_merge)
        × ((other : TaskId)
            → held c after other ≡ (if other == id then some task else held c s other))
        × ((payload second : Doc) × (c.events.from_str payload ≡ some (submitted_event task))
            × (after.store.tables.events
                ≡ (s.store.tables.events ++ event_row c (submitted_event task) payload ∷ [])
                  ++ event_row c
                      (event_of c disk log task (event_id ++ₛ "-submit-completed") at
                        submit_completed)
                      second
                    ∷ []))
    Completes (err e, after) = Fails (held c s id ≡ none) id e

    abbrev completed_event : Task T → Event T
    completed_event task =
        event_of c disk log task (event_id ++ₛ "-submit-completed") at submit_completed

    save_submitted-Completes :
        (t : Task T)
        → held c s id ≡ some t
        → t.id ≡ id
        → Completes (
            save_submitted c disk log
              (mark_submitted t pr_url pr_number now)
              event_id
              at
              (loaded c disk log s valid))
    unfolding save_submitted mark_submitted
    save_submitted-Completes t there own =
        let start = loaded c disk log s valid in
        let task = mark_submitted t pr_url pr_number now in
        let call = Tasks.upsert_task c task start.store in
        let middle : State Doc F W = record start { store = call.1 } in
        on_store-rule Completes (Tasks.upsert_task c task)
          (λ _.
            record_event c disk log (submitted_event task)
            >> (record_event c disk log (completed_event task) >> pure task))
          start
          (λ _ good.
            let (table, elsewhere, stores) =
              subst (λ x. Writes c start.store task (x, call.1)) good
                (upsert_task-Writes c start.store task valid) in
            record_event-rule Completes (submitted_event task)
              (λ _. record_event c disk log (completed_event task) >> pure task) middle
              (λ first (payload, reads, tables).
                record_event-rule Completes (completed_event task) (λ _. pure task) first
                  (λ last (second, _, more).
                    let tasks =
                      ap (λ (tb : Tables Doc F). tb.tasks) more
                      ∙ ap (λ (tb : Tables Doc F). tb.tasks) tables in
                    (
                      t,
                      there,
                      refl,
                      refl,
                      λ other.
                          ap (λ rows. stored c rows other) tasks
                          ∙ stores other
                          ∙ ap (λ k. if other == k then some task else held c s other) own,
                      (
                        payload,
                        second,
                        reads,
                        ap (λ (tb : Tables Doc F). tb.events) more
                            ∙ ap
                                (λ (tb : Tables Doc F).
                                  tb.events ++ event_row c (completed_event task) second ∷ [])
                                tables
                            ∙ ap
                                (λ (tb : Tables Doc F).
                                  (tb.events ++ event_row c (submitted_event task) payload ∷ [])
                                  ++ event_row c (completed_event task) second ∷ [])
                                elsewhere,
                      ),
                    ))
                  (λ e _ out. Fails-outside (held c s id ≡ none) id e out))
              (λ e _ out. Fails-outside (held c s id ≡ none) id e out))
          (λ _ _. tt)

    -- Completing a submit does not ask the state machine. A call fails only on the database, on the
    -- event log, or because there is no such task, and so for no state of the task; and whatever state
    -- the stored task is in, a call that succeeds leaves it awaiting its merge with the pull request,
    -- no other task is changed, and the event that is recorded says that it was submitting.
    pub complete_submit-Completes :
        Completes (complete_submit c disk log id pr_url pr_number event_id at now s)
    unfolding complete_submit mark_submitted
    complete_submit-Completes =
        load-rule c disk log s valid Completes id
          (λ t. save_submitted c disk log (mark_submitted t pr_url pr_number now) event_id at)
          save_submitted-Completes (λ _ fails. fails)
