-- ===== src/Service/Safe.antt =====
-- Whatever a method answers, the stored tasks move along the diagram of the state machine.
use othala.Base.{
  ◌≡◌, refl, sym, ap, subst, ◌∙◌, Bool, true, false, Option, none, some, Result, ok, err, Action,
  ◌>>=◌, ◌>>◌, inl, inr, Bool-cases, bind-rule, bind-ok, bind-err, if◌then◌else◌, ◌==◌, string_eq,
  or_raise, pure,
}
use othala.Core.State.{TaskState, display}
use othala.Core.Task.{Task, TaskId}
use othala.Core.Event.{Event, EventId, task_state_changed}
use othala.Store.{Codecs, Connection, PersistenceError, Tables, sql}
use othala.Store.Sql.{next}
use othala.Store.Events.{append_event}
use othala.Store.Events.Recorded.{Records, append_event-Records}
use othala.Store.Tasks
use othala.Store.Tasks.View.{IsTable, stored, stored-id}
use othala.Store.Tasks.Refines.{Writes, upsert_task-Writes, load_task_lem}
use othala.EventLog.{Disk, JsonlEventLog, append_both}
use othala.StateMachine.{transition_task, StateTransition, StateMachineError}
use othala.StateMachine.Laws.{◌⟶◌, stay, transition_task-ok}
use othala.Service.{
  raise_refusal, persistence, event_log, state_machine, event_of, ServiceError, task_not_found,
  from_store, State, on_store, on_log, record_event, load, move, save_move, transition_task_state,
}
use othala.Service.Rules.{on_store-last, on_log-last, on_store-rule}

-- The errors of a method that does not ask the state machine: those of the database and of the event
-- log, and that the task is missing, which holds then.
abbrev pub Fails : {Doc : Type 0} → Type 0 → TaskId → ServiceError Doc → Type 0
Fails Missing id (persistence _) = Unit
Fails Missing id (event_log _) = Unit
Fails Missing id (state_machine _) = ⊥
Fails Missing id (task_not_found missing) = (missing ≡ id) × Missing

module _ {T : Type 0} where
  -- The same task before and after: still there, still absent, or along an edge of the diagram.
  abbrev pub Moves : Option (Task T) → Option (Task T) → Type 0
  Moves none none = Unit
  Moves (some t) (some t') = t.state ⟶ t'.state
  Moves _ _ = ⊥

  pub Moves-same : (o : Option (Task T)) → Moves o o
  Moves-same none = tt
  Moves-same (some t) = stay

  Moves-edge :
      {o o' : Option (Task T)} {t t' : Task T}
      → o ≡ some t
      → o' ≡ some t'
      → t.state ⟶ t'.state
      → Moves o o'
  Moves-edge e e' edge = rw (e, e') edge

module _ {Doc T F W : Type 0} (c : Codecs Doc T F) where
  -- The task that the service holds under an id.
  abbrev pub held : State Doc F W → TaskId → Option (Task T)
  held s id = stored c s.store.tables.tasks id

  abbrev pub IsValid : State Doc F W → Type 0
  IsValid s = IsTable c s.store.tables.tasks

  pub record Safe (s after : State Doc F W) : Type 0 where
    pub valid : IsValid after
    pub moves : (id : TaskId) → Moves (held s id) (held after id)

  pub Safe-same :
      (s after : State Doc F W)
      → IsValid s
      → after.store.tables.tasks ≡ s.store.tables.tasks
      → Safe s after
  Safe-same s after h e = record { valid = rw e h; moves = λ id. rw e (Moves-same (held s id)) }

  pub Safe-then :
      (s middle after : State Doc F W)
      → Safe s middle
      → after.store.tables.tasks ≡ middle.store.tables.tasks
      → Safe s after
  Safe-then s middle after h e = record { valid = rw e h.valid; moves = λ id. rw e (h.moves id) }

module _ {Doc T F W : Type 0} (c : Codecs Doc T F) (disk : Disk W Doc) (log : JsonlEventLog) where
  abbrev SameTasks :
      {A : Type 0} → State Doc F W → Result A (ServiceError Doc) × State Doc F W → Type 0
  SameTasks s x = x.1.store.tables.tasks ≡ s.store.tables.tasks

  append_event-tasks :
      (event : Event T) (s : Connection Doc F)
      → (append_event c event s).1.tables.tasks ≡ s.tables.tasks
  append_event-tasks event s = go (append_event c event s) (append_event-Records c s event)
    where
      go :
          (x : Result (Unit {0}) (PersistenceError Doc) × Connection Doc F)
          → Records c s event x
          → x.1.tables.tasks ≡ s.tables.tasks
      go (ok _, after) h = ap (λ (t : Tables Doc F). t.tasks) h.3
      go (err _, after) h = ap (λ (t : Tables Doc F). t.tasks) h

  -- Recording an event touches no task.
  pub record_event-tasks :
      (event : Event T) (s : State Doc F W) → SameTasks s (record_event c disk log event s)
  unfolding record_event
  record_event-tasks event s =
      on_store-rule (SameTasks s) (append_event c event)
        (λ _. on_log (append_both disk c.events log event)) s
        (λ _ _.
          on_log-last (SameTasks s) (append_both disk c.events log event) _
            (λ _ _. append_event-tasks event s.store) (λ _ _. append_event-tasks event s.store))
        (λ _ _. append_event-tasks event s.store)

  module _ (s : State Doc F W) (valid : IsValid c s) where
    -- Writing a task in a state that an edge leads to from the stored one.
    pub upsert-Safe :
        (t task : Task T)
        → held c s task.id ≡ some t
        → t.state ⟶ task.state
        → (after : Connection Doc F) → Writes c s.store task (ok tt, after)
        → Safe c s (record s { store = after })
    upsert-Safe t task at edge after (table, _, stores) = record {
      valid = table;
      moves = λ id. elim (Bool-cases (id == task.id)) [
        | inl hit ↦
            let same = (string_eq.same_iff id task.id).0 hit in
            Moves-edge (ap (held c s) same ∙ at) (stores id ∙ ap (pick id) hit) edge
        | inr miss ↦
            subst (Moves (held c s id)) (sym (stores id ∙ ap (pick id) miss))
              (Moves-same (held c s id))
      ];
    }
      where
        pick : TaskId → Bool → Option (Task T)
        pick id b = if b then some task else held c s id

    -- Loading is one statement, after which the connection is this one.
    abbrev pub loaded : State Doc F W
    loaded = record s { store = next s.store }

    -- What a load has done, by how it ended. It fails on the database or because there is no task.
    abbrev pub Loads : TaskId → Result (Task T) (ServiceError Doc) × State Doc F W → Type 0
    Loads id (ok t, after) = (held c s id ≡ some t) × (after ≡ loaded)
    Loads id (err e, after) = Fails (held c s id ≡ none) id e × (after ≡ loaded)

    or_raise-Loads :
        (id : TaskId) (o : Option (Task T))
        → held c s id ≡ o
        → Loads id (or_raise o (task_not_found id) loaded)
    or_raise-Loads id none e = ((refl, e), refl)
    or_raise-Loads id (some t) e = (e, refl)

    load-asked :
        (id : TaskId) (b : Bool)
        → s.store.refuses s.store.statements ≡ b
        → Tasks.load_task c id s.store ≡ (if b then err sql else ok (held c s id), next s.store)
    load-asked id b e =
        load_task_lem c s.store id valid
        ∙ ap (λ refused. (if refused then err sql else ok (held c s id), next s.store)) e

    abbrev or_not_found :
        TaskId → Option (Task T) → Action (State Doc F W) (ServiceError Doc) (Task T)
    or_not_found id o = or_raise o (task_not_found id)

    load_refused :
        (id : TaskId)
        → s.store.refuses s.store.statements ≡ true
        → load c disk log id s ≡ (err (persistence sql), loaded)
    unfolding load
    load_refused id e =
        bind-err (on_store (Tasks.load_task c id)) (or_not_found id)
          (ap (from_store s) (load-asked id true e))

    pub load_accepted :
        (id : TaskId)
        → s.store.refuses s.store.statements ≡ false
        → load c disk log id s ≡ or_raise (held c s id) (task_not_found id) loaded
    unfolding load
    load_accepted id e =
        bind-ok (on_store (Tasks.load_task c id)) (or_not_found id)
          (ap (from_store s) (load-asked id false e))

    load-Loads : (id : TaskId) → Loads id (load c disk log id s)
    load-Loads id = elim (Bool-cases (s.store.refuses s.store.statements)) [
      | inl refused ↦ subst (Loads id) (sym (load_refused id refused)) (tt, refl)
      | inr accepted ↦
          subst (Loads id) (sym (load_accepted id accepted)) (or_raise-Loads id (held c s id) refl)
    ]

    -- To prove something of a method that starts with a load.
    pub load-rule :
        {A : Type 0} (P : Result A (ServiceError Doc) × State Doc F W → Type 0) (id : TaskId)
        (k : Task T → Action (State Doc F W) (ServiceError Doc) A)
        → ((t : Task T) → held c s id ≡ some t → t.id ≡ id → P (k t loaded))
        → ((e : ServiceError Doc) → Fails (held c s id ≡ none) id e → P (err e, loaded))
        → P ((load c disk log id >>= k) s)
    load-rule P id k good bad =
        let loads = load-Loads id in
        bind-rule (load c disk log id) k P s
          (λ t h.
            let (there, same) = subst (λ x. Loads id (x, (load c disk log id s).1)) h loads in
            subst (λ u. P (k t u)) (sym same)
              (good t there (stored-id c s.store.tables.tasks id t valid there)))
          (λ e h.
            let (fails, same) = subst (λ x. Loads id (x, (load c disk log id s).1)) h loads in
            subst (λ u. P (err e, u)) (sym same) (bad e fails))

  -- The state after a call is safe, however the call ended.
  abbrev pub Ends :
      {A : Type 0} → State Doc F W → Result A (ServiceError Doc) × State Doc F W → Type 0
  Ends s x = Safe c s x.1

  -- A call that touches no task, after a safe state.
  pub record_event-Ends :
      (s middle : State Doc F W) (event : Event T) (task : Task T)
      → Safe c s middle
      → Ends s ((record_event c disk log event >> pure task) middle)
  record_event-Ends s middle event task h =
      bind-rule (record_event c disk log event) (λ _. pure task) (Ends s) middle
        (λ _ _. Safe-then c s middle _ h (record_event-tasks event middle))
        (λ _ _. Safe-then c s middle _ h (record_event-tasks event middle))

  -- A method that writes a task in a state that an edge leads to, and goes on from there.
  pub upsert-Ends :
      {A : Type 0} (s : State Doc F W) (valid : IsValid c s) (t task : Task T)
      (k : Unit {0} → Action (State Doc F W) (ServiceError Doc) A)
      → held c s task.id ≡ some t
      → t.state ⟶ task.state
      → ((after : State Doc F W) → Safe c s after → Ends s (k tt after))
      → Ends s ((on_store (Tasks.upsert_task c task) >>= k) s)
  upsert-Ends s valid t task k there edge next_calls =
      let call = Tasks.upsert_task c task s.store in
      let written = upsert_task-Writes c s.store task valid in
      on_store-rule (Ends s) (Tasks.upsert_task c task) k s
        (λ _ good. next_calls _ (
          upsert-Safe s valid t task there edge call.1
            (subst (λ x. Writes c s.store task (x, call.1)) good written)))
        (λ e bad. Safe-same c s _ valid (
          ap (λ (t : Tables Doc F). t.tasks)
            (subst (λ x. Writes c s.store task (x, call.1)) bad written)))

  pub upsert-alone :
      (s : State Doc F W) (valid : IsValid c s) (t task : Task T)
      → held c s task.id ≡ some t
      → t.state ⟶ task.state
      → Ends s (on_store (Tasks.upsert_task c task) s)
  upsert-alone s valid t task there edge =
      let call = Tasks.upsert_task c task s.store in
      let written = upsert_task-Writes c s.store task valid in
      on_store-last (Ends s) (Tasks.upsert_task c task) s
        (λ _ good.
          upsert-Safe s valid t task there edge call.1
            (subst (λ x. Writes c s.store task (x, call.1)) good written))
        (λ e bad. Safe-same c s _ valid (
          ap (λ (t : Tables Doc F). t.tasks)
            (subst (λ x. Writes c s.store task (x, call.1)) bad written)))

  save_move-Ends :
      (s : State Doc F W) (valid : IsValid c s) (t task : Task T) (r : StateTransition T)
      (event_id : EventId) (at : T)
      → held c s task.id ≡ some t
      → t.state ⟶ task.state
      → Ends s (save_move c disk log task r event_id at s)
  unfolding save_move
  save_move-Ends s valid t task r event_id at there edge =
      let event =
        event_of c disk log task event_id at (task_state_changed (display r.from) (display r.to)) in
      upsert-Ends s valid t task (λ _. record_event c disk log event >> pure task) there edge
        (λ after h. record_event-Ends s after event task h)

  move-Ends :
      (s : State Doc F W) (valid : IsValid c s) (t : Task T) (to : TaskState) (event_id : EventId)
      (at : T)
      → held c s t.id ≡ some t
      → Ends s (move c disk log to event_id at t s)
  unfolding move
  move-Ends s valid t to event_id at there = go (transition_task t to at).1 refl
    where
      go :
          (r : Result (StateTransition T) StateMachineError)
          → (transition_task t to at).1 ≡ r
          → Ends s (
              (raise_refusal c disk log r >>= λ transition.
              save_move c disk log (transition_task t to at).0 transition event_id at)
                s)
      go (err e) h = Safe-same c s s valid refl
      go (ok r) h =
          let (edge, _, moved) = transition_task-ok t to at h in
          save_move-Ends s valid t (transition_task t to at).0 r event_id at
            (ap (λ u. held c s u.id) moved ∙ there)
            (subst (λ u. t.state ⟶ u.state) (sym moved) edge)

  pub Safe-loaded :
      (s : State Doc F W) (valid : IsValid c s) (after : State Doc F W)
      → Safe c (loaded s valid) after
      → Safe c s after
  Safe-loaded s valid after h = record { valid = h.valid; moves = h.moves }

  -- Whatever a state transition answers, and wherever it fails, every task is held as before or has
  -- moved along an edge of the diagram, no task appears or vanishes, and the table stays valid.
  pub transition_task_state-Safe :
      (s : State Doc F W) (id : TaskId) (to : TaskState) (event_id : EventId) (at : T)
      → IsValid c s
      → Safe c s (transition_task_state c disk log id to event_id at s).1
  unfolding transition_task_state
  transition_task_state-Safe s id to event_id at valid =
      load-rule s valid (Ends s) id (move c disk log to event_id at)
        (λ t there own.
          Safe-loaded s valid _
            (move-Ends (loaded s valid) valid t to event_id at (ap (held c s) own ∙ there)))
        (λ _ _. Safe-same c s _ valid refl)
