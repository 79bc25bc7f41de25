-- ===== src/Service/Overwrites.antt =====
-- crates/orchd/src/service.rs: the methods that write or remove a task as they are told to.
use Prim.Native.String.{◌++◌ as ◌++ₛ◌}
use othala.Base.{
  ℕ, ◌≡◌, refl, ap, subst, ◌∙◌, Bool, false, Result, ok, err, ◌>>◌, bind-rule, pure, String, ◌==◌,
  string_eq,
}
use othala.Core.Task.{Task, TaskId, mark_submitted}
use othala.Core.Event.{Event, EventId, task_state_changed, submit_completed}
use othala.Store.{Codecs, Tables, Connection, PersistenceError}
use othala.Store.Tasks
use othala.Store.Tasks.Refines.{Writes, upsert_task-Writes}
use othala.Store.Tasks.Removal.{Deletes, delete_task-Deletes}
use othala.EventLog.{Disk, JsonlEventLog}
use othala.Service.{
  State, record_event, create_task, upsert_task, delete_task, event_of, save_submitted,
  complete_submit,
}
use othala.Service.Rules.{on_store-last, on_store-rule}
use othala.Service.Safe.{held, IsValid, loaded, load-rule, record_event-tasks}

module _ {Doc T F W : Type 0} (c : Codecs Doc T F) where
  -- The table is valid, and only the task of this id may differ.
  pub record Spares (key : TaskId) (s after : State Doc F W) : Type 0 where
    pub valid : IsValid c after
    pub others : (id : TaskId) → (id == key) ≡ false → held c after id ≡ held c s id

  Spares-then :
      (key : TaskId) (s middle after : State Doc F W)
      → Spares key s middle
      → after.store.tables.tasks ≡ middle.store.tables.tasks
      → Spares key s after
  Spares-then key s middle after h e = record {
    valid = rw e h.valid;
    others = λ id off. rw e (h.others id off);
  }

  Spares-same :
      (key : TaskId) (s after : State Doc F W)
      → IsValid c s
      → after.store.tables.tasks ≡ s.store.tables.tasks
      → Spares key s after
  Spares-same key s after valid e =
      Spares-then key s s after (record { valid = valid; others = λ id off. refl }) e

  module _ (s : State Doc F W) (valid : IsValid c s) where
    written-Spares :
        (task : Task T) (x : Result (Unit {0}) (PersistenceError Doc) × Connection Doc F)
        → Writes c s.store task x
        → Spares task.id s (record s { store = x.1 })
    written-Spares task (ok _, after) (table, _, stores) = record {
      valid = table;
      others = λ id off. stores id ∙ rw off refl;
    }
    written-Spares task (err _, after) same =
        Spares-same task.id s (record s { store = after }) valid
          (ap (λ (t : Tables Doc F). t.tasks) same)

    put-Spares :
        (task : Task T)
        → Spares task.id s (record s { store = (Tasks.upsert_task c task s.store).1 })
    put-Spares task =
        written-Spares task (Tasks.upsert_task c task s.store)
          (upsert_task-Writes c s.store task valid)

    deleted-Spares :
        (id : TaskId) (x : Result Bool (PersistenceError Doc) × Connection Doc F)
        → Deletes c s.store id x
        → Spares id s (record s { store = x.1 })
    deleted-Spares id (ok _, after) (_, table, stores, _, _, _, _) = record {
      valid = table;
      others = λ other off. stores other ∙ rw off refl;
    }
    deleted-Spares id (err _, after) (same, _) =
        Spares-same id s (record s { store = after }) valid same

    pub delete_task-Spares :
        (disk : Disk W Doc) (log : JsonlEventLog) (id : TaskId)
        → Spares id s (delete_task c disk log id s).1
    unfolding delete_task
    delete_task-Spares disk log id =
        let deleted =
          deleted-Spares id (Tasks.delete_task c id s.store)
            (delete_task-Deletes c s.store id valid) in
        on_store-last (λ x. Spares id s x.1) (Tasks.delete_task c id) s (λ _ _. deleted)
          (λ _ _. deleted)

    pub upsert_task-Spares :
        (disk : Disk W Doc) (log : JsonlEventLog) (task : Task T)
        → Spares task.id s (upsert_task c disk log task s).1
    unfolding upsert_task
    upsert_task-Spares disk log task =
        on_store-last (λ x. Spares task.id s x.1) (Tasks.upsert_task c task) s
          (λ _ _. put-Spares task) (λ _ _. put-Spares task)

    pub create_task-Spares :
        (disk : Disk W Doc) (log : JsonlEventLog) (task : Task T) (event : Event T)
        → Spares task.id s (create_task c disk log task event s).1
    unfolding create_task
    create_task-Spares disk log task event =
        on_store-rule (λ x. Spares task.id s x.1) (Tasks.upsert_task c task)
          (λ _. record_event c disk log event) s
          (λ _ _.
            Spares-then task.id s _ _ (put-Spares task) (record_event-tasks c disk log event _))
          (λ _ _. put-Spares task)

module _ {Doc T F W : Type 0} (c : Codecs Doc T F) (disk : Disk W Doc) (log : JsonlEventLog) where
  -- Recording two events after a write.
  recorded-Spares :
      (key : TaskId) (s middle : State Doc F W) (one two : Event T) (task : Task T)
      → Spares c key s middle
      → Spares c key s
          ((record_event c disk log one >> (record_event c disk log two >> pure task)) middle).1
  recorded-Spares key s middle one two task h =
      bind-rule (record_event c disk log one) (λ _. record_event c disk log two >> pure task)
        (λ x. Spares c key s x.1) middle
        (λ _ _.
          let next = (record_event c disk log one middle).1 in
          let first =
            Spares-then c key s middle next h (record_event-tasks c disk log one middle) in
          let second =
            Spares-then c key s next (record_event c disk log two next).1 first
              (record_event-tasks c disk log two next) in
          bind-rule (record_event c disk log two) (λ _. pure task) (λ x. Spares c key s x.1) next
            (λ _ _. second) (λ _ _. second))
        (λ _ _. Spares-then c key s middle _ h (record_event-tasks c disk log one middle))

  save_submitted-Spares :
      (s : State Doc F W) (valid : IsValid c s) (task : Task T) (event_id : EventId) (at : T)
      → Spares c task.id s (save_submitted c disk log task event_id at s).1
  unfolding save_submitted
  save_submitted-Spares s valid task event_id at =
      let one =
        event_of c disk log task event_id at (task_state_changed "SUBMITTING" "AWAITING_MERGE") in
      let two = event_of c disk log task (event_id ++ₛ "-submit-completed") at submit_completed in
      on_store-rule (λ x. Spares c task.id s x.1) (Tasks.upsert_task c task)
        (λ _. record_event c disk log one >> (record_event c disk log two >> pure task)) s
        (λ _ _. recorded-Spares task.id s _ one two task (put-Spares c s valid task))
        (λ _ _. put-Spares c s valid task)

  pub complete_submit-Spares :
      (s : State Doc F W) (valid : IsValid c s) (id : TaskId) (pr_url : String) (pr_number : ℕ)
      (event_id : EventId) (at now : T)
      → Spares c id s (complete_submit c disk log id pr_url pr_number event_id at now s).1
  unfolding complete_submit mark_submitted
  complete_submit-Spares s valid id pr_url pr_number event_id at now =
      load-rule c disk log s valid (λ x. Spares c id s x.1) id
        (λ t. save_submitted c disk log (mark_submitted t pr_url pr_number now) event_id at)
        (λ t there own.
          let saved =
            save_submitted-Spares (loaded c disk log s valid) valid
              (mark_submitted t pr_url pr_number now) event_id at in
          let spared : Spares c t.id s
              (save_submitted c disk log (mark_submitted t pr_url pr_number now) event_id at
                (loaded c disk log s valid)).1 =
            record { valid = saved.valid; others = saved.others } in
          subst
            (λ key.
              Spares c key s
                (save_submitted c disk log (mark_submitted t pr_url pr_number now) event_id at
                  (loaded c disk log s valid)).1)
            own spared)
        (λ _ _. Spares-same c id s _ valid refl)
