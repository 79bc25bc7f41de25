-- ===== src/StateMachine/Laws.antt =====
-- What the transition table allows, against the diagram in the comment of `is_transition_allowed`.
use othala.Base.{◌≡◌, refl, ◌↔◌, true, arith, ok, err, Bool-cases, inl, inr}
use othala.Core.State.{
  TaskState, chatting, ready, submitting, restacking, awaiting_merge, merged, stopped,
}
use othala.Core.Task.{Task}
use othala.StateMachine.{
  StateTransition, StateMachineError, invalid_transition, is_transition_allowed, transition_task,
}

-- The edges of the documented diagram.
infix 40 ◌⟶◌ ◌⟶*◌
pub data ◌⟶◌ : TaskState → TaskState → Type 0 where
  stay : {s : TaskState} → s ⟶ s
  finish : chatting ⟶ ready
  submit : ready ⟶ submitting
  restack_ready : ready ⟶ restacking
  submitted : submitting ⟶ awaiting_merge
  restack_submitting : submitting ⟶ restacking
  restacked : restacking ⟶ ready
  merge : awaiting_merge ⟶ merged
  restack_waiting : awaiting_merge ⟶ restacking
  retry : {s : TaskState} → s ⟶ chatting
  cancel_chat : chatting ⟶ stopped
  cancel_ready : ready ⟶ stopped

pub data ◌⟶*◌ : TaskState → TaskState → Type 0 where
  here : {s : TaskState} → s ⟶* s
  then : {s t u : TaskState} → s ⟶ t → t ⟶* u → s ⟶* u

ruleset edges = (
  stay, finish, submit, restack_ready, submitted, restack_submitting, restacked, merge,
  restack_waiting, retry, cancel_chat, cancel_ready,
)

pub sound : (s t : TaskState) → s ⟶ t → is_transition_allowed s t ≡ true
unfolding is_transition_allowed
sound s _ stay = ground arith
sound _ _ finish = refl
sound _ _ submit = refl
sound _ _ restack_ready = refl
sound _ _ submitted = refl
sound _ _ restack_submitting = refl
sound _ _ restacked = refl
sound _ _ merge = refl
sound _ _ restack_waiting = refl
sound s _ retry = ground arith
sound _ _ cancel_chat = refl
sound _ _ cancel_ready = refl

pub complete : (s t : TaskState) → is_transition_allowed s t ≡ true → s ⟶ t
unfolding is_transition_allowed
complete s t h = grind (arith, edges)

-- A state change is allowed exactly when the documented diagram has an edge for it, where each
-- state has a loop, every state an edge back to `chatting`, and `chatting` and `ready` one to
-- `stopped`.
pub is_transition_allowed_iff :
    (from to : TaskState) → (is_transition_allowed from to ≡ true) ↔ (from ⟶ to)
is_transition_allowed_iff from to = (complete from to, sound from to)

module _ {T : Type 0} (task : Task T) (to : TaskState) (at : T) where
  -- A refused transition has no edge in the diagram, its error names the two states, and it leaves
  -- the task as it was, field for field.
  pub transition_task-err :
      {e : StateMachineError}
      → (transition_task task to at).1 ≡ err e
      → ((transition_task task to at).0 ≡ task)
        × (e ≡ invalid_transition task.state to)
        × (¬ (task.state ⟶ to))
  unfolding transition_task
  transition_task-err h = (ground arith, ground arith, λ edge. ground (arith, sound _ _ edge))

  -- An accepted transition follows an edge, reports that edge and the instant, and changes only the
  -- task's state and its time of update.
  pub transition_task-ok :
      {r : StateTransition T}
      → (transition_task task to at).1 ≡ ok r
      → (task.state ⟶ to)
        × (r ≡ record { from = task.state; to = to; at = at })
        × ((transition_task task to at).0 ≡ record task { state = to; updated_at = at })
  unfolding transition_task
  transition_task-ok h = (complete _ _ (ground arith), ground arith, ground arith)

  pub transition_task_refused :
      ¬ (task.state ⟶ to) → (transition_task task to at).1 ≡ err (invalid_transition task.state to)
  unfolding transition_task
  transition_task_refused none_there = elim (Bool-cases (is_transition_allowed task.state to)) [
    | inl allowed ↦ absurd (none_there (complete _ _ allowed))
    | inr refused ↦ rw (transition_task, refused)
  ]
