-- ===== src/StateMachine.antt =====
-- crates/orchd/src/state_machine.rs: which state changes are allowed, and a task's transition.
pub mod Laws
pub mod Merging
mod Tests
use othala.Base.{Bool, true, false, Result, ok, err, ◌==◌, if◌then◌else◌}
use othala.Core.State.{
  TaskState, chatting, ready, submitting, restacking, awaiting_merge, merged, stopped, state_eq,
}
use othala.Core.Task.{Task}

pub data StateMachineError : Type 0 where
  invalid_transition : (from to : TaskState) → StateMachineError

pub record StateTransition (T : Type 0) : Type 0 where
  pub from : TaskState
  pub to : TaskState
  pub at : T

-- The table of the `match`; its last clauses are `(_, Chatting)` and the cancellations.
abbrev table : TaskState → TaskState → Bool
table chatting ready = true
table ready submitting = true
table ready restacking = true
table submitting awaiting_merge = true
table submitting restacking = true
table restacking ready = true
table awaiting_merge merged = true
table awaiting_merge restacking = true
table _ chatting = true
table chatting stopped = true
table ready stopped = true
table _ _ = false

unfoldable pub is_transition_allowed : TaskState → TaskState → Bool
is_transition_allowed from to = if from == to then true else table from to

module _ {T : Type 0} where
  -- The task is passed by `&mut`: the result holds the task as the call leaves it.
  unfoldable pub transition_task :
      Task T → TaskState → T → Task T × Result (StateTransition T) StateMachineError
  transition_task task to at =
      let from = task.state in
      if is_transition_allowed from to
      then (
        record task { state = to; updated_at = at },
        ok (record { from = from; to = to; at = at }),
      )
      else (task, err (invalid_transition from to))
