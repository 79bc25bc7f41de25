-- ===== src/StateMachine/Tests.antt =====
-- Small runs of the state machine, and its theorems at them.
use mathlib.Core.List.{Sublistᴰ}
use othala.Base.{ℕ, refl, List, [], ◌∷◌}
use othala.Core.State.{TaskState, chatting, ready, submitting, restacking, awaiting_merge, merged}
use othala.Core.Task.{Task, new}
use othala.StateMachine.{StateTransition, is_transition_allowed, transition_task}
use othala.StateMachine.Merging.{after, merged_needs_requests}

-- `Task::new` at instant 0, where instants are counted in seconds.
abbrev fresh : Task ℕ
unfolding new
fresh = new 0 "T1" "example" "Test task" ".orch/wt/T1"

abbrev finished : StateTransition ℕ
finished = record { from = chatting; to = ready; at = 7 }

abbrev requested : List TaskState
requested =
    ready ∷ merged ∷ restacking ∷ ready ∷ submitting ∷ awaiting_merge ∷ chatting ∷ ready
    ∷ submitting ∷ awaiting_merge ∷ merged ∷ []

merged_needs_requests_example :
    Sublistᴰ (ready ∷ submitting ∷ awaiting_merge ∷ merged ∷ []) requested
unfolding new transition_task is_transition_allowed after
merged_needs_requests_example = merged_needs_requests 0 fresh requested refl
