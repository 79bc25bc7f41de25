-- ===== src/StateMachine/Merging.antt =====
-- How a task gets to `merged`: what any sequence of requested transitions must hold.
use mathlib.Core.List.{Sublistᴰ}
use mathlib.Core.List.Sublistᴰ
use othala.Base.{◌≡◌, refl, inl, inr, List, [], ◌∷◌, arith, Bool-cases}
use othala.Core.State.{TaskState, chatting, ready, submitting, awaiting_merge, merged, stopped}
use othala.Core.Task.{Task}
use othala.StateMachine.{is_transition_allowed, transition_task}
use othala.StateMachine.Laws.{
  ◌⟶◌, stay, finish, submit, restack_ready, submitted, restack_submitting, restacked, merge,
  restack_waiting, retry, cancel_chat, cancel_ready, complete,
}

-- The requests that a task still needs, in this order, before it can be merged.
abbrev pub to_merge : TaskState → List TaskState
to_merge submitting = awaiting_merge ∷ merged ∷ []
to_merge awaiting_merge = merged ∷ []
to_merge merged = []
to_merge ready = submitting ∷ awaiting_merge ∷ merged ∷ []
to_merge _ = ready ∷ submitting ∷ awaiting_merge ∷ merged ∷ []

all_requests : (s : TaskState) → Sublistᴰ (to_merge s) (to_merge chatting)
all_requests submitting = Sublistᴰ.cons (Sublistᴰ.cons (Sublistᴰ.refl _))
all_requests awaiting_merge = Sublistᴰ.cons (Sublistᴰ.cons (Sublistᴰ.cons (Sublistᴰ.refl _)))
all_requests merged = Sublistᴰ.nil-sublist _
all_requests ready = Sublistᴰ.cons (Sublistᴰ.refl _)
all_requests _ = Sublistᴰ.refl _

-- An edge supplies at most the first request that is missing.
to_merge-edge : {s t : TaskState} → s ⟶ t → Sublistᴰ (to_merge s) (t ∷ to_merge t)
to_merge-edge stay = Sublistᴰ.cons (Sublistᴰ.refl _)
to_merge-edge finish = Sublistᴰ.refl _
to_merge-edge submit = Sublistᴰ.refl _
to_merge-edge restack_ready = Sublistᴰ.cons (all_requests ready)
to_merge-edge submitted = Sublistᴰ.refl _
to_merge-edge restack_submitting = Sublistᴰ.cons (all_requests submitting)
to_merge-edge restacked = Sublistᴰ.refl _
to_merge-edge merge = Sublistᴰ.refl _
to_merge-edge restack_waiting = Sublistᴰ.cons (all_requests awaiting_merge)
to_merge-edge (retry {s}) = Sublistᴰ.cons (all_requests s)
to_merge-edge cancel_chat = Sublistᴰ.cons (Sublistᴰ.refl _)
to_merge-edge cancel_ready = Sublistᴰ.cons (all_requests ready)

-- The shortest way to `merged`, through `chatting` from where the diagram has no other.
abbrev pub way : TaskState → List TaskState
way stopped = chatting ∷ to_merge chatting
way s = to_merge s

module _ {T : Type 0} where
  -- A task after a sequence of requests, at one instant; a refused request changes nothing.
  unfoldable pub after : T → Task T → List TaskState → Task T
  after at task [] = task
  after at task (to ∷ rest) = after at (transition_task task to at).0 rest

  transition_task-state :
      (task : Task T) (to : TaskState) (at : T)
      → Sublistᴰ (to_merge task.state) (to ∷ to_merge (transition_task task to at).0.state)
  unfolding transition_task
  transition_task-state task to at = elim (Bool-cases (is_transition_allowed task.state to)) [
    | inl allowed ↦ rw allowed (to_merge-edge (complete _ _ allowed))
    | inr refused ↦ rw refused (Sublistᴰ.cons (Sublistᴰ.refl _))
  ]

  -- Whatever is requested, a task that ends `merged` was asked, in this order, for the states that
  -- stood between its first state and `merged`: from `chatting`, for `ready`, `submitting`,
  -- `awaiting_merge` and `merged`.
  pub merged_needs_requests :
      (at : T) (task : Task T) (requests : List TaskState)
      → (after at task requests).state ≡ merged
      → Sublistᴰ (to_merge task.state) requests
  unfolding after
  merged_needs_requests at task [] h = rw h Sublistᴰ.slnil
  merged_needs_requests at task (to ∷ rest) h =
      Sublistᴰ.trans (transition_task-state task to at)
        (Sublistᴰ.cons-cons refl (merged_needs_requests at (transition_task task to at).0 rest h))

  -- From every state the machine can bring a task to `merged`: no state is a dead end.
  pub way_merges : (at : T) (task : Task T) → (after at task (way task.state)).state ≡ merged
  unfolding after transition_task is_transition_allowed
  way_merges at task = go task.state refl
    where
      go : (s : TaskState) → task.state ≡ s → (after at task (way s)).state ≡ merged
      go chatting e = ground arith
      go _ e = ground arith
