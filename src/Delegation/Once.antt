-- ===== src/Delegation/Once.antt =====
-- A subtask is handed out until it is started, and never again.
use mathlib.Core.List.{Memᴰ}
use mathlib.Core.Option.{none-ne-some}
use othala.Base.{
  ℕ, ◌≡◌, refl, sym, ◌∙◌, ap, ◌<◌, inl, inr, some, List, [], ◌∷◌, arith, Bool-cases, string_eq,
  index_eq, length, String, leb, ◌==◌, ==_refl,
}
use othala.Base.Assoc.{get, insert, get-insert}
use othala.Delegation.{
  DelegationTracker, start_subtask, complete_subtask, fail_subtask, skip_subtask, settle,
  next_runnable, SubTaskStatus, is_complete,
}
use othala.Delegation.Runnable.{next_runnable_iff}

-- What the daemon may tell the tracker.
pub data Operation : Type 0 where
  start : (idx : ℕ) (task_id : String) → Operation
  complete : (idx : ℕ) → Operation
  fail : (idx : ℕ) (reason : String) → Operation
  skip : (idx : ℕ) → Operation

module _ {T : Type 0} where
  abbrev pub perform : DelegationTracker T → Operation → T → DelegationTracker T
  perform self (start idx task_id) now = start_subtask self idx task_id now
  perform self (complete idx) now = complete_subtask self idx now
  perform self (fail idx reason) now = fail_subtask self idx reason now
  perform self (skip idx) now = skip_subtask self idx now

  abbrev pub perform_all : DelegationTracker T → List (Operation × T) → DelegationTracker T
  perform_all self [] = self
  perform_all self ((operation, now) ∷ rest) = perform_all (perform self operation now) rest

  -- A task stands for the subtask.
  abbrev IsStarted : DelegationTracker T → ℕ → Type 0
  IsStarted self idx = (task_id : String) × (get self.task_id_mapping idx ≡ some task_id)

  settle-mapping :
      (self : DelegationTracker T) (idx : ℕ) (status : SubTaskStatus) (now : T)
      → (settle self idx status now).task_id_mapping ≡ self.task_id_mapping
  settle-mapping self idx status now =
      let settled = record self { statuses = insert self.statuses idx status } in
      elim (Bool-cases (leb (length self.plan.subtasks) idx)) [
        | inl out ↦ rw out refl
        | inr inside ↦ elim (Bool-cases (is_complete settled)) [
          | inl over ↦ rw (inside, over) refl
          | inr left ↦ rw (inside, left) refl
        ]
      ]

  start-IsStarted :
      (self : DelegationTracker T) (other : ℕ) (task_id : String) (now : T) (idx : ℕ)
      → IsStarted self idx
      → IsStarted (start_subtask self other task_id now) idx
  unfolding start_subtask
  start-IsStarted self other task_id now idx (old, e) =
      elim (Bool-cases (leb (length self.plan.subtasks) other)) [
        | inl out ↦ rw out (old, e)
        | inr inside ↦ rw inside (elim (Bool-cases (other == idx)) [
          | inl hit ↦ (task_id, get-insert self.task_id_mapping other idx task_id ∙ rw hit refl)
          | inr miss ↦ (old, get-insert self.task_id_mapping other idx task_id ∙ rw miss e)
        ])
      ]

  perform-IsStarted :
      (self : DelegationTracker T) (operation : Operation) (now : T) (idx : ℕ)
      → IsStarted self idx
      → IsStarted (perform self operation now) idx
  unfolding complete_subtask fail_subtask skip_subtask
  perform-IsStarted self (start other task_id) now idx h =
      start-IsStarted self other task_id now idx h
  perform-IsStarted self (complete other) now idx (task_id, e) =
      (task_id, ap (λ mapping. get mapping idx) (settle-mapping self other _ now) ∙ e)
  perform-IsStarted self (fail other reason) now idx (task_id, e) =
      (task_id, ap (λ mapping. get mapping idx) (settle-mapping self other _ now) ∙ e)
  perform-IsStarted self (skip other) now idx (task_id, e) =
      (task_id, ap (λ mapping. get mapping idx) (settle-mapping self other _ now) ∙ e)

  perform_all-IsStarted :
      (self : DelegationTracker T) (operations : List (Operation × T)) (idx : ℕ)
      → IsStarted self idx
      → IsStarted (perform_all self operations) idx
  perform_all-IsStarted self [] idx h = h
  perform_all-IsStarted self ((operation, now) ∷ rest) idx h =
      perform_all-IsStarted (perform self operation now) rest idx
        (perform-IsStarted self operation now idx h)

  -- A subtask of the plan that is started is never handed out again, whatever is started, completed,
  -- failed or skipped afterwards.
  pub started-once :
      (self : DelegationTracker T) (idx : ℕ) (task_id : String) (now : T)
      (later : List (Operation × T))
      → idx < length self.plan.subtasks
      → ¬ Memᴰ idx (next_runnable (perform_all (start_subtask self idx task_id now) later))
  started-once self idx task_id now later inside m =
      let begun : IsStarted (start_subtask self idx task_id now) idx =
        unfold start_subtask in
        (
          task_id,
          ground (arith, inside, get-insert self.task_id_mapping idx idx task_id, ==_refl idx),
        ) in
      let (id, e) = perform_all-IsStarted (start_subtask self idx task_id now) later idx begun in
      let (_, (_, _, _, fresh, _)) =
        (next_runnable_iff (perform_all (start_subtask self idx task_id now) later) idx).0 m in
      none-ne-some _ (sym fresh ∙ e)
