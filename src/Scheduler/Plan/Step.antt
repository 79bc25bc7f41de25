-- ===== src/Scheduler/Plan/Step.antt =====
-- One round of the loop of `plan`: it blocks the task for a reason that holds, or assigns it.
use mathlib.Core.List.{Memᴰ}
use othala.Base.{
  ℕ, suc, ◌+◌, ◌≤◌, ◌<◌, ◌≡◌, refl, inl, inr, true, false, Option, some, none, List, [], ◌∷◌, arith,
  leb, is_empty, Bool-cases, Option-cases, All, if◌then◌else◌, ◌==◌, PartialEq, string_eq,
  unwrap_or, count,
}
use othala.Base.Assoc.{Assoc, get, get-insert}
use othala.Core.State.{TaskState}
use othala.Core.Task.{TaskId, RepoId, ModelKind, model_eq}
use othala.Scheduler.{
  SchedulerConfig, QueuedTask, RunningTask, BlockReason, dependencies_unresolved,
  repo_limit_reached, model_limit_reached, no_available_model,
}
use othala.Scheduler.Models.{limit_of, select_model_with_capacity}
use othala.Scheduler.Models.Laws.{select_model-some, select_model-none}
use othala.Scheduler.Plan.{
  Progress, count_of, bump, count_running, deps_resolved, block, assign, place,
}

module _ {K : Type 0} ⦃cmp : PartialEq K⦄ where
  pub count_of-bump :
      (counts : Assoc K ℕ) (key other : K)
      → count_of (bump counts key) other
        ≡ (if key == other then suc (count_of counts other) else count_of counts other)
  unfolding count_of bump
  count_of-bump counts key other = ground (
    arith,
    get-insert counts key other (unwrap_or (get counts key) 0 + 1),
    cmp.same_iff key other,
  )

-- The loop over the running tasks counts them, by repository and by model.
pub count_running-counts :
    (p : Progress) (rs : List RunningTask) (repo : RepoId) (model : ModelKind)
    → (count_of (count_running p rs).repo_counts repo
        ≡ count (λ r. r.repo_id == repo) rs + count_of p.repo_counts repo)
      × (count_of (count_running p rs).model_counts model
          ≡ count (λ r. r.model == model) rs + count_of p.model_counts model)
      × ((count_running p rs).assignments ≡ p.assignments)
      × ((count_running p rs).blocked ≡ p.blocked)
unfolding count_running
count_running-counts p [] repo model = (omega arith, omega arith, refl, refl)
count_running-counts p (r ∷ rs) repo model =
    let next = record p {
      repo_counts = bump p.repo_counts r.repo_id;
      model_counts = bump p.model_counts r.model;
    } in
    let (repos, models, same, blocks) = count_running-counts next rs repo model in
    (
      ground (arith, repos, count_of-bump p.repo_counts r.repo_id repo),
      ground (arith, models, count_of-bump p.model_counts r.model model),
      same,
      blocks,
    )

is_empty-nil : (ms : List ModelKind) → is_empty ms ≡ true → ms ≡ []
is_empty-nil [] h = refl
is_empty-nil (m ∷ ms) h = cc

module _ {T : Type 0} (config : SchedulerConfig) (states : Assoc TaskId TaskState)
    (available : List ModelKind) where
  -- What a reason says of the counts.
  abbrev pub Why : Progress → QueuedTask T → BlockReason → Type 0
  Why p q dependencies_unresolved = deps_resolved states q ≡ false
  Why p q repo_limit_reached = config.per_repo_limit ≤ count_of p.repo_counts q.repo_id
  Why p q no_available_model = available ≡ []
  Why p q model_limit_reached =
      All (λ m. limit_of config.per_model_limit m ≤ count_of p.model_counts m) available

  pub record CanRun (p : Progress) (q : QueuedTask T) (m : ModelKind) : Type 0 where
    pub resolved : deps_resolved states q ≡ true
    pub repo_room : count_of p.repo_counts q.repo_id < config.per_repo_limit
    pub known : Memᴰ m available
    pub model_room : count_of p.model_counts m < limit_of config.per_model_limit m

  pub data Placed (p : Progress) (q : QueuedTask T) : Progress → Type 0 where
    blocks : (reason : BlockReason) → Why p q reason → Placed p q (block p q reason)
    assigns : (m : ModelKind) → CanRun p q m → Placed p q (assign p q m)

  abbrev selected : Progress → QueuedTask T → Option ModelKind
  selected p q =
      select_model_with_capacity q.preferred_model available p.model_counts config.per_model_limit

  none_has_room :
      (p : Progress) (q : QueuedTask T) → selected p q ≡ none → Why p q model_limit_reached
  unfolding count_of
  none_has_room p q e =
      select_model-none available p.model_counts config.per_model_limit q.preferred_model e

  can_run :
      (p : Progress) (q : QueuedTask T) (m : ModelKind)
      → deps_resolved states q ≡ true
      → count_of p.repo_counts q.repo_id < config.per_repo_limit
      → selected p q ≡ some m
      → CanRun p q m
  unfolding count_of
  can_run p q m resolved room e =
      let (known, free) =
        select_model-some available p.model_counts config.per_model_limit q.preferred_model e in
      record { resolved = resolved; repo_room = room; known = known; model_room = free }

  pub place-Placed :
      (p : Progress) (q : QueuedTask T) → Placed p q (place config states available p q)
  unfolding place
  place-Placed p q = elim (Bool-cases (deps_resolved states q)) [
    | inr waits ↦ rw waits (blocks dependencies_unresolved waits)
    | inl resolved ↦
        elim (Bool-cases (leb config.per_repo_limit (count_of p.repo_counts q.repo_id))) [
          | inl full ↦ rw (resolved, full) (blocks repo_limit_reached (ground arith))
          | inr room ↦ elim (Bool-cases (is_empty available)) [
            | inl nothing ↦
                rw (resolved, room, nothing)
                  (blocks no_available_model (is_empty-nil available nothing))
            | inr something ↦ elim (Option-cases (selected p q)) [
              | inl e ↦
                  rw (resolved, room, something, e)
                    (blocks model_limit_reached (none_has_room p q e))
              | inr (m, e) ↦
                  rw (resolved, room, something, e)
                    (assigns m (can_run p q m resolved (ground arith) e))
            ]
          ]
        ]
  ]
