-- ===== src/Delegation/Waves/Valid.antt =====
-- A plan that DelegationPlan::validate accepts has an order of execution.
use othala.Base.{
  ℕ, suc, ◌<◌, ◌≡◌, refl, sym, subst, inl, inr, false, List, [], ◌∷◌, ◌++◌, ok, err, String, length,
  is_empty, text_eq, ltb, arith, Bool-cases, Option-cases, Result-cases,
}
use othala.Base.Text.{chars}
use othala.Base.Assoc.{get}
use othala.Delegation.{SubTaskSpec, DelegationPlan, range}
use othala.Delegation.Waves.{
  Titles, PlanError, Graph, title_of, with_title, index_unique, check_titles, check_deps,
  missing_deps, check_cycles, link, link_deps, link_all, no_links, build_graph, unresolved, verdict,
  validate, execution_order, waves_from,
}
use othala.Delegation.Waves.Loop.{waves_from-IsStuck}
use othala.Delegation.Waves.Cycles.{unresolved-IsStuck, length-range}
use othala.Delegation.Waves.Build.{build_graph-IsGraphOf}

cons-ne-nil : {x : PlanError} {xs : List PlanError} → (x ∷ xs) ≡ [] → ⊥
cons-ne-nil h = ground arith

append-nil_inv : (xs : List PlanError) {ys : List PlanError} → xs ++ ys ≡ [] → (xs ≡ []) × (ys ≡ [])
append-nil_inv [] h = (refl, h)
append-nil_inv (x ∷ xs) h = absurd (cons-ne-nil h)

is-open : (open_ends : ℕ) → ltb 0 open_ends ≡ false → 0 < open_ends → ⊥
is-open open_ends h k = ground arith

verdict-ok : {errors : List PlanError} → verdict errors ≡ ok tt → errors ≡ []
verdict-ok h = ground arith

-- Titles that are not complained of are indexed.
check_titles-index_unique :
    (idx : ℕ) (subtasks : List SubTaskSpec) (acc : Titles)
    → (check_titles idx subtasks acc).1 ≡ []
    → index_unique idx subtasks acc ≡ ok (check_titles idx subtasks acc).0
unfolding check_titles index_unique
check_titles-index_unique idx [] acc h = refl
check_titles-index_unique idx (subtask ∷ rest) acc h =
    elim (Bool-cases (is_empty (title_of subtask))) [
      | inl empty ↦ absurd (cons-ne-nil (rw empty at h))
      | inr named ↦ elim (Option-cases (get acc (title_of subtask))) [
        | inl fresh ↦
            let later : (check_titles (suc idx) rest (with_title acc (title_of subtask) idx)).1
                ≡ [] =
              rw named (rw (named, fresh) at h) in
            let known =
              check_titles-index_unique (suc idx) rest (with_title acc (title_of subtask) idx)
                later in
            rw (named, fresh) (rw named at known)
        | inr (old, found) ↦ absurd (cons-ne-nil (rw (named, found) at h))
      ]
    ]

-- Dependencies that are not missing are linked.
check_deps-link_deps :
    (titles : Titles) (idx : ℕ) (deps : List String) (graph : Graph)
    → missing_deps titles idx deps ≡ []
    → (linked : Graph) × (link_deps titles idx deps graph ≡ ok linked)
unfolding link_deps
check_deps-link_deps titles idx [] graph h = (graph, refl)
check_deps-link_deps titles idx (dep ∷ deps) graph h =
    elim (Option-cases (get titles (chars dep))) [
      | inl unknown ↦ absurd (cons-ne-nil (rw unknown at h))
      | inr (d, found) ↦
          rw (link_deps, found)
            (check_deps-link_deps titles idx deps (link graph d idx) (rw found at h))
    ]

check_deps-link_all :
    (titles : Titles) (idx : ℕ) (subtasks : List SubTaskSpec) (graph : Graph)
    → check_deps titles idx subtasks ≡ []
    → (linked : Graph) × (link_all titles idx subtasks graph ≡ ok linked)
unfolding link_all check_deps
check_deps-link_all titles idx [] graph h = (graph, refl)
check_deps-link_all titles idx (subtask ∷ rest) graph h =
    let (here, later) = append-nil_inv (missing_deps titles idx subtask.depends_on) h in
    let (middle, linked) = check_deps-link_deps titles idx subtask.depends_on graph here in
    rw (link_all, linked) (check_deps-link_all titles (suc idx) rest middle later)

module _ {T : Type 0} (plan : DelegationPlan T) where
  -- What an accepted plan passes: its graph is built, and all of it is resolved.
  valid-resolved :
      validate plan ≡ ok tt
      → (graph : Graph) × (open_ends : ℕ) × (build_graph plan ≡ ok (graph, open_ends))
        × (ltb 0 open_ends ≡ false)
  unfolding validate build_graph
  valid-resolved h =
      (graph, unresolved n graph, built, closed (append-nil_inv (checked.1 ++ deps) all_good).1)
    where
      n : ℕ
      n = length plan.subtasks

      checked : Titles × List PlanError
      checked = check_titles 0 plan.subtasks []

      deps : List PlanError
      deps = check_deps checked.0 0 plan.subtasks

      all_good : checked.1 ++ deps ++ check_cycles (build_graph plan) ≡ []
      all_good = verdict-ok h

      indexed : index_unique 0 plan.subtasks [] ≡ ok checked.0
      indexed =
          check_titles-index_unique 0 plan.subtasks []
            (append-nil_inv checked.1 (append-nil_inv (checked.1 ++ deps) all_good).0).0

      linked_all : (linked : Graph) × (link_all checked.0 0 plan.subtasks (no_links n) ≡ ok linked)
      linked_all =
          check_deps-link_all checked.0 0 plan.subtasks (no_links n)
            (append-nil_inv checked.1 (append-nil_inv (checked.1 ++ deps) all_good).0).1

      graph : Graph
      graph = linked_all.0

      built : build_graph plan ≡ ok (graph, unresolved n graph)
      built = rw (build_graph, indexed, linked_all.1) refl

      closed : check_cycles (build_graph plan) ≡ [] → ltb 0 (unresolved n graph) ≡ false
      closed fine = elim (Bool-cases (ltb 0 (unresolved n graph))) [
        | inl cyclic ↦ absurd (cons-ne-nil (rw (built, cyclic) at fine))
        | inr none_left ↦ none_left
      ]

  -- The order of execution fails exactly on the plans that `validate` refuses, with its complaints;
  -- a plan that it accepts is always given an order.
  pub execution_order-validate :
      ((errors : List PlanError) → validate plan ≡ err errors → execution_order plan ≡ err errors)
      × (validate plan ≡ ok tt → (waves : List (List ℕ)) × (execution_order plan ≡ ok waves))
  unfolding execution_order
  execution_order-validate = (
    λ errors bad. rw (execution_order, bad) refl,
    λ valid.
        let (graph, open_ends, built, closed) = valid-resolved valid in
        let ((good, _), same) = build_graph-IsGraphOf plan graph open_ends built in
        let n = length plan.subtasks in
        elim (Result-cases (
          waves_from plan.strategy plan.max_parallel graph.children n (range 0 n) graph.indegree)) [
            | inl (waves, ordered) ↦ (waves, rw (execution_order, valid, built, closed) ordered)
            | inr (e, stuck) ↦
                let (i, rest, blocked, inside) =
                  waves_from-IsStuck graph.children plan.strategy plan.max_parallel n (range 0 n)
                    graph.indegree stuck (omega (arith, length-range 0 n)) good.2 in
                let left = unresolved-IsStuck n graph i rest good blocked inside in
                absurd (is-open open_ends closed (subst (λ k. 0 < k) (sym same) left))
          ],
  )
