-- ===== src/Delegation/Waves/Build.antt =====
-- The order of execution that DelegationPlan::execution_order gives a plan.
use mathlib.Core.List.{Memᴰ}
use mathlib.Core.Path.{Path}
use mathlib.Core.Option.{some-ne-none}
use othala.Base.{
  ℕ, zero, suc, ◌+◌, ◌≤◌, ◌<◌, ◌≡◌, sym, ◌∙◌, ap, subst, ◌↔◌, inl, inr, false, some, List, [], ◌∷◌,
  at, All, Result, ok, err, String, count, length, is_empty, if◌then◌else◌, index_eq, text_eq, ◌==◌,
  ltb, arith, Bool-cases, Result-cases,
}
use othala.Base.Text.{chars}
use othala.Base.Assoc.{get}
use othala.Delegation.{SubTaskSpec, DelegationPlan, range}
use othala.Delegation.Waves.{
  Titles, Graph, title_of, index_unique, link_all, no_links, build_graph, unresolved, validate,
  execution_order, width_for,
}
use othala.Delegation.Waves.Rounds.{concat}
use othala.Delegation.Waves.Precedence.{InOrder}
use othala.Delegation.Waves.Loop.{waves_from-IsOrder}
use othala.Delegation.Waves.Links.{
  links, IsGraph, link_all_lem, count-range, no_links_lem, no_links-IsGraph,
}
use othala.Delegation.Waves.TitleIndex.{index_unique_finds, index_unique_sound}

at-length {ℓ} : {A : Type ℓ} (xs : List A) (k : ℕ) {a : A} → at xs k ≡ some a → k < length xs
at-length [] k h = absurd (some-ne-none _ (sym h))
at-length (x ∷ xs) zero h = omega arith
at-length (x ∷ xs) (suc k) h = omega (arith, at-length xs k h)

pub mem-range : (start n d : ℕ) → start ≤ d → d < start + n → Memᴰ d (range start n)
mem-range start zero d h k = absurd (omega (arith, h, k))
mem-range start (suc n) d h k = elim (Bool-cases (d == start)) [
  | inl hit ↦ Memᴰ.head ((index_eq.same_iff d start).0 hit)
  | inr miss ↦
      let past : suc start ≤ d = ground (arith, h, miss) in
      Memᴰ.tail (mem-range (suc start) n d past (omega (arith, k)))
]

err-ne-ok {ℓ κ} : {A : Type ℓ} {E : Type κ} {e : E} {a : A} → Path (Result A E) (err e) (ok a) → ⊥
err-ne-ok h = ground arith

ok_inj {ℓ κ} : {A : Type ℓ} {E : Type κ} {a b : A} → Path (Result A E) (ok a) (ok b) → a ≡ b
ok_inj h = ground arith

module _ {T : Type 0} (plan : DelegationPlan T) where
  -- The subtask `i` names the title of the subtask `d` among those it depends on.
  abbrev pub Needs : ℕ → ℕ → Type 0
  Needs i d =
      (subtask needed : SubTaskSpec) × (dep : String) × (at plan.subtasks i ≡ some subtask)
      × Memᴰ dep subtask.depends_on
      × (at plan.subtasks d ≡ some needed)
      × (title_of needed ≡ chars dep)
      × (is_empty (chars dep) ≡ false)

  -- The graph of the plan has a link for every need.
  abbrev pub IsGraphOf : Graph → Type 0
  IsGraphOf graph =
      IsGraph (length plan.subtasks) graph × ((i d : ℕ) → Needs i d ↔ (1 ≤ links graph d i))

  linked-IsGraphOf :
      (titles : Titles) (graph : Graph)
      → index_unique 0 plan.subtasks [] ≡ ok titles
      → link_all titles 0 plan.subtasks (no_links (length plan.subtasks)) ≡ ok graph
      → IsGraphOf graph
  unfolding get
  linked-IsGraphOf titles graph indexed linked =
      let (good, grown) =
        link_all_lem titles (length plan.subtasks) fits 0 plan.subtasks
          (no_links (length plan.subtasks)) (omega arith) (no_links-IsGraph (length plan.subtasks))
          linked in
      (
        good,
        λ i d.
            let (from, to) = grown d i in
            (
              λ (subtask, needed, dep, here, m, there, same, named). to (
                  inr (
                    i,
                    subtask,
                    omega arith,
                    here,
                    (
                      dep,
                      m,
                      ap (get titles) (sym same)
                          ∙ index_unique_finds 0 plan.subtasks [] d needed indexed there
                              (ap is_empty same ∙ named)
                          ∙ ap (λ n. some n) (omega arith),
                    ),
                  )),
              λ h. elim (from h) [
                | inl old ↦ absurd (omega (arith, old, no_links_lem (length plan.subtasks) d i))
                | inr (k, subtask, e, here, (dep, m, found)) ↦
                    let (k', needed, e', there, same, named) = sound dep d found in
                    (
                      subtask,
                      needed,
                      dep,
                      ap (at plan.subtasks) (omega (arith, e)) ∙ here,
                      m,
                      ap (at plan.subtasks) (omega (arith, e')) ∙ there,
                      same,
                      named,
                    )
              ],
            ),
      )
    where
      sound :
          (dep : String) (v : ℕ)
          → get titles (chars dep) ≡ some v
          → (k : ℕ) × (subtask : SubTaskSpec) × (v ≡ 0 + k)
            × (at plan.subtasks k ≡ some subtask)
            × (title_of subtask ≡ chars dep)
            × (is_empty (chars dep) ≡ false)
      sound dep v found = elim (index_unique_sound 0 plan.subtasks [] (chars dep) v indexed found) [
        | inl h ↦ absurd (some-ne-none v (sym h))
        | inr known ↦ known
      ]

      fits : (key : List ℕ) (v : ℕ) → get titles key ≡ some v → v < length plan.subtasks
      fits key v found = elim (index_unique_sound 0 plan.subtasks [] key v indexed found) [
        | inl h ↦ absurd (some-ne-none v (sym h))
        | inr (k, subtask, e, there, _, _) ↦ omega (arith, e, at-length plan.subtasks k there)
      ]

  pub build_graph-IsGraphOf :
      (graph : Graph) (open_ends : ℕ)
      → build_graph plan ≡ ok (graph, open_ends)
      → IsGraphOf graph × (open_ends ≡ unresolved (length plan.subtasks) graph)
  unfolding build_graph
  build_graph-IsGraphOf graph open_ends h = elim (Result-cases (index_unique 0 plan.subtasks [])) [
    | inr (e, bad) ↦ absurd (err-ne-ok (rw (build_graph, bad) at h))
    | inl (titles, indexed) ↦
        elim (Result-cases (link_all titles 0 plan.subtasks (no_links (length plan.subtasks)))) [
          | inr (e, bad) ↦ absurd (err-ne-ok (rw (build_graph, indexed, bad) at h))
          | inl (built, linked) ↦
              let same = ok_inj (rw (build_graph, indexed, linked) at h) in
              let same_graph : built ≡ graph = ap (λ pair. pair.0) same in
              (
                subst IsGraphOf same_graph (linked-IsGraphOf titles built indexed linked),
                sym (ap (λ pair. pair.1) same) ∙ ap (unresolved (length plan.subtasks)) same_graph,
              )
        ]
  ]

  -- Every subtask that is left is one of the plan, so nothing is needed that is not.
  Needs-range : (i d : ℕ) → Needs i d → Memᴰ d (range 0 (length plan.subtasks))
  Needs-range i d (subtask, needed, dep, here, m, there, same, named) =
      mem-range 0 (length plan.subtasks) d (omega arith)
        (omega (arith, at-length plan.subtasks d there))

  -- When a plan is given an order, the subtasks stand in it in such a way that what a subtask depends
  -- on is in a wave before its own; each subtask of the plan is in one wave, once, and nothing else
  -- is; and no wave has more subtasks than the strategy lets run at a time (one, or `max_parallel`
  -- but at least one).
  pub execution_order-IsOrder :
      (waves : List (List ℕ))
      → execution_order plan ≡ ok waves
      → InOrder Needs [] waves
        × ((i : ℕ)
            → count (λ j. j == i) (concat waves) ≡ (if ltb i (length plan.subtasks) then 1 else 0))
        × All (λ w. length w ≤ width_for plan.strategy plan.max_parallel) waves
  unfolding execution_order
  execution_order-IsOrder waves h = elim (Result-cases (validate plan)) [
    | inr (e, bad) ↦ absurd (err-ne-ok (rw (execution_order, bad) at h))
    | inl (_, valid) ↦ elim (Result-cases (build_graph plan)) [
      | inr (e, bad) ↦ absurd (err-ne-ok (rw (execution_order, valid, bad) at h))
      | inl ((graph, open_ends), built) ↦ elim (Bool-cases (ltb 0 open_ends)) [
        | inl cyclic ↦ absurd (err-ne-ok (rw (execution_order, valid, built, cyclic) at h))
        | inr closed ↦
            let ((good, needs), _) = build_graph-IsGraphOf graph open_ends built in
            let (ordered, counts, wide) =
              waves_from-IsOrder Needs graph.children (λ i d. (needs i d).0) plan.strategy
                plan.max_parallel (length plan.subtasks) [] (range 0 (length plan.subtasks))
                graph.indegree (rw (execution_order, valid, built, closed) at h) good.2
                (λ i d need. inr (Needs-range i d need)) in
            (
              ordered,
              λ i. counts (λ j. j == i) ∙ count-range 0 (length plan.subtasks) i ∙ ground arith,
              wide,
            )
      ]
    ]
  ]
