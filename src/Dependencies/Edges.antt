-- ===== src/Dependencies/Edges.antt =====
-- The edges of the graph that `build_dependency_graph` builds.
use mathlib.Core.List.{Memᴰ}
use mathlib.Core.List.Memᴰ
use othala.Base.{
  ◌≡◌, refl, sym, ◌∙◌, ◌↔◌, ◌⊎◌, inl, inr, Bool, true, false, ◌||◌, not, List, [], ◌∷◌, map, arith,
  ◌==◌, contains, contains_iff, string_eq, Bool-cases, ◌≢◌,
}
use othala.Base.Sets.{or_default, members-or_default, mem-add_member}
use othala.Core.Task.{Task, TaskId}
use othala.Dependencies.{
  DependencyGraph, empty, children, parents, with_edge, add_edge_if_valid, add_parents, add_tasks,
  add_edges, task_ids, build_dependency_graph,
}

-- What makes the source keep the edge.
abbrev pub IsValid : List TaskId → TaskId → TaskId → Type 0
IsValid known p c = (p ≢ c) × Memᴰ p known × Memᴰ c known

module _ (graph : DependencyGraph) (parent child : TaskId) (known : List TaskId) where
  -- The edge is valid and recorded, or it is not valid and the graph is as it was.
  add_edge-cases :
      (IsValid known parent child
        × (add_edge_if_valid graph parent child known ≡ with_edge graph parent child))
      ⊎ ((IsValid known parent child → ⊥) × (add_edge_if_valid graph parent child known ≡ graph))
  unfolding add_edge_if_valid
  add_edge-cases =
      ground (
        arith,
        string_eq.same_iff parent child,
        contains_iff known parent,
        contains_iff known child,
      )

  children-add_edge :
      (p c : TaskId)
      → Memᴰ c (children (add_edge_if_valid graph parent child known) p)
        ↔ (Memᴰ c (children graph p) ⊎ ((p ≡ parent) × (c ≡ child) × IsValid known parent child))
  children-add_edge p c =
      let (from, to) = mem-add_member graph.children_by_parent parent p child c in
      elim add_edge-cases [
        | inl (valid, e) ↦ rw e (
          λ m. elim (from m) [ inl old ↦ inl old | inr new ↦ inr (new.0, new.1, valid) ],
          λ m. elim m [ inl old ↦ to (inl old) | inr new ↦ to (inr (new.0, new.1)) ],
        )
        | inr (invalid, e) ↦ rw e (
          (λ m. inl m),
          λ m. elim m [ inl old ↦ old | inr (_, _, valid) ↦ absurd (invalid valid) ],
        )
      ]

children-add_parents :
    (graph : DependencyGraph) (deps : List TaskId) (child : TaskId) (known : List TaskId)
    (p c : TaskId)
    → Memᴰ c (children (add_parents graph deps child known) p)
      ↔ (Memᴰ c (children graph p) ⊎ (Memᴰ p deps × (c ≡ child) × IsValid known p child))
unfolding add_parents
children-add_parents graph [] child known p c =
    (λ m. inl m, λ m. elim m [ inl old ↦ old | inr new ↦ elim new.0 [ ] ])
children-add_parents graph (dep ∷ deps) child known p c =
    let (from, to) =
      children-add_parents (add_edge_if_valid graph dep child known) deps child known p c in
    let (from_edge, to_edge) = children-add_edge graph dep child known p c in
    (
      λ m. elim (from m) [
        | inr (later, same, valid) ↦ inr (Memᴰ.tail later, same, valid)
        | inl here ↦ elim (from_edge here) [
          | inl old ↦ inl old
          | inr (e, same, valid) ↦ inr (Memᴰ.head e, same, rw e valid)
        ]
      ],
      λ m. elim m [
        | inl old ↦ to (inl (to_edge (inl old)))
        | inr (there, same, valid) ↦ elim (Memᴰ.cases_cons there) [
          | inl e ↦ to (inl (to_edge (inr (e, same, rw (← e) valid))))
          | inr later ↦ to (inr (later, same, valid))
        ]
      ],
    )

module _ {T : Type 0} where
  -- A task of the list that names `p` among its dependencies.
  abbrev pub DependsOn : List (Task T) → TaskId → TaskId → Type 0
  DependsOn tasks p c = (t : Task T) × Memᴰ t tasks × (t.id ≡ c) × Memᴰ p t.depends_on

  children-add_edges :
      (graph : DependencyGraph) (tasks : List (Task T)) (known : List TaskId) (p c : TaskId)
      → Memᴰ c (children (add_edges graph tasks known) p)
        ↔ (Memᴰ c (children graph p) ⊎ (DependsOn tasks p c × IsValid known p c))
  unfolding add_edges
  children-add_edges graph [] known p c =
      (λ m. inl m, λ m. elim m [ inl old ↦ old | inr ((_, there, _, _), _) ↦ elim there [ ] ])
  children-add_edges graph (task ∷ tasks) known p c =
      let next = add_parents graph task.depends_on task.id known in
      let (from, to) = children-add_edges next tasks known p c in
      let (from_here, to_here) = children-add_parents graph task.depends_on task.id known p c in
      (
        λ m. elim (from m) [
          | inr ((t, there, named, dep), valid) ↦ inr ((t, Memᴰ.tail there, named, dep), valid)
          | inl here ↦ elim (from_here here) [
            | inl old ↦ inl old
            | inr (dep, e, valid) ↦ inr ((task, Memᴰ.head refl, sym e, dep), rw e valid)
          ]
        ],
        λ m. elim m [
          | inl old ↦ to (inl (to_here (inl old)))
          | inr ((t, there, named, dep), valid) ↦ elim (Memᴰ.cases_cons there) [
            | inr later ↦ to (inr ((t, later, named, dep), valid))
            | inl e ↦
                let named' : task.id ≡ c = rw (← e) named in
                to (inl (to_here (inr (rw (← e) dep, sym named', rw named' valid))))
          ]
        ],
      )

  children-add_tasks :
      (graph : DependencyGraph) (tasks : List (Task T)) (p : TaskId)
      → children (add_tasks graph tasks) p ≡ children graph p
  unfolding add_tasks
  children-add_tasks graph [] p = refl
  children-add_tasks graph (task ∷ tasks) p =
      children-add_tasks
        record {
          parents_by_child = or_default graph.parents_by_child task.id;
          children_by_parent = or_default graph.children_by_parent task.id;
        }
        tasks p
      ∙ members-or_default graph.children_by_parent task.id p

  -- In the graph built from a list of tasks, `c` is a child of `p` exactly if a task `c` of the list
  -- names `p` among its dependencies, `p` is not `c` itself, and both are ids of tasks in the list.
  pub children-build :
      (tasks : List (Task T)) (p c : TaskId)
      → Memᴰ c (children (build_dependency_graph tasks) p)
        ↔ (DependsOn tasks p c × IsValid (task_ids tasks) p c)
  unfolding build_dependency_graph othala.Base.Assoc.get
  children-build tasks p c =
      let (from, to) = children-add_edges (add_tasks empty tasks) tasks (task_ids tasks) p c in
      (
        λ m. elim (from m) [
          | inl old ↦ elim (rw (children-add_tasks empty tasks p) at old) [ ]
          | inr new ↦ new
        ],
        λ m. to (inr m),
      )

-- The two maps of a graph hold the same edges.
abbrev pub Agrees : DependencyGraph → Type 0
Agrees graph = (p c : TaskId) → Memᴰ p (parents graph c) ↔ Memᴰ c (children graph p)

add_edge-Agrees :
    (graph : DependencyGraph) (parent child : TaskId) (known : List TaskId)
    → Agrees graph
    → Agrees (add_edge_if_valid graph parent child known)
add_edge-Agrees graph parent child known h p c =
    let (from, to) = mem-add_member graph.children_by_parent parent p child c in
    let (from_up, to_up) = mem-add_member graph.parents_by_child child c parent p in
    elim (add_edge-cases graph parent child known) [
      | inr (_, e) ↦ rw e (h p c)
      | inl (_, e) ↦ rw e (
        λ m. elim (from_up m) [
          | inl old ↦ to (inl ((h p c).0 old))
          | inr new ↦ to (inr (new.1, new.0))
        ],
        λ m. elim (from m) [
          | inl old ↦ to_up (inl ((h p c).1 old))
          | inr new ↦ to_up (inr (new.1, new.0))
        ],
      )
    ]

add_parents-Agrees :
    (graph : DependencyGraph) (deps : List TaskId) (child : TaskId) (known : List TaskId)
    → Agrees graph
    → Agrees (add_parents graph deps child known)
unfolding add_parents
add_parents-Agrees graph [] child known h = h
add_parents-Agrees graph (dep ∷ deps) child known h =
    add_parents-Agrees (add_edge_if_valid graph dep child known) deps child known
      (add_edge-Agrees graph dep child known h)

module _ {T : Type 0} where
  add_edges-Agrees :
      (graph : DependencyGraph) (tasks : List (Task T)) (known : List TaskId)
      → Agrees graph
      → Agrees (add_edges graph tasks known)
  unfolding add_edges
  add_edges-Agrees graph [] known h = h
  add_edges-Agrees graph (task ∷ tasks) known h =
      add_edges-Agrees (add_parents graph task.depends_on task.id known) tasks known
        (add_parents-Agrees graph task.depends_on task.id known h)

  parents-add_tasks :
      (graph : DependencyGraph) (tasks : List (Task T)) (c : TaskId)
      → parents (add_tasks graph tasks) c ≡ parents graph c
  unfolding add_tasks
  parents-add_tasks graph [] c = refl
  parents-add_tasks graph (task ∷ tasks) c =
      parents-add_tasks
        record {
          parents_by_child = or_default graph.parents_by_child task.id;
          children_by_parent = or_default graph.children_by_parent task.id;
        }
        tasks c
      ∙ members-or_default graph.parents_by_child task.id c

  -- In the graph built from a list of tasks, `p` is a parent of `c` exactly if `c` is a child of `p`.
  pub parents-build :
      (tasks : List (Task T)) (p c : TaskId)
      → Memᴰ p (parents (build_dependency_graph tasks) c)
        ↔ Memᴰ c (children (build_dependency_graph tasks) p)
  unfolding build_dependency_graph othala.Base.Assoc.get
  parents-build tasks = add_edges-Agrees (add_tasks empty tasks) tasks (task_ids tasks) (λ p c.
      rw (parents-add_tasks empty tasks c, children-add_tasks empty tasks p)
        (λ m. elim m [ ], λ m. elim m [ ]))
