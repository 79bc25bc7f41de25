-- ===== src/Dependencies/Tests.antt =====
-- The theorems at one small project, with a dependency that is not there and one on itself.
use mathlib.Core.List.{Memᴰ}
use othala.Base.{ℕ, ◌≡◌, refl, ◌↔◌, some, List, [], ◌∷◌}
use othala.Core.Task.{Task, TaskId, new, with_dependency}
use othala.Dependencies.{
  DependencyGraph, children, task_ids, build_dependency_graph, restack_descendants_for_parent,
}
use othala.Dependencies.Edges.{IsValid, DependsOn, children-build}
use othala.Dependencies.Restack.{Lists, restack_descendants-Lists}

abbrev named : TaskId → Task ℕ
unfolding new
named id = new 0 id "repo" id "wt"

abbrev project : List (Task ℕ)
unfolding new with_dependency
project =
    named "T1"
    ∷ with_dependency (named "T3") "T1"
    ∷ with_dependency (named "T2") "T1"
    ∷ with_dependency (with_dependency (named "T4") "T2") "T4"
    ∷ with_dependency (named "T5") "T9"
    ∷ []

abbrev graph : DependencyGraph
graph = build_dependency_graph project

descendants_of_t1 : restack_descendants_for_parent graph "T1" ≡ some ("T2" ∷ "T3" ∷ "T4" ∷ [])
unfolding restack_descendants_for_parent build_dependency_graph new with_dependency
    othala.Base.Assoc.insert othala.Base.Assoc.get
descendants_of_t1 = refl

restack_descendants-Lists_example :
    (ids : List TaskId) × (restack_descendants_for_parent graph "T1" ≡ some ids)
    × Lists graph "T1" ids
restack_descendants-Lists_example = restack_descendants-Lists graph "T1"

children-build_example :
    Memᴰ "T4" (children graph "T2")
    ↔ (DependsOn project "T2" "T4" × IsValid (task_ids project) "T2" "T4")
children-build_example = children-build project "T2" "T4"
