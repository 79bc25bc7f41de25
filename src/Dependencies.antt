-- ===== src/Dependencies.antt =====
-- crates/orchd/src/dependency_graph.rs: who depends on whom, and whom to restack after a change.
pub mod Edges
pub mod Enqueue
pub mod Restack
pub mod Universe
pub mod Walk
mod Tests
use Prim.Native.String.{compare as compare_text}
use Prim.Native.Nat.{Ordering}
use othala.Base.{
  ℕ, zero, suc, ◌+◌, Bool, true, false, ◌&&◌, ◌||◌, not, Option, none, some, List, [], ◌∷◌, ◌++◌,
  map, length, PartialEq, ◌==◌, contains, string_eq, if◌then◌else◌,
}
use othala.Base.Assoc.{Assoc}
use othala.Base.Sets.{members, or_default, add_member}
use othala.Core.Task.{Task, TaskId}

pub record DependencyGraph : Type 0 where
  pub parents_by_child : Assoc TaskId (List TaskId)
  pub children_by_parent : Assoc TaskId (List TaskId)

abbrev pub empty : DependencyGraph
empty = record { parents_by_child = []; children_by_parent = [] }

abbrev pub children : DependencyGraph → TaskId → List TaskId
children graph id = members graph.children_by_parent id

abbrev pub parents : DependencyGraph → TaskId → List TaskId
parents graph id = members graph.parents_by_child id

abbrev pub with_edge : DependencyGraph → TaskId → TaskId → DependencyGraph
with_edge graph parent child = record {
  parents_by_child = add_member graph.parents_by_child child parent;
  children_by_parent = add_member graph.children_by_parent parent child;
}

-- The order of the arguments is the source's, the graph first.
unfoldable pub add_edge_if_valid : DependencyGraph → TaskId → TaskId → List TaskId → DependencyGraph
add_edge_if_valid graph parent child known_tasks =
    if parent == child
    then graph
    else if not (contains known_tasks parent) || not (contains known_tasks child)
    then graph
    else with_edge graph parent child

-- The loop over one task's `depends_on`.
unfoldable pub add_parents : DependencyGraph → List TaskId → TaskId → List TaskId → DependencyGraph
unfolding add_edge_if_valid
add_parents graph [] child known_tasks = graph
add_parents graph (parent ∷ rest) child known_tasks =
    add_parents (add_edge_if_valid graph parent child known_tasks) rest child known_tasks

module _ {T : Type 0} where
  -- The first loop: an entry for every task.
  unfoldable pub add_tasks : DependencyGraph → List (Task T) → DependencyGraph
  add_tasks graph [] = graph
  add_tasks graph (task ∷ tasks) =
      add_tasks
        record {
          parents_by_child = or_default graph.parents_by_child task.id;
          children_by_parent = or_default graph.children_by_parent task.id;
        }
        tasks

  -- The second loop: the edges of every task.
  unfoldable pub add_edges : DependencyGraph → List (Task T) → List TaskId → DependencyGraph
  unfolding add_parents
  add_edges graph [] known_tasks = graph
  add_edges graph (task ∷ tasks) known_tasks =
      add_edges (add_parents graph task.depends_on task.id known_tasks) tasks known_tasks

  abbrev pub task_ids : List (Task T) → List TaskId
  task_ids tasks = map (λ task. task.id) tasks

  unfoldable pub build_dependency_graph : List (Task T) → DependencyGraph
  unfolding add_tasks add_edges
  build_dependency_graph tasks = add_edges (add_tasks empty tasks) tasks (task_ids tasks)

abbrev pub follows : TaskId → TaskId → Bool
follows a b = elim (compare_text a b) [ Ordering.gt ↦ true | _ ↦ false ]

unfoldable pub insert_id : TaskId → List TaskId → List TaskId
insert_id a [] = a ∷ []
insert_id a (b ∷ rest) =
    let later = insert_id a rest in if follows a b then b ∷ later else a ∷ b ∷ rest

unfoldable pub sorted_task_ids : List TaskId → List TaskId
unfolding insert_id
sorted_task_ids [] = []
sorted_task_ids (a ∷ rest) = insert_id a (sorted_task_ids rest)

-- The ids that were seen, and those still to be looked at.
pub record Frontier : Type 0 where
  pub seen : List TaskId
  pub queue : List TaskId

abbrev pub push_back : Frontier → TaskId → Frontier
push_back f child =
    if contains f.seen child
    then f
    else record { seen = child ∷ f.seen; queue = f.queue ++ child ∷ [] }

-- The inner loop, `if seen.insert(child) { queue.push_back(child) }`.
unfoldable pub enqueue : Frontier → List TaskId → Frontier
enqueue f [] = f
enqueue f (child ∷ rest) = enqueue (push_back f child) rest

-- The outer loop. Each round takes one id from the queue, and one unit of fuel.
unfoldable pub visit : DependencyGraph → ℕ → List TaskId → Frontier → Option (List TaskId)
unfolding enqueue sorted_task_ids
visit graph zero out f = elim f.queue [ [] ↦ some out | _ ∷ _ ↦ none ]
visit graph (suc fuel) out f = elim f.queue [
  | [] ↦ some out
  | node ∷ rest ↦
      visit graph fuel (out ++ node ∷ [])
        (enqueue record { seen = f.seen; queue = rest } (sorted_task_ids (children graph node)))
]

-- The number of edges, which the queue never outgrows.
abbrev pub edge_count : Assoc TaskId (List TaskId) → ℕ
edge_count [] = 0
edge_count ((_, children) ∷ rest) = length children + edge_count rest

unfoldable pub restack_descendants_for_parent : DependencyGraph → TaskId → Option (List TaskId)
unfolding visit enqueue sorted_task_ids
restack_descendants_for_parent graph parent_task_id =
    visit graph (edge_count graph.children_by_parent) []
      (enqueue record { seen = []; queue = [] } (sorted_task_ids (children graph parent_task_id)))
