-- ===== src/Delegation/Waves.antt =====
-- crates/orchd/src/delegation.rs: DelegationPlan::validate, build_graph and execution_order, which
-- arranges the subtasks of a plan in waves.
--
-- An error of the source is a text; here it is the data that the text is printed from.
pub mod Counts
pub mod Rounds
pub mod Precedence
pub mod Loop
pub mod Links
pub mod TitleIndex
pub mod Build
pub mod Cycles
pub mod Valid
mod Tests
use othala.Base.{
  ℕ, zero, suc, ◌+◌, ◌-◌, max, Bool, true, false, not, Option, none, some, List, [], ◌∷◌, ◌++◌, map,
  filter, at, Result, ok, err, String, string_eq, index_eq, contains, ◌==◌, is_empty, length, ltb,
  if◌then◌else◌, unwrap_or, text_eq,
}
use othala.Base.Text.{chars, trim}
use othala.Base.Assoc.{Assoc, get, insert, contains_key}
use othala.Base.Sorting.{sort_by}
use othala.Delegation.{
  DelegationPlan, DelegationStrategy, SubTaskSpec, sequential, parallel, conditional, range,
}

pub data PlanError : Type 0 where
  empty_title : (idx : ℕ) → PlanError
  duplicate_title : (title : List ℕ) → PlanError
  missing_title : (idx : ℕ) → (dep : String) → PlanError
  missing_dependency : (dep : String) → PlanError
  cyclic_dependencies : PlanError

abbrev pub Titles : Type 0
Titles = Assoc (List ℕ) ℕ

-- A title, trimmed.
abbrev pub title_of : SubTaskSpec → List ℕ
title_of subtask = trim (chars subtask.title)

-- What `build_graph` makes of the subtasks: which ones wait for a subtask, and for how many each
-- waits.
pub record Graph : Type 0 where
  pub children : List (List ℕ)
  pub indegree : List ℕ

-- `xs[idx] = f(xs[idx])`
unfoldable pub adjust {ℓ} : {A : Type ℓ} → (A → A) → List A → ℕ → List A
adjust f [] idx = []
adjust f (x ∷ xs) zero = f x ∷ xs
adjust f (x ∷ xs) (suc idx) = x ∷ adjust f xs idx

abbrev pub children_of : List (List ℕ) → ℕ → List ℕ
children_of children idx = unwrap_or (at children idx) []

abbrev pub indegree_of : List ℕ → ℕ → ℕ
indegree_of indegree idx = unwrap_or (at indegree idx) 0

-- Empty titles are passed over.
abbrev pub with_title : Titles → List ℕ → ℕ → Titles
with_title titles title idx = if is_empty title then titles else insert titles title idx

-- The first loop of `build_graph`.
unfoldable pub index_unique : ℕ → List SubTaskSpec → Titles → Result Titles PlanError
unfolding chars
index_unique idx [] titles = ok titles
index_unique idx (subtask ∷ rest) titles =
    let title = title_of subtask in
    let later = index_unique (suc idx) rest (with_title titles title idx) in
    if is_empty title
    then later
    else (if contains_key titles title then err (duplicate_title title) else later)

-- `children[dep_idx].push(idx); indegree[idx] += 1`
unfoldable pub link : Graph → ℕ → ℕ → Graph
unfolding adjust
link graph dep_idx idx = record {
  children = adjust (λ ids. ids ++ idx ∷ []) graph.children dep_idx;
  indegree = adjust (λ n. n + 1) graph.indegree idx;
}

-- The inner loop over `depends_on`.
unfoldable pub link_deps : Titles → ℕ → List String → Graph → Result Graph PlanError
unfolding link chars
link_deps titles idx [] graph = ok graph
link_deps titles idx (dep ∷ deps) graph = elim (get titles (chars dep)) [
  | none ↦ err (missing_dependency dep)
  | some dep_idx ↦ link_deps titles idx deps (link graph dep_idx idx)
]

unfoldable pub link_all : Titles → ℕ → List SubTaskSpec → Graph → Result Graph PlanError
unfolding link_deps
link_all titles idx [] graph = ok graph
link_all titles idx (subtask ∷ rest) graph = elim (link_deps titles idx subtask.depends_on graph) [
  | ok linked ↦ link_all titles (suc idx) rest linked
  | err e ↦ err e
]

abbrev pub repeated {ℓ} : {A : Type ℓ} → A → ℕ → List A
repeated a zero = []
repeated a (suc n) = a ∷ repeated a n

abbrev pub no_links : ℕ → Graph
no_links n = record { children = repeated [] n; indegree = repeated 0 n }

-- `indegree_copy[child] -= 1`, and the push of a child that waits for nothing more. The end of the
-- queue, where it is popped, is the head of the list.
unfoldable pub release : List ℕ → List ℕ × List ℕ → List ℕ × List ℕ
unfolding adjust
release [] state = state
release (child ∷ rest) (queue, indegree) =
    let lowered = adjust (λ n. n - 1) indegree child in
    release rest ((if indegree_of lowered child == 0 then child ∷ queue else queue), lowered)

-- The number of the subtasks that come off the queue.
unfoldable pub resolve : ℕ → List (List ℕ) → List ℕ × List ℕ → ℕ
unfolding release
resolve zero children state = 0
resolve (suc fuel) children ([], indegree) = 0
resolve (suc fuel) children (idx ∷ queue, indegree) =
    suc (resolve fuel children (release (children_of children idx) (queue, indegree)))

unfoldable pub reversed {ℓ} : {A : Type ℓ} → List A → List A
reversed [] = []
reversed (x ∷ xs) = reversed xs ++ x ∷ []

-- The subtasks that wait for nothing.
abbrev pub free_of : List ℕ → List ℕ → List ℕ
free_of indegree ids = filter (λ idx. indegree_of indegree idx == 0) ids

-- Those that a cycle keeps on the graph.
unfoldable pub unresolved : ℕ → Graph → ℕ
unfolding resolve reversed
unresolved n graph =
    n - resolve n graph.children (reversed (free_of graph.indegree (range 0 n)), graph.indegree)

module _ {T : Type 0} (plan : DelegationPlan T) where
  unfoldable pub build_graph : Result (Graph × ℕ) PlanError
  unfolding index_unique link_all unresolved
  build_graph =
      let n = length plan.subtasks in
      elim (index_unique 0 plan.subtasks []) [
        | err e ↦ err e
        | ok titles ↦ elim (link_all titles 0 plan.subtasks (no_links n)) [
          | err e ↦ err e
          | ok graph ↦ ok (graph, unresolved n graph)
        ]
      ]

-- The first loop of `validate`: the map of the titles, and what is wrong with them.
unfoldable pub check_titles : ℕ → List SubTaskSpec → Titles → Titles × List PlanError
unfolding chars
check_titles idx [] titles = (titles, [])
check_titles idx (subtask ∷ rest) titles =
    let title = title_of subtask in
    let (all, errors) = check_titles (suc idx) rest (with_title titles title idx) in
    if is_empty title
    then (all, empty_title idx ∷ errors)
    else (all, if contains_key titles title then duplicate_title title ∷ errors else errors)

abbrev pub missing_deps : Titles → ℕ → List String → List PlanError
missing_deps titles idx deps =
    map (λ dep. missing_title idx dep) (filter (λ dep. not (contains_key titles (chars dep))) deps)

unfoldable pub check_deps : Titles → ℕ → List SubTaskSpec → List PlanError
check_deps titles idx [] = []
check_deps titles idx (subtask ∷ rest) =
    missing_deps titles idx subtask.depends_on ++ check_deps titles (suc idx) rest

abbrev pub check_cycles : Result (Graph × ℕ) PlanError → List PlanError
check_cycles (err e) = []
check_cycles (ok (graph, unresolved)) = if ltb 0 unresolved then cyclic_dependencies ∷ [] else []

abbrev pub verdict : List PlanError → Result (Unit {0}) (List PlanError)
verdict [] = ok tt
verdict (e ∷ errors) = err (e ∷ errors)

-- `chunks(size)`, for a size above 0: `current` has room for `room` more.
unfoldable pub chunks_from {ℓ} : {A : Type ℓ} → ℕ → ℕ → List A → List A → List (List A)
chunks_from size room current [] = if is_empty current then [] else current ∷ []
chunks_from size zero current (x ∷ xs) = current ∷ chunks_from size (size - 1) (x ∷ []) xs
chunks_from size (suc room) current (x ∷ xs) = chunks_from size room (current ++ x ∷ []) xs

abbrev pub chunks {ℓ} : {A : Type ℓ} → ℕ → List A → List (List A)
chunks size xs = chunks_from size size [] xs

-- How many subtasks may stand in a wave.
abbrev pub width_for : DelegationStrategy → ℕ → ℕ
width_for sequential max_parallel = 1
width_for parallel max_parallel = max max_parallel 1
width_for conditional max_parallel = max max_parallel 1

abbrev pub split_ready : DelegationStrategy → ℕ → List ℕ → List (List ℕ)
split_ready sequential max_parallel ready = map (λ idx. idx ∷ []) ready
split_ready parallel max_parallel ready = chunks (max max_parallel 1) ready
split_ready conditional max_parallel ready = chunks (max max_parallel 1) ready

-- `for child in &children[*idx] { indegree[*child] -= 1 }`
unfoldable pub lower_children : List ℕ → List ℕ → List ℕ
unfolding adjust
lower_children [] indegree = indegree
lower_children (child ∷ rest) indegree = lower_children rest (adjust (λ n. n - 1) indegree child)

unfoldable pub lower_all : List (List ℕ) → List ℕ → List ℕ → List ℕ
unfolding lower_children
lower_all children [] indegree = indegree
lower_all children (idx ∷ ready) indegree =
    lower_all children ready (lower_children (children_of children idx) indegree)

-- `ready`, sorted.
unfoldable pub ready_of : List ℕ → List ℕ → List ℕ
unfolding sort_by
ready_of indegree remaining = sort_by (λ a b. ltb b a) (free_of indegree remaining)

-- `remaining.remove(idx)` for all the ready ones.
abbrev pub without : List ℕ → List ℕ → List ℕ
without remaining ready = filter (λ idx. not (contains ready idx)) remaining

module _ (strategy : DelegationStrategy) (max_parallel : ℕ) (children : List (List ℕ)) where
  -- The `while` loop; a round takes a subtask from `remaining`, so as much fuel as there are subtasks
  -- is enough.
  unfoldable pub waves_from : ℕ → List ℕ → List ℕ → Result (List (List ℕ)) (List PlanError)
  unfolding ready_of lower_all chunks_from
  waves_from fuel [] indegree = ok []
  waves_from zero (idx ∷ remaining) indegree = err (cyclic_dependencies ∷ [])
  waves_from (suc fuel) (idx ∷ remaining) indegree =
      let ready = ready_of indegree (idx ∷ remaining) in
      let later =
        waves_from fuel (without (idx ∷ remaining) ready) (lower_all children ready indegree) in
      if is_empty ready then err (cyclic_dependencies ∷ []) else elim later [
        | ok waves ↦ ok (split_ready strategy max_parallel ready ++ waves)
        | err e ↦ err e
      ]

module _ {T : Type 0} (plan : DelegationPlan T) where
  unfoldable pub validate : Result (Unit {0}) (List PlanError)
  unfolding check_titles check_deps build_graph
  validate =
      let (titles, errors) = check_titles 0 plan.subtasks [] in
      verdict (errors ++ check_deps titles 0 plan.subtasks ++ check_cycles (build_graph plan))

  -- What follows the check of the plan.
  abbrev pub order_of : Result (Graph × ℕ) PlanError → Result (List (List ℕ)) (List PlanError)
  order_of (err e) = err (e ∷ [])
  order_of (ok (graph, unresolved)) =
      let n = length plan.subtasks in
      if ltb 0 unresolved
      then err (cyclic_dependencies ∷ [])
      else waves_from plan.strategy plan.max_parallel graph.children n (range 0 n) graph.indegree

  unfoldable pub execution_order : Result (List (List ℕ)) (List PlanError)
  unfolding validate build_graph waves_from
  execution_order = elim validate [ err errors ↦ err errors | ok _ ↦ order_of (build_graph plan) ]
