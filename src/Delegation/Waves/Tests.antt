-- ===== src/Delegation/Waves/Tests.antt =====
-- The order of execution of small plans, and the theorems about it.
use othala.Base.{
  ℕ, ◌≡◌, ◌≤◌, refl, none, false, List, [], ◌∷◌, All, String, ok, err, index_eq, ◌==◌, count,
  length, ltb, if◌then◌else◌, text_eq,
}
use othala.Base.Text.{chars, trim, trim_start, trim_end}
use othala.Base.Assoc.{get, insert}
use othala.Base.Sorting.{sort_by, insert_by}
use othala.Delegation.{SubTaskSpec, DelegationPlan, parallel}
use othala.Delegation.Waves.{
  PlanError, cyclic_dependencies, index_unique, link_all, link_deps, link, adjust, resolve, release,
  reversed, unresolved, check_titles, check_deps, chunks_from, lower_children, lower_all, ready_of,
  waves_from, build_graph, validate, execution_order, width_for,
}
use othala.Delegation.Waves.Rounds.{concat}
use othala.Delegation.Waves.Precedence.{InOrder}
use othala.Delegation.Waves.Build.{Needs, execution_order-IsOrder}
use othala.Delegation.Waves.Valid.{execution_order-validate}

abbrev spec : String → List String → SubTaskSpec
spec title depends_on = record {
  title = title;
  description = "";
  model = none;
  priority = none;
  depends_on = depends_on;
  files = [];
  verify_command = none;
}

abbrev plan_for : List SubTaskSpec → DelegationPlan ℕ
plan_for subtasks = record {
  parent_task_id = "T0";
  strategy = parallel;
  subtasks = subtasks;
  created_at = 0;
  max_parallel = 2;
  fail_fast = false;
  timeout_secs = none;
}

abbrev diamond : DelegationPlan ℕ
diamond = plan_for (
    spec "ui" ("api" ∷ "db" ∷ [])
    ∷ spec " api" ("schema" ∷ [])
    ∷ spec "db" ("schema" ∷ [])
    ∷ spec "schema" []
    ∷ [])

abbrev cycle : DelegationPlan ℕ
cycle = plan_for (spec "a" ("b" ∷ []) ∷ spec "b" ("a" ∷ []) ∷ spec "c" [] ∷ [])

abbrev order_of_diamond : List (List ℕ)
order_of_diamond = (3 ∷ []) ∷ (1 ∷ 2 ∷ []) ∷ (0 ∷ []) ∷ []

diamond-order : execution_order diamond ≡ ok order_of_diamond
unfolding execution_order validate check_titles check_deps build_graph index_unique link_all
    link_deps link adjust unresolved resolve release reversed waves_from ready_of lower_all
    lower_children chunks_from sort_by insert_by get insert chars trim trim_start trim_end
diamond-order = refl

cycle-refused : execution_order cycle ≡ err (cyclic_dependencies ∷ [])
unfolding execution_order validate check_titles check_deps build_graph index_unique link_all
    link_deps link adjust unresolved resolve release reversed waves_from ready_of lower_all
    lower_children chunks_from sort_by insert_by get insert chars trim trim_start trim_end
cycle-refused = refl

diamond-valid : validate diamond ≡ ok tt
unfolding validate check_titles check_deps build_graph index_unique link_all link_deps link adjust
    unresolved resolve release reversed get insert chars trim trim_start trim_end
diamond-valid = refl

execution_order-IsOrder_example :
    InOrder (Needs diamond) [] order_of_diamond
    × ((i : ℕ) → count (λ j. j == i) (concat order_of_diamond) ≡ (if ltb i 4 then 1 else 0))
    × All (λ w. length w ≤ width_for parallel 2) order_of_diamond
execution_order-IsOrder_example = execution_order-IsOrder diamond order_of_diamond diamond-order

execution_order-validate_example :
    ((errors : List PlanError)
      → validate diamond ≡ err errors
      → execution_order diamond ≡ err errors)
    × (validate diamond ≡ ok tt → (waves : List (List ℕ)) × (execution_order diamond ≡ ok waves))
execution_order-validate_example = execution_order-validate diamond
