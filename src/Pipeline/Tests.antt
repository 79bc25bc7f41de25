-- ===== src/Pipeline/Tests.antt =====
-- Runs of the pipeline, and its theorems at them.
use othala.Base.{◌≡◌, refl, true, some, none, List, [], ◌∷◌, arith}
use othala.Core.Task.{stack}
use othala.Pipeline.{PipelineState, run_verify, stack_on, submit_branch, new, is_terminal, advance}
use othala.Pipeline.Drive.{Outcome, settle, drive, executed, drive-terminates, executed-new}

abbrev stacked : PipelineState
unfolding new
stacked = new "T-1" "task/T-1" ".orch/wt/T-1" stack (some "task/T-0")

abbrev all_well : List Outcome
all_well = none ∷ none ∷ none ∷ none ∷ []

drive-terminates_example : is_terminal (drive stacked (none ∷ some "red" ∷ all_well)) ≡ true
unfolding new
drive-terminates_example = drive-terminates stacked (none ∷ some "red" ∷ all_well) (omega arith)

executed-new_example :
    executed (new "T-1" "task/T-1" ".orch/wt/T-1" stack (some "task/T-0")) all_well
    ≡ run_verify "T-1" ".orch/wt/T-1"
      ∷ stack_on "T-1" ".orch/wt/T-1" "task/T-0"
      ∷ run_verify "T-1" ".orch/wt/T-1"
      ∷ submit_branch "T-1" ".orch/wt/T-1" stack
      ∷ []
unfolding new drive settle advance is_terminal
executed-new_example =
    executed-new "T-1" "task/T-1" ".orch/wt/T-1" stack (some "task/T-0") all_well refl
