-- ===== src/Delegation/Tests.antt =====
-- The theorems about delegated subtasks at one plan.
use mathlib.Core.List.{Memᴰ}
use othala.Base.{
  ℕ, ◌≡◌, ◌↔◌, refl, false, ◌&&◌, none, List, [], ◌∷◌, String, arith, string_eq, index_eq,
}
use othala.Base.Assoc.{get, insert}
use othala.Delegation.{
  SubTaskSpec, DelegationPlan, DelegationTracker, new_plan, add_subtask, new, start_subtask,
  complete_subtask, is_failed, next_runnable,
}
use othala.Delegation.Runnable.{CanRun, next_runnable_iff}
use othala.Delegation.Once.{complete, fail, perform_all, started-once}

abbrev spec_of : String → List String → SubTaskSpec
spec_of title depends_on = record {
  title = title;
  description = "";
  model = none;
  priority = none;
  depends_on = depends_on;
  files = [];
  verify_command = none;
}

abbrev plan_of_three : DelegationPlan ℕ
unfolding new_plan add_subtask
plan_of_three =
    add_subtask
      (add_subtask (add_subtask (new_plan 0 "T1") (spec_of "schema" []))
        (spec_of "api" ("schema" ∷ [])))
      (spec_of "docs" [])

abbrev tracker : DelegationTracker ℕ
unfolding plan_of_three new
tracker = new plan_of_three

first_wave : next_runnable tracker ≡ 0 ∷ 2 ∷ []
unfolding tracker plan_of_three new next_runnable get insert
first_wave = refl

second_wave : next_runnable (complete_subtask (start_subtask tracker 0 "T2" 5) 0 9) ≡ 1 ∷ 2 ∷ []
unfolding tracker plan_of_three new next_runnable complete_subtask start_subtask get insert
second_wave = refl

next_runnable_iff_example :
    Memᴰ 2 (next_runnable tracker)
    ↔ (((tracker.plan.fail_fast && is_failed tracker) ≡ false) × CanRun tracker 2)
next_runnable_iff_example = next_runnable_iff tracker 2

started-once_example : ¬ Memᴰ 0 (
    next_runnable (
      perform_all
        (start_subtask tracker 0 "T2" 5)
        ((fail 0 "no tests", 9) ∷ (complete 2, 12) ∷ [])))
unfolding tracker plan_of_three new
started-once_example =
    started-once tracker 0 "T2" 5 ((fail 0 "no tests", 9) ∷ (complete 2, 12) ∷ []) (omega arith)
