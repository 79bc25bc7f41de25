-- ===== src/Scheduler/Tests.antt =====
-- A small queue, and the scheduler's theorems at it.
use mathlib.Core.List.{Memᴰ, Perm}
use othala.Base.{ℕ, ◌-◌, ◌≤◌, ◌≡◌, refl, some, none, [], ◌∷◌, ◌++◌}
use othala.Base.Assoc.{get, insert}
use othala.Core.State.{awaiting_merge}
use othala.Core.Seconds.{seconds}
use othala.Core.Task.{claude, codex, single, stack, low, normal, critical}
use othala.Scheduler.{
  SchedulerConfig, from_org_config, QueuedTask, SchedulingInput, SchedulePlan, ScheduledAssignment,
  BlockedTask, repo_limit_reached, dependencies_unresolved,
}
use othala.Scheduler.Models.{available_models_in_priority_order, select_model_with_capacity}
use othala.Scheduler.Plan.{deps_resolved, plan}
use othala.Scheduler.Plan.Limits.{running_in, assigned_in, plan-le_repo_limit}
use othala.Scheduler.Plan.Outcome.{assigned_ids, blocked_ids, queued_ids, plan-perm}
use othala.Scheduler.Plan.Outcome.Started.{Started, plan-Started}
use othala.Scheduler.Plan.Outcome.Blocked.{Blocked, plan-Blocked}

abbrev config : SchedulerConfig
unfolding from_org_config insert
config = from_org_config (record { per_repo = 2; claude = 2; codex = 0; gemini = 1 })

abbrev cleanup : QueuedTask ℕ
cleanup = record {
  task_id = "T-cleanup";
  repo_id = "api";
  depends_on = [];
  submit_mode = single;
  preferred_model = none;
  priority = low;
  enqueued_at = 3;
}

-- Part of a stack: its parent awaits its merge.
abbrev urgent : QueuedTask ℕ
urgent = record cleanup {
  task_id = "T-urgent";
  depends_on = "T-parent" ∷ [];
  submit_mode = stack;
  preferred_model = some codex;
  priority = critical;
  enqueued_at = 9;
}

abbrev waiting : QueuedTask ℕ
waiting = record cleanup {
  task_id = "T-waiting";
  repo_id = "web";
  depends_on = "T-parent" ∷ [];
  priority = normal;
}

abbrev input : SchedulingInput ℕ
input = record {
  queued = cleanup ∷ urgent ∷ waiting ∷ [];
  running = record { task_id = "T-0"; repo_id = "api"; model = claude } ∷ [];
  all_task_states = ("T-parent", awaiting_merge) ∷ [];
  enabled_models = codex ∷ claude ∷ [];
  availability = [];
}

abbrev started : ScheduledAssignment
started = record { task_id = "T-urgent"; repo_id = "api"; model = claude }

abbrev full : BlockedTask
full = record { task_id = "T-cleanup"; reason = repo_limit_reached }

abbrev expected : SchedulePlan
expected = record {
  assignments = started ∷ [];
  blocked = record { task_id = "T-waiting"; reason = dependencies_unresolved } ∷ full ∷ [];
}

program : Unit {0}
unfolding from_org_config insert get plan deps_resolved available_models_in_priority_order
    select_model_with_capacity
program = tt

plan-input : plan config input ≡ expected
unfolding program
plan-input = refl

plan-le_repo_limit_example :
    assigned_in (plan config input).assignments "api" ≤ 2 - running_in input.running "api"
unfolding from_org_config config
plan-le_repo_limit_example = plan-le_repo_limit config input "api"

plan-perm_example :
    Perm
      (assigned_ids (plan config input).assignments ++ blocked_ids (plan config input).blocked)
      (queued_ids input.queued)
plan-perm_example = plan-perm config input

plan-Started_example : Started input started
unfolding program
plan-Started_example = plan-Started config input {a = started} (Memᴰ.head refl)

plan-Blocked_example : Blocked config input (plan config input) full
unfolding program
plan-Blocked_example = plan-Blocked config input {b = full} (Memᴰ.tail (Memᴰ.head refl))
