-- ===== src/Service/Tests.antt =====
-- A small service, and the theorems about its methods at it.
use othala.Base.{
  ℕ, ◌≤◌, ◌≡◌, refl, Bool, true, false, Option, some, none, List, [], ◌∷◌, ok, err, Result, arith,
}
use othala.Core.State.{chatting, ready, merged}
use othala.Core.Task.{claude, single, model_eq, new}
use othala.Core.Seconds.{seconds}
use othala.Store.Plain.{Plain, plain}
use othala.Store.Sample.{first, event, store, store-IsTable}
use othala.EventLog.{JsonlEventLog}
use othala.EventLog.Journal.{Files, journal}
use othala.Scheduler.{SchedulerConfig}
use othala.StateMachine.{invalid_transition, is_transition_allowed}
use othala.StateMachine.Laws.{◌⟶◌, sound}
use othala.Service.{ServiceError, state_machine, State, transition_task_state, complete_submit}
use othala.Service.Safe.{held, IsValid, loaded}
use othala.Service.Traces.{
  Call, completes_submit, deletes, marks_ready, starts_submit, marks_merged, increments_retry,
  records, Reaches, run_calls, run_calls-Reaches,
}
use othala.Service.Submit.{
  Moves, transition_task_state-Moves, transition_task_state_refused, Completes,
  complete_submit-Completes,
}
use othala.Service.Tick.{schedule_queued_tasks}
use othala.Service.Tick.Limits.{
  open_runs_in, open_runs_on, schedule_queued_tasks-le_repo_limit,
  schedule_queued_tasks-le_model_limit,
}
use othala.Scheduler.Models.{limit_of}

abbrev Running : Type 0
Running = State Plain ℕ (Files Plain)

abbrev log : JsonlEventLog
log = record { root = ".orch"; global_file = ".orch/global.jsonl"; task_dir = ".orch/tasks" }

abbrev service : Running
service = record { store = store; disk = λ _. [] }

abbrev calls : List (Call ℕ)
calls =
    marks_ready "T1" "E2" 10
    ∷ starts_submit "T1" single "E3" 11
    ∷ marks_merged "T1" "E4" 12
    ∷ increments_retry "T9" "lost"
    ∷ completes_submit "T2" "https://pr/7" 7 "E5" 20 21
    ∷ deletes "T2"
    ∷ records event
    ∷ []

run_calls-Reaches_example :
    IsValid plain (run_calls plain journal log calls service)
    × Reaches
        (held plain service "T1")
        (held plain (run_calls plain journal log calls service) "T1")
run_calls-Reaches_example =
    run_calls-Reaches plain journal log service calls "T1" store-IsTable
      (refl, (refl, (refl, (refl, (refl, (refl, (refl, tt)))))))

transition_task_state-Moves_example :
    Moves plain journal log service store-IsTable "T1" ready "E2" 10
      (transition_task_state plain journal log "T1" ready "E2" 10 service)
transition_task_state-Moves_example =
    transition_task_state-Moves plain journal log service store-IsTable "T1" ready "E2" 10

held-first : held plain service "T1" ≡ some first
unfolding othala.Store.Tasks.View.stored othala.Store.Tasks.task_of_row othala.Store.Tasks.row_of
    new othala.Core.Words.parse_priority othala.Core.Words.priority_str
held-first = refl

no_edge : ¬ (chatting ⟶ merged)
unfolding is_transition_allowed
no_edge edge = ground (arith, sound chatting merged edge)

transition_task_state_refused_example :
    transition_task_state plain journal log "T1" merged "E2" 10 service ≡ (
      err (state_machine (invalid_transition chatting merged)),
      loaded plain journal log service store-IsTable,
    )
unfolding new
transition_task_state_refused_example =
    transition_task_state_refused plain journal log service store-IsTable "T1" merged "E2" 10 first
      refl held-first no_edge

complete_submit-Completes_example :
    Completes plain journal log service store-IsTable "T2" "https://pr/7" 7 "E5" 20 21
      (complete_submit plain journal log "T2" "https://pr/7" 7 "E5" 20 21 service)
complete_submit-Completes_example =
    complete_submit-Completes plain journal log service store-IsTable "T2" "https://pr/7" 7 "E5" 20
      21

abbrev config : SchedulerConfig
config = record { per_repo_limit = 2; per_model_limit = (claude, 2) ∷ [] }

few_open : open_runs_in plain service "api" ≤ 2
unfolding othala.Service.Tick.Limits.open_count othala.Store.Runs.run_of_row
    othala.Store.Runs.run_row othala.Store.Runs.parse_optional_rfc3339
few_open = omega arith

few_on_model : open_runs_on plain service claude ≤ limit_of config.per_model_limit claude
unfolding othala.Service.Tick.Limits.open_count othala.Store.Runs.run_of_row
    othala.Store.Runs.run_row othala.Store.Runs.parse_optional_rfc3339 othala.Base.Assoc.get
few_on_model = omega arith

schedule_queued_tasks-le_repo_limit_example :
    open_runs_in plain (schedule_queued_tasks plain 30 "30" config (claude ∷ []) [] service).1 "api"
    ≤ 2
schedule_queued_tasks-le_repo_limit_example =
    schedule_queued_tasks-le_repo_limit plain config (claude ∷ []) [] 30 "30" service "api" few_open
