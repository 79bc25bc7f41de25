-- ===== src/Service/Tick/Limits.antt =====
-- A tick keeps the limits: with the runs that it records, no more runs are open than allowed.
use othala.Base.{
  ℕ, ◌+◌, ◌-◌, ◌≤◌, ◌≡◌, refl, sym, ap, subst, ◌∙◌, Bool, true, false, ◌&&◌, List, [], ◌∷◌, ◌++◌,
  String, Result, ok, err, arith, filter, count, count-append, count-filter, map, ◌==◌, string_eq,
  bind-rule, ◌>>=◌, pure, if◌then◌else◌,
}
use othala.Base.Sorting.{sort_by, count-sort_by}
use othala.Core.Time.{Chrono}
use othala.Core.Task.{Task, RepoId, ModelKind, model_eq}
use othala.Core.Event.{TaskRunRecord}
use othala.Store.{Codecs, RunRow, Tables, Connection, PersistenceError}
use othala.Store.Runs.{
  is_open, cons_run, run_of_row, runs_of_rows, run_after, answer_runs, list_open_runs, insert_run,
}
use othala.Store.Runs.Open.{Inserts, insert_run-Inserts}
use othala.Store.Sql.{next, query-rule}
use othala.Scheduler.{SchedulerConfig, ModelAvailability, ScheduledAssignment, SchedulingInput}
use othala.Scheduler.Models.{limit_of}
use othala.Scheduler.Plan.{plan}
use othala.Scheduler.Plan.Limits.{plan-le_repo_limit, plan-le_model_limit}
use othala.Store.Tasks.{list_tasks, list_tasks_by_state}
use othala.Store.Tasks.Refines.{list_tasks-tables, list_tasks_by_state-tables}
use othala.Core.State.{chatting}
use othala.Service.{ServiceError, State, on_store}
use othala.Service.Rules.{on_store-rule}
use othala.Service.Tick.{
  run_of, running_of, insert_runs, start_planned, schedule_chatting, schedule_queued_tasks,
  input_of,
}

ok-injective {ℓ κ} :
    {A : Type ℓ} {E : Type κ} {a b : A} → ◌≡◌ {A = Result A E} (ok a) (ok b) → a ≡ b
ok-injective h = ground arith

module _ {Doc T F : Type 0} (c : Codecs Doc T F) where
  cons_run-ok :
      (r : Result (TaskRunRecord T F) (PersistenceError Doc))
      (rs : Result (List (TaskRunRecord T F)) (PersistenceError Doc))
      {runs : List (TaskRunRecord T F)}
      → cons_run c r rs ≡ ok runs
      → (run : TaskRunRecord T F) × (rest : List (TaskRunRecord T F)) × (r ≡ ok run)
        × (rs ≡ ok rest)
        × (runs ≡ run ∷ rest)
  cons_run-ok (err e) rs h = ground arith
  cons_run-ok (ok run) (err e) h = ground arith
  cons_run-ok (ok run) (ok rest) h = (run, rest, refl, refl, sym (ok-injective h))

-- What is counted: the runs of one repository, or those on one model.
module _ (chosen : RepoId → ModelKind → Bool) where
  abbrev pub assigned : List ScheduledAssignment → ℕ
  assigned placed = count (λ a. chosen a.repo_id a.model) placed

  module _ {Doc T F : Type 0} (c : Codecs Doc T F) where
    abbrev counts : Result (TaskRunRecord T F) (PersistenceError Doc) → Bool
    counts (ok run) = chosen run.repo_id run.model
    counts (err _) = false

    abbrev counts_row : RunRow Doc F → Bool
    counts_row row = is_open row && counts (run_of_row c row)

    -- How many of the runs in the table are open.
    unfoldable pub open_count : List (RunRow Doc F) → ℕ
    open_count rows = count counts_row rows

    count-runs :
        (rows : List (RunRow Doc F)) (runs : List (TaskRunRecord T F))
        → runs_of_rows c rows ≡ ok runs
        → count (λ run. chosen run.repo_id run.model) runs
          ≡ count (λ row. counts (run_of_row c row)) rows
    unfolding runs_of_rows
    count-runs [] runs h = ground arith
    count-runs (row ∷ rows) runs h =
        let (run, rest, e, e', grown) = cons_run-ok c (run_of_row c row) (runs_of_rows c rows) h in
        let later = count-runs rows rest e' in rw (grown, e) (ground (arith, later))

    open_count-append :
        (rows : List (RunRow Doc F)) (row : RunRow Doc F) (run : TaskRunRecord T F)
        → run_of_row c row ≡ ok run
        → is_open row ≡ true
        → open_count (rows ++ row ∷ [])
          ≡ open_count rows + (if chosen run.repo_id run.model then 1 else 0)
    unfolding open_count
    open_count-append rows row run reads opened =
        ground (arith, count-append (counts_row) rows (row ∷ []), reads, opened)

module _ {Doc T F : Type 0} (c : Codecs Doc T F) (chosen : RepoId → ModelKind → Bool) where
  abbrev Lists :
      Connection Doc F
      → Result (List (TaskRunRecord T F)) (PersistenceError Doc) × Connection Doc F
      → Type 0
  Lists s (ok runs, after) =
      (count (λ run. chosen run.repo_id run.model) runs ≡ open_count chosen c s.tables.runs)
      × (after.tables ≡ s.tables)
  Lists s (err _, after) = after.tables ≡ s.tables

  list_open_runs-Lists : (s : Connection Doc F) → Lists s (list_open_runs c s)
  unfolding list_open_runs open_count
  list_open_runs-Lists s =
      let opened = filter is_open s.tables.runs in
      let listed = sort_by (run_after c) opened in
      query-rule (Lists s) s (λ t. sort_by (run_after c) (filter is_open t.runs)) (answer_runs c)
        refl
        (go (runs_of_rows c listed) (λ runs h.
          count-runs chosen c listed runs h
          ∙ count-sort_by (λ row. counts chosen c (run_of_row c row)) (run_after c) opened
          ∙ count-filter (λ row. counts chosen c (run_of_row c row)) is_open s.tables.runs))
    where
      go :
          (r : Result (List (TaskRunRecord T F)) (PersistenceError Doc))
          → ((runs : List (TaskRunRecord T F))
              → r ≡ ok runs
              → count (λ run. chosen run.repo_id run.model) runs
                ≡ open_count chosen c s.tables.runs)
          → Lists s (r, next s)
      go (ok runs) h = (h runs refl, refl)
      go (err e) h = refl

  count-running_of :
      (runs : List (TaskRunRecord T F))
      → count (λ r. chosen r.repo_id r.model) (map running_of runs)
        ≡ count (λ run. chosen run.repo_id run.model) runs
  count-running_of [] = refl
  count-running_of (run ∷ runs) = ground (arith, count-running_of runs)

module _ {Doc T F W : Type 0} (c : Codecs Doc T F) (chosen : RepoId → ModelKind → Bool) (at : T)
    (tick_nonce : String) where
  abbrev open_in : State Doc F W → ℕ
  open_in s = open_count chosen c s.store.tables.runs

  -- At most `n` more runs are open than in `s`.
  abbrev Grows :
      {A : Type 0} → State Doc F W → ℕ → Result A (ServiceError Doc) × State Doc F W → Type 0
  Grows s n x = open_in x.1 ≤ open_in s + n

  insert_one :
      (s : State Doc F W) (a : ScheduledAssignment) (after : Connection Doc F)
      → Inserts c s.store (run_of at tick_nonce a) (ok tt, after)
      → open_count chosen c after.tables.runs
        ≡ open_in s + (if chosen a.repo_id a.model then 1 else 0)
  insert_one s a after (row, reads, _, _, opened, _, tables) =
      ap (λ (t : Tables Doc F). open_count chosen c t.runs) tables
      ∙ open_count-append chosen c s.store.tables.runs row (run_of at tick_nonce a) reads opened

  -- However the loop ends, it has opened at most a run for each assignment.
  insert_runs-Grows :
      (s : State Doc F W) (placed : List ScheduledAssignment)
      → Grows s (assigned chosen placed) (insert_runs c at tick_nonce placed s)
  unfolding insert_runs
  insert_runs-Grows s [] = omega arith
  insert_runs-Grows s (a ∷ rest) =
      let run = run_of at tick_nonce a in
      let call = insert_run c run s.store in
      on_store-rule (Grows s (assigned chosen (a ∷ rest))) (insert_run c run)
        (λ _. insert_runs c at tick_nonce rest) s
        (λ _ good.
          let one = insert_one s a call.1 (
            subst (λ x. Inserts c s.store run (x, call.1)) good
              (insert_run-Inserts c s.store run)) in
          ground (arith, one, insert_runs-Grows (record s { store = call.1 }) rest))
        (λ e bad.
          let same =
            ap (λ (t : Tables Doc F). open_count chosen c t.runs)
              (subst (λ x. Inserts c s.store run (x, call.1)) bad
                (insert_run-Inserts c s.store run)) in
          omega (arith, same))

  module _ ⦃chrono : Chrono T⦄ (config : SchedulerConfig) (enabled_models : List ModelKind)
      (availability : List ModelAvailability) (limit : ℕ)
      (fits : (input : SchedulingInput T)
        → assigned chosen (plan config input).assignments
          ≤ limit - count (λ r. chosen r.repo_id r.model) input.running) where
    abbrev Keeps : {A : Type 0} → Result A (ServiceError Doc) × State Doc F W → Type 0
    Keeps x = open_in x.1 ≤ limit

    start_planned-Keeps :
        (s : State Doc F W) (input : SchedulingInput T)
        → open_in s ≤ limit
        → count (λ r. chosen r.repo_id r.model) input.running ≡ open_in s
        → Keeps (start_planned c at tick_nonce (plan config input) s)
    unfolding start_planned
    start_planned-Keeps s input below counted =
        let placed = (plan config input).assignments in
        let grows = insert_runs-Grows s placed in
        let room = fits input in
        bind-rule (insert_runs c at tick_nonce placed)
          (λ _. pure (record { scheduled = placed; blocked = (plan config input).blocked })) Keeps s
          (λ _ _. omega (arith, grows, room, counted)) (λ _ _. omega (arith, grows, room, counted))

    schedule_chatting-Keeps :
        (s : State Doc F W) (tasks : List (Task T))
        → open_in s ≤ limit
        → Keeps (schedule_chatting c at tick_nonce config enabled_models availability tasks s)
    unfolding schedule_chatting
    schedule_chatting-Keeps s [] below = below
    schedule_chatting-Keeps s (task ∷ rest) below =
        let first : State Doc F W = record s { store = (list_tasks c s.store).1 } in
        let same =
          ap (λ (t : Tables Doc F). open_count chosen c t.runs) (list_tasks-tables c s.store) in
        let call = list_open_runs c first.store in
        let lists = list_open_runs-Lists c chosen first.store in
        let start = λ (all_tasks : List (Task T)) (open_runs : List (TaskRunRecord T F)).
          start_planned {W = W} c at tick_nonce (
            plan config (input_of enabled_models availability (task ∷ rest) all_tasks open_runs)) in
        on_store-rule Keeps (list_tasks c)
          (λ all_tasks. on_store (list_open_runs c) >>= start all_tasks) s
          (λ all_tasks _.
            on_store-rule Keeps (list_open_runs c) (start all_tasks) first
              (λ open_runs good.
                let (counted, tables) =
                  subst (λ x. Lists c chosen first.store (x, call.1)) good lists in
                let kept = ap (λ (t : Tables Doc F). open_count chosen c t.runs) tables in
                start_planned-Keeps (record first { store = call.1 })
                  (input_of enabled_models availability (task ∷ rest) all_tasks open_runs)
                  (omega (arith, below, same, kept))
                  (count-running_of c chosen open_runs ∙ counted ∙ sym kept))
              (λ e bad.
                let kept =
                  ap (λ (t : Tables Doc F). open_count chosen c t.runs)
                    (subst (λ x. Lists c chosen first.store (x, call.1)) bad lists) in
                omega (arith, below, same, kept)))
          (λ _ _. omega (arith, below, same))

    schedule_queued_tasks-Keeps :
        (s : State Doc F W)
        → open_in s ≤ limit
        → Keeps (schedule_queued_tasks c at tick_nonce config enabled_models availability s)
    unfolding schedule_queued_tasks
    schedule_queued_tasks-Keeps s below =
        let same =
          ap (λ (t : Tables Doc F). open_count chosen c t.runs)
            (list_tasks_by_state-tables c s.store chatting) in
        on_store-rule Keeps (list_tasks_by_state c chatting)
          (schedule_chatting c at tick_nonce config enabled_models availability) s
          (λ tasks _. schedule_chatting-Keeps _ tasks (omega (arith, below, same)))
          (λ _ _. omega (arith, below, same))

module _ {Doc T F W : Type 0} (c : Codecs Doc T F) where
  abbrev pub open_runs_in : State Doc F W → RepoId → ℕ
  open_runs_in d repo = open_count (λ r _. r == repo) c d.store.tables.runs

  abbrev pub open_runs_on : State Doc F W → ModelKind → ℕ
  open_runs_on d model = open_count (λ _ m. m == model) c d.store.tables.runs

module _ {Doc T F W : Type 0} ⦃chrono : Chrono T⦄ (c : Codecs Doc T F) (config : SchedulerConfig)
    (enabled_models : List ModelKind) (availability : List ModelAvailability) (at : T)
    (tick_nonce : String) (s : State Doc F W) where
  -- If no more runs of a repository are open than the limit for one repository, that is still so
  -- after a tick, whatever the tick answers and wherever it fails.
  pub schedule_queued_tasks-le_repo_limit :
      (repo : RepoId)
      → open_runs_in c s repo ≤ config.per_repo_limit
      → open_runs_in c
          (schedule_queued_tasks c at tick_nonce config enabled_models availability s).1
          repo
        ≤ config.per_repo_limit
  schedule_queued_tasks-le_repo_limit repo =
      schedule_queued_tasks-Keeps c (λ r _. r == repo) at tick_nonce config enabled_models
        availability config.per_repo_limit (λ input. plan-le_repo_limit config input repo) s

  -- The same for the runs on one model and the limit of that model.
  pub schedule_queued_tasks-le_model_limit :
      (m : ModelKind)
      → open_runs_on c s m ≤ limit_of config.per_model_limit m
      → open_runs_on c
          (schedule_queued_tasks c at tick_nonce config enabled_models availability s).1
          m
        ≤ limit_of config.per_model_limit m
  schedule_queued_tasks-le_model_limit m =
      schedule_queued_tasks-Keeps c (λ _ k. k == m) at tick_nonce config enabled_models availability
        (limit_of config.per_model_limit m) (λ input. plan-le_model_limit config input m) s
