-- ===== src/Lib.antt =====
-- Othala, an orchestrator of AI coding agents: verified models of its core logic.
--
-- The daemon keeps a queue of tasks. Each task walks through a state machine, waits for its
-- dependencies, is given to a model by the scheduler, may be retried on another model after a
-- failure, and is submitted, restacked and merged by a pipeline. The service puts these parts together:
-- it keeps the tasks, their runs and their events in a database and in an event log, asks the state
-- machine before it moves a task, and hands the queue to the scheduler. Around that core stand the rules
-- on which tools an agent may use, the deadlines of tasks, the plans that split a task into subtasks,
-- the handling of failing tests and the recovery of stopped tasks. Most parts are pure functions over a
-- small state; the store, the event log and the service are methods that can fail and that leave
-- written what they wrote before (Base/Calls).
--
-- The files, and the code that each is about:
--   Base                what the others share: lists, options, signed numbers, texts as lists of
--                       character codes, `HashMap` as an association list (Base/Assoc), `HashSet` as
--                       a list without repeats (Base/Sets), `PartialEq` as an interface
--                       (Base/Equality), methods that can fail (Base/Calls), sorting (Base/Sorting)
--   Core/State          crates/orch-core/src/state.rs: TaskState, VerifyStatus
--   Core/Task           crates/orch-core/src/types.rs: Task, ModelKind, priorities, submit modes
--   Core/Event          crates/orch-core/src/events.rs: Event, EventKind; crates/orchd/src/types.rs: the
--                       records of runs and artifacts
--   Core/Words          crates/orch-core/src/types.rs: the words for priorities and session states
--   Core/Time           the instants of chrono, as an interface; Core/Seconds is an instance of it
--   StateMachine        crates/orchd/src/state_machine.rs: is_transition_allowed, transition_task
--   Dependencies        crates/orchd/src/dependency_graph.rs: build_dependency_graph (Edges) and
--                       restack_descendants_for_parent (Universe, Walk, Enqueue, Restack)
--   Pipeline            crates/orchd/src/stack_pipeline.rs: the stages, next_action, advance, fail
--   Retry               crates/orchd/src/retry.rs: evaluate_retry, the health of models (Health) as a
--                       circuit breaker (Tracker), the choice of the next model (Select)
--   Scheduler           crates/orchd/src/scheduler.rs: the order of the queue (Order), the choice of a
--                       model (Models), Scheduler::plan (Plan) with its limits and its outcome
--   Permissions         crates/orchd/src/permissions.rs: check, remove_rules_for (Check), the way to
--                       the configuration and back (Convert), the glob patterns (Glob)
--   Delegation          crates/orchd/src/delegation.rs: DelegationTracker, which hands out the subtasks
--                       of a plan (Runnable, Once), and the check, the graph and the order of
--                       execution of a plan (Waves)
--   SelfHeal            crates/orchd/src/qa_self_heal.rs: classify_failure, QARetryState,
--                       detect_transition
--   Timeouts            crates/orchd/src/task_timeout.rs: TimeoutTracker, its checks of the deadlines
--                       (Sweep, Laws) and their extension (Extend)
--   Store               crates/orchd/src/persistence.rs: SqliteStore, its tables (Store), its SQL
--                       statements (Sql) and its methods on tasks, runs, events and sessions
--   EventLog            crates/orchd/src/event_log.rs: JsonlEventLog on a disk (Appends, Journal)
--   Service             crates/orchd/src/service.rs: OrchdService, its methods on a task (Service, Submit),
--                       the tick of the scheduler (Tick), the report on stuck tasks (Diagnose), the
--                       methods that write a task as it is given (Overwrites), and sequences of
--                       calls (Traces)
--   Recovery            crates/orchd/src/sisyphus_recovery.rs: the recovery loop (Attempts, Repeated);
--                       crates/orchd/src/problem_classifier.rs: the classes, words and classification
--                       of errors (Classes, Patterns, Classifier)
--   Daemon              crates/orchd/src/daemon_loop.rs: the pacing of restacks (Restacks), the budget of
--                       tokens (Budget), the submit mode
-- A module named Tests holds runs at small inputs and the theorems applied to them. Each operation of
-- the source is a function of the same name; a method on `&mut self` takes the state and returns the
-- state it leaves, beside its result. `Utc::now()` is an argument.
--
-- Conventions and bounds:
--   - Instants are a type with the order and the addition that chrono documents (Core/Time). The
--     addition of signed seconds and the difference of two instants are further arguments where they
--     are used; that chrono panics far outside its range is modelled where a deadline is extended, and
--     nowhere else.
--   - A map holds each key once; where a theorem needs it of a map it is given, the hypothesis says
--     so (KeysOnce). The source walks its maps in an unspecified order, the model in that of the list.
--   - Counters of 32 bits wrap around, and `as` casts between 64-bit numbers are written out. Counts
--     of things in memory (usize) do not overflow.
--   - The breadth-first walk of Dependencies runs on as much fuel as the graph has edges: each round
--     takes an id from the queue, and an id enters it once. The search of Permissions/Glob runs on
--     one more than the lengths of pattern and text, since each call moves on in one of them.
--     Decimal numbers in texts run on the number itself. That the first two are enough is proved.
--   - Sorting is insertion sort by the source's comparison, which is stable as `sort_by` is.
--   - The `while` loop of Delegation/Waves runs on as much fuel as there are subtasks, since a round
--     takes one out; that this is enough is proved. The queue of `build_graph` runs on as much, since a
--     subtask enters it only when the last of those it waits for is resolved; of it is proved that it
--     never resolves a subtask on a cycle.
--   - Floating-point numbers are a parameter (the backoff of SelfHeal).
--   - The database is its tables, each a list of rows, and a statement does what SQL documents. Which
--     statements the database refuses (a lock, a full disk) is a parameter, and a refused statement
--     changes nothing. The JSON texts of tasks and events, and the texts of instants, are a type that
--     is a parameter, with functions that write and read it; that reading gives back what was written
--     is a hypothesis, which an instance meets (Store/Plain).
--   - The disk is an interface of the calls that the event log makes: an append adds to the end of the
--     file that its path names and touches no other file. Paths are texts, joined as Path::join does it
--     on Unix; which file a path names is a parameter, since `..`, links and the identifiers of tasks,
--     which nothing checks, may lead two paths to one file. EventLog/Journal is an instance.
--   - Errors that the source tells as texts are data types with what the text is printed from.
--
-- Not modelled: what runs processes, git, Graphite, sockets, files other than the event log, or the
-- terminal (orch-git, orch-graphite, orch-agents, orch-verify, orch-web's server, orch-tui,
-- orch-notify's sinks, the language servers and MCP transports), derived serialisation, and functions
-- that only write prose (build_fix_prompt, display_table, the prompts of the recovery). Of the store, the
-- opening of the database, the counts by GROUP BY, the search by text and the listing of the archive. Of
-- the recovery, the confidence of a classification, the context handed to agents and the catching of
-- panics. Of delegation, the parsing of plans from an agent's output. Neither are the supervisor and the
-- daemon's loop itself.
pub mod Base
pub mod Core
pub mod Dependencies
pub mod StateMachine
pub mod Pipeline
pub mod Retry
pub mod Scheduler
pub mod Permissions
pub mod Delegation
pub mod SelfHeal
pub mod Timeouts
pub mod Store
pub mod EventLog
pub mod Service
pub mod Recovery
pub mod Daemon
