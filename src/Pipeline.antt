-- ===== src/Pipeline.antt =====
-- crates/orchd/src/stack_pipeline.rs: verify a branch, stack it on its parent, verify, submit.
pub mod Drive
mod Tests
use othala.Base.{
  Bool, true, false, ◌&&◌, String, Option, some, none, if◌then◌else◌, is_some, unwrap_or,
}
use othala.Core.Task.{TaskId, FilePath, SubmitMode, is_stack}

pub data PipelineStage : Type 0 where
  verify_branch stack_on_parent verify_stack submit done failed : PipelineStage

pub record PipelineState : Type 0 where
  pub task_id : TaskId
  pub stage : PipelineStage
  pub parent_branch : Option String
  pub branch_name : String
  pub worktree_path : FilePath
  pub submit_mode : SubmitMode
  pub error : Option String

unfoldable pub new :
    TaskId
    → (branch_name : String) → FilePath
    → SubmitMode
    → (parent_branch : Option String) → PipelineState
new task_id branch_name worktree_path submit_mode parent_branch = record {
  task_id = task_id;
  stage = verify_branch;
  parent_branch = parent_branch;
  branch_name = branch_name;
  worktree_path = worktree_path;
  submit_mode = submit_mode;
  error = none;
}

abbrev terminal_stage : PipelineStage → Bool
terminal_stage done = true
terminal_stage failed = true
terminal_stage _ = false

unfoldable pub is_terminal : PipelineState → Bool
is_terminal s = terminal_stage s.stage

-- The `match` of `advance`.
abbrev next_stage : PipelineStage → PipelineState → PipelineStage
next_stage verify_branch s =
    if is_some s.parent_branch && is_stack s.submit_mode then stack_on_parent else submit
next_stage stack_on_parent s = verify_stack
next_stage verify_stack s = submit
next_stage submit s = done
next_stage done s = done
next_stage failed s = failed

unfoldable pub advance : PipelineState → PipelineState
advance s = record s { stage = next_stage s.stage s }

unfoldable pub fail : PipelineState → String → PipelineState
fail s error = record s { error = some error; stage = failed }

pub data PipelineAction : Type 0 where
  run_verify : TaskId → (worktree_path : FilePath) → PipelineAction
  stack_on : TaskId → (worktree_path : FilePath) → (parent_branch : String) → PipelineAction
  submit_branch : TaskId → (worktree_path : FilePath) → (mode : SubmitMode) → PipelineAction
  complete : TaskId → PipelineAction
  report_failed : TaskId → (stage : PipelineStage) → (error : String) → PipelineAction

-- The `match` of `next_action`.
abbrev action_at : PipelineStage → PipelineState → PipelineAction
action_at verify_branch s = run_verify s.task_id s.worktree_path
action_at verify_stack s = run_verify s.task_id s.worktree_path
action_at stack_on_parent s = stack_on s.task_id s.worktree_path (unwrap_or s.parent_branch "main")
action_at submit s = submit_branch s.task_id s.worktree_path s.submit_mode
action_at done s = complete s.task_id
action_at failed s = report_failed s.task_id s.stage (unwrap_or s.error "")

unfoldable pub next_action : PipelineState → PipelineAction
next_action s = action_at s.stage s
