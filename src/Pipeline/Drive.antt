-- ===== src/Pipeline/Drive.antt =====
-- The pipeline as the daemon drives it: execute the next action, then `advance` or `fail`.
use othala.Base.{
  ℕ, suc, ◌≤◌, ◌≡◌, refl, sym, ◌≢◌, inl, inr, true, false, String, Option, some, none, List, [],
  ◌∷◌, length, arith, if◌then◌else◌, Bool-cases,
}
use othala.Core.Task.{TaskId, FilePath, SubmitMode, is_stack}
use othala.Pipeline.{
  PipelineStage, PipelineState, PipelineAction, verify_branch, stack_on_parent, verify_stack,
  submit, done, failed, run_verify, stack_on, submit_branch, report_failed, new, is_terminal,
  advance, fail, next_action,
}

-- What came of an action: `none` is success, and `some e` a failure with its message.
abbrev pub Outcome : Type 0
Outcome = Option String

unfoldable pub settle : PipelineState → Outcome → PipelineState
unfolding advance fail
settle s none = advance s
settle s (some e) = fail s e

-- A finished pipeline is not driven on: its remaining outcomes are not looked at.
unfoldable pub drive : PipelineState → List Outcome → PipelineState
drive s [] = s
drive s (o ∷ os) = let later = drive (settle s o) os in if is_terminal s then s else later

-- The actions that the daemon executes on the way.
unfoldable pub executed : PipelineState → List Outcome → List PipelineAction
executed s [] = []
executed s (o ∷ os) =
    let later = executed (settle s o) os in if is_terminal s then [] else next_action s ∷ later

-- How many actions a stage is from the end, at most.
abbrev left : PipelineStage → ℕ
left verify_branch = 4
left stack_on_parent = 3
left verify_stack = 2
left submit = 1
left _ = 0

left-settle :
    (s : PipelineState) (o : Outcome)
    → is_terminal s ≡ false
    → suc (left (settle s o).stage) ≤ left s.stage
unfolding settle is_terminal
left-settle s none h = ground arith
left-settle s (some e) h = ground arith

left-zero : (s : PipelineState) → left s.stage ≤ 0 → is_terminal s ≡ true
unfolding is_terminal
left-zero s h = ground arith

drive_ends :
    (s : PipelineState) (os : List Outcome)
    → left s.stage ≤ length os
    → is_terminal (drive s os) ≡ true
unfolding drive
drive_ends s [] h = left-zero s h
drive_ends s (o ∷ os) h = elim (Bool-cases (is_terminal s)) [
  | inl end ↦ rw end end
  | inr going ↦ rw going (drive_ends (settle s o) os (omega (arith, left-settle s o going)))
]

-- Every pipeline ends: after four outcomes, successes and failures in any order, it is terminal.
pub drive-terminates :
    (s : PipelineState) (os : List Outcome) → 4 ≤ length os → is_terminal (drive s os) ≡ true
drive-terminates s os h = drive_ends s os (omega (arith, left-le s.stage))
  where
    left-le : (p : PipelineStage) → left p ≤ 4
    left-le p = ground arith

drive_of_terminal : (s : PipelineState) (os : List Outcome) → is_terminal s ≡ true → drive s os ≡ s
unfolding drive
drive_of_terminal s [] h = refl
drive_of_terminal s (o ∷ os) h = rw h

-- What is left to execute at a stage, if all goes well.
abbrev script : PipelineStage → PipelineState → List PipelineAction
script verify_branch s =
    let verify = run_verify s.task_id s.worktree_path in
    let publish = submit_branch s.task_id s.worktree_path s.submit_mode in
    elim s.parent_branch [
      | none ↦ verify ∷ publish ∷ []
      | some parent ↦
          if is_stack s.submit_mode
          then verify ∷ stack_on s.task_id s.worktree_path parent ∷ verify ∷ publish ∷ []
          else verify ∷ publish ∷ []
    ]
script stack_on_parent s =
    next_action s
    ∷ run_verify s.task_id s.worktree_path
    ∷ submit_branch s.task_id s.worktree_path s.submit_mode
    ∷ []
script verify_stack s =
    run_verify s.task_id s.worktree_path
    ∷ submit_branch s.task_id s.worktree_path s.submit_mode
    ∷ []
script submit s = submit_branch s.task_id s.worktree_path s.submit_mode ∷ []
script _ s = []

script-advance :
    (s : PipelineState)
    → is_terminal s ≡ false
    → script s.stage s ≡ next_action s ∷ script (advance s).stage (advance s)
unfolding is_terminal advance next_action
script-advance s h = ground arith

failed_stays :
    (s : PipelineState) (e : String) (os : List Outcome) → (drive (fail s e) os).stage ≢ done
failed_stays s e os h =
    let stays = drive_of_terminal (fail s e) os (unfold is_terminal fail in refl) in
    unfold fail in cc stays

step_script :
    (s : PipelineState) (o : Outcome) (os : List Outcome)
    → is_terminal s ≡ false
    → (drive (settle s o) os).stage ≡ done
    → executed (settle s o) os ≡ script (settle s o).stage (settle s o)
    → next_action s ∷ executed (settle s o) os ≡ script s.stage s
unfolding settle
step_script s none os going h ih = rw ih (sym (script-advance s going))
step_script s (some e) os going h ih = absurd (failed_stays s e os (unfold fail in h))

executed-script :
    (s : PipelineState) (os : List Outcome)
    → (drive s os).stage ≡ done
    → executed s os ≡ script s.stage s
unfolding drive executed
executed-script s [] h = rw h refl
executed-script s (o ∷ os) h = elim (Bool-cases (is_terminal s)) [
  | inl end ↦ let finished : s.stage ≡ done = rw end at h in rw end (rw finished refl)
  | inr going ↦
      let rest : (drive (settle s o) os).stage ≡ done = rw going at h in
      rw going (step_script s o os going rest (executed-script (settle s o) os rest))
]

-- A new pipeline that ends `done` verified, stacked the branch on its parent, verified again and
-- submitted, in that order and each once, if it has a parent branch and the mode is `stack`; it
-- verified once and submitted if not. No other action was executed.
pub executed-new :
    (id : TaskId) (branch : String) (tree : FilePath) (mode : SubmitMode) (parent : Option String)
    (os : List Outcome)
    → (drive (new id branch tree mode parent) os).stage ≡ done
    → executed (new id branch tree mode parent) os ≡ elim parent [
      | none ↦ run_verify id tree ∷ submit_branch id tree mode ∷ []
      | some base ↦
          if is_stack mode
          then run_verify id tree
            ∷ stack_on id tree base
            ∷ run_verify id tree
            ∷ submit_branch id tree mode
            ∷ []
          else run_verify id tree ∷ submit_branch id tree mode ∷ []
    ]
unfolding new
executed-new id branch tree mode parent os h = executed-script (new id branch tree mode parent) os h

-- A failure at any point of a pipeline that is not finished ends it: no later outcome changes it,
-- its stage is `failed`, and the action that it asks for reports the message.
pub drive-fails :
    (s : PipelineState) (e : String) (os : List Outcome)
    → is_terminal s ≡ false
    → (drive s (some e ∷ os) ≡ fail s e)
      × (next_action (drive s (some e ∷ os)) ≡ report_failed s.task_id failed e)
unfolding drive settle next_action
drive-fails s e os going =
    let stays = drive_of_terminal (fail s e) os (unfold is_terminal fail in refl) in
    (rw going stays, rw (going, stays) (unfold fail in refl))
