-- ===== src/Recovery/Attempts.antt =====
-- How often the recovery loop retries a task.
use othala.Base.{
  ℕ, ◌+◌, ◌≤◌, ◌≡◌, refl, sym, ◌∙◌, ap, subst, inl, inr, Bool, true, false, ◌&&◌, Option, none,
  some, List, [], ◌∷◌, String, length, length-append, is_some, if◌then◌else◌, string_eq, ◌==◌,
  arith, Bool-cases, Option-cases,
}
use othala.Base.Assoc.{get, insert, get-insert, get-remove}
use othala.Core.Time.{Chrono}
use othala.Recovery.{
  RecoveryAttempt, RecoveryState, RecoveryDecision, SisyphusRecoveryLoop, retry_with_sisyphus, new,
  noted, decide, should_escalate, try_sisyphus, record_sisyphus_attempt, recovery_of, evaluate,
  mark_success, mark_failure, cleanup, end_last, complete_attempt, ended, with_recovery,
}
use othala.Recovery.Classes.{
  ErrorClass, RecoveryAction, retry, retry_with_agent, wait_and_retry, escalate_human, stop,
}
use othala.Recovery.Classifier.{ProblemClassifier, classify, detect_repeated_pattern}

abbrev pub is_retry : RecoveryDecision → Bool
is_retry retry_with_sisyphus = true
is_retry _ = false

module _ {T : Type 0} where
  -- The attempts of a recovery are those in its history, and no more than two.
  abbrev pub IsSound : RecoveryState T → Type 0
  IsSound r =
      (r.max_sisyphus_attempts ≡ 2)
      × (r.sisyphus_attempts ≤ 2)
      × (length r.history ≡ r.sisyphus_attempts)

  -- What a decision has counted.
  abbrev Counted : RecoveryState T → RecoveryDecision × RecoveryState T → Type 0
  Counted r (decision, after) =
      IsSound after
      × (after.sisyphus_attempts ≡ r.sisyphus_attempts + (if is_retry decision then 1 else 0))

  same_attempts : (r : RecoveryState T) → r.sisyphus_attempts ≡ r.sisyphus_attempts + 0
  same_attempts r = omega arith

  try_sisyphus-Counted :
      (r : RecoveryState T) (class : ErrorClass) (repeated : Bool) (now : T)
      → IsSound r
      → Counted r (try_sisyphus r class repeated now)
  unfolding record_sisyphus_attempt
  try_sisyphus-Counted r class repeated now (two, few, all) =
      elim (Bool-cases (should_escalate r)) [
        | inl spent ↦ rw spent ((two, few, all), same_attempts r)
        | inr room ↦ elim (Bool-cases repeated) [
          | inl again ↦ rw (room, again) ((two, few, all), same_attempts r)
          | inr fresh ↦
              rw (room, fresh)
                (
                  (
                    two,
                    ground (arith, room, two),
                    omega (arith, all, length-append r.history (_ ∷ [])),
                  ),
                  refl,
                )
        ]
      ]

  module _ ⦃chrono : Chrono T⦄ where
    decide-Counted :
        (r : RecoveryState T) (action : RecoveryAction) (class : ErrorClass) (repeated : Bool)
        (now : T)
        → IsSound r
        → Counted r (decide r action class repeated now)
    decide-Counted r escalate_human class repeated now good = (good, same_attempts r)
    decide-Counted r wait_and_retry class repeated now good = (good, same_attempts r)
    decide-Counted r stop class repeated now good = (good, same_attempts r)
    decide-Counted r retry_with_agent class repeated now good =
        try_sisyphus-Counted r class repeated now good
    decide-Counted r retry class repeated now good = try_sisyphus-Counted r class repeated now good

  new-IsSound : (now : T) (task_id : String) → IsSound (new now task_id)
  unfolding new
  new-IsSound now task_id = (refl, omega arith, refl)

  length-end_last :
      (history : List (RecoveryAttempt T)) (now : T) (outcome : String) (changes : List String)
      → length (end_last history now outcome changes) ≡ length history
  unfolding end_last
  length-end_last [] now outcome changes = refl
  length-end_last (a ∷ []) now outcome changes = refl
  length-end_last (a ∷ b ∷ rest) now outcome changes =
      omega (arith, length-end_last (b ∷ rest) now outcome changes)

  complete_attempt_keeps :
      (r : RecoveryState T) (good : Bool) (changes : List String) (now : T)
      → IsSound r
      → IsSound (complete_attempt r good changes now)
        × ((complete_attempt r good changes now).sisyphus_attempts ≡ r.sisyphus_attempts)
  unfolding complete_attempt
  complete_attempt_keeps r true changes now (two, few, all) =
      ((two, few, length-end_last r.history now "success" changes ∙ all), refl)
  complete_attempt_keeps r false changes now (two, few, all) =
      ((two, few, length-end_last r.history now "failed" changes ∙ all), refl)

  abbrev attempts_in : Option (RecoveryState T) → ℕ
  attempts_in none = 0
  attempts_in (some r) = r.sisyphus_attempts

  abbrev SoundIn : Option (RecoveryState T) → Type 0
  SoundIn none = Unit
  SoundIn (some r) = IsSound r

  abbrev pub attempts_of : SisyphusRecoveryLoop T → String → ℕ
  attempts_of self task_id = attempts_in (get self.recoveries task_id)

  abbrev pub AllSound : SisyphusRecoveryLoop T → Type 0
  AllSound self = (task_id : String) → SoundIn (get self.recoveries task_id)

-- The calls by which recoveries change. The daemon cleans a task up once it is handed to a human or
-- given up.
pub data Call (T : Type 0) : Type 0 where
  evaluates : (task_id failure_reason : String) → (now : T) → Call T
  succeeds : (task_id : String) → (changes : List String) → (now : T) → Call T
  fails : (task_id : String) → (now : T) → Call T
  cleans_up : (task_id : String) → Call T

module _ {T : Type 0} ⦃chrono : Chrono T⦄ where
  -- A call, and how often retrying the task was decided since its last cleanup, if that was `n` times
  -- before the call.
  abbrev pub perform : SisyphusRecoveryLoop T → Call T → String → ℕ → ℕ × SisyphusRecoveryLoop T
  perform self (evaluates task_id failure_reason now) watched n =
      let (decision, after) = evaluate self task_id failure_reason now in
      (n + (if task_id == watched && is_retry decision then 1 else 0), after)
  perform self (succeeds task_id changes now) watched n = (n, mark_success self task_id changes now)
  perform self (fails task_id now) watched n = (n, mark_failure self task_id now)
  perform self (cleans_up task_id) watched n =
      (if task_id == watched then 0 else n, cleanup self task_id)

  unfoldable pub perform_all :
      SisyphusRecoveryLoop T → List (Call T) → String → ℕ → ℕ × SisyphusRecoveryLoop T
  unfolding evaluate mark_success mark_failure cleanup
  perform_all self [] watched n = (n, self)
  perform_all self (call ∷ calls) watched n =
      let (n', after) = perform self call watched n in perform_all after calls watched n'

  abbrev Step : SisyphusRecoveryLoop T → String → Bool × SisyphusRecoveryLoop T → Type 0
  Step self watched (hit, after) =
      AllSound after
      × (attempts_of after watched ≡ attempts_of self watched + (if hit then 1 else 0))

  -- To put back a sound recovery of a task, with so many more attempts, is a step.
  put-Step :
      (self after : SisyphusRecoveryLoop T) (task_id watched : String) (r : RecoveryState T)
      (more : Bool)
      → AllSound self
      → IsSound r
      → r.sisyphus_attempts ≡ attempts_of self task_id + (if more then 1 else 0)
      → after.recoveries ≡ insert self.recoveries task_id r
      → Step self watched (task_id == watched && more, after)
  put-Step self after task_id watched r more sound good counted e =
      let found : (other : String)
          → get after.recoveries other
            ≡ (if task_id == other then some r else get self.recoveries other) =
        λ other. ap (λ map. get map other) e ∙ get-insert self.recoveries task_id other r in
      (
        λ other. subst SoundIn (sym (found other)) (elim (Bool-cases (task_id == other)) [
          | inl hit ↦ rw hit good
          | inr miss ↦ rw miss (sound other)
        ]),
        ap attempts_in (found watched) ∙ elim (Bool-cases (task_id == watched)) [
          | inl hit ↦
              let same : task_id ≡ watched = (string_eq.same_iff task_id watched).0 hit in
              rw hit (counted ∙ ap (λ id. attempts_of self id + (if more then 1 else 0)) same)
          | inr miss ↦ rw miss (omega arith)
        ],
      )

  recovery_of-IsSound :
      (self : SisyphusRecoveryLoop T) (task_id : String) (now : T)
      → AllSound self
      → IsSound (recovery_of self task_id now)
        × ((recovery_of self task_id now).sisyphus_attempts ≡ attempts_of self task_id)
  unfolding new
  recovery_of-IsSound self task_id now sound = elim (Option-cases (get self.recoveries task_id)) [
    | inl absent ↦ rw absent (new-IsSound now task_id, refl)
    | inr (r, there) ↦ rw there (subst SoundIn there (sound task_id), refl)
  ]

  ended-Step :
      (self : SisyphusRecoveryLoop T) (task_id watched : String) (good : Bool)
      (changes : List String) (now : T)
      → AllSound self
      → Step self watched
          (false, with_recovery self task_id (ended (get self.recoveries task_id) good changes now))
  ended-Step self task_id watched good changes now sound =
      elim (Option-cases (get self.recoveries task_id)) [
        | inl absent ↦ rw absent (sound, omega arith)
        | inr (r, there) ↦
            let (fine, same) =
              complete_attempt_keeps r good changes now (subst SoundIn there (sound task_id)) in
            let stepped =
              put-Step self
                (with_recovery self task_id (some (complete_attempt r good changes now))) task_id
                watched (complete_attempt r good changes now) false sound fine
                (same ∙ ap attempts_in (sym there) ∙ omega arith) refl in
            rw there (
              subst
                (λ hit.
                  Step self watched
                    (hit, with_recovery self task_id (some (complete_attempt r good changes now))))
                (no_hit (task_id == watched)) stepped)
      ]
    where
      no_hit : (b : Bool) → (b && false) ≡ false
      no_hit b = ground arith

  -- The loop has counted the retries of the task.
  abbrev IsCounted : String → ℕ × SisyphusRecoveryLoop T → Type 0
  IsCounted watched (n, self) = AllSound self × (attempts_of self watched ≡ n)

  Step-IsCounted :
      (self : SisyphusRecoveryLoop T) (watched : String) (n : ℕ) (hit : Bool)
      (after : SisyphusRecoveryLoop T)
      → IsCounted watched (n, self)
      → Step self watched (hit, after)
      → IsCounted watched (n + (if hit then 1 else 0), after)
  Step-IsCounted self watched n hit after (_, counted) (fine, more) =
      (fine, more ∙ ap (λ k. k + (if hit then 1 else 0)) counted)

  ended-IsCounted :
      (self : SisyphusRecoveryLoop T) (task_id watched : String) (good : Bool)
      (changes : List String) (now : T) (n : ℕ)
      → IsCounted watched (n, self)
      → IsCounted watched
          (n, with_recovery self task_id (ended (get self.recoveries task_id) good changes now))
  ended-IsCounted self task_id watched good changes now n right =
      let (fine, counted) =
        Step-IsCounted self watched n false
          (with_recovery self task_id (ended (get self.recoveries task_id) good changes now)) right
          (ended-Step self task_id watched good changes now right.0) in
      (fine, omega (arith, counted))

  cleanup-IsCounted :
      (self : SisyphusRecoveryLoop T) (task_id watched : String) (n : ℕ)
      → IsCounted watched (n, self)
      → IsCounted watched (if task_id == watched then 0 else n, cleanup self task_id)
  unfolding cleanup
  cleanup-IsCounted self task_id watched n (sound, counted) = (
    λ other. subst SoundIn (sym (get-remove self.recoveries task_id other)) (kept other),
    ap attempts_in (get-remove self.recoveries task_id watched)
        ∙ elim (Bool-cases (task_id == watched)) [
          | inl hit ↦ rw hit refl
          | inr miss ↦ rw miss counted
        ],
  )
    where
      kept :
          (other : String) → SoundIn (if task_id == other then none else get self.recoveries other)
      kept other = elim (Bool-cases (task_id == other)) [
        | inl hit ↦ rw hit tt
        | inr miss ↦ rw miss (sound other)
      ]

  perform-IsCounted :
      (self : SisyphusRecoveryLoop T) (call : Call T) (watched : String) (n : ℕ)
      → IsCounted watched (n, self)
      → IsCounted watched (perform self call watched n)
  unfolding evaluate mark_success mark_failure
  perform-IsCounted self (succeeds task_id changes now) watched n right =
      ended-IsCounted self task_id watched true changes now n right
  perform-IsCounted self (fails task_id now) watched n right =
      ended-IsCounted self task_id watched false [] now n right
  perform-IsCounted self (cleans_up task_id) watched n right =
      cleanup-IsCounted self task_id watched n right
  perform-IsCounted self (evaluates task_id failure_reason now) watched n right =
      let classified = classify self.classifier failure_reason in
      let class = (classified.0).class in
      let repeated = is_some (detect_repeated_pattern classified.1 3) in
      let (good, before) = recovery_of-IsSound self task_id now right.0 in
      let r = noted (recovery_of self task_id now) failure_reason class in
      let (fine, counted) = decide-Counted r (classified.0).action class repeated now good in
      Step-IsCounted self watched n
        (task_id == watched && is_retry (decide r (classified.0).action class repeated now).0)
        (evaluate self task_id failure_reason now).1 right
        (put-Step self (evaluate self task_id failure_reason now).1 task_id watched
          (decide r (classified.0).action class repeated now).1
          (is_retry (decide r (classified.0).action class repeated now).0) right.0 fine
          (omega (arith, counted, before)) refl)

  perform_all-IsCounted :
      (self : SisyphusRecoveryLoop T) (calls : List (Call T)) (watched : String) (n : ℕ)
      → IsCounted watched (n, self)
      → IsCounted watched (perform_all self calls watched n)
  unfolding perform_all
  perform_all-IsCounted self [] watched n right = right
  perform_all-IsCounted self (call ∷ calls) watched n right =
      let (n', after) = perform self call watched n in
      perform_all-IsCounted after calls watched n' (perform-IsCounted self call watched n right)

  few-attempts : (o : Option (RecoveryState T)) → SoundIn o → attempts_in o ≤ 2
  few-attempts none good = omega arith
  few-attempts (some r) good = good.1

  -- From a loop that recovers nothing yet, after any calls that evaluate errors, end attempts or clean
  -- up, of whichever tasks and in whichever order: since the last cleanup of a task, or from the start
  -- if it was never cleaned up, retrying it was decided at most twice; the attempts that are recorded
  -- of the task are exactly those; and each recovery has as many entries of history as attempts.
  pub retries-le_two :
      (classifier : ProblemClassifier) (calls : List (Call T)) (watched : String)
      → let (n, after) =
          perform_all (record { classifier = classifier; recoveries = [] }) calls watched 0 in
        (n ≤ 2) × (attempts_of after watched ≡ n) × AllSound after
  unfolding get
  retries-le_two classifier calls watched =
      let self : SisyphusRecoveryLoop T = record { classifier = classifier; recoveries = [] } in
      let (fine, counted) = perform_all-IsCounted self calls watched 0 (λ task_id. tt, refl) in
      let few =
        few-attempts (get (perform_all self calls watched 0).1.recoveries watched) (fine watched) in
      (omega (arith, few, counted), counted, fine)
