-- ===== src/Retry/Tests.antt =====
-- Small inputs of the retry logic, and its theorems at them.
use mathlib.Core.List.{Memᴰ}
use mathlib.Core.List.Memᴰ
use othala.Base.{
  ℕ, ◌+◌, inl, inr, ◌<◌, ◌≡◌, refl, true, false, some, List, [], ◌∷◌, arith, leb, ltb, ◌||◌, pos,
}
use othala.Base.Assoc.{get, insert}
use othala.Core.Seconds.{seconds}
use othala.Core.Task.{ModelKind, claude, codex, gemini, model_eq, Task, new}
use othala.Retry.{AgentOutcome, pick_next_model, evaluate_retry}
use othala.Retry.Evaluate.{Candidate, evaluate_retry_sound, evaluate_retry_complete}
use othala.Retry.Health.{
  ModelHealthTracker, cooldown, with_config, entry, record_success, after_failure,
  record_failure_at, is_available, health_state,
}
use othala.Retry.Tracker.{record_failures, is_available-record_failures}
use othala.Retry.Select.{collect, pick_next_model_with_health}

-- A task whose preferred model is claude and on which gemini failed before.
abbrev tried : Task ℕ
unfolding new
tried = record (new 0 "T1" "repo" "Test task" ".orch/wt/T1") {
  preferred_model = some claude;
  failed_models = gemini ∷ [];
}

-- Claude fails on it.
abbrev failure : AgentOutcome
failure = record {
  task_id = "T1";
  model = claude;
  exit_code = some (pos 1);
  patch_ready = false;
  needs_human = false;
  success = false;
  duration_secs = 1;
}

abbrev all_models : List ModelKind
all_models = claude ∷ codex ∷ gemini ∷ []

codex_is_left : Candidate tried claude all_models codex
unfolding new
codex_is_left = record {
  is_enabled = Memᴰ.tail (Memᴰ.head refl);
  is_other = ground arith;
  is_fresh = λ m. elim (Memᴰ.cases_cons m) [ inl e ↦ ground arith | inr n ↦ elim n [ ] ];
}

retry_reason :
    (evaluate_retry tried failure all_models).reason ≡ "retrying (attempt 1/3) with codex"
unfolding new evaluate_retry pick_next_model
retry_reason = refl

evaluate_retry_sound_example :
    Candidate tried claude all_models codex
    × ((evaluate_retry tried failure all_models).should_retry ≡ true)
    × (failure.success ≡ false)
    × (failure.patch_ready ≡ false)
    × (failure.needs_human ≡ false)
    × (tried.retry_count < tried.max_retries)
unfolding new evaluate_retry pick_next_model
evaluate_retry_sound_example = evaluate_retry_sound tried failure all_models refl

evaluate_retry_complete_example :
    (next : ModelKind) × ((evaluate_retry tried failure all_models).next_model ≡ some next)
    × ((evaluate_retry tried failure all_models).should_retry ≡ true)
unfolding new
evaluate_retry_complete_example =
    evaluate_retry_complete tried failure all_models refl refl refl (omega arith) codex_is_left

abbrev tracker : ModelHealthTracker ℕ
unfolding with_config
tracker = with_config 2 (pos 60)

-- Two failures, at 10 and at 20, and a look at 79 and at 80.
is_available-record_failures_example :
    (is_available (record_failures (record_success tracker claude) claude (10 ∷ 20 ∷ [])) claude 79)
    ≡ (ltb 2 2 || leb (20 + 60) 79)
unfolding with_config
is_available-record_failures_example =
    is_available-record_failures tracker claude (10 ∷ []) 20 79 (omega arith)

-- Codex failed at 20 and gemini at 10; both are in cooldown at 30.
abbrev failing : ModelHealthTracker ℕ
unfolding with_config record_failures record_failure_at entry after_failure get insert
failing =
    record_failures (record_failures (with_config 1 (pos 60)) codex (20 ∷ [])) gemini (10 ∷ [])

abbrev untried : Task ℕ
unfolding new
untried = new 0 "T1" "repo" "Test task" ".orch/wt/T1"

codex_is_fresh : Candidate untried claude all_models codex
unfolding new
codex_is_fresh = record {
  is_enabled = Memᴰ.tail (Memᴰ.head refl);
  is_other = ground arith;
  is_fresh = λ m. elim m [ ];
}

chosen : pick_next_model_with_health untried claude all_models failing 30 ≡ some gemini
unfolding new failing pick_next_model_with_health collect health_state
chosen = refl

gemini_is_cold : health_state failing gemini 30 ≡ cooldown
unfolding failing health_state
gemini_is_cold = refl
