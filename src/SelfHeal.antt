-- ===== src/SelfHeal.antt =====
-- crates/orchd/src/qa_self_heal.rs: what failing tests are taken for, how often validation is
-- retried, and when the way to a merge is open again. The results are those of
-- crates/orchd/src/qa_agent.rs.
pub mod Classify
pub mod Transitions
pub mod Attempts
mod Tests
use othala.Base.{
  ℕ, suc, ◌+◌, ◌-◌, ◌^◌, ◌%◌, Bool, true, false, ◌&&◌, ◌||◌, not, Option, none, some, List, [], ◌∷◌,
  map, any, filter, String, PartialEq, ◌==◌, string_eq, nat_beq, ltb, leb, if◌then◌else◌, unwrap_or,
  ◌≡◌, ◌↔◌, arith, is_empty, ℤ, pos, negsuc, as_i64, min_ℤ,
}
use Prim.Native.String.{◌++◌ as ◌++ₛ◌}
use othala.Base.Text.{chars}
use othala.Base.Assoc.{Assoc, get, insert}
use othala.Core.Time.{Chrono}

pub record QaTestResult : Type 0 where
  pub name : String
  pub suite : String
  pub passed : Bool
  pub detail : String
  pub duration_ms : ℕ

pub record QaSummary : Type 0 where
  pub total : ℕ
  pub passed : ℕ
  pub failed : ℕ

pub record QaResult (T : Type 0) : Type 0 where
  pub branch : String
  pub commit : String
  pub timestamp : T
  pub tests : List QaTestResult
  pub summary : QaSummary

pub data QaFailureClass : Type 0 where
  regression flaky environment_issue acceptance_gap unknown : QaFailureClass

abbrev class_index : QaFailureClass → ℕ
class_index regression = 0
class_index flaky = 1
class_index environment_issue = 2
class_index acceptance_gap = 3
class_index unknown = 4

abbrev pub class_beq : QaFailureClass → QaFailureClass → Bool
class_beq a b = nat_beq (class_index a) (class_index b)

pub class_beq_iff : (a b : QaFailureClass) → (class_beq a b ≡ true) ↔ (a ≡ b)
class_beq_iff a b = ground arith

instance abbrev pub class_eq : PartialEq QaFailureClass
class_eq = record { same = class_beq; same_iff = class_beq_iff }

abbrev pub is_auto_fixable : QaFailureClass → Bool
is_auto_fixable regression = true
is_auto_fixable acceptance_gap = true
is_auto_fixable _ = false

abbrev pub is_retryable : QaFailureClass → Bool
is_retryable flaky = true
is_retryable environment_issue = true
is_retryable _ = false

-- `starts_with` and `contains` of texts.
abbrev pub starts_with : List ℕ → List ℕ → Bool
starts_with text [] = true
starts_with [] (w ∷ word) = false
starts_with (c ∷ text) (w ∷ word) = nat_beq c w && starts_with text word

abbrev pub contains_word : List ℕ → List ℕ → Bool
contains_word [] word = is_empty word
contains_word (c ∷ text) word = starts_with (c ∷ text) word || contains_word text word

-- `to_ascii_lowercase`
abbrev pub to_ascii_lowercase : List ℕ → List ℕ
to_ascii_lowercase text = map (λ c. if leb 65 c && leb c 90 then c + 32 else c) text

abbrev pub environment_words : List String
environment_words =
    "connection refused" ∷ "port already in use" ∷ "no such file or directory" ∷ "permission denied"
    ∷ "timed out" ∷ "econnreset" ∷ "eaddrinuse" ∷ []

abbrev pub flaky_words : List String
flaky_words = "intermittent" ∷ "flaky" ∷ "race condition" ∷ "non-deterministic" ∷ []

-- A chain of `contains` joined by `||`.
abbrev pub contains_any : List ℕ → List String → Bool
contains_any text words = any (λ word. contains_word text (chars word)) words

unfoldable pub classify_failure : QaTestResult → Bool → QaFailureClass
unfolding chars
classify_failure test baseline_passed =
    let detail_lower = to_ascii_lowercase (chars test.detail) in
    if contains_any detail_lower environment_words
    then environment_issue
    else if contains_any detail_lower flaky_words
    then flaky
    else if baseline_passed
    then regression
    else acceptance_gap

-- `format!("{}.{}", t.suite, t.name)`
abbrev pub test_key : QaTestResult → String
test_key t = t.suite ++ₛ "." ++ₛ t.name

-- `collect` of pairs into a map, where a later pair replaces an earlier one of the same key.
abbrev pub collect_passed : List QaTestResult → Assoc String Bool → Assoc String Bool
collect_passed [] done = done
collect_passed (t ∷ ts) done = collect_passed ts (insert done (test_key t) t.passed)

abbrev pub classified : Assoc String Bool → QaTestResult → String × QaFailureClass
classified baseline t =
    (test_key t, classify_failure t (unwrap_or (get baseline (test_key t)) false))

module _ {T : Type 0} where
  abbrev pub baseline_map : Option (QaResult T) → Assoc String Bool
  baseline_map none = []
  baseline_map (some b) = collect_passed b.tests []

  unfoldable pub classify_all_failures :
      QaResult T → Option (QaResult T) → List (String × QaFailureClass)
  classify_all_failures result baseline =
      map (classified (baseline_map baseline)) (filter (λ t. not t.passed) result.tests)

-- The configuration of the retries. `F` are the floating-point numbers.
pub record QaRetryConfig (F : Type 0) : Type 0 where
  pub max_retries : ℕ
  pub base_delay_secs : ℕ
  pub backoff_multiplier : F
  pub max_delay_secs : ℕ

pub record QaRetryState (T : Type 0) : Type 0 where
  pub task_id : String
  pub attempt : ℕ
  pub max_attempts : ℕ
  pub last_attempt_at : T
  pub next_retry_at : T
  pub failures_by_class : Assoc QaFailureClass ℕ
  pub should_auto_fix : Bool
  pub should_retry : Bool

-- `*entry(class).or_insert(0) += 1`, over the list.
unfoldable pub count_classes :
    List (String × QaFailureClass) → Assoc QaFailureClass ℕ → Assoc QaFailureClass ℕ
count_classes [] counts = counts
count_classes ((_, class) ∷ rest) counts =
    count_classes rest (insert counts class ((unwrap_or (get counts class) 0 + 1) % 2 ^ 32))

-- `shift t n` is the source's `t + Duration::seconds(n)` for a signed number.
module _ {T F : Type 0} (shift : T → ℤ → T) where
  unfoldable pub from_result :
      String → QaResult T → Option (QaResult T) → QaRetryConfig F → T → QaRetryState T
  unfolding classify_all_failures count_classes
  from_result task_id result baseline config now =
      let classifications = classify_all_failures result baseline in
      record {
        task_id = task_id;
        attempt = 1;
        max_attempts = config.max_retries;
        last_attempt_at = now;
        next_retry_at = shift now (as_i64 config.base_delay_secs);
        failures_by_class = count_classes classifications [];
        should_auto_fix = any (λ c. is_auto_fixable c.1) classifications;
        should_retry = any (λ c. is_retryable c.1) classifications;
      }

  -- `scaled base multiplier attempt` is the source's
  -- `(base as f64 * multiplier.powi(attempt as i32 - 1)) as i64`, in floating-point numbers.
  unfoldable pub record_retry :
      (ℕ → F → ℕ → ℤ) → QaRetryState T → QaRetryConfig F → T → Bool × QaRetryState T
  record_retry scaled self config now =
      let tried = record self { attempt = (self.attempt + 1) % 2 ^ 32; last_attempt_at = now } in
      let delay_secs = scaled config.base_delay_secs config.backoff_multiplier tried.attempt in
      let capped = min_ℤ delay_secs (as_i64 config.max_delay_secs) in
      if ltb tried.max_attempts tried.attempt
      then (false, tried)
      else (true, record tried { next_retry_at = shift now capped })

module _ {T : Type 0} where
  abbrev pub is_exhausted : QaRetryState T → Bool
  is_exhausted self = ltb self.max_attempts self.attempt

  unfoldable pub is_ready : ⦃chrono : Chrono T⦄ → QaRetryState T → T → Bool
  is_ready ⦃chrono⦄ self now =
      self.should_retry && leb self.attempt self.max_attempts && chrono.le self.next_retry_at now

pub data QaTransition : Type 0 where
  red_to_green : (task_id : String) (previous_failures current_passed : ℕ) → QaTransition
  green_to_red : (task_id : String) (new_failures : ℕ) → QaTransition
  still_green : (task_id : String) → QaTransition
  still_red : (task_id : String) (failures : ℕ) → QaTransition

module _ {T : Type 0} where
  unfoldable pub detect_transition : String → Option (QaResult T) → QaResult T → QaTransition
  detect_transition task_id none current =
      if nat_beq current.summary.failed 0
      then still_green task_id
      else still_red task_id current.summary.failed
  detect_transition task_id (some prev) current =
      if ltb 0 prev.summary.failed
      then (if ltb 0 current.summary.failed
          then still_red task_id current.summary.failed
          else red_to_green task_id prev.summary.failed current.summary.passed)
      else (if ltb 0 current.summary.failed
          then green_to_red task_id current.summary.failed
          else still_green task_id)
