-- ===== src/SelfHeal/Tests.antt =====
-- The theorems about self-healing at small results.
use othala.Base.{
  ℕ, ◌+◌, ◌≡◌, refl, true, false, ◌&&◌, none, List, [], ◌∷◌, String, ltb, leb, ℤ, pos, negsuc,
  arith, suc, ◌-◌,
}
use othala.Base.Text.{chars}
use othala.Core.Seconds.{seconds}
use othala.SelfHeal.{
  QaTestResult, QaResult, QaFailureClass, class_eq, flaky, regression, environment_issue,
  classify_failure, QaRetryConfig, from_result, record_retry, is_exhausted, is_ready,
}
use othala.SelfHeal.Attempts.{retries, retries-exhausted}

abbrev timeout_test : QaTestResult
timeout_test = record {
  name = "login";
  suite = "web";
  passed = false;
  detail = "request Timed Out after 30s";
  duration_ms = 30000;
}

timeout_class : classify_failure timeout_test true ≡ environment_issue
unfolding classify_failure chars
timeout_class = refl

abbrev result_with : ℕ → QaResult ℕ
result_with failed = record {
  branch = "task/T1";
  commit = "abc";
  timestamp = 100;
  tests = timeout_test ∷ [];
  summary = record { total = 4; passed = 4 - failed; failed = failed };
}

-- The multiplier is a number here, and the delay is multiplied once for each attempt.
abbrev retry_config : QaRetryConfig ℕ
retry_config = record {
  max_retries = 2;
  base_delay_secs = 30;
  backoff_multiplier = 2;
  max_delay_secs = 300;
}

abbrev shift_secs : ℕ → ℤ → ℕ
shift_secs t (pos n) = t + n
shift_secs t (negsuc n) = t - suc n

abbrev scaled_by : ℕ → ℕ → ℕ → ℤ
scaled_by base multiplier attempt = pos (base + multiplier + attempt)

abbrev found_classes : List (String × QaFailureClass)
found_classes = ("a.b", flaky) ∷ ("a.c", regression) ∷ ("a.d", flaky) ∷ []

retries-exhausted_example :
    let state =
      retries shift_secs scaled_by retry_config
        (from_result shift_secs "T1" (result_with 1) none retry_config 100)
        (130 ∷ 200 ∷ []) in
    (is_exhausted state ≡ leb 2 2)
    × ((record_retry shift_secs scaled_by state retry_config 400).0 ≡ ltb 3 2)
    × ((is_exhausted state && is_ready state 400) ≡ false)
retries-exhausted_example =
    retries-exhausted shift_secs scaled_by retry_config "T1" (result_with 1) none 100 400
      (130 ∷ 200 ∷ []) (omega arith)
