-- ===== src/Recovery/Tests.antt =====
-- The theorems about the recovery loop at small inputs.
use othala.Base.{ℕ, ◌≡◌, ◌≢◌, ◌≤◌, ◌<◌, ◌↔◌, refl, List, [], ◌∷◌, string_eq}
use othala.Base.Text.{chars}
use othala.Base.Assoc.{get, insert}
use othala.Core.Seconds.{seconds}
use othala.Recovery.{SisyphusRecoveryLoop, retry_with_sisyphus, evaluate, recovery_of}
use othala.Recovery.Classes.{logic, network, error_class_eq}
use othala.Recovery.Classifier.{
  ProblemClassifier, new_classifier, classify, match_all, best_match, best_of,
}
use othala.Recovery.Attempts.{
  Call, evaluates, fails, perform_all, cleans_up, attempts_of, AllSound, retries-le_two,
}
use othala.Recovery.Repeated.{class_of, IsRetryable, IsThird, evaluate-retry_iff, evaluate-third}

abbrev two_failures : ProblemClassifier
two_failures = record new_classifier {
  recent = ("test failed: a", logic) ∷ ("test failed: b", logic) ∷ [];
}

abbrev after_two : SisyphusRecoveryLoop ℕ
after_two = record { classifier = two_failures; recoveries = [] }

failing-test : class_of two_failures "test failed: c" ≡ logic
unfolding classify match_all best_match best_of chars get insert
failing-test = refl

timing-out : class_of new_classifier "request timed out" ≡ network
unfolding classify match_all best_match best_of chars get insert
timing-out = refl

abbrev some_tries : List (Call ℕ)
some_tries =
    evaluates "T1" "test failed" 1
    ∷ fails "T1" 2
    ∷ evaluates "T1" "error[E0308]" 3
    ∷ fails "T1" 4
    ∷ cleans_up "T1"
    ∷ evaluates "T1" "rebase" 5
    ∷ []

evaluate-third_example : (evaluate after_two "T3" "test failed: c" 9).0 ≢ retry_with_sisyphus
evaluate-third_example =
    evaluate-third after_two "T3" "test failed: c" 9 [] "test failed: a" "test failed: b"
      (rw failing-test refl)

evaluate-retry_iff_example :
    ((evaluate after_two "T3" "test failed: c" 9).0 ≡ retry_with_sisyphus) ↔ (
      IsRetryable (class_of two_failures "test failed: c")
      × ((recovery_of after_two "T3" 9).sisyphus_attempts
          < (recovery_of after_two "T3" 9).max_sisyphus_attempts)
      × (¬ IsThird two_failures "test failed: c"))
evaluate-retry_iff_example = evaluate-retry_iff after_two "T3" "test failed: c" 9

retries-le_two_example :
    let (n, after) =
      perform_all (record { classifier = new_classifier; recoveries = [] }) some_tries "T1" 0 in
    (n ≤ 2) × (attempts_of after "T1" ≡ n) × AllSound after
retries-le_two_example = retries-le_two new_classifier some_tries "T1"
