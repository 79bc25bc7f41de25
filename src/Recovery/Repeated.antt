-- ===== src/Recovery/Repeated.antt =====
-- When the recovery loop decides to retry a task, and when an error counts as repeated.
use mathlib.Core.Bool.{false≢true}
use mathlib.Core.List.{append_assoc}
use othala.Base.{
  suc, ◌≤◌, ◌<◌, ◌+◌, ◌-◌, ◌≡◌, ◌≢◌, refl, sym, ◌∙◌, ap, ◌↔◌, inl, inr, Bool, true, false, some,
  List, [], ◌∷◌, ◌++◌, String, length, length-append, is_some, ltb, ==_refl, arith, Bool-cases,
}
use othala.Core.Time.{Chrono}
use othala.Recovery.{
  RecoveryState, RecoveryDecision, SisyphusRecoveryLoop, retry_with_sisyphus, noted, decide,
  try_sisyphus, recovery_of, evaluate,
}
use othala.Recovery.Classes.{ErrorClass, error_class_eq}
use othala.Recovery.Classifier.{
  ProblemClassifier, classify, detect_repeated_pattern, drop, common_class, forget_oldest,
  action_for,
}
use othala.Recovery.Attempts.{is_retry}

-- The class that an error is taken for.
abbrev pub class_of : ProblemClassifier → String → ErrorClass
class_of classifier error = ((classify classifier error).0).class

drop-append {ℓ} : {A : Type ℓ} (front back : List A) → drop (length front) (front ++ back) ≡ back
drop-append [] back = refl
drop-append (x ∷ front) back = drop-append front back

classify-recent :
    (classifier : ProblemClassifier) (error : String)
    → (classify classifier error).1.recent
      ≡ forget_oldest (classifier.recent ++ (error, class_of classifier error) ∷ [])
unfolding classify
classify-recent classifier error = refl

abbrev Seen : Type 0
Seen = List (String × ErrorClass)

-- Forgetting the oldest keeps the last three.
forget_oldest-last :
    (front : Seen) (a b c : String × ErrorClass)
    → (front' : Seen) × (forget_oldest (front ++ a ∷ b ∷ c ∷ []) ≡ front' ++ a ∷ b ∷ c ∷ [])
forget_oldest-last [] a b c = ([], refl)
forget_oldest-last (x ∷ front) a b c =
    elim (Bool-cases (ltb 100 (length (x ∷ front ++ a ∷ b ∷ c ∷ [])))) [
      | inl full ↦ (front, rw full refl)
      | inr room ↦ (x ∷ front, rw room refl)
    ]

detect-three :
    (classifier : ProblemClassifier) (front : Seen) (e f g : String) (class : ErrorClass)
    → classifier.recent ≡ front ++ (e, class) ∷ (f, class) ∷ (g, class) ∷ []
    → detect_repeated_pattern classifier 3 ≡ some class
unfolding detect_repeated_pattern
detect-three classifier front e f g class h =
    let three : Seen = (e, class) ∷ (f, class) ∷ (g, class) ∷ [] in
    let size : length classifier.recent ≡ length front + 3 =
      omega (arith, ap length h, length-append front three) in
    let enough : ltb (length classifier.recent) 3 ≡ false = ground (arith, size) in
    let from : length classifier.recent - 3 ≡ length front = omega (arith, size) in
    rw enough (
      ap (λ n. common_class (drop n classifier.recent)) from
      ∙ ap (λ seen. common_class (drop (length front) seen)) h
      ∙ ap common_class (drop-append front three)
      ∙ rw (==_refl class) refl)

-- The two errors before this one are of its class.
abbrev pub IsThird : ProblemClassifier → String → Type 0
IsThird classifier error =
    (front : Seen) × (first second : String) × (classifier.recent
      ≡ front ++ (first, class_of classifier error) ∷ (second, class_of classifier error) ∷ [])

append_two :
    (xs : Seen) (a b c : String × ErrorClass) → (xs ++ a ∷ b ∷ []) ++ c ∷ [] ≡ xs ++ a ∷ b ∷ c ∷ []
append_two [] a b c = refl
append_two (x ∷ xs) a b c = ap (λ rest. x ∷ rest) (append_two xs a b c)

detect-IsThird :
    (classifier : ProblemClassifier) (error : String)
    → IsThird classifier error
    → is_some (detect_repeated_pattern (classify classifier error).1 3) ≡ true
detect-IsThird classifier error (front, first, second, h) =
    let class = class_of classifier error in
    let (front', e) = forget_oldest-last front (first, class) (second, class) (error, class) in
    let seen : (classify classifier error).1.recent
        ≡ front' ++ (first, class) ∷ (second, class) ∷ (error, class) ∷ [] =
      classify-recent classifier error
      ∙ ap (λ old. forget_oldest (old ++ (error, class) ∷ [])) h
      ∙ ap forget_oldest (append_two front (first, class) (second, class) (error, class))
      ∙ e in
    ap is_some (detect-three (classify classifier error).1 front' first second error class seen)

-- A list of three or more: what is before the last three, and they.
last_three :
    (xs : Seen)
    → 3 ≤ length xs
    → (front : Seen) × (a b c : String × ErrorClass) × (xs ≡ front ++ a ∷ b ∷ c ∷ [])
      × (drop (length xs - 3) xs ≡ a ∷ b ∷ c ∷ [])
last_three (a ∷ b ∷ c ∷ []) h = ([], a, b, c, refl, refl)
last_three (x ∷ a ∷ b ∷ c ∷ rest) h =
    let (front, a', b', c', e, dropped) = last_three (a ∷ b ∷ c ∷ rest) (omega arith) in
    let more : length (x ∷ a ∷ b ∷ c ∷ rest) - 3 ≡ suc (length (a ∷ b ∷ c ∷ rest) - 3) =
      omega arith in
    (
      x ∷ front,
      a',
      b',
      c',
      ap (λ ys. x ∷ ys) e,
      ap (λ n. drop n (x ∷ a ∷ b ∷ c ∷ rest)) more ∙ dropped,
    )
last_three [] h = absurd (omega (arith, h))
last_three (a ∷ []) h = absurd (omega (arith, h))
last_three (a ∷ b ∷ []) h = absurd (omega (arith, h))

-- Only the oldest may be missing.
forget_oldest-front : (xs : Seen) → (front : Seen) × (xs ≡ front ++ forget_oldest xs)
forget_oldest-front [] = ([], refl)
forget_oldest-front (x ∷ xs) = elim (Bool-cases (ltb 100 (length (x ∷ xs)))) [
  | inl full ↦ (x ∷ [], rw full refl)
  | inr room ↦ ([], rw room refl)
]

cons_inj : {a b : String × ErrorClass} {xs ys : Seen} → (a ∷ xs) ≡ b ∷ ys → (a ≡ b) × (xs ≡ ys)
cons_inj h = ground arith

cons-ne-nil : {a : String × ErrorClass} {xs : Seen} → (a ∷ xs) ≡ [] → ⊥
cons-ne-nil h = ground arith

snoc_inj :
    (xs ys : Seen) {a b : String × ErrorClass} → xs ++ a ∷ [] ≡ ys ++ b ∷ [] → (xs ≡ ys) × (a ≡ b)
snoc_inj [] [] h = (refl, (cons_inj h).0)
snoc_inj [] (y ∷ []) h = absurd (cons-ne-nil (sym (cons_inj h).1))
snoc_inj [] (y ∷ y' ∷ ys) h = absurd (cons-ne-nil (sym (cons_inj h).1))
snoc_inj (x ∷ []) [] h = absurd (cons-ne-nil (cons_inj h).1)
snoc_inj (x ∷ x' ∷ xs) [] h = absurd (cons-ne-nil (cons_inj h).1)
snoc_inj (x ∷ xs) (y ∷ ys) h =
    let (first, rest) = cons_inj h in
    let (same, last) = snoc_inj xs ys rest in (λ i. first i ∷ same i, last)

common-three :
    (a b c : String × ErrorClass)
    → is_some (common_class (a ∷ b ∷ c ∷ [])) ≡ true
    → (a.1 ≡ c.1) × (b.1 ≡ c.1)
common-three (_, a) (_, b) (_, c) h =
    ground (arith, error_class_eq.same_iff b a, error_class_eq.same_iff c a)

-- An error of which the classifier says that it is repeated is the third of its class.
IsThird-detect :
    (classifier : ProblemClassifier) (error : String)
    → is_some (detect_repeated_pattern (classify classifier error).1 3) ≡ true
    → IsThird classifier error
unfolding detect_repeated_pattern
IsThird-detect classifier error found = elim (Bool-cases (ltb (length recent) 3)) [
  | inl short ↦ absurd (false≢true (rw short at found))
  | inr enough ↦
      let (front, a, b, c, e, dropped) = last_three recent (ground (arith, enough)) in
      let common : is_some (common_class (a ∷ b ∷ c ∷ [])) ≡ true =
        ap (λ seen. is_some (common_class seen)) (sym dropped) ∙ rw enough at found in
      let (a_class, b_class) = common-three a b c common in
      let (oldest, before) =
        forget_oldest-front (classifier.recent ++ (error, class_of classifier error) ∷ []) in
      let whole : classifier.recent ++ (error, class_of classifier error) ∷ []
          ≡ ((oldest ++ front) ++ a ∷ b ∷ []) ++ c ∷ [] =
        before
        ∙ ap (λ seen. oldest ++ seen) (sym (classify-recent classifier error) ∙ e)
        ∙ sym (append_assoc oldest front (a ∷ b ∷ c ∷ []))
        ∙ sym (append_two (oldest ++ front) a b c) in
      let (seen, this) = snoc_inj classifier.recent ((oldest ++ front) ++ a ∷ b ∷ []) whole in
      let class : c.1 ≡ class_of classifier error = ap (λ entry. entry.1) (sym this) in
      (
        oldest ++ front,
        a.0,
        b.0,
        seen ∙ (λ i.
            (oldest ++ front) ++ (a.0, (a_class ∙ class) i) ∷ (b.0, (b_class ∙ class) i) ∷ []),
      )
]
  where
    recent : Seen
    recent = (classify classifier error).1.recent

is_retry_back : (d : RecoveryDecision) → is_retry d ≡ true → d ≡ retry_with_sisyphus
is_retry_back d h = ground arith

try_sisyphus_iff :
    {T : Type 0} (r : RecoveryState T) (class : ErrorClass) (repeated : Bool) (now : T)
    → (is_retry (try_sisyphus r class repeated now).0 ≡ true)
      ↔ ((r.sisyphus_attempts < r.max_sisyphus_attempts) × (repeated ≡ false))
try_sisyphus_iff r class repeated now = ground arith

-- The classes for which there is nothing to retry.
abbrev pub IsRetryable : ErrorClass → Type 0
IsRetryable class =
    (class ≢ ErrorClass.permission) × (class ≢ ErrorClass.network) × (class ≢ ErrorClass.resource)

decide_iff :
    {T : Type 0} ⦃chrono : Chrono T⦄ (r : RecoveryState T) (class : ErrorClass) (repeated : Bool)
    (now : T)
    → (is_retry (decide r (action_for class) class repeated now).0 ≡ true)
      ↔ (IsRetryable class × (r.sisyphus_attempts < r.max_sisyphus_attempts) × (repeated ≡ false))
decide_iff r class repeated now = elim class [
  | ErrorClass.permission ↦ ground arith
  | ErrorClass.network ↦ ground arith
  | ErrorClass.resource ↦ ground arith
  | _ ↦ ground arith
]

module _ {T : Type 0} ⦃chrono : Chrono T⦄ where
  -- The recovery loop decides to retry a task exactly when the error is of no class that asks for a
  -- human (permission) or for waiting (network, resource), fewer attempts of the task are recorded than
  -- it may have, and the error is not the third in a row of its class, of whichever tasks.
  pub evaluate-retry_iff :
      (self : SisyphusRecoveryLoop T) (task_id failure_reason : String) (now : T)
      → ((evaluate self task_id failure_reason now).0 ≡ retry_with_sisyphus) ↔ (
          IsRetryable (class_of self.classifier failure_reason)
          × ((recovery_of self task_id now).sisyphus_attempts
              < (recovery_of self task_id now).max_sisyphus_attempts)
          × (¬ IsThird self.classifier failure_reason))
  unfolding evaluate classify
  evaluate-retry_iff self task_id failure_reason now =
      let classified = classify self.classifier failure_reason in
      let repeated = is_some (detect_repeated_pattern classified.1 3) in
      let (from, to) =
        decide_iff (noted (recovery_of self task_id now) failure_reason (classified.0).class)
          (classified.0).class repeated now in
      (
        λ retried.
            let (good, room, fresh) = from (ap is_retry retried) in
            (
              good,
              room,
              λ third. false≢true (sym fresh ∙ detect-IsThird self.classifier failure_reason third),
            ),
        λ (good, room, not_third). is_retry_back _ (
            to (
              good,
              room,
              elim (Bool-cases repeated) [
                | inl again ↦
                    absurd (not_third (IsThird-detect self.classifier failure_reason again))
                | inr fresh ↦ fresh
              ],
            )),
      )

  pub evaluate-third :
      (self : SisyphusRecoveryLoop T) (task_id failure_reason : String) (now : T)
      (front : List (String × ErrorClass)) (first second : String)
      → self.classifier.recent
        ≡ front
          ++ (first, class_of self.classifier failure_reason)
            ∷ (second, class_of self.classifier failure_reason)
            ∷ []
      → (evaluate self task_id failure_reason now).0 ≢ retry_with_sisyphus
  evaluate-third self task_id failure_reason now front first second h retried =
      let (_, _, not_third) = (evaluate-retry_iff self task_id failure_reason now).0 retried in
      not_third (front, first, second, h)
