-- ===== src/Recovery/Classifier.antt =====
-- ProblemClassifier of crates/orchd/src/problem_classifier.rs: what an error is taken for. The
-- confidence, a floating-point number, and the prose for the agent are left out.
use othala.Base.{
  ℕ, zero, suc, ◌-◌, max, Bool, true, false, ◌||◌, ◌&&◌, Option, none, some, List, [], ◌∷◌, ◌++◌,
  filter, all, String, length, ltb, nat_beq, if◌then◌else◌, unwrap_or, ◌==◌,
}
use othala.Base.Text.{chars}
use othala.Base.Assoc.{Assoc, get, insert}
use othala.SelfHeal.{to_ascii_lowercase, contains_word}
use othala.Recovery.Classes.{
  ErrorClass, AgentRole, RecoveryAction, unknown, requires_human, is_transient, is_agent_fixable,
  recommended_agent, retry, retry_with_agent, wait_and_retry, escalate_human, error_class_eq,
}
use othala.Recovery.Patterns.{ErrorPattern, build_patterns}

pub record ClassificationResult : Type 0 where
  pub class : ErrorClass
  pub matched_keywords : List String
  pub action : RecoveryAction
  pub recommended : Option AgentRole

pub record ProblemClassifier : Type 0 where
  pub patterns : List ErrorPattern
  pub recent : List (String × ErrorClass)

abbrev pub new_classifier : ProblemClassifier
new_classifier = record { patterns = build_patterns; recent = [] }

abbrev pub Matches : Type 0
Matches = Assoc ErrorClass (ℕ × List String)

-- The keywords of a pattern that the text has, both in lower case.
abbrev pub matched : List ℕ → ErrorPattern → List String
matched lower pattern =
    filter (λ kw. contains_word lower (to_ascii_lowercase (chars kw))) pattern.keywords

abbrev pub add_match : Matches → ErrorPattern → List String → Matches
add_match matches pattern [] = matches
add_match matches pattern (kw ∷ kws) =
    let (priority, words) = unwrap_or (get matches pattern.class) (0, []) in
    insert matches pattern.class (max priority pattern.priority, words ++ kw ∷ kws)

-- The loop over the patterns.
unfoldable pub match_all : List ℕ → List ErrorPattern → Matches → Matches
unfolding chars
match_all lower [] matches = matches
match_all lower (pattern ∷ rest) matches =
    match_all lower rest (add_match matches pattern (matched lower pattern))

abbrev pub Best : Type 0
Best = ErrorClass × (ℕ × List String)

-- `(priority, number of keywords)` in the order of pairs.
abbrev pub at_least : Best → Best → Bool
at_least (_, (p, kws)) (_, (q, others)) = ltb q p || (nat_beq p q && not_below kws others)
  where
    not_below : List String → List String → Bool
    not_below kws others = if ltb (length kws) (length others) then false else true

-- `max_by_key`, which takes the last of the greatest.
unfoldable pub best_of : Best → Matches → Best
best_of best [] = best
best_of best (entry ∷ rest) = best_of (if at_least entry best then entry else best) rest

unfoldable pub best_match : Matches → Best
unfolding best_of
best_match [] = (unknown, (0, []))
best_match (entry ∷ rest) = best_of entry rest

abbrev pub action_for : ErrorClass → RecoveryAction
action_for class =
    if requires_human class
    then escalate_human
    else (if is_transient class
        then wait_and_retry
        else (if is_agent_fixable class then retry_with_agent else retry))

-- At most 100 classifications are kept.
abbrev pub forget_oldest : List (String × ErrorClass) → List (String × ErrorClass)
forget_oldest recent = if ltb 100 (length recent) then rest_of recent else recent
  where
    rest_of : List (String × ErrorClass) → List (String × ErrorClass)
    rest_of [] = []
    rest_of (oldest ∷ rest) = rest

unfoldable pub classify : ProblemClassifier → String → ClassificationResult × ProblemClassifier
unfolding match_all best_match chars
classify self error =
    let (class, (priority, keywords)) =
      best_match (match_all (to_ascii_lowercase (chars error)) self.patterns []) in
    (
      record {
        class = class;
        matched_keywords = keywords;
        action = action_for class;
        recommended = recommended_agent class;
      },
      record self { recent = forget_oldest (self.recent ++ (error, class) ∷ []) },
    )

-- `&recent[n..]`
abbrev pub drop {ℓ} : {A : Type ℓ} → ℕ → List A → List A
drop zero xs = xs
drop (suc n) [] = []
drop (suc n) (x ∷ xs) = drop n xs

abbrev pub common_class : List (String × ErrorClass) → Option ErrorClass
common_class [] = none
common_class ((error, class) ∷ rest) =
    if all (λ entry. entry.1 == class) rest then some class else none

unfoldable pub detect_repeated_pattern : ProblemClassifier → ℕ → Option ErrorClass
detect_repeated_pattern self window =
    if ltb (length self.recent) window
    then none
    else common_class (drop (length self.recent - window) self.recent)
