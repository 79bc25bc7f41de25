-- ===== src/SelfHeal/Transitions.antt =====
-- The transitions along a history of results.
use othala.Base.{ℕ, ◌+◌, Bool, true, false, some, List, [], ◌∷◌, String, count, ltb, ◌≡◌, arith}
use othala.SelfHeal.{QaResult, QaTransition, red_to_green, green_to_red, detect_transition}

abbrev pub opens_merge : QaTransition → Bool
opens_merge (red_to_green task_id previous_failures current_passed) = true
opens_merge _ = false

abbrev pub closes_merge : QaTransition → Bool
closes_merge (green_to_red task_id new_failures) = true
closes_merge _ = false

abbrev pub one_if : Bool → ℕ
one_if true = 1
one_if false = 0

module _ {T : Type 0} (task_id : String) where
  abbrev pub is_red : QaResult T → Bool
  is_red result = ltb 0 result.summary.failed

  -- The transitions between consecutive results, from `previous` on.
  abbrev pub transitions : QaResult T → List (QaResult T) → List QaTransition
  transitions previous [] = []
  transitions previous (current ∷ later) =
      detect_transition task_id (some previous) current ∷ transitions current later

  abbrev pub last_of : QaResult T → List (QaResult T) → QaResult T
  last_of previous [] = previous
  last_of previous (current ∷ later) = last_of current later

  -- Along every history of results the transitions from red to green and those from green to red
  -- balance: they are equally many, up to the colours of the first and of the last result.
  pub transitions-balance :
      (first : QaResult T) (later : List (QaResult T))
      → count opens_merge (transitions first later) + one_if (is_red (last_of first later))
        ≡ count closes_merge (transitions first later) + one_if (is_red first)
  unfolding detect_transition
  transitions-balance first [] = ground arith
  transitions-balance first (current ∷ later) = ground (arith, transitions-balance current later)
