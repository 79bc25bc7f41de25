-- ===== src/Core/Words.antt =====
-- The words of crates/orch-core/src/types.rs for priorities and session statuses, and sessions.
use othala.Base.{
  ◌≡◌, refl, ℕ, Bool, true, false, ◌&&◌, Option, none, some, List, [], ◌∷◌, String, nat_beq,
  if◌then◌else◌,
}
use othala.Base.Text.{chars, trim, lowercase}
use othala.Core.Task.{TaskPriority, low, normal, high, critical, TaskId}

-- `value.trim().to_lowercase()`
abbrev pub token_of : String → List ℕ
token_of value = lowercase (trim (chars value))

abbrev pub text_beq : List ℕ → List ℕ → Bool
text_beq [] [] = true
text_beq (a ∷ as') (b ∷ bs) = nat_beq a b && text_beq as' bs
text_beq _ _ = false

abbrev pub is_word : List ℕ → String → Bool
is_word token word = text_beq token (chars word)

unfoldable pub priority_str : TaskPriority → String
priority_str low = "low"
priority_str normal = "normal"
priority_str high = "high"
priority_str critical = "critical"

abbrev pub priority_of : List ℕ → Option TaskPriority
priority_of token =
    if is_word token "low"
    then some low
    else if is_word token "normal"
    then some normal
    else if is_word token "high"
    then some high
    else if is_word token "critical"
    then some critical
    else none

-- `from_str`, without the text of the error.
unfoldable pub parse_priority : String → Option TaskPriority
unfolding chars trim
parse_priority value = priority_of (token_of value)

pub parse_priority-priority_str : (p : TaskPriority) → parse_priority (priority_str p) ≡ some p
unfolding parse_priority priority_str
parse_priority-priority_str low = refl
parse_priority-priority_str normal = refl
parse_priority-priority_str high = refl
parse_priority-priority_str critical = refl

pub data SessionStatus : Type 0 where
  active completed archived : SessionStatus

unfoldable pub status_str : SessionStatus → String
status_str active = "active"
status_str completed = "completed"
status_str archived = "archived"

abbrev pub status_of : List ℕ → Option SessionStatus
status_of token =
    if is_word token "active"
    then some active
    else if is_word token "completed"
    then some completed
    else if is_word token "archived"
    then some archived
    else none

unfoldable pub parse_status : String → Option SessionStatus
unfolding chars trim
parse_status value = status_of (token_of value)

pub parse_status-status_str : (s : SessionStatus) → parse_status (status_str s) ≡ some s
unfolding parse_status status_str
parse_status-status_str active = refl
parse_status-status_str completed = refl
parse_status-status_str archived = refl

pub record Session (T : Type 0) : Type 0 where
  pub id : String
  pub title : String
  pub created_at : T
  pub updated_at : T
  pub task_ids : List TaskId
  pub parent_session_id : Option String
  pub status : SessionStatus
