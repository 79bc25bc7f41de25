-- ===== src/Core/State.antt =====
-- crates/orch-core/src/state.rs: the states of a task and their classes.
use mathlib.Core.Option.{some_inj}
use othala.Base.{
  ℕ, ◌≡◌, ◌↔◌, Bool, true, false, String, arith, nat_beq, PartialEq, refl, sym, ap, ◌∙◌, Option,
  some, List, [], ◌∷◌, find, ◌==◌, string_eq,
}

pub data TaskState : Type 0 where
  chatting ready submitting restacking awaiting_merge merged stopped : TaskState

-- The discriminant, by which the derived `PartialEq` compares.
abbrev pub state_index : TaskState → ℕ
state_index chatting = 0
state_index ready = 1
state_index submitting = 2
state_index restacking = 3
state_index awaiting_merge = 4
state_index merged = 5
state_index stopped = 6

abbrev pub state_beq : TaskState → TaskState → Bool
state_beq a b = nat_beq (state_index a) (state_index b)

pub state_beq_iff : (a b : TaskState) → (state_beq a b ≡ true) ↔ (a ≡ b)
state_beq_iff a b = ground arith

instance abbrev pub state_eq : PartialEq TaskState
state_eq = record { same = state_beq; same_iff = state_beq_iff }

-- `Display`, and the tag of the event log.
unfoldable pub display : TaskState → String
display chatting = "CHATTING"
display ready = "READY"
display submitting = "SUBMITTING"
display restacking = "RESTACKING"
display awaiting_merge = "AWAITING_MERGE"
display merged = "MERGED"
display stopped = "STOPPED"

unfoldable pub is_terminal : TaskState → Bool
is_terminal merged = true
is_terminal stopped = true
is_terminal _ = false

unfoldable pub is_active : TaskState → Bool
is_active chatting = true
is_active _ = false

unfoldable pub can_submit : TaskState → Bool
can_submit ready = true
can_submit _ = false

unfoldable pub can_restack : TaskState → Bool
can_restack ready = true
can_restack submitting = true
can_restack awaiting_merge = true
can_restack _ = false

pub data VerifyStatus : Type 0 where
  not_run running passed : VerifyStatus
  failed : (message : String) → VerifyStatus

unfoldable pub is_passed : VerifyStatus → Bool
is_passed passed = true
is_passed _ = false

unfoldable pub is_failed : VerifyStatus → Bool
is_failed (failed _) = true
is_failed _ = false

abbrev states : List TaskState
states = chatting ∷ ready ∷ submitting ∷ restacking ∷ awaiting_merge ∷ merged ∷ stopped ∷ []

state_of_tag : String → Option TaskState
unfolding display
state_of_tag tag = find (λ s. tag == display s) states

state_of_tag-display : (s : TaskState) → state_of_tag (display s) ≡ some s
unfolding state_of_tag display
state_of_tag-display chatting = refl
state_of_tag-display ready = refl
state_of_tag-display submitting = refl
state_of_tag-display restacking = refl
state_of_tag-display awaiting_merge = refl
state_of_tag-display merged = refl
state_of_tag-display stopped = refl

-- Each state has its own tag.
pub display-injective : (a b : TaskState) → display a ≡ display b → a ≡ b
display-injective a b h =
    some_inj.0 (sym (state_of_tag-display a) ∙ ap state_of_tag h ∙ state_of_tag-display b)
