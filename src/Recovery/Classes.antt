-- ===== src/Recovery/Classes.antt =====
-- The classes of errors in crates/orchd/src/problem_classifier.rs, and the roles of agents in
-- crates/orchd/src/agent_dispatch.rs.
use othala.Base.{
  ℕ, Bool, true, false, Option, none, some, String, PartialEq, nat_beq, ◌≡◌, ◌↔◌, arith,
}
use othala.Core.Task.{ModelKind, claude, codex, gemini}

pub data AgentRole : Type 0 where
  hephaestus sisyphus librarian explorer oracle multimodal : AgentRole

abbrev pub model : AgentRole → ModelKind
model hephaestus = codex
model sisyphus = claude
model librarian = claude
model explorer = claude
model oracle = codex
model multimodal = gemini

pub data ErrorClass : Type 0 where
  compile config environment permission logic network resource git agent unknown : ErrorClass

abbrev class_index : ErrorClass → ℕ
class_index compile = 0
class_index config = 1
class_index environment = 2
class_index permission = 3
class_index logic = 4
class_index network = 5
class_index resource = 6
class_index git = 7
class_index agent = 8
class_index unknown = 9

abbrev pub error_class_beq : ErrorClass → ErrorClass → Bool
error_class_beq a b = nat_beq (class_index a) (class_index b)

pub error_class_beq_iff : (a b : ErrorClass) → (error_class_beq a b ≡ true) ↔ (a ≡ b)
error_class_beq_iff a b = ground arith

instance abbrev pub error_class_eq : PartialEq ErrorClass
error_class_eq = record { same = error_class_beq; same_iff = error_class_beq_iff }

abbrev pub requires_human : ErrorClass → Bool
requires_human permission = true
requires_human _ = false

abbrev pub is_transient : ErrorClass → Bool
is_transient network = true
is_transient resource = true
is_transient _ = false

abbrev pub is_agent_fixable : ErrorClass → Bool
is_agent_fixable compile = true
is_agent_fixable config = true
is_agent_fixable environment = true
is_agent_fixable logic = true
is_agent_fixable git = true
is_agent_fixable agent = true
is_agent_fixable _ = false

abbrev pub recommended_agent : ErrorClass → Option AgentRole
recommended_agent compile = some hephaestus
recommended_agent config = some explorer
recommended_agent environment = some explorer
recommended_agent logic = some sisyphus
recommended_agent git = some explorer
recommended_agent agent = some sisyphus
recommended_agent permission = none
recommended_agent network = none
recommended_agent resource = none
recommended_agent unknown = some sisyphus

abbrev pub retry_delay_secs : ErrorClass → Option ℕ
retry_delay_secs network = some 30
retry_delay_secs resource = some 120
retry_delay_secs _ = none

abbrev pub class_name : ErrorClass → String
class_name compile = "compile"
class_name config = "config"
class_name environment = "environment"
class_name permission = "permission"
class_name logic = "logic"
class_name network = "network"
class_name resource = "resource"
class_name git = "git"
class_name agent = "agent"
class_name unknown = "unknown"

pub data RecoveryAction : Type 0 where
  retry retry_with_agent wait_and_retry escalate_human stop : RecoveryAction
