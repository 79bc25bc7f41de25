-- ===== src/Permissions.antt =====
-- crates/orchd/src/permissions.rs: which tools an agent may use, decided by rules. The texts of the
-- configuration are PermissionRuleConfig and PermissionsConfig of crates/orch-core/src/config.rs.
pub mod Glob
pub mod Check
pub mod Convert
mod Tests
use othala.Base.{
  at, ℕ, Bool, true, false, ◌&&◌, not, Option, none, some, List, [], ◌∷◌, ◌++◌, map, String,
  PartialEq, ◌==◌, string_eq, nat_beq, nat_beq_iff, ◌↔◌, ◌≡◌, refl, sym, ap, ◌∙◌, arith, filter,
  if◌then◌else◌, index_eq, &&-true, ==_refl, unwrap_or,
}
use othala.Base.Text.{chars, trim, lowercase, replace}
use othala.Base.Assoc.{Assoc, get, insert}
use othala.Permissions.Glob.{wildcard_match}

pub data ToolPermission : Type 0 where
  allow deny ask : ToolPermission

-- `as_str`
abbrev pub permission_str : ToolPermission → String
permission_str allow = "allow"
permission_str deny = "deny"
permission_str ask = "ask"

pub data ToolCategory : Type 0 where
  file_read file_write shell_exec git_ops network process package_install env_access graphite_ops :
      ToolCategory
  custom : String → ToolCategory

abbrev pub category_str : ToolCategory → String
category_str file_read = "file_read"
category_str file_write = "file_write"
category_str shell_exec = "shell_exec"
category_str git_ops = "git_ops"
category_str network = "network"
category_str process = "process"
category_str package_install = "package_install"
category_str env_access = "env_access"
category_str graphite_ops = "graphite_ops"
category_str (custom name) = name

abbrev pub all_builtin : List ToolCategory
all_builtin =
    file_read ∷ file_write ∷ shell_exec ∷ git_ops ∷ network ∷ process ∷ package_install ∷ env_access
    ∷ graphite_ops ∷ []

-- The derived `PartialEq`: the discriminants agree, and so do the names of two custom ones.
abbrev category_index : ToolCategory → ℕ
category_index file_read = 0
category_index file_write = 1
category_index shell_exec = 2
category_index git_ops = 3
category_index network = 4
category_index process = 5
category_index package_install = 6
category_index env_access = 7
category_index graphite_ops = 8
category_index (custom name) = 9

abbrev pub category_beq : ToolCategory → ToolCategory → Bool
category_beq a b = nat_beq (category_index a) (category_index b) && category_str a == category_str b

abbrev category_at : ℕ → String → ToolCategory
category_at i name = unwrap_or (at all_builtin i) (custom name)

category_at-index : (a : ToolCategory) → category_at (category_index a) (category_str a) ≡ a
category_at-index file_read = refl
category_at-index file_write = refl
category_at-index shell_exec = refl
category_at-index git_ops = refl
category_at-index network = refl
category_at-index process = refl
category_at-index package_install = refl
category_at-index env_access = refl
category_at-index graphite_ops = refl
category_at-index (custom name) = refl

pub category_beq_iff : (a b : ToolCategory) → (category_beq a b ≡ true) ↔ (a ≡ b)
category_beq_iff a b = (
  λ h.
      let (same, names) = &&-true _ (category_str a == category_str b) h in
      let index : category_index a ≡ category_index b = (nat_beq_iff _ _).0 same in
      let name : category_str a ≡ category_str b = (string_eq.same_iff _ _).0 names in
      sym (category_at-index a) ∙ rw (index, name) refl ∙ category_at-index b,
  λ e. rw e (ground (arith, string_eq.same_iff (category_str b) (category_str b))),
)

instance abbrev pub category_eq : PartialEq ToolCategory
category_eq = record { same = category_beq; same_iff = category_beq_iff }

pub record PermissionRule : Type 0 where
  pub category : ToolCategory
  pub permission : ToolPermission
  pub path_pattern : Option String
  pub reason : Option String

pub record PermissionPolicy : Type 0 where
  pub default_permission : ToolPermission
  pub rules : List PermissionRule
  pub model_overrides : Assoc String (List PermissionRule)

abbrev pub new : PermissionPolicy
new = record { default_permission = ask; rules = []; model_overrides = [] }

-- '\' and '/'
abbrev pub normalize_path_component : String → List ℕ
normalize_path_component value = replace 92 47 (trim (chars value))

abbrev pub matches_path : String → String → Bool
matches_path pattern path =
    wildcard_match (normalize_path_component pattern) (normalize_path_component path)

abbrev pub path_matches : Option String → Option String → Bool
path_matches none path = true
path_matches (some pattern) none = false
path_matches (some pattern) (some candidate) = matches_path pattern candidate

abbrev pub overrides_of : PermissionPolicy → Option String → List PermissionRule
overrides_of self none = []
overrides_of self (some model_name) = unwrap_or (get self.model_overrides model_name) []

unfoldable pub effective_rules : PermissionPolicy → Option String → List PermissionRule
effective_rules self model = self.rules ++ overrides_of self model

-- One round of the loop of `check`, that is one rule.
abbrev pub apply_rule :
    ToolCategory → Option String → PermissionRule → ToolPermission → ToolPermission
apply_rule category path rule effective =
    if not (rule.category == category)
    then effective
    else if path_matches rule.path_pattern path
    then rule.permission
    else effective

unfoldable pub apply_rules :
    ToolCategory → Option String → List PermissionRule → ToolPermission → ToolPermission
apply_rules category path [] effective = effective
apply_rules category path (rule ∷ rules) effective =
    apply_rules category path rules (apply_rule category path rule effective)

unfoldable pub check :
    PermissionPolicy → ToolCategory → Option String → Option String → ToolPermission
unfolding apply_rules effective_rules
check self category path model =
    apply_rules category path (effective_rules self model) self.default_permission

unfoldable pub add_rule : PermissionPolicy → PermissionRule → PermissionPolicy
add_rule self rule = record self { rules = self.rules ++ rule ∷ [] }

-- `retain` of the rules for the other categories.
abbrev pub without : ToolCategory → List PermissionRule → List PermissionRule
without category rules = filter (λ rule. not (rule.category == category)) rules

-- `values_mut()`
abbrev pub map_values {ℓ κ μ} :
    {K : Type ℓ} {V : Type κ} {W : Type μ} → (V → W) → Assoc K V → Assoc K W
map_values f [] = []
map_values f ((key, value) ∷ rest) = (key, f value) ∷ map_values f rest

unfoldable pub remove_rules_for : PermissionPolicy → ToolCategory → PermissionPolicy
remove_rules_for self category = record self {
  rules = without category self.rules;
  model_overrides = map_values (without category) self.model_overrides;
}

unfoldable pub permissive : PermissionPolicy
permissive = record { default_permission = allow; rules = []; model_overrides = [] }

unfoldable pub restrictive : PermissionPolicy
restrictive = record {
  default_permission = deny;
  rules =
      record {
        category = file_read;
        permission = allow;
        path_pattern = none;
        reason = some "read-only mode";
      }
      ∷ [];
  model_overrides = [];
}

-- A rule without a pattern and without a reason.
abbrev pub plain_rule : ToolCategory → ToolPermission → PermissionRule
plain_rule category permission = record {
  category = category;
  permission = permission;
  path_pattern = none;
  reason = none;
}

unfoldable pub default_policy : PermissionPolicy
default_policy = record new {
  rules =
      plain_rule file_read allow
      ∷ plain_rule file_write ask
      ∷ plain_rule shell_exec ask
      ∷ plain_rule git_ops ask
      ∷ plain_rule network ask
      ∷ plain_rule process deny
      ∷ plain_rule package_install ask
      ∷ plain_rule env_access allow
      ∷ plain_rule graphite_ops ask
      ∷ [];
}
