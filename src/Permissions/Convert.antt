-- ===== src/Permissions/Convert.antt =====
-- The conversions of crates/orchd/src/permissions.rs between a policy and its configuration.
pub mod RoundTrip
use othala.Base.{
  ℕ, Bool, true, false, ◌&&◌, Option, none, some, List, [], ◌∷◌, map, String, nat_beq,
  if◌then◌else◌, string_eq,
}
use othala.Base.Text.{chars, trim, lowercase, replace}
use othala.Base.Assoc.{Assoc, insert}
use othala.Permissions.{
  ToolPermission, allow, deny, ask, permission_str, ToolCategory, file_read, file_write, shell_exec,
  git_ops, network, process, package_install, env_access, graphite_ops, custom, category_str,
  PermissionRule, PermissionPolicy,
}

pub record PermissionRuleConfig : Type 0 where
  pub category : String
  pub permission : String
  pub path_pattern : Option String
  pub reason : Option String

pub record PermissionsConfig : Type 0 where
  pub default_permission : String
  pub rules : List PermissionRuleConfig
  pub model_overrides : Assoc String (List PermissionRuleConfig)

-- '-' and '_'
abbrev pub normalize_token : String → List ℕ
normalize_token value = replace 45 95 (lowercase (trim (chars value)))

abbrev pub text_beq : List ℕ → List ℕ → Bool
text_beq [] [] = true
text_beq (a ∷ as') (b ∷ bs) = nat_beq a b && text_beq as' bs
text_beq _ _ = false

-- The token is this word.
abbrev pub is_word : List ℕ → String → Bool
is_word token word = text_beq token (chars word)

abbrev pub permission_of : List ℕ → ToolPermission
permission_of token =
    if is_word token "allow" then allow else if is_word token "deny" then deny else ask

-- The two `from_str`, which never fail.
unfoldable pub parse_permission : String → ToolPermission
unfolding chars trim
parse_permission value = permission_of (normalize_token value)

abbrev pub category_of : List ℕ → String → ToolCategory
category_of token value =
    if is_word token "file_read"
    then file_read
    else if is_word token "file_write"
    then file_write
    else if is_word token "shell_exec"
    then shell_exec
    else if is_word token "git_ops"
    then git_ops
    else if is_word token "network"
    then network
    else if is_word token "process"
    then process
    else if is_word token "package_install"
    then package_install
    else if is_word token "env_access"
    then env_access
    else if is_word token "graphite_ops"
    then graphite_ops
    else custom value

unfoldable pub parse_category : String → ToolCategory
unfolding chars trim
parse_category value = category_of (normalize_token value) value

-- The two `from` between a rule and its configuration.
abbrev pub rule_of_config : PermissionRuleConfig → PermissionRule
rule_of_config value = record {
  category = parse_category value.category;
  permission = parse_permission value.permission;
  path_pattern = value.path_pattern;
  reason = value.reason;
}

abbrev pub config_of_rule : PermissionRule → PermissionRuleConfig
config_of_rule value = record {
  category = category_str value.category;
  permission = permission_str value.permission;
  path_pattern = value.path_pattern;
  reason = value.reason;
}

-- The loop over `model_overrides`, which inserts into the map `done`.
unfoldable pub convert_overrides {ℓ κ} :
    {V : Type ℓ} {W : Type κ}
    → (V → W)
    → Assoc String (List V)
    → Assoc String (List W)
    → Assoc String (List W)
convert_overrides f [] done = done
convert_overrides f ((model, rules) ∷ rest) done =
    convert_overrides f rest (insert done model (map f rules))

unfoldable pub from_org_permissions : PermissionsConfig → PermissionPolicy
unfolding parse_permission parse_category convert_overrides
from_org_permissions config = record {
  default_permission = parse_permission config.default_permission;
  rules = map rule_of_config config.rules;
  model_overrides = convert_overrides rule_of_config config.model_overrides [];
}

unfoldable pub to_org_permissions : PermissionPolicy → PermissionsConfig
unfolding convert_overrides
to_org_permissions self = record {
  default_permission = permission_str self.default_permission;
  rules = map config_of_rule self.rules;
  model_overrides = convert_overrides config_of_rule self.model_overrides [];
}
