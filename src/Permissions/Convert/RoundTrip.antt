-- ===== src/Permissions/Convert/RoundTrip.antt =====
-- A policy survives being written to the configuration and read back.
use othala.Base.{
  append-snoc, append-nil, All-map_two, All-weaken, ℕ, Bool, true, false, Option, none, some, List,
  [], ◌∷◌, ◌++◌, map, String, ◌≡◌, refl, sym, ap, ◌∙◌, arith, All, All-map, string_eq,
  if◌then◌else◌, ◌==◌, Bool-cases, inl, inr,
}
use othala.Base.Assoc.{Assoc, get, insert, get-insert, insert-new, KeysOnce}
use othala.Permissions.{
  ToolPermission, allow, deny, ask, permission_str, ToolCategory, file_read, file_write, shell_exec,
  git_ops, network, process, package_install, env_access, graphite_ops, custom, category_str,
  all_builtin, PermissionRule, PermissionPolicy, map_values,
}
use othala.Permissions.Convert.{
  normalize_token, is_word, category_of, parse_permission, parse_category, rule_of_config,
  config_of_rule, convert_overrides, from_org_permissions, to_org_permissions,
}

parse_permission-str : (p : ToolPermission) → parse_permission (permission_str p) ≡ p
unfolding parse_permission othala.Base.Text.chars othala.Base.Text.trim
parse_permission-str allow = refl
parse_permission-str deny = refl
parse_permission-str ask = refl

-- A custom category is named by none of the words for the built-in ones, in whatever spelling.
abbrev pub IsDistinct : ToolCategory → Type 0
IsDistinct (custom name) =
    All (λ other. is_word (normalize_token name) (category_str other) ≡ false) all_builtin
IsDistinct _ = Unit

category_of-custom :
    (token : List ℕ) (name : String)
    → All (λ other. is_word token (category_str other) ≡ false) all_builtin
    → category_of token name ≡ custom name
category_of-custom token name h =
    let g = h.1 in
    let k = g.1.1 in
    let l = k.1.1 in rw (h.0, g.0, g.1.0, k.0, k.1.0, l.0, l.1.0, l.1.1.0, l.1.1.1.0) refl

parse_category-str : (c : ToolCategory) → IsDistinct c → parse_category (category_str c) ≡ c
unfolding parse_category othala.Base.Text.chars othala.Base.Text.trim
parse_category-str file_read h = refl
parse_category-str file_write h = refl
parse_category-str shell_exec h = refl
parse_category-str git_ops h = refl
parse_category-str network h = refl
parse_category-str process h = refl
parse_category-str package_install h = refl
parse_category-str env_access h = refl
parse_category-str graphite_ops h = refl
parse_category-str (custom name) h = category_of-custom (normalize_token name) name h

abbrev pub IsDistinctRule : PermissionRule → Type 0
IsDistinctRule rule = IsDistinct rule.category

rule_of_config-config_of_rule :
    (rule : PermissionRule) → IsDistinctRule rule → rule_of_config (config_of_rule rule) ≡ rule
rule_of_config-config_of_rule rule h =
    rw (parse_category-str rule.category h, parse_permission-str rule.permission) refl

rules_back :
    (rules : List PermissionRule)
    → All IsDistinctRule rules
    → map rule_of_config (map config_of_rule rules) ≡ rules
rules_back [] h = refl
rules_back (rule ∷ rules) h = rw (rule_of_config-config_of_rule rule h.0, rules_back rules h.1) refl

module _ {ℓ κ} {V : Type ℓ} {W : Type κ} (f : V → W) where
  -- The keys that are still to be inserted are new, so each goes to the end.
  convert_overrides-append :
      (entries : Assoc String (List V)) (done : Assoc String (List W))
      → KeysOnce entries
      → All (λ entry. get done entry.0 ≡ none) entries
      → convert_overrides f entries done ≡ done ++ map_values (map f) entries
  unfolding convert_overrides
  convert_overrides-append [] done once new = sym (append-nil done)
  convert_overrides-append ((model, rules) ∷ rest) done once new =
      let still : All (λ entry. get (insert done model (map f rules)) entry.0 ≡ none) rest =
        All-map_two
          (λ entry differs absent. get-insert done model entry.0 (map f rules) ∙ rw differs absent)
          rest once.0 new.1 in
      convert_overrides-append rest (insert done model (map f rules)) once.1 still
      ∙ rw (insert-new done model (map f rules) new.0)
          (append-snoc done (model, map f rules) (map_values (map f) rest))

convert_overrides_lem {ℓ κ} :
    {V : Type ℓ} {W : Type κ} (f : V → W) (entries : Assoc String (List V))
    → KeysOnce entries
    → convert_overrides f entries [] ≡ map_values (map f) entries
convert_overrides_lem f entries once =
    convert_overrides-append f entries [] once (All-weaken _ entries (λ a m. unfold get in refl))

keys_differ {ℓ κ} :
    {V : Type ℓ} {W : Type κ} (f : V → W) (key : String) (later : Assoc String V)
    → All (λ entry. (key == entry.0) ≡ false) later
    → All (λ entry. (key == entry.0) ≡ false) (map_values f later)
keys_differ f key [] h = tt
keys_differ f key (entry ∷ later) h = (h.0, keys_differ f key later h.1)

map_values-KeysOnce {ℓ κ} :
    {V : Type ℓ} {W : Type κ} (f : V → W) (entries : Assoc String V)
    → KeysOnce entries
    → KeysOnce (map_values f entries)
map_values-KeysOnce f [] once = tt
map_values-KeysOnce f ((key, value) ∷ rest) once =
    (keys_differ f key rest once.0, map_values-KeysOnce f rest once.1)

overrides_back :
    (entries : Assoc String (List PermissionRule))
    → All (λ entry. All IsDistinctRule entry.1) entries
    → map_values (map rule_of_config) (map_values (map config_of_rule) entries) ≡ entries
overrides_back [] h = refl
overrides_back ((model, rules) ∷ rest) h = rw (rules_back rules h.0, overrides_back rest h.1) refl

-- A policy is the same after it is written to the configuration and read back, if each of its
-- custom categories is distinct from the built-in ones, whatever the case and the dashes of their
-- names, and its map of overrides holds each model once.
pub from_org_permissions-to_org_permissions :
    (self : PermissionPolicy)
    → All IsDistinctRule self.rules
    → All (λ entry. All IsDistinctRule entry.1) self.model_overrides
    → KeysOnce self.model_overrides
    → from_org_permissions (to_org_permissions self) ≡ self
unfolding from_org_permissions to_org_permissions
from_org_permissions-to_org_permissions self rules overrides once =
    let written = convert_overrides_lem config_of_rule self.model_overrides once in
    let read =
      convert_overrides_lem rule_of_config (map_values (map config_of_rule) self.model_overrides)
        (map_values-KeysOnce (map config_of_rule) self.model_overrides once) in
    rw
      (
        written,
        read,
        overrides_back self.model_overrides overrides,
        rules_back self.rules rules,
        parse_permission-str self.default_permission,
      )
      refl
