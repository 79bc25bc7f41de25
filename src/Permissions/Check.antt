-- ===== src/Permissions/Check.antt =====
-- What `check` decides by, and what is left of a category's rules once they are removed.
use othala.Base.{
  Bool, false, ◌&&◌, Option, none, some, List, [], ◌∷◌, ◌++◌, String, ◌==◌, string_eq, ◌≡◌, refl,
  ◌∙◌, ap, sym, arith, if◌then◌else◌, Bool-cases, map, filter, last_or, unwrap_or, inl, inr,
}
use othala.Base.Assoc.{Assoc, get}
use othala.Permissions.{
  ToolPermission, ToolCategory, category_eq, PermissionRule, PermissionPolicy, path_matches,
  overrides_of, effective_rules, apply_rule, apply_rules, check, without, map_values,
  remove_rules_for,
}

module _ (category : ToolCategory) (path : Option String) where
  -- The rule speaks of the category and of the path.
  abbrev pub applies : PermissionRule → Bool
  applies rule = rule.category == category && path_matches rule.path_pattern path

  apply_rules-last_or :
      (rules : List PermissionRule) (effective : ToolPermission)
      → apply_rules category path rules effective
        ≡ last_or effective (map (λ rule. rule.permission) (filter applies rules))
  unfolding apply_rules
  apply_rules-last_or [] effective = refl
  apply_rules-last_or (rule ∷ rules) effective =
      let rest = apply_rules-last_or rules (apply_rule category path rule effective) in
      elim (Bool-cases (rule.category == category)) [
        | inr other ↦ rw other (rw other at rest)
        | inl same ↦ elim (Bool-cases (path_matches rule.path_pattern path)) [
          | inl hit ↦ rw (same, hit) (rw (same, hit) at rest)
          | inr miss ↦ rw (same, miss) (rw (same, miss) at rest)
        ]
      ]

  -- The last of the effective rules that speak of the category and the path decides, whatever
  -- stands in front of it; if none does, the policy's default decides.
  pub check-last_or :
      (self : PermissionPolicy) (model : Option String)
      → check self category path model
        ≡ last_or self.default_permission
            (map (λ rule. rule.permission) (filter applies (effective_rules self model)))
  unfolding check
  check-last_or self model =
      apply_rules-last_or (effective_rules self model) self.default_permission

  apply_rule-other :
      (rule : PermissionRule) (effective : ToolPermission)
      → (rule.category == category) ≡ false
      → apply_rule category path rule effective ≡ effective
  apply_rule-other rule effective h = rw h refl

  apply_rules-without :
      (removed : ToolCategory) (rules : List PermissionRule) (effective : ToolPermission)
      → apply_rules category path (without removed rules) effective
        ≡ (if removed == category then effective else apply_rules category path rules effective)
  unfolding apply_rules
  apply_rules-without removed [] effective = ground arith
  apply_rules-without removed (rule ∷ rules) effective =
      let after = apply_rule category path rule effective in
      let skipped = apply_rules-without removed rules effective in
      let taken = apply_rules-without removed rules after in
      let other = apply_rule-other rule effective in
      elim (Bool-cases (rule.category == removed)) [
        | inl hit ↦
            let e : rule.category ≡ removed = (category_eq.same_iff _ _).0 hit in
            elim (Bool-cases (removed == category)) [
              | inl all ↦ rw (hit, all) (rw all at skipped)
              | inr some_left ↦
                  rw (hit, some_left)
                    (rw some_left at skipped
                      ∙ ap (λ p. apply_rules category path rules p)
                          (sym (other (ap (λ c. c == category) e ∙ some_left))))
            ]
        | inr miss ↦ elim (Bool-cases (removed == category)) [
          | inl all ↦
              let e : removed ≡ category = (category_eq.same_iff _ _).0 all in
              rw (miss, all) (rw all at taken ∙ other (rw e at miss))
          | inr some_left ↦ rw (miss, some_left) (rw some_left at taken)
        ]
      ]

without-append :
    (removed : ToolCategory) (xs ys : List PermissionRule)
    → without removed (xs ++ ys) ≡ without removed xs ++ without removed ys
without-append removed [] ys = refl
without-append removed (x ∷ xs) ys = elim (Bool-cases (x.category == removed)) [
  | inl hit ↦ rw hit (without-append removed xs ys)
  | inr miss ↦ rw miss (ap (λ rest. x ∷ rest) (without-append removed xs ys))
]

overrides-map_values :
    (removed : ToolCategory) (overrides : Assoc String (List PermissionRule)) (name : String)
    → unwrap_or (get (map_values (without removed) overrides) name) []
      ≡ without removed (unwrap_or (get overrides name) [])
unfolding get
overrides-map_values removed [] name = refl
overrides-map_values removed ((found, rules) ∷ rest) name = elim (Bool-cases (name == found)) [
  | inl hit ↦ rw hit refl
  | inr miss ↦ rw miss (overrides-map_values removed rest name)
]

effective_rules-remove_rules_for :
    (self : PermissionPolicy) (removed : ToolCategory) (model : Option String)
    → effective_rules (remove_rules_for self removed) model
      ≡ without removed (effective_rules self model)
unfolding effective_rules remove_rules_for
effective_rules-remove_rules_for self removed none = sym (without-append removed self.rules [])
effective_rules-remove_rules_for self removed (some name) =
    ap (λ rules. without removed self.rules ++ rules)
      (overrides-map_values removed self.model_overrides name)
    ∙ sym (without-append removed self.rules (overrides_of self (some name)))

-- After the rules for a category are removed, every check of that category answers the default, for
-- each path and model; the check of any other category answers as before.
pub check-remove_rules_for :
    (self : PermissionPolicy) (removed category : ToolCategory) (path model : Option String)
    → check (remove_rules_for self removed) category path model
      ≡ (if removed == category then self.default_permission else check self category path model)
unfolding check
check-remove_rules_for self removed category path model =
    let same : (remove_rules_for self removed).default_permission ≡ self.default_permission =
      unfold remove_rules_for in refl in
    rw (effective_rules-remove_rules_for self removed model, same)
      (apply_rules-without category path removed (effective_rules self model)
        self.default_permission)
