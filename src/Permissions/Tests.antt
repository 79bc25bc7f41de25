-- ===== src/Permissions/Tests.antt =====
-- The theorems about permissions at small policies and patterns.
use othala.Base.{
  ℕ, ◌≡◌, refl, ◌↔◌, Bool, true, false, Option, last_or, map, filter, none, some, List, [], ◌∷◌,
  String, if◌then◌else◌, ◌==◌, string_eq, ◌++◌,
}
use othala.Base.Text.{chars}
use othala.Permissions.{
  allow, deny, ask, category_eq, file_write, custom, PermissionPolicy, effective_rules, check,
  plain_rule,
}
use othala.Permissions.Glob.{tokenize_glob, wildcard_match}
use othala.Permissions.Glob.Laws.{Matches}
use othala.Permissions.Glob.Search.{wildcard_match_iff}
use othala.Permissions.Check.{applies, check-last_or}
use othala.Permissions.Convert.{from_org_permissions, to_org_permissions}
use othala.Permissions.Convert.RoundTrip.{IsDistinct, from_org_permissions-to_org_permissions}

abbrev source_files : List ℕ
unfolding chars
source_files = chars "src/**/*.rs"

abbrev deep_file : List ℕ
unfolding chars
deep_file = chars "src/a/b/lib.rs"

abbrev other_file : List ℕ
unfolding chars
other_file = chars "src/a/b/lib.py"

deep_matches : wildcard_match source_files deep_file ≡ true
unfolding wildcard_match source_files deep_file other_file othala.Base.Assoc.get
    othala.Base.Assoc.insert
deep_matches = refl

other_fails : wildcard_match source_files other_file ≡ false
unfolding wildcard_match source_files deep_file other_file othala.Base.Assoc.get
    othala.Base.Assoc.insert
other_fails = refl

wildcard_match_iff_example :
    (wildcard_match source_files deep_file ≡ true) ↔ Matches (tokenize_glob source_files) deep_file
wildcard_match_iff_example = wildcard_match_iff source_files deep_file

-- Writing is asked for, but agents on "codex" may write below src.
abbrev policy : PermissionPolicy
policy = record {
  default_permission = deny;
  rules = plain_rule file_write ask ∷ plain_rule (custom "deploy") deny ∷ [];
  model_overrides =
      (
        "codex",
        record {
          category = file_write;
          permission = allow;
          path_pattern = some "src/**";
          reason = none;
        }
            ∷ [],
      )
      ∷ [];
}

codex_writes : check policy file_write (some "src/lib.rs") (some "codex") ≡ allow
unfolding check chars othala.Base.Text.trim othala.Base.Assoc.get othala.Base.Assoc.insert
    wildcard_match
codex_writes = refl

check-last_or_example :
    check policy file_write (some "src/lib.rs") (some "codex")
    ≡ last_or deny (
        map
          (λ rule. rule.permission)
          (filter (applies file_write (some "src/lib.rs")) (effective_rules policy (some "codex"))))
check-last_or_example = check-last_or file_write (some "src/lib.rs") policy (some "codex")

distinct : IsDistinct (custom "deploy")
unfolding chars othala.Base.Text.trim
distinct = (refl, (refl, (refl, (refl, (refl, (refl, (refl, (refl, (refl, tt)))))))))

from_org_permissions-to_org_permissions_example :
    from_org_permissions (to_org_permissions policy) ≡ policy
from_org_permissions-to_org_permissions_example =
    from_org_permissions-to_org_permissions policy (tt, (distinct, tt)) ((tt, tt), tt) (tt, tt)
