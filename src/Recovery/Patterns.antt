-- ===== src/Recovery/Patterns.antt =====
-- build_patterns of crates/orchd/src/problem_classifier.rs: the words by which errors are recognised.
use othala.Base.{ℕ, List, [], ◌∷◌, String}
use othala.Recovery.Classes.{
  ErrorClass, compile, config, environment, permission, logic, network, resource, git, agent,
}

pub record ErrorPattern : Type 0 where
  pub keywords : List String
  pub class : ErrorClass
  pub priority : ℕ

abbrev pattern : List String → ErrorClass → ℕ → ErrorPattern
pattern keywords class priority = record { keywords = keywords; class = class; priority = priority }

abbrev pub build_patterns : List ErrorPattern
build_patterns =
    pattern ("error[E" ∷ "cannot find type" ∷ "expected" ∷ "mismatched types" ∷ []) compile 10
    ∷ pattern ("unresolved import" ∷ "use of undeclared" ∷ "not found in scope" ∷ []) compile 10
    ∷ pattern ("lifetime" ∷ "borrowed" ∷ "'static" ∷ "does not live long enough" ∷ []) compile 10
    ∷ pattern ("syntax error" ∷ "unexpected token" ∷ "parse error" ∷ []) compile 10
    ∷ pattern ("cargo build" ∷ "cargo check" ∷ "rustc" ∷ []) compile 5
    ∷ pattern ("TS2" ∷ "Type '" ∷ "is not assignable" ∷ "Property '" ∷ []) compile 10
    ∷ pattern ("tsc" ∷ "typescript" ∷ "Cannot find module" ∷ []) compile 8
    ∷ pattern ("config" ∷ "configuration" ∷ ".toml" ∷ ".json" ∷ ".yaml" ∷ ".env" ∷ []) config 6
    ∷ pattern ("missing key" ∷ "invalid value" ∷ "required field" ∷ []) config 8
    ∷ pattern ("environment variable" ∷ "env var" ∷ "DATABASE_URL" ∷ []) config 9
    ∷ pattern ("command not found" ∷ "not installed" ∷ "missing tool" ∷ []) environment 9
    ∷ pattern ("version mismatch" ∷ "incompatible version" ∷ "requires" ∷ []) environment 8
    ∷ pattern ("nix" ∷ "flake" ∷ "devshell" ∷ []) environment 6
    ∷ pattern ("permission denied" ∷ "access denied" ∷ "forbidden" ∷ []) permission 10
    ∷ pattern ("authentication failed" ∷ "invalid credentials" ∷ "unauthorized" ∷ []) permission 10
    ∷ pattern ("token expired" ∷ "token invalid" ∷ "not authenticated" ∷ []) permission 10
    ∷ pattern ("gt auth" ∷ "gh auth" ∷ "API key" ∷ []) permission 9
    ∷ pattern ("test failed" ∷ "assertion failed" ∷ "FAILED" ∷ []) logic 9
    ∷ pattern ("expected" ∷ "actual" ∷ "assert_eq!" ∷ "assert!" ∷ []) logic 8
    ∷ pattern ("panicked at" ∷ "thread 'main' panicked" ∷ []) logic 9
    ∷ pattern ("wrong result" ∷ "incorrect" ∷ "mismatch" ∷ []) logic 7
    ∷ pattern ("timeout" ∷ "timed out" ∷ "connection refused" ∷ []) network 9
    ∷ pattern ("network error" ∷ "connection reset" ∷ "ECONNRESET" ∷ []) network 9
    ∷ pattern ("DNS" ∷ "could not resolve" ∷ "name resolution" ∷ []) network 9
    ∷ pattern ("out of memory" ∷ "OOM" ∷ "memory allocation failed" ∷ []) resource 10
    ∷ pattern ("disk full" ∷ "no space left" ∷ "ENOSPC" ∷ []) resource 10
    ∷ pattern ("rate limit" ∷ "too many requests" ∷ "429" ∷ []) resource 9
    ∷ pattern ("quota exceeded" ∷ "limit exceeded" ∷ []) resource 9
    ∷ pattern ("merge conflict" ∷ "CONFLICT" ∷ "conflict in" ∷ []) git 10
    ∷ pattern ("rebase" ∷ "restack" ∷ "diverged" ∷ []) git 8
    ∷ pattern ("not a git repository" ∷ "git checkout" ∷ "detached HEAD" ∷ []) git 7
    ∷ pattern ("push rejected" ∷ "pull failed" ∷ "fetch failed" ∷ []) git 8
    ∷ pattern ("[need_human]" ∷ "[patch_ready]" ∷ "agent" ∷ []) agent 6
    ∷ pattern ("tool failed" ∷ "command failed" ∷ "subprocess" ∷ []) agent 5
    ∷ []
