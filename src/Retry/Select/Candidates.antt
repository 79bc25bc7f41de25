-- ===== src/Retry/Select/Candidates.antt =====
-- The list that the selection by health chooses from holds the candidates, and no other model.
use mathlib.Core.List.{Memᴰ}
use mathlib.Core.List.Memᴰ
use othala.Base.{
  ◌≡◌, sym, ap, ◌∙◌, ◌↔◌, ◌⊎◌, inl, inr, true, some, List, [], ◌∷◌, ◌++◌, arith, Bool-cases,
  Option-cases, contains, contains_iff, mem-append, mem-cons, mem-single,
}
use othala.Core.Task.{ModelKind, model_eq, Task}
use othala.Retry.{is_usable, preferred_if_usable}
use othala.Retry.Evaluate.{
  Candidate, preferred_if_usable-some, Candidate-of_usable, usable_of_Candidate,
}
use othala.Retry.Select.{collect, ordered_candidates}

module _ {T : Type 0} (task : Task T) (just_failed : ModelKind) where
  mem-collect :
      (ordered enabled : List ModelKind) (m : ModelKind)
      → Memᴰ m (collect task just_failed ordered enabled)
        ↔ (Memᴰ m ordered ⊎ Memᴰ m enabled × (is_usable task just_failed m ≡ true))
  unfolding collect
  mem-collect ordered [] m = (inl, λ h. elim h [ inl there ↦ there | inr never ↦ elim never.0 [ ] ])
  mem-collect ordered (x ∷ rest) m = elim (Bool-cases (is_usable task just_failed x)) [
    | inl usable ↦ elim (Bool-cases (contains ordered x)) [
      | inl old ↦
          let there = (contains_iff ordered x).0 old in
          rw (usable, old) (ground (arith, mem-collect ordered rest m, mem-cons m x rest, there))
      | inr new ↦
          rw (usable, new)
            (ground (
              arith,
              mem-collect (ordered ++ x ∷ []) rest m,
              mem-append ordered (x ∷ []) {a = m},
              mem-single m x,
              mem-cons m x rest,
              usable,
            ))
    ]
    | inr bad ↦ rw bad (ground (arith, mem-collect ordered rest m, mem-cons m x rest, bad))
  ]

  pub mem-ordered_candidates :
      (enabled : List ModelKind) (m : ModelKind)
      → Memᴰ m (ordered_candidates task just_failed enabled) ↔ Candidate task just_failed enabled m
  unfolding ordered_candidates
  mem-ordered_candidates enabled m = (
    λ there. elim (Option-cases (preferred_if_usable task just_failed enabled)) [
      | inl e ↦ elim ((mem-collect [] enabled m).0 (rw e at there)) [
        | inl never ↦ elim never [ ]
        | inr (known, usable) ↦ Candidate-of_usable task just_failed enabled usable known
      ]
      | inr (p, e) ↦ elim ((mem-collect (p ∷ []) enabled m).0 (rw e at there)) [
        | inl first ↦
            let same : m ≡ p = Memᴰ.eq_of_singleton first in
            let (_, usable, known) =
              preferred_if_usable-some task just_failed enabled (e ∙ ap some (sym same)) in
            Candidate-of_usable task just_failed enabled usable ((contains_iff enabled m).0 known)
        | inr (known, usable) ↦ Candidate-of_usable task just_failed enabled usable known
      ]
    ],
    λ c.
        (mem-collect _ enabled m).1
          (inr (c.is_enabled, usable_of_Candidate task just_failed enabled c)),
  )
