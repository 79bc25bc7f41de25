-- ===== src/Delegation/Waves/TitleIndex.antt =====
-- The titles that `build_graph` indexes: which subtask a title stands for.
use mathlib.Core.Option.{some_inj, some-ne-none}
use othala.Base.{
  ℕ, zero, suc, ◌+◌, ◌≡◌, refl, sym, ◌∙◌, ap, subst, ◌⊎◌, inl, inr, true, false, none, some, List,
  [], ◌∷◌, at, Result, ok, err, is_empty, text_eq, ◌==◌, ==_refl, arith, Bool-cases, Option-cases,
}
use othala.Base.Assoc.{get, insert, get-insert}
use othala.Delegation.{SubTaskSpec}
use othala.Delegation.Waves.{Titles, PlanError, title_of, with_title, index_unique}

err-ne-ok :
    {e : PlanError} {titles : Titles} {r : Result Titles PlanError} → r ≡ err e → r ≡ ok titles → ⊥
err-ne-ok h k = ground (arith, sym h ∙ k)

ok_inj : {a b : Titles} {r : Result Titles PlanError} → r ≡ ok b → r ≡ ok a → b ≡ a
ok_inj h k = ground (arith, sym h ∙ k)

-- A subtask whose title is indexed was the first of that title.
index_unique_step :
    (idx : ℕ) (subtask : SubTaskSpec) (rest : List SubTaskSpec) (acc : Titles) {titles : Titles}
    → index_unique idx (subtask ∷ rest) acc ≡ ok titles
    → (index_unique (suc idx) rest (with_title acc (title_of subtask) idx) ≡ ok titles)
      × (is_empty (title_of subtask) ≡ false → get acc (title_of subtask) ≡ none)
unfolding index_unique
index_unique_step idx subtask rest acc h = elim (Bool-cases (is_empty (title_of subtask))) [
  | inl empty ↦ (rw empty (rw empty at h), λ named. absurd (ground (arith, empty, named)))
  | inr named ↦ elim (Option-cases (get acc (title_of subtask))) [
    | inl fresh ↦ (rw named (rw (named, fresh) at h), λ _. fresh)
    | inr (old, found) ↦ absurd (err-ne-ok refl (rw (named, found) at h))
  ]
]

-- A title that is indexed keeps its subtask.
index_unique_keeps :
    (idx : ℕ) (subtasks : List SubTaskSpec) (acc : Titles) (key : List ℕ) {v : ℕ} {titles : Titles}
    → index_unique idx subtasks acc ≡ ok titles
    → get acc key ≡ some v
    → get titles key ≡ some v
unfolding index_unique
index_unique_keeps idx [] acc key {v} h found =
    subst (λ t. get t key ≡ some v) (ok_inj refl h) found
index_unique_keeps idx (subtask ∷ rest) acc key {v} h found =
    let (later, fresh) = index_unique_step idx subtask rest acc h in
    index_unique_keeps (suc idx) rest (with_title acc (title_of subtask) idx) key later (kept fresh)
  where
    kept :
        (is_empty (title_of subtask) ≡ false → get acc (title_of subtask) ≡ none)
        → get (with_title acc (title_of subtask) idx) key ≡ some v
    kept fresh = elim (Bool-cases (is_empty (title_of subtask))) [
      | inl empty ↦ rw empty found
      | inr named ↦ rw named (elim (Bool-cases (title_of subtask == key)) [
        | inl hit ↦
            let e : title_of subtask ≡ key = (text_eq.same_iff (title_of subtask) key).0 hit in
            absurd (some-ne-none v (sym found ∙ ap (get acc) (sym e) ∙ fresh named))
        | inr miss ↦ get-insert acc (title_of subtask) key idx ∙ rw miss found
      ])
    ]

-- Every title that is not empty stands for its subtask.
pub index_unique_finds :
    (idx : ℕ) (subtasks : List SubTaskSpec) (acc : Titles) (k : ℕ) (subtask : SubTaskSpec)
    {titles : Titles}
    → index_unique idx subtasks acc ≡ ok titles
    → at subtasks k ≡ some subtask
    → is_empty (title_of subtask) ≡ false
    → get titles (title_of subtask) ≡ some (idx + k)
index_unique_finds idx [] acc k subtask h there named = absurd (ground arith)
index_unique_finds idx (first ∷ rest) acc zero subtask h there named =
    let e : first ≡ subtask = some_inj.0 there in
    let (later, _) = index_unique_step idx first rest acc h in
    index_unique_keeps (suc idx) rest (with_title acc (title_of first) idx) (title_of subtask) later
      (rw (ap (λ s. is_empty (title_of s)) e, named) (inserted e))
  where
    inserted :
        first ≡ subtask → get (insert acc (title_of first) idx) (title_of subtask) ≡ some (idx + 0)
    inserted e =
        get-insert acc (title_of first) (title_of subtask) idx
        ∙ rw (ap (λ s. s == title_of subtask) (ap title_of e), ==_refl (title_of subtask))
            (ap (λ n. some n) (omega arith))
index_unique_finds idx (first ∷ rest) acc (suc k) subtask h there named =
    let (later, _) = index_unique_step idx first rest acc h in
    index_unique_finds (suc idx) rest (with_title acc (title_of first) idx) k subtask later there
      named
    ∙ ap (λ n. some n) (omega arith)

-- What a title stands for is a subtask of that title.
pub index_unique_sound :
    (idx : ℕ) (subtasks : List SubTaskSpec) (acc : Titles) (key : List ℕ) (v : ℕ) {titles : Titles}
    → index_unique idx subtasks acc ≡ ok titles
    → get titles key ≡ some v
    → (get acc key ≡ some v)
      ⊎ ((k : ℕ) × (subtask : SubTaskSpec) × (v ≡ idx + k)
          × (at subtasks k ≡ some subtask)
          × (title_of subtask ≡ key)
          × (is_empty key ≡ false))
unfolding index_unique
index_unique_sound idx [] acc key v h found =
    inl (subst (λ t. get t key ≡ some v) (sym (ok_inj refl h)) found)
index_unique_sound idx (first ∷ rest) acc key v h found =
    let (later, _) = index_unique_step idx first rest acc h in
    elim (index_unique_sound (suc idx) rest (with_title acc (title_of first) idx) key v later
      found) [
        | inr (k, subtask, e, there, same, named) ↦
            inr (suc k, subtask, omega (arith, e), there, same, named)
        | inl before ↦ elim (Bool-cases (is_empty (title_of first))) [
          | inl empty ↦ inl (rw empty at before)
          | inr named ↦ elim (Bool-cases (title_of first == key)) [
            | inl hit ↦
                let e : title_of first ≡ key = (text_eq.same_iff (title_of first) key).0 hit in
                inr (0, first, here named hit before, refl, e, ap is_empty (sym e) ∙ named)
            | inr miss ↦ inl (other named miss before)
          ]
        ]
      ]
  where
    here :
        is_empty (title_of first) ≡ false
        → (title_of first == key) ≡ true
        → get (with_title acc (title_of first) idx) key ≡ some v
        → v ≡ idx + 0
    here named hit before =
        let now : some idx ≡ some v =
          rw (hit) at (sym (get-insert acc (title_of first) key idx) ∙ rw named at before) in
        omega (arith, some_inj.0 now)

    other :
        is_empty (title_of first) ≡ false
        → (title_of first == key) ≡ false
        → get (with_title acc (title_of first) idx) key ≡ some v
        → get acc key ≡ some v
    other named miss before =
        rw (miss) at (sym (get-insert acc (title_of first) key idx) ∙ rw named at before)
