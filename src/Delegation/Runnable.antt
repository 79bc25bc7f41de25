-- ===== src/Delegation/Runnable.antt =====
-- Which subtasks the tracker hands out.
use mathlib.Core.List.{Memᴰ}
use mathlib.Core.List.Memᴰ
use mathlib.Core.Bool.{false≢true}
use othala.Base.{
  at, ℕ, zero, suc, ◌+◌, ◌≡◌, refl, sym, ◌∙◌, ap, ◌↔◌, inl, inr, true, false, ◌&&◌, not, Option,
  none, some, List, [], ◌∷◌, All, arith, Bool-cases, string_eq, index_eq, all, String, is_some,
  Option-cases, &&-true,
}
use othala.Base.Assoc.{Assoc, get, contains_key}
use othala.Delegation.{
  SubTaskSpec, SubTaskStatus, DelegationTracker, completed, pending, is_completed, is_pending,
  status_of, is_failed, titles_of, dep_met, deps_met, is_runnable, runnable_from, next_runnable,
}

module _ {T : Type 0} (self : DelegationTracker T) where
  -- The title names a subtask that is completed.
  abbrev pub IsDone : String → Type 0
  IsDone title =
      (j : ℕ) × (get (titles_of self) title ≡ some j) × (get self.statuses j ≡ some completed)

  -- The subtask at `idx` waits, was never started, and has all its dependencies completed.
  abbrev pub CanRun : ℕ → Type 0
  CanRun idx =
      (subtask : SubTaskSpec) × (at self.plan.subtasks idx ≡ some subtask)
      × (status_of self idx ≡ pending)
      × (get self.task_id_mapping idx ≡ none)
      × All IsDone subtask.depends_on

  runnable_from_sound :
      (titles : Assoc String ℕ) (start : ℕ) (subtasks : List SubTaskSpec) (idx : ℕ)
      → Memᴰ idx (runnable_from self titles start subtasks)
      → (k : ℕ) × (subtask : SubTaskSpec) × (idx ≡ start + k)
        × (at subtasks k ≡ some subtask)
        × (is_runnable self titles idx subtask ≡ true)
  unfolding runnable_from
  runnable_from_sound titles start [] idx m = elim m [ ]
  runnable_from_sound titles start (first ∷ rest) idx m =
      let deeper : Memᴰ idx (runnable_from self titles (suc start) rest)
          → (k : ℕ) × (subtask : SubTaskSpec) × (idx ≡ start + k)
            × (at (first ∷ rest) k ≡ some subtask)
            × (is_runnable self titles idx subtask ≡ true) =
        λ m'.
          let (k, subtask, e, found, run) = runnable_from_sound titles (suc start) rest idx m' in
          (suc k, subtask, omega (arith, e), found, run) in
      elim (Bool-cases (is_runnable self titles start first)) [
        | inl run ↦ elim (Memᴰ.cases_cons (rw run at m)) [
          | inl e ↦ (0, first, omega (arith, e), refl, rw e run)
          | inr later ↦ deeper later
        ]
        | inr blocked ↦ deeper (rw blocked at m)
      ]

  runnable_from_complete :
      (titles : Assoc String ℕ) (start : ℕ) (subtasks : List SubTaskSpec) (idx k : ℕ)
      (subtask : SubTaskSpec)
      → idx ≡ start + k
      → at subtasks k ≡ some subtask
      → is_runnable self titles idx subtask ≡ true
      → Memᴰ idx (runnable_from self titles start subtasks)
  unfolding runnable_from
  runnable_from_complete titles start [] idx k subtask e found run = absurd (ground arith)
  runnable_from_complete titles start (first ∷ rest) idx zero subtask e found run =
      let same : idx ≡ start = omega (arith, e) in
      let here : is_runnable self titles start first ≡ true =
        ap (λ s. is_runnable self titles start s) (some_injective found)
        ∙ ap (λ i. is_runnable self titles i subtask) (sym same)
        ∙ run in
      rw here (Memᴰ.head same)
    where
      some_injective : {a b : SubTaskSpec} → some a ≡ some b → a ≡ b
      some_injective h = ground arith
  runnable_from_complete titles start (first ∷ rest) idx (suc k) subtask e found run =
      let later =
        runnable_from_complete titles (suc start) rest idx k subtask (omega (arith, e)) found run in
      elim (Bool-cases (is_runnable self titles start first)) [
        | inl here ↦ rw here (Memᴰ.tail later)
        | inr not_here ↦ rw not_here later
      ]

  is_completed_iff : (s : SubTaskStatus) → (is_completed s ≡ true) ↔ (s ≡ completed)
  is_completed_iff s = ground arith

  is_pending_iff : (s : SubTaskStatus) → (is_pending s ≡ true) ↔ (s ≡ pending)
  is_pending_iff s = ground arith

  dep_met_iff :
      (title : String) → (dep_met self.statuses (get (titles_of self) title) ≡ true) ↔ IsDone title
  dep_met_iff title = (
    λ h. elim (Option-cases (get (titles_of self) title)) [
      | inl e ↦ absurd (false≢true (rw e at h))
      | inr (j, e) ↦ elim (Option-cases (get self.statuses j)) [
        | inl e' ↦ absurd (false≢true (rw (e, e') at h))
        | inr (status, e') ↦
            let done : status ≡ completed = (is_completed_iff status).0 (rw (e, e') at h) in
            (j, e, e' ∙ ap (λ s. some s) done)
      ]
    ],
    λ (j, e, e'). rw (e, e') refl,
  )

  deps_met_iff :
      (titles : List String)
      → (all (λ dep. dep_met self.statuses (get (titles_of self) dep)) titles ≡ true)
        ↔ All IsDone titles
  deps_met_iff [] = (λ h. tt, λ h. refl)
  deps_met_iff (title ∷ titles) = (
    λ h.
        let (first, rest) = &&-true _ _ h in
        ((dep_met_iff title).0 first, (deps_met_iff titles).0 rest),
    λ h. rw ((dep_met_iff title).1 h.0) ((deps_met_iff titles).1 h.1),
  )

  is_runnable_iff :
      (idx : ℕ) (subtask : SubTaskSpec)
      → (is_runnable self (titles_of self) idx subtask ≡ true) ↔ (
          (status_of self idx ≡ pending)
          × (get self.task_id_mapping idx ≡ none)
          × All IsDone subtask.depends_on)
  is_runnable_iff idx subtask = (
    λ h.
        let free = not (contains_key self.task_id_mapping idx) in
        let (front, met) =
          &&-true (is_pending (status_of self idx) && free) (deps_met self (titles_of self) subtask)
            h in
        let (waits, fresh) = &&-true (is_pending (status_of self idx)) free front in
        (
          (is_pending_iff (status_of self idx)).0 waits,
          absent fresh,
          (deps_met_iff subtask.depends_on).0 met,
        ),
    λ (waits, fresh, met).
        rw ((is_pending_iff (status_of self idx)).1 waits, fresh)
          ((deps_met_iff subtask.depends_on).1 met),
  )
    where
      absent : {A : Type 0} {o : Option A} → not (is_some o) ≡ true → o ≡ none
      absent {o = o} h = elim (Option-cases o) [
        | inl e ↦ e
        | inr (a, e) ↦ absurd (false≢true (rw e at h))
      ]

  -- The tracker hands out exactly the subtasks of the plan that wait, were never started and have all
  -- their dependencies completed; but none at all once a subtask has failed in a plan that is to fail
  -- fast.
  pub next_runnable_iff :
      (idx : ℕ)
      → Memᴰ idx (next_runnable self)
        ↔ (((self.plan.fail_fast && is_failed self) ≡ false) × CanRun idx)
  unfolding next_runnable
  next_runnable_iff idx = elim (Bool-cases (self.plan.fail_fast && is_failed self)) [
    | inl stop ↦ rw stop (λ m. elim m [ ], λ h. absurd (false≢true (sym h.0)))
    | inr go ↦ rw go (
      λ m.
          let (k, subtask, e, found, run) =
            runnable_from_sound (titles_of self) 0 self.plan.subtasks idx m in
          let same : idx ≡ k = omega (arith, e) in
          let (waits, fresh, met) = (is_runnable_iff idx subtask).0 run in
          (refl, (subtask, ap (λ i. at self.plan.subtasks i) same ∙ found, waits, fresh, met)),
      λ (_, (subtask, found, waits, fresh, met)).
          runnable_from_complete (titles_of self) 0 self.plan.subtasks idx idx subtask (omega arith)
            found ((is_runnable_iff idx subtask).1 (waits, fresh, met)),
    )
  ]
