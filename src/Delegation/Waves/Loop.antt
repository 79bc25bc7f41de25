-- ===== src/Delegation/Waves/Loop.antt =====
-- The loop of DelegationPlan::execution_order: what its waves are when it ends well, and what it has
-- found when it does not.
use mathlib.Core.List.{Memᴰ}
use mathlib.Core.List.Memᴰ
use mathlib.Core.Bool.{false≢true}
use othala.Base.{
  ℕ, zero, suc, ◌≤◌, ◌≡◌, refl, sym, ap, subst, ◌⊎◌, inl, inr, Bool, true, not, List, [], ◌∷◌, ◌++◌,
  All, All-append, All-weaken, All-map, Result, ok, err, index_eq, ◌==◌, count, count-append,
  length, mem-append, mem-filter, is_empty, arith, List-cases, Bool-cases, contains, contains_iff,
}
use othala.Delegation.{DelegationStrategy}
use othala.Delegation.Waves.{
  PlanError, children_of, indegree_of, lower_all, ready_of, without, width_for, split_ready,
  waves_from,
}
use othala.Delegation.Waves.Precedence.{InOrder, InOrder-front}
use othala.Delegation.Waves.Counts.{waits, Counts}
use othala.Delegation.Waves.Rounds.{
  concat, concat-append, mem-ready, mem-ready_back, round-Counts, round-shrinks, count-round,
  split_ready_lem,
}

pub waits-pos :
    (children : List (List ℕ)) (i d : ℕ) (ids : List ℕ)
    → Memᴰ d ids
    → 1 ≤ count (λ c. i == c) (children_of children d)
    → 1 ≤ waits children i ids
waits-pos children i d [] m pos = elim m [ ]
waits-pos children i d (x ∷ ids) m pos = elim (Memᴰ.cases_cons m) [
  | inl e ↦
      let here = subst (λ y. 1 ≤ count (λ c. i == c) (children_of children y)) e pos in
      omega (arith, here)
  | inr later ↦ omega (arith, waits-pos children i d ids later pos)
]

module _ (Needs : ℕ → ℕ → Type 0) (strategy : DelegationStrategy) (max_parallel : ℕ) where
  -- The waves hold the subtasks in order, each as often as it was left, and none is too wide.
  abbrev pub IsOrder : List ℕ → List ℕ → List (List ℕ) → Type 0
  IsOrder done remaining waves =
      InOrder Needs done waves
      × ((p : ℕ → Bool) → count p (concat waves) ≡ count p remaining)
      × All (λ w. length w ≤ width_for strategy max_parallel) waves

-- What a subtask needs is done or left.
abbrev pub Covers : (ℕ → ℕ → Type 0) → List ℕ → List ℕ → Type 0
Covers Needs done remaining = (i d : ℕ) → Needs i d → Memᴰ d done ⊎ Memᴰ d remaining

-- The waves of a round in front of those of the later ones.
abbrev extend :
    List (List ℕ)
    → Result (List (List ℕ)) (List PlanError)
    → Result (List (List ℕ)) (List PlanError)
extend round (ok ws) = ok (round ++ ws)
extend round (err e) = err e

ok_inj : {a b : List (List ℕ)} → extend [] (ok a) ≡ extend [] (ok b) → a ≡ b
ok_inj h = ground arith

err-ne-ok : {e : List PlanError} {a : List (List ℕ)} → extend [] (err e) ≡ ok a → ⊥
err-ne-ok h = ground arith

module _ (Needs : ℕ → ℕ → Type 0) (children : List (List ℕ))
    (counted : (i d : ℕ) → Needs i d → 1 ≤ count (λ c. i == c) (children_of children d)) where
  -- What a ready subtask needs is done.
  ready-met :
      (done remaining indegree : List ℕ)
      → Counts children indegree remaining
      → Covers Needs done remaining
      → All (λ i. (d : ℕ) → Needs i d → Memᴰ d done) (ready_of indegree remaining)
  ready-met done remaining indegree right cover =
      All-weaken _ (ready_of indegree remaining) (λ i m d need. elim (cover i d need) [
        | inl met ↦ met
        | inr left ↦
            let none_left = (mem-ready indegree remaining m).1 in
            absurd (
              omega (
                arith,
                none_left,
                right i,
                waits-pos children i d remaining left (counted i d need),
              ))
      ])

  Covers-round :
      (done remaining ready : List ℕ)
      → Covers Needs done remaining
      → Covers Needs (done ++ ready) (without remaining ready)
  Covers-round done remaining ready cover i d need = elim (cover i d need) [
    | inl met ↦ inl ((mem-append done ready).1 (inl met))
    | inr left ↦ elim (Bool-cases (contains ready d)) [
      | inl taken ↦ inl ((mem-append done ready).1 (inr ((contains_iff ready d).0 taken)))
      | inr stays ↦ inr ((mem-filter _ remaining).1 (left, ap not stays))
    ]
  ]

  pub waves_from-IsOrder :
      (strategy : DelegationStrategy) (max_parallel fuel : ℕ) (done remaining indegree : List ℕ)
      {waves : List (List ℕ)}
      → waves_from strategy max_parallel children fuel remaining indegree ≡ ok waves
      → Counts children indegree remaining
      → Covers Needs done remaining
      → IsOrder Needs strategy max_parallel done remaining waves
  unfolding waves_from
  waves_from-IsOrder strategy max_parallel fuel done [] indegree h right cover =
      subst (IsOrder Needs strategy max_parallel done []) (ok_inj h) (tt, (λ p. refl), tt)
  waves_from-IsOrder strategy max_parallel zero done (i ∷ rest) indegree h right cover =
      absurd (err-ne-ok h)
  waves_from-IsOrder strategy max_parallel (suc fuel) done (i ∷ rest) indegree {waves} h right
        cover =
      elim (Bool-cases (is_empty ready)) [
        | inl stuck ↦ absurd (err-ne-ok (rw stuck at h))
        | inr go ↦
            finish
              (λ ws e.
                waves_from-IsOrder strategy max_parallel fuel (done ++ ready) left lowered e
                  (round-Counts children indegree (i ∷ rest) right)
                  (Covers-round done (i ∷ rest) ready cover))
              later refl (rw go at h)
      ]
    where
      ready : List ℕ
      ready = ready_of indegree (i ∷ rest)

      lowered : List ℕ
      lowered = lower_all children ready indegree

      left : List ℕ
      left = without (i ∷ rest) ready

      later : Result (List (List ℕ)) (List PlanError)
      later = waves_from strategy max_parallel children fuel left lowered

      round : List (List ℕ)
      round = split_ready strategy max_parallel ready

      finish :
          ((ws : List (List ℕ))
            → later ≡ ok ws
            → IsOrder Needs strategy max_parallel (done ++ ready) left ws)
          → (r : Result (List (List ℕ)) (List PlanError)) → later ≡ r
          → extend round r ≡ ok waves
          → IsOrder Needs strategy max_parallel done (i ∷ rest) waves
      finish _ (err e) _ h' = absurd (err-ne-ok h')
      finish hyp (ok ws) e h' =
          let (whole, narrow) = split_ready_lem strategy max_parallel ready in
          let (ordered, counts, wide) = hyp ws e in
          subst (IsOrder Needs strategy max_parallel done (i ∷ rest)) (ok_inj h') (
            InOrder-front Needs done round ws
                (subst (All (λ i. (d : ℕ) → Needs i d → Memᴰ d done)) (sym whole)
                  (ready-met done (i ∷ rest) indegree right cover))
                (subst (λ ids. InOrder Needs (done ++ ids) ws) (sym whole) ordered),
            (λ p. omega (
              arith,
              ap (count p) (concat-append round ws),
              count-append p (concat round) (concat ws),
              ap (count p) whole,
              counts p,
              count-round p indegree (i ∷ rest),
            )),
            All-append _ round ws narrow wide,
          )

ok-ne-err : {e : List PlanError} {a : List (List ℕ)} → extend [] (ok a) ≡ err e → ⊥
ok-ne-err h = ground arith

pub ℕ-cases : (n : ℕ) → (n ≡ 0) ⊎ (1 ≤ n)
ℕ-cases zero = inl refl
ℕ-cases (suc n) = inr (omega arith)

ready-empty :
    (indegree xs : List ℕ) {i : ℕ}
    → is_empty (ready_of indegree xs) ≡ true
    → Memᴰ i xs
    → indegree_of indegree i ≡ 0
    → ⊥
ready-empty indegree xs {i} empty m free = elim (List-cases (ready_of indegree xs)) [
  | inl nil ↦ Memᴰ.not-nil (subst (Memᴰ i) nil (mem-ready_back indegree xs m free))
  | inr (x, rest, e) ↦ false≢true (rw e at empty)
]

-- Subtasks of which each waits for one of them.
abbrev pub IsStuck : List (List ℕ) → List ℕ → Type 0
IsStuck children ids = All (λ i. 1 ≤ waits children i ids) ids

module _ (children : List (List ℕ)) (strategy : DelegationStrategy) (max_parallel : ℕ) where
  -- The loop fails only on subtasks that block each other, never for want of fuel.
  pub waves_from-IsStuck :
      (fuel : ℕ) (remaining indegree : List ℕ) {errors : List PlanError}
      → waves_from strategy max_parallel children fuel remaining indegree ≡ err errors
      → length remaining ≤ fuel
      → Counts children indegree remaining
      → (i : ℕ) × (rest : List ℕ) × IsStuck children (i ∷ rest)
        × All (λ j. Memᴰ j remaining) (i ∷ rest)
  unfolding waves_from
  waves_from-IsStuck fuel [] indegree h enough right = absurd (ok-ne-err h)
  waves_from-IsStuck zero (i ∷ rest) indegree h enough right = absurd (omega (arith, enough))
  waves_from-IsStuck (suc fuel) (i ∷ rest) indegree {errors} h enough right =
      elim (Bool-cases (is_empty ready)) [
        | inl stuck ↦ (
          i,
          rest,
          All-weaken _ (i ∷ rest) (λ j m. waiting j (ready-empty indegree (i ∷ rest) stuck m)),
          All-weaken _ (i ∷ rest) (λ j m. m),
        )
        | inr go ↦
            finish
              (λ e h'.
                waves_from-IsStuck fuel left lowered h'
                  (omega (arith, enough, round-shrinks indegree (i ∷ rest) go))
                  (round-Counts children indegree (i ∷ rest) right))
              later refl (rw go at h)
      ]
    where
      ready : List ℕ
      ready = ready_of indegree (i ∷ rest)

      lowered : List ℕ
      lowered = lower_all children ready indegree

      left : List ℕ
      left = without (i ∷ rest) ready

      later : Result (List (List ℕ)) (List PlanError)
      later = waves_from strategy max_parallel children fuel left lowered

      waiting : (j : ℕ) → (indegree_of indegree j ≡ 0 → ⊥) → 1 ≤ waits children j (i ∷ rest)
      waiting j busy = elim (ℕ-cases (indegree_of indegree j)) [
        | inl none_left ↦ absurd (busy none_left)
        | inr some_left ↦ omega (arith, some_left, right j)
      ]

      finish :
          ((e : List PlanError)
            → later ≡ err e
            → (j : ℕ) × (others : List ℕ) × IsStuck children (j ∷ others)
              × All (λ k. Memᴰ k left) (j ∷ others))
          → (r : Result (List (List ℕ)) (List PlanError)) → later ≡ r
          → extend (split_ready strategy max_parallel ready) r ≡ err errors
          → (j : ℕ) × (others : List ℕ) × IsStuck children (j ∷ others)
            × All (λ k. Memᴰ k (i ∷ rest)) (j ∷ others)
      finish hyp (ok ws) _ h' = absurd (ok-ne-err h')
      finish hyp (err e) same h' =
          let (j, others, stuck, among) = hyp e same in
          (
            j,
            others,
            stuck,
            All-map (λ k m. ((mem-filter (λ j. not (contains ready j)) (i ∷ rest)).0 m).0)
                (j ∷ others) among,
          )
