-- ===== src/Delegation/Waves/Rounds.antt =====
-- The rounds of DelegationPlan::execution_order: every round takes the subtasks that wait for none of
-- those left.
use mathlib.Core.List.{Memᴰ}
use othala.Base.{
  ℕ, zero, suc, ◌+◌, ◌-◌, ◌≤◌, ◌<◌, max, ◌≡◌, refl, sym, ◌∙◌, ap, inl, inr, Bool, false, not, List,
  [], ◌∷◌, ◌++◌, map, filter, All, All-weaken, contains, contains_iff, index_eq, ◌==◌, count,
  length, length-append, append-snoc, mem-filter, is_empty, arith, if◌then◌else◌, Bool-cases,
  List-cases,
}
use othala.Base.Sorting.{mem-sort_by}
use othala.Delegation.{DelegationStrategy, sequential, parallel, conditional}
use othala.Delegation.Waves.{
  children_of, indegree_of, lower_all, free_of, ready_of, without, chunks_from, chunks, width_for,
  split_ready,
}
use othala.Delegation.Waves.Counts.{total, Counts, total-filter, total-sort_by, indegree-lower_all}

abbrev pub concat : List (List ℕ) → List ℕ
concat [] = []
concat (w ∷ ws) = w ++ concat ws

filter-same : (p q : ℕ → Bool) (xs : List ℕ) → All (λ x. p x ≡ q x) xs → filter p xs ≡ filter q xs
filter-same p q [] h = refl
filter-same p q (x ∷ xs) h = ground (arith, h.0, filter-same p q xs h.1)

abbrev is_free : List ℕ → ℕ → Bool
is_free indegree idx = indegree_of indegree idx == 0

pub mem-ready :
    (indegree xs : List ℕ) {i : ℕ}
    → Memᴰ i (ready_of indegree xs)
    → Memᴰ i xs × (indegree_of indegree i ≡ 0)
unfolding ready_of
mem-ready indegree xs {i} m =
    let (there, zero_now) =
      (mem-filter (is_free indegree) xs).0 ((mem-sort_by _ (free_of indegree xs)).0 m) in
    (there, (index_eq.same_iff (indegree_of indegree i) 0).0 zero_now)

pub mem-ready_back :
    (indegree xs : List ℕ) {i : ℕ}
    → Memᴰ i xs
    → indegree_of indegree i ≡ 0
    → Memᴰ i (ready_of indegree xs)
unfolding ready_of
mem-ready_back indegree xs {i} m free = (mem-sort_by _ (free_of indegree xs)).1 (
    (mem-filter (is_free indegree) xs).1 (m, (index_eq.same_iff (indegree_of indegree i) 0).1 free))

-- What is left after a round are those that still wait.
without-ready :
    (indegree xs : List ℕ)
    → without xs (ready_of indegree xs) ≡ filter (λ i. not (is_free indegree i)) xs
unfolding ready_of
without-ready indegree xs = filter-same _ _ xs (All-weaken _ xs (λ i m. ap not (same i m)))
  where
    same : (i : ℕ) → Memᴰ i xs → contains (ready_of indegree xs) i ≡ is_free indegree i
    same i m = elim (Bool-cases (is_free indegree i)) [
      | inl free ↦ rw free (
          (contains_iff _ i).1
            ((mem-sort_by _ (free_of indegree xs)).1 ((mem-filter _ xs).1 (m, free))))
      | inr busy ↦ elim (Bool-cases (contains (ready_of indegree xs) i)) [
        | inl hit ↦
            let zero_now =
              (mem-ready indegree xs ((contains_iff (ready_of indegree xs) i).0 hit)).1 in
            ground (arith, zero_now)
        | inr miss ↦ rw (busy, miss)
      ]
    ]

total-round :
    (f : ℕ → ℕ) (indegree xs : List ℕ)
    → total f xs ≡ total f (ready_of indegree xs) + total f (without xs (ready_of indegree xs))
unfolding ready_of
total-round f indegree xs = omega (
  arith,
  total-filter f (is_free indegree) xs,
  total-sort_by f _ (free_of indegree xs),
  ap (total f) (without-ready indegree xs),
)

-- A round keeps the indegrees right.
pub round-Counts :
    (children : List (List ℕ)) (indegree xs : List ℕ)
    → Counts children indegree xs
    → Counts children
        (lower_all children (ready_of indegree xs) indegree)
        (without xs (ready_of indegree xs))
round-Counts children indegree xs right i = omega (
  arith,
  right i,
  indegree-lower_all children (ready_of indegree xs) indegree i,
  total-round (λ d. count (λ c. i == c) (children_of children d)) indegree xs,
)

pub length-total : (xs : List ℕ) → length xs ≡ total (λ _. 1) xs
length-total [] = refl
length-total (x ∷ xs) = omega (arith, length-total xs)

count-total : (p : ℕ → Bool) (xs : List ℕ) → count p xs ≡ total (λ x. if p x then 1 else 0) xs
count-total p [] = refl
count-total p (x ∷ xs) = ground (arith, count-total p xs)

-- A round that takes a subtask leaves fewer.
pub round-shrinks :
    (indegree xs : List ℕ)
    → is_empty (ready_of indegree xs) ≡ false
    → length (without xs (ready_of indegree xs)) < length xs
round-shrinks indegree xs some_ready = elim (List-cases (ready_of indegree xs)) [
  | inl none_ready ↦ ground (arith, none_ready)
  | inr (i, rest, e) ↦ omega (
    arith,
    length-total xs,
    length-total (without xs (ready_of indegree xs)),
    total-round (λ _. 1) indegree xs,
    ap (total (λ _. 1)) e,
  )
]

pub count-round :
    (p : ℕ → Bool) (indegree xs : List ℕ)
    → count p xs ≡ count p (ready_of indegree xs) + count p (without xs (ready_of indegree xs))
count-round p indegree xs = omega (
  arith,
  count-total p xs,
  count-total p (ready_of indegree xs),
  count-total p (without xs (ready_of indegree xs)),
  total-round (λ x. if p x then 1 else 0) indegree xs,
)

pub concat-append :
    (front back : List (List ℕ)) → concat (front ++ back) ≡ concat front ++ concat back
concat-append [] back = refl
concat-append (w ∷ front) back =
    ap (λ ids. w ++ ids) (concat-append front back) ∙ sym (append-assoc w _ _)
  where
    append-assoc : (xs ys zs : List ℕ) → (xs ++ ys) ++ zs ≡ xs ++ (ys ++ zs)
    append-assoc [] ys zs = refl
    append-assoc (x ∷ xs) ys zs = ap (λ rest. x ∷ rest) (append-assoc xs ys zs)

concat-chunks_from :
    (size room : ℕ) (current xs : List ℕ)
    → concat (chunks_from size room current xs) ≡ current ++ xs
unfolding chunks_from
concat-chunks_from size room [] [] = refl
concat-chunks_from size room (c ∷ current) [] = refl
concat-chunks_from size zero current (x ∷ xs) =
    ap (λ ids. current ++ ids) (concat-chunks_from size (size - 1) (x ∷ []) xs)
concat-chunks_from size (suc room) current (x ∷ xs) =
    concat-chunks_from size room (current ++ x ∷ []) xs ∙ append-snoc current x xs

-- No chunk is longer than the size.
length-chunks_from :
    (size room : ℕ) (current xs : List ℕ)
    → 1 ≤ size
    → length current + room ≡ size
    → All (λ w. length w ≤ size) (chunks_from size room current xs)
unfolding chunks_from
length-chunks_from size room [] [] pos fits = tt
length-chunks_from size room (c ∷ current) [] pos fits = (omega (arith, fits), tt)
length-chunks_from size zero current (x ∷ xs) pos fits =
    (omega (arith, fits), length-chunks_from size (size - 1) (x ∷ []) xs pos (omega (arith, pos)))
length-chunks_from size (suc room) current (x ∷ xs) pos fits =
    length-chunks_from size room (current ++ x ∷ []) xs pos
      (omega (arith, fits, length-append current (x ∷ [])))

singles :
    (xs : List ℕ)
    → (concat (map (λ i. i ∷ []) xs) ≡ xs) × All (λ w. length w ≤ 1) (map (λ i. i ∷ []) xs)
singles [] = (refl, tt)
singles (x ∷ xs) = (ap (λ rest. x ∷ rest) (singles xs).0, (omega arith, (singles xs).1))

chunked :
    (max_parallel : ℕ) (ready : List ℕ)
    → (concat (chunks (max max_parallel 1) ready) ≡ ready)
      × All (λ w. length w ≤ max max_parallel 1) (chunks (max max_parallel 1) ready)
unfolding chunks_from
chunked max_parallel ready =
    let size = max max_parallel 1 in
    (
      concat-chunks_from size size [] ready,
      length-chunks_from size size [] ready (omega arith) (omega arith),
    )

-- A round's subtasks are all in its waves, in their order, and no wave is too wide.
pub split_ready_lem :
    (strategy : DelegationStrategy) (max_parallel : ℕ) (ready : List ℕ)
    → (concat (split_ready strategy max_parallel ready) ≡ ready)
      × All
          (λ w. length w ≤ width_for strategy max_parallel)
          (split_ready strategy max_parallel ready)
unfolding chunks_from
split_ready_lem sequential max_parallel ready = singles ready
split_ready_lem parallel max_parallel ready = chunked max_parallel ready
split_ready_lem conditional max_parallel ready = chunked max_parallel ready
