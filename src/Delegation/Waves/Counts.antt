-- ===== src/Delegation/Waves/Counts.antt =====
-- Counting how many subtasks that are left a subtask waits for.
use othala.Base.{
  ℕ, zero, suc, ◌+◌, ◌-◌, ◌≡◌, refl, Bool, not, List, [], ◌∷◌, filter, count, index_eq, ◌==◌,
  if◌then◌else◌, arith,
}
use othala.Base.Sorting.{sort_by, insert_by}
use othala.Delegation.Waves.{adjust, children_of, indegree_of, lower_children, lower_all}

abbrev pub total : (ℕ → ℕ) → List ℕ → ℕ
total f [] = 0
total f (x ∷ xs) = f x + total f xs

pub total-filter :
    (f : ℕ → ℕ) (p : ℕ → Bool) (xs : List ℕ)
    → total f xs ≡ total f (filter p xs) + total f (filter (λ x. not (p x)) xs)
total-filter f p [] = refl
total-filter f p (x ∷ xs) = ground (arith, total-filter f p xs)

total-insert_by :
    (f : ℕ → ℕ) (after : ℕ → ℕ → Bool) (x : ℕ) (xs : List ℕ)
    → total f (insert_by after x xs) ≡ f x + total f xs
unfolding insert_by
total-insert_by f after x [] = refl
total-insert_by f after x (y ∷ ys) = ground (arith, total-insert_by f after x ys)

pub total-sort_by :
    (f : ℕ → ℕ) (after : ℕ → ℕ → Bool) (xs : List ℕ) → total f (sort_by after xs) ≡ total f xs
unfolding sort_by
total-sort_by f after [] = refl
total-sort_by f after (x ∷ xs) =
    ground (arith, total-insert_by f after x (sort_by after xs), total-sort_by f after xs)

-- How many of the subtasks `ids` the subtask `i` waits for, each as often as it names it.
abbrev pub waits : List (List ℕ) → ℕ → List ℕ → ℕ
waits children i ids = total (λ d. count (λ c. i == c) (children_of children d)) ids

pub indegree-lower :
    (indegree : List ℕ) (child i : ℕ)
    → indegree_of (adjust (λ n. n - 1) indegree child) i
      ≡ (if i == child then indegree_of indegree i - 1 else indegree_of indegree i)
unfolding adjust
indegree-lower [] child i = ground arith
indegree-lower (n ∷ rest) zero zero = ground arith
indegree-lower (n ∷ rest) zero (suc i) = ground arith
indegree-lower (n ∷ rest) (suc child) zero = ground arith
indegree-lower (n ∷ rest) (suc child) (suc i) = ground (arith, indegree-lower rest child i)

indegree-lower_children :
    (ids indegree : List ℕ) (i : ℕ)
    → indegree_of (lower_children ids indegree) i ≡ indegree_of indegree i - count (λ c. i == c) ids
unfolding lower_children
indegree-lower_children [] indegree i = ground arith
indegree-lower_children (child ∷ rest) indegree i = ground (
  arith,
  indegree-lower indegree child i,
  indegree-lower_children rest (adjust (λ n. n - 1) indegree child) i,
)

pub indegree-lower_all :
    (children : List (List ℕ)) (ready indegree : List ℕ) (i : ℕ)
    → indegree_of (lower_all children ready indegree) i
      ≡ indegree_of indegree i - waits children i ready
unfolding lower_all
indegree-lower_all children [] indegree i = ground arith
indegree-lower_all children (idx ∷ ready) indegree i = ground (
  arith,
  indegree-lower_children (children_of children idx) indegree i,
  indegree-lower_all children ready (lower_children (children_of children idx) indegree) i,
)

-- The indegree of a subtask counts the subtasks among `remaining` that it waits for.
abbrev pub Counts : List (List ℕ) → List ℕ → List ℕ → Type 0
Counts children indegree remaining = (i : ℕ) → indegree_of indegree i ≡ waits children i remaining
