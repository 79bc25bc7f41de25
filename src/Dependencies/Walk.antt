-- ===== src/Dependencies/Walk.antt =====
-- The walk of `restack_descendants_for_parent` through the graph: it ends, and finds every
-- descendant once.
use mathlib.Core.List.{Memᴰ}
use mathlib.Core.List.Memᴰ
use othala.Base.{
  ℕ, suc, ◌≤◌, ◌≡◌, ◌↔◌, ◌⊎◌, inl, inr, not, List, [], ◌∷◌, ◌++◌, arith, contains, contains_iff,
  string_eq, Bool-cases, count, mem-cons,
}
use othala.Core.Task.{TaskId}
use othala.Dependencies.{
  DependencyGraph, children, Frontier, follows, push_back, insert_id, sorted_task_ids,
}

mem-insert_id :
    (a b : TaskId) (ids : List TaskId) → Memᴰ b (insert_id a ids) ↔ ((b ≡ a) ⊎ Memᴰ b ids)
unfolding insert_id
mem-insert_id a b [] = mem-cons b a []
mem-insert_id a b (c ∷ ids) = elim (Bool-cases (follows a c)) [
  | inr here ↦ rw here (mem-cons b a (c ∷ ids))
  | inl later ↦
      let (from, to) = mem-insert_id a b ids in
      rw later (
        λ m. elim (Memᴰ.cases_cons m) [
          | inl e ↦ inr (Memᴰ.head e)
          | inr m' ↦ elim (from m') [ inl e ↦ inl e | inr m'' ↦ inr (Memᴰ.tail m'') ]
        ],
        λ m. elim m [
          | inl e ↦ Memᴰ.tail (to (inl e))
          | inr m' ↦ elim (Memᴰ.cases_cons m') [
            | inl e ↦ Memᴰ.head e
            | inr m'' ↦ Memᴰ.tail (to (inr m''))
          ]
        ],
      )
]

pub mem-sorted_task_ids :
    (ids : List TaskId) (b : TaskId) → Memᴰ b (sorted_task_ids ids) ↔ Memᴰ b ids
unfolding sorted_task_ids
mem-sorted_task_ids [] b = (λ m. m, λ m. m)
mem-sorted_task_ids (a ∷ ids) b =
    let (from, to) = mem-sorted_task_ids ids b in
    let (from_here, to_here) = mem-insert_id a b (sorted_task_ids ids) in
    (
      λ m. elim (from_here m) [ inl e ↦ Memᴰ.head e | inr m' ↦ Memᴰ.tail (from m') ],
      λ m. elim (Memᴰ.cases_cons m) [ inl e ↦ to_here (inl e) | inr m' ↦ to_here (inr (to m')) ],
    )

-- One step of the inner loop: the id was seen before, or it is new and goes to the back.
pub push_back-cases :
    (f : Frontier) (child : TaskId)
    → (Memᴰ child f.seen × (push_back f child ≡ f))
      ⊎ ((Memᴰ child f.seen → ⊥)
          × (push_back f child ≡ record { seen = child ∷ f.seen; queue = f.queue ++ child ∷ [] }))
push_back-cases f child = ground (arith, contains_iff f.seen child)

-- Descendants: children, their children, and so on.
pub data Descends (graph : DependencyGraph) (root : TaskId) : TaskId → Type 0 where
  child : {c : TaskId} → Memᴰ c (children graph root) → Descends graph root c
  deeper :
      {n c : TaskId} → Descends graph root n → Memᴰ c (children graph n) → Descends graph root c

-- The ids that the queue may still take.
abbrev pub unseen : List TaskId → List TaskId → ℕ
unseen universe seen = count (λ a. not (contains seen a)) universe

pub unseen-cons :
    (universe seen : List TaskId) (a : TaskId) → unseen universe (a ∷ seen) ≤ unseen universe seen
unseen-cons [] seen a = ground arith
unseen-cons (b ∷ universe) seen a = ground (arith, unseen-cons universe seen a)

pub unseen-new :
    (universe seen : List TaskId) (a : TaskId)
    → Memᴰ a universe
    → (Memᴰ a seen → ⊥)
    → suc (unseen universe (a ∷ seen)) ≤ unseen universe seen
unseen-new (b ∷ universe) seen a m new = elim (Memᴰ.cases_cons m) [
  | inl e ↦ ground (arith, unseen-cons universe seen a, contains_iff seen b, string_eq.same_iff b a)
  | inr later ↦ ground (arith, unseen-new universe seen a later new)
]
unseen-new [] seen a m new = elim m [ ]
