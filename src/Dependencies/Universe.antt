-- ===== src/Dependencies/Universe.antt =====
-- All the ids that the walk may meet: the children of any task of the graph.
use mathlib.Core.List.{Memᴰ}
use othala.Base.{
  ◌≤◌, ◌≡◌, refl, inl, inr, List, [], ◌∷◌, ◌++◌, arith, ◌==◌, string_eq, Bool-cases, length,
  length-append, mem-append,
}
use othala.Base.Assoc.{Assoc, get}
use othala.Base.Sets.{members}
use othala.Core.Task.{TaskId}
use othala.Dependencies.{edge_count}
use othala.Dependencies.Walk.{unseen}

unfoldable pub all_children : Assoc TaskId (List TaskId) → List TaskId
all_children [] = []
all_children ((_, ids) ∷ rest) = ids ++ all_children rest

pub length-all_children :
    (edges : Assoc TaskId (List TaskId)) → length (all_children edges) ≡ edge_count edges
unfolding all_children
length-all_children [] = refl
length-all_children ((_, ids) ∷ rest) =
    ground (arith, length-append ids (all_children rest), length-all_children rest)

pub mem-all_children :
    (edges : Assoc TaskId (List TaskId)) (n c : TaskId)
    → Memᴰ c (members edges n)
    → Memᴰ c (all_children edges)
unfolding all_children get
mem-all_children [] n c m = m
mem-all_children ((found, ids) ∷ rest) n c m = elim (Bool-cases (n == found)) [
  | inl hit ↦ (mem-append ids (all_children rest)).1 (inl (rw hit at m))
  | inr miss ↦
      (mem-append ids (all_children rest)).1 (inr (mem-all_children rest n c (rw miss at m)))
]

pub unseen-nil : (universe : List TaskId) → unseen universe [] ≤ length universe
unseen-nil [] = ground arith
unseen-nil (a ∷ universe) = ground (arith, unseen-nil universe)
