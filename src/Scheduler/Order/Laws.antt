-- ===== src/Scheduler/Order/Laws.antt =====
-- The order of the queue: a permutation of it, by priority and then by age.
use mathlib.Core.List.{Perm}
use mathlib.Core.List.Perm
use othala.Base.{
  ◌<◌, ◌≡◌, ◌⊎◌, inl, inr, true, false, List, [], ◌∷◌, arith, Bool-cases, All, All-map,
}
use othala.Core.Time.{Chrono}
use othala.Core.Task.{priority_index}
use othala.Scheduler.{QueuedTask}
use othala.Scheduler.Order.{is_greater, compare_queued, insert_sorted, sort_queued}

module _ {T : Type 0} ⦃chrono : Chrono T⦄ where
  open chrono use {le}

  -- Higher priority, or the same and not enqueued later.
  abbrev pub Precedes : QueuedTask T → QueuedTask T → Type 0
  Precedes a b =
      (priority_index b.priority < priority_index a.priority)
      ⊎ ((priority_index a.priority ≡ priority_index b.priority)
          × (le a.enqueued_at b.enqueued_at ≡ true))

  -- Each task precedes all behind it.
  abbrev pub IsOrdered : List (QueuedTask T) → Type 0
  IsOrdered [] = Unit
  IsOrdered (x ∷ xs) = All (Precedes x) xs × IsOrdered xs

  Precedes-trans : (a b c : QueuedTask T) → Precedes a b → Precedes b c → Precedes a c
  Precedes-trans a b c h k =
      ground (arith, chrono.le_trans a.enqueued_at b.enqueued_at c.enqueued_at)

  Precedes-of_not_greater :
      (a b : QueuedTask T) → is_greater (compare_queued a b) ≡ false → Precedes a b
  Precedes-of_not_greater a b h = ground arith

  Precedes-of_greater : (a b : QueuedTask T) → is_greater (compare_queued a b) ≡ true → Precedes b a
  Precedes-of_greater a b h = ground (arith, chrono.le_total a.enqueued_at b.enqueued_at)

  insert_sorted-perm :
      (x : QueuedTask T) (xs : List (QueuedTask T)) → Perm (insert_sorted x xs) (x ∷ xs)
  unfolding insert_sorted
  insert_sorted-perm x [] = Perm.rfl
  insert_sorted-perm x (y ∷ ys) = elim (Bool-cases (is_greater (compare_queued x y))) [
    | inl later ↦ rw later (Perm.trans (Perm.cons y (insert_sorted-perm x ys)) (Perm.swap x y ys))
    | inr here ↦ rw here Perm.rfl
  ]

  insert_sorted-All {ℓ} :
      (P : QueuedTask T → Type ℓ) (x : QueuedTask T) (xs : List (QueuedTask T))
      → P x
      → All P xs
      → All P (insert_sorted x xs)
  unfolding insert_sorted
  insert_sorted-All P x [] h hs = (h, tt)
  insert_sorted-All P x (y ∷ ys) h hs = elim (Bool-cases (is_greater (compare_queued x y))) [
    | inl later ↦ rw later (hs.0, insert_sorted-All P x ys h hs.1)
    | inr here ↦ rw here (h, hs)
  ]

  insert_sorted-IsOrdered :
      (x : QueuedTask T) (xs : List (QueuedTask T)) → IsOrdered xs → IsOrdered (insert_sorted x xs)
  unfolding insert_sorted
  insert_sorted-IsOrdered x [] h = (tt, tt)
  insert_sorted-IsOrdered x (y ∷ ys) h = elim (Bool-cases (is_greater (compare_queued x y))) [
    | inl later ↦ rw later (
      insert_sorted-All (Precedes y) x ys (Precedes-of_greater x y later) h.0,
      insert_sorted-IsOrdered x ys h.1,
    )
    | inr here ↦
        let first = Precedes-of_not_greater x y here in
        rw here ((first, All-map (λ z. Precedes-trans x y z first) ys h.0), h)
  ]

  sort_queued-perm : (xs : List (QueuedTask T)) → Perm (sort_queued xs) xs
  unfolding sort_queued
  sort_queued-perm [] = Perm.rfl
  sort_queued-perm (x ∷ xs) =
      Perm.trans (insert_sorted-perm x (sort_queued xs)) (Perm.cons x (sort_queued-perm xs))

  pub sort_queued-All {ℓ} :
      (P : QueuedTask T → Type ℓ) (xs : List (QueuedTask T)) → All P xs → All P (sort_queued xs)
  unfolding sort_queued
  sort_queued-All P [] h = tt
  sort_queued-All P (x ∷ xs) h =
      insert_sorted-All P x (sort_queued xs) h.0 (sort_queued-All P xs h.1)

  sort_queued-IsOrdered_lem : (xs : List (QueuedTask T)) → IsOrdered (sort_queued xs)
  unfolding sort_queued
  sort_queued-IsOrdered_lem [] = tt
  sort_queued-IsOrdered_lem (x ∷ xs) =
      insert_sorted-IsOrdered x (sort_queued xs) (sort_queued-IsOrdered_lem xs)

  -- The scheduler looks at every queued task, each as often as it is queued, in an order where each
  -- task has a higher priority than those behind it, or the same and no later time of enqueueing.
  pub sort_queued-IsOrdered :
      (xs : List (QueuedTask T)) → Perm (sort_queued xs) xs × IsOrdered (sort_queued xs)
  sort_queued-IsOrdered xs = (sort_queued-perm xs, sort_queued-IsOrdered_lem xs)
