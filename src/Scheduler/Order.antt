-- ===== src/Scheduler/Order.antt =====
-- The order in which `plan` looks at the queue. `sort_by` is the standard library's stable sort.
pub mod Laws
use Prim.Native.Nat.{Ordering, compare as compare_ℕ}
use Prim.Native.String.{compare as compare_text, then as or_else}
use othala.Base.{ℕ, Bool, true, false, List, [], ◌∷◌, if◌then◌else◌}
use othala.Core.Time.{Chrono}
use othala.Core.Task.{priority_index}
use othala.Scheduler.{QueuedTask}

abbrev pub is_greater : Ordering → Bool
is_greater Ordering.gt = true
is_greater _ = false

module _ {T : Type 0} ⦃chrono : Chrono T⦄ where
  open chrono use {le}

  abbrev pub compare_time : T → T → Ordering
  compare_time a b = if le a b then (if le b a then Ordering.eq else Ordering.lt) else Ordering.gt

  -- Higher priority first, then the older, then by the task's id.
  abbrev pub compare_queued : QueuedTask T → QueuedTask T → Ordering
  compare_queued a b =
      or_else (compare_ℕ (priority_index b.priority) (priority_index a.priority))
        (or_else (compare_time a.enqueued_at b.enqueued_at) (compare_text a.task_id b.task_id))

  -- In front of the first element that it does not follow strictly, so equal elements keep their
  -- order.
  unfoldable pub insert_sorted : QueuedTask T → List (QueuedTask T) → List (QueuedTask T)
  insert_sorted x [] = x ∷ []
  insert_sorted x (y ∷ ys) =
      let later = insert_sorted x ys in
      if is_greater (compare_queued x y) then y ∷ later else x ∷ y ∷ ys

  unfoldable pub sort_queued : List (QueuedTask T) → List (QueuedTask T)
  unfolding insert_sorted
  sort_queued [] = []
  sort_queued (x ∷ xs) = insert_sorted x (sort_queued xs)
