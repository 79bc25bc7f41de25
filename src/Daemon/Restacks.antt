-- ===== src/Daemon/Restacks.antt =====
-- How the daemon paces the restacks that it tries again.
use othala.Base.{
  ℕ, ◌≡◌, refl, ◌∙◌, ap, false, Option, none, some, List, [], ◌∷◌, String, if◌then◌else◌, string_eq,
  ◌==◌, ==_refl,
}
use othala.Base.Assoc.{Assoc, get, get-insert, get-remove}
use othala.Core.Task.{TaskId}
use othala.Daemon.{RestackRetryState, next_for, keep, schedule_restack_retry}

-- The pace that the constants describe: three tries, 5, 10 and 20 seconds apart, then giving up, and
-- then the same again.
pub data Phase : Type 0 where
  idle once twice thrice : Phase

abbrev pub following : Phase → Phase
following idle = once
following once = twice
following twice = thrice
following thrice = idle

abbrev pub attempt : {T : Type 0} → ℕ → ℕ → T → RestackRetryState T
attempt n secs now = record {
  attempts = n;
  max_retries = 3;
  last_attempt = now;
  backoff_secs = secs;
}

module _ {T : Type 0} where
  -- What is kept of the task in a phase that was entered at an instant.
  abbrev pub entry_of : Phase → T → Option (RestackRetryState T)
  entry_of idle at = none
  entry_of once at = some (attempt 1 5 at)
  entry_of twice at = some (attempt 2 10 at)
  entry_of thrice at = some (attempt 3 20 at)

  -- What the tries at some instants are told, one after the other, by the pace.
  abbrev pub pace : Phase → List T → List (Option (RestackRetryState T))
  pace phase [] = []
  pace phase (now ∷ later) = entry_of (following phase) now ∷ pace (following phase) later

  -- The same by the code, and the map it leaves.
  unfoldable pub schedule_all :
      Assoc String (RestackRetryState T)
      → TaskId
      → List T
      → List (Option (RestackRetryState T)) × Assoc String (RestackRetryState T)
  unfolding schedule_restack_retry
  schedule_all retries task_id [] = ([], retries)
  schedule_all retries task_id (now ∷ later) =
      let (answer, kept) = schedule_restack_retry retries task_id now in
      let (answers, last) = schedule_all kept task_id later in (answer ∷ answers, last)

  next_for-entry_of :
      (phase : Phase) (at now : T)
      → next_for (entry_of phase at) now ≡ entry_of (following phase) now
  next_for-entry_of idle at now = refl
  next_for-entry_of once at now = refl
  next_for-entry_of twice at now = refl
  next_for-entry_of thrice at now = refl

  -- The map afterwards: the answer for the task, and what it held for the others.
  get-keep :
      (retries : Assoc String (RestackRetryState T)) (task_id other : String)
      (state : Option (RestackRetryState T))
      → get (keep retries task_id state).1 other
        ≡ (if task_id == other then state else get retries other)
  get-keep retries task_id other none = get-remove retries task_id other
  get-keep retries task_id other (some s) = get-insert retries task_id other s

  answer-keep :
      (retries : Assoc String (RestackRetryState T)) (task_id : String)
      (state : Option (RestackRetryState T))
      → (keep retries task_id state).0 ≡ state
  answer-keep retries task_id none = refl
  answer-keep retries task_id (some s) = refl

  -- From any phase of the pace, the tries of a task are told what the pace says (the number of the
  -- try and the seconds until the next, or nothing when it is given up), however many they are and
  -- whenever they come; what is kept of the other tasks does not change.
  pub schedule_all-pace :
      (retries : Assoc String (RestackRetryState T)) (task_id : String) (phase : Phase) (at : T)
      (nows : List T)
      → get retries task_id ≡ entry_of phase at
      → ((schedule_all retries task_id nows).0 ≡ pace phase nows)
        × ((other : String)
            → (task_id == other) ≡ false
            → get (schedule_all retries task_id nows).1 other ≡ get retries other)
  unfolding schedule_all schedule_restack_retry
  schedule_all-pace retries task_id phase at [] here = (refl, λ other apart. refl)
  schedule_all-pace retries task_id phase at (now ∷ later) here =
      let state = next_for (get retries task_id) now in
      let told : state ≡ entry_of (following phase) now =
        ap (λ o. next_for o now) here ∙ next_for-entry_of phase at now in
      let kept = (keep retries task_id state).1 in
      let there : get kept task_id ≡ entry_of (following phase) now =
        get-keep retries task_id task_id state ∙ rw (==_refl task_id) told in
      let (answers, others) = schedule_all-pace kept task_id (following phase) now later there in
      (
        (λ i. (answer-keep retries task_id state ∙ told) i ∷ answers i),
        λ other apart. others other apart ∙ get-keep retries task_id other state ∙ rw apart refl,
      )
