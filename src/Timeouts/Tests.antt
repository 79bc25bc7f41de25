-- ===== src/Timeouts/Tests.antt =====
-- The theorems about deadlines at one tracker, with instants in seconds.
use mathlib.Core.List.{Memᴰ}
use othala.Base.{
  ok, ◌^◌, arith, ℕ, suc, ◌+◌, ◌-◌, ◌≡◌, ◌↔◌, refl, true, not, Option, none, some, [], ◌∷◌, String,
  string_eq, ℤ, pos, negsuc, ltb, leb, if◌then◌else◌,
}
use othala.Base.Assoc.{get, insert, KeysOnce}
use othala.Core.Seconds.{seconds}
use othala.Timeouts.{
  extend_deadline, TimeoutEntry, grace_period, kill, TimeoutTracker, default_config, is_tracked,
  check_timeouts_at,
}
use othala.Timeouts.Sweep.{survivor}
use othala.Timeouts.Extend.{extend_deadline-wraps}
use othala.Timeouts.Laws.{get-check_timeouts_at, overdue-killed}

abbrev shift_secs : ℕ → ℤ → ℕ
shift_secs t (pos n) = t + n
shift_secs t (negsuc n) = t - suc n

abbrev between : ℕ → ℕ → ℤ
between a b = if ltb a b then negsuc (b - a - 1) else pos (a - b)

abbrev entry_of : String → ℕ → Option ℕ → TimeoutEntry ℕ
entry_of id deadline grace = record {
  task_id = id;
  started_at = 0;
  deadline = deadline;
  state_at_start = "Chatting";
  grace_expires = grace;
}

abbrev tracker : TimeoutTracker ℕ
tracker = record {
  entries = ("T1", entry_of "T1" 100 none) ∷ ("T2", entry_of "T2" 50 (some 110)) ∷ [];
  config = default_config;
}

tracker-KeysOnce : KeysOnce tracker.entries
tracker-KeysOnce = ((refl, tt), (tt, tt))

checked_actions :
    (check_timeouts_at shift_secs between tracker 120).0 ≡ grace_period "T1" ∷ kill "T2" ∷ []
unfolding check_timeouts_at
checked_actions = refl

get-check_timeouts_at_example :
    get (check_timeouts_at shift_secs between tracker 120).1.entries "T2"
    ≡ survivor shift_secs between default_config 120 (get tracker.entries "T2")
get-check_timeouts_at_example =
    get-check_timeouts_at shift_secs between tracker 120 "T2" tracker-KeysOnce

found_t1 : get tracker.entries "T1" ≡ some (entry_of "T1" 100 none)
unfolding get
found_t1 = refl

overdue-killed_example :
    let (actions, warned) = check_timeouts_at shift_secs between tracker 120 in
    let (later_actions, after) = check_timeouts_at shift_secs between warned 200 in
    let over = leb (120 + 60) 200 in
    (¬ Memᴰ (kill "T1") actions)
    × (is_tracked shift_secs warned "T1" ≡ true)
    × (Memᴰ (kill "T1") later_actions ↔ (over ≡ true))
    × (is_tracked shift_secs after "T1" ≡ not over)
overdue-killed_example =
    overdue-killed shift_secs between tracker "T1" (entry_of "T1" 100 none) 120 200 tracker-KeysOnce
      found_t1 refl

-- Instants that go back to 0 and no further.
abbrev checked_secs : ℕ → ℤ → Option ℕ
checked_secs t (pos n) = some (t + n)
checked_secs t (negsuc n) = if ltb n t then some (t - suc n) else none

extend_deadline-wraps_example :
    extend_deadline checked_secs between tracker "T1" (2 ^ 64 - 10)
    ≡ some (
        ok (record tracker {
          entries = insert tracker.entries "T1" record (entry_of "T1" 100 none) { deadline = 90 };
        }))
extend_deadline-wraps_example =
    extend_deadline-wraps checked_secs between tracker "T1" (entry_of "T1" 100 none) 100 9 found_t1
      refl (omega arith) (omega arith) (omega arith)
