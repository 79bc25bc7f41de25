-- ===== src/Timeouts/Laws.antt =====
-- What a check of the deadlines does to each task, and how a task that is overdue ends.
use mathlib.Core.List.{Memᴰ}
use mathlib.Core.Bool.{false≢true}
use mathlib.Core.Option.{some_inj}
use othala.Base.{
  true, false, not, Option, none, some, List, [], ◌∷◌, String, string_eq, ◌==◌, contains,
  if◌then◌else◌, is_some, ℤ, as_i64, ◌≡◌, refl, sym, ap, ◌∙◌, ◌↔◌, inl, inr, arith, Bool-cases,
  Option-cases, mem-append, All, mem-single,
}
use othala.Base.Assoc.{Assoc, get, remove, KeysOnce, insert-KeysOnce, remove-KeysOnce}
use othala.Core.Time.{Chrono}
use othala.Timeouts.{
  TimeoutConfig, TimeoutEntry, kill, TimeoutTracker, start_tracking, stop_tracking, is_tracked,
  check_entry, check_entries, remove_all, check_timeouts_at,
}
use othala.Timeouts.Sweep.{
  contains-append, is_over, is_overdue, granted, survivor, is_doomed, check_entry-to_kill,
  check_entry-actions, get-check_entries, to_kill-check_entries, get-remove_all,
}

module _ {T : Type 0} (shift : T → ℤ → T) (secs_since : T → T → ℤ) ⦃chrono : Chrono T⦄ where
  -- What a check at `now` leaves of each task in a tracker that holds each task once: a task whose
  -- grace period is over is gone, an overdue task has a grace period that starts at `now`, and any
  -- other is as it was.
  pub get-check_timeouts_at :
      (self : TimeoutTracker T) (now : T) (id : String)
      → KeysOnce self.entries
      → get (check_timeouts_at shift secs_since self now).1.entries id
        ≡ survivor shift secs_since self.config now (get self.entries id)
  unfolding check_timeouts_at
  get-check_timeouts_at self now id once =
      let entries = (check_entries shift secs_since self.config now self.entries).0 in
      let ids = (check_entries shift secs_since self.config now self.entries).2 in
      get-remove_all shift secs_since entries ids id
      ∙ rw
          (
            to_kill-check_entries shift secs_since self.config now self.entries id once,
            get-check_entries shift secs_since self.config now self.entries id,
          )
          (kept (get self.entries id))
    where
      kept :
          (found : Option (TimeoutEntry T))
          → (if is_doomed shift secs_since now found then none else (elim found [
            | none ↦ none
            | some entry ↦ some (granted shift secs_since self.config now entry)
          ]))
            ≡ survivor shift secs_since self.config now found
      kept none = refl
      kept (some entry) = refl

  kills-check_entries :
      (config : TimeoutConfig) (now : T) (entries : Assoc String (TimeoutEntry T)) (id : String)
      → Memᴰ (kill id) (check_entries shift secs_since config now entries).1
        ↔ (contains (check_entries shift secs_since config now entries).2 id ≡ true)
  unfolding check_entries
  kills-check_entries config now [] id = (λ m. elim m [ ], λ h. absurd (ground arith))
  kills-check_entries config now ((found, entry) ∷ rest) id =
      let (from, to) = kills-check_entries config now rest id in
      let actions = (check_entry shift secs_since config now found entry).1 in
      let actions' = (check_entries shift secs_since config now rest).1 in
      let split =
        contains-append (check_entry shift secs_since config now found entry).2
          (check_entries shift secs_since config now rest).2 id in
      let named = check_entry-to_kill shift secs_since config now found entry in
      elim (check_entry-actions shift secs_since config now found entry) [
        | inl (over, e) ↦
            let here : contains (check_entry shift secs_since config now found entry).2 id
                ≡ (id == found) =
              rw (named, over) (ground arith) in
            (
              λ m. elim ((mem-append actions actions').0 m) [
                | inl m' ↦
                    let same : id ≡ found = kill_injective ((mem-single _ _).0 (rw e at m')) in
                    ground (arith, split, here, (string_eq.same_iff id found).1 same)
                | inr m' ↦ ground (arith, split, from m')
              ],
              λ h. (mem-append actions actions').1 (elim (Bool-cases (id == found)) [
                | inl hit ↦ inl (rw e (Memᴰ.head (ap kill ((string_eq.same_iff id found).0 hit))))
                | inr miss ↦ inr (to (ground (arith, split, here, miss, h)))
              ]),
            )
        | inr (early, none_here) ↦
            let here : contains (check_entry shift secs_since config now found entry).2 id ≡ false =
              rw (named, early) refl in
            (
              λ m. elim ((mem-append actions actions').0 m) [
                | inl m' ↦ absurd (none_here id m')
                | inr m' ↦ ground (arith, split, from m')
              ],
              λ h. (mem-append actions actions').1 (inr (to (ground (arith, split, here, h)))),
            )
      ]
    where
      kill_injective : {a b : String} → kill a ≡ kill b → a ≡ b
      kill_injective h = ground arith

  -- In a tracker that holds each task once, a check kills exactly the tasks that it finds tracked
  -- with their grace period over.
  pub kills-check_timeouts_at :
      (self : TimeoutTracker T) (now : T) (id : String)
      → KeysOnce self.entries
      → Memᴰ (kill id) (check_timeouts_at shift secs_since self now).0 ↔ (
          (entry : TimeoutEntry T) × (get self.entries id ≡ some entry)
          × (is_over shift secs_since now entry ≡ true))
  unfolding check_timeouts_at
  kills-check_timeouts_at self now id once =
      let (from, to) = kills-check_entries self.config now self.entries id in
      let doomed = to_kill-check_entries shift secs_since self.config now self.entries id once in
      (
        λ m. elim (Option-cases (get self.entries id)) [
          | inl absent ↦ absurd (false≢true (sym (rw absent at doomed) ∙ from m))
          | inr (entry, e) ↦ (entry, e, sym (rw e at doomed) ∙ from m)
        ],
        λ (entry, e, over). to (rw e at doomed ∙ over),
      )

  check_entries-KeysOnce :
      (config : TimeoutConfig) (now : T) (entries : Assoc String (TimeoutEntry T))
      → KeysOnce entries
      → KeysOnce (check_entries shift secs_since config now entries).0
  unfolding check_entries
  check_entries-KeysOnce config now [] once = tt
  check_entries-KeysOnce config now ((found, entry) ∷ rest) once =
      (apart found rest once.0, check_entries-KeysOnce config now rest once.1)
    where
      apart :
          (key : String) (later : Assoc String (TimeoutEntry T))
          → All (λ e. (key == e.0) ≡ false) later
          → All (λ e. (key == e.0) ≡ false) (check_entries shift secs_since config now later).0
      apart key [] h = tt
      apart key ((other, _) ∷ later) h = (h.0, apart key later h.1)

  remove_all-KeysOnce :
      (entries : Assoc String (TimeoutEntry T)) (ids : List String)
      → KeysOnce entries
      → KeysOnce (remove_all shift secs_since entries ids)
  unfolding remove_all
  remove_all-KeysOnce entries [] once = once
  remove_all-KeysOnce entries (id ∷ ids) once =
      remove_all-KeysOnce (remove entries id) ids (remove-KeysOnce entries id once)

  -- In a tracker that holds each task once, starting, stopping and checking leave it so.
  pub operations-KeysOnce :
      (self : TimeoutTracker T) (id state : String) (now : T)
      → KeysOnce self.entries
      → KeysOnce (start_tracking shift self id state now).1.entries
        × KeysOnce (stop_tracking shift self id).1.entries
        × KeysOnce (check_timeouts_at shift secs_since self now).1.entries
  unfolding start_tracking stop_tracking check_timeouts_at
  operations-KeysOnce self id state now once = (
    insert-KeysOnce self.entries id _ once,
    remove-KeysOnce self.entries id once,
    remove_all-KeysOnce _ (check_entries shift secs_since self.config now self.entries).2
        (check_entries-KeysOnce self.config now self.entries once),
  )

  survivor_overdue :
      (config : TimeoutConfig) (now : T) (entry : TimeoutEntry T)
      → is_overdue shift secs_since now entry ≡ true
      → survivor shift secs_since config now (some entry)
        ≡ some record entry { grace_expires = some (shift now (as_i64 config.grace_period_secs)) }
  survivor_overdue config now entry overdue = ground (arith, overdue)

  -- A task that is overdue has no grace period, which could be over.
  overdue_early :
      (now : T) (entry : TimeoutEntry T)
      → is_overdue shift secs_since now entry ≡ true
      → is_over shift secs_since now entry ≡ true
      → ⊥
  overdue_early now entry overdue over = ground (arith, overdue, over)

  -- In a tracker that holds each task once, a tracked task that a check at `first` finds overdue is
  -- not killed by that check and stays tracked. A check at `second` after it tells the caller to kill
  -- the task, and stops tracking it, exactly if the grace period that started at `first` is over then.
  pub overdue-killed :
      (self : TimeoutTracker T) (id : String) (entry : TimeoutEntry T) (first second : T)
      → KeysOnce self.entries
      → get self.entries id ≡ some entry
      → is_overdue shift secs_since first entry ≡ true
      → let (actions, warned) = check_timeouts_at shift secs_since self first in
        let (later_actions, after) = check_timeouts_at shift secs_since warned second in
        let over = chrono.le (shift first (as_i64 self.config.grace_period_secs)) second in
        (¬ Memᴰ (kill id) actions)
        × (is_tracked shift warned id ≡ true)
        × (Memᴰ (kill id) later_actions ↔ (over ≡ true))
        × (is_tracked shift after id ≡ not over)
  overdue-killed self id entry first second once found overdue =
      let warned = (check_timeouts_at shift secs_since self first).1 in
      let grace = shift first (as_i64 self.config.grace_period_secs) in
      let (_, _, still_once) = operations-KeysOnce self id "" first once in
      let after : get warned.entries id ≡ some record entry { grace_expires = some grace } =
        get-check_timeouts_at self first id once
        ∙ ap (λ e. survivor shift secs_since self.config first e) found
        ∙ survivor_overdue self.config first entry overdue in
      let later : get (check_timeouts_at shift secs_since warned second).1.entries id
          ≡ survivor shift secs_since warned.config second
              (some record entry { grace_expires = some grace }) =
        get-check_timeouts_at warned second id still_once
        ∙ ap (λ e. survivor shift secs_since warned.config second e) after in
      let (kills, kills_back) = kills-check_timeouts_at warned second id still_once in
      (
        λ m.
            let (e, there, over) = (kills-check_timeouts_at self first id once).0 m in
            overdue_early first entry overdue
              (ap (is_over shift secs_since first) (some_inj.0 (sym found ∙ there)) ∙ over),
        ap is_some after,
        (
          λ m.
              let (e, there, over) = kills m in
              ap (is_over shift secs_since second) (some_inj.0 (sym after ∙ there)) ∙ over,
          λ over. kills_back (record entry { grace_expires = some grace }, after, over),
        ),
        ap is_some later ∙ elim (Bool-cases (chrono.le grace second)) [
          | inl over ↦ rw over refl
          | inr early ↦ rw early refl
        ],
      )
