-- ===== src/Timeouts/Sweep.antt =====
-- One round of the loop over the deadlines, and the loop with its late removals.
use mathlib.Core.List.{Memᴰ}
use mathlib.Core.List.Memᴰ
use othala.Base.{
  ℕ, Bool, true, false, ◌||◌, Option, none, some, List, [], ◌∷◌, ◌++◌, String, string_eq, ◌==◌,
  contains, if◌then◌else◌, ℤ, pos, as_i64, leb_ℤ, ◌≡◌, refl, ap, ◌⊎◌, inl, inr, arith, Bool-cases,
  Option-cases, mem-single,
}
use othala.Base.Assoc.{Assoc, get, remove, get-remove, KeysOnce, get-absent}
use othala.Core.Time.{Chrono}
use othala.Timeouts.{
  TimeoutConfig, TimeoutEntry, warn, grace_period, kill, check_deadline, warn_threshold_secs,
  check_entry, check_entries, remove_all,
}

-- The names of the list are in one of the two parts.
pub contains-append :
    (xs ys : List String) (a : String) → contains (xs ++ ys) a ≡ (contains xs a || contains ys a)
contains-append [] ys a = refl
contains-append (x ∷ xs) ys a = ground (arith, contains-append xs ys a)

module _ {T : Type 0} (shift : T → ℤ → T) (secs_since : T → T → ℤ) ⦃chrono : Chrono T⦄ where
  -- The grace period of the task is over.
  abbrev pub is_over : T → TimeoutEntry T → Bool
  is_over now entry = elim entry.grace_expires [
    | none ↦ false
    | some grace_expires ↦ chrono.le grace_expires now
  ]

  -- The task has no grace period yet, and its deadline is not in the future.
  abbrev pub is_overdue : T → TimeoutEntry T → Bool
  is_overdue now entry = elim entry.grace_expires [
    | none ↦ leb_ℤ (secs_since entry.deadline now) (pos 0)
    | some grace_expires ↦ false
  ]

  -- An overdue task gets a grace period.
  abbrev pub granted : TimeoutConfig → T → TimeoutEntry T → TimeoutEntry T
  granted config now entry =
      if is_overdue now entry
      then record entry { grace_expires = some (shift now (as_i64 config.grace_period_secs)) }
      else entry

  -- What a check leaves of a task.
  abbrev pub survivor : TimeoutConfig → T → Option (TimeoutEntry T) → Option (TimeoutEntry T)
  survivor config now none = none
  survivor config now (some entry) =
      if is_over now entry then none else some (granted config now entry)

  -- The task is there and its grace period is over.
  abbrev pub is_doomed : T → Option (TimeoutEntry T) → Bool
  is_doomed now none = false
  is_doomed now (some entry) = is_over now entry

  pub check_entry-granted :
      (config : TimeoutConfig) (now : T) (id : String) (entry : TimeoutEntry T)
      → (check_entry shift secs_since config now id entry).0 ≡ granted config now entry
  unfolding check_entry
  check_entry-granted config now id entry = ground arith

  pub check_entry-to_kill :
      (config : TimeoutConfig) (now : T) (id : String) (entry : TimeoutEntry T)
      → (check_entry shift secs_since config now id entry).2
        ≡ (if is_over now entry then id ∷ [] else [])
  unfolding check_entry
  check_entry-to_kill config now id entry = ground arith

  -- The actions of one round: a kill of the task, or none of any.
  pub check_entry-actions :
      (config : TimeoutConfig) (now : T) (id : String) (entry : TimeoutEntry T)
      → ((is_over now entry ≡ true)
          × ((check_entry shift secs_since config now id entry).1 ≡ kill id ∷ []))
        ⊎ ((is_over now entry ≡ false)
            × ((other : String)
                → Memᴰ (kill other) (check_entry shift secs_since config now id entry).1
                → ⊥))
  unfolding check_entry
  check_entry-actions config now id entry = elim (Option-cases entry.grace_expires) [
    | inr (g, e) ↦ elim (Bool-cases (chrono.le g now)) [
      | inl over ↦ inl (rw (e, over) (refl, refl))
      | inr early ↦ inr (rw (e, early) (refl, λ other m. elim m [ ]))
    ]
    | inl e ↦ inr (
        rw e
          (refl, no_kill (record entry { grace_expires = none }) (secs_since entry.deadline now)))
  ]
    where
      grace≢kill : {a b : String} → kill a ≡ grace_period b → ⊥
      grace≢kill h = ground arith

      warn≢kill : {a b : String} {n : ℕ} → kill a ≡ warn b n → ⊥
      warn≢kill h = ground arith

      no_kill :
          (left : TimeoutEntry T) (remaining : ℤ) (other : String)
          → Memᴰ (kill other) (check_deadline shift secs_since config now id left remaining).1
          → ⊥
      no_kill left remaining other m = elim (Bool-cases (leb_ℤ remaining (pos 0))) [
        | inl due ↦ absurd (grace≢kill ((mem-single _ _).0 (rw due at m)))
        | inr not_due ↦ elim (Bool-cases (leb_ℤ remaining (pos warn_threshold_secs))) [
          | inl soon ↦ absurd (warn≢kill ((mem-single _ _).0 (rw (not_due, soon) at m)))
          | inr late ↦ elim (Memᴰ.not-nil (rw (not_due, late) at m)) [ ]
        ]
      ]

  pub get-check_entries :
      (config : TimeoutConfig) (now : T) (entries : Assoc String (TimeoutEntry T)) (id : String)
      → get (check_entries shift secs_since config now entries).0 id
        ≡ (elim (get entries id) [ none ↦ none | some entry ↦ some (granted config now entry) ])
  unfolding check_entries get
  get-check_entries config now [] id = refl
  get-check_entries config now ((found, entry) ∷ rest) id = elim (Bool-cases (id == found)) [
    | inl hit ↦ rw hit (ap (λ e. some e) (check_entry-granted config now found entry))
    | inr miss ↦ rw miss (get-check_entries config now rest id)
  ]

  pub to_kill-check_entries :
      (config : TimeoutConfig) (now : T) (entries : Assoc String (TimeoutEntry T)) (id : String)
      → KeysOnce entries
      → contains (check_entries shift secs_since config now entries).2 id
        ≡ is_doomed now (get entries id)
  unfolding check_entries get
  to_kill-check_entries config now [] id once = refl
  to_kill-check_entries config now ((found, entry) ∷ rest) id once =
      let split =
        contains-append (check_entry shift secs_since config now found entry).2
          (check_entries shift secs_since config now rest).2 id in
      let here : contains (check_entry shift secs_since config now found entry).2 id
          ≡ (if is_over now entry then id == found else false) =
        rw (check_entry-to_kill config now found entry) (elim (Bool-cases (is_over now entry)) [
          | inl over ↦ rw over (ground arith)
          | inr early ↦ rw early refl
        ]) in
      let later = to_kill-check_entries config now rest id once.1 in
      elim (Bool-cases (id == found)) [
        | inl hit ↦
            let same : id ≡ found = (string_eq.same_iff _ _).0 hit in
            let absent : get rest id ≡ none = rw same (get-absent rest found once.0) in
            rw hit (ground (arith, split, rw hit at here, rw absent at later))
        | inr miss ↦ rw miss (ground (arith, split, rw miss at here, later))
      ]

  pub get-remove_all :
      (entries : Assoc String (TimeoutEntry T)) (ids : List String) (id : String)
      → get (remove_all shift secs_since entries ids) id
        ≡ (if contains ids id then none else get entries id)
  unfolding remove_all
  get-remove_all entries [] id = refl
  get-remove_all entries (first ∷ ids) id =
      let rest = get-remove_all (remove entries first) ids id in
      ground (
        arith,
        rest,
        get-remove entries first id,
        string_eq.same_iff first id,
        string_eq.same_iff id first,
      )
