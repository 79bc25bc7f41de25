-- ===== src/Scheduler/Models/Laws.antt =====
-- What the selection of a model promises.
use mathlib.Core.List.{Memᴰ}
use mathlib.Core.List.Memᴰ
use othala.Base.{
  ℕ, ◌≤◌, ◌<◌, ◌≡◌, refl, subst, ap, ◌∙◌, ◌↔◌, inl, inr, true, false, not, Option, some, none, List,
  [], ◌∷◌, arith, find-some, find-none, mem-filter, contains, contains_iff, Bool-cases,
  Option-cases, All, All-mem, All-weaken, opt_beq, unwrap_or, ◌==◌, mem-cons,
}
use othala.Base.Assoc.{Assoc, get}
use othala.Core.Task.{ModelKind, model_eq, model_beq_iff}
use othala.Scheduler.{ModelAvailability}
use othala.Scheduler.Models.{
  first_of_each, is_open, available_models_in_priority_order, limit_of, model_has_capacity,
  preferred_in, fall_back, select_model_with_capacity,
}

preferred_in-some :
    (wanted : Option ModelKind) (available : List ModelKind) {m : ModelKind}
    → preferred_in wanted available ≡ some m
    → Memᴰ m available
preferred_in-some none available h = cc
preferred_in-some (some p) available {m} h = elim (Bool-cases (contains available p)) [
  | inl known ↦
      let same : p ≡ m = ground arith in
      subst (λ x. Memᴰ x available) same ((contains_iff available p).0 known)
  | inr unknown ↦ ground arith
]

module _ (available : List ModelKind) (counts limits : Assoc ModelKind ℕ) where
  abbrev HasRoom : ModelKind → Type 0
  HasRoom m = unwrap_or (get counts m) 0 < limit_of limits m

  capacity_iff : (m : ModelKind) → (model_has_capacity m counts limits ≡ true) ↔ HasRoom m
  unfolding model_has_capacity
  capacity_iff m = ground arith

  fall_back-some :
      (preferred : Option ModelKind) {m : ModelKind}
      → fall_back preferred available counts limits ≡ some m
      → Memᴰ m available × HasRoom m
  fall_back-some preferred {m} h =
      let (room, there) = find-some _ _ h in
      let (known, _) = (mem-filter (λ x. not (opt_beq (some x) preferred)) available).0 there in
      (known, (capacity_iff m).0 room)

  fall_back-none :
      (preferred : Option ModelKind) {m : ModelKind}
      → fall_back preferred available counts limits ≡ none
      → Memᴰ m available
      → opt_beq (some m) preferred ≡ false
      → model_has_capacity m counts limits ≡ false
  fall_back-none preferred {m} h there other =
      All-mem _ _ (find-none _ _ h)
        ((mem-filter (λ x. not (opt_beq (some x) preferred)) available).1 (there, ap not other))

  module _ (wanted : Option ModelKind) where
    abbrev preferred : Option ModelKind
    preferred = preferred_in wanted available

    -- The model that is selected is available and below its limit.
    pub select_model-some :
        {m : ModelKind}
        → select_model_with_capacity wanted available counts limits ≡ some m
        → Memᴰ m available × HasRoom m
    unfolding select_model_with_capacity
    select_model-some {m} h = elim (Option-cases preferred) [
      | inl e ↦ fall_back-some preferred (ground arith)
      | inr (p, e) ↦ elim (Bool-cases (model_has_capacity p counts limits)) [
        | inl room ↦
            let same : p ≡ m = ground arith in
            (
              preferred_in-some wanted available (e ∙ ap some same),
              (capacity_iff m).0 (subst (λ x. model_has_capacity x counts limits ≡ true) same room),
            )
        | inr full ↦ fall_back-some preferred (ground arith)
      ]
    ]

    none_has_room :
        {m : ModelKind}
        → select_model_with_capacity wanted available counts limits ≡ none
        → Memᴰ m available
        → model_has_capacity m counts limits ≡ false
    unfolding select_model_with_capacity
    none_has_room {m} h there = elim (Option-cases preferred) [
      | inl e ↦ fall_back-none preferred (ground arith) there (rw e refl)
      | inr (p, e) ↦ elim (Bool-cases (model_has_capacity p counts limits)) [
        | inl room ↦ ground arith
        | inr full ↦ elim (Bool-cases (m == p)) [
          | inl same ↦ rw ((model_beq_iff m p).0 same) full
          | inr other ↦ fall_back-none preferred (ground arith) there (rw e other)
        ]
      ]
    ]

    full_of :
        (m : ModelKind)
        → model_has_capacity m counts limits ≡ false
        → limit_of limits m ≤ unwrap_or (get counts m) 0
    unfolding model_has_capacity
    full_of m h = ground arith

    -- If none is selected, every available model is at its limit.
    pub select_model-none :
        select_model_with_capacity wanted available counts limits ≡ none
        → All (λ m. limit_of limits m ≤ unwrap_or (get counts m) 0) available
    select_model-none h = All-weaken _ available (λ m there. full_of m (none_has_room h there))

mem-first_of_each :
    (seen enabled : List ModelKind) (m : ModelKind)
    → Memᴰ m (first_of_each seen enabled) ↔ (Memᴰ m enabled × (contains seen m ≡ false))
unfolding first_of_each
mem-first_of_each seen [] m = (λ h. absurd (Memᴰ.not-nil h), λ h. h.0)
mem-first_of_each seen (x ∷ rest) m = elim (Bool-cases (contains seen x)) [
  | inl old ↦
      rw old
        (ground (arith, mem-first_of_each seen rest m, mem-cons m x rest, old, model_beq_iff m x))
  | inr new ↦ rw new (
      ground (
        arith,
        mem-first_of_each (x ∷ seen) rest m,
        mem-cons m x rest,
        mem-cons m x (first_of_each (x ∷ seen) rest),
        new,
        model_beq_iff m x,
      ))
]

-- The models that are open to tasks are those that are enabled and not reported as unavailable by
-- the last report on them.
pub mem-available_models :
    (enabled : List ModelKind) (availability : List ModelAvailability) (m : ModelKind)
    → Memᴰ m (available_models_in_priority_order enabled availability)
      ↔ (Memᴰ m enabled × (is_open availability m ≡ true))
unfolding available_models_in_priority_order
mem-available_models enabled availability m = ground (
  arith,
  mem-filter (is_open availability) (first_of_each [] enabled) {a = m},
  mem-first_of_each [] enabled m,
)
