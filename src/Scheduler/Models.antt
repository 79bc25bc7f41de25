-- ===== src/Scheduler/Models.antt =====
-- Which models are open to a task, and which one it gets.
pub mod Laws
use othala.Base.{
  ℕ, Bool, true, false, not, ◌&&◌, Option, some, none, List, [], ◌∷◌, ltb, filter, find,
  if◌then◌else◌, ◌==◌, contains, opt_beq, unwrap_or,
}
use othala.Base.Assoc.{Assoc, get, insert}
use othala.Core.Task.{ModelKind, model_eq}
use othala.Scheduler.{ModelAvailability, usize_max}

-- The loop that fills `explicit_availability`: a later entry overrides an earlier one.
unfoldable pub explicit_availability :
    Assoc ModelKind Bool → List ModelAvailability → Assoc ModelKind Bool
explicit_availability map [] = map
explicit_availability map (status ∷ rest) =
    explicit_availability (insert map status.model status.available) rest

-- `filter(|model| seen.insert(*model))`: the first of each model.
unfoldable pub first_of_each : List ModelKind → List ModelKind → List ModelKind
first_of_each seen [] = []
first_of_each seen (m ∷ rest) =
    let later = first_of_each (if contains seen m then seen else m ∷ seen) rest in
    if contains seen m then later else m ∷ later

abbrev pub is_open : List ModelAvailability → ModelKind → Bool
is_open availability m = unwrap_or (get (explicit_availability [] availability) m) true

unfoldable pub available_models_in_priority_order :
    List ModelKind → List ModelAvailability → List ModelKind
unfolding first_of_each explicit_availability
available_models_in_priority_order enabled availability =
    filter (is_open availability) (first_of_each [] enabled)

abbrev pub limit_of : Assoc ModelKind ℕ → ModelKind → ℕ
limit_of per_model_limit m = unwrap_or (get per_model_limit m) usize_max

unfoldable pub model_has_capacity : ModelKind → Assoc ModelKind ℕ → Assoc ModelKind ℕ → Bool
model_has_capacity m model_counts per_model_limit =
    ltb (unwrap_or (get model_counts m) 0) (limit_of per_model_limit m)

-- `preferred_model.filter(|model| available_models.contains(model))`
abbrev pub preferred_in : Option ModelKind → List ModelKind → Option ModelKind
preferred_in none available = none
preferred_in (some m) available = if contains available m then some m else none

-- The fallback: the first available model with capacity, the preferred one left out.
abbrev pub fall_back :
    Option ModelKind → List ModelKind → Assoc ModelKind ℕ → Assoc ModelKind ℕ → Option ModelKind
fall_back preferred available model_counts per_model_limit =
    find (λ m. model_has_capacity m model_counts per_model_limit)
      (filter (λ m. not (opt_beq (some m) preferred)) available)

unfoldable pub select_model_with_capacity :
    (preferred_model : Option ModelKind) (available_models : List ModelKind)
    (model_counts per_model_limit : Assoc ModelKind ℕ)
    → Option ModelKind
unfolding model_has_capacity
select_model_with_capacity preferred_model available model_counts per_model_limit =
    let preferred = preferred_in preferred_model available in
    let other = fall_back preferred available model_counts per_model_limit in
    elim preferred [
      | some m ↦ if model_has_capacity m model_counts per_model_limit then some m else other
      | none ↦ other
    ]
