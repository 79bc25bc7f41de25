-- ===== src/Retry/Select/Facts.antt =====
-- What `pick_next_model_with_health` chooses.
use mathlib.Core.List.{Memᴰ}
use mathlib.Core.List.Memᴰ
use othala.Base.{
  ℕ, ◌≤◌, ◌≡◌, refl, sym, ap, subst, ◌∙◌, inl, inr, true, false, Option, some, none, List, [], ◌∷◌,
  arith, Bool-cases, Option-cases, mem-filter, filter-eq-nil, filter-eq-cons, is_some,
}
use othala.Core.Time.{Chrono}
use othala.Core.Task.{ModelKind, model_eq, Task}
use othala.Retry.{pick_next_model}
use othala.Retry.Evaluate.{Candidate, pick_next_model-Candidate, pick_next_model-none}
use othala.Retry.Health.{
  HealthState, healthy, degraded, cooldown, ModelHealthTracker, health_state, last_failure_of,
}
use othala.Retry.Select.{
  choose, in_state, ordered_candidates, is_healthy, is_degraded, is_cooldown, opt_le, min_from,
  pick_next_model_with_health,
}
use othala.Retry.Select.Candidates.{mem-ordered_candidates}

abbrev pub rank : HealthState → ℕ
rank healthy = 0
rank degraded = 1
rank cooldown = 2

module _ {T : Type 0} ⦃chrono : Chrono T⦄ where
  opt_le_refl : (a : Option T) → opt_le a a ≡ true
  opt_le_refl none = refl
  opt_le_refl (some a) = chrono.le_refl a

  opt_le_trans : (a b c : Option T) → opt_le a b ≡ true → opt_le b c ≡ true → opt_le a c ≡ true
  opt_le_trans none b c h k = refl
  opt_le_trans (some a) none c h k = cc
  opt_le_trans (some a) (some b) none h k = cc
  opt_le_trans (some a) (some b) (some c) h k = chrono.le_trans a b c h k

  opt_le_total : (a b : Option T) → opt_le a b ≡ false → opt_le b a ≡ true
  opt_le_total none b h = cc
  opt_le_total (some a) none h = refl
  opt_le_total (some a) (some b) h = elim (chrono.le_total a b) [ inl e ↦ cc | inr e ↦ e ]

  module _ (key : ModelKind → Option T) where
    min_from-mem :
        (best : ModelKind) (ms : List ModelKind) → Memᴰ (min_from key best ms) (best ∷ ms)
    unfolding min_from
    min_from-mem best [] = Memᴰ.head refl
    min_from-mem best (m ∷ ms) = elim (Bool-cases (opt_le (key best) (key m))) [
      | inl keep ↦ rw keep (elim (Memᴰ.cases_cons (min_from-mem best ms)) [
        | inl e ↦ Memᴰ.head e
        | inr later ↦ Memᴰ.tail (Memᴰ.tail later)
      ])
      | inr take ↦ rw take (Memᴰ.tail (min_from-mem m ms))
    ]

    min_from-best :
        (best : ModelKind) (ms : List ModelKind)
        → opt_le (key (min_from key best ms)) (key best) ≡ true
    unfolding min_from
    min_from-best best [] = opt_le_refl (key best)
    min_from-best best (m ∷ ms) = elim (Bool-cases (opt_le (key best) (key m))) [
      | inl keep ↦ rw keep (min_from-best best ms)
      | inr take ↦ rw take (opt_le_trans _ _ _ (min_from-best m ms) (opt_le_total _ _ take))
    ]

    min_from_rest :
        (best : ModelKind) (ms : List ModelKind) {c : ModelKind}
        → Memᴰ c ms
        → opt_le (key (min_from key best ms)) (key c) ≡ true
    unfolding min_from
    min_from_rest best [] there = elim there [ ]
    min_from_rest best (m ∷ ms) {c} there = elim (Bool-cases (opt_le (key best) (key m))) [
      | inl keep ↦ rw keep (elim (Memᴰ.cases_cons there) [
        | inl e ↦ rw e (opt_le_trans _ _ _ (min_from-best best ms) keep)
        | inr later ↦ min_from_rest best ms later
      ])
      | inr take ↦ rw take (elim (Memᴰ.cases_cons there) [
        | inl e ↦ rw e (min_from-best m ms)
        | inr later ↦ min_from_rest m ms later
      ])
    ]

  least :
      (key : ModelKind → Option T) (best : ModelKind) (ms : List ModelKind) {c : ModelKind}
      → Memᴰ c (best ∷ ms)
      → opt_le (key (min_from key best ms)) (key c) ≡ true
  least key best ms there = elim (Memᴰ.cases_cons there) [
    | inl e ↦ rw e (min_from-best key best ms)
    | inr later ↦ min_from_rest key best ms later
  ]

  module _ (tracker : ModelHealthTracker T) (now : T) (xs : List ModelKind) where
    abbrev state : ModelKind → HealthState
    state c = health_state tracker c now

    -- A choice comes from the list, no other is in better health, and among models in cooldown no
    -- other failed longer ago.
    pub record IsChoice (m : ModelKind) : Type 0 where
      pub placed : Memᴰ m xs
      pub best : (c : ModelKind) → Memᴰ c xs → rank (state m) ≤ rank (state c)
      pub oldest :
          (c : ModelKind)
          → state m ≡ cooldown
          → Memᴰ c xs
          → opt_le (last_failure_of tracker m) (last_failure_of tracker c) ≡ true

    all_cold :
        (c : ModelKind)
        → is_healthy (state c) ≡ false
        → is_degraded (state c) ≡ false
        → is_cooldown (state c) ≡ true
    all_cold c h d = ground arith

    choose-IsChoice :
        {m : ModelKind} (hs ds cs : List ModelKind)
        → in_state is_healthy tracker now xs ≡ hs
        → in_state is_degraded tracker now xs ≡ ds
        → in_state is_cooldown tracker now xs ≡ cs
        → choose tracker hs ds cs ≡ some m
        → IsChoice m
    choose-IsChoice {m} (a ∷ r) ds cs eh ed ec h =
        let same : a ≡ m = ground arith in
        let (placed, good) =
          filter-eq-cons (λ c. is_healthy (state c)) xs (eh ∙ ap (λ b. b ∷ r) same) in
        record {
          placed = placed;
          best = λ c there. ground (arith, good);
          oldest = λ c cold there. ground (arith, good, cold);
        }
    choose-IsChoice {m} [] (a ∷ r) cs eh ed ec h =
        let same : a ≡ m = ground arith in
        let (placed, good) =
          filter-eq-cons (λ c. is_degraded (state c)) xs (ed ∙ ap (λ b. b ∷ r) same) in
        record {
          placed = placed;
          best = λ c there.
              ground (arith, good, filter-eq-nil (λ d. is_healthy (state d)) xs eh there);
          oldest = λ c cold there. ground (arith, good, cold);
        }
    choose-IsChoice {m} [] [] [] eh ed ec h = ground arith
    choose-IsChoice {m} [] [] (a ∷ r) eh ed ec h =
        let key = last_failure_of tracker in
        let same : min_from key a r ≡ m = ground arith in
        let cold_of = λ (c : ModelKind) (there : Memᴰ c xs).
          all_cold c (filter-eq-nil (λ d. is_healthy (state d)) xs eh there)
            (filter-eq-nil (λ d. is_degraded (state d)) xs ed there) in
        let (placed, cold) =
          (mem-filter (λ c. is_cooldown (state c)) xs).0
            (subst (Memᴰ m) (sym ec) (subst (λ b. Memᴰ b (a ∷ r)) same (min_from-mem key a r))) in
        record {
          placed = placed;
          best = λ c there. ground (
            arith,
            cold,
            filter-eq-nil (λ d. is_healthy (state d)) xs eh there,
            filter-eq-nil (λ d. is_degraded (state d)) xs ed there,
          );
          oldest = λ c _ there.
              subst (λ b. opt_le (key b) (key c) ≡ true) same
                (least key a r (
                  subst (Memᴰ c) ec
                    ((mem-filter (λ d. is_cooldown (state d)) xs).1 (there, cold_of c there))));
        }

    choose-none :
        (hs ds cs : List ModelKind)
        → in_state is_healthy tracker now xs ≡ hs
        → in_state is_degraded tracker now xs ≡ ds
        → in_state is_cooldown tracker now xs ≡ cs
        → choose tracker hs ds cs ≡ none
        → (c : ModelKind) → ¬ Memᴰ c xs
    choose-none [] [] [] eh ed ec h c there =
        let cold =
          all_cold c (filter-eq-nil (λ d. is_healthy (state d)) xs eh there)
            (filter-eq-nil (λ d. is_degraded (state d)) xs ed there) in
        Memᴰ.not-nil
          (subst (Memᴰ c) ec ((mem-filter (λ d. is_cooldown (state d)) xs).1 (there, cold)))
    choose-none [] [] (a ∷ r) eh ed ec h c there = cc
    choose-none [] (a ∷ r) cs eh ed ec h c there = cc
    choose-none (a ∷ r) ds cs eh ed ec h c there = cc

module _ {T : Type 0} ⦃chrono : Chrono T⦄ (task : Task T) (just_failed : ModelKind)
    (enabled : List ModelKind) (tracker : ModelHealthTracker T) (now : T) where
  abbrev candidates : List ModelKind
  candidates = ordered_candidates task just_failed enabled

  choice :
      {m : ModelKind}
      → pick_next_model_with_health task just_failed enabled tracker now ≡ some m
      → IsChoice tracker now candidates m
  unfolding pick_next_model_with_health
  choice h = choose-IsChoice tracker now candidates _ _ _ refl refl refl h

  -- The chosen model is a candidate, and no candidate is in better health at that instant:
  -- a healthy one is taken before a degraded one, and that before one in cooldown.
  pub pick_next_model_with_health-best :
      {m c : ModelKind}
      → pick_next_model_with_health task just_failed enabled tracker now ≡ some m
      → Candidate task just_failed enabled c
      → Candidate task just_failed enabled m
        × (rank (health_state tracker m now) ≤ rank (health_state tracker c now))
  pick_next_model_with_health-best {m} {c} h candidate =
      let iff = mem-ordered_candidates task just_failed enabled in
      ((iff m).0 (choice h).placed, (choice h).best c ((iff c).1 candidate))

  -- If the chosen model is in cooldown, no candidate has an older last failure.
  pub pick_next_model_with_health-oldest :
      {m c : ModelKind}
      → pick_next_model_with_health task just_failed enabled tracker now ≡ some m
      → health_state tracker m now ≡ cooldown
      → Candidate task just_failed enabled c
      → opt_le (last_failure_of tracker m) (last_failure_of tracker c) ≡ true
  pick_next_model_with_health-oldest {m} {c} h cold candidate =
      (choice h).oldest c cold ((mem-ordered_candidates task just_failed enabled c).1 candidate)

  pick_with_health-none :
      pick_next_model_with_health task just_failed enabled tracker now ≡ none
      → (c : ModelKind) → ¬ Candidate task just_failed enabled c
  unfolding pick_next_model_with_health
  pick_with_health-none h c candidate =
      choose-none tracker now candidates _ _ _ refl refl refl h c
        ((mem-ordered_candidates task just_failed enabled c).1 candidate)

  -- The two selections agree on whether a model is left: the health of the models decides which one
  -- is tried, never whether one is tried.
  pub is_some-pick_next_model_with_health :
      is_some (pick_next_model_with_health task just_failed enabled tracker now)
      ≡ is_some (pick_next_model task just_failed enabled)
  is_some-pick_next_model_with_health =
      elim (Option-cases (pick_next_model_with_health task just_failed enabled tracker now)) [
        | inl e ↦ elim (Option-cases (pick_next_model task just_failed enabled)) [
          | inl e' ↦ rw (e, e')
          | inr (m, e') ↦
              absurd
                (pick_with_health-none e m (pick_next_model-Candidate task just_failed enabled e'))
        ]
        | inr (m, e) ↦ elim (Option-cases (pick_next_model task just_failed enabled)) [
          | inl e' ↦
              let candidate =
                (mem-ordered_candidates task just_failed enabled m).0 (choice e).placed in
              absurd (pick_next_model-none task just_failed enabled e' candidate)
          | inr (m', e') ↦ rw (e, e')
        ]
      ]
