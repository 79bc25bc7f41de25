-- ===== src/Service/Rules.antt =====
-- Rules for proofs about the methods of the service, one for each kind of call.
use othala.Base.{
  ◌≡◌, sym, ap, subst, Result, ok, err, Action, ◌>>=◌, inl, inr, Result-cases, bind-ok, bind-err,
}
use othala.Store.{Connection, PersistenceError}
use othala.EventLog.{EventLogError}
use othala.Service.{
  ServiceError, persistence, event_log, State, on_store, on_log, from_store, from_log,
}

module _ {ℓ} {Doc F W A : Type 0} where
  -- A last call of the store.
  pub on_store-last :
      (P : Result A (ServiceError Doc) × State Doc F W → Type ℓ)
      (m : Action (Connection Doc F) (PersistenceError Doc) A) (s : State Doc F W)
      → ((a : A) → (m s.store).0 ≡ ok a → P (ok a, record s { store = (m s.store).1 }))
      → ((e : PersistenceError Doc)
          → (m s.store).0 ≡ err e
          → P (err (persistence e), record s { store = (m s.store).1 }))
      → P (on_store m s)
  on_store-last P m s good bad = elim (Result-cases (m s.store).0) [
    | inl (a, h) ↦ subst P (sym (ap (λ r. from_store s (r, (m s.store).1)) h)) (good a h)
    | inr (e, h) ↦ subst P (sym (ap (λ r. from_store s (r, (m s.store).1)) h)) (bad e h)
  ]

  pub on_log-last :
      (P : Result A (ServiceError Doc) × State Doc F W → Type ℓ) (m : Action W EventLogError A)
      (s : State Doc F W)
      → ((a : A) → (m s.disk).0 ≡ ok a → P (ok a, record s { disk = (m s.disk).1 }))
      → ((e : EventLogError)
          → (m s.disk).0 ≡ err e
          → P (err (event_log e), record s { disk = (m s.disk).1 }))
      → P (on_log m s)
  on_log-last P m s good bad = elim (Result-cases (m s.disk).0) [
    | inl (a, h) ↦ subst P (sym (ap (λ r. from_log s (r, (m s.disk).1)) h)) (good a h)
    | inr (e, h) ↦ subst P (sym (ap (λ r. from_log s (r, (m s.disk).1)) h)) (bad e h)
  ]

module _ {ℓ} {Doc F W A B : Type 0} (P : Result B (ServiceError Doc) × State Doc F W → Type ℓ)
    (m : Action (Connection Doc F) (PersistenceError Doc) A)
    (k : A → Action (State Doc F W) (ServiceError Doc) B) (s : State Doc F W) where
  -- A call of the store, and then `k`.
  pub on_store-rule :
      ((a : A) → (m s.store).0 ≡ ok a → P (k a (record s { store = (m s.store).1 })))
      → ((e : PersistenceError Doc)
          → (m s.store).0 ≡ err e
          → P (err (persistence e), record s { store = (m s.store).1 }))
      → P ((on_store m >>= k) s)
  on_store-rule good bad = elim (Result-cases (m s.store).0) [
    | inl (a, h) ↦
        subst P (sym (bind-ok (on_store m) k (ap (λ r. from_store s (r, (m s.store).1)) h)))
          (good a h)
    | inr (e, h) ↦
        subst P (sym (bind-err (on_store m) k (ap (λ r. from_store s (r, (m s.store).1)) h)))
          (bad e h)
  ]
