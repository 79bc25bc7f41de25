-- ===== src/Base/Calls.antt =====
-- A method on a state that can fail: the state comes back after an error too, since what was
-- written stays written. `m >>= f` is the source's `?`.
use mathlib.Core.Path.{◌≡◌, refl, ap, sym, subst}
use mathlib.Core.Logic.{◌⊎◌, inl, inr}
use mathlib.Core.Option.{Option, none, some}
use othala.Base.Fallible.{Result, ok, err}

abbrev pub Action {ℓ κ μ} : Type ℓ → Type κ → Type μ → Type (ℓ ⊔ κ ⊔ μ)
Action S E A = S → Result A E × S

module _ {ℓ κ μ} {S : Type ℓ} {E : Type κ} {A : Type μ} where
  abbrev pub pure : A → Action S E A
  pure a s = (ok a, s)

  abbrev pub raise : E → Action S E A
  raise e s = (err e, s)

  -- `ok_or_else`
  abbrev pub or_raise : Option A → E → Action S E A
  or_raise none e = raise e
  or_raise (some a) _ = pure a

infixl 5 ◌>>=◌ ◌>>◌
abbrev pub ◌>>=◌ {ℓ κ μ ν} :
    {S : Type ℓ} {E : Type κ} {A : Type μ} {B : Type ν}
    → Action S E A
    → (A → Action S E B)
    → Action S E B
◌>>=◌ m f s = let (r, s') = m s in elim r [ ok a ↦ f a s' | err e ↦ (err e, s') ]

abbrev pub ◌>>◌ {ℓ κ μ ν} :
    {S : Type ℓ} {E : Type κ} {A : Type μ} {B : Type ν} → Action S E A → Action S E B → Action S E B
m >> k = m >>= λ _. k

-- How a call ended.
pub Result-cases {ℓ κ} :
    {A : Type ℓ} {E : Type κ} (r : Result A E) → ((a : A) × (r ≡ ok a)) ⊎ ((e : E) × (r ≡ err e))
Result-cases (ok a) = inl (a, refl)
Result-cases (err e) = inr (e, refl)

module _ {ℓ κ μ ν} {S : Type ℓ} {E : Type κ} {A : Type μ} {B : Type ν} (m : Action S E A)
    (f : A → Action S E B) where
  abbrev continue : Result A E × S → Result B E × S
  continue (r, s') = elim r [ ok a ↦ f a s' | err e ↦ (err e, s') ]

  -- A call that succeeds hands its value on.
  pub bind-ok : {s s' : S} {a : A} → m s ≡ (ok a, s') → (m >>= f) s ≡ f a s'
  bind-ok h = ap continue h

  -- A call that fails ends the method.
  pub bind-err : {s s' : S} {e : E} → m s ≡ (err e, s') → (m >>= f) s ≡ (err e, s')
  bind-err h = ap continue h

  -- To prove something of `m >>= f`, prove it of `f` after a success and of a failure.
  pub bind-rule {ξ} :
      (P : Result B E × S → Type ξ) (s : S)
      → ((a : A) → (m s).0 ≡ ok a → P (f a (m s).1))
      → ((e : E) → (m s).0 ≡ err e → P (err e, (m s).1))
      → P ((m >>= f) s)
  bind-rule P s good bad = elim (Result-cases (m s).0) [
    | inl (a, h) ↦ subst P (sym (bind-ok (λ i. (h i, (m s).1)))) (good a h)
    | inr (e, h) ↦ subst P (sym (bind-err (λ i. (h i, (m s).1)))) (bad e h)
  ]

pub or_raise_keeps {ℓ κ μ} :
    {S : Type ℓ} {E : Type κ} {A : Type μ} (o : Option A) (e : E) (s : S) → (or_raise o e s).1 ≡ s
or_raise_keeps none e s = refl
or_raise_keeps (some a) e s = refl
