-- ===== src/Core/Time.antt =====
-- The instants of the `chrono` package, which the source only calls. An instant type `T` is a
-- parameter of the model. `le a b` is the source's `b >= a`, and `add_secs t n` its
-- `t + Duration::seconds(n)`; the laws are those of the total order that chrono documents. An
-- addition of a count of seconds that is not negative never goes back in time.
use othala.Base.{ℕ, ◌≡◌, Bool, true, ◌⊎◌}

pub record Chrono (T : Type 0) : Type 0 where
  pub le : T → T → Bool
  pub add_secs : T → ℕ → T
  pub le_refl : (a : T) → le a a ≡ true
  pub le_trans : (a b c : T) → le a b ≡ true → le b c ≡ true → le a c ≡ true
  pub le_total : (a b : T) → (le a b ≡ true) ⊎ (le b a ≡ true)
  pub le_add_secs : (t : T) (n : ℕ) → le t (add_secs t n) ≡ true
