-- ===== src/SelfHeal/Attempts.antt =====
-- How many attempts a validation gets.
use othala.Base.{
  ℕ, suc, ◌+◌, ◌^◌, ◌<◌, false, ◌&&◌, Option, List, [], ◌∷◌, String, ltb, leb, length, ◌≡◌, arith,
  ℤ,
}
use othala.Core.Time.{Chrono}
use othala.SelfHeal.{
  QaResult, QaRetryConfig, QaRetryState, from_result, record_retry, is_exhausted, is_ready,
}

module _ {T F : Type 0} (shift : T → ℤ → T) (scaled : ℕ → F → ℕ → ℤ)
    (config : QaRetryConfig F) where
  -- Retries at a sequence of instants.
  abbrev pub retries : QaRetryState T → List T → QaRetryState T
  retries self [] = self
  retries self (t ∷ ts) = retries (record_retry shift scaled self config t).1 ts

  record_retry-attempt :
      (self : QaRetryState T) (t : T)
      → self.attempt + 1 < 2 ^ 32
      → ((record_retry shift scaled self config t).1.attempt ≡ self.attempt + 1)
        × ((record_retry shift scaled self config t).1.max_attempts ≡ self.max_attempts)
        × ((record_retry shift scaled self config t).0 ≡ leb (self.attempt + 1) self.max_attempts)
  unfolding record_retry
  record_retry-attempt self t small = ground arith

  retries-attempt :
      (self : QaRetryState T) (ts : List T)
      → self.attempt + length ts < 2 ^ 32
      → ((retries self ts).attempt ≡ self.attempt + length ts)
        × ((retries self ts).max_attempts ≡ self.max_attempts)
  retries-attempt self [] small = ground arith
  retries-attempt self (t ∷ ts) small =
      let (step, most, _) = record_retry-attempt self t (ground arith) in
      let rest =
        retries-attempt (record_retry shift scaled self config t).1 ts
          (omega (arith, step, small)) in
      ground (arith, step, most, rest)

  -- A validation that failed once and was then retried at any instants, fewer than `2^32 - 2` of
  -- them, is exhausted exactly if it was retried at least as often as the configuration allows; it
  -- may be retried once more exactly if one more retry is still fewer than that; and once exhausted
  -- it is ready at no instant.
  pub retries-exhausted :
      ⦃chrono : Chrono T⦄
      → (task_id : String) (result : QaResult T) (baseline : Option (QaResult T)) (now next : T)
        (ts : List T)
      → length ts + 2 < 2 ^ 32
      → let state = retries (from_result shift task_id result baseline config now) ts in
        (is_exhausted state ≡ leb config.max_retries (length ts))
        × ((record_retry shift scaled state config next).0
            ≡ ltb (suc (length ts)) config.max_retries)
        × ((is_exhausted state && is_ready state next) ≡ false)
  unfolding from_result is_ready
  retries-exhausted task_id result baseline now next ts small =
      let start = from_result shift task_id result baseline config now in
      let (attempt, most) = retries-attempt start ts (ground arith) in
      let (_, _, answer) = record_retry-attempt (retries start ts) next (ground arith) in
      (ground arith, ground arith, ground arith)
