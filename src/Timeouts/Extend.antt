-- ===== src/Timeouts/Extend.antt =====
-- `extend_deadline`, and what its cast to `i64` does to a large extension.
use othala.Base.{
  ℕ, suc, ◌-◌, ◌^◌, ◌≤◌, ◌<◌, ◌≡◌, refl, ◌∙◌, ap, true, Option, none, some, String, string_eq, ok,
  ℤ, pos, negsuc, as_i64, add_ℤ, leb_ℤ, arith,
}
use othala.Base.Assoc.{get, insert}
use mathlib.Core.Option
use othala.Timeouts.{
  TimeoutEntry, TimeoutTracker, is_i64, with_deadline, extend_found, extend_deadline,
}

-- A number of the upper half is cast to a negative one.
as_i64-wraps : (m : ℕ) → m < 2 ^ 63 → as_i64 (2 ^ 64 - suc m) ≡ negsuc m
as_i64-wraps m small = ground arith

as_i64-small : (n : ℕ) → n < 2 ^ 63 → as_i64 n ≡ pos n
as_i64-small n small = ground arith

leb_ℤ-less : (k m n : ℕ) → k ≤ n → leb_ℤ (add_ℤ (pos k) (negsuc m)) (pos n) ≡ true
leb_ℤ-less k m n le = ground arith

is_i64-less : (k m : ℕ) → k < 2 ^ 63 → m < 2 ^ 63 → is_i64 (add_ℤ (pos k) (negsuc m)) ≡ true
is_i64-less k m small room = ground arith

module _ {T : Type 0} (checked_shift : T → ℤ → Option T) (secs_since : T → T → ℤ) where
  -- The extension of a tracked task by `2^64 - (m + 1)` seconds, for `m` below `2^63`, is refused for
  -- no maximum below `2^63`, if the time allotted so far is within it: it moves the deadline by
  -- `m + 1` seconds back, and where no such instant can be represented the call panics.
  pub extend_deadline-wraps :
      (self : TimeoutTracker T) (id : String) (entry : TimeoutEntry T) (k m : ℕ)
      → get self.entries id ≡ some entry
      → secs_since entry.deadline entry.started_at ≡ pos k
      → k ≤ self.config.max_timeout_secs
      → self.config.max_timeout_secs < 2 ^ 63
      → m < 2 ^ 63
      → extend_deadline checked_shift secs_since self id (2 ^ 64 - suc m)
        ≡ Option.map
            (λ earlier.
              ok record self {
                entries = insert self.entries id record entry { deadline = earlier };
              })
            (checked_shift entry.deadline (negsuc m))
  unfolding extend_deadline
  extend_deadline-wraps self id entry k m found allotted le small room =
      let most = self.config.max_timeout_secs in
      ap (λ e. extend_found checked_shift secs_since self id (2 ^ 64 - suc m) e) found
      ∙ rw
          (
            as_i64-wraps m room,
            allotted,
            as_i64-small most small,
            is_i64-less k m (omega (arith, le, small)) room,
            leb_ℤ-less k m most le,
          )
          (moved (checked_shift entry.deadline (negsuc m)))
    where
      moved :
          (o : Option T)
          → with_deadline checked_shift secs_since self id entry o
            ≡ Option.map
                (λ earlier. ok record self {
                  entries = insert self.entries id record entry { deadline = earlier };
                })
                o
      moved none = refl
      moved (some earlier) = refl
