-- ===== src/Core/Seconds.antt =====
-- Instants as counts of seconds: an instance of the clock's interface, by which examples run.
use othala.Base.{ℕ, ◌+◌, ◌≡◌, ◌⊎◌, true, leb, arith}
use othala.Core.Time.{Chrono}

pub leb_total : (a b : ℕ) → (leb a b ≡ true) ⊎ (leb b a ≡ true)
leb_total a b = ground arith

pub leb_refl : (a : ℕ) → leb a a ≡ true
leb_refl a = ground arith

pub leb_trans : (a b c : ℕ) → leb a b ≡ true → leb b c ≡ true → leb a c ≡ true
leb_trans a b c h k = ground arith

pub leb_add : (t n : ℕ) → leb t (t + n) ≡ true
leb_add t n = ground arith

instance abbrev pub seconds : Chrono ℕ
seconds = record {
  le = leb;
  add_secs = ◌+◌;
  le_refl = leb_refl;
  le_trans = leb_trans;
  le_total = leb_total;
  le_add_secs = leb_add;
}
