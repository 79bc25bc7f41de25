-- ===== src/Base/Equality.antt =====
-- `PartialEq` as an interface, and the types of the program that are compared.
use Prim.Native.Nat.{ℕ}
use Prim.Native.String.{String}
use mathlib.Core.Path.{◌≡◌, refl}
use mathlib.Core.Logic.{◌↔◌, inl, inr}
use mathlib.Core.Bool.{Bool, true, false, ◌&&◌}
use mathlib.Core.Option.{Option, none, some}
use mathlib.Core.List.{List, [], ◌∷◌, Memᴰ}
use mathlib.Core.List.Memᴰ
use text.Mathlib.Text.{◌==◌ as str_eq}
use text.Mathlib.TextEquality.{eq_iff}
use native.Mathlib.Omega.{arith}
use othala.Base.Tests.{nat_beq, nat_beq_iff, Bool-cases}
use othala.Base.Lists.{any}

-- The law is what the source relies on wherever it derives `PartialEq`.
pub record PartialEq {ℓ} (A : Type ℓ) : Type ℓ where
  pub same : A → A → Bool
  pub same_iff : (x y : A) → (same x y ≡ true) ↔ (x ≡ y)

module _ {ℓ} {A : Type ℓ} ⦃cmp : PartialEq A⦄ where
  infix 50 ◌==◌
  abbrev pub ◌==◌ : A → A → Bool
  ◌==◌ = cmp.same

  pub ==_refl : (a : A) → (a == a) ≡ true
  ==_refl a = (cmp.same_iff a a).1 refl

  -- `contains`
  abbrev pub contains : List A → A → Bool
  contains xs a = any (λ x. a == x) xs

  pub contains_iff : (xs : List A) (a : A) → (contains xs a ≡ true) ↔ Memᴰ a xs
  contains_iff [] a = (λ h. cc, λ m. absurd (Memᴰ.not-nil m))
  contains_iff (x ∷ xs) a =
      let (from, to) = contains_iff xs a in
      (
        λ h. elim (Bool-cases (a == x)) [
          | inl hit ↦ Memᴰ.head ((cmp.same_iff a x).0 hit)
          | inr miss ↦ Memᴰ.tail (from (rw miss at h))
        ],
        λ m. elim (Memᴰ.cases_cons m) [
          | inl e ↦ rw ((cmp.same_iff a x).1 e)
          | inr later ↦ ground (arith, to later)
        ],
      )

  -- `==` on options.
  abbrev pub opt_beq : Option A → Option A → Bool
  opt_beq none none = true
  opt_beq (some a) (some b) = a == b
  opt_beq _ _ = false

  pub opt_beq_iff : (a b : Option A) → (opt_beq a b ≡ true) ↔ (a ≡ b)
  opt_beq_iff none none = ground arith
  opt_beq_iff none (some b) = ground arith
  opt_beq_iff (some a) none = ground arith
  opt_beq_iff (some a) (some b) = ground (arith, cmp.same_iff a b)

instance abbrev pub string_eq : PartialEq String
string_eq = record { same = str_eq; same_iff = eq_iff }

instance abbrev pub index_eq : PartialEq ℕ
index_eq = record { same = nat_beq; same_iff = nat_beq_iff }

module _ {ℓ} {A : Type ℓ} ⦃cmp : PartialEq A⦄ where
  -- `==` on vectors.
  abbrev pub list_beq : List A → List A → Bool
  list_beq [] [] = true
  list_beq (a ∷ as') (b ∷ bs) = a == b && list_beq as' bs
  list_beq _ _ = false

  pub list_beq_iff : (a b : List A) → (list_beq a b ≡ true) ↔ (a ≡ b)
  list_beq_iff [] [] = ground arith
  list_beq_iff [] (b ∷ bs) = ground arith
  list_beq_iff (a ∷ as') [] = ground arith
  list_beq_iff (a ∷ as') (b ∷ bs) = ground (arith, cmp.same_iff a b, list_beq_iff as' bs)

-- Texts as lists of characters.
instance abbrev pub text_eq : PartialEq (List ℕ)
text_eq = record { same = list_beq; same_iff = list_beq_iff }
