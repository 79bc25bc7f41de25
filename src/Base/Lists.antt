-- ===== src/Base/Lists.antt =====
-- Lists measured by native numbers, Boolean searches through them, and predicates on them.
use Prim.Native.Nat.{ℕ, zero, suc, ◌+◌}
use mathlib.Core.Path.{◌≡◌, refl, sym, subst, ap, ◌∙◌}
use mathlib.Core.Logic.{◌↔◌, ◌⊎◌, inl, inr, ⊎_elim}
use mathlib.Core.Bool.{Bool, true, false, ◌&&◌, ◌||◌, false≢true}
use mathlib.Core.Option.{Option, none, some, none-ne-some}
use mathlib.Core.List.{List, [], ◌∷◌, ◌++◌, Memᴰ}
use mathlib.Core.List.Memᴰ
use native.Mathlib.Omega.{arith}
use othala.Base.Tests.{if◌then◌else◌, Bool-cases}

module _ {ℓ} {A : Type ℓ} where
  abbrev pub length : List A → ℕ
  length [] = 0
  length (x ∷ xs) = suc (length xs)

  abbrev pub is_empty : List A → Bool
  is_empty [] = true
  is_empty (x ∷ xs) = false

  -- `iter().any(p)`
  abbrev pub any : (A → Bool) → List A → Bool
  any p [] = false
  any p (x ∷ xs) = p x || any p xs

  -- `iter().all(p)`
  abbrev pub all : (A → Bool) → List A → Bool
  all p [] = true
  all p (x ∷ xs) = p x && all p xs

  -- `iter().filter(p)`, also `retain`
  abbrev pub filter : (A → Bool) → List A → List A
  filter p [] = []
  filter p (x ∷ xs) = let rest = filter p xs in if p x then x ∷ rest else rest

  -- `iter().find(p)`
  abbrev pub find : (A → Bool) → List A → Option A
  find p [] = none
  find p (x ∷ xs) = if p x then some x else find p xs

  -- How many entries pass a test.
  abbrev pub count : (A → Bool) → List A → ℕ
  count p [] = 0
  count p (x ∷ xs) = let rest = count p xs in if p x then suc rest else rest

  -- `vec.get(i)`, which is none exactly from the length on.
  abbrev pub at : List A → ℕ → Option A
  at [] i = none
  at (x ∷ xs) zero = some x
  at (x ∷ xs) (suc i) = at xs i

  -- The last entry, or `default` if there is none.
  abbrev pub last_or : A → List A → A
  last_or default [] = default
  last_or default (x ∷ xs) = last_or x xs

  abbrev pub All {κ} : (A → Type κ) → List A → Type κ
  All P [] = Unit
  All P (x ∷ xs) = P x × All P xs

module _ {ℓ} {A : Type ℓ} where
  pub length-append : (xs ys : List A) → length (xs ++ ys) ≡ length xs + length ys
  length-append [] ys = omega arith
  length-append (x ∷ xs) ys = omega (arith, length-append xs ys)

  pub All-append {κ} :
      (P : A → Type κ) (front back : List A) → All P front → All P back → All P (front ++ back)
  All-append P [] back _ good = good
  All-append P (x ∷ front) back (first, others) good = (first, All-append P front back others good)

  pub All-map {κ μ} :
      {P : A → Type κ} {Q : A → Type μ} (f : (a : A) → P a → Q a) (xs : List A)
      → All P xs
      → All Q xs
  All-map f [] h = tt
  All-map f (x ∷ xs) h = (f x h.0, All-map f xs h.1)

  pub count-append : (p : A → Bool) (xs ys : List A) → count p (xs ++ ys) ≡ count p xs + count p ys
  count-append p [] ys = omega arith
  count-append p (x ∷ xs) ys = ground (arith, count-append p xs ys)

  pub find-some :
      (p : A → Bool) (xs : List A) {a : A} → find p xs ≡ some a → (p a ≡ true) × Memᴰ a xs
  find-some p [] h = absurd (none-ne-some _ h)
  find-some p (x ∷ xs) {a} h = elim (Bool-cases (p x)) [
    | inl hit ↦ let e : x ≡ a = ground arith in (rw (← e) hit, Memᴰ.head (sym e))
    | inr miss ↦ let (good, there) = find-some p xs (rw miss at h) in (good, Memᴰ.tail there)
  ]

  pub find-none : (p : A → Bool) (xs : List A) → find p xs ≡ none → All (λ x. p x ≡ false) xs
  find-none p [] h = tt
  find-none p (x ∷ xs) h = ground (arith, find-none p xs)

  pub All-mem {κ} : (P : A → Type κ) (xs : List A) {a : A} → All P xs → Memᴰ a xs → P a
  All-mem P [] h m = elim m [ ]
  All-mem P (x ∷ xs) h (Memᴰ.head e) = subst P (sym e) h.0
  All-mem P (x ∷ xs) h (Memᴰ.tail m) = All-mem P xs h.1 m

  pub mem-append : (xs ys : List A) {a : A} → Memᴰ a (xs ++ ys) ↔ (Memᴰ a xs ⊎ Memᴰ a ys)
  mem-append xs ys = (Memᴰ.append_cases xs, ⊎_elim (Memᴰ.append_left ys) (Memᴰ.append_right xs))

  pub mem-cons : (a x : A) (xs : List A) → Memᴰ a (x ∷ xs) ↔ ((a ≡ x) ⊎ Memᴰ a xs)
  mem-cons a x xs = (Memᴰ.cases_cons, ⊎_elim Memᴰ.head Memᴰ.tail)

  pub mem-single : (a x : A) → Memᴰ a (x ∷ []) ↔ (a ≡ x)
  mem-single a x = (Memᴰ.eq_of_singleton, Memᴰ.head)

  pub mem-filter :
      (p : A → Bool) (xs : List A) {a : A} → Memᴰ a (filter p xs) ↔ (Memᴰ a xs × (p a ≡ true))
  mem-filter p [] = (λ m. elim m [ ], λ m. elim m.0 [ ])
  mem-filter p (x ∷ xs) {a} = elim (Bool-cases (p x)) [
    | inl hit ↦ rw hit (
      λ m. elim (Memᴰ.cases_cons m) [
        | inl e ↦ (Memᴰ.head e, ap p e ∙ hit)
        | inr later ↦ let (there, good) = (mem-filter p xs).0 later in (Memᴰ.tail there, good)
      ],
      λ m. elim (Memᴰ.cases_cons m.0) [
        | inl e ↦ Memᴰ.head e
        | inr later ↦ Memᴰ.tail ((mem-filter p xs).1 (later, m.1))
      ],
    )
    | inr miss ↦ rw miss (
      λ m. let (there, good) = (mem-filter p xs).0 m in (Memᴰ.tail there, good),
      λ m. elim (Memᴰ.cases_cons m.0) [
        | inl e ↦ absurd (false≢true (sym miss ∙ sym (ap p e) ∙ m.1))
        | inr later ↦ (mem-filter p xs).1 (later, m.1)
      ],
    )
  ]

  pub filter-eq-nil :
      (p : A → Bool) (xs : List A) {a : A} → filter p xs ≡ [] → Memᴰ a xs → p a ≡ false
  filter-eq-nil p xs {a} h m = elim (Bool-cases (p a)) [
    | inl hit ↦ absurd (Memᴰ.not-nil (subst (Memᴰ a) h ((mem-filter p xs).1 (m, hit))))
    | inr miss ↦ miss
  ]

  pub filter-eq-cons :
      (p : A → Bool) (xs : List A) {a : A} {rest : List A}
      → filter p xs ≡ a ∷ rest
      → Memᴰ a xs × (p a ≡ true)
  filter-eq-cons p xs {a} h = (mem-filter p xs).0 (subst (Memᴰ a) (sym h) (Memᴰ.head refl))

  pub All-weaken {κ} : (P : A → Type κ) (xs : List A) → ((a : A) → Memᴰ a xs → P a) → All P xs
  All-weaken P [] h = tt
  All-weaken P (x ∷ xs) h = (h x (Memᴰ.head refl), All-weaken P xs (λ a m. h a (Memᴰ.tail m)))

  pub All-self : (xs : List A) → All (λ x. Memᴰ x xs) xs
  All-self xs = All-weaken _ xs (λ a m. m)

  pub append-snoc : (xs : List A) (a : A) (ys : List A) → (xs ++ a ∷ []) ++ ys ≡ xs ++ a ∷ ys
  append-snoc [] a ys = refl
  append-snoc (x ∷ xs) a ys = ap (λ zs. x ∷ zs) (append-snoc xs a ys)

  pub snoc-append : (xs ys : List A) (a : A) → xs ++ (ys ++ a ∷ []) ≡ (xs ++ ys) ++ a ∷ []
  snoc-append [] ys a = refl
  snoc-append (x ∷ xs) ys a = ap (λ zs. x ∷ zs) (snoc-append xs ys a)

  pub append-nil : (xs : List A) → xs ++ [] ≡ xs
  append-nil [] = refl
  append-nil (x ∷ xs) = ap (λ zs. x ∷ zs) (append-nil xs)

  pub All-map_two {κ μ ν} :
      {P : A → Type κ} {Q : A → Type μ} {R : A → Type ν} (f : (a : A) → P a → Q a → R a)
      (xs : List A)
      → All P xs
      → All Q xs
      → All R xs
  All-map_two f [] h k = tt
  All-map_two f (x ∷ xs) h k = (f x h.0 k.0, All-map_two f xs h.1 k.1)

  pub count-filter :
      (p q : A → Bool) (xs : List A) → count p (filter q xs) ≡ count (λ x. q x && p x) xs
  count-filter p q [] = refl
  count-filter p q (x ∷ xs) = ground (arith, count-filter p q xs)

  -- Two tests that agree everywhere leave the same entries.
  pub filter-agree :
      (p q : A → Bool) → ((x : A) → p x ≡ q x) → (xs : List A) → filter p xs ≡ filter q xs
  filter-agree p q same [] = refl
  filter-agree p q same (x ∷ xs) = ground (arith, same x, filter-agree p q same xs)
