-- ===== src/Base/Sorting.antt =====
-- `ORDER BY` and `sort_by` for a test `after x y` that says that `x` comes strictly behind `y`.
use mathlib.Core.Path.{◌≡◌, refl}
use mathlib.Core.Logic.{◌↔◌, inl, inr}
use mathlib.Core.Bool.{Bool}
use mathlib.Core.List.{List, [], ◌∷◌, Memᴰ}
use mathlib.Core.List.Memᴰ
use native.Mathlib.Omega.{arith}
use othala.Base.Tests.{if◌then◌else◌, Bool-cases}
use othala.Base.Lists.{count}

module _ {ℓ} {A : Type ℓ} where
  unfoldable pub insert_by : (A → A → Bool) → A → List A → List A
  insert_by after x [] = x ∷ []
  insert_by after x (y ∷ ys) =
      let later = insert_by after x ys in if after x y then y ∷ later else x ∷ y ∷ ys

  unfoldable pub sort_by : (A → A → Bool) → List A → List A
  unfolding insert_by
  sort_by after [] = []
  sort_by after (x ∷ xs) = insert_by after x (sort_by after xs)

  mem-insert_by :
      (after : A → A → Bool) (x : A) (xs : List A) {a : A}
      → Memᴰ a (insert_by after x xs) ↔ Memᴰ a (x ∷ xs)
  unfolding insert_by
  mem-insert_by after x [] = (λ m. m, λ m. m)
  mem-insert_by after x (y ∷ ys) {a} = elim (Bool-cases (after x y)) [
    | inr here ↦ rw here (λ m. m, λ m. m)
    | inl later ↦ rw later (
      λ m. elim (Memᴰ.cases_cons m) [
        | inl e ↦ Memᴰ.tail (Memᴰ.head e)
        | inr deep ↦ elim (Memᴰ.cases_cons ((mem-insert_by after x ys).0 deep)) [
          | inl e ↦ Memᴰ.head e
          | inr old ↦ Memᴰ.tail (Memᴰ.tail old)
        ]
      ],
      λ m. elim (Memᴰ.cases_cons m) [
        | inl e ↦ Memᴰ.tail ((mem-insert_by after x ys).1 (Memᴰ.head e))
        | inr deep ↦ elim (Memᴰ.cases_cons deep) [
          | inl e ↦ Memᴰ.head e
          | inr old ↦ Memᴰ.tail ((mem-insert_by after x ys).1 (Memᴰ.tail old))
        ]
      ],
    )
  ]

  pub mem-sort_by :
      (after : A → A → Bool) (xs : List A) {a : A} → Memᴰ a (sort_by after xs) ↔ Memᴰ a xs
  unfolding sort_by
  mem-sort_by after [] = (λ m. m, λ m. m)
  mem-sort_by after (x ∷ xs) {a} = (
    λ m. elim (Memᴰ.cases_cons ((mem-insert_by after x (sort_by after xs)).0 m)) [
      | inl e ↦ Memᴰ.head e
      | inr later ↦ Memᴰ.tail ((mem-sort_by after xs).0 later)
    ],
    λ m. (mem-insert_by after x (sort_by after xs)).1 (elim (Memᴰ.cases_cons m) [
      | inl e ↦ Memᴰ.head e
      | inr later ↦ Memᴰ.tail ((mem-sort_by after xs).1 later)
    ]),
  )

  count-insert_by :
      (p : A → Bool) (after : A → A → Bool) (x : A) (xs : List A)
      → count p (insert_by after x xs) ≡ count p (x ∷ xs)
  unfolding insert_by
  count-insert_by p after x [] = refl
  count-insert_by p after x (y ∷ ys) = ground (arith, count-insert_by p after x ys)

  -- Sorting changes no count.
  pub count-sort_by :
      (p : A → Bool) (after : A → A → Bool) (xs : List A) → count p (sort_by after xs) ≡ count p xs
  unfolding sort_by
  count-sort_by p after [] = refl
  count-sort_by p after (x ∷ xs) =
      ground (arith, count-insert_by p after x (sort_by after xs), count-sort_by p after xs)
