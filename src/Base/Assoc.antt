-- ===== src/Base/Assoc.antt =====
-- `HashMap` as an association list that holds each key once. Its entries stand in the order of
-- insertion; where the source walks a map, the model walks it in the order of the list.
use mathlib.Core.Path.{◌≡◌, refl, ap}
use mathlib.Core.Bool.{Bool, false}
use mathlib.Core.Option.{Option, none, some, some-ne-none}
use mathlib.Core.List.{List, [], ◌∷◌, ◌++◌}
use native.Mathlib.Omega.{arith}
use othala.Base.Tests.{if◌then◌else◌, is_some, Bool-cases}
use othala.Base.Lists.{All}
use mathlib.Core.Logic.{inl, inr}
use othala.Base.Equality.{PartialEq, ◌==◌}

abbrev pub Assoc {ℓ κ} : Type ℓ → Type κ → Type (ℓ ⊔ κ)
Assoc K V = List (K × V)

module _ {ℓ κ} {K : Type ℓ} {V : Type κ} ⦃cmp : PartialEq K⦄ where
  unfoldable pub get : Assoc K V → K → Option V
  get [] key = none
  get ((found, value) ∷ rest) key = if key == found then some value else get rest key

  -- A key that is there keeps its place.
  unfoldable pub insert : Assoc K V → K → V → Assoc K V
  insert [] key value = (key, value) ∷ []
  insert ((found, old) ∷ rest) key value =
      let later = insert rest key value in
      if key == found then (found, value) ∷ rest else (found, old) ∷ later

  unfoldable pub remove : Assoc K V → K → Assoc K V
  remove [] key = []
  remove ((found, value) ∷ rest) key =
      let later = remove rest key in if key == found then later else (found, value) ∷ later

  abbrev pub contains_key : Assoc K V → K → Bool
  contains_key map key = is_some (get map key)

  pub get-insert :
      (map : Assoc K V) (key other : K) (value : V)
      → get (insert map key value) other ≡ (if key == other then some value else get map other)
  unfolding get insert
  get-insert [] key other value = ground (arith, cmp.same_iff key other, cmp.same_iff other key)
  get-insert ((found, old) ∷ rest) key other value = ground (
    arith,
    cmp.same_iff key found,
    cmp.same_iff other found,
    cmp.same_iff key other,
    get-insert rest key other value,
  )

  pub get-remove :
      (map : Assoc K V) (key other : K)
      → get (remove map key) other ≡ (if key == other then none else get map other)
  unfolding get remove
  get-remove [] key other = ground arith
  get-remove ((found, value) ∷ rest) key other = ground (
    arith,
    cmp.same_iff key found,
    cmp.same_iff other found,
    cmp.same_iff key other,
    get-remove rest key other,
  )

  -- No two entries have the same key.
  abbrev pub KeysOnce : Assoc K V → Type 0
  KeysOnce [] = Unit
  KeysOnce ((key, value) ∷ rest) = All (λ entry. (key == entry.0) ≡ false) rest × KeysOnce rest

  pub insert-new :
      (map : Assoc K V) (key : K) (value : V)
      → get map key ≡ none
      → insert map key value ≡ map ++ (key, value) ∷ []
  unfolding get insert
  insert-new [] key value h = refl
  insert-new ((found, old) ∷ rest) key value h = elim (Bool-cases (key == found)) [
    | inl hit ↦ absurd (some-ne-none _ (rw hit at h))
    | inr miss ↦
        rw miss (ap (λ later. (found, old) ∷ later) (insert-new rest key value (rw miss at h)))
  ]

  -- A key that no entry has is not found.
  pub get-absent :
      (map : Assoc K V) (key : K) → All (λ entry. (key == entry.0) ≡ false) map → get map key ≡ none
  unfolding get
  get-absent [] key h = refl
  get-absent ((found, value) ∷ rest) key h = rw (h.0) (get-absent rest key h.1)

  All-insert {μ} :
      (P : K → Type μ) (map : Assoc K V) (key : K) (value : V)
      → P key
      → All (λ entry. P entry.0) map
      → All (λ entry. P entry.0) (insert map key value)
  unfolding insert
  All-insert P [] key value h hs = (h, tt)
  All-insert P ((found, old) ∷ rest) key value h hs = elim (Bool-cases (key == found)) [
    | inl hit ↦ rw hit hs
    | inr miss ↦ rw miss (hs.0, All-insert P rest key value h hs.1)
  ]

  pub insert-KeysOnce :
      (map : Assoc K V) (key : K) (value : V) → KeysOnce map → KeysOnce (insert map key value)
  unfolding insert
  insert-KeysOnce [] key value once = (tt, tt)
  insert-KeysOnce ((found, old) ∷ rest) key value once = elim (Bool-cases (key == found)) [
    | inl hit ↦ rw hit once
    | inr miss ↦
        let apart : (found == key) ≡ false =
          ground (arith, cmp.same_iff key found, cmp.same_iff found key) in
        rw miss (
          All-insert (λ k. (found == k) ≡ false) rest key value apart once.0,
          insert-KeysOnce rest key value once.1,
        )
  ]

  All-remove {μ} :
      (P : K → Type μ) (map : Assoc K V) (key : K)
      → All (λ entry. P entry.0) map
      → All (λ entry. P entry.0) (remove map key)
  unfolding remove
  All-remove P [] key hs = tt
  All-remove P ((found, old) ∷ rest) key hs = elim (Bool-cases (key == found)) [
    | inl hit ↦ rw hit (All-remove P rest key hs.1)
    | inr miss ↦ rw miss (hs.0, All-remove P rest key hs.1)
  ]

  pub remove-KeysOnce : (map : Assoc K V) (key : K) → KeysOnce map → KeysOnce (remove map key)
  unfolding remove
  remove-KeysOnce [] key once = tt
  remove-KeysOnce ((found, old) ∷ rest) key once = elim (Bool-cases (key == found)) [
    | inl hit ↦ rw hit (remove-KeysOnce rest key once.1)
    | inr miss ↦
        rw miss
          (All-remove (λ k. (found == k) ≡ false) rest key once.0, remove-KeysOnce rest key once.1)
  ]
