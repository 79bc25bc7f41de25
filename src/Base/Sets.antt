-- ===== src/Base/Sets.antt =====
-- `HashSet` as a list without repeats, and `HashMap<K, HashSet<V>>` with `entry(..).or_default()`.
use mathlib.Core.Path.{◌≡◌, refl, sym, ◌∙◌}
use mathlib.Core.Logic.{◌↔◌, ◌⊎◌, inl, inr, ⊎_elim}
use mathlib.Core.Bool.{false≢true}
use mathlib.Core.List.{List, [], ◌∷◌, ◌++◌, Memᴰ}
use mathlib.Core.List.Memᴰ
use native.Mathlib.Omega.{arith}
use othala.Base.Tests.{if◌then◌else◌, unwrap_or, Bool-cases}
use othala.Base.Lists.{mem-append, mem-single}
use othala.Base.Equality.{PartialEq, ◌==◌, contains, contains_iff}
use othala.Base.Assoc.{Assoc, get, insert, get-insert}

module _ {ℓ} {A : Type ℓ} where
  -- No entry comes twice.
  abbrev pub NoRepeat : List A → Type ℓ
  NoRepeat [] = Unit
  NoRepeat (x ∷ xs) = (¬ Memᴰ x xs) × NoRepeat xs

  pub snoc-NoRepeat : (xs : List A) (a : A) → NoRepeat xs → (¬ Memᴰ a xs) → NoRepeat (xs ++ a ∷ [])
  snoc-NoRepeat [] a h new = ((λ m. elim m [ ]), tt)
  snoc-NoRepeat (x ∷ xs) a h new = (
    λ m. elim ((mem-append xs (a ∷ [])).0 m) [
      | inl old ↦ h.0 old
      | inr e ↦ new (Memᴰ.head (sym ((mem-single x a).0 e)))
    ],
    snoc-NoRepeat xs a h.1 (λ m. new (Memᴰ.tail m)),
  )

module _ {ℓ} {A : Type ℓ} ⦃cmp : PartialEq A⦄ where
  -- `HashSet::insert`
  abbrev pub add : List A → A → List A
  add xs a = if contains xs a then xs else xs ++ a ∷ []

  pub mem-add : (xs : List A) (a b : A) → Memᴰ b (add xs a) ↔ (Memᴰ b xs ⊎ (b ≡ a))
  mem-add xs a b = elim (Bool-cases (contains xs a)) [
    | inl old ↦
        rw old ((λ m. inl m), ⊎_elim (λ m. m) (λ e. Memᴰ.cast e ((contains_iff xs a).0 old)))
    | inr new ↦ rw new (
      (λ m. elim ((mem-append xs (a ∷ [])).0 m) [
        | inl m' ↦ inl m'
        | inr m' ↦ inr ((mem-single b a).0 m')
      ]),
      (λ m.
          (mem-append xs (a ∷ [])).1
            (elim m [ inl m' ↦ inl m' | inr e ↦ inr ((mem-single b a).1 e) ])),
    )
  ]

module _ {ℓ κ} {K : Type ℓ} {V : Type κ} ⦃keys : PartialEq K⦄ ⦃values : PartialEq V⦄ where
  -- `get(key).cloned().unwrap_or_default()`
  abbrev pub members : Assoc K (List V) → K → List V
  members map key = unwrap_or (get map key) []

  -- `entry(key).or_default()`
  abbrev pub or_default : Assoc K (List V) → K → Assoc K (List V)
  or_default map key = insert map key (members map key)

  -- `entry(key).or_default().insert(value)`
  abbrev pub add_member : Assoc K (List V) → K → V → Assoc K (List V)
  add_member map key value = insert map key (add (members map key) value)

  pub members-or_default :
      (map : Assoc K (List V)) (key other : K)
      → members (or_default map key) other ≡ members map other
  members-or_default map key other =
      ground (arith, get-insert map key other (members map key), keys.same_iff key other)

  pub mem-add_member :
      (map : Assoc K (List V)) (key other : K) (value v : V)
      → Memᴰ v (members (add_member map key value) other)
        ↔ (Memᴰ v (members map other) ⊎ ((other ≡ key) × (v ≡ value)))
  mem-add_member map key other value v =
      let after = get-insert map key other (add (members map key) value) in
      let (from, to) = mem-add (members map key) value v in
      elim (Bool-cases (key == other)) [
        | inl hit ↦
            let e : key ≡ other = (keys.same_iff key other).0 hit in
            let now : members (add_member map key value) other ≡ add (members map key) value =
              ground (arith, after) in
            rw now (
              rw (← e) (
                λ m. elim (from m) [ inl old ↦ inl old | inr new ↦ inr (refl, new) ],
                λ m. elim m [ inl old ↦ to (inl old) | inr new ↦ to (inr new.1) ],
              ))
        | inr miss ↦
            let now : members (add_member map key value) other ≡ members map other =
              ground (arith, after) in
            rw now (
              (λ m. inl m),
              λ m. elim m [
                | inl old ↦ old
                | inr new ↦ absurd (false≢true (sym miss ∙ (keys.same_iff key other).1 (sym new.0)))
              ],
            )
      ]
