-- ===== src/Delegation/Waves/Links.antt =====
-- What the loops of `build_graph` put into the graph: a child and an indegree for every dependency.
use mathlib.Core.List.{Memᴰ}
use mathlib.Core.List.Memᴰ
use mathlib.Core.Option.{some_inj}
use othala.Base.{
  ℕ, zero, suc, ◌+◌, ◌≤◌, ◌<◌, ◌≡◌, refl, sym, ◌∙◌, ap, subst, ◌↔◌, ◌⊎◌, inl, inr, Bool, true, ◌&&◌,
  leb, ltb, some, List, [], ◌∷◌, ◌++◌, at, Result, ok, err, String, count, count-append, length,
  if◌then◌else◌, index_eq, text_eq, ◌==◌, arith, Bool-cases, Option-cases, Result-cases, &&-true,
}
use othala.Base.Text.{chars}
use othala.Base.Assoc.{get}
use othala.Delegation.{SubTaskSpec, range}
use othala.Delegation.Waves.{
  Titles, PlanError, Graph, adjust, children_of, indegree_of, link, link_deps, link_all, no_links,
  repeated,
}
use othala.Delegation.Waves.Counts.{total, waits, Counts}

-- How often `i` is a child of `d`.
abbrev pub links : Graph → ℕ → ℕ → ℕ
links graph d i = count (λ c. i == c) (children_of graph.children d)

links-adjust :
    (children : List (List ℕ)) (d idx other i : ℕ)
    → d < length children
    → count (λ c. i == c) (children_of (adjust (λ ids. ids ++ idx ∷ []) children d) other)
      ≡ count (λ c. i == c) (children_of children other) + (if other == d && i == idx then 1 else 0)
unfolding adjust
links-adjust [] d idx other i fits = absurd (omega (arith, fits))
links-adjust (ids ∷ rest) zero idx zero i fits =
    ground (arith, count-append (λ c. i == c) ids (idx ∷ []))
links-adjust (ids ∷ rest) zero idx (suc other) i fits = ground arith
links-adjust (ids ∷ rest) (suc d) idx zero i fits = ground arith
links-adjust (ids ∷ rest) (suc d) idx (suc other) i fits =
    ground (arith, links-adjust rest d idx other i (omega (arith, fits)))

indegree-raise :
    (indegree : List ℕ) (idx i : ℕ)
    → idx < length indegree
    → indegree_of (adjust (λ n. n + 1) indegree idx) i
      ≡ indegree_of indegree i + (if i == idx then 1 else 0)
unfolding adjust
indegree-raise [] idx i fits = absurd (omega (arith, fits))
indegree-raise (n ∷ rest) zero zero fits = ground arith
indegree-raise (n ∷ rest) zero (suc i) fits = ground arith
indegree-raise (n ∷ rest) (suc idx) zero fits = ground arith
indegree-raise (n ∷ rest) (suc idx) (suc i) fits =
    ground (arith, indegree-raise rest idx i (omega (arith, fits)))

length-adjust {ℓ} :
    {A : Type ℓ} (f : A → A) (xs : List A) (idx : ℕ) → length (adjust f xs idx) ≡ length xs
unfolding adjust
length-adjust f [] idx = refl
length-adjust f (x ∷ xs) zero = refl
length-adjust f (x ∷ xs) (suc idx) = ap suc (length-adjust f xs idx)

-- A sum over the subtasks grows where one of its terms does.
total-bump :
    (f g : ℕ → ℕ) (d : ℕ) (b : Bool) (xs : List ℕ)
    → ((x : ℕ) → g x ≡ f x + (if x == d && b then 1 else 0))
    → total g xs ≡ total f xs + (if b then count (λ x. x == d) xs else 0)
total-bump f g d b [] h = ground arith
total-bump f g d b (x ∷ xs) h = ground (arith, h x, total-bump f g d b xs h)

pub count-range :
    (start n d : ℕ)
    → count (λ x. x == d) (range start n) ≡ (if leb start d && ltb d (start + n) then 1 else 0)
count-range start zero d = ground arith
count-range start (suc n) d = ground (arith, count-range (suc start) n d)

-- The graph over `n` subtasks, with its indegrees right.
abbrev pub IsGraph : ℕ → Graph → Type 0
IsGraph n graph =
    (length graph.children ≡ n)
    × (length graph.indegree ≡ n)
    × Counts graph.children graph.indegree (range 0 n)

link-IsGraph :
    (n : ℕ) (graph : Graph) (d idx : ℕ)
    → d < n
    → idx < n
    → IsGraph n graph
    → IsGraph n (link graph d idx)
unfolding link
link-IsGraph n graph d idx d_fits idx_fits (all_children, all_indegrees, right) = (
  length-adjust _ graph.children d ∙ all_children,
  length-adjust _ graph.indegree idx ∙ all_indegrees,
  λ i.
      let bumped =
        total-bump (λ x. links graph x i) (λ x. links (link graph d idx) x i) d (i == idx)
          (range 0 n)
          (λ x. links-adjust graph.children d idx x i (omega (arith, d_fits, all_children))) in
      ground (
        arith,
        bumped,
        indegree-raise graph.indegree idx i (omega (arith, idx_fits, all_indegrees)),
        right i,
        count-range 0 n d,
      ),
)

link-links :
    (graph : Graph) (d idx other i : ℕ)
    → d < length graph.children
    → (1 ≤ links (link graph d idx) other i)
      ↔ ((1 ≤ links graph other i) ⊎ ((other ≡ d) × (i ≡ idx)))
unfolding link
link-links graph d idx other i fits =
    let after = links-adjust graph.children d idx other i fits in
    (
      λ h. elim (Bool-cases (other == d && i == idx)) [
        | inl hit ↦
            let (same, at_idx) = &&-true (other == d) (i == idx) hit in
            inr ((index_eq.same_iff other d).0 same, (index_eq.same_iff i idx).0 at_idx)
        | inr miss ↦ inl (omega (arith, h, rw miss at after))
      ],
      λ h. elim h [
        | inl old ↦ omega (arith, after, old)
        | inr (same, at_idx) ↦
            let hit : (other == d && i == idx) ≡ true = ground (arith, same, at_idx) in
            omega (arith, rw hit at after)
      ],
    )

err-ne-ok :
    {e : PlanError} {graph : Graph} {r : Result Graph PlanError} → r ≡ err e → r ≡ ok graph → ⊥
err-ne-ok h k = ground (arith, sym h ∙ k)

ok_inj : {a b : Graph} {r : Result Graph PlanError} → r ≡ ok b → r ≡ ok a → b ≡ a
ok_inj h k = ground (arith, sym h ∙ k)

module _ (titles : Titles) where
  -- One of the texts is the title of `d`.
  abbrev pub Names : List String → ℕ → Type 0
  Names deps d = (dep : String) × Memᴰ dep deps × (get titles (chars dep) ≡ some d)

  -- The graph has grown by the dependencies of `idx`.
  abbrev Grown : Graph → Graph → ℕ → List String → Type 0
  Grown graph linked idx deps =
      (d i : ℕ) → (1 ≤ links linked d i) ↔ ((1 ≤ links graph d i) ⊎ ((i ≡ idx) × Names deps d))

  module _ (n : ℕ) (fits : (key : List ℕ) (v : ℕ) → get titles key ≡ some v → v < n) where
    link_deps_lem :
        (idx : ℕ) (deps : List String) (graph : Graph) {linked : Graph}
        → idx < n
        → IsGraph n graph
        → link_deps titles idx deps graph ≡ ok linked
        → IsGraph n linked × Grown graph linked idx deps
    unfolding link_deps
    link_deps_lem idx [] graph {linked} idx_fits good h =
        subst (λ g. IsGraph n g × Grown graph g idx []) (ok_inj refl h)
          (
            good,
            λ d i. (
              λ old. inl old,
              λ k. elim k [ inl old ↦ old | inr (e, (dep, m, found)) ↦ elim m [ ] ],
            ),
          )
    link_deps_lem idx (dep ∷ deps) graph {linked} idx_fits good h =
        elim (Option-cases (get titles (chars dep))) [
          | inl unknown ↦ absurd (err-ne-ok refl (rw (link_deps, unknown) at h))
          | inr (d, found) ↦
              let room : d < length graph.children =
                omega (arith, fits (chars dep) d found, good.0) in
              let (fine, grown) =
                link_deps_lem idx deps (link graph d idx) idx_fits
                  (link-IsGraph n graph d idx (fits (chars dep) d found) idx_fits good)
                  (rw (link_deps, found) at h) in
              (
                fine,
                λ other i.
                    let (from, to) = grown other i in
                    let (back, forth) = link-links graph d idx other i room in
                    (
                      λ k. elim (from k) [
                        | inl old ↦ elim (back old) [
                          | inl older ↦ inl older
                          | inr (e, at_idx) ↦
                              inr (at_idx, (dep, Memᴰ.head refl, found ∙ ap (λ v. some v) (sym e)))
                        ]
                        | inr (at_idx, (name, m, named)) ↦ inr (at_idx, (name, Memᴰ.tail m, named))
                      ],
                      λ k. elim k [
                        | inl old ↦ to (inl (forth (inl old)))
                        | inr (at_idx, (name, m, named)) ↦ elim (Memᴰ.cases_cons m) [
                          | inl e ↦
                              let same : some other ≡ some d =
                                sym named ∙ ap (λ s. get titles (chars s)) e ∙ found in
                              to (inl (forth (inr (some_inj.0 same, at_idx))))
                          | inr later ↦ to (inr (at_idx, (name, later, named)))
                        ]
                      ],
                    ),
              )
        ]

    -- The graph has grown by the dependencies of all the subtasks from `start` on.
    abbrev pub GrownAll : Graph → Graph → ℕ → List SubTaskSpec → Type 0
    GrownAll graph linked start subtasks =
        (d i : ℕ)
        → (1 ≤ links linked d i) ↔ (
            (1 ≤ links graph d i)
            ⊎ ((k : ℕ) × (subtask : SubTaskSpec) × (i ≡ start + k)
                × (at subtasks k ≡ some subtask)
                × Names subtask.depends_on d))

    pub link_all_lem :
        (start : ℕ) (subtasks : List SubTaskSpec) (graph : Graph) {linked : Graph}
        → start + length subtasks ≡ n
        → IsGraph n graph
        → link_all titles start subtasks graph ≡ ok linked
        → IsGraph n linked × GrownAll graph linked start subtasks
    unfolding link_all
    link_all_lem start [] graph {linked} size good h =
        subst (λ g. IsGraph n g × GrownAll graph g start []) (ok_inj refl h)
          (
            good,
            λ d i. (
              λ old. inl old,
              λ k. elim k [ inl old ↦ old | inr (k', s, e, there, m) ↦ absurd (ground arith) ],
            ),
          )
    link_all_lem start (first ∷ rest) graph {linked} size good h =
        elim (Result-cases (link_deps titles start first.depends_on graph)) [
          | inr (e, bad) ↦ absurd (err-ne-ok refl (rw (link_all, bad) at h))
          | inl (middle, done) ↦
              let (fine, grown) =
                link_deps_lem start first.depends_on graph (omega (arith, size)) good done in
              let (fine_all, grown_all) =
                link_all_lem (suc start) rest middle (omega (arith, size)) fine
                  (rw (link_all, done) at h) in
              (
                fine_all,
                λ d i.
                    let (from, to) = grown_all d i in
                    let (back, forth) = grown d i in
                    (
                      λ k. elim (from k) [
                        | inl old ↦ elim (back old) [
                          | inl older ↦ inl older
                          | inr (at_idx, named) ↦ inr (0, first, omega (arith, at_idx), refl, named)
                        ]
                        | inr (k', s, e, there, named) ↦
                            inr (suc k', s, omega (arith, e), there, named)
                      ],
                      λ k. elim k [
                        | inl old ↦ to (inl (forth (inl old)))
                        | inr (zero, s, e, there, named) ↦ to (
                            inl (
                              forth (
                                inr (
                                  omega (arith, e),
                                  subst (λ t. Names t.depends_on d) (sym (some_inj.0 there)) named,
                                ))))
                        | inr (suc k', s, e, there, named) ↦
                            to (inr (k', s, omega (arith, e), there, named))
                      ],
                    ),
              )
        ]

children-repeated : (n d : ℕ) → children_of (repeated [] n) d ≡ []
children-repeated zero d = refl
children-repeated (suc n) zero = refl
children-repeated (suc n) (suc d) = children-repeated n d

indegree-repeated : (n i : ℕ) → indegree_of (repeated 0 n) i ≡ 0
indegree-repeated zero i = refl
indegree-repeated (suc n) zero = refl
indegree-repeated (suc n) (suc i) = indegree-repeated n i

length-repeated {ℓ} : {A : Type ℓ} (a : A) (n : ℕ) → length (repeated a n) ≡ n
length-repeated a zero = refl
length-repeated a (suc n) = ap suc (length-repeated a n)

pub no_links_lem : (n d i : ℕ) → links (no_links n) d i ≡ 0
no_links_lem n d i = rw (children-repeated n d)

pub no_links-IsGraph : (n : ℕ) → IsGraph n (no_links n)
no_links-IsGraph n = (
  length-repeated [] n,
  length-repeated 0 n,
  λ i. indegree-repeated n i ∙ sym (none i (range 0 n)),
)
  where
    none : (i : ℕ) (ids : List ℕ) → waits (repeated [] n) i ids ≡ 0
    none i [] = refl
    none i (d ∷ ids) = omega (arith, no_links_lem n d i, none i ids)
