-- ===== src/Dependencies/Enqueue.antt =====
-- The invariant of the walk, and that the inner loop keeps it.
use mathlib.Core.List.{Memᴰ}
use mathlib.Core.List.Memᴰ
use othala.Base.{
  snoc-append, ℕ, ◌+◌, ◌≤◌, ◌≡◌, refl, sym, subst, ◌↔◌, ◌⊎◌, inl, inr, List, [], ◌∷◌, ◌++◌, arith,
  string_eq, length, length-append, mem-append, mem-single,
}
use othala.Base.Sets.{NoRepeat, snoc-NoRepeat}
use othala.Core.Task.{TaskId}
use othala.Dependencies.{DependencyGraph, Frontier, push_back, enqueue}
use othala.Dependencies.Walk.{push_back-cases, Descends, unseen, unseen-new}
use othala.Dependencies.Universe.{all_children}

module _ (graph : DependencyGraph) (root : TaskId) where
  abbrev pub universe : List TaskId
  universe = all_children graph.children_by_parent

  -- What is left to do.
  abbrev pub work : Frontier → ℕ
  work f = length f.queue + unseen universe f.seen

  -- What was put out and what is queued are the ids seen, each once, and descendants of the root.
  pub record Good (out : List TaskId) (f : Frontier) : Type 0 where
    pub seen_iff : (a : TaskId) → Memᴰ a f.seen ↔ Memᴰ a (out ++ f.queue)
    pub once : NoRepeat (out ++ f.queue)
    pub sound : (a : TaskId) → Memᴰ a (out ++ f.queue) → Descends graph root a

  push_back-Good :
      (out : List TaskId) (f : Frontier) (a : TaskId)
      → Descends graph root a
      → Good out f
      → Good out (push_back f a)
  push_back-Good out f a h good = elim (push_back-cases f a) [
    | inl (_, e) ↦ rw e good
    | inr (new, e) ↦ rw e record {
      seen_iff = λ b. rw (snoc-append out f.queue a) (
        λ m. elim (Memᴰ.cases_cons m) [
          | inl e' ↦ (mem-append (out ++ f.queue) (a ∷ [])).1 (inr ((mem-single b a).1 e'))
          | inr old ↦ (mem-append (out ++ f.queue) (a ∷ [])).1 (inl ((good.seen_iff b).0 old))
        ],
        λ m. elim ((mem-append (out ++ f.queue) (a ∷ [])).0 m) [
          | inl old ↦ Memᴰ.tail ((good.seen_iff b).1 old)
          | inr e' ↦ Memᴰ.head ((mem-single b a).0 e')
        ],
      );
      once =
          rw (snoc-append out f.queue a)
            (snoc-NoRepeat (out ++ f.queue) a good.once (λ m. new ((good.seen_iff a).1 m)));
      sound = λ b. rw (snoc-append out f.queue a) (λ m.
          elim ((mem-append (out ++ f.queue) (a ∷ [])).0 m) [
            | inl old ↦ good.sound b old
            | inr e' ↦ subst (Descends graph root) (sym ((mem-single b a).0 e')) h
          ]);
    }
  ]

  pub enqueue-Good :
      (out : List TaskId) (f : Frontier) (ids : List TaskId)
      → ((a : TaskId) → Memᴰ a ids → Descends graph root a)
      → Good out f
      → Good out (enqueue f ids)
  unfolding enqueue
  enqueue-Good out f [] h good = good
  enqueue-Good out f (a ∷ ids) h good =
      enqueue-Good out (push_back f a) ids (λ b m. h b (Memᴰ.tail m))
        (push_back-Good out f a (h a (Memᴰ.head refl)) good)

  mem-push_back :
      (f : Frontier) (a b : TaskId) → (Memᴰ b f.seen ⊎ (b ≡ a)) → Memᴰ b (push_back f a).seen
  mem-push_back f a b m = elim (push_back-cases f a) [
    | inl (old, e) ↦ rw e (elim m [ inl m' ↦ m' | inr same ↦ Memᴰ.cast same old ])
    | inr (_, e) ↦ rw e (elim m [ inl m' ↦ Memᴰ.tail m' | inr same ↦ Memᴰ.head same ])
  ]

  pub mem-enqueue :
      (f : Frontier) (ids : List TaskId) (b : TaskId)
      → (Memᴰ b f.seen ⊎ Memᴰ b ids)
      → Memᴰ b (enqueue f ids).seen
  unfolding enqueue
  mem-enqueue f [] b m = elim m [ inl old ↦ old | inr none' ↦ elim none' [ ] ]
  mem-enqueue f (a ∷ ids) b m = mem-enqueue (push_back f a) ids b (elim m [
    | inl old ↦ inl (mem-push_back f a b (inl old))
    | inr here ↦ elim (Memᴰ.cases_cons here) [
      | inl e ↦ inl (mem-push_back f a b (inr e))
      | inr later ↦ inr later
    ]
  ])

  work-push_back : (f : Frontier) (a : TaskId) → Memᴰ a universe → work (push_back f a) ≤ work f
  work-push_back f a m = elim (push_back-cases f a) [
    | inl (_, e) ↦ rw e (ground arith)
    | inr (new, e) ↦
        rw e (ground (arith, length-append f.queue (a ∷ []), unseen-new universe f.seen a m new))
  ]

  pub work-enqueue :
      (f : Frontier) (ids : List TaskId)
      → ((a : TaskId) → Memᴰ a ids → Memᴰ a universe)
      → work (enqueue f ids) ≤ work f
  unfolding enqueue
  work-enqueue f [] h = ground arith
  work-enqueue f (a ∷ ids) h =
      let later = work-enqueue (push_back f a) ids (λ b m. h b (Memᴰ.tail m)) in
      let here = work-push_back f a (h a (Memᴰ.head refl)) in omega (arith, later, here)
