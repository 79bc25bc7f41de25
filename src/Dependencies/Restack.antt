-- ===== src/Dependencies/Restack.antt =====
-- The whole walk: its invariant, that the fuel is enough, and what it answers.
use mathlib.Core.List.{Memᴰ}
use othala.Base.{
  append-snoc, append-nil, ℕ, zero, suc, ◌≤◌, ◌≡◌, refl, sym, ap, subst, ◌∙◌, ◌↔◌, inl, inr, some,
  List, [], ◌∷◌, ◌++◌, arith, string_eq, length, mem-append, mem-single, List-cases,
}
use othala.Base.Sets.{NoRepeat}
use othala.Core.Task.{TaskId}
use othala.Dependencies.{
  DependencyGraph, children, Frontier, sorted_task_ids, enqueue, visit, edge_count,
  restack_descendants_for_parent,
}
use othala.Dependencies.Walk.{mem-sorted_task_ids, Descends, child, deeper}
use othala.Dependencies.Universe.{length-all_children, mem-all_children, unseen-nil}
use othala.Dependencies.Enqueue.{universe, work, Good, enqueue-Good, mem-enqueue, work-enqueue}

module _ (graph : DependencyGraph) (root : TaskId) where
  -- The children of the root and of every id put out are seen.
  abbrev Closed : List TaskId → Frontier → Type 0
  Closed out f =
      ((c : TaskId) → Memᴰ c (children graph root) → Memᴰ c f.seen)
      × ((n c : TaskId) → Memᴰ n out → Memᴰ c (children graph n) → Memᴰ c f.seen)

  -- The ids are the descendants of the root, each once.
  abbrev pub Lists : List TaskId → Type 0
  Lists ids = NoRepeat ids × ((a : TaskId) → Memᴰ a ids ↔ Descends graph root a)

  seen-Descends :
      (out : List TaskId) (f : Frontier)
      → ((a : TaskId) → Memᴰ a f.seen → Memᴰ a out)
      → Closed out f
      → (a : TaskId) → Descends graph root a
      → Memᴰ a f.seen
  seen-Descends out f settled closed a (child m) = closed.0 a m
  seen-Descends out f settled closed a (deeper {n = n} above m) =
      closed.1 n a (settled n (seen-Descends out f settled closed n above)) m

  -- Nothing is left in the queue.
  settled-Lists :
      (out : List TaskId) (f : Frontier)
      → Good graph root out f
      → Closed out f
      → f.queue ≡ []
      → Lists out
  settled-Lists out f good closed e =
      let whole : out ++ f.queue ≡ out = ap (λ q. out ++ q) e ∙ append-nil out in
      let settled : (a : TaskId) → Memᴰ a f.seen → Memᴰ a out =
        λ a m. subst (Memᴰ a) whole ((good.seen_iff a).0 m) in
      (
        subst NoRepeat whole good.once,
        λ a. (
          λ m. good.sound a (subst (Memᴰ a) (sym whole) m),
          λ h. settled a (seen-Descends out f settled closed a h),
        ),
      )

  -- The frontier after one round.
  abbrev round : Frontier → TaskId → List TaskId → Frontier
  round f node rest =
      enqueue record { seen = f.seen; queue = rest } (sorted_task_ids (children graph node))

  round-Good :
      (out : List TaskId) (f : Frontier) (node : TaskId) (rest : List TaskId)
      → f.queue ≡ node ∷ rest
      → Good graph root out f
      → Good graph root (out ++ node ∷ []) (round f node rest)
  round-Good out f node rest e good =
      let same : out ++ f.queue ≡ (out ++ node ∷ []) ++ rest =
        ap (λ q. out ++ q) e ∙ sym (append-snoc out node rest) in
      let above : Descends graph root node = good.sound node (
        subst (Memᴰ node) (sym (ap (λ q. out ++ q) e))
          ((mem-append out (node ∷ rest)).1 (inr (Memᴰ.head refl)))) in
      enqueue-Good graph root (out ++ node ∷ []) record { seen = f.seen; queue = rest }
        (sorted_task_ids (children graph node))
        (λ a m. deeper above ((mem-sorted_task_ids (children graph node) a).0 m))
        record {
          seen_iff = λ a. subst (λ ids. Memᴰ a f.seen ↔ Memᴰ a ids) same (good.seen_iff a);
          once = subst NoRepeat same good.once;
          sound = λ a. subst (λ ids. Memᴰ a ids → Descends graph root a) same (good.sound a);
        }

  round-Closed :
      (out : List TaskId) (f : Frontier) (node : TaskId) (rest : List TaskId)
      → Closed out f
      → Closed (out ++ node ∷ []) (round f node rest)
  round-Closed out f node rest closed =
      let popped : Frontier = record { seen = f.seen; queue = rest } in
      let ids = sorted_task_ids (children graph node) in
      (
        λ c m. mem-enqueue graph root popped ids c (inl (closed.0 c m)),
        λ n c m m'. elim ((mem-append out (node ∷ [])).0 m) [
          | inl old ↦ mem-enqueue graph root popped ids c (inl (closed.1 n c old m'))
          | inr e ↦
              let here : Memᴰ c (children graph node) =
                subst (λ x. Memᴰ c (children graph x)) ((mem-single n node).0 e) m' in
              mem-enqueue graph root popped ids c
                (inr ((mem-sorted_task_ids (children graph node) c).1 here))
        ],
      )

  in_universe :
      (n a : TaskId) → Memᴰ a (sorted_task_ids (children graph n)) → Memᴰ a (universe graph root)
  in_universe n a m =
      mem-all_children graph.children_by_parent n a ((mem-sorted_task_ids (children graph n) a).0 m)

  round-work :
      (f : Frontier) (node : TaskId) (rest : List TaskId)
      → f.queue ≡ node ∷ rest
      → suc (work graph root (round f node rest)) ≤ work graph root f
  round-work f node rest e =
      let popped : Frontier = record { seen = f.seen; queue = rest } in
      let less =
        work-enqueue graph root popped (sorted_task_ids (children graph node)) (in_universe node) in
      rw e (omega (arith, less))

  visit-empty :
      (fuel : ℕ) (out : List TaskId) (f : Frontier)
      → f.queue ≡ []
      → visit graph fuel out f ≡ some out
  unfolding visit
  visit-empty zero out f e = rw e refl
  visit-empty (suc fuel) out f e = rw e refl

  visit-round :
      (fuel : ℕ) (out : List TaskId) (f : Frontier) (node : TaskId) (rest : List TaskId)
      → f.queue ≡ node ∷ rest
      → visit graph (suc fuel) out f ≡ visit graph fuel (out ++ node ∷ []) (round f node rest)
  unfolding visit
  visit-round fuel out f node rest e = rw e refl

  visit_lem :
      (fuel : ℕ) (out : List TaskId) (f : Frontier)
      → Good graph root out f
      → Closed out f
      → work graph root f ≤ fuel
      → (ids : List TaskId) × (visit graph fuel out f ≡ some ids) × Lists ids
  visit_lem zero out f good closed enough = elim (List-cases f.queue) [
    | inl e ↦ (out, visit-empty _ out f e, settled-Lists out f good closed e)
    | inr (node, rest, e) ↦
        let nonempty : length f.queue ≡ suc (length rest) = ap length e in
        absurd (omega (arith, enough, nonempty))
  ]
  visit_lem (suc fuel) out f good closed enough = elim (List-cases f.queue) [
    | inl e ↦ (out, visit-empty _ out f e, settled-Lists out f good closed e)
    | inr (node, rest, e) ↦
        let less = round-work f node rest e in
        let (ids, answer, facts) =
          visit_lem fuel (out ++ node ∷ []) (round f node rest) (round-Good out f node rest e good)
            (round-Closed out f node rest closed) (omega (arith, less, enough)) in
        (ids, visit-round fuel out f node rest e ∙ answer, facts)
  ]

  -- The walk from a task ends, whatever cycles the graph has, and its answer holds the descendants
  -- of the task, that is its children, their children and so on, each exactly once.
  pub restack_descendants-Lists :
      (ids : List TaskId) × (restack_descendants_for_parent graph root ≡ some ids) × Lists ids
  unfolding restack_descendants_for_parent
  restack_descendants-Lists =
      let none_yet : Frontier = record { seen = []; queue = [] } in
      let ids = sorted_task_ids (children graph root) in
      let start : Good graph root [] none_yet = record {
        seen_iff = λ a. (λ m. m, λ m. m);
        once = tt;
        sound = λ a m. elim m [ ];
      } in
      let less = work-enqueue graph root none_yet ids (in_universe root) in
      visit_lem (edge_count graph.children_by_parent) [] (enqueue none_yet ids)
        (enqueue-Good graph root [] none_yet ids
          (λ a m. child ((mem-sorted_task_ids (children graph root) a).0 m)) start)
        (
          (λ c m.
              mem-enqueue graph root none_yet ids c
                (inr ((mem-sorted_task_ids (children graph root) c).1 m))),
          λ n c m m'. elim m [ ],
        )
        (omega (
          arith,
          less,
          unseen-nil (universe graph root),
          length-all_children graph.children_by_parent,
        ))
