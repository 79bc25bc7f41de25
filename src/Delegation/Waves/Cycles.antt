-- ===== src/Delegation/Waves/Cycles.antt =====
-- The loop of `build_graph` that counts the resolved subtasks: it never resolves a subtask that
-- waits, over any number of others, for itself.
use mathlib.Core.List.{Memᴰ}
use mathlib.Core.List.Memᴰ
use othala.Base.{
  ℕ, zero, suc, ◌+◌, ◌-◌, ◌≤◌, ◌<◌, ◌≡◌, refl, sym, ap, inl, inr, not, List, [], ◌∷◌, filter, All,
  All-map, All-mem, All-weaken, count, count-append, length, if◌then◌else◌, index_eq, ◌==◌, arith,
  Bool-cases,
}
use othala.Delegation.{range}
use othala.Delegation.Waves.{
  Graph, adjust, children_of, indegree_of, release, resolve, reversed, free_of, unresolved,
}
use othala.Delegation.Waves.Counts.{total, waits, indegree-lower}
use othala.Delegation.Waves.Rounds.{length-total}
use othala.Delegation.Waves.Links.{IsGraph, count-range}
use othala.Delegation.Waves.Loop.{IsStuck, ℕ-cases, waits-pos}

abbrev times : ℕ → List ℕ → ℕ
times j ids = count (λ x. x == j) ids

abbrev drop_id : ℕ → List ℕ → List ℕ
drop_id idx ids = filter (λ x. not (x == idx)) ids

times-drop_id :
    (idx j : ℕ) (ids : List ℕ) → times j (drop_id idx ids) ≡ (if j == idx then 0 else times j ids)
times-drop_id idx j [] = ground arith
times-drop_id idx j (x ∷ ids) = ground (arith, times-drop_id idx j ids)

total-absent :
    (f : ℕ → ℕ) (idx : ℕ) (ids : List ℕ)
    → times idx ids ≡ 0
    → total f (drop_id idx ids) ≡ total f ids
total-absent f idx [] h = refl
total-absent f idx (x ∷ ids) h = ground (arith, h, total-absent f idx ids)

total-drop_id :
    (f : ℕ → ℕ) (idx : ℕ) (ids : List ℕ)
    → times idx ids ≡ 1
    → total f ids ≡ f idx + total f (drop_id idx ids)
total-drop_id f idx [] h = absurd (ground arith)
total-drop_id f idx (x ∷ ids) h = elim (Bool-cases (x == idx)) [
  | inl hit ↦
      let e : x ≡ idx = (index_eq.same_iff x idx).0 hit in
      let rest : times idx ids ≡ 0 = ground (arith, h, hit) in
      ground (arith, hit, ap f e, total-absent f idx ids rest)
  | inr miss ↦
      let rest : times idx ids ≡ 1 = ground (arith, h, miss) in
      ground (arith, miss, total-drop_id f idx ids rest)
]

-- What holds while the children `rest` of a resolved subtask are still to be released: `left` are the
-- subtasks that are not resolved.
abbrev IsAt : List (List ℕ) → List ℕ → List ℕ → List ℕ × List ℕ → Type 0
IsAt children left rest (queue, indegree) =
    ((i : ℕ) → indegree_of indegree i ≡ waits children i left + count (λ c. i == c) rest)
    × ((i : ℕ) → 1 ≤ indegree_of indegree i → 1 ≤ times i left)
    × ((i : ℕ) → 1 ≤ times i queue → indegree_of indegree i ≡ 0)
    × ((i : ℕ) → times i queue ≤ times i left)

release-IsAt :
    (children : List (List ℕ)) (left rest queue indegree : List ℕ)
    → IsAt children left rest (queue, indegree)
    → IsAt children left [] (release rest (queue, indegree))
unfolding release
release-IsAt children left [] queue indegree good = good
release-IsAt children left (c ∷ rest) queue indegree (right, open_left, queued_free, queued_left) =
    release-IsAt children left rest (if indegree_of lowered c == 0 then c ∷ queue else queue)
      lowered
      (
        λ i. ground (arith, right i, indegree-lower indegree c i),
        λ i. ground (arith, open_left i, indegree-lower indegree c i),
        λ i.
            ground (arith, queued_free i, indegree-lower indegree c i, indegree-lower indegree c c),
        λ i. ground (arith, queued_left i, queued_free c, right c, open_left c, c_here),
      )
  where
    lowered : List ℕ
    lowered = adjust (λ n. n - 1) indegree c

    c_here : 1 ≤ count (λ x. c == x) (c ∷ rest)
    c_here = ground (arith, index_eq.same_iff c c)

mem-times : (i : ℕ) (ids : List ℕ) → Memᴰ i ids → 1 ≤ times i ids
mem-times i [] m = elim m [ ]
mem-times i (x ∷ ids) m = elim (Memᴰ.cases_cons m) [
  | inl e ↦ ground (arith, index_eq.same_iff x i, sym e)
  | inr later ↦ ground (arith, mem-times i ids later)
]

times-mem : (i : ℕ) (ids : List ℕ) → 1 ≤ times i ids → Memᴰ i ids
times-mem i [] h = absurd (omega (arith, h))
times-mem i (x ∷ ids) h = elim (Bool-cases (x == i)) [
  | inl hit ↦ Memᴰ.head (sym ((index_eq.same_iff x i).0 hit))
  | inr miss ↦ Memᴰ.tail (times-mem i ids (rw miss at h))
]

waits-mem :
    (children : List (List ℕ)) (i : ℕ) (ids : List ℕ)
    → 1 ≤ waits children i ids
    → (d : ℕ) × Memᴰ d ids × (1 ≤ count (λ c. i == c) (children_of children d))
waits-mem children i [] h = absurd (omega (arith, h))
waits-mem children i (d ∷ ids) h = elim (ℕ-cases (count (λ c. i == c) (children_of children d))) [
  | inr here ↦ (d, Memᴰ.head refl, here)
  | inl none ↦
      let (d', m, pos) = waits-mem children i ids (omega (arith, h, none)) in (d', Memᴰ.tail m, pos)
]

-- A subtask that waits for one of `left` has an indegree.
stuck-open :
    (children : List (List ℕ)) (i : ℕ) (stuck left : List ℕ)
    → All (λ j. 1 ≤ times j left) stuck
    → 1 ≤ waits children i stuck
    → 1 ≤ waits children i left
stuck-open children i stuck left inside h =
    let (d, m, pos) = waits-mem children i stuck h in
    waits-pos children i d left (times-mem d left (All-mem _ stuck inside m)) pos

length-pos : (s : ℕ) (left : List ℕ) → 1 ≤ times s left → 0 < length left
length-pos s [] h = h
length-pos s (x ∷ left) h = omega arith

pub length-range : (start n : ℕ) → length (range start n) ≡ n
length-range start zero = refl
length-range start (suc n) = ap suc (length-range (suc start) n)

-- Subtasks that block each other are never resolved, so fewer are than there are left.
resolve-lt :
    (fuel : ℕ) (children : List (List ℕ)) (s : ℕ) (stuck left queue indegree : List ℕ)
    → IsStuck children (s ∷ stuck)
    → All (λ j. 1 ≤ times j left) (s ∷ stuck)
    → ((j : ℕ) → times j left ≤ 1)
    → IsAt children left [] (queue, indegree)
    → resolve fuel children (queue, indegree) < length left
unfolding resolve
resolve-lt zero children s stuck left queue indegree blocked inside once good =
    length-pos s left inside.0
resolve-lt (suc fuel) children s stuck left [] indegree blocked inside once good =
    length-pos s left inside.0
resolve-lt (suc fuel) children s stuck left (idx ∷ queue) indegree blocked inside once
      (right, open_left, queued_free, queued_left) =
    let there : times idx left ≡ 1 =
      ground (arith, once idx, queued_left idx, index_eq.same_iff idx idx) in
    let free : indegree_of indegree idx ≡ 0 =
      ground (arith, queued_free idx, index_eq.same_iff idx idx) in
    let shorter : length left ≡ 1 + length (drop_id idx left) = omega (
      arith,
      length-total left,
      length-total (drop_id idx left),
      total-drop_id (λ _. 1) idx left there,
    ) in
    let still : All (λ j. 1 ≤ times j (drop_id idx left)) (s ∷ stuck) =
      All-weaken _ (s ∷ stuck) (λ j m.
        let waiting =
          stuck-open children j (s ∷ stuck) left inside (All-mem _ (s ∷ stuck) blocked m) in
        let held = All-mem (λ k. 1 ≤ times k left) (s ∷ stuck) inside m in
        ground (
          arith,
          waiting,
          held,
          right j,
          right idx,
          free,
          times-drop_id idx j left,
          index_eq.same_iff j idx,
        )) in
    let next = release (children_of children idx) (queue, indegree) in
    let fewer =
      resolve-lt fuel children s stuck (drop_id idx left) next.0 next.1 blocked still
        (λ j. ground (arith, once j, times-drop_id idx j left))
        (release-IsAt children (drop_id idx left) (children_of children idx) queue indegree (
          λ i. omega (
            arith,
            right i,
            total-drop_id (λ d. count (λ c. i == c) (children_of children d)) idx left there,
          ),
          λ i. ground (arith, open_left i, times-drop_id idx i left, index_eq.same_iff i idx, free),
          λ i. ground (arith, queued_free i),
          λ i. ground (
            arith,
            queued_left i,
            times-drop_id idx i left,
            index_eq.same_iff i idx,
            index_eq.same_iff idx i,
            once i,
          ),
        )) in
    omega (arith, shorter, fewer)

times-reversed : (j : ℕ) (ids : List ℕ) → times j (reversed ids) ≡ times j ids
unfolding reversed
times-reversed j [] = refl
times-reversed j (x ∷ ids) =
    ground (arith, count-append (λ y. y == j) (reversed ids) (x ∷ []), times-reversed j ids)

times-free_of :
    (indegree ids : List ℕ) (j : ℕ)
    → times j (free_of indegree ids) ≡ (if indegree_of indegree j == 0 then times j ids else 0)
times-free_of indegree [] j = ground arith
times-free_of indegree (x ∷ ids) j = elim (Bool-cases (x == j)) [
  | inl hit ↦
      let e : x ≡ j = (index_eq.same_iff x j).0 hit in
      ground (arith, hit, times-free_of indegree ids j, ap (indegree_of indegree) e)
  | inr miss ↦ ground (arith, miss, times-free_of indegree ids j)
]

indegree-outside : (indegree : List ℕ) (i : ℕ) → length indegree ≤ i → indegree_of indegree i ≡ 0
indegree-outside [] i h = refl
indegree-outside (n ∷ rest) zero h = absurd (omega (arith, h))
indegree-outside (n ∷ rest) (suc i) h = indegree-outside rest i (omega (arith, h))

-- Subtasks that block each other stay unresolved.
pub unresolved-IsStuck :
    (n : ℕ) (graph : Graph) (s : ℕ) (stuck : List ℕ)
    → IsGraph n graph
    → IsStuck graph.children (s ∷ stuck)
    → All (λ j. Memᴰ j (range 0 n)) (s ∷ stuck)
    → 0 < unresolved n graph
unfolding unresolved
unresolved-IsStuck n graph s stuck (_, size, right) blocked inside =
    let first = reversed (free_of graph.indegree (range 0 n)) in
    let below =
      resolve-lt n graph.children s stuck (range 0 n) first graph.indegree blocked
        (All-map (λ j m. mem-times j (range 0 n) m) (s ∷ stuck) inside)
        (λ j. ground (arith, count-range 0 n j))
        (
          λ i. omega (arith, right i),
          λ i. ground (arith, count-range 0 n i, indegree-outside graph.indegree i, size),
          λ i. ground (
            arith,
            times-reversed i (free_of graph.indegree (range 0 n)),
            times-free_of graph.indegree (range 0 n) i,
          ),
          λ i. ground (
            arith,
            times-reversed i (free_of graph.indegree (range 0 n)),
            times-free_of graph.indegree (range 0 n) i,
          ),
        ) in
    omega (arith, below, length-range 0 n)
