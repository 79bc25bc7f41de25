-- ===== src/Delegation/Waves/Precedence.antt =====
-- Waves in the order of their dependencies: what an order of execution promises.
use mathlib.Core.List.{Memᴰ}
use othala.Base.{
  ℕ, subst, inl, inr, List, [], ◌∷◌, ◌++◌, All, All-mem, All-weaken, All-map, append-nil,
  mem-append,
}
use othala.Delegation.Waves.Rounds.{concat}

-- What a subtask needs stands in the waves before its own, or in `done`.
abbrev pub InOrder : (ℕ → ℕ → Type 0) → List ℕ → List (List ℕ) → Type 0
InOrder Needs done [] = Unit
InOrder Needs done (w ∷ ws) =
    All (λ i. (d : ℕ) → Needs i d → Memᴰ d done) w × InOrder Needs (done ++ w) ws

InOrder-grow :
    (Needs : ℕ → ℕ → Type 0) (done more : List ℕ) (ws : List (List ℕ))
    → ((d : ℕ) → Memᴰ d done → Memᴰ d more)
    → InOrder Needs done ws
    → InOrder Needs more ws
InOrder-grow Needs done more [] sub h = tt
InOrder-grow Needs done more (w ∷ ws) sub h = (
  All-map (λ i met d need. sub d (met d need)) w h.0,
  InOrder-grow Needs (done ++ w) (more ++ w) ws grown h.1,
)
  where
    grown : (d : ℕ) → Memᴰ d (done ++ w) → Memᴰ d (more ++ w)
    grown d m = elim ((mem-append done w).0 m) [
      | inl old ↦ (mem-append more w).1 (inl (sub d old))
      | inr new ↦ (mem-append more w).1 (inr new)
    ]

-- Waves whose subtasks need only what is done may stand in front.
pub InOrder-front :
    (Needs : ℕ → ℕ → Type 0) (done : List ℕ) (front ws : List (List ℕ))
    → All (λ i. (d : ℕ) → Needs i d → Memᴰ d done) (concat front)
    → InOrder Needs (done ++ concat front) ws
    → InOrder Needs done (front ++ ws)
InOrder-front Needs done [] ws good h = subst (λ ids. InOrder Needs ids ws) (append-nil done) h
InOrder-front Needs done (w ∷ front) ws good h = (
  All-weaken _ w
      (λ i m. All-mem _ (w ++ concat front) good ((mem-append w (concat front)).1 (inl m))),
  InOrder-front Needs (done ++ w) front ws
      (All-weaken _ (concat front) (λ i m d need. (mem-append done w).1 (
        inl (All-mem _ (w ++ concat front) good ((mem-append w (concat front)).1 (inr m)) d need))))
      (InOrder-grow Needs (done ++ (w ++ concat front)) ((done ++ w) ++ concat front) ws regroup h),
)
  where
    regroup : (d : ℕ) → Memᴰ d (done ++ (w ++ concat front)) → Memᴰ d ((done ++ w) ++ concat front)
    regroup d m = elim ((mem-append done (w ++ concat front)).0 m) [
      | inl old ↦ (mem-append (done ++ w) (concat front)).1 (inl ((mem-append done w).1 (inl old)))
      | inr new ↦ elim ((mem-append w (concat front)).0 new) [
        | inl here ↦
            (mem-append (done ++ w) (concat front)).1 (inl ((mem-append done w).1 (inr here)))
        | inr later ↦ (mem-append (done ++ w) (concat front)).1 (inr later)
      ]
    ]
