-- ===== src/Permissions/Glob/Laws.antt =====
-- What a pattern matches, by a relation on tokens and text, and that the search with its memo
-- decides it.
use othala.Base.{
  ℕ, ◌≡◌, refl, inl, inr, Bool, true, false, ◌&&◌, ◌||◌, not, List, [], ◌∷◌, arith, nat_beq,
  is_empty, Bool-cases, ◌≢◌,
}
use othala.Permissions.Glob.{
  GlobToken, literal, any_char_no_slash, star_no_slash, star_any, slash, place_eq,
}

-- The tokens match the text.
pub data Matches : List GlobToken → List ℕ → Type 0 where
  done : Matches [] []
  same :
      {c : ℕ} {ts : List GlobToken} {cs : List ℕ}
      → Matches ts cs
      → Matches (literal c ∷ ts) (c ∷ cs)
  one :
      {c : ℕ} {ts : List GlobToken} {cs : List ℕ}
      → c ≢ slash
      → Matches ts cs
      → Matches (any_char_no_slash ∷ ts) (c ∷ cs)
  star_end : {ts : List GlobToken} {cs : List ℕ} → Matches ts cs → Matches (star_no_slash ∷ ts) cs
  star_more :
      {c : ℕ} {ts : List GlobToken} {cs : List ℕ}
      → c ≢ slash
      → Matches (star_no_slash ∷ ts) cs
      → Matches (star_no_slash ∷ ts) (c ∷ cs)
  any_end : {ts : List GlobToken} {cs : List ℕ} → Matches ts cs → Matches (star_any ∷ ts) cs
  any_more :
      {c : ℕ} {ts : List GlobToken} {cs : List ℕ}
      → Matches (star_any ∷ ts) cs
      → Matches (star_any ∷ ts) (c ∷ cs)

-- One token, and the test of the tokens behind it: a search without indices and without a memo.
unfoldable pub match_one : GlobToken → (List ℕ → Bool) → List ℕ → Bool
match_one (literal ch) rest [] = false
match_one (literal ch) rest (c ∷ cs) = nat_beq c ch && rest cs
match_one any_char_no_slash rest [] = false
match_one any_char_no_slash rest (c ∷ cs) = not (nat_beq c slash) && rest cs
match_one star_no_slash rest [] = rest []
match_one star_no_slash rest (c ∷ cs) =
    rest (c ∷ cs) || (not (nat_beq c slash) && match_one star_no_slash rest cs)
match_one star_any rest [] = rest []
match_one star_any rest (c ∷ cs) = rest (c ∷ cs) || match_one star_any rest cs

unfoldable pub matches : List GlobToken → List ℕ → Bool
unfolding match_one
matches [] cs = is_empty cs
matches (t ∷ ts) cs = match_one t (matches ts) cs

match_one_sound :
    (t : GlobToken) (ts : List GlobToken) (cs : List ℕ)
    → ((ds : List ℕ) → matches ts ds ≡ true → Matches ts ds)
    → match_one t (matches ts) cs ≡ true
    → Matches (t ∷ ts) cs
unfolding match_one
match_one_sound (literal ch) ts [] behind h = absurd (ground arith)
match_one_sound (literal ch) ts (c ∷ cs) behind h =
    let e : c ≡ ch = ground arith in rw e (same (behind cs (ground arith)))
match_one_sound any_char_no_slash ts [] behind h = absurd (ground arith)
match_one_sound any_char_no_slash ts (c ∷ cs) behind h =
    one (ground arith) (behind cs (ground arith))
match_one_sound star_no_slash ts [] behind h = star_end (behind [] h)
match_one_sound star_no_slash ts (c ∷ cs) behind h = elim (Bool-cases (matches ts (c ∷ cs))) [
  | inl now ↦ star_end (behind (c ∷ cs) now)
  | inr later ↦ star_more (ground arith) (match_one_sound star_no_slash ts cs behind (ground arith))
]
match_one_sound star_any ts [] behind h = any_end (behind [] h)
match_one_sound star_any ts (c ∷ cs) behind h = elim (Bool-cases (matches ts (c ∷ cs))) [
  | inl now ↦ any_end (behind (c ∷ cs) now)
  | inr later ↦ any_more (match_one_sound star_any ts cs behind (ground arith))
]

pub matches_sound : (ts : List GlobToken) (cs : List ℕ) → matches ts cs ≡ true → Matches ts cs
unfolding matches
matches_sound [] [] h = done
matches_sound [] (c ∷ cs) h = absurd (ground arith)
matches_sound (t ∷ ts) cs h = match_one_sound t ts cs (matches_sound ts) h

pub matches_complete : {ts : List GlobToken} {cs : List ℕ} → Matches ts cs → matches ts cs ≡ true
unfolding matches match_one
matches_complete done = refl
matches_complete (same m) = ground (arith, matches_complete m)
matches_complete (one free m) = ground (arith, matches_complete m)
matches_complete (star_end {cs = []} m) = matches_complete m
matches_complete (star_end {cs = c ∷ cs} m) = ground (arith, matches_complete m)
matches_complete (star_more free m) = ground (arith, matches_complete m)
matches_complete (any_end {cs = []} m) = matches_complete m
matches_complete (any_end {cs = c ∷ cs} m) = ground (arith, matches_complete m)
matches_complete (any_more m) = ground (arith, matches_complete m)
