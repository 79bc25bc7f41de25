-- ===== src/Permissions/Glob/Search.antt =====
-- The search by indices with its memo finds what the search without them finds.
use othala.Base.{
  at, ℕ, zero, suc, ◌+◌, ◌≤◌, ◌<◌, ◌≡◌, refl, sym, ◌∙◌, ◌↔◌, ◌⊎◌, inl, inr, Bool, true, false, ◌&&◌,
  ◌||◌, not, none, some, List, [], ◌∷◌, arith, nat_beq, length, Option-cases,
}
use othala.Base.Assoc.{get, get-insert}
use othala.Permissions.Glob.{
  GlobToken, literal, any_char_no_slash, star_no_slash, star_any, slash, tokenize_glob, place_eq,
  Memo, Answer, and_then, or_else, match_token, match_here, remember, wildcard_match_impl,
  wildcard_match,
}
use othala.Permissions.Glob.Laws.{Matches, match_one, matches, matches_sound, matches_complete}

-- What is left from an index on.
abbrev from {ℓ} : {A : Type ℓ} → List A → ℕ → List A
from xs zero = xs
from [] (suc i) = []
from (x ∷ xs) (suc i) = from xs i

-- The text from an index on starts with the entry at that index, or is empty.
from-at {ℓ} :
    {A : Type ℓ} (xs : List A) (i : ℕ)
    → ((at xs i ≡ none) × (from xs i ≡ []))
      ⊎ ((x : A) × (at xs i ≡ some x) × (from xs i ≡ x ∷ from xs (suc i)) × (i < length xs))
from-at [] zero = inl (refl, refl)
from-at [] (suc i) = inl (refl, refl)
from-at (x ∷ xs) zero = inr (x, refl, refl, ground arith)
from-at (x ∷ xs) (suc i) = elim (from-at xs i) [
  | inl (e, e') ↦ inl (e, e')
  | inr (y, e, e', less) ↦ inr (y, e, e', ground (arith, less))
]

module _ (tokens : List GlobToken) (text : List ℕ) where
  abbrev expected : ℕ → ℕ → Bool
  expected i j = matches (from tokens i) (from text j)

  -- Every result in the memo is the right one.
  abbrev IsSound : Memo → Type 0
  IsSound memo = (i j : ℕ) (b : Bool) → get memo (i, j) ≡ some b → b ≡ expected i j

  abbrev Gives : Bool → Answer → Type 0
  Gives value (result, memo) = (result ≡ value) × IsSound memo

  -- What a recursive call has to keep, where the tokens and the text left are at most `fuel`.
  abbrev CallsRight : (ℕ → ℕ → Memo → Answer) → ℕ → Type 0
  CallsRight call fuel =
      (i j : ℕ) (memo : Memo)
      → i ≤ length tokens
      → j ≤ length text
      → length tokens + length text < fuel + (i + j)
      → IsSound memo
      → Gives (expected i j) (call i j memo)

  remember-Gives :
      (i j : ℕ) (a : Answer) → Gives (expected i j) a → Gives (expected i j) (remember (i, j) a)
  remember-Gives i j (result, memo) (right, sound) = (
    right,
    λ i' j' b h. ground (
      arith,
      get-insert memo (i, j) (i', j') result,
      place_eq.same_iff (i, j) (i', j'),
      sound i' j' b,
    ),
  )

  and_then-Gives :
      (b value : Bool) (a : Answer) (memo : Memo)
      → Gives value a
      → IsSound memo
      → Gives (b && value) (and_then b a memo)
  and_then-Gives true value a memo h sound = h
  and_then-Gives false value a memo h sound = (refl, sound)

  or_else-Gives :
      (value other : Bool) (a : Answer) (rest : Memo → Answer)
      → Gives value a
      → ((memo : Memo) → IsSound memo → Gives other (rest memo))
      → Gives (value || other) (or_else a rest)
  or_else-Gives value other (true, memo) rest (e, sound) h = (rw (← e) refl, sound)
  or_else-Gives value other (false, memo) rest (e, sound) h = rw (← e) (h memo sound)

  or_else-Gives_alone :
      (value : Bool) (a : Answer) → Gives value a → Gives value (or_else a (λ memo. (false, memo)))
  or_else-Gives_alone value (true, memo) h = h
  or_else-Gives_alone value (false, memo) h = h

  module _ (call : ℕ → ℕ → Memo → Answer) (i j : ℕ) (memo : Memo) (rest : List ℕ → Bool) where
    -- At the end of the text.
    match_token-Gives_at_end :
        (t : GlobToken)
        → IsSound memo
        → Gives (rest []) (call (suc i) j memo)
        → Gives (match_one t rest []) (match_token call t none i j memo)
    unfolding match_token match_one
    match_token-Gives_at_end (literal ch) sound skip = (refl, sound)
    match_token-Gives_at_end any_char_no_slash sound skip = (refl, sound)
    match_token-Gives_at_end star_no_slash sound skip = or_else-Gives_alone (rest []) _ skip
    match_token-Gives_at_end star_any sound skip = or_else-Gives_alone (rest []) _ skip

    -- Before a character.
    match_token-Gives_before :
        (t : GlobToken) (c : ℕ) (cs : List ℕ)
        → IsSound memo
        → Gives (rest (c ∷ cs)) (call (suc i) j memo)
        → Gives (rest cs) (call (suc i) (suc j) memo)
        → ((memo' : Memo) → IsSound memo' → Gives (match_one t rest cs) (call i (suc j) memo'))
        → Gives (match_one t rest (c ∷ cs)) (match_token call t (some c) i j memo)
    unfolding match_token match_one
    match_token-Gives_before (literal ch) c cs sound skip both stay =
        and_then-Gives (nat_beq c ch) (rest cs) _ memo both sound
    match_token-Gives_before any_char_no_slash c cs sound skip both stay =
        and_then-Gives (not (nat_beq c slash)) (rest cs) _ memo both sound
    match_token-Gives_before star_no_slash c cs sound skip both stay =
        or_else-Gives (rest (c ∷ cs)) _ _ _ skip (λ memo' sound'.
          and_then-Gives (not (nat_beq c slash)) _ _ memo' (stay memo' sound') sound')
    match_token-Gives_before star_any c cs sound skip both stay =
        or_else-Gives (rest (c ∷ cs)) _ _ _ skip stay

  match_here-Gives :
      (call : ℕ → ℕ → Memo → Answer) (fuel i j : ℕ) (memo : Memo)
      → CallsRight call fuel
      → i ≤ length tokens
      → j ≤ length text
      → length tokens + length text < suc fuel + (i + j)
      → IsSound memo
      → Gives (expected i j) (match_here call (at tokens i) (at text j) i j memo)
  unfolding match_here matches
  match_here-Gives call fuel i j memo right le le' enough sound = elim (from-at tokens i) [
    | inl (none_at, over) ↦ elim (from-at text j) [
      | inl (none_at', over') ↦ rw (none_at, none_at', over, over') (refl, sound)
      | inr (c, at', before, less') ↦ rw (none_at, at', over, before) (refl, sound)
    ]
    | inr (t, at_t, front, less) ↦
        let skip = right (suc i) j memo (ground arith) le' (ground arith) sound in
        elim (from-at text j) [
          | inl (none_at', over') ↦
              rw (at_t, none_at', front, over')
                (match_token-Gives_at_end call i j memo (matches (from tokens (suc i))) t sound
                  (rw over' at skip))
          | inr (c, at', before, less') ↦
              let both =
                right (suc i) (suc j) memo (ground arith) (ground arith) (ground arith) sound in
              let stay : (memo' : Memo)
                  → IsSound memo'
                  → Gives (match_one t (matches (from tokens (suc i))) (from text (suc j)))
                      (call i (suc j) memo') =
                λ memo' sound'.
                  rw front at (right i (suc j) memo' le (ground arith) (ground arith) sound') in
              rw (at_t, at', front, before)
                (match_token-Gives_before call i j memo (matches (from tokens (suc i))) t c
                  (from text (suc j)) sound (rw before at skip) both stay)
        ]
  ]

  wildcard_match_impl-Gives : (fuel : ℕ) → CallsRight (wildcard_match_impl fuel tokens text) fuel
  unfolding wildcard_match_impl
  wildcard_match_impl-Gives zero i j memo le le' enough sound =
      absurd (omega (arith, le, le', enough))
  wildcard_match_impl-Gives (suc fuel) i j memo le le' enough sound =
      elim (Option-cases (get memo (i, j))) [
        | inr (cached, e) ↦ rw (wildcard_match_impl, e) (sound i j cached e, sound)
        | inl e ↦
            rw (wildcard_match_impl, e)
              (remember-Gives i j _ (
                match_here-Gives (wildcard_match_impl fuel tokens text) fuel i j memo
                  (wildcard_match_impl-Gives fuel) le le' enough sound))
      ]

  search_lem :
      (wildcard_match_impl (suc (length tokens + length text)) tokens text 0 0 []).0
      ≡ matches tokens text
  search_lem =
      (wildcard_match_impl-Gives (suc (length tokens + length text)) 0 0 [] (ground arith)
        (ground arith) (ground arith) (λ i j b h. absurd (unfold get in ground arith))).0

-- The search answers true exactly for the texts that the tokens of the pattern match, where a star
-- and a question mark stand for characters other than a slash, and a double star for any. The memo
-- never changes an answer, and the fuel is enough for every pattern and text.
pub wildcard_match_iff :
    (pattern text : List ℕ)
    → (wildcard_match pattern text ≡ true) ↔ Matches (tokenize_glob pattern) text
unfolding wildcard_match
wildcard_match_iff pattern text =
    let same = search_lem (tokenize_glob pattern) text in
    (λ h. matches_sound (tokenize_glob pattern) text (sym same ∙ h), λ m. same ∙ matches_complete m)
