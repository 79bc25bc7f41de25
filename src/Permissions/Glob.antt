-- ===== src/Permissions/Glob.antt =====
-- The glob patterns of crates/orchd/src/permissions.rs: `tokenize_glob` and `wildcard_match`.
pub mod Laws
pub mod Search
use othala.Base.{
  at, ℕ, zero, suc, ◌+◌, Bool, true, false, ◌&&◌, ◌||◌, not, Option, none, some, List, [], ◌∷◌,
  nat_beq, is_empty, length, PartialEq, index_eq, ◌↔◌, ◌≡◌, arith, if◌then◌else◌,
}
use othala.Base.Assoc.{Assoc, get, insert}

pub data GlobToken : Type 0 where
  literal : ℕ → GlobToken
  any_char_no_slash star_no_slash star_any : GlobToken

-- The codes of '*', '?' and '/'.
abbrev pub asterisk : ℕ
asterisk = 42

abbrev pub question : ℕ
question = 63

abbrev pub slash : ℕ
slash = 47

-- The loop of `tokenize_glob`, which looks one character ahead.
unfoldable pub tokenize_glob : List ℕ → List GlobToken
tokenize_glob [] = []
tokenize_glob (c ∷ []) =
    (if nat_beq c asterisk
      then star_no_slash
      else if nat_beq c question
      then any_char_no_slash
      else literal c)
    ∷ []
tokenize_glob (c ∷ d ∷ rest) =
    let after_both = tokenize_glob rest in
    let after_one = tokenize_glob (d ∷ rest) in
    if nat_beq c asterisk
    then (if nat_beq d asterisk then star_any ∷ after_both else star_no_slash ∷ after_one)
    else (if nat_beq c question then any_char_no_slash else literal c) ∷ after_one

abbrev pub Place : Type 0
Place = ℕ × ℕ

abbrev pub place_beq : Place → Place → Bool
place_beq (i, j) (i', j') = nat_beq i i' && nat_beq j j'

pub place_beq_iff : (p q : Place) → (place_beq p q ≡ true) ↔ (p ≡ q)
place_beq_iff (i, j) (i', j') = ground arith

instance abbrev pub place_eq : PartialEq Place
place_eq = record { same = place_beq; same_iff = place_beq_iff }

abbrev pub Memo : Type 0
Memo = Assoc Place Bool

-- What a recursive call answers: the result, and the memo it leaves.
abbrev pub Answer : Type 0
Answer = Bool × Memo

-- `a && rest`, where `rest` is only run if `a` holds.
abbrev pub and_then : Bool → Answer → Memo → Answer
and_then a rest memo = elim a [ true ↦ rest | false ↦ (false, memo) ]

-- `first || rest`, where `rest` is only run, on the memo that is left, if `first` does not hold.
abbrev pub or_else : Answer → (Memo → Answer) → Answer
or_else (found, memo) rest = elim found [ true ↦ (true, memo) | false ↦ rest memo ]

-- The arms of the `match` on a token; `call` is the recursive call.
unfoldable pub match_token : (ℕ → ℕ → Memo → Answer) → GlobToken → Option ℕ → ℕ → ℕ → Memo → Answer
match_token call (literal ch) none i j memo = (false, memo)
match_token call (literal ch) (some c) i j memo =
    and_then (nat_beq c ch) (call (suc i) (suc j) memo) memo
match_token call any_char_no_slash none i j memo = (false, memo)
match_token call any_char_no_slash (some c) i j memo =
    and_then (not (nat_beq c slash)) (call (suc i) (suc j) memo) memo
match_token call star_no_slash none i j memo =
    or_else (call (suc i) j memo) (λ memo'. (false, memo'))
match_token call star_no_slash (some c) i j memo =
    or_else (call (suc i) j memo)
      (λ memo'. and_then (not (nat_beq c slash)) (call i (suc j) memo') memo')
match_token call star_any none i j memo = or_else (call (suc i) j memo) (λ memo'. (false, memo'))
match_token call star_any (some c) i j memo =
    or_else (call (suc i) j memo) (λ memo'. call i (suc j) memo')

-- `token_idx == tokens.len()`, or the token there.
unfoldable pub match_here :
    (ℕ → ℕ → Memo → Answer) → Option GlobToken → Option ℕ → ℕ → ℕ → Memo → Answer
unfolding match_token
match_here call none none i j memo = (true, memo)
match_here call none (some c) i j memo = (false, memo)
match_here call (some token) c i j memo = match_token call token c i j memo

abbrev pub remember : Place → Answer → Answer
remember place (result, memo) = (result, insert memo place result)

-- Each call moves on in the tokens or in the text, so the fuel bounds the depth.
unfoldable pub wildcard_match_impl : ℕ → List GlobToken → List ℕ → ℕ → ℕ → Memo → Answer
unfolding match_here match_token
wildcard_match_impl zero tokens text i j memo = (false, memo)
wildcard_match_impl (suc fuel) tokens text i j memo = elim (get memo (i, j)) [
  | some cached ↦ (cached, memo)
  | none ↦
      remember (i, j)
        (match_here (wildcard_match_impl fuel tokens text) (at tokens i) (at text j) i j memo)
]

unfoldable pub wildcard_match : List ℕ → List ℕ → Bool
unfolding tokenize_glob wildcard_match_impl match_here match_token
wildcard_match pattern text =
    let tokens = tokenize_glob pattern in
    (wildcard_match_impl (suc (length tokens + length text)) tokens text 0 0 []).0
