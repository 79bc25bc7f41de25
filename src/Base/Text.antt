-- ===== src/Base/Text.antt =====
-- Texts as lists of characters, each by its code, and decimal numbers as `format!` prints them.
use Prim.Native.Nat.{ℕ, zero, suc, ◌/◌, ◌%◌, ◌+◌}
use Prim.Native.Char.{code}
use Prim.Native.String.{String, ◌++◌, [] as []ₛ, ◌∷◌ as ◌∷ₛ◌}
use mathlib.Core.Bool.{Bool, ◌&&◌, ◌||◌}
use mathlib.Core.List.{List, [], ◌∷◌, map}
use othala.Base.Tests.{ltb, leb, nat_beq, if◌then◌else◌}

-- `chars()`
unfoldable pub chars : String → List ℕ
chars []ₛ = []
chars (c ∷ₛ s) = code c ∷ chars s

-- `char::is_whitespace`, the Unicode property White_Space.
abbrev pub is_whitespace : ℕ → Bool
is_whitespace c =
    (leb 9 c && leb c 13)
    || nat_beq c 32
    || nat_beq c 133
    || nat_beq c 160
    || nat_beq c 5760
    || (leb 8192 c && leb c 8202)
    || nat_beq c 8232
    || nat_beq c 8233
    || nat_beq c 8239
    || nat_beq c 8287
    || nat_beq c 12288

unfoldable pub trim_start : List ℕ → List ℕ
trim_start [] = []
trim_start (c ∷ cs) = if is_whitespace c then trim_start cs else c ∷ cs

-- `c` in front of a text that is trimmed at its end.
abbrev pub in_front : ℕ → List ℕ → List ℕ
in_front c [] = if is_whitespace c then [] else c ∷ []
in_front c (d ∷ ds) = c ∷ d ∷ ds

unfoldable pub trim_end : List ℕ → List ℕ
trim_end [] = []
trim_end (c ∷ cs) = in_front c (trim_end cs)

unfoldable pub trim : List ℕ → List ℕ
unfolding trim_start trim_end
trim cs = trim_start (trim_end cs)

-- `replace` of one character by another.
abbrev pub replace : ℕ → ℕ → List ℕ → List ℕ
replace old fresh cs = map (λ c. if nat_beq c old then fresh else c) cs

-- `to_lowercase` as far as a comparison with a text of ASCII letters can tell: the letters A to Z,
-- and the Kelvin sign, the one other character whose lower case is such a letter.
abbrev pub lowercase : List ℕ → List ℕ
lowercase cs =
    map (λ c. if leb 65 c && leb c 90 then c + 32 else if nat_beq c 8490 then 107 else c) cs

abbrev pub digit : ℕ → String
digit zero = "0"
digit (suc zero) = "1"
digit (suc (suc zero)) = "2"
digit (suc (suc (suc zero))) = "3"
digit (suc (suc (suc (suc zero)))) = "4"
digit (suc (suc (suc (suc (suc zero))))) = "5"
digit (suc (suc (suc (suc (suc (suc zero)))))) = "6"
digit (suc (suc (suc (suc (suc (suc (suc zero))))))) = "7"
digit (suc (suc (suc (suc (suc (suc (suc (suc zero)))))))) = "8"
digit _ = "9"

-- The fuel is the number itself and one more; each round divides it by ten.
decimal_from : ℕ → ℕ → String
decimal_from zero n = ""
decimal_from (suc fuel) n =
    let front = decimal_from fuel (n / 10) in if ltb n 10 then digit n else front ++ digit (n % 10)

unfoldable pub decimal : ℕ → String
unfolding decimal_from
decimal n = decimal_from (suc n) n
