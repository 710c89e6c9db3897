-- ===== src/Keys/Text.antt =====
-- ProjectFiles/main.cpp: how `processKeys` takes a key string apart. A string is the codes of its
-- characters, without the final NUL.
use pico_rfu.Prelude.{
  ℕ, ◌+◌, ◌-◌, ◌*◌, ◌%◌, ◌^◌, List, [], ◌∷◌, ◌++◌, Bool, true, false, ◌&&◌, ◌||◌,
}
use pico_rfu.Prelude.{ℤ, pos, negsuc, codes, is_empty, leb, ◌==◌, if◌then◌else◌}

abbrev flush : List ℕ → List (List ℕ) → List (List ℕ)
flush token rest = if is_empty token then rest else token ∷ rest

-- The calls of `strtok(…, " ")`, with the token that is being read.
unfoldable pub tokens_from : List ℕ → List ℕ → List (List ℕ)
tokens_from token [] = flush token []
tokens_from token (c ∷ cs) =
    let rest = tokens_from (if c == b' ' then [] else token ++ (c ∷ [])) cs in
    if c == b' ' then flush token rest else rest

unfoldable pub tokens : List ℕ → List (List ℕ)
unfolding tokens_from
tokens cs = tokens_from [] cs

-- `strncmp(t, prefix, length of prefix) == 0`
abbrev pub starts_with : List ℕ → List ℕ → Bool
starts_with [] t = true
starts_with (p ∷ ps) [] = false
starts_with (p ∷ ps) (c ∷ cs) = p == c && starts_with ps cs

-- `atoi`: white space, a sign, digits.
abbrev is_digit : ℕ → Bool
is_digit c = leb b'0' c && leb c b'9'

abbrev pub digits_from : ℕ → List ℕ → ℕ
digits_from n [] = n
digits_from n (c ∷ cs) =
    let rest = digits_from (n * 10 + (c - b'0')) cs in if is_digit c then rest else n

abbrev negative : ℕ → ℤ
negative n = if n == 0 then pos 0 else negsuc (n - 1)

abbrev pub atoi : List ℕ → ℤ
atoi [] = pos 0
atoi (c ∷ cs) =
    let rest = atoi cs in
    if (leb 9 c && leb c 13) || c == b' '
    then rest
    else if c == b'-'
    then negative (digits_from 0 cs)
    else if c == b'+'
    then pos (digits_from 0 cs)
    else pos (digits_from 0 (c ∷ cs))

-- An `int` stored in a `uint16_t`.
abbrev pub to_u16 : ℤ → ℕ
to_u16 (pos n) = n % 2 ^ 16
to_u16 (negsuc n) = 2 ^ 16 - 1 - n % 2 ^ 16

-- What the loop of `processKeys` tells apart.
pub data Token : Type 0 where
  release and at full thru : Token
  number : ℕ → Token

unfoldable pub classify : List ℕ → Token
classify t =
    if starts_with (codes "release") t
    then release
    else if starts_with (codes "AND") t
    then and
    else if starts_with (codes "AT") t
    then at
    else if starts_with (codes "FULL") t
    then full
    else if starts_with (codes "THRU") t
    then thru
    else number (to_u16 (atoi t))
