-- ===== src/Keys/Print.antt =====
-- Commands written out, as `processKeys` is to read them.
pub mod Back
mod Words
use pico_rfu.Prelude.{
  ℕ, zero, suc, ◌+◌, ◌-◌, ◌*◌, ◌/◌, ◌%◌, ◌^◌, ◌≤◌, ◌<◌, ◌≡◌, ◌≢◌, refl, ap, ap₂, sym, ◌∙◌, List, [],
  ◌∷◌, ◌++◌,
}
use pico_rfu.Prelude.{
  map, append_assoc, append-nil, Bool, true, false, ◌&&◌, ◌||◌, inl, inr, Bool-cases, arith, ltb,
  leb, ◌==◌,
}
use pico_rfu.Prelude.{if◌then◌else◌, ℤ, pos, codes, is_empty}
use pico_rfu.Keys.Text.{
  tokens_from, tokens, starts_with, digits_from, atoi, to_u16, Token, classify,
}
use pico_rfu.Keys.Text.{release, and, at, full, thru, number}

-- A number in decimal, with so many digits at most behind the first.
abbrev pub digits : ℕ → ℕ → List ℕ
digits zero n = (48 + n) ∷ []
digits (suc k) n =
    let rest = digits k (n / 10) in if ltb n 10 then (48 + n) ∷ [] else rest ++ ((48 + n % 10) ∷ [])

-- Numbers of five digits are enough for a `uint16_t`.
abbrev pub spell : Token → List ℕ
spell release = codes "release"
spell and = codes "AND"
spell at = codes "AT"
spell full = codes "FULL"
spell thru = codes "THRU"
spell (number n) = digits 4 n

-- Words with a space between.
abbrev pub join : List (List ℕ) → List ℕ
join [] = []
join (w ∷ []) = w
join (w ∷ v ∷ ws) = w ++ (b' ' ∷ join (v ∷ ws))

abbrev pub print : List Token → List ℕ
print ts = join (map spell ts)

abbrev pub NoSpace : List ℕ → Type 0
NoSpace [] = Unit {0}
NoSpace (c ∷ cs) = (c ≢ b' ') × NoSpace cs

-- Each is not empty and has no space.
abbrev pub AreWords : List (List ℕ) → Type 0
AreWords [] = Unit {0}
AreWords (w ∷ ws) = (is_empty w ≡ false) × NoSpace w × AreWords ws

-- The numbers fit a `uint16_t`.
abbrev pub AreShort : List Token → Type 0
AreShort [] = Unit {0}
AreShort (number n ∷ ts) = (n < 2 ^ 16) × AreShort ts
AreShort (release ∷ ts) = AreShort ts
AreShort (and ∷ ts) = AreShort ts
AreShort (at ∷ ts) = AreShort ts
AreShort (full ∷ ts) = AreShort ts
AreShort (thru ∷ ts) = AreShort ts
