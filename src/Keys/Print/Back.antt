-- ===== src/Keys/Print/Back.antt =====
-- A printed command is read back as it is.
use pico_rfu.Prelude.{
  ℕ, zero, suc, ◌+◌, ◌-◌, ◌*◌, ◌/◌, ◌%◌, ◌^◌, ◌≤◌, ◌<◌, ◌≡◌, ◌≢◌, refl, ap, ap₂, ◌∙◌, List, [], ◌∷◌,
  ◌++◌,
}
use pico_rfu.Prelude.{map, Bool, true, false, ◌&&◌, inl, inr, Bool-cases, arith, ltb, leb, ◌==◌}
use pico_rfu.Prelude.{if◌then◌else◌, pos, is_empty}
use pico_rfu.Keys.Text.{tokens, digits_from, atoi, to_u16, Token, classify}
use pico_rfu.Keys.Text.{release, and, at, full, thru, number}
use pico_rfu.Keys.Print.{digits, spell, print, NoSpace, AreWords, AreShort}
use pico_rfu.Keys.Print.Words.{tokens-join}

abbrev AllDigits : List ℕ → Type 0
AllDigits [] = Unit {0}
AllDigits (c ∷ cs) = (48 ≤ c) × (c ≤ 57) × AllDigits cs

AllDigits-append :
    (xs : List ℕ) (c : ℕ) → AllDigits xs → 48 ≤ c → c ≤ 57 → AllDigits (xs ++ (c ∷ []))
AllDigits-append [] c h p q = (p, q, tt)
AllDigits-append (x ∷ xs) c h p q = (h.0, h.1, AllDigits-append xs c h.2 p q)

-- One more digit.
digits_from-append :
    (m c : ℕ) (xs : List ℕ)
    → AllDigits xs
    → 48 ≤ c
    → c ≤ 57
    → digits_from m (xs ++ (c ∷ [])) ≡ digits_from m xs * 10 + (c - 48)
digits_from-append m c [] h p q = ground arith
digits_from-append m c (x ∷ xs) h p q =
    ground (arith, digits_from-append (m * 10 + (x - 48)) c xs h.2 p q)

-- The numbers that are written out whole.
abbrev limit : ℕ → ℕ
limit zero = 10
limit (suc k) = limit k * 10

digits_lem : (k n : ℕ) → n < limit k → AllDigits (digits k n) × (digits_from 0 (digits k n) ≡ n)
digits_lem zero n h = ((omega arith, omega arith, tt), ground arith)
digits_lem (suc k) n h = elim (Bool-cases (ltb n 10)) [
  | inl y ↦ rw y ((omega arith, ground arith, tt), ground arith)
  | inr l ↦
      let (all, value) = digits_lem k (n / 10) (omega arith) in
      rw l (
        AllDigits-append (digits k (n / 10)) (48 + n % 10) all (omega arith) (omega arith),
        omega (
          arith,
          value,
          digits_from-append 0 (48 + n % 10) (digits k (n / 10)) all (omega arith) (omega arith),
        ),
      )
]

not_empty : (k n : ℕ) → is_empty (digits k n) ≡ false
not_empty zero n = refl
not_empty (suc k) n = elim (Bool-cases (ltb n 10)) [
  | inl y ↦ rw y
  | inr l ↦ rw l (behind (digits k (n / 10)))
]
  where
    behind : (xs : List ℕ) → is_empty (xs ++ ((48 + n % 10) ∷ [])) ≡ false
    behind [] = refl
    behind (x ∷ xs) = refl

AllDigits-NoSpace : (xs : List ℕ) → AllDigits xs → NoSpace xs
AllDigits-NoSpace [] h = tt
AllDigits-NoSpace (x ∷ xs) h = (omega (arith, h.0), AllDigits-NoSpace xs h.2)

==_apart : (x c : ℕ) → x ≢ c → (x == c) ≡ false
==_apart x c h = ground arith

no_white : (c : ℕ) → 48 ≤ c → (leb 9 c && leb c 13) ≡ false
no_white c h = ground arith

atoi_digits : (c : ℕ) (cs : List ℕ) → 48 ≤ c → c ≤ 57 → atoi (c ∷ cs) ≡ pos (digits_from 0 (c ∷ cs))
atoi_digits c cs p q = rw (
  no_white c p,
  ==_apart c 32 (omega arith),
  ==_apart c 45 (omega arith),
  ==_apart c 43 (omega arith),
)

-- A word of digits is a number.
classify_digits :
    (xs : List ℕ)
    → AllDigits xs
    → is_empty xs ≡ false
    → classify xs ≡ number (digits_from 0 xs % 2 ^ 16)
unfolding classify
classify_digits [] h e = absurd (cc)
classify_digits (c ∷ cs) h e =
    rw
      (
        ==_apart 114 c (omega (arith, h.1)),
        ==_apart 65 c (omega (arith, h.1)),
        ==_apart 70 c (omega (arith, h.1)),
        ==_apart 84 c (omega (arith, h.1)),
      )
      (ap (λ z. number (to_u16 z)) (atoi_digits c cs h.0 h.1))

-- What a token's word is: a word, and read back as the token.
SpeltBack : Token → Type 0
SpeltBack t = (is_empty (spell t) ≡ false) × NoSpace (spell t) × (classify (spell t) ≡ t)

spelt_number : (n : ℕ) → n < 2 ^ 16 → SpeltBack (number n)
unfolding SpeltBack
spelt_number n h =
    let (all, value) = digits_lem 4 n (omega arith) in
    (
      not_empty 4 n,
      AllDigits-NoSpace (digits 4 n) all,
      classify_digits (digits 4 n) all (not_empty 4 n) ∙ ap number (omega (arith, value)),
    )

spaceless : List ℕ → Bool
spaceless [] = true
spaceless (c ∷ cs) = let rest = spaceless cs in if c == b' ' then false else rest

spaceless-NoSpace : (cs : List ℕ) → spaceless cs ≡ true → NoSpace cs
unfolding spaceless
spaceless-NoSpace [] h = tt
spaceless-NoSpace (c ∷ cs) h = let (ne, rest) = split c cs h in (ne, spaceless-NoSpace cs rest)
  where
    split : (c : ℕ) (cs : List ℕ) → spaceless (c ∷ cs) ≡ true → (c ≢ b' ') × (spaceless cs ≡ true)
    split c cs k = ground arith

Spelt-back : (t : Token) → AreShort (t ∷ []) → SpeltBack t
unfolding SpeltBack classify spaceless
Spelt-back release h = (refl, spaceless-NoSpace (spell release) refl, refl)
Spelt-back and h = (refl, spaceless-NoSpace (spell and) refl, refl)
Spelt-back at h = (refl, spaceless-NoSpace (spell at) refl, refl)
Spelt-back full h = (refl, spaceless-NoSpace (spell full) refl, refl)
Spelt-back thru h = (refl, spaceless-NoSpace (spell thru) refl, refl)
Spelt-back (number n) h = spelt_number n h.0

short_parts : (t : Token) (ts : List Token) → AreShort (t ∷ ts) → AreShort (t ∷ []) × AreShort ts
short_parts release ts h = (tt, h)
short_parts and ts h = (tt, h)
short_parts at ts h = (tt, h)
short_parts full ts h = (tt, h)
short_parts thru ts h = (tt, h)
short_parts (number n) ts h = ((h.0, tt), h.1)

words_back :
    (ts : List Token) → AreShort ts → AreWords (map spell ts) × (map classify (map spell ts) ≡ ts)
unfolding SpeltBack
words_back [] h = (tt, refl)
words_back (t ∷ ts) h =
    let (one, rest) = short_parts t ts h in
    let (e, ns, back) = Spelt-back t one in
    let (words, all) = words_back ts rest in ((e, ns, words), ap₂ (λ a bs. a ∷ bs) back all)

-- A command whose numbers fit 16 bits, written out in words with a space between, is read back as
-- it is.
pub classify-print : (ts : List Token) → AreShort ts → map classify (tokens (print ts)) ≡ ts
classify-print ts h =
    let (words, back) = words_back ts h in
    ap (map classify) (tokens-join (map spell ts) words) ∙ back
