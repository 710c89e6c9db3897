-- ===== src/Prelude/Memory.antt =====
-- C objects as lists of bytes: checked reads and writes, `memcpy` and `memcmp`.
use Prim.Native.Nat.{zero, suc, ℕ, ◌+◌, ◌-◌, ◌≤◌, ◌<◌}
use mathlib.Core.Path.{◌≡◌, refl, ap, ap₂, ◌∙◌, sym}
use mathlib.Core.Logic.{◌↔◌}
use mathlib.Core.Bool.{Bool, true, false, ◌&&◌}
use mathlib.Core.List.{List, [], ◌∷◌, ◌++◌, append_assoc}
use mathlib.Core.Option.{Option, none, some}
use native.Mathlib.Omega.{arith}
use package.pico_rfu.Prelude.Control.{Flow, go, fault}
use package.pico_rfu.Prelude.Tests.{◌==◌, leb, if◌then◌else◌}
use package.pico_rfu.Prelude.Lists.{length, get_elem?, take, drop, length-append}
use package.pico_rfu.Prelude.Lists.{length-take, length-drop, take-append, drop-append, drop-drop}
use package.pico_rfu.Prelude.Lists.{take-append-drop, take-append_ge, drop-append_ge}
use package.pico_rfu.Prelude.Lists.{get_elem?-append_left, get_elem?-append_right, get_elem?-take}
use package.pico_rfu.Prelude.Lists.{get_elem?-drop, get_elem?-out_of_range, list_ext}
use native.Mathlib.Decide.{dec_lt}

-- A value that is there, or a fault.
abbrev pub or_fault {ℓ} : {A : Type ℓ} → Option A → Flow A
or_fault none = fault
or_fault (some a) = go a

-- `buf[i]`
abbrev pub read : List ℕ → ℕ → Flow ℕ
read buf i = or_fault (get_elem? buf i)

-- The bytes `xs` in place of as many bytes of `buf` from `at` on.
unfoldable pub splice : List ℕ → ℕ → List ℕ → List ℕ
splice buf at xs = take at buf ++ (xs ++ drop (at + length xs) buf)

-- `memcpy(buf + at, xs, length xs)`
abbrev pub write : List ℕ → ℕ → List ℕ → Flow (List ℕ)
write buf at xs = if leb (at + length xs) (length buf) then go (splice buf at xs) else fault

-- The `n` bytes of `buf` from `at` on.
abbrev pub slice : List ℕ → ℕ → ℕ → List ℕ
slice buf at n = take n (drop at buf)

-- `n` bytes read from `buf + at`
abbrev pub read_n : List ℕ → ℕ → ℕ → Flow (List ℕ)
read_n buf at n = if leb (at + n) (length buf) then go (slice buf at n) else fault

-- `memcmp(a, b, n) == 0` of two lists of `n` bytes
abbrev pub same_bytes : List ℕ → List ℕ → Bool
same_bytes [] [] = true
same_bytes [] (y ∷ ys) = false
same_bytes (x ∷ xs) [] = false
same_bytes (x ∷ xs) (y ∷ ys) = x == y && same_bytes xs ys

pub same_bytes→eq : (xs ys : List ℕ) → same_bytes xs ys ≡ true → xs ≡ ys
same_bytes→eq [] [] h = refl
same_bytes→eq [] (y ∷ ys) h = absurd (cc)
same_bytes→eq (x ∷ xs) [] h = absurd (cc)
same_bytes→eq (x ∷ xs) (y ∷ ys) h = ground (arith, same_bytes→eq xs ys)

pub same_bytes_self : (xs : List ℕ) → same_bytes xs xs ≡ true
same_bytes_self [] = refl
same_bytes_self (x ∷ xs) = ground (arith, same_bytes_self xs)

pub same_bytes_iff : (xs ys : List ℕ) → (same_bytes xs ys ≡ true) ↔ (xs ≡ ys)
same_bytes_iff xs ys = (same_bytes→eq xs ys, λ e. rw e (same_bytes_self ys))

pub length-splice :
    (buf : List ℕ) (at : ℕ) (xs : List ℕ)
    → at + length xs ≤ length buf
    → length (splice buf at xs) ≡ length buf
unfolding splice
length-splice buf at xs h = omega (
  arith,
  length-append (take at buf) (xs ++ drop (at + length xs) buf),
  length-append xs (drop (at + length xs) buf),
  length-take at buf,
  length-drop (at + length xs) buf,
)

pub drop-splice :
    (buf : List ℕ) (at : ℕ) (xs : List ℕ)
    → at ≤ length buf
    → drop at (splice buf at xs) ≡ xs ++ drop (at + length xs) buf
unfolding splice
drop-splice buf at xs h = drop-append (take at buf) _ at (omega (arith, length-take at buf))

pub take-splice :
    (buf : List ℕ) (at : ℕ) (xs : List ℕ)
    → at ≤ length buf
    → take at (splice buf at xs) ≡ take at buf
unfolding splice
take-splice buf at xs h = take-append (take at buf) _ at (omega (arith, length-take at buf))

-- What a write leaves alone.
pub get_elem?-splice_before :
    (buf : List ℕ) (at i : ℕ) (xs : List ℕ)
    → at ≤ length buf
    → i < at
    → get_elem? (splice buf at xs) i ≡ get_elem? buf i
unfolding splice
get_elem?-splice_before buf at i xs h k =
    get_elem?-append_left (take at buf) _ i (omega (arith, length-take at buf))
    ∙ get_elem?-take buf at i k

pub get_elem?-splice_after :
    (buf : List ℕ) (at i : ℕ) (xs : List ℕ)
    → at + length xs ≤ length buf
    → at + length xs ≤ i
    → get_elem? (splice buf at xs) i ≡ get_elem? buf i
unfolding splice
get_elem?-splice_after buf at i xs h k =
    ap (get_elem? (splice buf at xs))
      {y = length (take at buf) + (length xs + (i - (at + length xs)))}
      (omega (arith, length-take at buf))
    ∙ get_elem?-append_right (take at buf) _ (length xs + (i - (at + length xs)))
    ∙ get_elem?-append_right xs _ (i - (at + length xs))
    ∙ get_elem?-drop buf (at + length xs) (i - (at + length xs))
    ∙ ap (get_elem? buf) (omega arith)

pub get_elem?-splice_in :
    (buf : List ℕ) (at j : ℕ) (xs : List ℕ)
    → at ≤ length buf
    → j < length xs
    → get_elem? (splice buf at xs) (at + j) ≡ get_elem? xs j
unfolding splice
get_elem?-splice_in buf at j xs h k =
    ap (get_elem? (splice buf at xs)) {y = length (take at buf) + j}
      (omega (arith, length-take at buf))
    ∙ get_elem?-append_right (take at buf) _ j
    ∙ get_elem?-append_left xs _ j k

pub drop-splice_after :
    (buf : List ℕ) (at n : ℕ) (xs : List ℕ)
    → at + length xs ≤ length buf
    → at + length xs ≤ n
    → drop n (splice buf at xs) ≡ drop n buf
drop-splice_after buf at n xs h k = list_ext _ _ (λ i.
    get_elem?-drop (splice buf at xs) n i
    ∙ get_elem?-splice_after buf at (n + i) xs h (omega arith)
    ∙ sym (get_elem?-drop buf n i))

-- Two writes, one right behind the other, are one write.
pub splice-splice :
    (buf : List ℕ) (at : ℕ) (xs ys : List ℕ) (to : ℕ)
    → at + length xs ≤ length buf
    → to ≡ at + length xs
    → splice (splice buf at xs) to ys ≡ splice buf at (xs ++ ys)
unfolding splice
splice-splice buf at xs ys to h e =
    ap₂ (λ a b. a ++ (ys ++ b)) front back
    ∙ append_assoc (take at buf) xs _
    ∙ ap (λ t. take at buf ++ t) (sym (append_assoc xs ys _))
  where
    size : length (take at buf) ≡ at
    size = omega (arith, length-take at buf)

    front : take to (splice buf at xs) ≡ take at buf ++ xs
    front =
        take-append_ge (take at buf) _ (length xs) to (omega (arith, size))
        ∙ ap (λ t. take at buf ++ t) (take-append xs _ (length xs) refl)

    back : drop (to + length ys) (splice buf at xs) ≡ drop (at + length (xs ++ ys)) buf
    back =
        drop-append_ge (take at buf) _ (length xs + length ys) _ (omega (arith, size))
        ∙ drop-append_ge xs _ (length ys) _ refl
        ∙ drop-drop buf (length ys) (at + length xs)
        ∙ ap (λ k. drop k buf) (omega (arith, length-append xs ys))

-- What is sent of a buffer that was last written at its end.
pub take-splice_end :
    (buf : List ℕ) (at : ℕ) (xs : List ℕ) (n : ℕ)
    → at ≤ length buf
    → n ≡ at + length xs
    → take n (splice buf at xs) ≡ take at buf ++ xs
unfolding splice
take-splice_end buf at xs n h e =
    take-append_ge (take at buf) _ (length xs) n (omega (arith, length-take at buf))
    ∙ ap (λ t. take at buf ++ t) (take-append xs _ (length xs) refl)

get_elem?-take_out : (xs : List ℕ) (n i : ℕ) → n ≤ i → get_elem? (take n xs) i ≡ none
get_elem?-take_out xs n i h = get_elem?-out_of_range (take n xs) i (omega (arith, length-take n xs))

pub get_elem?-slice :
    (xs : List ℕ) (k n i : ℕ) → i < n → get_elem? (slice xs k n) i ≡ get_elem? xs (k + i)
get_elem?-slice xs k n i h = get_elem?-take (drop k xs) n i h ∙ get_elem?-drop xs k i

-- Slices of lists that agree there.
pub slice_cong :
    (xs ys : List ℕ) (k l n : ℕ)
    → ((i : ℕ) → i < n → get_elem? xs (k + i) ≡ get_elem? ys (l + i))
    → slice xs k n ≡ slice ys l n
slice_cong xs ys k l n h = list_ext (slice xs k n) (slice ys l n) at_each
  where
    at_each : (i : ℕ) → get_elem? (slice xs k n) i ≡ get_elem? (slice ys l n) i
    at_each i = elim (dec_lt i n) [
      | yes p ↦ get_elem?-slice xs k n i p ∙ h i p ∙ sym (get_elem?-slice ys l n i p)
      | no p ↦
          get_elem?-take_out (drop k xs) n i (omega arith)
          ∙ sym (get_elem?-take_out (drop l ys) n i (omega arith))
    ]

-- Reading off what stands from a place on.
pub get_elem?-of_drop :
    (msg : List ℕ) (k x : ℕ) (xs : List ℕ) → drop k msg ≡ x ∷ xs → get_elem? msg k ≡ some x
get_elem?-of_drop msg k x xs h =
    ap (get_elem? msg) (omega arith) ∙ sym (get_elem?-drop msg k 0) ∙ ap (λ t. get_elem? t 0) h

pub drop-of_drop :
    (msg : List ℕ) (k n to : ℕ) (xs ys : List ℕ)
    → drop k msg ≡ xs ++ ys
    → n ≡ length xs
    → to ≡ k + n
    → drop to msg ≡ ys
drop-of_drop msg k n to xs ys h e f =
    ap (λ t. drop t msg) f ∙ sym (drop-drop msg n k) ∙ ap (drop n) h ∙ drop-append xs ys n e

pub write-in_range :
    (buf : List ℕ) (at : ℕ) (xs : List ℕ)
    → at + length xs ≤ length buf
    → write buf at xs ≡ go (splice buf at xs)
write-in_range buf at xs h = ground arith

-- A write in place of a middle part.
pub splice-append :
    (front old back : List ℕ) (at : ℕ) (xs : List ℕ)
    → at ≡ length front
    → length xs ≡ length old
    → splice (front ++ (old ++ back)) at xs ≡ front ++ (xs ++ back)
unfolding splice
splice-append front old back at xs e f =
    ap₂ (λ a b. a ++ (xs ++ b)) (take-append front _ at e)
      (drop-append_ge front _ (length old) (at + length xs) (omega arith)
        ∙ drop-append old back (length old) refl)

-- What is left of a list from a place on, with a part of it taken off.
pub drop-eq-slice : (xs : List ℕ) (k n to : ℕ) → to ≡ k + n → drop k xs ≡ slice xs k n ++ drop to xs
drop-eq-slice xs k n to e =
    sym (take-append-drop n (drop k xs))
    ∙ ap (λ t. slice xs k n ++ t) (drop-drop xs n k ∙ ap (λ j. drop j xs) (sym e))

pub length-slice : (xs : List ℕ) (k n : ℕ) → k + n ≤ length xs → length (slice xs k n) ≡ n
length-slice xs k n h = omega (arith, length-take n (drop k xs), length-drop k xs)

pub drop-at : (xs : List ℕ) (k a : ℕ) → get_elem? xs k ≡ some a → drop k xs ≡ a ∷ drop (k + 1) xs
drop-at [] k a h = absurd (cc)
drop-at (x ∷ xs) zero a h = ground arith
drop-at (x ∷ xs) (suc k) a h =
    drop-at xs k a h ∙ ap (λ n. a ∷ drop n (x ∷ xs)) {x = suc (k + 1)} (omega arith)

pub slice_at :
    (xs : List ℕ) (k n a : ℕ)
    → get_elem? xs k ≡ some a
    → slice xs k (suc n) ≡ a ∷ slice xs (k + 1) n
slice_at xs k n a h = ap (take (suc n)) (drop-at xs k a h)
