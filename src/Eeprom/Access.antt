-- ===== src/Eeprom/Access.antt =====
-- Reading back what was written, byte by byte and value by value.
use pico_rfu.Prelude.{ℕ, zero, suc, ◌+◌, ◌≤◌, ◌<◌, ◌≡◌, ◌⊎◌, inl, inr, refl, ap, ◌∙◌}
use pico_rfu.Prelude.{List, [], ◌∷◌, Bool, ◌&&◌, Option, none, some, arith, pos}
use pico_rfu.Prelude.{go, length, get_or, set, slice, slice_cong, splice}
use pico_rfu.Prelude.{same_bytes→eq, ltb, ◌==◌, if◌then◌else◌}
use pico_rfu.Prelude.{
  get_elem?-splice_before, get_elem?-splice_after, drop-splice, take, take-append,
}
use pico_rfu.Eeprom.Store.{Eeprom, members, read, write, get, put}
use pico_rfu.Eeprom.Valid.{IsValid, IsBuffer}

get_or-set :
    (xs : List ℕ) (i j v d : ℕ)
    → i < length xs
    → get_or (set xs i v) j d ≡ (if i == j then v else get_or xs j d)
get_or-set [] i j v d h = elim h [ ]
get_or-set (x ∷ xs) zero zero v d h = ground arith
get_or-set (x ∷ xs) zero (suc j) v d h = ground arith
get_or-set (x ∷ xs) (suc i) zero v d h = ground arith
get_or-set (x ∷ xs) (suc i) (suc j) v d h = ground (arith, get_or-set xs i j v d)

read-write_at :
    (a b value size : ℕ) (dirty : Bool) (buffer : Option (List ℕ))
    → IsBuffer buffer size
    → let e = members buffer size dirty in
      read (pos b) (write (pos a) value e)
      ≡ (if ltb a size && (a == b) then value else read (pos b) e)
unfolding read write
read-write_at a b value size dirty none v = ground arith
read-write_at a b value size dirty (some xs) v = ground (arith, get_or-set xs a b value 0)

-- Of a valid object, a byte that was written at an address in range is read back there, and every
-- other address reads as before; a write out of range changes nothing.
pub read-write :
    (a b value : ℕ) (e : Eeprom)
    → IsValid e
    → read (pos b) (write (pos a) value e)
      ≡ (if ltb a e.size && (a == b) then value else read (pos b) e)
read-write a b value e v = read-write_at a b value e.size e.dirty e.buffer v

slice-splice_self :
    (xs : List ℕ) (a : ℕ) (t : List ℕ) → a ≤ length xs → slice (splice xs a t) a (length t) ≡ t
slice-splice_self xs a t h =
    ap (take (length t)) (drop-splice xs a t h) ∙ take-append t _ (length t) refl

slice-splice_apart :
    (xs : List ℕ) (a b n : ℕ) (t : List ℕ)
    → a + length t ≤ length xs
    → (b + n ≤ a) ⊎ (a + length t ≤ b)
    → slice (splice xs a t) b n ≡ slice xs b n
slice-splice_apart xs a b n t h (inl before) =
    slice_cong (splice xs a t) xs b b n
      (λ i p. get_elem?-splice_before xs a (b + i) t (omega arith) (omega arith))
slice-splice_apart xs a b n t h (inr after) =
    slice_cong (splice xs a t) xs b b n
      (λ i p. get_elem?-splice_after xs a (b + i) t h (omega arith))

get-put_at :
    (a size : ℕ) (t u : List ℕ) (dirty : Bool) (buffer : Option (List ℕ)) (e' : Eeprom)
    → IsBuffer buffer size
    → 0 < length t
    → a + length t ≤ size
    → put (pos a) t (members buffer size dirty) ≡ go e'
    → get (pos a) (length t) u e' ≡ go t
unfolding get put
get-put_at a size t u dirty none e' v pos_t h p = ground arith
get-put_at a size t u dirty (some xs) e' v pos_t h p =
    ground (arith, same_bytes→eq (slice xs a (length t)) t, slice-splice_self xs a t)

-- A value that was put into a valid object, where it fits, is what `get` gives back.
pub get-put :
    (a : ℕ) (t u : List ℕ) (e e' : Eeprom)
    → IsValid e
    → 0 < length t
    → a + length t ≤ e.size
    → put (pos a) t e ≡ go e'
    → get (pos a) (length t) u e' ≡ go t
get-put a t u e e' v pos_t h p = get-put_at a e.size t u e.dirty e.buffer e' v pos_t h p

get-put_apart_at :
    (a b n size : ℕ) (t u : List ℕ) (dirty : Bool) (buffer : Option (List ℕ)) (e' : Eeprom)
    → IsBuffer buffer size
    → a + length t ≤ size
    → (b + n ≤ a) ⊎ (a + length t ≤ b)
    → put (pos a) t (members buffer size dirty) ≡ go e'
    → get (pos b) n u e' ≡ get (pos b) n u (members buffer size dirty)
unfolding get put
get-put_apart_at a b n size t u dirty none e' v h apart p = ground arith
get-put_apart_at a b n size t u dirty (some xs) e' v h apart p =
    let same = slice-splice_apart xs a b n t (omega arith) apart in ground arith

-- A value at bytes apart from those put is as before.
pub get-put_apart :
    (a b n : ℕ) (t u : List ℕ) (e e' : Eeprom)
    → IsValid e
    → a + length t ≤ e.size
    → (b + n ≤ a) ⊎ (a + length t ≤ b)
    → put (pos a) t e ≡ go e'
    → get (pos b) n u e' ≡ get (pos b) n u e
get-put_apart a b n t u e e' v h apart p =
    get-put_apart_at a b n e.size t u e.dirty e.buffer e' v h apart p
