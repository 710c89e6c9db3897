-- ===== src/Eeprom/Valid.antt =====
-- The representation invariant of `EEPROMClass`: the buffer has `_size` bytes, whole pages.
use pico_rfu.Prelude.{
  endless, ℕ, ◌+◌, ◌%◌, ◌≤◌, ◌<◌, ◌≡◌, ◌≢◌, inl, inr, refl, subst, Bool-cases, fault,
  ignore_request, ◌==◌, List, Bool, true, Option, none, some, arith,
}
use pico_rfu.Prelude.{ℤ, pos, negsuc, go, length, length-set, splice, length-splice, slice}
use pico_rfu.Prelude.{same_bytes, get_or, ltb, leb}
use pico_rfu.Eeprom.Flash.{Flash, sector_size}
use pico_rfu.Eeprom.Store.{Eeprom, rounded, write, put, begin, end, offset}

abbrev pub IsBuffer : Option (List ℕ) → ℕ → Type 0
IsBuffer none size = size ≡ 0
IsBuffer (some xs) size = (length xs ≡ size) × (size ≤ sector_size) × (size % 256 ≡ 0) × (0 < size)

abbrev pub IsValid : Eeprom → Type 0
IsValid e = IsBuffer e.buffer e.size

-- The size that `begin` takes is a positive number of pages that fit the sector, and holds what was
-- asked for, if that fits.
pub rounded_bounds :
    (n : ℕ)
    → (rounded n ≤ sector_size)
      × (rounded n % 256 ≡ 0)
      × (0 < rounded n)
      × (n ≤ sector_size → n ≤ rounded n)
      × (0 < n → n ≤ sector_size → rounded n < n + 256)
unfolding rounded
rounded_bounds n = ground arith

write_at :
    (address : ℤ) (value size : ℕ) (dirty : Bool) (buffer : Option (List ℕ))
    → IsBuffer buffer size
    → IsValid (write address value (record { buffer = buffer; size = size; dirty = dirty }))
unfolding write
write_at (negsuc n) value size dirty buffer v = v
write_at (pos a) value size dirty none v = elim (Bool-cases (leb size a)) [
  | inl h ↦ rw (h, write) v
  | inr h ↦ rw (h, write) v
]
write_at (pos a) value size dirty (some xs) v = elim (Bool-cases (leb size a)) [
  | inl h ↦ rw (h, write) v
  | inr h ↦ elim (Bool-cases (get_or xs a 0 == value)) [
    | inl k ↦ rw (h, write) (rw k v)
    | inr k ↦ rw (h, write) (rw k (omega (arith, length-set xs a value)))
  ]
]

-- `write` keeps the invariant.
pub write-IsValid :
    (address : ℤ) (value : ℕ) (e : Eeprom) → IsValid e → IsValid (write address value e)
write-IsValid address value e v = write_at address value e.size e.dirty e.buffer v

put_at :
    (address : ℤ) (t : List ℕ) (size : ℕ) (dirty : Bool) (buffer : Option (List ℕ)) (e' : Eeprom)
    → IsBuffer buffer size
    → put address t (record { buffer = buffer; size = size; dirty = dirty }) ≡ go e'
    → IsValid e' × (e'.size ≡ size)
unfolding put
put_at (negsuc n) t size dirty buffer e' v h =
    subst (λ e. IsValid e × (e.size ≡ size))
      {x = record { buffer = buffer; size = size; dirty = dirty }} {y = e'} (cc h) (v, refl)
put_at (pos a) t size dirty none e' v h = ground arith
put_at (pos a) t size dirty (some xs) e' v h = elim (Bool-cases (ltb size (a + length t))) [
  | inl p ↦
      subst (λ e. IsValid e × (e.size ≡ size))
        {x = record { buffer = some xs; size = size; dirty = dirty }} {y = e'} (ground arith)
        (v, refl)
  | inr p ↦ elim (Bool-cases (same_bytes (slice xs a (length t)) t)) [
    | inl q ↦
        subst (λ e. IsValid e × (e.size ≡ size))
          {x = record { buffer = some xs; size = size; dirty = dirty }} {y = e'} (ground arith)
          (v, refl)
    | inr q ↦
        subst (λ e. IsValid e × (e.size ≡ size))
          {x = record { buffer = some (splice xs a t); size = size; dirty = true }} {y = e'}
          (ground arith) (omega (arith, length-splice xs a t (ground arith)), refl)
  ]
]

-- `put` keeps the invariant and the size.
pub put-IsValid :
    (address : ℤ) (t : List ℕ) (e e' : Eeprom)
    → IsValid e
    → put address t e ≡ go e'
    → IsValid e' × (e'.size ≡ e.size)
put-IsValid address t e e' v h = put_at address t e.size e.dirty e.buffer e' v h

put_ok :
    (address : ℤ) (t : List ℕ) (size : ℕ) (dirty : Bool) (buffer : Option (List ℕ))
    → IsBuffer buffer size
    → 0 < length t
    → put address t (record { buffer = buffer; size = size; dirty = dirty }) ≢ fault
unfolding put
put_ok (negsuc n) t size dirty buffer v h = ground arith
put_ok (pos a) t size dirty none v h = ground arith
put_ok (pos a) t size dirty (some xs) v h = ground arith

-- `put` and `get` touch no null pointer.
pub put-ne_fault :
    (address : ℤ) (t : List ℕ) (e : Eeprom) → IsValid e → 0 < length t → put address t e ≢ fault
unfolding put
put-ne_fault address t e v h = put_ok address t e.size e.dirty e.buffer v h

put_goes :
    (address : ℤ) (t : List ℕ) (size : ℕ) (dirty : Bool) (buffer : Option (List ℕ))
    → put address t (record { buffer = buffer; size = size; dirty = dirty }) ≢ ignore_request
unfolding put
put_goes (negsuc n) t size dirty buffer = ground arith
put_goes (pos a) t size dirty none = ground arith
put_goes (pos a) t size dirty (some xs) = ground arith

pub put-ne_ignore : (address : ℤ) (t : List ℕ) (e : Eeprom) → put address t e ≢ ignore_request
put-ne_ignore address t e = put_goes address t e.size e.dirty e.buffer

put_ends :
    (address : ℤ) (t : List ℕ) (size : ℕ) (dirty : Bool) (buffer : Option (List ℕ))
    → put address t (record { buffer = buffer; size = size; dirty = dirty }) ≢ endless
unfolding put
put_ends (negsuc n) t size dirty buffer = ground arith
put_ends (pos a) t size dirty none = ground arith
put_ends (pos a) t size dirty (some xs) = ground arith

pub put-ne_endless : (address : ℤ) (t : List ℕ) (e : Eeprom) → put address t e ≢ endless
put-ne_endless address t e = put_ends address t e.size e.dirty e.buffer

module _ (flash : Flash) where
  -- `begin` sets the invariant up.
  pub begin-IsValid : (n : ℕ) (s : flash.State) (e : Eeprom) → IsValid (begin flash n s e)
  unfolding begin
  begin-IsValid n s e =
      omega (arith, rounded_bounds n, flash.length-contents (offset flash) (rounded n) s)

  -- `end` leaves the members of a new object, if there was anything to end.
  pub end-IsValid : (e : Eeprom) (s : flash.State) → IsValid e → IsValid (end flash e s).1
  unfolding end
  end-IsValid e s v = elim (Bool-cases (e.size == 0)) [ inl h ↦ rw h v | inr h ↦ rw h refl ]
