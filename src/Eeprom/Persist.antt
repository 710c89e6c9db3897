-- ===== src/Eeprom/Persist.antt =====
-- The buffer against the flash memory: what a commit saves and a restart finds.
use pico_rfu.Prelude.{ℕ, ◌+◌, ◌≤◌, ◌<◌, ◌≡◌, refl, ap, sym, ◌∙◌, List, Bool}
use pico_rfu.Prelude.{true, false, Option, none, some, arith, ℤ, pos, negsuc, go, length}
use pico_rfu.Eeprom.Flash.{Flash}
use pico_rfu.Eeprom.Store.{
  Eeprom, members, eeprom_class, rounded, write, get, put, begin, commit, offset,
}
use pico_rfu.Eeprom.Valid.{IsValid, IsBuffer, rounded_bounds, put-IsValid}
use pico_rfu.Eeprom.Access.{get-put}

module _ (flash : Flash) where
  -- A clean buffer is what the flash memory holds.
  abbrev pub IsSynced : Eeprom → flash.State → Type 0
  IsSynced e s = e.dirty ≡ false → e.buffer ≡ some (flash.contents (offset flash) e.size s)

  pub begin-IsSynced : (n : ℕ) (s : flash.State) (e : Eeprom) → IsSynced (begin flash n s e) s
  unfolding begin
  begin-IsSynced n s e h = refl

  write-IsSynced_at :
      (address : ℤ) (value size : ℕ) (dirty : Bool) (buffer : Option (List ℕ)) (s : flash.State)
      → let e = members buffer size dirty in IsSynced e s → IsSynced (write address value e) s
  unfolding write
  write-IsSynced_at (negsuc n) value size dirty buffer s v h = v h
  write-IsSynced_at (pos a) value size dirty none s v h = ground (arith, v)
  write-IsSynced_at (pos a) value size dirty (some xs) s v h = ground (arith, v)

  -- `write` marks every change: a buffer that is still clean is still what the flash memory holds.
  pub write-IsSynced :
      (address : ℤ) (value : ℕ) (e : Eeprom) (s : flash.State)
      → IsSynced e s
      → IsSynced (write address value e) s
  write-IsSynced address value e s v = write-IsSynced_at address value e.size e.dirty e.buffer s v

  put-IsSynced_at :
      (address : ℤ) (t : List ℕ) (size : ℕ) (dirty : Bool) (buffer : Option (List ℕ)) (e' : Eeprom)
      (s : flash.State)
      → let e = members buffer size dirty in IsSynced e s → put address t e ≡ go e' → IsSynced e' s
  unfolding put
  put-IsSynced_at (negsuc n) t size dirty buffer e' s v p h = ground (arith, v)
  put-IsSynced_at (pos a) t size dirty none e' s v p h = ground (arith, v)
  put-IsSynced_at (pos a) t size dirty (some xs) e' s v p h = ground (arith, v)

  -- So does `put`.
  pub put-IsSynced :
      (address : ℤ) (t : List ℕ) (e e' : Eeprom) (s : flash.State)
      → IsSynced e s
      → put address t e ≡ go e'
      → IsSynced e' s
  put-IsSynced address t e e' s v p = put-IsSynced_at address t e.size e.dirty e.buffer e' s v p

  commit_at :
      (size : ℕ) (dirty : Bool) (buffer : Option (List ℕ)) (s : flash.State)
      → let e = members buffer size dirty in
        IsBuffer buffer size
        → 0 < size
        → IsSynced e s
        → ((commit flash e s).0 ≡ true)
          × (buffer ≡ some (flash.contents (offset flash) size (commit flash e s).1))
  unfolding commit
  commit_at size dirty none s v h y = absurd (omega arith)
  commit_at size true (some xs) s v h y =
      ground (arith, sym (flash.contents-program (offset flash) xs s (omega arith) (omega arith)))
  commit_at size false (some xs) s v h y = ground (arith, y refl)

  -- A commit of a valid object succeeds, and then the flash memory holds the buffer, whether or not
  -- anything had to be written.
  pub commit_saves :
      (e : Eeprom) (s : flash.State)
      → IsValid e
      → 0 < e.size
      → IsSynced e s
      → ((commit flash e s).0 ≡ true)
        × (e.buffer ≡ some (flash.contents (offset flash) e.size (commit flash e s).1))
  commit_saves e s v h y = commit_at e.size e.dirty e.buffer s v h y

  get_cong :
      (address : ℤ) (n size : ℕ) (u : List ℕ) (d d' : Bool) (buffer : Option (List ℕ))
      → get address n u (members buffer size d) ≡ get address n u (members buffer size d')
  unfolding get
  get_cong address n size u d d' buffer = refl

  pub begin_after_commit :
      (n : ℕ) (e : Eeprom) (s : flash.State)
      → IsValid e
      → IsSynced e s
      → e.size ≡ rounded n
      → begin flash n (commit flash e s).1 eeprom_class ≡ members e.buffer e.size false
  unfolding begin
  begin_after_commit n e s v y h =
      let (_, saved) = commit_saves e s v (omega (arith, rounded_bounds n)) y in cc (saved, h)

  -- A value of at least one byte that is put, in range, into a valid object whose clean buffer is
  -- what the flash memory holds, and then committed, is found again after a restart that begins
  -- with the same size.
  pub restart_restores :
      (n a : ℕ) (t u : List ℕ) (e e' : Eeprom) (s : flash.State)
      → IsValid e
      → IsSynced e s
      → e.size ≡ rounded n
      → 0 < length t
      → a + length t ≤ e.size
      → put (pos a) t e ≡ go e'
      → get (pos a) (length t) u (begin flash n (commit flash e' s).1 eeprom_class) ≡ go t
  restart_restores n a t u e e' s v y h pos_t fit p =
      let (v', same) = put-IsValid (pos a) t e e' v p in
      ap (get (pos a) (length t) u)
        (begin_after_commit n e' s v' (put-IsSynced (pos a) t e e' s y p) (same ∙ h))
      ∙ get_cong (pos a) (length t) e'.size u false e'.dirty e'.buffer
      ∙ get-put a t u e e' v pos_t fit p
