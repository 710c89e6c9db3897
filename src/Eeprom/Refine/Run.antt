-- ===== src/Eeprom/Refine/Run.antt =====
-- Any sequence of writes, puts and restarts, against the store of bytes.
use pico_rfu.Prelude.{negsuc, ℕ, ◌≡◌, refl, ap, ◌∙◌, List, [], ◌∷◌, Bool, false, Option, none, some}
use pico_rfu.Prelude.{arith, pos, Flow, go, ◌>>=◌, >>=-go, ltb, ◌==◌, if◌then◌else◌, ◌&&◌}
use pico_rfu.Eeprom.Flash.{Flash}
use pico_rfu.Eeprom.Store.{Eeprom, members, eeprom_class, rounded, read, write, put, begin, commit}
use pico_rfu.Eeprom.Valid.{
  IsValid, IsBuffer, rounded_bounds, begin-IsValid, write-IsValid, put-IsValid,
}
use pico_rfu.Eeprom.Access.{read-write}
use pico_rfu.Eeprom.Persist.{
  IsSynced, begin-IsSynced, write-IsSynced, put-IsSynced, begin_after_commit,
}
use pico_rfu.Eeprom.Refine.{
  Op, write_op, put_op, restart_op, Bytes, apply, apply_all, view, put_refines_at,
}

-- An operation of the store applied to equal stores.
apply_cong :
    (size : ℕ) (op : Op) (m m' : Bytes) (b : ℕ)
    → m b ≡ m' b
    → apply size op m b ≡ apply size op m' b
apply_cong size (write_op (negsuc n) value) m m' b h = h
apply_cong size (write_op (pos a) value) m m' b h =
    ap (λ x. if ltb a size && (a == b) then value else x) h
apply_cong size (put_op (negsuc n) t) m m' b h = h
apply_cong size (put_op (pos a) t) m m' b h = ap (λ x. apply size (put_op (pos a) t) (λ _. x) b) h
apply_cong size restart_op m m' b h = h

apply_all_cong :
    (size : ℕ) (ops : List Op) (m m' : Bytes)
    → ((b : ℕ) → m b ≡ m' b)
    → (b : ℕ) → apply_all size ops m b ≡ apply_all size ops m' b
apply_all_cong size [] m m' h b = h b
apply_all_cong size (op ∷ ops) m m' h b =
    apply_all_cong size ops (apply size op m) (apply size op m')
      (λ c. apply_cong size op m m' c (h c)) b

size-write_at :
    (a value size : ℕ) (dirty : Bool) (buffer : Option (List ℕ))
    → (write (pos a) value (members buffer size dirty)).size ≡ size
unfolding write
size-write_at a value size dirty none = ground arith
size-write_at a value size dirty (some xs) = ground arith

write_below :
    (m value size : ℕ) (dirty : Bool) (buffer : Option (List ℕ))
    → write (negsuc m) value (members buffer size dirty) ≡ members buffer size dirty
unfolding write
write_below m value size dirty none = ground arith
write_below m value size dirty (some xs) = ground arith

view_dirty :
    (buffer : Option (List ℕ)) (size : ℕ) (dirty : Bool) (b : ℕ)
    → view (members buffer size false) b ≡ view (members buffer size dirty) b
unfolding read
view_dirty buffer size dirty b = refl

module _ (flash : Flash) (n : ℕ) where
  -- An object that has begun with `n`, against the flash memory.
  pub record Begun (e : Eeprom) (s : flash.State) : Type 0 where
    pub valid : IsValid e
    pub synced : IsSynced flash e s
    pub sized : e.size ≡ rounded n

  -- The operation on the object and the flash memory. A restart commits before it, and begins anew.
  abbrev pub exec : Op → Eeprom → flash.State → Flow (Eeprom × flash.State)
  exec (write_op a value) e s = go (write a value e, s)
  exec (put_op a t) e s = put a t e >>= λ e'. go (e', s)
  exec restart_op e s = go (begin flash n (commit flash e s).1 eeprom_class, (commit flash e s).1)

  abbrev pub exec_all : List Op → Eeprom → flash.State → Flow (Eeprom × flash.State)
  exec_all [] e s = go (e, s)
  exec_all (op ∷ ops) e s = exec op e s >>= λ r. exec_all ops r.0 r.1

  put_refines :
      (a : ℕ) (t : List ℕ) (e : Eeprom) (s : flash.State)
      → Begun e s
      → (e' : Eeprom) × (put (pos a) t e ≡ go e')
        × ((b : ℕ) → view e' b ≡ apply (rounded n) (put_op (pos a) t) (view e) b)
  put_refines a t e s v = by_buffer e.buffer e.size e.dirty v.valid v.sized
    where
      by_buffer :
          (buffer : Option (List ℕ)) (size : ℕ) (dirty : Bool)
          → IsBuffer buffer size
          → size ≡ rounded n
          → let x = members buffer size dirty in
            (e' : Eeprom) × (put (pos a) t x ≡ go e')
            × ((b : ℕ) → view e' b ≡ apply (rounded n) (put_op (pos a) t) (view x) b)
      by_buffer none size dirty z sz = absurd (omega (arith, rounded_bounds n))
      by_buffer (some xs) size dirty z sz =
          let (e', p, at) = put_refines_at a size t dirty xs z in
          (
            e',
            p,
            λ b.
                at b
                ∙ ap (λ k. apply k (put_op (pos a) t) (view (members (some xs) size dirty)) b) sz,
          )

  -- One operation: it succeeds, and does to the store what it is to do.
  exec_refines :
      (op : Op) (e : Eeprom) (s : flash.State)
      → Begun e s
      → (e' : Eeprom) × (s' : flash.State) × (exec op e s ≡ go (e', s'))
        × Begun e' s'
        × ((b : ℕ) → view e' b ≡ apply (rounded n) op (view e) b)
  unfolding put
  exec_refines (write_op (negsuc m) value) e s v = (
    write (negsuc m) value e,
    s,
    refl,
    record {
      valid = write-IsValid (negsuc m) value e v.valid;
      synced = write-IsSynced flash (negsuc m) value e s v.synced;
      sized = ap (λ (x : Eeprom). x.size) (write_below m value e.size e.dirty e.buffer) ∙ v.sized;
    },
    λ b. ap (λ (x : Eeprom). view x b) (write_below m value e.size e.dirty e.buffer),
  )
  exec_refines (write_op (pos a) value) e s v = (
    write (pos a) value e,
    s,
    refl,
    record {
      valid = write-IsValid (pos a) value e v.valid;
      synced = write-IsSynced flash (pos a) value e s v.synced;
      sized = size-write_at a value e.size e.dirty e.buffer ∙ v.sized;
    },
    λ b.
        read-write a b value e v.valid
        ∙ ap (λ k. if ltb a k && (a == b) then value else read (pos b) e) v.sized,
  )
  exec_refines (put_op (negsuc m) t) e s v = (e, s, refl, v, λ b. refl)
  exec_refines (put_op (pos a) t) e s v =
      let (e', p, at) = put_refines a t e s v in
      let (valid, same) = put-IsValid (pos a) t e e' v.valid p in
      (
        e',
        s,
        >>=-go (put (pos a) t e) _ p,
        record {
          valid = valid;
          synced = put-IsSynced flash (pos a) t e e' s v.synced p;
          sized = same ∙ v.sized;
        },
        at,
      )
  exec_refines restart_op e s v = (
    begin flash n (commit flash e s).1 eeprom_class,
    (commit flash e s).1,
    refl,
    record {
      valid = begin-IsValid flash n (commit flash e s).1 eeprom_class;
      synced = begin-IsSynced flash n (commit flash e s).1 eeprom_class;
      sized =
          ap (λ (x : Eeprom). x.size) (begin_after_commit flash n e s v.valid v.synced v.sized)
          ∙ v.sized;
    },
    λ b.
        ap (λ (x : Eeprom). view x b) (begin_after_commit flash n e s v.valid v.synced v.sized)
        ∙ view_dirty e.buffer e.size e.dirty b,
  )

  -- Any sequence of writes and puts, at addresses in range, behind it or negative, and of commits
  -- each followed by a restart, succeeds on an object that has begun, and leaves of the bytes
  -- that can be read exactly what the same sequence leaves of a store of bytes.
  pub exec_all_refines :
      (ops : List Op) (e : Eeprom) (s : flash.State)
      → Begun e s
      → (e' : Eeprom) × (s' : flash.State) × (exec_all ops e s ≡ go (e', s'))
        × Begun e' s'
        × ((b : ℕ) → view e' b ≡ apply_all (rounded n) ops (view e) b)
  exec_all_refines [] e s v = (e, s, refl, v, λ b. refl)
  exec_all_refines (op ∷ ops) e s v =
      let (e₁, s₁, run, v₁, at) = exec_refines op e s v in
      let (e', s', runs, v', ats) = exec_all_refines ops e₁ s₁ v₁ in
      (
        e',
        s',
        >>=-go (exec op e s) _ run ∙ runs,
        v',
        λ b. ats b ∙ apply_all_cong (rounded n) ops (view e₁) (apply (rounded n) op (view e)) at b,
      )
