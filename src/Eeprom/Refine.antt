-- ===== src/Eeprom/Refine.antt =====
-- The EEPROM as what it is for: a store of bytes that lasts through restarts.
pub mod Run
use pico_rfu.Prelude.{
  negsuc, ℕ, zero, suc, ◌+◌, ◌-◌, ◌≤◌, ◌<◌, ◌≡◌, ◌≢◌, refl, ap, sym, subst, ◌∙◌, List, [], ◌∷◌,
  Bool, true, false,
}
use pico_rfu.Prelude.{
  ◌&&◌, inl, inr, Bool-cases, Option, none, some, arith, ℤ, pos, Flow, go, fault, ◌>>=◌, length,
  get_or,
}
use pico_rfu.Prelude.{
  get_elem?, leb, ltb, ◌==◌, if◌then◌else◌, splice, slice, same_bytes, same_bytes→eq,
}
use pico_rfu.Prelude.{
  get_elem?-splice_in, get_elem?-splice_before, get_elem?-splice_after, get_elem?-slice,
}
use pico_rfu.Eeprom.Flash.{Flash}
use pico_rfu.Eeprom.Store.{
  Eeprom, members, eeprom_class, rounded, read, write, get, put, begin, commit,
}
use pico_rfu.Eeprom.Valid.{
  IsValid, IsBuffer, rounded_bounds, begin-IsValid, write-IsValid, put-IsValid,
}
use pico_rfu.Eeprom.Access.{read-write}
use pico_rfu.Eeprom.Persist.{
  IsSynced, begin-IsSynced, write-IsSynced, put-IsSynced, begin_after_commit,
}

-- What a user does: a byte, the bytes of a value, or a commit and a restart.
pub data Op : Type 0 where
  write_op : ℤ → ℕ → Op
  put_op : ℤ → List ℕ → Op
  restart_op : Op

-- The store: the byte at each address.
abbrev pub Bytes : Type 0
Bytes = ℕ → ℕ

abbrev pub apply : ℕ → Op → Bytes → Bytes
apply size (write_op (negsuc n) value) m b = m b
apply size (write_op (pos a) value) m b = if ltb a size && (a == b) then value else m b
apply size (put_op (negsuc n) t) m b = m b
apply size (put_op (pos a) t) m b =
    if leb (a + length t) size && (leb a b && ltb b (a + length t)) then get_or t (b - a) 0 else m b
apply size restart_op m b = m b

abbrev pub apply_all : ℕ → List Op → Bytes → Bytes
apply_all size [] m = m
apply_all size (op ∷ ops) m = apply_all size ops (apply size op m)

-- The store that an object stands for.
abbrev pub view : Eeprom → Bytes
view e b = read (pos b) e

get_or-eq :
    (xs : List ℕ) (i d : ℕ) → get_or xs i d ≡ elim (get_elem? xs i) [ none ↦ d | some x ↦ x ]
get_or-eq [] i d = refl
get_or-eq (x ∷ xs) zero d = refl
get_or-eq (x ∷ xs) (suc i) d = get_or-eq xs i d

get_or_cong :
    (xs ys : List ℕ) (i j d : ℕ) → get_elem? xs i ≡ get_elem? ys j → get_or xs i d ≡ get_or ys j d
get_or_cong xs ys i j d h =
    get_or-eq xs i d
    ∙ ap (λ (o : Option ℕ). elim o [ none ↦ d | some x ↦ x ]) h
    ∙ sym (get_or-eq ys j d)

get_or-splice :
    (xs : List ℕ) (a b : ℕ) (t : List ℕ)
    → a + length t ≤ length xs
    → get_or (splice xs a t) b 0
      ≡ (if leb a b && ltb b (a + length t) then get_or t (b - a) 0 else get_or xs b 0)
get_or-splice xs a b t h = elim (Bool-cases (leb a b)) [
  | inr n ↦ rw n (
      get_or_cong (splice xs a t) xs b b 0
        (get_elem?-splice_before xs a b t (omega arith) (ground arith)))
  | inl y ↦ elim (Bool-cases (ltb b (a + length t))) [
    | inr n ↦
        rw (y, n)
          (get_or_cong (splice xs a t) xs b b 0 (get_elem?-splice_after xs a b t h (ground arith)))
    | inl k ↦
        rw (y, k)
          (get_or_cong (splice xs a t) t b (b - a) 0 (
            ap (get_elem? (splice xs a t)) {x = b} {y = a + (b - a)} (ground arith)
            ∙ get_elem?-splice_in xs a (b - a) t (omega arith) (ground arith)))
  ]
]

-- A value that is already there.
get_or_kept :
    (xs : List ℕ) (a b : ℕ) (t : List ℕ)
    → slice xs a (length t) ≡ t
    → get_or xs b 0
      ≡ (if leb a b && ltb b (a + length t) then get_or t (b - a) 0 else get_or xs b 0)
get_or_kept xs a b t same = elim (Bool-cases (leb a b)) [
  | inr n ↦ rw n
  | inl y ↦ elim (Bool-cases (ltb b (a + length t))) [
    | inr n ↦ rw (y, n)
    | inl k ↦
        rw (y, k)
          (get_or_cong xs t b (b - a) 0 (
            ap (get_elem? xs) {x = b} {y = a + (b - a)} (ground arith)
            ∙ sym (get_elem?-slice xs a (length t) (b - a) (ground arith))
            ∙ ap (λ s. get_elem? s (b - a)) same))
  ]
]

view-members :
    (xs : List ℕ) (size b : ℕ) (dirty : Bool)
    → view (members (some xs) size dirty) b ≡ (if leb size b then 0 else get_or xs b 0)
unfolding read
view-members xs size b dirty = ground arith

-- How a put looks, as the bytes of the buffer before and after.
put_seen :
    (size a b before after : ℕ) (t : List ℕ)
    → a + length t ≤ size
    → after ≡ (if leb a b && ltb b (a + length t) then get_or t (b - a) 0 else before)
    → (if leb size b then 0 else after) ≡ (
        if leb (a + length t) size && (leb a b && ltb b (a + length t))
        then get_or t (b - a) 0
        else if leb size b
        then 0
        else before)
put_seen size a b before after t h e = ground arith

pub put_refines_at :
    (a size : ℕ) (t : List ℕ) (dirty : Bool) (xs : List ℕ)
    → IsBuffer (some xs) size
    → let e = members (some xs) size dirty in
      (e' : Eeprom) × (put (pos a) t e ≡ go e')
      × ((b : ℕ) → view e' b ≡ apply size (put_op (pos a) t) (view e) b)
unfolding put
put_refines_at a size t dirty xs v = elim (Bool-cases (ltb size (a + length t))) [
  | inl out ↦ (members (some xs) size dirty, rw (out, put), λ b. not_done b (ground arith))
  | inr fit ↦ elim (Bool-cases (same_bytes (slice xs a (length t)) t)) [
    | inl same ↦ (
      members (some xs) size dirty,
      rw (fit, put) (rw same),
      λ b. seen b xs dirty (ground arith) (get_or_kept xs a b t (same_bytes→eq _ _ same)),
    )
    | inr apart ↦ (
      members (some (splice xs a t)) size true,
      rw (fit, put) (rw apart),
      λ b. seen b (splice xs a t) true (ground arith) (get_or-splice xs a b t (ground arith)),
    )
  ]
]
  where
    not_done :
        (b : ℕ)
        → leb (a + length t) size ≡ false
        → view (members (some xs) size dirty) b
          ≡ apply size (put_op (pos a) t) (view (members (some xs) size dirty)) b
    not_done b h = rw h

    seen :
        (b : ℕ) (ys : List ℕ) (d : Bool)
        → a + length t ≤ size
        → get_or ys b 0
          ≡ (if leb a b && ltb b (a + length t) then get_or t (b - a) 0 else get_or xs b 0)
        → view (members (some ys) size d) b
          ≡ apply size (put_op (pos a) t) (view (members (some xs) size dirty)) b
    seen b ys d h e =
        view-members ys size b d
        ∙ put_seen size a b (get_or xs b 0) (get_or ys b 0) t h e
        ∙ ap
            (λ x.
              if leb (a + length t) size && (leb a b && ltb b (a + length t))
              then get_or t (b - a) 0
              else x)
            (sym (view-members xs size b dirty))
