-- ===== src/Tasks/Whole.antt =====
-- The frames that the device holds whole, and what each step of `dmx_task` does to them.
use pico_rfu.Prelude.{
  ℕ, suc, ◌+◌, ◌≡◌, refl, ap, sym, ◌∙◌, List, [], ◌∷◌, ◌++◌, append_assoc, append-nil,
}
use pico_rfu.Prelude.{Bool, true, false, go, arith, read, write, length, ltb}
use pico_rfu.Prelude.{Bool-cases, inl, inr, >>=-go, subst}
use pico_rfu.Dmx.Device.{Dmx, dmx_class, busy, force_busy, send_dmx, copy_from}
use pico_rfu.Tasks.{Pc, starting, receiving, polling, checked, writing, freed, Shared, enqueue}
use pico_rfu.Tasks.{send_zero, send, force, write_byte, TaskStep, queue_length}
use pico_rfu.Tasks.Bytes.{write_byte_lem}
use pico_rfu.Tasks.{begin, receive, wait, check, mark, write_round, unmark}
use pico_rfu.Tasks.{again, send_itself}

module _ (behind : List ℕ) where
  -- The contents of the device once it has got the frames of a list, one after the other.
  pub data Written : List (List ℕ) → List ℕ → Type 0 where
    nothing : Written [] dmx_class.dmx_data
    after :
        {fs : List (List ℕ)} {g h : List ℕ} (f : List ℕ)
        → Written fs g
        → copy_from 512 1 (f ++ behind) g ≡ go h
        → Written (fs ++ (f ∷ [])) h

  -- The contents after the first so many of the frames `done`.
  abbrev pub IsWhole : List (List ℕ) → List ℕ → Type 0
  IsWhole done x =
      (fs : List (List ℕ)) × (rest : List (List ℕ)) × Written fs x × (fs ++ rest ≡ done)

  abbrev pub AllWhole : List (List ℕ) → List (List ℕ) → Type 0
  AllWhole done [] = Unit {0}
  AllWhole done (x ∷ xs) = IsWhole done x × AllWhole done xs

  -- While a frame is written: what is left of the loop does what the whole loop does to `g`.
  pub record Partial (f : List ℕ) (rounds i : ℕ) (s : Shared) : Type 0 where
    pub base : List ℕ
    pub from : Written s.done base
    pub left : copy_from rounds i (f ++ behind) s.dmx.dmx_data ≡ copy_from 512 1 (f ++ behind) base
    pub marked : s.dmx.data_update ≡ true

  abbrev pub Calm : Shared → Type 0
  Calm s = Written s.done s.dmx.dmx_data × (s.dmx.data_update ≡ false)

  abbrev pub AtPc : Pc → Shared → Type 0
  AtPc starting s = Calm s
  AtPc receiving s = Calm s
  AtPc (polling f) s = Calm s
  AtPc (checked f) s = Calm s
  AtPc (writing f rounds i) s = Partial f rounds i s
  AtPc freed s = Calm s

  AllWhole-more :
      (done : List (List ℕ)) (f : List ℕ) (xs : List (List ℕ))
      → AllWhole done xs
      → AllWhole (done ++ (f ∷ [])) xs
  AllWhole-more done f [] v = tt
  AllWhole-more done f (x ∷ xs) ((fs, rest, w, e), v) = (
    (fs, rest ++ (f ∷ []), w, sym (append_assoc fs rest (f ∷ [])) ∙ ap (λ t. t ++ (f ∷ [])) e),
    AllWhole-more done f xs v,
  )

  pub send_dmx-IsWhole : (s : Shared) → Calm s → IsWhole s.done (send_dmx s.dmx)
  unfolding send_dmx
  send_dmx-IsWhole s c = (s.done, [], c.0, append-nil s.done)

  Calm-send_zero :
      (s : Shared)
      → Calm s
      → AllWhole s.done s.sent
      → Calm (send_zero s) × AllWhole (send_zero s).done (send_zero s).sent
  unfolding send_zero
  Calm-send_zero s c v = elim (Bool-cases (ltb (length s.queue) queue_length)) [
    | inl y ↦ rw y (c, v)
    | inr n ↦ rw n (c, v)
  ]

  not_calm : (sending : Bool) (d : Dmx) → d.data_update ≡ true → busy sending d ≡ false → ⊥
  unfolding busy
  not_calm sending d h e = ground arith

  Partial-write_byte :
      (f : List ℕ) (rounds i : ℕ) (s s' : Shared)
      → write_byte (f ++ behind) i s ≡ go s'
      → Partial f (suc rounds) i s
      → Partial f rounds (i + 1) s' × (s'.done ≡ s.done) × (s'.sent ≡ s.sent)
  unfolding copy_from
  Partial-write_byte f rounds i s s' h v =
      let (b, xs, r, w, e) = write_byte_lem (f ++ behind) i s s' h in
      subst (λ (t : Shared). Partial f rounds (i + 1) t × (t.done ≡ s.done) × (t.sent ≡ s.sent)) e
        (
          record {
            base = v.base;
            from = v.from;
            left =
                sym
                  (>>=-go (read (f ++ behind) i) _ r ∙ >>=-go (write s.dmx.dmx_data i (b ∷ [])) _ w)
                ∙ v.left;
            marked = v.marked;
          },
          refl,
          refl,
        )

  Calm-unmark :
      (f : List ℕ) (i : ℕ) (s : Shared)
      → Partial f 0 i s
      → Calm (force false (record s { done = s.done ++ (f ∷ []) }))
  unfolding force_busy copy_from
  Calm-unmark f i s v = (after f v.from (sym v.left), refl)

  module _ (loops one_core : Bool) where
    Calm-send :
        (s : Shared)
        → Calm s
        → AllWhole s.done s.sent
        → Calm (send s) × AllWhole (send s).done (send s).sent
    unfolding send
    Calm-send s c v = (c, (send_dmx-IsWhole s c, v))

    pub TaskStep-AtPc :
        (pc pc' : Pc) (s s' : Shared)
        → AtPc pc s
        → AllWhole s.done s.sent
        → TaskStep behind loops one_core pc s pc' s'
        → AtPc pc' s' × AllWhole s'.done s'.sent
    unfolding force_busy
    TaskStep-AtPc _ _ s _ c v begin = Calm-send_zero s c v
    TaskStep-AtPc _ _ s _ c v (receive e) = (c, v)
    TaskStep-AtPc _ _ s _ c v (wait e) = (c, v)
    TaskStep-AtPc _ _ s _ c v (check e) = (c, v)
    TaskStep-AtPc _ _ s _ c v mark =
        (record { base = s.dmx.dmx_data; from = c.0; left = refl; marked = refl }, v)
    TaskStep-AtPc _ _ s s' c v (write_round {f = f} {rounds = rounds} {i = i} e) =
        let (p, d, t) = Partial-write_byte f rounds i s s' e c in
        (p, subst (AllWhole s'.done) (sym t) (subst (λ done. AllWhole done s.sent) (sym d) v))
    TaskStep-AtPc _ _ s _ c v (unmark {f = f} {i = i}) =
        (Calm-unmark f i s c, AllWhole-more s.done f s.sent v)
    TaskStep-AtPc _ _ s _ c v (again e) = (c, v)
    TaskStep-AtPc _ _ s _ c v (send_itself e) = Calm-send s c v

    pub TaskStep-ready :
        (pc pc' : Pc) (s s' : Shared)
        → TaskStep behind loops one_core pc s pc' s'
        → s'.ready ≡ s.ready
    unfolding send send_zero enqueue
    TaskStep-ready _ _ s _ begin = elim (Bool-cases (ltb (length s.queue) queue_length)) [
      | inl y ↦ rw y
      | inr n ↦ rw n
    ]
    TaskStep-ready _ _ s _ (receive e) = refl
    TaskStep-ready _ _ s _ (wait e) = refl
    TaskStep-ready _ _ s _ (check e) = refl
    TaskStep-ready _ _ s _ mark = refl
    TaskStep-ready _ _ s s' (write_round {f = f} {i = i} e) =
        let (b, xs, r, w, same) = write_byte_lem (f ++ behind) i s s' e in
        ap (λ (x : Shared). x.ready) (sym same)
    TaskStep-ready _ _ s _ unmark = refl
    TaskStep-ready _ _ s _ (again e) = refl
    TaskStep-ready _ _ s _ (send_itself e) = refl

    abbrev shared :
        Dmx → Bool → Bool → List (List ℕ) → List (List ℕ) → List (List ℕ) → List (List ℕ) → Shared
    shared dmx sending ready queue enqueued done sent = record {
      dmx = dmx;
      sending = sending;
      ready = ready;
      queue = queue;
      enqueued = enqueued;
      done = done;
      sent = sent;
    }

    -- The device and the frames written are all that counts.
    pub AtPc-same :
        (pc : Pc) (d : Dmx) (done : List (List ℕ)) (b b' k k' : Bool)
        (q q' e e' t t' : List (List ℕ))
        → AtPc pc (shared d b k q e done t)
        → AtPc pc (shared d b' k' q' e' done t')
    AtPc-same starting d done b b' k k' q q' e e' t t' c = c
    AtPc-same receiving d done b b' k k' q q' e e' t t' c = c
    AtPc-same (polling f) d done b b' k k' q q' e e' t t' c = c
    AtPc-same (checked f) d done b b' k k' q q' e e' t t' c = c
    AtPc-same (writing f rounds i) d done b b' k k' q q' e e' t t' c = record {
      base = c.base;
      from = c.from;
      left = c.left;
      marked = c.marked;
    }
    AtPc-same freed d done b b' k k' q q' e e' t t' c = c

    -- A send of `dmx_loop` starts only where nothing is being written.
    pub busy-Calm : (pc : Pc) (s : Shared) → AtPc pc s → busy s.sending s.dmx ≡ false → Calm s
    busy-Calm starting s c e = c
    busy-Calm receiving s c e = c
    busy-Calm (polling f) s c e = c
    busy-Calm (checked f) s c e = c
    busy-Calm (writing f rounds i) s c e = absurd (not_calm s.sending s.dmx c.marked e)
    busy-Calm freed s c e = c
