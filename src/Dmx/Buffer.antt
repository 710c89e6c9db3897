-- ===== src/Dmx/Buffer.antt =====
-- Channels and buffers of the DMX device.
use pico_rfu.Prelude.{
  ℕ, zero, suc, ◌+◌, ◌≤◌, ◌<◌, ◌≡◌, ap, ◌⊎◌, ◌↔◌, to_u8, negsuc, Bool-cases, inl, inr, refl, ◌∙◌,
  List,
}
use pico_rfu.Prelude.{[], ◌∷◌, true, false, Option, none, some, arith, go, fault}
use native.Mathlib.Decide.{dec_lt}
use pico_rfu.Prelude.{get_elem?-lt, ◌==◌, ℤ, pos, get_elem?, get_elem?-set_self, get_elem?-set_ne}
use pico_rfu.Prelude.{length, splice, write-in_range}
use pico_rfu.Prelude.{get_elem?-in_range, length-splice, get_elem?-splice_in}
use pico_rfu.Prelude.{
  get_elem?-splice_before, get_elem?-splice_after, leb, ltb, if◌then◌else◌, Option-cases,
}
use pico_rfu.Dmx.Device.{Dmx, universe_size, busy, set_channel, copy_from}
use pico_rfu.Dmx.Device.{unsafe_write_buffer, get_shadow_buff, valid_channel}

-- The byte `i` of a copy of the bytes from `k` to `k + n` out of `from` into `to`.
abbrev pub merged : List ℕ → List ℕ → ℕ → ℕ → ℕ → Option ℕ
merged from to k n i =
    if leb k i then (if ltb i (k + n) then get_elem? from i else get_elem? to i) else get_elem? to i

-- Where both buffers have the bytes, the loop copies them and nothing else.
copy_from_lem :
    (rounds i : ℕ) (from to : List ℕ)
    → i + rounds ≤ length from
    → i + rounds ≤ length to
    → (to' : List ℕ) × (copy_from rounds i from to ≡ go to')
      × (length to' ≡ length to)
      × ((j : ℕ) → get_elem? to' j ≡ merged from to i rounds j)
unfolding copy_from
copy_from_lem zero i from to h k = (to, refl, refl, λ j. ground arith)
copy_from_lem (suc rounds) i from to h k =
    let (b, e) = get_elem?-in_range from i (omega arith) in
    let size = length-splice to i (b ∷ []) (omega arith) in
    let (to', run, same, at) =
      copy_from_lem rounds (i + 1) from (splice to i (b ∷ [])) (omega arith)
        (omega (arith, size)) in
    (
      to',
      rw (e, write-in_range to i (b ∷ []) (omega arith)) run,
      same ∙ size,
      λ j.
          at j
          ∙ ground (
            arith,
            e,
            get_elem?-splice_in to i 0 (b ∷ []),
            get_elem?-splice_before to i j (b ∷ []),
            get_elem?-splice_after to i j (b ∷ []),
          ),
    )

copy_from_over_read :
    (rounds i : ℕ) (from to : List ℕ)
    → i ≤ length from
    → length from < i + rounds
    → i + rounds ≤ length to
    → copy_from rounds i from to ≡ fault
unfolding copy_from
copy_from_over_read zero i from to h k l = absurd (omega arith)
copy_from_over_read (suc rounds) i from to h k l = elim (Option-cases (get_elem? from i)) [
  | inl e ↦ rw e
  | inr (b, e) ↦
      rw (e, write-in_range to i (b ∷ []) (omega arith))
        (copy_from_over_read rounds (i + 1) from (splice to i (b ∷ []))
          (omega (arith, get_elem?-lt from i b e)) (omega arith)
          (omega (arith, length-splice to i (b ∷ []) (omega arith))))
]

copy_from_over_write :
    (rounds i : ℕ) (from to : List ℕ)
    → i ≤ length to
    → length to < i + rounds
    → i + rounds ≤ length from
    → copy_from rounds i from to ≡ fault
unfolding copy_from
copy_from_over_write zero i from to h k l = absurd (omega arith)
copy_from_over_write (suc rounds) i from to h k l =
    let (b, e) = get_elem?-in_range from i (omega arith) in
    elim (dec_lt i (length to)) [
      | yes p ↦
          rw (e, write-in_range to i (b ∷ []) (omega arith))
            (copy_from_over_write rounds (i + 1) from (splice to i (b ∷ []))
              (omega (arith, length-splice to i (b ∷ []) (omega arith)))
              (omega (arith, length-splice to i (b ∷ []) (omega arith))) (omega arith))
      | no p ↦ ground (arith, e)
    ]

-- The buffers of the class have their size.
pub record IsDevice (d : Dmx) : Type 0 where
  pub frame : length d.dmx_data ≡ universe_size

-- A frame of 513 bytes that is written without its start code is read back by `getshadowbuff`: the
-- 512 channels are those of the frame, the start code that is sent stays as it was, and of the
-- buffer that is read into, the bytes outside the channels stay as they were.
pub get_shadow_buff-unsafe_write_buffer :
    (d : Dmx) (buffer out : List ℕ)
    → IsDevice d
    → universe_size ≤ length buffer
    → universe_size ≤ length out
    → (d' : Dmx) × (out' : List ℕ) × (unsafe_write_buffer buffer true d ≡ go d')
      × (get_shadow_buff out d' ≡ go out')
      × IsDevice d'
      × (d'.data_update ≡ d.data_update)
      × (get_elem? d'.dmx_data 0 ≡ get_elem? d.dmx_data 0)
      × ((j : ℕ) → get_elem? out' j ≡ merged buffer out 1 512 j)
unfolding unsafe_write_buffer get_shadow_buff
get_shadow_buff-unsafe_write_buffer d buffer out v h k =
    let (xs, run, size, at) =
      copy_from_lem 512 1 buffer d.dmx_data (omega arith) (omega (arith, v)) in
    let (out', run', size', at') =
      copy_from_lem 512 1 xs out (omega (arith, v, size)) (omega arith) in
    (
      record { dmx_data = xs; data_update = d.data_update },
      out',
      rw run,
      run',
      record { frame = size ∙ v.frame },
      refl,
      at 0,
      λ j. at' j ∙ ground (arith, at j),
    )

-- A buffer of 512 bytes is too short for `getshadowbuff`, and for `unsafeWriteBuffer` without the
-- start code: both access the byte behind it.
pub short_buffer_faults :
    (d : Dmx) (buffer : List ℕ)
    → IsDevice d
    → length buffer ≡ 512
    → (get_shadow_buff buffer d ≡ fault) × (unsafe_write_buffer buffer true d ≡ fault)
unfolding unsafe_write_buffer get_shadow_buff
short_buffer_faults d buffer v h = (
  copy_from_over_write 512 1 d.dmx_data buffer (omega arith) (omega arith) (omega (arith, v)),
  rw (copy_from_over_read 512 1 buffer d.dmx_data (omega arith) (omega arith) (omega (arith, v))),
)

set_channel_at :
    (n j : ℕ) (value : ℤ) (d : Dmx)
    → 1 ≤ n
    → n ≤ 512
    → IsDevice d
    → get_elem? (set_channel (pos n) value d).dmx_data j
      ≡ (if j == n then some (to_u8 value) else get_elem? d.dmx_data j)
unfolding set_channel
set_channel_at n j value d h k v = ground (
  arith,
  get_elem?-set_self d.dmx_data n (to_u8 value),
  get_elem?-set_ne d.dmx_data n j (to_u8 value),
  v.frame,
)

-- `setChannel` of a channel from 1 to 512 sets that byte of the frame, and no other, and leaves the
-- device free.
pub set_channel_lem :
    (n : ℕ) (value : ℤ) (d : Dmx)
    → 1 ≤ n
    → n ≤ 512
    → IsDevice d
    → ((j : ℕ)
        → get_elem? (set_channel (pos n) value d).dmx_data j
          ≡ (if j == n then some (to_u8 value) else get_elem? d.dmx_data j))
      × (busy false (set_channel (pos n) value d) ≡ false)
unfolding busy set_channel
set_channel_lem n value d h k v = (λ j. set_channel_at n j value d h k v, ground arith)

-- Not a channel of the universe: less than 1, or more than 512.
abbrev pub OutOfRange : ℤ → Type 0
OutOfRange (pos n) = (n < 1) ⊎ (512 < n)
OutOfRange (negsuc n) = Unit {0}

range_none : (channel : ℤ) → valid_channel channel ≡ none → OutOfRange channel
range_none (negsuc n) h = tt
range_none (pos n) h = elim (Bool-cases (leb 1 n)) [
  | inr low ↦ inl (ground arith)
  | inl some_channel ↦ inr (ground arith)
]

range_some : (channel : ℤ) (n : ℕ) → valid_channel channel ≡ some n → OutOfRange channel → ⊥
range_some (negsuc m) n h r = cc
range_some (pos m) n h (inl low) = ground arith
range_some (pos m) n h (inr high) = ground arith

set_channel-none :
    (channel value : ℤ) (d : Dmx)
    → valid_channel channel ≡ none
    → set_channel channel value d ≡ record { dmx_data = d.dmx_data; data_update = true }
unfolding set_channel
set_channel-none channel value d h = rw (h, set_channel) refl

set_channel-some :
    (channel value : ℤ) (d : Dmx) (n : ℕ)
    → valid_channel channel ≡ some n
    → (set_channel channel value d).data_update ≡ false
unfolding set_channel
set_channel-some channel value d n h = rw (h, set_channel) refl

-- `setChannel` of a channel less than 1 or more than 512, and of no other, leaves the device busy
-- although the output is not: it changes no byte, and the mark that it sets stays.
pub set_channel_stuck :
    (channel value : ℤ) (d : Dmx)
    → (busy false (set_channel channel value d) ≡ true) ↔ (
        OutOfRange channel
        × (set_channel channel value d ≡ record { dmx_data = d.dmx_data; data_update = true }))
unfolding busy set_channel
set_channel_stuck channel value d = elim (Option-cases (valid_channel channel)) [
  | inl e ↦ (
    λ b. (range_none channel e, set_channel-none channel value d e),
    λ r. ap (λ (x : Dmx). x.data_update) r.1,
  )
  | inr (n, e) ↦ (
    λ b. absurd (cc (b, set_channel-some channel value d n e)),
    λ r. absurd (range_some channel n e r.0),
  )
]
