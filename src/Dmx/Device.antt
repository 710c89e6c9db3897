-- ===== src/Dmx/Device.antt =====
-- DMX/src/piodmx.cpp and DMX/include/piodmx.h: the class `DMX`. `DmxOutput`, of the Pico-DMX
-- library, enters as `output_busy`, what its `busy()` returns, and as the frames that it is given.
-- The loops that wait for it end when it is not busy, and change nothing.
use pico_rfu.Prelude.{
  ℕ, zero, suc, ◌+◌, ◌-◌, ◌%◌, List, [], ◌∷◌, Bool, true, false, ◌||◌, Option, none,
}
use pico_rfu.Prelude.{some, Flow, go, ◌>>=◌, ℤ, pos, negsuc, to_u8, read, write, set, leb}
use pico_rfu.Prelude.{if◌then◌else◌}

-- The start code and 512 channels.
abbrev pub universe_size : ℕ
universe_size = 513

pub record Dmx : Type 0 where
  pub dmx_data : List ℕ
  pub data_update : Bool

abbrev pub ramp : ℕ → ℕ → List ℕ
ramp zero i = []
ramp (suc n) i = (i % 256) ∷ ramp n (i + 1)

-- The constructor.
unfoldable pub dmx_class : Dmx
dmx_class = record { dmx_data = ramp universe_size 0; data_update = false }

-- `sendDMX`: the frame that goes to `DmxOutput::write_dmx`.
unfoldable pub send_dmx : Dmx → List ℕ
send_dmx d = d.dmx_data

unfoldable pub busy : Bool → Dmx → Bool
busy output_busy d = output_busy || d.data_update

unfoldable pub force_busy : Bool → Dmx → Dmx
force_busy b d = record d { data_update = b }

-- `channel < 1 || channel > 512`, negated, with the channel
abbrev pub valid_channel : ℤ → Option ℕ
valid_channel (negsuc n) = none
valid_channel (pos n) = if leb 1 n then (if leb n 512 then some n else none) else none

-- `setChannel`, once the output is not busy.
unfoldable pub set_channel : ℤ → ℤ → Dmx → Dmx
set_channel channel value d = elim (valid_channel channel) [
  | none ↦ record d { data_update = true }
  | some n ↦ record { dmx_data = set d.dmx_data n (to_u8 value); data_update = false }
]

-- `unasfeSetChannel`
unfoldable pub unsafe_set_channel : ℤ → ℤ → Dmx → Dmx
unsafe_set_channel channel value d = elim (valid_channel channel) [
  | none ↦ d
  | some n ↦ record d { dmx_data = set d.dmx_data n (to_u8 value) }
]

-- `for (i = …; i < 513; i++) to[i] = from[i]`, with `rounds` rounds left.
unfoldable pub copy_from : ℕ → ℕ → List ℕ → List ℕ → Flow (List ℕ)
copy_from zero i from to = go to
copy_from (suc rounds) i from to = do
  b ← read from i
  to' ← write to i (b ∷ [])
  copy_from rounds (i + 1) from to'

-- The first index that a buffer is copied from: 1 to leave the start code.
abbrev pub first_index : Bool → ℕ
first_index true = 1
first_index false = 0

-- `unsafeWriteBuffer`
unfoldable pub unsafe_write_buffer : List ℕ → Bool → Dmx → Flow Dmx
unsafe_write_buffer buffer no_start_code d = do
  xs ←
      copy_from (universe_size - first_index no_start_code) (first_index no_start_code) buffer
        d.dmx_data
  go (record d { dmx_data = xs })

-- `writeBuffer`, once the output is not busy.
unfoldable pub write_buffer : List ℕ → Bool → Dmx → Flow Dmx
write_buffer buffer no_start_code d = do
  xs ←
      copy_from (universe_size - first_index no_start_code) (first_index no_start_code) buffer
        d.dmx_data
  go (record { dmx_data = xs; data_update = false })

-- `getshadowbuff`: the buffer afterwards.
unfoldable pub get_shadow_buff : List ℕ → Dmx → Flow (List ℕ)
get_shadow_buff buffer d = copy_from 512 1 d.dmx_data buffer
