-- ===== src/Dmx/Tests.antt =====
-- DMX on concrete frames.
use pico_rfu.Prelude.{◌↔◌, ℕ, ◌≡◌, refl, List, true, false, arith}
use pico_rfu.Prelude.{pos, go, fault, get_elem?, replicate}
use pico_rfu.Dmx.Device.{Dmx, dmx_class, set_channel, busy, unsafe_write_buffer, get_shadow_buff}
use pico_rfu.Dmx.Buffer.{IsDevice, merged, get_shadow_buff-unsafe_write_buffer, short_buffer_faults}
use pico_rfu.Dmx.Buffer.{OutOfRange, set_channel_stuck}

dmx_class-IsDevice : IsDevice dmx_class
unfolding dmx_class
dmx_class-IsDevice = record { frame = refl }

abbrev bright : List ℕ
bright = replicate 513 255

abbrev dark : List ℕ
dark = replicate 513 0

get_shadow_buff-unsafe_write_buffer_example :
    (d' : Dmx) × (out' : List ℕ) × (unsafe_write_buffer bright true dmx_class ≡ go d')
    × (get_shadow_buff dark d' ≡ go out')
    × IsDevice d'
    × (d'.data_update ≡ dmx_class.data_update)
    × (get_elem? d'.dmx_data 0 ≡ get_elem? dmx_class.dmx_data 0)
    × ((j : ℕ) → get_elem? out' j ≡ merged bright dark 1 512 j)
get_shadow_buff-unsafe_write_buffer_example =
    get_shadow_buff-unsafe_write_buffer dmx_class bright dark dmx_class-IsDevice (omega arith)
      (omega arith)

short_buffer_faults_example :
    (get_shadow_buff (replicate 512 0) dmx_class ≡ fault)
    × (unsafe_write_buffer (replicate 512 0) true dmx_class ≡ fault)
short_buffer_faults_example =
    short_buffer_faults dmx_class (replicate 512 0) dmx_class-IsDevice refl

set_channel_stuck_example : (busy false (set_channel (pos 513) (pos 7) dmx_class) ≡ true) ↔ (
    OutOfRange (pos 513)
    × (set_channel (pos 513) (pos 7) dmx_class
        ≡ record { dmx_data = dmx_class.dmx_data; data_update = true }))
set_channel_stuck_example = set_channel_stuck (pos 513) (pos 7) dmx_class
