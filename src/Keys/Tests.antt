-- ===== src/Keys/Tests.antt =====
-- ProjectFiles/main.cpp: `processKeys` on concrete strings.
use pico_rfu.Prelude.{◌%◌, ◌≡◌, refl, [], ◌∷◌, map, arith, go, fault}
use pico_rfu.Prelude.{codes}
use pico_rfu.Dmx.Device.{dmx_class}
use pico_rfu.Keys.Text.{at, full, thru, number, tokens, classify}
use pico_rfu.Keys.Print.{print}
use pico_rfu.Keys.Print.Back.{classify-print}
use pico_rfu.Keys.Run.{State, start, run, blank_frame, process_keys}
use pico_rfu.Keys.Effect.{Sets, thru_at, channel_faults, process_keys_faults}

-- The words of a command, as the loop sees them.
spoken :
    map classify (tokens (codes "1 THRU 3 AT 50"))
    ≡ number 1 ∷ thru ∷ number 3 ∷ at ∷ number 50 ∷ []
unfolding tokens classify
spoken = refl

thru_at_example :
    (s : State) × (run
        (number 1 ∷ thru ∷ number 3 ∷ at ∷ number 300 ∷ [])
        (start blank_frame (7 ∷ []))
      ≡ go s)
    × Sets blank_frame (7 ∷ []) 1 3 (300 % 256) s
unfolding blank_frame
thru_at_example =
    thru_at 1 3 blank_frame (7 ∷ []) refl (omega arith) (omega arith) (omega arith) 300

channel_faults_example : run (number 512 ∷ at ∷ number 50 ∷ []) (start blank_frame []) ≡ fault
unfolding blank_frame
channel_faults_example = channel_faults 512 50 blank_frame [] (omega arith)

process_keys_faults_example : process_keys (codes "1 AT 50") [] dmx_class ≡ fault
unfolding dmx_class
process_keys_faults_example =
    process_keys_faults (codes "1 AT 50") [] dmx_class (record { frame = refl })

-- The greatest number that comes back as it is.
classify-print_example :
    map classify (tokens (print (number 65535 ∷ thru ∷ number 7 ∷ at ∷ full ∷ [])))
    ≡ number 65535 ∷ thru ∷ number 7 ∷ at ∷ full ∷ []
classify-print_example =
    classify-print (number 65535 ∷ thru ∷ number 7 ∷ at ∷ full ∷ [])
      (omega arith, (omega arith, tt))
