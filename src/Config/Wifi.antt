-- ===== src/Config/Wifi.antt =====
-- ProjectFiles/main.cpp: `wifi_init_task` up to the start of the other tasks.
use pico_rfu.Prelude.{ℕ, zero, suc, ◌+◌, List, [], ◌∷◌, Bool}
use pico_rfu.Prelude.{true, false, leb, if◌then◌else◌}
use pico_rfu.Config.Store.{RfuConfig, force_default}

-- What the task comes to: a reset, the access point at an address with a mask, a connected station,
-- or a write of the configuration followed by a reset.
pub data Outcome : Type 0 where
  device_reset : Outcome
  access_point : List ℕ → List ℕ → Outcome
  station : Outcome
  write_and_reset : RfuConfig → Outcome

abbrev pub max_polls : ℕ
max_polls = 30

-- The loop that waits for the link, with `rounds` rounds left; `up t` is whether the link is up when
-- `timeout` is `t`. Returns `timeout`.
unfoldable pub wait_link : ℕ → (ℕ → Bool) → ℕ → ℕ
wait_link zero up timeout = timeout
wait_link (suc rounds) up timeout = elim (up timeout) [
  | true ↦ timeout
  | false ↦ wait_link rounds up (timeout + 1)
]

-- `init_failed` is whether `cyw43_arch_init_with_country` returns an error.
unfoldable pub wifi_init : Bool → (ℕ → Bool) → RfuConfig → Outcome
wifi_init init_failed up c =
    if init_failed
    then device_reset
    else if c.ap_mode
    then access_point (192 ∷ 168 ∷ 4 ∷ 1 ∷ []) (255 ∷ 255 ∷ 255 ∷ 0 ∷ [])
    else if leb max_polls (wait_link max_polls up 0)
    then write_and_reset (force_default c)
    else station
