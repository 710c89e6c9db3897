-- ===== src/Dhcp/Lease.antt =====
-- ProjectFiles/dhcpserver: the lease table, its expiry arithmetic, and the search for an address.
pub mod Time
pub mod Scan
use pico_rfu.Prelude.{ℕ, ◌+◌, ◌-◌, ◌*◌, ◌/◌, ◌%◌, ◌^◌, List, [], ◌∷◌, Bool, true, false}
use pico_rfu.Prelude.{leb, ◌==◌, if◌then◌else◌, same_bytes}

abbrev pub base_ip : ℕ
base_ip = 16

abbrev pub max_ip : ℕ
max_ip = 8

abbrev pub default_lease_time_s : ℕ
default_lease_time_s = 24 * 60 * 60

abbrev pub mac_len : ℕ
mac_len = 6

-- `dhcp_server_lease_t`: the six bytes of the address, and the high half of the time of expiry.
pub record Lease : Type 0 where
  pub mac : List ℕ
  pub expiry : ℕ

abbrev pub no_mac : List ℕ
no_mac = 0 ∷ 0 ∷ 0 ∷ 0 ∷ 0 ∷ 0 ∷ []

-- `(int32_t)(expiry - ticks) < 0`, where `expiry = lease.expiry << 16 | 0xffff` is a `uint32_t`.
unfoldable pub expired : ℕ → Lease → Bool
expired ticks l = leb (2 ^ 31) ((l.expiry * 2 ^ 16 + 0xffff + 2 ^ 32 - ticks) % 2 ^ 32)

-- `(ticks + DEFAULT_LEASE_TIME_S * 1000) >> 16`, stored in a `uint16_t`
unfoldable pub new_expiry : ℕ → ℕ
new_expiry ticks = (ticks + default_lease_time_s * 1000) % 2 ^ 32 / 2 ^ 16 % 2 ^ 16

-- What a round of the search at slot `i` does if no address was found before it and the slot is
-- not the client's: the slot afterwards, and `yi`.
unfoldable pub examine : ℕ → ℕ → Lease → Lease × ℕ
unfolding expired
examine ticks i l =
    if expired ticks l
    then (record l { mac = no_mac }, i)
    else if same_bytes l.mac no_mac
    then (l, i)
    else (l, max_ip)

-- The loop of DHCPDISCOVER from slot `i` on, with the address found so far. `ticks i` is what
-- `cyw43_hal_ticks_ms` returns at slot `i`.
unfoldable pub scan : (ℕ → ℕ) → List ℕ → ℕ → ℕ → List Lease → ℕ × List Lease
unfolding examine
scan ticks mac i yi [] = (yi, [])
scan ticks mac i yi (l ∷ ls) = elim (same_bytes l.mac mac) [
  | true ↦ (i, l ∷ ls)
  | false ↦
      let (l', yi') = if yi == max_ip then examine (ticks i) i l else (l, yi) in
      let (found, ls') = scan ticks mac (i + 1) yi' ls in (found, l' ∷ ls')
]
