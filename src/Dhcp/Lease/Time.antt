-- ===== src/Dhcp/Lease/Time.antt =====
-- The 16-bit expiry against the time that a lease was given.
use pico_rfu.Prelude.{ℕ, ◌+◌, ◌*◌, ◌%◌, ◌^◌, ◌≤◌, ◌≡◌, List, true, false, arith}
use pico_rfu.Dhcp.Lease.{expired, new_expiry, default_lease_time_s}

-- A lease given when the millisecond counter stood at `t` is not expired at any time up to 24
-- hours later, at whatever point the 32-bit counter wraps.
pub expired-new_expiry_within :
    (t dt : ℕ) (mac : List ℕ)
    → dt ≤ default_lease_time_s * 1000
    → expired ((t + dt) % 2 ^ 32) (record { mac = mac; expiry = new_expiry (t % 2 ^ 32) }) ≡ false
unfolding expired new_expiry
expired-new_expiry_within t dt mac h = ground arith

-- It is expired from 65.536 seconds after the 24 hours on, until half the range of the counter
-- (some 24 days) has gone by.
pub expired-new_expiry_after :
    (t dt : ℕ) (mac : List ℕ)
    → default_lease_time_s * 1000 + 2 ^ 16 ≤ dt
    → dt ≤ 2 ^ 31
    → expired ((t + dt) % 2 ^ 32) (record { mac = mac; expiry = new_expiry (t % 2 ^ 32) }) ≡ true
unfolding expired new_expiry
expired-new_expiry_after t dt mac h k = ground arith
