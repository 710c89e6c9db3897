-- ===== src/Dhcp/Options.antt =====
-- ProjectFiles/dhcpserver/dhcpserver.c: the option codes, `opt_find` and the `opt_write` functions.
-- A `uint8_t *` into the message is its offset in `dhcp_msg_t`.
pub mod Find
pub mod Write
use pico_rfu.Prelude.{ℕ, zero, suc, ◌+◌, ◌/◌, ◌%◌, ◌^◌, ◌≡◌, Option, none, some, List, [], ◌∷◌}
use pico_rfu.Prelude.{Flow, go, endless, ◌>>=◌, read, write, take, ltb, ◌==◌, if◌then◌else◌, splice}

abbrev pub opt_subnet_mask : ℕ
opt_subnet_mask = 1

abbrev pub opt_router : ℕ
opt_router = 3

abbrev pub opt_dns : ℕ
opt_dns = 6

abbrev pub opt_requested_ip : ℕ
opt_requested_ip = 50

abbrev pub opt_ip_lease_time : ℕ
opt_ip_lease_time = 51

abbrev pub opt_msg_type : ℕ
opt_msg_type = 53

abbrev pub opt_server_id : ℕ
opt_server_id = 54

abbrev pub opt_end : ℕ
opt_end = 255

-- The loop bound of `opt_find`: what is left of the options behind the magic cookie.
abbrev pub opt_limit : ℕ
opt_limit = 308

-- The loop of `opt_find`, from index `i` on, for at most so many tests of its condition.
unfoldable pub find_from : ℕ → List ℕ → ℕ → ℕ → ℕ → Flow (Option ℕ)
find_from zero msg opt cmd i = endless
find_from (suc fuel) msg opt cmd i =
    if ltb i opt_limit
    then (do
      b ← read msg (opt + i)
      if b == opt_end
          then go none
          else if b == cmd
          then go (some (opt + i))
          else (do n ← read msg (opt + i + 1); find_from fuel msg opt cmd (i + 2 + n)))
    else go none

-- Rounds that suffice: half of `opt_limit`, and one to leave the loop.
abbrev pub find_fuel : ℕ
find_fuel = 155

unfoldable pub opt_find : List ℕ → ℕ → ℕ → Flow (Option ℕ)
unfolding find_from
opt_find msg opt cmd = find_from find_fuel msg opt cmd 0

-- The writers take the place `opt` to write at, and return the message and the place behind.
unfoldable pub opt_write_n : List ℕ → ℕ → ℕ → ℕ → List ℕ → Flow (List ℕ × ℕ)
unfolding splice
opt_write_n msg opt cmd n bytes = do
  m₁ ← write msg opt (cmd ∷ [])
  m₂ ← write m₁ (opt + 1) ((n % 256) ∷ [])
  m₃ ← write m₂ (opt + 2) (take n bytes)
  go (m₃, opt + 2 + n)

unfoldable pub opt_write_u8 : List ℕ → ℕ → ℕ → ℕ → Flow (List ℕ × ℕ)
unfolding splice
opt_write_u8 msg opt cmd val = do
  m₁ ← write msg opt (cmd ∷ [])
  m₂ ← write m₁ (opt + 1) (1 ∷ [])
  m₃ ← write m₂ (opt + 2) (val ∷ [])
  go (m₃, opt + 3)

-- The four bytes of a `uint32_t`, the high one first.
abbrev pub u32_bytes : ℕ → List ℕ
u32_bytes val = (val / 2 ^ 24 % 256) ∷ (val / 2 ^ 16 % 256) ∷ (val / 2 ^ 8 % 256) ∷ (val % 256) ∷ []

unfoldable pub opt_write_u32 : List ℕ → ℕ → ℕ → ℕ → Flow (List ℕ × ℕ)
unfolding splice
opt_write_u32 msg opt cmd val = do
  m₁ ← write msg opt (cmd ∷ [])
  m₂ ← write m₁ (opt + 1) (4 ∷ [])
  m₃ ← write m₂ (opt + 2) (u32_bytes val)
  go (m₃, opt + 6)
