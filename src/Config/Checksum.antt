-- ===== src/Config/Checksum.antt =====
-- What the checksum is, and what it tells apart.
use pico_rfu.Prelude.{ℕ, zero, suc, ◌+◌, ◌%◌, ◌<◌, ◌≡◌, ◌≢◌, refl, List, []}
use pico_rfu.Prelude.{◌∷◌, arith, length, get_or, set}
use pico_rfu.Config.Store.{RfuConfig, add8, add_all, calc_check_sum, bool_byte, force_default}

abbrev pub sum : List ℕ → ℕ
sum [] = 0
sum (x ∷ xs) = x + sum xs

add_all-eq-sum : (acc : ℕ) (xs : List ℕ) → acc < 256 → add_all acc xs ≡ (acc + sum xs) % 256
unfolding add_all
add_all-eq-sum acc [] h = omega arith
add_all-eq-sum acc (x ∷ xs) h = omega (arith, add_all-eq-sum (add8 acc x) xs (omega arith))

-- The checksum is the sum of all characters, lengths and flags, modulo 256.
pub calc_check_sum_lem :
    (c : RfuConfig)
    → calc_check_sum c
      ≡ (sum c.hostname
          + sum c.ssid
          + sum c.password
          + sum c.web_password
          + c.hostname_len
          + c.ssid_len
          + c.password_len
          + c.web_password_len
          + bool_byte c.ap_mode
          + bool_byte c.dmx_loop)
        % 256
unfolding calc_check_sum
calc_check_sum_lem c = omega (arith, e₁, e₂, e₃, e₄)
  where
    s₁ : ℕ
    s₁ = add_all 0 c.hostname

    s₂ : ℕ
    s₂ = add_all s₁ c.ssid

    s₃ : ℕ
    s₃ = add_all s₂ c.password

    e₁ : s₁ ≡ (0 + sum c.hostname) % 256
    e₁ = add_all-eq-sum 0 c.hostname (omega arith)

    e₂ : s₂ ≡ (s₁ + sum c.ssid) % 256
    e₂ = add_all-eq-sum s₁ c.ssid (omega (arith, e₁))

    e₃ : s₃ ≡ (s₂ + sum c.password) % 256
    e₃ = add_all-eq-sum s₂ c.password (omega (arith, e₂))

    e₄ : add_all s₃ c.web_password ≡ (s₃ + sum c.web_password) % 256
    e₄ = add_all-eq-sum s₃ c.web_password (omega (arith, e₃))

pub calc_check_sum-lt : (c : RfuConfig) → calc_check_sum c < 256
calc_check_sum-lt c = omega (arith, calc_check_sum_lem c)

-- Marking a configuration changes its checksum and not the sum.
pub force_default_lem :
    (c : RfuConfig)
    → ((force_default c).checksum ≡ (c.checksum + 1) % 256)
      × (calc_check_sum (force_default c) ≡ calc_check_sum c)
unfolding force_default calc_check_sum
force_default_lem c = (refl, refl)

sum-set : (xs : List ℕ) (i x : ℕ) → i < length xs → sum (set xs i x) + get_or xs i 0 ≡ sum xs + x
sum-set [] i x h = elim h [ ]
sum-set (y ∷ xs) zero x h = omega arith
sum-set (y ∷ xs) (suc i) x h = omega (arith, sum-set xs i x)

-- A byte of the password that changed to another byte changes the checksum.
pub calc_check_sum-set :
    (c : RfuConfig) (i x : ℕ)
    → i < length c.password
    → get_or c.password i 0 < 256
    → x < 256
    → x ≢ get_or c.password i 0
    → calc_check_sum (record c { password = set c.password i x }) ≢ calc_check_sum c
calc_check_sum-set c i x h small small' other =
    let changed = record c { password = set c.password i x } in
    omega (arith, calc_check_sum_lem changed, calc_check_sum_lem c, sum-set c.password i x h)
