-- ===== src/Config/Store.antt =====
-- ProjectFiles/main.cpp: `rfu_config_t`, `calcCheckSum`, `loadConfig` and `write_config_task`.
use pico_rfu.Prelude.{ℕ, ◌+◌, ◌*◌, ◌/◌, ◌%◌, ◌^◌, List, [], ◌∷◌, ◌++◌, Bool, true, false, not}
use pico_rfu.Prelude.{Flow, go, ◌>>=◌, pos, replicate, slice, get_or, ◌==◌, if◌then◌else◌}
use pico_rfu.Eeprom.Flash.{Flash}
use pico_rfu.Eeprom.Store.{Eeprom, eeprom_class, begin, get, put, commit}

-- The character arrays as lists of 32 or 64 bytes; `pad` is the byte that rounds the size up to a
-- multiple of four.
pub record RfuConfig : Type 0 where
  pub hostname : List ℕ
  pub hostname_len : ℕ
  pub ssid : List ℕ
  pub ssid_len : ℕ
  pub password : List ℕ
  pub password_len : ℕ
  pub web_password : List ℕ
  pub web_password_len : ℕ
  pub ap_mode : Bool
  pub dmx_loop : Bool
  pub checksum : ℕ
  pub pad : ℕ

abbrev pub bool_byte : Bool → ℕ
bool_byte true = 1
bool_byte false = 0

-- "rfunit", "RemoteFocus" and "12345678", each with zeros behind.
abbrev pub default_password : List ℕ
default_password = 49 ∷ 50 ∷ 51 ∷ 52 ∷ 53 ∷ 54 ∷ 55 ∷ 56 ∷ replicate 56 0

abbrev pub default_config : RfuConfig
default_config = record {
  hostname = 114 ∷ 102 ∷ 117 ∷ 110 ∷ 105 ∷ 116 ∷ replicate 26 0;
  hostname_len = 6;
  ssid = 82 ∷ 101 ∷ 109 ∷ 111 ∷ 116 ∷ 101 ∷ 70 ∷ 111 ∷ 99 ∷ 117 ∷ 115 ∷ replicate 21 0;
  ssid_len = 11;
  password = default_password;
  password_len = 8;
  web_password = default_password;
  web_password_len = 8;
  ap_mode = true;
  dmx_loop = true;
  checksum = 111;
  pad = 0;
}

-- `checksum += x` of a `uint8_t`
abbrev pub add8 : ℕ → ℕ → ℕ
add8 sum x = (sum + x) % 256

-- The loop over a character array.
unfoldable pub add_all : ℕ → List ℕ → ℕ
add_all sum [] = sum
add_all sum (x ∷ xs) = add_all (add8 sum x) xs

unfoldable pub calc_check_sum : RfuConfig → ℕ
unfolding add_all
calc_check_sum c =
    let s₁ = add_all 0 c.hostname in
    let s₂ = add_all s₁ c.ssid in
    let s₃ = add_all s₂ c.password in
    let s₄ = add_all s₃ c.web_password in
    let s₅ =
      add8 (add8 (add8 (add8 s₄ c.hostname_len) c.ssid_len) c.password_len) c.web_password_len in
    add8 (add8 s₅ (bool_byte c.ap_mode)) (bool_byte c.dmx_loop)

-- A `size_t` in memory, the low byte first.
abbrev pub size_bytes : ℕ → List ℕ
size_bytes n = (n % 256) ∷ (n / 2 ^ 8 % 256) ∷ (n / 2 ^ 16 % 256) ∷ (n / 2 ^ 24 % 256) ∷ []

abbrev pub read_size : List ℕ → ℕ → ℕ
read_size xs i =
    get_or xs i 0
    + get_or xs (i + 1) 0 * 2 ^ 8
    + get_or xs (i + 2) 0 * 2 ^ 16
    + get_or xs (i + 3) 0 * 2 ^ 24

-- `sizeof(rfu_config_t)`
abbrev pub config_size : ℕ
config_size = 212

-- The object as it lies in memory, and the object that lies in `config_size` bytes.
unfoldable pub to_bytes : RfuConfig → List ℕ
to_bytes c =
    c.hostname
    ++ (size_bytes c.hostname_len
        ++ (c.ssid
            ++ (size_bytes c.ssid_len
                ++ (c.password
                    ++ (size_bytes c.password_len
                        ++ (c.web_password
                            ++ (size_bytes c.web_password_len
                                ++ (bool_byte c.ap_mode
                                    ∷ bool_byte c.dmx_loop
                                    ∷ c.checksum
                                    ∷ c.pad
                                    ∷ []))))))))

unfoldable pub of_bytes : List ℕ → RfuConfig
of_bytes xs = record {
  hostname = slice xs 0 32;
  hostname_len = read_size xs 32;
  ssid = slice xs 36 32;
  ssid_len = read_size xs 68;
  password = slice xs 72 64;
  password_len = read_size xs 136;
  web_password = slice xs 140 64;
  web_password_len = read_size xs 204;
  ap_mode = not (get_or xs 208 0 == 0);
  dmx_loop = not (get_or xs 209 0 == 0);
  checksum = get_or xs 210 0;
  pad = get_or xs 211 0;
}

-- `loadConfig`: the global `rfu_config` afterwards.
unfoldable pub load_config : Eeprom → RfuConfig → Flow RfuConfig
load_config e rfu_config = do
  bytes ← get (pos 0) config_size (to_bytes default_config) e
  let config = of_bytes bytes
  go (if config.checksum == calc_check_sum config then config else rfu_config)

-- `wifi_init_task` marks a configuration that does not connect, so that it is not loaded again.
unfoldable pub force_default : RfuConfig → RfuConfig
force_default c = record c { checksum = (c.checksum + 1) % 256 }

module _ (flash : Flash) where
  -- `write_config_task` up to the reset: the flash memory that the next start finds.
  unfoldable pub write_config : RfuConfig → Eeprom → flash.State → Flow flash.State
  write_config rfu_config e s = do
    e' ← put (pos 0) (to_bytes rfu_config) e
    go (commit flash e' s).1

  -- `main` up to the scheduler's start: the EEPROM object, and `rfu_config`.
  unfoldable pub boot : flash.State → Flow (Eeprom × RfuConfig)
  boot s =
      let e = begin flash config_size s eeprom_class in
      do c ← load_config e default_config; go (e, c)
