-- ===== src/Config/Tests.antt =====
-- ProjectFiles/main.cpp: the configuration on concrete objects.
use pico_rfu.Prelude.{ℕ, ◌≡◌, ◌≢◌, refl, List, false, arith, go}
use pico_rfu.Prelude.{set, ◌==◌, if◌then◌else◌}
use pico_rfu.Eeprom.Store.{eeprom_class, begin, rounded}
use pico_rfu.Eeprom.Tests.{one_sector, blank_flash, page, page-IsValid, page-IsSynced}
use pico_rfu.Config.Store.{
  RfuConfig, default_config, calc_check_sum, to_bytes, of_bytes, config_size, write_config, boot,
}
use pico_rfu.Config.Store.{force_default}
use pico_rfu.Config.Checksum.{calc_check_sum-set}
use pico_rfu.Config.Layout.{IsConfig, of_bytes-to_bytes}
use pico_rfu.Config.Restart.{IsRunning, boot-write_config, boot-force_default}

-- The default configuration as a station.
abbrev station_config : RfuConfig
station_config = record default_config { ap_mode = false; checksum = 110 }

default_checksum : default_config.checksum ≡ calc_check_sum default_config
unfolding calc_check_sum
default_checksum = refl

station-IsConfig : IsConfig station_config
station-IsConfig = record {
  hostname = refl;
  ssid = refl;
  password = refl;
  web_password = refl;
  hostname_len = omega arith;
  ssid_len = omega arith;
  password_len = omega arith;
  web_password_len = omega arith;
}

running : IsRunning one_sector page blank_flash
unfolding rounded
running = record { valid = page-IsValid; synced = page-IsSynced; begun = refl }

of_bytes-to_bytes_example : of_bytes (to_bytes station_config) ≡ station_config
of_bytes-to_bytes_example = of_bytes-to_bytes station_config station-IsConfig

boot-write_config_example :
    (s' : List ℕ) × (write_config one_sector station_config page blank_flash ≡ go s')
    × (boot one_sector s'
        ≡ go (
          begin one_sector config_size s' eeprom_class,
          if station_config.checksum == calc_check_sum station_config
              then station_config
              else default_config,
        ))
boot-write_config_example =
    boot-write_config one_sector page blank_flash station_config running station-IsConfig

boot-force_default_example :
    (s' : List ℕ) × (write_config one_sector (force_default station_config) page blank_flash
      ≡ go s')
    × (boot one_sector s' ≡ go (begin one_sector config_size s' eeprom_class, default_config))
unfolding calc_check_sum
boot-force_default_example =
    boot-force_default one_sector page blank_flash station_config running station-IsConfig refl

calc_check_sum-set_example :
    calc_check_sum (record default_config { password = set default_config.password 0 65 })
    ≢ calc_check_sum default_config
calc_check_sum-set_example =
    calc_check_sum-set default_config 0 65 (omega arith) (omega arith) (omega arith) (omega arith)
