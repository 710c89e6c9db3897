-- ===== src/Config/Restart.antt =====
-- The configuration over a restart.
use pico_rfu.Prelude.{endless, ◌≤◌, ◌≡◌, inl, inr, refl, ap, subst, ◌∙◌}
use pico_rfu.Prelude.{arith, Flow, go, fault, ignore_request, >>=-eq-go, length, pos, ◌==◌, ==_iff}
use pico_rfu.Prelude.{if◌then◌else◌, Bool-cases}
use pico_rfu.Eeprom.Flash.{Flash}
use pico_rfu.Eeprom.Store.{Eeprom, eeprom_class, begin, get, put, commit, rounded}
use pico_rfu.Eeprom.Valid.{IsValid, put-ne_fault, put-ne_ignore, put-ne_endless}
use pico_rfu.Eeprom.Persist.{IsSynced, restart_restores}
use pico_rfu.Config.Store.{
  RfuConfig, default_config, calc_check_sum, to_bytes, of_bytes, config_size,
}
use pico_rfu.Config.Store.{load_config, force_default, write_config, boot}
use pico_rfu.Config.Layout.{IsConfig, of_bytes-to_bytes, length-to_bytes, force_default-IsConfig}
use pico_rfu.Config.Checksum.{calc_check_sum-lt, force_default_lem}

config_fits : config_size ≤ rounded config_size
unfolding rounded
config_fits = omega arith

-- The EEPROM object of a running device.
pub record IsRunning (flash : Flash) (e : Eeprom) (s : flash.State) : Type 0 where
  pub valid : IsValid e
  pub synced : IsSynced flash e s
  pub begun : e.size ≡ rounded config_size

module _ (flash : Flash) (e : Eeprom) (s : flash.State) (c : RfuConfig) where
  module _ (v : IsRunning flash e s) (typed : IsConfig c) where
    stored :
        (s' : flash.State)
        → write_config flash c e s ≡ go s'
        → get
            (pos 0)
            config_size
            (to_bytes default_config)
            (begin flash config_size s' eeprom_class)
          ≡ go (to_bytes c)
    unfolding write_config
    stored s' h =
        let (e', p, w) = >>=-eq-go (put (pos 0) (to_bytes c) e) _ h in
        subst
          (λ n.
            get (pos 0) n (to_bytes default_config) (begin flash config_size s' eeprom_class)
            ≡ go (to_bytes c))
          (length-to_bytes c typed)
          (subst
            (λ t.
              get (pos 0) (length (to_bytes c)) (to_bytes default_config)
                (begin flash config_size t eeprom_class)
              ≡ go (to_bytes c))
            (cc w)
            (restart_restores flash config_size 0 (to_bytes c) (to_bytes default_config) e e' s
              v.valid v.synced v.begun (omega (arith, length-to_bytes c typed))
              (omega (arith, length-to_bytes c typed, v.begun, room)) p))
      where
        room : config_size ≤ rounded config_size
        room = omega (arith, config_fits)

    boot_at :
        (s' : flash.State)
        → write_config flash c e s ≡ go s'
        → boot flash s'
          ≡ go (
            begin flash config_size s' eeprom_class,
            if c.checksum == calc_check_sum c then c else default_config,
          )
    unfolding boot load_config
    boot_at s' h = rw (stored s' h, of_bytes-to_bytes c typed)

    written : (s' : flash.State) × (write_config flash c e s ≡ go s')
    unfolding write_config
    written =
        let (e', p) = put_done (put (pos 0) (to_bytes c) e) refl in ((commit flash e' s).1, rw p)
      where
        put_done :
            (r : Flow Eeprom)
            → put (pos 0) (to_bytes c) e ≡ r
            → (e' : Eeprom) × (put (pos 0) (to_bytes c) e ≡ go e')
        put_done (go e') h = (e', h)
        put_done ignore_request h = absurd (put-ne_ignore (pos 0) (to_bytes c) e h)
        put_done endless h = absurd (put-ne_endless (pos 0) (to_bytes c) e h)
        put_done fault h =
            absurd (
              put-ne_fault (pos 0) (to_bytes c) e v.valid (omega (arith, length-to_bytes c typed))
                h)

    -- On a device whose EEPROM object has begun, is valid and is clean only if it is what the flash
    -- memory holds, a configuration whose members have their C types is written, and after a
    -- restart the device has it if its checksum is right, and the default configuration if it is
    -- not.
    pub boot-write_config :
        (s' : flash.State) × (write_config flash c e s ≡ go s')
        × (boot flash s'
            ≡ go (
              begin flash config_size s' eeprom_class,
              if c.checksum == calc_check_sum c then c else default_config,
            ))
    boot-write_config = let (s', w) = written in (s', w, boot_at s' w)

-- A device, whose EEPROM object is as in `IsRunning`, that gives up on its network, where the configuration it had was
-- right, writes it with the next checksum, and starts with the default configuration.
pub boot-force_default :
    (flash : Flash) (e : Eeprom) (s : flash.State) (c : RfuConfig)
    → IsRunning flash e s
    → IsConfig c
    → c.checksum ≡ calc_check_sum c
    → (s' : flash.State) × (write_config flash (force_default c) e s ≡ go s')
      × (boot flash s' ≡ go (begin flash config_size s' eeprom_class, default_config))
boot-force_default flash e s c v typed right =
    let (s', w, b) = boot-write_config flash e s (force_default c) v typed' in
    (s', w, b ∙ ap (λ t. go (begin flash config_size s' eeprom_class, t)) wrong)
  where
    typed' : IsConfig (force_default c)
    typed' = force_default-IsConfig c typed

    wrong :
        (if (force_default c).checksum == calc_check_sum (force_default c)
          then force_default c
          else default_config)
        ≡ default_config
    wrong = ground (arith, force_default_lem c, calc_check_sum-lt c, right)

-- What is loaded has its checksum right, if the configuration before has.
pub load_config_checks :
    (e : Eeprom) (c c' : RfuConfig)
    → c.checksum ≡ calc_check_sum c
    → load_config e c ≡ go c'
    → c'.checksum ≡ calc_check_sum c'
unfolding load_config
load_config_checks e c c' h l =
    let (bytes, _, k) = >>=-eq-go (get (pos 0) config_size (to_bytes default_config) e) _ l in
    elim (Bool-cases ((of_bytes bytes).checksum == calc_check_sum (of_bytes bytes))) [
      | inl y ↦
          subst (λ t. t.checksum ≡ calc_check_sum t) {x = of_bytes bytes} {y = c'} (cc (rw y at k))
            ((==_iff _ _).0 y)
      | inr n ↦ subst (λ t. t.checksum ≡ calc_check_sum t) {x = c} {y = c'} (cc (rw n at k)) h
    ]
