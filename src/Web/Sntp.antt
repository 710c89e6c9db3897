-- ===== src/Web/Sntp.antt =====
-- ProjectFiles/include/net.h: `sfn`, the handler of the SNTP connection. Times are milliseconds in a
-- `uint64_t`; `now` is what `mg_millis` returns.
use pico_rfu.Prelude.{
  ℕ, ◌+◌, ◌-◌, ◌%◌, ◌^◌, ◌<◌, ◌≡◌, refl, ap₂, ◌∙◌, List, [], ◌∷◌, Bool, true, false,
}
use pico_rfu.Prelude.{◌||◌, arith, ltb, if◌then◌else◌, Bool-cases, inl, inr}

-- The connection's own data, and the time of the boot, which is a variable of the file.
pub record Sntp : Type 0 where
  pub expiration_time : ℕ
  pub is_closing : Bool
  pub boot_timestamp : ℕ

pub data SntpEvent : Type 0 where
  opened : SntpEvent
  sntp_time : ℕ → SntpEvent
  poll : SntpEvent
  other : SntpEvent

unfoldable pub sfn : ℕ → SntpEvent → Sntp → Sntp
sfn now opened c = record c { expiration_time = (now + 3000) % 2 ^ 64 }
sfn now (sntp_time t) c = record {
  expiration_time = c.expiration_time;
  is_closing = true;
  boot_timestamp = (t + 2 ^ 64 - now) % 2 ^ 64;
}
sfn now poll c = if ltb c.expiration_time now then record c { is_closing = true } else c
sfn now other c = c

-- Polls at the times of a list.
abbrev pub polls : List ℕ → Sntp → Sntp
polls [] c = c
polls (t ∷ ts) c = polls ts (sfn t poll c)

abbrev pub any_later : ℕ → List ℕ → Bool
any_later t [] = false
any_later t (x ∷ xs) = ltb t x || any_later t xs

or_false : (b : Bool) → (b || false) ≡ b
or_false true = refl
or_false false = refl

poll_lem :
    (now : ℕ) (c : Sntp)
    → ((sfn now poll c).expiration_time ≡ c.expiration_time)
      × ((sfn now poll c).is_closing ≡ (ltb c.expiration_time now || c.is_closing))
      × ((sfn now poll c).boot_timestamp ≡ c.boot_timestamp)
unfolding sfn
poll_lem now c = elim (Bool-cases (ltb c.expiration_time now)) [
  | inl y ↦ rw y (refl, refl, refl)
  | inr n ↦ rw n (refl, refl, refl)
]

polls_lem :
    (ts : List ℕ) (c : Sntp)
    → ((polls ts c).is_closing ≡ (any_later c.expiration_time ts || c.is_closing))
      × ((polls ts c).boot_timestamp ≡ c.boot_timestamp)
polls_lem [] c = (refl, refl)
polls_lem (t ∷ ts) c =
    let (e, s, b) = poll_lem t c in
    let (s', b') = polls_lem ts (sfn t poll c) in (ground (arith, e, s, s'), b' ∙ b)

-- A connection that was opened and then polled, without an answer, is closing exactly if one of the
-- polls came more than 3 seconds after it was opened, and the time of the boot is as before.
pub sfn_times_out :
    (opened_at : ℕ) (ts : List ℕ) (c : Sntp)
    → opened_at + 3000 < 2 ^ 64
    → c.is_closing ≡ false
    → ((polls ts (sfn opened_at opened c)).is_closing ≡ any_later (opened_at + 3000) ts)
      × ((polls ts (sfn opened_at opened c)).boot_timestamp ≡ c.boot_timestamp)
unfolding sfn
sfn_times_out opened_at ts c h k =
    let (s, b) = polls_lem ts (sfn opened_at opened c) in
    (
      s
          ∙ ap₂ (λ t x. any_later t ts || x) {x = (opened_at + 3000) % 2 ^ 64}
              {y = opened_at + 3000} (omega arith) k
          ∙ or_false (any_later (opened_at + 3000) ts),
      b,
    )

-- After an answer `t` the connection is closing, and the time of the boot is such that the time
-- since then gives `t` at that moment and so many milliseconds more later on.
pub sfn_sets_time :
    (now t later : ℕ) (c : Sntp)
    → now < 2 ^ 64
    → t + later < 2 ^ 64
    → ((sfn now (sntp_time t) c).is_closing ≡ true)
      × (((sfn now (sntp_time t) c).boot_timestamp + (now + later)) % 2 ^ 64 ≡ t + later)
unfolding sfn
sfn_sets_time now t later c h k = (refl, omega arith)
