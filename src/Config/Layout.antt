-- ===== src/Config/Layout.antt =====
-- The object in memory: what is written as bytes is read back.
use pico_rfu.Prelude.{ℕ, zero, suc, ◌+◌, ◌^◌, ◌<◌, ◌≡◌, refl, ap, sym, ◌∙◌, List, [], ◌∷◌, ◌++◌}
use pico_rfu.Prelude.{Bool, true, false, not, arith, length, length-append, take, drop, drop-append}
use pico_rfu.Prelude.{drop-drop, take-append, slice, get_or, ◌==◌}
use pico_rfu.Config.Store.{
  RfuConfig, force_default, to_bytes, of_bytes, size_bytes, read_size, bool_byte, config_size,
}

-- The C types of the members.
pub record IsConfig (c : RfuConfig) : Type 0 where
  pub hostname : length c.hostname ≡ 32
  pub ssid : length c.ssid ≡ 32
  pub password : length c.password ≡ 64
  pub web_password : length c.web_password ≡ 64
  pub hostname_len : c.hostname_len < 2 ^ 32
  pub ssid_len : c.ssid_len < 2 ^ 32
  pub password_len : c.password_len < 2 ^ 32
  pub web_password_len : c.web_password_len < 2 ^ 32

get_or-drop : (xs : List ℕ) (k i to d : ℕ) → to ≡ k + i → get_or xs to d ≡ get_or (drop k xs) i d
get_or-drop xs zero i to d e = ap (λ n. get_or xs n d) (omega arith)
get_or-drop [] (suc k) i to d e = refl
get_or-drop (x ∷ xs) (suc k) i zero d e = absurd (omega arith)
get_or-drop (x ∷ xs) (suc k) i (suc to) d e = get_or-drop xs k i to d (omega arith)

-- A member at offset `k`, and what lies behind it.
module _ (xs front back : List ℕ) (k n : ℕ) (here : drop k xs ≡ front ++ back)
    (size : length front ≡ n) where
  slice_here : slice xs k n ≡ front
  slice_here = ap (take n) here ∙ take-append front back n (sym size)

  behind : (to : ℕ) → to ≡ k + n → drop to xs ≡ back
  behind to e =
      ap (λ t. drop t xs) e
      ∙ sym (drop-drop xs n k)
      ∙ ap (drop n) here
      ∙ drop-append front back n (sym size)

read_size_here :
    (xs back : List ℕ) (k n : ℕ)
    → n < 2 ^ 32
    → drop k xs ≡ size_bytes n ++ back
    → read_size xs k ≡ n
read_size_here xs back k n h e = omega (
  arith,
  get_or-drop xs k 0 k 0 (omega arith) ∙ ap (λ t. get_or t 0 0) e,
  get_or-drop xs k 1 (k + 1) 0 (omega arith) ∙ ap (λ t. get_or t 1 0) e,
  get_or-drop xs k 2 (k + 2) 0 (omega arith) ∙ ap (λ t. get_or t 2 0) e,
  get_or-drop xs k 3 (k + 3) 0 (omega arith) ∙ ap (λ t. get_or t 3 0) e,
)

bool_back : (b : Bool) → not (bool_byte b == 0) ≡ b
bool_back true = refl
bool_back false = refl

-- An object whose members have their C types is the one that its bytes hold.
pub of_bytes-to_bytes : (c : RfuConfig) → IsConfig c → of_bytes (to_bytes c) ≡ c
unfolding of_bytes to_bytes
of_bytes-to_bytes c v = λ i. record {
  hostname = slice_here xs c.hostname r₁ 0 32 refl v.hostname i;
  hostname_len = read_size_here xs r₂ 32 c.hostname_len v.hostname_len b₁ i;
  ssid = slice_here xs c.ssid r₃ 36 32 b₂ v.ssid i;
  ssid_len = read_size_here xs r₄ 68 c.ssid_len v.ssid_len b₃ i;
  password = slice_here xs c.password r₅ 72 64 b₄ v.password i;
  password_len = read_size_here xs r₆ 136 c.password_len v.password_len b₅ i;
  web_password = slice_here xs c.web_password r₇ 140 64 b₆ v.web_password i;
  web_password_len = read_size_here xs r₈ 204 c.web_password_len v.web_password_len b₇ i;
  ap_mode = (ap (λ n. not (n == 0)) (last 0 208 refl) ∙ bool_back c.ap_mode) i;
  dmx_loop = (ap (λ n. not (n == 0)) (last 1 209 refl) ∙ bool_back c.dmx_loop) i;
  checksum = last 2 210 refl i;
  pad = last 3 211 refl i;
}
  where
    r₈ : List ℕ
    r₈ = bool_byte c.ap_mode ∷ bool_byte c.dmx_loop ∷ c.checksum ∷ c.pad ∷ []

    r₇ : List ℕ
    r₇ = size_bytes c.web_password_len ++ r₈

    r₆ : List ℕ
    r₆ = c.web_password ++ r₇

    r₅ : List ℕ
    r₅ = size_bytes c.password_len ++ r₆

    r₄ : List ℕ
    r₄ = c.password ++ r₅

    r₃ : List ℕ
    r₃ = size_bytes c.ssid_len ++ r₄

    r₂ : List ℕ
    r₂ = c.ssid ++ r₃

    r₁ : List ℕ
    r₁ = size_bytes c.hostname_len ++ r₂

    xs : List ℕ
    xs = to_bytes c

    b₁ : drop 32 xs ≡ r₁
    b₁ = behind xs c.hostname r₁ 0 32 refl v.hostname 32 refl

    b₂ : drop 36 xs ≡ r₂
    b₂ = behind xs (size_bytes c.hostname_len) r₂ 32 4 b₁ refl 36 refl

    b₃ : drop 68 xs ≡ r₃
    b₃ = behind xs c.ssid r₃ 36 32 b₂ v.ssid 68 refl

    b₄ : drop 72 xs ≡ r₄
    b₄ = behind xs (size_bytes c.ssid_len) r₄ 68 4 b₃ refl 72 refl

    b₅ : drop 136 xs ≡ r₅
    b₅ = behind xs c.password r₅ 72 64 b₄ v.password 136 refl

    b₆ : drop 140 xs ≡ r₆
    b₆ = behind xs (size_bytes c.password_len) r₆ 136 4 b₅ refl 140 refl

    b₇ : drop 204 xs ≡ r₇
    b₇ = behind xs c.web_password r₇ 140 64 b₆ v.web_password 204 refl

    b₈ : drop 208 xs ≡ r₈
    b₈ = behind xs (size_bytes c.web_password_len) r₈ 204 4 b₇ refl 208 refl

    last : (i to : ℕ) → to ≡ 208 + i → get_or xs to 0 ≡ get_or r₈ i 0
    last i to e = get_or-drop xs 208 i to 0 e ∙ ap (λ t. get_or t i 0) b₈

-- It has the size that the code takes.
pub length-to_bytes : (c : RfuConfig) → IsConfig c → length (to_bytes c) ≡ config_size
unfolding to_bytes
length-to_bytes c v = omega (arith, length-append {0}, v)

pub force_default-IsConfig : (c : RfuConfig) → IsConfig c → IsConfig (force_default c)
unfolding force_default
force_default-IsConfig c v = omega (arith, v)
