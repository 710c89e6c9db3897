-- ===== src/Dhcp/Options/Write.antt =====
-- What the `opt_write` functions write: an option's bytes, in place.
use pico_rfu.Prelude.{ℕ, ◌+◌, ◌%◌, ◌≤◌, ◌<◌, ◌≡◌, refl, ap, ap₂, sym, ◌∙◌, List, [], ◌∷◌, arith}
use pico_rfu.Prelude.{
  Flow, go, ◌>>=◌, write, write-in_range, splice, splice-splice, length-splice, length, take,
}
use pico_rfu.Prelude.{take-append, append-nil}
use pico_rfu.Dhcp.Options.{opt_write_n, opt_write_u8, opt_write_u32, u32_bytes}

-- A code, a length and a payload, written one behind the other.
write_option {ℓ} :
    {B : Type ℓ} (buf : List ℕ) (at code n : ℕ) (xs : List ℕ) (next : List ℕ → Flow B)
    → at + 2 + length xs ≤ length buf
    → (do
      m₁ ← write buf at (code ∷ [])
      m₂ ← write m₁ (at + 1) (n ∷ [])
      m₃ ← write m₂ (at + 2) xs
      next m₃)
      ≡ next (splice buf at (code ∷ n ∷ xs))
write_option buf at code n xs next h =
    rw
      (
        write-in_range buf at (code ∷ []) (omega arith),
        write-in_range (splice buf at (code ∷ [])) (at + 1) (n ∷ []) (omega (arith, size₁)),
        write-in_range (splice (splice buf at (code ∷ [])) (at + 1) (n ∷ [])) (at + 2) xs
            (omega (arith, size₁, size₂)),
      )
      (ap next joined)
  where
    size₁ : length (splice buf at (code ∷ [])) ≡ length buf
    size₁ = length-splice buf at (code ∷ []) (omega arith)

    size₂ : length (splice (splice buf at (code ∷ [])) (at + 1) (n ∷ [])) ≡ length buf
    size₂ =
        length-splice (splice buf at (code ∷ [])) (at + 1) (n ∷ []) (omega (arith, size₁)) ∙ size₁

    joined :
        splice (splice (splice buf at (code ∷ [])) (at + 1) (n ∷ [])) (at + 2) xs
        ≡ splice buf at (code ∷ n ∷ xs)
    joined =
        ap (λ b. splice b (at + 2) xs)
          (splice-splice buf at (code ∷ []) (n ∷ []) (at + 1) (omega arith) refl)
        ∙ splice-splice buf at (code ∷ n ∷ []) xs (at + 2) (omega arith) (omega arith)

pub opt_write_n_lem :
    (msg : List ℕ) (opt cmd n : ℕ) (bytes : List ℕ)
    → length bytes ≡ n
    → n < 256
    → opt + 2 + n ≤ length msg
    → opt_write_n msg opt cmd n bytes ≡ go (splice msg opt (cmd ∷ n ∷ bytes), opt + 2 + n)
unfolding opt_write_n
opt_write_n_lem msg opt cmd n bytes e h k =
    write_option msg opt cmd (n % 256) (take n bytes) (λ m. go (m, opt + 2 + n))
      (omega (arith, ap length whole))
    ∙ ap₂ (λ a b. go (splice msg opt (cmd ∷ a ∷ b), opt + 2 + n)) {x = n % 256} (omega arith) whole
  where
    whole : take n bytes ≡ bytes
    whole = ap (take n) (sym (append-nil bytes)) ∙ take-append bytes [] n (sym e)

pub opt_write_u8_lem :
    (msg : List ℕ) (opt cmd val : ℕ)
    → opt + 3 ≤ length msg
    → opt_write_u8 msg opt cmd val ≡ go (splice msg opt (cmd ∷ 1 ∷ val ∷ []), opt + 3)
unfolding opt_write_u8
opt_write_u8_lem msg opt cmd val h =
    write_option msg opt cmd 1 (val ∷ []) (λ m. go (m, opt + 3)) (omega arith)

pub opt_write_u32_lem :
    (msg : List ℕ) (opt cmd val : ℕ)
    → opt + 6 ≤ length msg
    → opt_write_u32 msg opt cmd val ≡ go (splice msg opt (cmd ∷ 4 ∷ u32_bytes val), opt + 6)
unfolding opt_write_u32
opt_write_u32_lem msg opt cmd val h =
    write_option msg opt cmd 4 (u32_bytes val) (λ m. go (m, opt + 6)) (omega arith)
