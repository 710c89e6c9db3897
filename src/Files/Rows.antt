-- ===== src/Files/Rows.antt =====
-- Bytes written as numbers, the first byte highest.
use pico_rfu.Prelude.{ℕ, zero, suc, ◌/◌, ◌%◌, ◌^◌, List, [], ◌∷◌, ◌++◌}

-- The lowest `n` bytes of a number.
unfoldable pub bytes : ℕ → ℕ → List ℕ
bytes zero x = []
bytes (suc n) x = (x / 256 ^ n % 256) ∷ bytes n x

-- Rows of `n` bytes.
unfoldable pub of_rows : ℕ → List ℕ → List ℕ
unfolding bytes
of_rows n [] = []
of_rows n (r ∷ rs) = bytes n r ++ of_rows n rs
