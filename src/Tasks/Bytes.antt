-- ===== src/Tasks/Bytes.antt =====
-- A round of `unsafeWriteBuffer`: what it changes, and when it goes on.
use pico_rfu.Prelude.{ℕ, ◌≡◌, List, [], ◌∷◌, go, >>=-eq-go, read, write}
use pico_rfu.Tasks.{Shared, write_byte}

-- Only the device's contents change.
pub write_byte_lem :
    (from : List ℕ) (i : ℕ) (s s' : Shared)
    → write_byte from i s ≡ go s'
    → (b : ℕ) × (xs : List ℕ) × (read from i ≡ go b)
      × (write s.dmx.dmx_data i (b ∷ []) ≡ go xs)
      × (record s { dmx = record s.dmx { dmx_data = xs } } ≡ s')
unfolding write_byte
write_byte_lem from i s s' h =
    let (b, r, h₁) = >>=-eq-go (read from i) _ h in
    let (xs, w, h₂) = >>=-eq-go (write s.dmx.dmx_data i (b ∷ [])) _ h₁ in (b, xs, r, w, cc h₂)
