-- ===== src/Dhcp/Server/Reply.antt =====
-- The options of a reply, and what a client that walks over them finds.
use pico_rfu.Prelude.{ℕ, ◌+◌, ◌≤◌, ◌≡◌, refl, ap, ap₂, sym, ◌∙◌, List, [], ◌∷◌}
use pico_rfu.Prelude.{◌++◌, arith, go, splice, splice-splice, length-splice, length, write}
use pico_rfu.Prelude.{write-in_range}
use pico_rfu.Dhcp.Options.{opt_write_n, opt_write_u32, u32_bytes, opt_msg_type, opt_end}
use pico_rfu.Dhcp.Options.{opt_server_id, opt_subnet_mask, opt_router, opt_dns, opt_ip_lease_time}
use pico_rfu.Dhcp.Options.Find.{DhcpOption, encode}
use pico_rfu.Dhcp.Options.Write.{opt_write_n_lem, opt_write_u8_lem, opt_write_u32_lem}
use pico_rfu.Dhcp.Lease.{default_lease_time_s}
use pico_rfu.Dhcp.Server.{Server, msg_size, options, write_options}

-- The options that RFC 2131 wants of an offer, with the server as router and name server.
abbrev pub reply_options : ℕ → List ℕ → List ℕ → List DhcpOption
reply_options code ip nm =
    (opt_msg_type, code ∷ [])
    ∷ (opt_server_id, ip)
    ∷ (opt_subnet_mask, nm)
    ∷ (opt_router, ip)
    ∷ (opt_dns, ip)
    ∷ (opt_ip_lease_time, u32_bytes default_lease_time_s)
    ∷ []

-- An address as it lies in memory.
abbrev pub quad : ℕ → ℕ → ℕ → ℕ → List ℕ
quad a b c e = a ∷ b ∷ c ∷ e ∷ []

pub quad-cases :
    (xs : List ℕ) → length xs ≡ 4 → (a : ℕ) × (b : ℕ) × (c : ℕ) × (e : ℕ) × (xs ≡ quad a b c e)
quad-cases [] h = absurd (omega arith)
quad-cases (a ∷ []) h = absurd (omega arith)
quad-cases (a ∷ b ∷ []) h = absurd (omega arith)
quad-cases (a ∷ b ∷ c ∷ []) h = absurd (omega arith)
quad-cases (a ∷ b ∷ c ∷ e ∷ []) h = (a, b, c, e, refl)
quad-cases (a ∷ b ∷ c ∷ e ∷ f ∷ xs) h = absurd (omega arith)

module _ (msg : List ℕ) (sized : length msg ≡ msg_size) where
  -- One more option behind those already written.
  write_next_n :
      (xs : List ℕ) (at to cmd a b c e : ℕ)
      → at ≡ options + length xs
      → at + 6 ≡ to
      → to ≤ msg_size
      → opt_write_n (splice msg options xs) at cmd 4 (quad a b c e)
        ≡ go (splice msg options (xs ++ (cmd ∷ 4 ∷ quad a b c e)), to)
  write_next_n xs at to cmd a b c e h f k =
      opt_write_n_lem (splice msg options xs) at cmd 4 (quad a b c e) refl (omega arith)
        (omega (arith, size))
      ∙ ap (λ m. go (m, at + 2 + 4)) (splice-splice msg options xs _ at (omega arith) h)
      ∙ ap (λ o. go (splice msg options (xs ++ (cmd ∷ 4 ∷ quad a b c e)), o)) {x = at + 2 + 4}
          (omega arith)
    where
      size : length (splice msg options xs) ≡ length msg
      size = length-splice msg options xs (omega arith)

  write_next_u32 :
      (xs : List ℕ) (at to cmd val : ℕ)
      → at ≡ options + length xs
      → at + 6 ≡ to
      → to ≤ msg_size
      → opt_write_u32 (splice msg options xs) at cmd val
        ≡ go (splice msg options (xs ++ (cmd ∷ 4 ∷ u32_bytes val)), to)
  write_next_u32 xs at to cmd val h f k =
      opt_write_u32_lem (splice msg options xs) at cmd val (omega (arith, size))
      ∙ ap (λ m. go (m, at + 6)) (splice-splice msg options xs _ at (omega arith) h)
      ∙ ap (λ o. go (splice msg options (xs ++ (cmd ∷ 4 ∷ u32_bytes val)), o)) f
    where
      size : length (splice msg options xs) ≡ length msg
      size = length-splice msg options xs (omega arith)

  write_next_byte :
      (xs : List ℕ) (at x : ℕ)
      → at ≡ options + length xs
      → at + 1 ≤ msg_size
      → write (splice msg options xs) at (x ∷ []) ≡ go (splice msg options (xs ++ (x ∷ [])))
  write_next_byte xs at x h k =
      write-in_range (splice msg options xs) at (x ∷ []) (omega (arith, size))
      ∙ ap go (splice-splice msg options xs _ at (omega arith) h)
    where
      size : length (splice msg options xs) ≡ length msg
      size = length-splice msg options xs (omega arith)

  module _ {Pcb : Type 0} (d : Server Pcb) where
    write_options_quads :
        (code a b c e p q r s : ℕ)
        → d.ip ≡ quad a b c e
        → d.nm ≡ quad p q r s
        → write_options code msg d
          ≡ go (
            splice msg options
                (encode (reply_options code (quad a b c e) (quad p q r s)) ++ (opt_end ∷ [])),
            options + 34,
          )
    unfolding write_options
    write_options_quads code a b c e p q r s hi hn = rw (
      hi,
      hn,
      opt_write_u8_lem msg options opt_msg_type code (omega arith),
      write_next_n head 243 249 opt_server_id a b c e refl refl (omega arith),
      write_next_n (head ++ sid) 249 255 opt_subnet_mask p q r s refl refl (omega arith),
      write_next_n (head ++ sid ++ mask) 255 261 opt_router a b c e refl refl (omega arith),
      write_next_n (head ++ sid ++ mask ++ gateway) 261 267 opt_dns a b c e refl refl (omega arith),
      write_next_u32 (head ++ sid ++ mask ++ gateway ++ dns) 267 273 opt_ip_lease_time
          default_lease_time_s refl refl (omega arith),
      write_next_byte
          (head
            ++ sid
            ++ mask
            ++ gateway
            ++ dns
            ++ (opt_ip_lease_time ∷ 4 ∷ u32_bytes default_lease_time_s))
          273 opt_end refl (omega arith),
    )
      where
        head : List ℕ
        head = opt_msg_type ∷ 1 ∷ code ∷ []

        sid : List ℕ
        sid = opt_server_id ∷ 4 ∷ quad a b c e

        mask : List ℕ
        mask = opt_subnet_mask ∷ 4 ∷ quad p q r s

        gateway : List ℕ
        gateway = opt_router ∷ 4 ∷ quad a b c e

        dns : List ℕ
        dns = opt_dns ∷ 4 ∷ quad a b c e

    -- The reply's options are written in place as RFC 2132 encodes them, the end mark behind them.
    pub write_options_lem :
        (code : ℕ)
        → length d.ip ≡ 4
        → length d.nm ≡ 4
        → write_options code msg d
          ≡ go (
            splice msg options (encode (reply_options code d.ip d.nm) ++ (opt_end ∷ [])),
            options + 34,
          )
    write_options_lem code hi hn =
        let (a, b, c, e, ip) = quad-cases d.ip hi in
        let (p, q, r, s, nm) = quad-cases d.nm hn in
        write_options_quads code a b c e p q r s ip nm
        ∙ ap₂
            (λ x y. go (
              splice msg options (encode (reply_options code x y) ++ (opt_end ∷ [])),
              options + 34,
            ))
            (sym ip) (sym nm)
