-- ===== src/Dhcp/Server/Message.antt =====
-- The message that `dhcp_server_process` has in its local variable once the packet is copied.
use pico_rfu.Prelude.{ℕ, ◌+◌, ◌≤◌, ◌<◌, ◌≡◌, ◌⊎◌, inl, inr, ◌∙◌}
use pico_rfu.Prelude.{List, [], ◌∷◌, ◌++◌, arith, go}
use pico_rfu.Prelude.{length, length-append, length-drop, drop, get_elem?}
use pico_rfu.Prelude.{slice, slice_cong, splice, length-splice}
use pico_rfu.Prelude.{get_elem?-append_left, get_elem?-splice_after, get_elem?-splice_before}
use pico_rfu.Prelude.{write-in_range, drop-splice_after, drop-append_le}
use pico_rfu.Dhcp.Server.{Server, receive, msg_size, yiaddr, chaddr}
use pico_rfu.Dhcp.Server.{options, dhcp_min_size, dhcpoffer}
use pico_rfu.Dhcp.Lease.{mac_len}

-- The C types: what the stack holds has the size of the message, of which at most as many bytes
-- are copied, and an address has four bytes.
pub record Sized {Pcb : Type 0} (stack bytes : List ℕ) (d : Server Pcb) : Type 0 where
  pub stack_size : length stack ≡ msg_size
  pub copied : length bytes ≤ msg_size
  pub ip_size : length d.ip ≡ 4
  pub nm_size : length d.nm ≡ 4

-- The message in the local variable, and the copied packet in it.
abbrev pub received : List ℕ → List ℕ → List ℕ → List ℕ
received stack bytes ip =
    splice (splice (bytes ++ drop (length bytes) stack) 0 (dhcpoffer ∷ [])) yiaddr ip

module _ {Pcb : Type 0} (stack bytes : List ℕ) (d : Server Pcb) (sized : Sized stack bytes d) where
  pub base_size : length (bytes ++ drop (length bytes) stack) ≡ msg_size
  base_size = omega (
    arith,
    sized,
    length-append bytes (drop (length bytes) stack),
    length-drop (length bytes) stack,
  )

  pub with_op_size :
      length (splice (bytes ++ drop (length bytes) stack) 0 (dhcpoffer ∷ [])) ≡ msg_size
  with_op_size =
      length-splice (bytes ++ drop (length bytes) stack) 0 (dhcpoffer ∷ [])
        (omega (arith, base_size))
      ∙ base_size

  pub received_size : length (received stack bytes d.ip) ≡ msg_size
  received_size =
      length-splice (splice (bytes ++ drop (length bytes) stack) 0 (dhcpoffer ∷ [])) yiaddr d.ip
        (omega (arith, with_op_size, sized))
      ∙ with_op_size

  pub receive_lem :
      (msg : List ℕ)
      → receive stack bytes d ≡ go msg
      → (dhcp_min_size ≤ length bytes) × (msg ≡ received stack bytes d.ip)
  unfolding receive
  receive_lem msg h = ground (
    arith,
    write-in_range (bytes ++ drop (length bytes) stack) 0 (dhcpoffer ∷ []),
    write-in_range (splice (bytes ++ drop (length bytes) stack) 0 (dhcpoffer ∷ [])) yiaddr d.ip,
    base_size,
    with_op_size,
    sized.ip_size,
  )

  -- The handler leaves the request's bytes alone but for the opcode and the address.
  pub get_elem?-received :
      (i : ℕ)
      → dhcp_min_size ≤ length bytes
      → 0 < i
      → i < options
      → (i < yiaddr) ⊎ (yiaddr + 4 ≤ i)
      → get_elem? (received stack bytes d.ip) i ≡ get_elem? bytes i
  get_elem?-received i h pos lt (inl before) =
      get_elem?-splice_before _ yiaddr i d.ip (omega (arith, with_op_size)) before
      ∙ get_elem?-splice_after (bytes ++ drop (length bytes) stack) 0 i _ (omega (arith, base_size))
          (omega arith)
      ∙ get_elem?-append_left bytes _ i (omega arith)
  get_elem?-received i h pos lt (inr after) =
      get_elem?-splice_after _ yiaddr i d.ip (omega (arith, with_op_size, sized))
        (omega (arith, sized))
      ∙ get_elem?-splice_after (bytes ++ drop (length bytes) stack) 0 i _ (omega (arith, base_size))
          (omega arith)
      ∙ get_elem?-append_left bytes _ i (omega arith)

  pub same_client :
      dhcp_min_size ≤ length bytes
      → slice (received stack bytes d.ip) chaddr mac_len ≡ slice bytes chaddr mac_len
  same_client long =
      slice_cong (received stack bytes d.ip) bytes chaddr chaddr mac_len (λ i p.
        get_elem?-received (chaddr + i) long (omega arith) (omega arith) (inr (omega arith)))

  -- The options as they came, and behind them what the stack held.
  pub drop-received :
      dhcp_min_size ≤ length bytes
      → drop options (received stack bytes d.ip) ≡ drop options bytes ++ drop (length bytes) stack
  drop-received long =
      drop-splice_after _ yiaddr options d.ip (omega (arith, with_op_size, sized))
        (omega (arith, sized))
      ∙ drop-splice_after (bytes ++ drop (length bytes) stack) 0 options _
          (omega (arith, base_size)) (omega arith)
      ∙ drop-append_le bytes (drop (length bytes) stack) options (omega arith)

  pub receive-eq-received :
      dhcp_min_size ≤ length bytes → receive stack bytes d ≡ go (received stack bytes d.ip)
  unfolding receive
  receive-eq-received long = ground (
    arith,
    write-in_range (bytes ++ drop (length bytes) stack) 0 (dhcpoffer ∷ []),
    write-in_range (splice (bytes ++ drop (length bytes) stack) 0 (dhcpoffer ∷ [])) yiaddr d.ip,
    base_size,
    with_op_size,
    sized.ip_size,
  )
