-- ===== src/Dhcp/Socket/Packets.antt =====
-- What a handled packet leaves behind: the packets that are allocated, and the datagrams sent.
use pico_rfu.Prelude.{ℕ, ◌-◌, ◌≤◌, ◌≡◌, ap, sym, ◌∙◌, List, ◌∷◌, some}
use pico_rfu.Prelude.{Flow, go, ignore_request, fault, endless, length}
use pico_rfu.Lwip.{Lwip, Lawful}
use pico_rfu.Dhcp.Server.{Server, answer, msg_size}
use pico_rfu.Lwip.Send.{socket_sendto, datagram, live-socket_sendto, sent-socket_sendto}
use pico_rfu.Dhcp.Socket.{reply_and_free, process, broadcast, port_dhcp_client}

module _ (lwip : Lwip) (laws : Lawful lwip) where
  open lwip use {
    World, Pcb, Pbuf, Netif, pbuf_alloc, tot_len, pbuf_copy_partial, pbuf_free, fill_payload,
  }
  open laws use {live, sent}

  -- However a packet is handled, with or without a reply, sent or not for want of memory, the
  -- handler frees that packet and leaves no other allocated.
  pub process_frees :
      (ticks : ℕ → ℕ) (stack : List ℕ) (p : Pbuf) (d d' : Server Pcb) (w w' : World)
      → process lwip ticks stack p d w ≡ go (d', w')
      → live w' ≡ live w - 1
  unfolding process reply_and_free
  process_frees ticks stack p d d' w w' h =
      after (answer ticks stack (tot_len p w) (pbuf_copy_partial p msg_size w) d) h
    where
      after :
          (a : Flow (Server Pcb × List ℕ))
          → reply_and_free lwip p d w a ≡ go (d', w')
          → live w' ≡ live w - 1
      after (go (d₁, reply)) e =
          let w₁ =
            (socket_sendto lwip d₁.udp (lwip.ip_current_input_netif w) reply broadcast
              port_dhcp_client w).1 in
          let same : pbuf_free p w₁ ≡ w' = cc e in
          ap live (sym same)
          ∙ laws.live-free p w₁
          ∙ ap (λ n. n - 1)
              (live-socket_sendto lwip laws d₁.udp (lwip.ip_current_input_netif w) reply broadcast
                port_dhcp_client w)
      after ignore_request e =
          let same : pbuf_free p w ≡ w' = cc e in ap live (sym same) ∙ laws.live-free p w
      after fault e = absurd (cc)
      after endless e = absurd (cc)

  -- If the handler's answer to the bytes of a packet is a reply that a datagram can hold, and there
  -- is memory for it, then the handler hands exactly this reply to lwIP, once, to be broadcast to
  -- the clients' port, and leaves the server as the answer does.
  pub process_sends :
      (ticks : ℕ → ℕ) (stack reply : List ℕ) (p q : Pbuf) (d d' : Server Pcb) (w w₁ : World)
      → answer ticks stack (tot_len p w) (pbuf_copy_partial p msg_size w) d ≡ go (d', reply)
      → length reply ≤ 0xffff
      → pbuf_alloc (length reply) w ≡ (some q, w₁)
      → (w' : World) × (process lwip ticks stack p d w ≡ go (d', w'))
        × (sent w' ≡ datagram reply broadcast port_dhcp_client ∷ sent w)
  unfolding process reply_and_free
  process_sends ticks stack reply p q d d' w w₁ a h e = (
    pbuf_free p
        (socket_sendto lwip d'.udp (lwip.ip_current_input_netif w) reply broadcast port_dhcp_client
          w).1,
    ap (reply_and_free lwip p d w) a,
    laws.sent-free p _
        ∙ sent-socket_sendto lwip laws d'.udp (lwip.ip_current_input_netif w) reply broadcast
            port_dhcp_client w w₁ q h e,
  )

  -- A packet that the handler ignores sends nothing, and leaves the server as it was.
  pub process_ignores :
      (ticks : ℕ → ℕ) (stack : List ℕ) (p : Pbuf) (d : Server Pcb) (w : World)
      → answer ticks stack (tot_len p w) (pbuf_copy_partial p msg_size w) d ≡ ignore_request
      → (w' : World) × (process lwip ticks stack p d w ≡ go (d, w')) × (sent w' ≡ sent w)
  unfolding process reply_and_free
  process_ignores ticks stack p d w a =
      (pbuf_free p w, ap (reply_and_free lwip p d w) a, laws.sent-free p w)
