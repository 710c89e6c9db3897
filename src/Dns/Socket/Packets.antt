-- ===== src/Dns/Socket/Packets.antt =====
-- What a handled query leaves behind: the packets that are allocated, and the datagrams sent.
use pico_rfu.Prelude.{ℕ, ◌-◌, ◌≤◌, ◌≡◌, refl, ap, ◌∙◌, List, ◌∷◌, none, some}
use pico_rfu.Prelude.{Flow, go, ignore_request, fault, endless, length}
use pico_rfu.Lwip.{Lwip, Lawful}
use pico_rfu.Lwip.Send.{socket_sendto, datagram, live-socket_sendto, sent-socket_sendto}
use pico_rfu.Dns.Server.{Server, answer, max_dns_msg_size}
use pico_rfu.Dns.Answer.{answer-ne_fault, answer-ne_endless}
use pico_rfu.Dns.Reply.{Sized}
use pico_rfu.Dns.Socket.{reply_and_free, process}

module _ (lwip : Lwip) (laws : Lawful lwip) where
  open lwip use {World, Pcb, Pbuf, pbuf_alloc, pbuf_copy_partial, pbuf_free}
  open laws use {live, sent}

  -- However a query is handled, the handler comes to an end without touching memory outside its
  -- buffer, frees the query's packet and leaves no other allocated.
  pub process_returns :
      (stack : List ℕ) (p : Pbuf) (d : Server Pcb) (src_addr : List ℕ) (src_port : ℕ) (w : World)
      → length stack ≡ max_dns_msg_size
      → length d.ip ≡ 4
      → (w' : World) × (process lwip stack p d src_addr src_port w ≡ go w') × (live w' ≡ live w - 1)
  unfolding process reply_and_free
  process_returns stack p d src_addr src_port w h k =
      after (answer stack (pbuf_copy_partial p max_dns_msg_size w) d.ip)
        (answer-ne_fault stack (pbuf_copy_partial p max_dns_msg_size w) d.ip sized)
        (answer-ne_endless stack (pbuf_copy_partial p max_dns_msg_size w) d.ip sized)
    where
      sized : Sized stack (pbuf_copy_partial p max_dns_msg_size w) d.ip
      sized = record { stack_size = h; copied = laws.length-copy p max_dns_msg_size w; ip_size = k }

      after :
          (a : Flow (List ℕ))
          → (a ≡ fault → ⊥)
          → (a ≡ endless → ⊥)
          → (w' : World) × (reply_and_free lwip p d src_addr src_port w a ≡ go w')
            × (live w' ≡ live w - 1)
      after (go reply) ne ends = (
        pbuf_free p (socket_sendto lwip d.udp none reply src_addr src_port w).1,
        refl,
        laws.live-free p _
            ∙ ap (λ n. n - 1) (live-socket_sendto lwip laws d.udp none reply src_addr src_port w),
      )
      after ignore_request ne ends = (pbuf_free p w, refl, laws.live-free p w)
      after fault ne ends = absurd (ne refl)
      after endless ne ends = absurd (ends refl)

  -- If the handler's answer to the bytes of a packet is a reply that a datagram can hold, and there
  -- is memory for it, then the handler hands exactly this reply to lwIP, once, for the sender.
  pub query_sends :
      (stack reply : List ℕ) (p q : Pbuf) (d : Server Pcb) (src_addr : List ℕ) (src_port : ℕ)
      (w w₁ : World)
      → answer stack (pbuf_copy_partial p max_dns_msg_size w) d.ip ≡ go reply
      → length reply ≤ 0xffff
      → pbuf_alloc (length reply) w ≡ (some q, w₁)
      → (w' : World) × (process lwip stack p d src_addr src_port w ≡ go w')
        × (sent w' ≡ datagram reply src_addr src_port ∷ sent w)
  unfolding process reply_and_free
  query_sends stack reply p q d src_addr src_port w w₁ a h e = (
    pbuf_free p (socket_sendto lwip d.udp none reply src_addr src_port w).1,
    ap (reply_and_free lwip p d src_addr src_port w) a,
    laws.sent-free p _ ∙ sent-socket_sendto lwip laws d.udp none reply src_addr src_port w w₁ q h e,
  )
