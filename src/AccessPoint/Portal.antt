-- ===== src/AccessPoint/Portal.antt =====
-- What a client gets from the access point: an address, and the device's own for every name.
use pico_rfu.Prelude.{
  ℕ, ◌+◌, ◌*◌, ◌≤◌, ◌<◌, ◌≡◌, refl, ap, ◌∙◌, List, ◌∷◌, ◌++◌, some, arith, go, length,
  length-append, length-drop,
}
use pico_rfu.Lwip.{Lwip, Lawful}
use pico_rfu.Lwip.Send.{datagram}
use pico_rfu.Dhcp.Socket.{process as dhcp_process, broadcast}
use pico_rfu.Dhcp.Socket.Start.{free_offers}
use pico_rfu.Dhcp.Socket.Packets.{process_sends}
use pico_rfu.Dns.Socket.{process as dns_process}
use pico_rfu.Dns.Socket.Packets.{query_sends}
use pico_rfu.Dhcp.Server.{
  Server as DhcpServer, msg_size, options, dhcp_min_size, dhcpdiscover, dhcpoffer,
}
use pico_rfu.Dns.Server.{answer as dns_answer, reply_header, answer_head, max_dns_msg_size}
use pico_rfu.Dhcp.Options.Find.{DhcpOption}
use pico_rfu.Dhcp.Server.Answer.{IsReply}
use pico_rfu.Dhcp.Server.Live.{IsRequest}
use pico_rfu.Dns.Question.{encode_name, IsName}
use pico_rfu.Dns.Answer.{header_of, answer_query}
use pico_rfu.AccessPoint.{gateway, mask}
use pico_rfu.AccessPoint.Started.{dhcp_on, dns_on}

-- The size of an offer of the access point.
length-offer :
    (bytes reply : List ℕ) → IsReply bytes gateway mask dhcpoffer 0 reply → length reply ≡ 274
length-offer bytes reply v = omega (arith, length-drop options reply, ap length v.tail)

abbrev pub reply_of : ℕ → ℕ → List ℕ → List (List ℕ) → List ℕ
reply_of a b kind labels =
    a ∷ b ∷ (reply_header ++ ((encode_name labels ++ kind) ++ (answer_head ++ gateway)))

module _ (lwip : Lwip) (laws : Lawful lwip) where
  open lwip use {Pcb, Pbuf, World, tot_len, pbuf_copy_partial, pbuf_alloc}
  open laws use {sent}

  -- The DHCP server of an access point that has started broadcasts, to the packet of a well-formed
  -- DHCPDISCOVER, where there is memory for the reply, exactly one datagram for port 68: an offer of
  -- the first address, with the device as router and name server.
  pub first_client_is_offered :
      (u : Pcb) (ticks : ℕ → ℕ) (stack : List ℕ) (os : List DhcpOption) (p q : Pbuf) (w w₁ : World)
      → length stack ≡ msg_size
      → dhcp_min_size ≤ tot_len p w
      → IsRequest (pbuf_copy_partial p msg_size w) dhcpdiscover os
      → pbuf_alloc 274 w ≡ (some q, w₁)
      → (d' : DhcpServer Pcb) × (w' : World) × (offer : List ℕ) × (dhcp_process lwip ticks stack p
            (dhcp_on u)
            w
          ≡ go (d', w'))
        × (sent w' ≡ datagram offer broadcast 68 ∷ sent w)
        × IsReply (pbuf_copy_partial p msg_size w) gateway mask dhcpoffer 0 offer
  first_client_is_offered u ticks stack os p q w w₁ h enough r memory =
      let (d', offer, answered, v) =
        free_offers (dhcp_on u) refl stack (pbuf_copy_partial p msg_size w) os ticks (tot_len p w)
          (record {
            stack_size = h;
            copied = laws.length-copy p msg_size w;
            ip_size = refl;
            nm_size = refl;
          })
          enough r in
      let size = length-offer (pbuf_copy_partial p msg_size w) offer v in
      let (w', run, out) =
        process_sends lwip laws ticks stack offer p q (dhcp_on u) d' w w₁ answered (omega arith)
          (ap (λ n. pbuf_alloc n w) size ∙ memory) in
      (d', w', offer, run, out, v)

  -- The name server of an access point that has started sends, to the packet of a standard query for
  -- a name of at most 255 bytes, where there is memory for the reply, exactly one datagram back: the
  -- question with the address of the device.
  pub query_gets_gateway :
      (u : Pcb) (old src_addr : List ℕ) (src_port : ℕ) (p q : Pbuf) (w w₁ : World)
      (a b hi lo c e : ℕ) (counts kind extra : List ℕ) (labels : List (List ℕ))
      → length old ≡ max_dns_msg_size
      → pbuf_copy_partial p max_dns_msg_size w
        ≡ header_of a b hi lo c e ++ (counts ++ (encode_name labels ++ (kind ++ extra)))
      → hi < 8
      → lo < 256
      → 1 ≤ c * 256 + e
      → length counts ≡ 6
      → length kind ≡ 4
      → IsName labels
      → length (encode_name labels) ≤ 255
      → pbuf_alloc (length (reply_of a b kind labels)) w ≡ (some q, w₁)
      → (w' : World) × (dns_process lwip old p (dns_on u) src_addr src_port w ≡ go w')
        × (sent w' ≡ datagram (reply_of a b kind labels) src_addr src_port ∷ sent w)
  query_gets_gateway u old src_addr src_port p q w w₁ a b hi lo c e counts kind extra labels h same
        hi_ok lo_ok some_question hc hk name short memory =
      query_sends lwip laws old (reply_of a b kind labels) p q (dns_on u) src_addr src_port w w₁
        (ap (λ bytes. dns_answer old bytes gateway) same
          ∙ answer_query old gateway a b hi lo c e counts kind extra labels
              (record {
                stack_size = h;
                copied = omega (arith, laws.length-copy p max_dns_msg_size w, ap length same);
                ip_size = refl;
              })
              hi_ok lo_ok some_question hc hk name short)
        (omega (
          arith,
          length-append (encode_name labels ++ kind) (answer_head ++ gateway),
          length-append (encode_name labels) kind,
        ))
        memory
