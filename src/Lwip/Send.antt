-- ===== src/Lwip/Send.antt =====
-- `dhcp_socket_sendto` of ProjectFiles/dhcpserver/dhcpserver.c; `dns_socket_sendto` of
-- ProjectFiles/dnsserver/dnsserver.c does the same without an interface.
use pico_rfu.Prelude.{ℕ, zero, ◌≤◌, ◌≡◌, refl, ap, ap₂, sym, ◌∙◌, List, [], ◌∷◌, Option, none, some}
use pico_rfu.Prelude.{arith, length, take, ltb, if◌then◌else◌, ℤ, pos, take-append, append-nil}
use pico_rfu.Lwip.{Lwip, Lawful, Datagram, enomem}

-- `err != ERR_OK ? err : len`
abbrev pub result_of : ℤ → ℕ → ℤ
result_of (pos zero) len = pos len
result_of err len = err

abbrev pub datagram : List ℕ → List ℕ → ℕ → Datagram
datagram bytes dest port = record { bytes = bytes; dest = dest; port = port }

module _ (lwip : Lwip) where
  open lwip use {
    Pcb, Pbuf, Netif, World, udp_sendto, udp_sendto_if, pbuf_alloc, pbuf_free, fill_payload,
  }

  -- The call of lwIP that sends, by the interface if there is one.
  abbrev pub send : Option Pcb → Option Netif → Pbuf → List ℕ → ℕ → World → ℤ × World
  send udp none p dest port w = udp_sendto udp p dest port w
  send udp (some nif) p dest port w = udp_sendto_if udp p dest port nif w

  -- The rest of `dhcp_socket_sendto`, once a packet was asked for.
  unfoldable pub send_filled :
      Option Pcb → Option Netif → List ℕ → List ℕ → ℕ → Option Pbuf × World → ℤ × World
  send_filled udp nif bytes dest port (none, w) = (enomem, w)
  send_filled udp nif bytes dest port (some p, w) =
      let (err, w') = send udp nif p dest port (fill_payload p bytes w) in
      (result_of err (length bytes), pbuf_free p w')

  -- `dhcp_socket_sendto` of the bytes `buf`.
  unfoldable pub socket_sendto : Option Pcb → Option Netif → List ℕ → List ℕ → ℕ → World → ℤ × World
  unfolding send_filled
  socket_sendto udp nif buf dest port w =
      let bytes = take (if ltb 0xffff (length buf) then 0xffff else length buf) buf in
      send_filled udp nif bytes dest port (pbuf_alloc (length bytes) w)

module _ (lwip : Lwip) (laws : Lawful lwip) where
  open lwip use {World, Pcb, Pbuf, Netif, pbuf_alloc, fill_payload}
  open laws use {live, sent}

  live-send :
      (udp : Option Pcb) (nif : Option Netif) (p : Pbuf) (dest : List ℕ) (port : ℕ) (w : World)
      → live (send lwip udp nif p dest port w).1 ≡ live w
  live-send udp none p dest port w = laws.live-sendto udp p dest port w
  live-send udp (some nif) p dest port w = laws.live-sendto_if udp p dest port nif w

  sent-send :
      (udp : Option Pcb) (nif : Option Netif) (p : Pbuf) (dest : List ℕ) (port : ℕ) (w : World)
      → sent (send lwip udp nif p dest port w).1 ≡ datagram (laws.payload p w) dest port ∷ sent w
  sent-send udp none p dest port w = laws.sent-sendto udp p dest port w
  sent-send udp (some nif) p dest port w = laws.sent-sendto_if udp p dest port nif w

  live-send_filled :
      (udp : Option Pcb) (nif : Option Netif) (bytes dest : List ℕ) (port : ℕ) (w : World)
      (o : Option Pbuf) (w' : World)
      → pbuf_alloc (length bytes) w ≡ (o, w')
      → live (send_filled lwip udp nif bytes dest port (o, w')).1 ≡ live w
  unfolding send_filled
  live-send_filled udp nif bytes dest port w none w' e = laws.live-no_alloc (length bytes) w w' e
  live-send_filled udp nif bytes dest port w (some p) w' e = omega (
    arith,
    laws.live-free p (send lwip udp nif p dest port (fill_payload p bytes w')).1,
    live-send udp nif p dest port (fill_payload p bytes w'),
    laws.live-fill p bytes w',
    laws.live-alloc (length bytes) w w' p e,
  )

  -- A call that sends leaves as many packets allocated as before.
  pub live-socket_sendto :
      (udp : Option Pcb) (nif : Option Netif) (buf dest : List ℕ) (port : ℕ) (w : World)
      → live (socket_sendto lwip udp nif buf dest port w).1 ≡ live w
  unfolding socket_sendto
  live-socket_sendto udp nif buf dest port w =
      live-send_filled udp nif (take (if ltb 0xffff (length buf) then 0xffff else length buf) buf)
        dest port w _ _ refl

  take_all : (xs : List ℕ) → take (length xs) xs ≡ xs
  take_all xs = ap (take (length xs)) (sym (append-nil xs)) ∙ take-append xs [] (length xs) refl

  sent-send_filled :
      (udp : Option Pcb) (nif : Option Netif) (bytes dest : List ℕ) (port : ℕ) (w w' : World)
      (q : Pbuf)
      → pbuf_alloc (length bytes) w ≡ (some q, w')
      → sent (send_filled lwip udp nif bytes dest port (some q, w')).1
        ≡ datagram bytes dest port ∷ sent w
  unfolding send_filled
  sent-send_filled udp nif bytes dest port w w' q e =
      laws.sent-free q (send lwip udp nif q dest port (fill_payload q bytes w')).1
      ∙ sent-send udp nif q dest port (fill_payload q bytes w')
      ∙ ap₂ (λ b s. datagram b dest port ∷ s) (laws.payload-fill bytes w w' q e)
          (laws.sent-fill q bytes w'
            ∙ ap (λ r. sent r.1) (sym e)
            ∙ laws.sent-alloc (length bytes) w)

  pub sent-socket_sendto :
      (udp : Option Pcb) (nif : Option Netif) (buf dest : List ℕ) (port : ℕ) (w w' : World)
      (q : Pbuf)
      → length buf ≤ 0xffff
      → pbuf_alloc (length buf) w ≡ (some q, w')
      → sent (socket_sendto lwip udp nif buf dest port w).1 ≡ datagram buf dest port ∷ sent w
  unfolding socket_sendto
  sent-socket_sendto udp nif buf dest port w w' q h e =
      ap (λ b. sent (send_filled lwip udp nif b dest port (pbuf_alloc (length b) w)).1) whole
      ∙ ap (λ o. sent (send_filled lwip udp nif buf dest port o).1) e
      ∙ sent-send_filled udp nif buf dest port w w' q e
    where
      whole : take (if ltb 0xffff (length buf) then 0xffff else length buf) buf ≡ buf
      whole = ap (λ n. take n buf) {y = length buf} (ground arith) ∙ take_all buf
