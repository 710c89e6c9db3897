-- ===== src/Dns/Socket.antt =====
-- ProjectFiles/dnsserver/dnsserver.c over lwIP: the socket functions, the whole of
-- `dns_server_process`, and the start and end of the server.
pub mod Packets
mod Tests
use pico_rfu.Prelude.{
  ℕ, zero, suc, List, [], ◌∷◌, Option, none, some, ℤ, pos, negsuc, Bool, true, false,
}
use pico_rfu.Prelude.{Flow, go, ignore_request, fault, endless}
use pico_rfu.Lwip.{Lwip, Callback, dns_server_process, err_ok, enomem}
use pico_rfu.Lwip.Send.{socket_sendto}
use pico_rfu.Dns.Server.{Server, answer, max_dns_msg_size}

abbrev pub port_dns_server : ℕ
port_dns_server = 53

abbrev pub any_address : List ℕ
any_address = 0 ∷ 0 ∷ 0 ∷ 0 ∷ []

abbrev pub is_ok : ℤ → Bool
is_ok (pos zero) = true
is_ok (pos (suc n)) = false
is_ok (negsuc n) = false

module _ (lwip : Lwip) where
  open lwip use {
    Pcb, Pbuf, World, udp_new, udp_recv, udp_remove, udp_bind, pbuf_free, pbuf_copy_partial,
  }

  -- `dns_socket_new_dgram`: what `*udp` is then, and whether it succeeds.
  unfoldable pub socket_new_dgram : World → Option Pcb × ℤ × World
  socket_new_dgram w =
      let (udp, w₁) = udp_new w in
      elim udp [
        | none ↦ (none, enomem, w₁)
        | some pcb ↦ (some pcb, err_ok, udp_recv pcb dns_server_process w₁)
      ]

  -- `dns_socket_free`: what `*udp` is then.
  unfoldable pub socket_free : Option Pcb → World → Option Pcb × World
  socket_free none w = (none, w)
  socket_free (some pcb) w = (none, udp_remove pcb w)

  -- `dns_socket_bind` to 0.0.0.0. `aborts` is whether `assert` is compiled in; if it is, a failure is
  -- the end of the program.
  unfoldable pub socket_bind : Bool → Option Pcb → ℕ → World → Option (ℤ × World)
  socket_bind aborts udp port w =
      let (err, w₁) = udp_bind udp (some any_address) port w in
      elim (is_ok err) [
        | true ↦ some (err, w₁)
        | false ↦ elim aborts [ true ↦ none | false ↦ some (err, w₁) ]
      ]

  -- The end of the handler: the reply is sent to the sender, if there is one, and the packet freed.
  unfoldable pub reply_and_free :
      Pbuf → Server Pcb → List ℕ → ℕ → World → Flow (List ℕ) → Flow World
  reply_and_free p d src_addr src_port w (go reply) =
      let (_, w₁) = socket_sendto lwip d.udp none reply src_addr src_port w in go (pbuf_free p w₁)
  reply_and_free p d src_addr src_port w ignore_request = go (pbuf_free p w)
  reply_and_free p d src_addr src_port w fault = fault
  reply_and_free p d src_addr src_port w endless = endless

  -- `dns_server_process`
  unfoldable pub process : List ℕ → Pbuf → Server Pcb → List ℕ → ℕ → World → Flow World
  unfolding reply_and_free
  process stack p d src_addr src_port w =
      reply_and_free p d src_addr src_port w
        (answer stack (pbuf_copy_partial p max_dns_msg_size w) d.ip)

  -- The rest of `dns_server_init`, once the socket is there.
  unfoldable pub bind_and_set :
      Bool → Pcb → List ℕ → Server Pcb → World → Option (Server Pcb × World)
  unfolding socket_bind
  bind_and_set aborts pcb ip d w = elim (socket_bind aborts (some pcb) port_dns_server w) [
    | none ↦ none
    | some (err, w₁) ↦ elim (is_ok err) [
      | true ↦ some (record { udp = some pcb; ip = ip }, w₁)
      | false ↦ some (record { udp = some pcb; ip = d.ip }, w₁)
    ]
  ]

  -- `dns_server_init`. The address is set last.
  unfoldable pub init : Bool → List ℕ → Server Pcb → World → Option (Server Pcb × World)
  unfolding socket_new_dgram bind_and_set
  init aborts ip d w =
      let (udp, _, w₁) = socket_new_dgram w in
      elim udp [
        | none ↦ some (record { udp = none; ip = d.ip }, w₁)
        | some pcb ↦ bind_and_set aborts pcb ip d w₁
      ]

  unfoldable pub deinit : Server Pcb → World → Server Pcb × World
  unfolding socket_free
  deinit d w = let (udp, w') = socket_free d.udp w in (record d { udp = udp }, w')
