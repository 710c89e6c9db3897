-- ===== src/Dhcp/Socket.antt =====
-- ProjectFiles/dhcpserver/dhcpserver.c over lwIP: the socket functions, the whole of
-- `dhcp_server_process`, and the start and end of the server.
pub mod Packets
pub mod Start
pub mod Tests
use pico_rfu.Prelude.{
  ℕ, zero, List, [], ◌∷◌, Option, none, some, ℤ, pos, Bool, Flow, go, ignore_request, fault,
  endless,
}
use pico_rfu.Prelude.{length, take, replicate, min, ltb, if◌then◌else◌}
use pico_rfu.Lwip.{Lwip, Callback, dhcp_server_process, err_ok, enomem}
use pico_rfu.Lwip.Send.{socket_sendto}
use pico_rfu.Dhcp.Lease.{Lease, max_ip, no_mac}
use pico_rfu.Dhcp.Server.{Server, answer, msg_size}

abbrev pub port_dhcp_server : ℕ
port_dhcp_server = 67

abbrev pub port_dhcp_client : ℕ
port_dhcp_client = 68

-- 0xffffffff
abbrev pub broadcast : List ℕ
broadcast = 255 ∷ 255 ∷ 255 ∷ 255 ∷ []

-- `memset(d->lease, 0, sizeof(d->lease))`
abbrev pub no_leases : List Lease
no_leases = replicate max_ip (record { mac = no_mac; expiry = 0 })

module _ (lwip : Lwip) where
  open lwip use {
    World, Pcb, Pbuf, Netif, udp_new, udp_recv, udp_remove, udp_bind, udp_sendto, udp_sendto_if,
    ip_current_input_netif, pbuf_alloc, pbuf_free, tot_len, pbuf_copy_partial, fill_payload,
  }

  -- `dhcp_socket_new_dgram`: what `*udp` is then, and whether it succeeds.
  unfoldable pub socket_new_dgram : World → Option Pcb × ℤ × World
  socket_new_dgram w =
      let (udp, w₁) = udp_new w in
      elim udp [
        | none ↦ (none, enomem, w₁)
        | some pcb ↦ (some pcb, err_ok, udp_recv pcb dhcp_server_process w₁)
      ]

  -- `dhcp_socket_free`: what `*udp` is then.
  unfoldable pub socket_free : Option Pcb → World → Option Pcb × World
  socket_free none w = (none, w)
  socket_free (some pcb) w = (none, udp_remove pcb w)

  unfoldable pub socket_bind : Option Pcb → ℕ → World → ℤ × World
  socket_bind udp port w = udp_bind udp none port w

  -- The end of the handler: the reply is sent, if there is one, and the packet freed.
  unfoldable pub reply_and_free :
      Pbuf → Server Pcb → World → Flow (Server Pcb × List ℕ) → Flow (Server Pcb × World)
  unfolding socket_sendto
  reply_and_free p d w (go (d', reply)) =
      let (_, w₁) =
        socket_sendto lwip d'.udp (ip_current_input_netif w) reply broadcast port_dhcp_client w in
      go (d', pbuf_free p w₁)
  reply_and_free p d w ignore_request = go (d, pbuf_free p w)
  reply_and_free p d w fault = fault
  reply_and_free p d w endless = endless

  -- `dhcp_server_process`
  unfoldable pub process : (ℕ → ℕ) → List ℕ → Pbuf → Server Pcb → World → Flow (Server Pcb × World)
  unfolding reply_and_free
  process ticks stack p d w =
      reply_and_free p d w (answer ticks stack (tot_len p w) (pbuf_copy_partial p msg_size w) d)

  -- `dhcp_server_init`. A socket that cannot be bound is kept.
  unfoldable pub init : List ℕ → List ℕ → World → Server Pcb × World
  unfolding socket_new_dgram socket_bind
  init ip nm w =
      let (udp, _, w₁) = socket_new_dgram w in
      let d : Server Pcb = record { ip = ip; nm = nm; lease = no_leases; udp = udp } in
      elim udp [ none ↦ (d, w₁) | some pcb ↦ (d, (socket_bind (some pcb) port_dhcp_server w₁).1) ]

  unfoldable pub deinit : Server Pcb → World → Server Pcb × World
  unfolding socket_free
  deinit d w = let (udp, w') = socket_free d.udp w in (record d { udp = udp }, w')
