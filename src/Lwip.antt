-- ===== src/Lwip.antt =====
-- The functions of lwIP that the two servers of ProjectFiles call, as an interface: `World` is the
-- state of the stack. The laws say of them what lwIP documents.
pub mod Send
pub mod Tests
use pico_rfu.Prelude.{
  ℕ, ◌+◌, ◌-◌, ◌≤◌, ◌≡◌, ◌≢◌, List, [], ◌∷◌, length, Option, none, some, ℤ, pos, negsuc,
}

-- The handlers that are registered.
pub data Callback : Type 0 where
  dhcp_server_process : Callback
  dns_server_process : Callback

-- A datagram as it is handed over: its bytes, the address as four bytes, and the port.
pub record Datagram : Type 0 where
  pub bytes : List ℕ
  pub dest : List ℕ
  pub port : ℕ

-- `err_t`: ERR_OK is 0.
abbrev pub err_ok : ℤ
err_ok = pos 0

-- `-ENOMEM`
abbrev pub enomem : ℤ
enomem = negsuc 11

pub record Lwip : Type 1 where
  pub World : Type 0
  pub Pcb : Type 0
  pub Pbuf : Type 0
  pub Netif : Type 0
  pub udp_new : World → Option Pcb × World
  pub udp_recv : Pcb → Callback → World → World
  pub udp_remove : Pcb → World → World
  -- The address is none for IP_ANY_TYPE.
  pub udp_bind : Option Pcb → Option (List ℕ) → ℕ → World → ℤ × World
  pub udp_sendto : Option Pcb → Pbuf → List ℕ → ℕ → World → ℤ × World
  pub udp_sendto_if : Option Pcb → Pbuf → List ℕ → ℕ → Netif → World → ℤ × World
  pub ip_current_input_netif : World → Option Netif
  pub pbuf_alloc : ℕ → World → Option Pbuf × World
  pub pbuf_free : Pbuf → World → World
  pub tot_len : Pbuf → World → ℕ
  -- At most so many bytes of a packet.
  pub pbuf_copy_partial : Pbuf → ℕ → World → List ℕ
  -- `memcpy(p->payload, xs, length xs)`
  pub fill_payload : Pbuf → List ℕ → World → World

-- What the servers rely on: how many packets are allocated, and what was handed to lwIP to be sent,
-- the last first.
pub record Lawful (lwip : Lwip) : Type 0 where
  pub live : lwip.World → ℕ
  pub sent : lwip.World → List Datagram
  pub payload : lwip.Pbuf → lwip.World → List ℕ
  pub length-copy :
      (p : lwip.Pbuf) (n : ℕ) (w : lwip.World) → length (lwip.pbuf_copy_partial p n w) ≤ n
  pub live-alloc :
      (n : ℕ) (w w' : lwip.World) (p : lwip.Pbuf)
      → lwip.pbuf_alloc n w ≡ (some p, w')
      → live w' ≡ live w + 1
  pub live-no_alloc :
      (n : ℕ) (w w' : lwip.World) → lwip.pbuf_alloc n w ≡ (none, w') → live w' ≡ live w
  pub live-free : (p : lwip.Pbuf) (w : lwip.World) → live (lwip.pbuf_free p w) ≡ live w - 1
  pub live-fill :
      (p : lwip.Pbuf) (xs : List ℕ) (w : lwip.World) → live (lwip.fill_payload p xs w) ≡ live w
  pub live-sendto :
      (u : Option lwip.Pcb) (p : lwip.Pbuf) (dest : List ℕ) (port : ℕ) (w : lwip.World)
      → live (lwip.udp_sendto u p dest port w).1 ≡ live w
  pub live-sendto_if :
      (u : Option lwip.Pcb) (p : lwip.Pbuf) (dest : List ℕ) (port : ℕ) (nif : lwip.Netif)
      (w : lwip.World)
      → live (lwip.udp_sendto_if u p dest port nif w).1 ≡ live w
  pub sent-alloc : (n : ℕ) (w : lwip.World) → sent (lwip.pbuf_alloc n w).1 ≡ sent w
  pub sent-free : (p : lwip.Pbuf) (w : lwip.World) → sent (lwip.pbuf_free p w) ≡ sent w
  pub sent-fill :
      (p : lwip.Pbuf) (xs : List ℕ) (w : lwip.World) → sent (lwip.fill_payload p xs w) ≡ sent w
  pub sent-sendto :
      (u : Option lwip.Pcb) (p : lwip.Pbuf) (dest : List ℕ) (port : ℕ) (w : lwip.World)
      → sent (lwip.udp_sendto u p dest port w).1
        ≡ record { bytes = payload p w; dest = dest; port = port } ∷ sent w
  pub sent-sendto_if :
      (u : Option lwip.Pcb) (p : lwip.Pbuf) (dest : List ℕ) (port : ℕ) (nif : lwip.Netif)
      (w : lwip.World)
      → sent (lwip.udp_sendto_if u p dest port nif w).1
        ≡ record { bytes = payload p w; dest = dest; port = port } ∷ sent w
  -- A packet that is as long as the bytes holds them.
  pub payload-fill :
      (xs : List ℕ) (w w' : lwip.World) (p : lwip.Pbuf)
      → lwip.pbuf_alloc (length xs) w ≡ (some p, w')
      → payload p (lwip.fill_payload p xs w') ≡ xs

-- Which handler is called for a datagram that comes in on a control block, and to which port the
-- block is bound.
pub record Registers (lwip : Lwip) : Type 0 where
  pub callback : lwip.Pcb → lwip.World → Option Callback
  pub port : lwip.Pcb → lwip.World → Option ℕ
  pub callback-recv :
      (u : lwip.Pcb) (c : Callback) (w : lwip.World) → callback u (lwip.udp_recv u c w) ≡ some c
  pub callback-recv_other :
      (u v : lwip.Pcb) (c : Callback) (w : lwip.World)
      → v ≢ u
      → callback v (lwip.udp_recv u c w) ≡ callback v w
  pub callback-bind :
      (u v : lwip.Pcb) (a : Option (List ℕ)) (n : ℕ) (w : lwip.World)
      → callback v (lwip.udp_bind (some u) a n w).1 ≡ callback v w
  pub callback-new :
      (u v : lwip.Pcb) (w w' : lwip.World)
      → lwip.udp_new w ≡ (some u, w')
      → v ≢ u
      → callback v w' ≡ callback v w
  pub port-recv :
      (u v : lwip.Pcb) (c : Callback) (w : lwip.World) → port v (lwip.udp_recv u c w) ≡ port v w
  pub port-bind :
      (u : lwip.Pcb) (a : Option (List ℕ)) (n : ℕ) (w w' : lwip.World)
      → lwip.udp_bind (some u) a n w ≡ (err_ok, w')
      → port u w' ≡ some n
  pub port-bind_other :
      (u v : lwip.Pcb) (a : Option (List ℕ)) (n : ℕ) (w : lwip.World)
      → v ≢ u
      → port v (lwip.udp_bind (some u) a n w).1 ≡ port v w
  pub port-new :
      (u v : lwip.Pcb) (w w' : lwip.World)
      → lwip.udp_new w ≡ (some u, w')
      → v ≢ u
      → port v w' ≡ port v w
