-- ===== src/AccessPoint/Started.antt =====
-- How the two servers of the access point start, each at its port.
use pico_rfu.Prelude.{ℕ, ◌≡◌, ◌≢◌, sym, ap, ◌∙◌, List, Option, none, some, Bool, true, false, ℤ}
use pico_rfu.Lwip.{
  Lwip, Registers, Callback, err_ok, enomem, dhcp_server_process, dns_server_process,
}
use pico_rfu.Dhcp.Server.{Server as DhcpServer}
use pico_rfu.Dhcp.Socket.{no_leases, port_dhcp_server}
use pico_rfu.Dhcp.Socket.Start.{init_bound}
use pico_rfu.Dns.Server.{Server as DnsServer}
use pico_rfu.Dns.Socket.{
  init as dns_server_init, any_address, is_ok, port_dns_server, bind_and_set, socket_new_dgram,
  socket_bind,
}
use pico_rfu.AccessPoint.{gateway, mask, start_servers}

-- The servers of an access point, with their sockets.
abbrev pub dhcp_on : {Pcb : Type 0} → Pcb → DhcpServer Pcb
dhcp_on u = record { ip = gateway; nm = mask; lease = no_leases; udp = some u }

abbrev pub dns_on : {Pcb : Type 0} → Pcb → DnsServer Pcb
dns_on u = record { udp = some u; ip = gateway }

module _ (lwip : Lwip) where
  open lwip use {Pcb, World, udp_new, udp_recv, udp_bind}

  socket_lem :
      (w w₁ : World) (pcb : Pcb)
      → udp_new w ≡ (some pcb, w₁)
      → socket_new_dgram lwip w ≡ (some pcb, err_ok, udp_recv pcb dns_server_process w₁)
  unfolding socket_new_dgram
  socket_lem w w₁ pcb e =
      ap
        (λ (r : Option Pcb × World). elim r.0 [
          | none ↦ (none, enomem, r.1)
          | some pcb' ↦ (some pcb', err_ok, udp_recv pcb' dns_server_process r.1)
        ])
        e

  -- What `dns_server_init` does with the result of the binding.
  abbrev after : Pcb → DnsServer Pcb → Option (ℤ × World) → Option (DnsServer Pcb × World)
  after pcb dns none = none
  after pcb dns (some (err, w)) = elim (is_ok err) [
    | true ↦ some (record { udp = some pcb; ip = gateway }, w)
    | false ↦ some (record { udp = some pcb; ip = dns.ip }, w)
  ]

  bind_lem :
      (aborts : Bool) (dns : DnsServer Pcb) (w w₂ : World) (pcb : Pcb)
      → udp_bind (some pcb) (some any_address) port_dns_server w ≡ (err_ok, w₂)
      → bind_and_set lwip aborts pcb gateway dns w
        ≡ some (record { udp = some pcb; ip = gateway }, w₂)
  unfolding bind_and_set socket_bind
  bind_lem aborts dns w w₂ pcb e = ap (after pcb dns) (
      ap
        (λ (r : ℤ × World). elim (is_ok r.0) [
          | true ↦ some (r.0, r.1)
          | false ↦ elim aborts [ true ↦ none | false ↦ some (r.0, r.1) ]
        ])
        e)

  -- A name server that gets its socket and its port has the address.
  dns_init_lem :
      (aborts : Bool) (dns : DnsServer Pcb) (w w₁ w₂ : World) (pcb : Pcb)
      → udp_new w ≡ (some pcb, w₁)
      → udp_bind (some pcb) (some any_address) port_dns_server (udp_recv pcb dns_server_process w₁)
        ≡ (err_ok, w₂)
      → dns_server_init lwip aborts gateway dns w
        ≡ some (record { udp = some pcb; ip = gateway }, w₂)
  unfolding dns_server_init
  dns_init_lem aborts dns w w₁ w₂ pcb e b =
      ap
        (λ (r : Option Pcb × ℤ × World). elim r.0 [
          | none ↦ some (record { udp = none; ip = dns.ip }, r.2)
          | some pcb' ↦ bind_and_set lwip aborts pcb' gateway dns r.2
        ])
        (socket_lem w w₁ pcb e)
      ∙ bind_lem aborts dns (udp_recv pcb dns_server_process w₁) w₂ pcb b

  -- Both servers get their sockets and their ports: of the first to start, and of the second.
  pub record Sockets (w w₁ w₂ w₃ w₄ : World) (u₁ u₂ : Pcb) : Type 0 where
    pub new_dhcp : udp_new w ≡ (some u₁, w₁)
    pub bound_dhcp :
        udp_bind (some u₁) none port_dhcp_server (udp_recv u₁ dhcp_server_process w₁) ≡ (err_ok, w₂)
    pub new_dns : udp_new w₂ ≡ (some u₂, w₃)
    pub bound_dns :
        udp_bind (some u₂) (some any_address) port_dns_server (udp_recv u₂ dns_server_process w₃)
        ≡ (err_ok, w₄)
    pub two : u₁ ≢ u₂

  start_servers_go :
      (aborts : Bool) (dns : DnsServer Pcb) {w w₁ w₂ w₃ w₄ : World} {u₁ u₂ : Pcb}
      → Sockets w w₁ w₂ w₃ w₄ u₁ u₂
      → start_servers lwip aborts dns w ≡ some (dhcp_on u₁, dns_on u₂, w₄)
  unfolding start_servers
  start_servers_go aborts dns {w = w} {w₁ = w₁} {w₂ = w₂} {w₃ = w₃} {w₄ = w₄} {u₁ = u₁} {u₂ = u₂}
        s =
      ap
        (λ (r : DhcpServer Pcb × World). elim (dns_server_init lwip aborts gateway dns r.1) [
          | none ↦ none
          | some (dns', w') ↦ some (r.0, dns', w')
        ])
        (init_bound lwip gateway mask w u₁ w₁ w₂ s.new_dhcp s.bound_dhcp)
      ∙ ap
          (λ (r : Option (DnsServer Pcb × World)). elim r [
            | none ↦ none
            | some (dns', w') ↦ some (dhcp_on u₁, dns', w')
          ])
          (dns_init_lem aborts dns w₂ w₃ w₄ u₂ s.new_dns s.bound_dns)

  module _ (registers : Registers lwip) where
    open registers use {callback, port}

    -- What comes in at a port on a control block goes to a handler.
    abbrev pub Listens : World → Pcb → Callback → ℕ → Type 0
    Listens w u c n = (callback u w ≡ some c) × (port u w ≡ some n)

    -- A control block that got a handler and a port.
    listening :
        (u : Pcb) (c : Callback) (a : Option (List ℕ)) (n : ℕ) (w w' : World)
        → udp_bind (some u) a n (udp_recv u c w) ≡ (err_ok, w')
        → Listens w' u c n
    listening u c a n w w' b = (
      ap (λ (r : ℤ × World). callback u r.1) {x = (err_ok, w')} (sym b)
          ∙ registers.callback-bind u u a n (udp_recv u c w)
          ∙ registers.callback-recv u c w,
      registers.port-bind u a n (udp_recv u c w) w' b,
    )

    -- It keeps them when another is made, and gets its own.
    still_listening :
        (v u : Pcb) (d c : Callback) (a : Option (List ℕ)) (m n : ℕ) (w w' w'' : World)
        → Listens w v d m
        → v ≢ u
        → udp_new w ≡ (some u, w')
        → udp_bind (some u) a n (udp_recv u c w') ≡ (err_ok, w'')
        → Listens w'' v d m
    still_listening v u d c a m n w w' w'' l two e b = (
      ap (λ (r : ℤ × World). callback v r.1) {x = (err_ok, w'')} (sym b)
          ∙ registers.callback-bind u v a n (udp_recv u c w')
          ∙ registers.callback-recv_other u v c w' two
          ∙ registers.callback-new u v w w' e two
          ∙ l.0,
      ap (λ (r : ℤ × World). port v r.1) {x = (err_ok, w'')} (sym b)
          ∙ registers.port-bind_other u v a n (udp_recv u c w') two
          ∙ registers.port-recv u v c w'
          ∙ registers.port-new u v w w' e two
          ∙ l.1,
    )

    -- If lwIP gives each server a socket of its own and its port, the access point starts: each
    -- server holds its socket, with the device's address, and the first with a table of free slots;
    -- in the end what comes in on the first's socket, at port 67, goes to `dhcp_server_process`, and
    -- what comes in on the second's, at port 53, to `dns_server_process`.
    pub start_servers_lem :
        (aborts : Bool) (dns : DnsServer Pcb) (w w₁ w₂ w₃ w₄ : World) (u₁ u₂ : Pcb)
        → Sockets w w₁ w₂ w₃ w₄ u₁ u₂
        → (start_servers lwip aborts dns w ≡ some (dhcp_on u₁, dns_on u₂, w₄))
          × Listens w₄ u₁ dhcp_server_process 67
          × Listens w₄ u₂ dns_server_process 53
    start_servers_lem aborts dns w w₁ w₂ w₃ w₄ u₁ u₂ s = (
      start_servers_go aborts dns s,
      still_listening u₁ u₂ dhcp_server_process dns_server_process (some any_address) 67
          port_dns_server w₂ w₃ w₄
          (listening u₁ dhcp_server_process none port_dhcp_server w₁ w₂ s.bound_dhcp) s.two
          s.new_dns s.bound_dns,
      listening u₂ dns_server_process (some any_address) port_dns_server w₃ w₄ s.bound_dns,
    )
