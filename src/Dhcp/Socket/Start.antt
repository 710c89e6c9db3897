-- ===== src/Dhcp/Socket/Start.antt =====
-- The server right after `dhcp_server_init`, and after `dhcp_server_deinit`.
use pico_rfu.Prelude.{
  ℕ, ◌≤◌, ◌≡◌, ◌≢◌, inl, inr, Option, none, some, ℤ, refl, ap, sym, subst, ◌∙◌, List,
}
use pico_rfu.Prelude.{Option-cases, arith, go, length, slice, Bool-cases, same_bytes}
use pico_rfu.Lwip.{Lwip, err_ok, enomem, dhcp_server_process}
use pico_rfu.Dhcp.Lease.{Lease, max_ip, mac_len, no_mac, expired}
use pico_rfu.Dhcp.Lease.Scan.{choice}
use pico_rfu.Dhcp.Options.Find.{DhcpOption}
use pico_rfu.Dhcp.Server.{Server, answer, chaddr, dhcp_min_size, dhcpdiscover, dhcpoffer}
use pico_rfu.Dhcp.Server.Message.{Sized}
use pico_rfu.Dhcp.Server.Answer.{IsReply}
use pico_rfu.Dhcp.Server.Live.{IsRequest}
use pico_rfu.Dhcp.Server.Handshake.{discover_answered}
use pico_rfu.Dhcp.Socket.{init, deinit, no_leases, socket_new_dgram, socket_bind, port_dhcp_server}

-- Of a table of free slots the first is chosen.
choice-no_leases : (ticks : ℕ → ℕ) (mac : List ℕ) → choice ticks mac 0 max_ip no_leases ≡ 0
choice-no_leases ticks mac = elim (Bool-cases (same_bytes no_mac mac)) [
  | inl zeros ↦ rw zeros
  | inr other ↦
      rw other (elim (Bool-cases (expired (ticks 0) (record { mac = no_mac; expiry = 0 }))) [
        | inl e ↦ rw e
        | inr e ↦ rw e
      ])
]

few : {ls : List Lease} → ls ≡ no_leases → length ls ≤ max_ip
few e = omega (arith, ap length e)

zero_ne : ◌≢◌ {A = ℕ} 0 max_ip
zero_ne e = cc

-- A server with a table of free slots answers any well-formed DHCPDISCOVER with an offer of the first
-- address.
pub free_offers :
    {Pcb : Type 0}
    → (d : Server Pcb) → d.lease ≡ no_leases
    → (stack bytes : List ℕ) (os : List DhcpOption) (ticks : ℕ → ℕ) (tot_len : ℕ)
    → Sized stack bytes d
    → dhcp_min_size ≤ tot_len
    → IsRequest bytes dhcpdiscover os
    → (d' : Server Pcb) × (reply : List ℕ) × (answer ticks stack tot_len bytes d ≡ go (d', reply))
      × IsReply bytes d.ip d.nm dhcpoffer 0 reply
free_offers d free stack bytes os ticks tot_len sized enough r =
    let first : choice ticks (slice bytes chaddr mac_len) 0 max_ip d.lease ≡ 0 =
      ap (choice ticks (slice bytes chaddr mac_len) 0 max_ip) free
      ∙ choice-no_leases ticks (slice bytes chaddr mac_len) in
    let (reply, a, v) =
      discover_answered stack bytes d sized os ticks tot_len enough r (few free)
        (λ e. zero_ne (sym first ∙ e)) in
    (_, reply, a, subst (λ k. IsReply bytes d.ip d.nm dhcpoffer k reply) first v)

module _ (lwip : Lwip) (ip nm : List ℕ) (w : lwip.World) where
  init_lem :
      ((init lwip ip nm w).0.lease ≡ no_leases)
      × ((init lwip ip nm w).0.ip ≡ ip)
      × ((init lwip ip nm w).0.nm ≡ nm)
  unfolding init socket_new_dgram
  init_lem = elim (Option-cases (lwip.udp_new w).0) [
    | inl e ↦ rw (e, init, socket_new_dgram) (refl, refl, refl)
    | inr (pcb, e) ↦ rw (e, init, socket_new_dgram) (refl, refl, refl)
  ]

  -- A server that was just started, whether or not it got its socket, answers any well-formed
  -- DHCPDISCOVER with an offer of the first address.
  pub init_offers :
      (stack bytes : List ℕ) (os : List DhcpOption) (ticks : ℕ → ℕ) (tot_len : ℕ)
      → Sized stack bytes (init lwip ip nm w).0
      → dhcp_min_size ≤ tot_len
      → IsRequest bytes dhcpdiscover os
      → (d' : Server lwip.Pcb) × (reply : List ℕ) × (answer ticks stack tot_len bytes
            (init lwip ip nm w).0
          ≡ go (d', reply))
        × IsReply bytes ip nm dhcpoffer 0 reply
  init_offers stack bytes os ticks tot_len sized enough r =
      let (free, same_ip, same_nm) = init_lem in
      let (d', reply, a, v) =
        free_offers (init lwip ip nm w).0 free stack bytes os ticks tot_len sized enough r in
      (
        d',
        reply,
        a,
        subst (λ i. IsReply bytes i nm dhcpoffer 0 reply) same_ip
            (subst (λ n. IsReply bytes (init lwip ip nm w).0.ip n dhcpoffer 0 reply) same_nm v),
      )

  abbrev started : Option lwip.Pcb → Server lwip.Pcb
  started udp = record { ip = ip; nm = nm; lease = no_leases; udp = udp }

  socket_lem :
      (u : lwip.Pcb) (w₁ : lwip.World)
      → lwip.udp_new w ≡ (some u, w₁)
      → socket_new_dgram lwip w ≡ (some u, err_ok, lwip.udp_recv u dhcp_server_process w₁)
  unfolding socket_new_dgram
  socket_lem u w₁ e =
      ap
        (λ (r : Option lwip.Pcb × lwip.World). elim r.0 [
          | none ↦ (none, enomem, r.1)
          | some pcb ↦ (some pcb, err_ok, lwip.udp_recv pcb dhcp_server_process r.1)
        ])
        e

  -- A server that gets its socket and its port.
  pub init_bound :
      (u : lwip.Pcb) (w₁ w₂ : lwip.World)
      → lwip.udp_new w ≡ (some u, w₁)
      → lwip.udp_bind (some u) none port_dhcp_server (lwip.udp_recv u dhcp_server_process w₁)
        ≡ (err_ok, w₂)
      → init lwip ip nm w ≡ (record { ip = ip; nm = nm; lease = no_leases; udp = some u }, w₂)
  unfolding init socket_bind
  init_bound u w₁ w₂ e b =
      ap
        (λ (r : Option lwip.Pcb × ℤ × lwip.World). elim r.0 [
          | none ↦ (started r.0, r.2)
          | some pcb ↦ (started r.0, (socket_bind lwip (some pcb) port_dhcp_server r.2).1)
        ])
        (socket_lem u w₁ e)
      ∙ ap (λ (r : ℤ × lwip.World). (started (some u), r.1)) b

-- Ending a server twice is ending it once: its socket is removed once.
pub deinit-deinit :
    (lwip : Lwip) (d : Server lwip.Pcb) (w : lwip.World)
    → let once = deinit lwip d w in deinit lwip once.0 once.1 ≡ once
unfolding deinit
deinit-deinit lwip d w = ground (arith)
