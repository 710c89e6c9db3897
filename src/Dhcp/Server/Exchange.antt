-- ===== src/Dhcp/Server/Exchange.antt =====
-- A client's whole exchange: the request for the address that it was offered is granted.
use pico_rfu.Prelude.{ℕ, zero, suc, ◌+◌, ◌≤◌, ◌<◌, ◌≡◌, ◌≢◌, ap, sym, subst, ◌∙◌}
use pico_rfu.Prelude.{some, List, [], ◌∷◌, true, arith, go}
use pico_rfu.Prelude.{length, take, get_elem?, slice, slice_at, get_elem?-set_self}
use pico_rfu.Dhcp.Options.{opt_requested_ip}
use pico_rfu.Dhcp.Options.Find.{DhcpOption, payload?}
use pico_rfu.Dhcp.Lease.{Lease, mac_len, base_ip, max_ip, scan}
use pico_rfu.Dhcp.Lease.Scan.{choice, scan-eq-choice, usable, scan-usable, length-scan}
use pico_rfu.Dhcp.Server.{
  Server, answer, yiaddr, chaddr, dhcp_min_size, dhcpdiscover, dhcprequest, dhcpoffer, dhcpack,
}
use pico_rfu.Dhcp.Server.Reply.{quad-cases, quad}
use pico_rfu.Dhcp.Server.Message.{Sized}
use pico_rfu.Dhcp.Server.Answer.{IsReply}
use pico_rfu.Dhcp.Server.Live.{IsRequest}
use pico_rfu.Dhcp.Server.Handshake.{held_by, discover_answered, request_answered}

-- The address of a reply: the server's net, and the number of the slot.
reply_address :
    (bytes ip nm : List ℕ) (code yi : ℕ) (reply : List ℕ) (a b c e : ℕ)
    → ip ≡ quad a b c e
    → yi < max_ip
    → IsReply bytes ip nm code yi reply
    → slice reply yiaddr 4 ≡ a ∷ b ∷ c ∷ (base_ip + yi) ∷ []
reply_address bytes ip nm code yi reply a b c e h small v =
    slice_at reply 16 3 a (v.net 0 (omega arith) ∙ ap (λ t. get_elem? t 0) h)
    ∙ ap (λ t. a ∷ t) (slice_at reply 17 2 b (v.net 1 (omega arith) ∙ ap (λ t. get_elem? t 1) h))
    ∙ ap (λ t. a ∷ b ∷ t)
        (slice_at reply 18 1 c (v.net 2 (omega arith) ∙ ap (λ t. get_elem? t 2) h))
    ∙ ap (λ t. a ∷ b ∷ c ∷ t) (slice_at reply 19 0 (base_ip + yi) (v.host ∙ ap some (omega arith)))

usable_there :
    (mac : List ℕ) (ls : List Lease) (k : ℕ) → usable mac (get_elem? ls k) ≡ true → k < length ls
usable_there mac [] k h = absurd (cc)
usable_there mac (l ∷ ls) zero h = omega arith
usable_there mac (l ∷ ls) (suc k) h = omega (arith, usable_there mac ls k h)

module _ {Pcb : Type 0} (stack bytes stack' bytes' : List ℕ) (d d₁ : Server Pcb)
    (os os' : List DhcpOption) (ticks ticks' : ℕ → ℕ) (tot_len tot_len' : ℕ) (reply : List ℕ) where
  -- The client, and the slot that it is offered.
  abbrev mac : List ℕ
  mac = slice bytes chaddr mac_len

  abbrev chosen : ℕ
  chosen = choice ticks mac 0 max_ip d.lease

  -- The server and the reply after an offer.
  offer_lem :
      (sized : Sized stack bytes d)
      → dhcp_min_size ≤ tot_len
      → IsRequest bytes dhcpdiscover os
      → length d.lease ≡ max_ip
      → chosen ≢ max_ip
      → answer ticks stack tot_len bytes d ≡ go (d₁, reply)
      → (d₁ ≡ record d { lease = (scan ticks mac 0 max_ip d.lease).1 })
        × IsReply bytes d.ip d.nm dhcpoffer chosen reply
        × (usable mac (get_elem? d₁.lease chosen) ≡ true)
  offer_lem sized enough r full ne e =
      let (reply₀, a, v) =
        discover_answered stack bytes d sized os ticks tot_len enough r (omega (arith, full)) ne in
      let e₁ : d₁ ≡ record d { lease = (scan ticks mac 0 max_ip d.lease).1 } = cc (a, e) in
      let e₂ : reply₀ ≡ reply = cc (a, e) in
      (
        e₁,
        subst (IsReply bytes d.ip d.nm dhcpoffer chosen) e₂ v,
        ap (λ (s : Server Pcb). usable mac (get_elem? s.lease chosen)) e₁
            ∙ scan-usable ticks mac d.lease chosen
                (scan-eq-choice ticks mac 0 max_ip d.lease (omega (arith, full))) ne,
      )

  -- A client of a full table of slots that was offered an address and asks for it, in a well-formed
  -- DHCPREQUEST that comes next, gets it: the reply has that address, and the slot is the client's
  -- for a day.
  pub offer_is_granted :
      Sized stack bytes d
      → dhcp_min_size ≤ tot_len
      → IsRequest bytes dhcpdiscover os
      → length d.lease ≡ max_ip
      → chosen ≢ max_ip
      → answer ticks stack tot_len bytes d ≡ go (d₁, reply)
      → Sized stack' bytes' d₁
      → dhcp_min_size ≤ tot_len'
      → IsRequest bytes' dhcprequest os'
      → slice bytes' chaddr mac_len ≡ mac
      → payload? opt_requested_ip os' ≡ some (slice reply yiaddr 4)
      → (d₂ : Server Pcb) × (reply' : List ℕ) × (answer ticks' stack' tot_len' bytes' d₁
          ≡ go (d₂, reply'))
        × IsReply bytes' d.ip d.nm dhcpack chosen reply'
        × (slice reply' yiaddr 4 ≡ slice reply yiaddr 4)
        × (get_elem? d₂.lease chosen ≡ some (held_by mac (ticks' 0)))
  offer_is_granted sized enough r full ne e sized' enough' r' same asked =
      let (after, v, u) = offer_lem sized enough r full ne e in
      let (a, b, c, x, ip) = quad-cases d.ip sized.ip_size in
      let small : chosen < max_ip = omega (
        arith,
        full,
        usable_there mac d₁.lease chosen u,
        ap (λ (s : Server Pcb). length s.lease) after,
        length-scan ticks mac 0 max_ip d.lease,
      ) in
      let offered = reply_address bytes d.ip d.nm dhcpoffer chosen reply a b c x ip small v in
      let (reply', g, v₀) =
        request_answered stack' bytes' d₁ sized' os' ticks' tot_len' enough' a b c chosen r'
          (asked ∙ ap some offered) (ap (λ (s : Server Pcb). take 3 s.ip) after ∙ ap (take 3) ip)
          small (subst (λ m. usable m (get_elem? d₁.lease chosen) ≡ true) (sym same) u) in
      let v' =
        subst (λ (s : Server Pcb). IsReply bytes' s.ip s.nm dhcpack chosen reply') after v₀ in
      (
        _,
        reply',
        g,
        v',
        reply_address bytes' d.ip d.nm dhcpack chosen reply' a b c x ip small v' ∙ sym offered,
        get_elem?-set_self d₁.lease chosen (held_by (slice bytes' chaddr mac_len) (ticks' 0))
              (usable_there mac d₁.lease chosen u)
            ∙ ap (λ m. some (held_by m (ticks' 0))) same,
      )
