-- ===== src/Dhcp/Server/Handshake.antt =====
-- From a client's first packet to its lease: DHCPDISCOVER is offered an address, and the request for
-- that address is granted.
use pico_rfu.Prelude.{ℕ, ◌+◌, ◌≤◌, ◌<◌, ◌≡◌, ◌≢◌, inl, inr, refl, ap, sym, subst, ◌∙◌}
use pico_rfu.Prelude.{Option, none, some, List, [], ◌∷◌, true, arith, go}
use pico_rfu.Prelude.{
  length, take, drop, get_elem?, slice, same_bytes, same_bytes_self, same_bytes→eq, set,
}
use pico_rfu.Prelude.{get_elem?-of_drop, drop-of_drop, Bool-cases, length-drop}
use pico_rfu.Prelude.{read_n}
use pico_rfu.Dhcp.Options.{opt_find, opt_requested_ip}
use pico_rfu.Dhcp.Options.Find.{DhcpOption, payload?}
use pico_rfu.Dhcp.Lease.{Lease, mac_len, base_ip, max_ip, new_expiry, scan}
use pico_rfu.Dhcp.Lease.Scan.{choice, scan-eq-choice, usable}
use pico_rfu.Dhcp.Server.{Server, dispatch, discover, requested, grant, claim, request, answer}
use pico_rfu.Dhcp.Server.{
  chaddr, options, dhcp_min_size, dhcpdiscover, dhcpoffer, dhcprequest, dhcpack,
}
use pico_rfu.Dhcp.Server.Message.{Sized}
use pico_rfu.Dhcp.Server.Answer.{IsReply}
use pico_rfu.Dhcp.Server.Live.{IsRequest, found, answer_go, requested_ip-ne, msg}

abbrev pub held_by : List ℕ → ℕ → Lease
held_by mac ticks = record { mac = mac; expiry = new_expiry ticks }

claim_go :
    (ticks : ℕ) (mac : List ℕ) (l : Lease)
    → usable mac (some l) ≡ true
    → (l' : Lease) × (claim mac l ≡ go l') × (l'.mac ≡ mac)
unfolding claim
claim_go ticks mac l u = elim (Bool-cases (same_bytes l.mac mac)) [
  | inl own ↦ (l, rw own, same_bytes→eq l.mac mac own)
  | inr other ↦ (record l { mac = mac }, ground arith, refl)
]

module _ {Pcb : Type 0} where
  discover_go :
      (ticks : ℕ → ℕ) (m mac : List ℕ) (d : Server Pcb)
      → (scan ticks mac 0 max_ip d.lease).0 ≢ max_ip
      → dispatch dhcpdiscover ticks m mac d
        ≡ go (
          record d { lease = (scan ticks mac 0 max_ip d.lease).1 },
          (scan ticks mac 0 max_ip d.lease).0,
          dhcpoffer,
        )
  unfolding dispatch discover
  discover_go ticks m mac d ne = ground arith

  requested_go :
      (m : List ℕ) (d : Server Pcb) (o a b c yi : ℕ) (behind : List ℕ)
      → opt_find m options opt_requested_ip ≡ go (some o)
      → drop (o + 2) m ≡ a ∷ b ∷ c ∷ (base_ip + yi) ∷ behind
      → take 3 d.ip ≡ a ∷ b ∷ c ∷ []
      → yi < max_ip
      → requested m d ≡ go yi
  unfolding requested
  requested_go m d o a b c yi behind f here ours small =
      rw (f, subnet_here, host_here, ours) (ground (arith, same_bytes_self (a ∷ b ∷ c ∷ [])))
    where
      subnet_here : read_n m (o + 2) 3 ≡ go (a ∷ b ∷ c ∷ [])
      subnet_here = ground (arith, length-drop (o + 2) m, ap length here, ap (take 3) here)

      host_here : get_elem? m (o + 5) ≡ some (base_ip + yi)
      host_here =
          get_elem?-of_drop m (o + 5) (base_ip + yi) behind
            (drop-of_drop m (o + 2) 3 (o + 5) (a ∷ b ∷ c ∷ []) _ here refl (omega arith))

  grant_go :
      (ticks : ℕ) (mac : List ℕ) (d : Server Pcb) (yi : ℕ) (l : Lease)
      → get_elem? d.lease yi ≡ some l
      → usable mac (some l) ≡ true
      → grant ticks mac d yi ≡ go (record d { lease = set d.lease yi (held_by mac ticks) }, yi)
  unfolding grant
  grant_go ticks mac d yi l e u = let (l', c, own) = claim_go ticks mac l u in rw (e, c, own)

  request_go :
      (ticks : ℕ → ℕ) (m mac : List ℕ) (d : Server Pcb) (yi : ℕ) (l : Lease)
      → requested m d ≡ go yi
      → get_elem? d.lease yi ≡ some l
      → usable mac (some l) ≡ true
      → dispatch dhcprequest ticks m mac d
        ≡ go (record d { lease = set d.lease yi (held_by mac (ticks 0)) }, yi, dhcpack)
  unfolding dispatch request
  request_go ticks m mac d yi l q e u = rw (q, grant_go (ticks 0) mac d yi l e u)

module _ {Pcb : Type 0} (stack bytes : List ℕ) (d : Server Pcb) (sized : Sized stack bytes d)
    (os : List DhcpOption) (ticks : ℕ → ℕ) (tot_len : ℕ) (enough : dhcp_min_size ≤ tot_len) where
  abbrev mac : List ℕ
  mac = slice bytes chaddr mac_len

  abbrev chosen : ℕ
  chosen = choice ticks mac 0 max_ip d.lease

  -- While the client has a slot or one is free or expired, a well-formed DHCPDISCOVER is answered,
  -- with an offer of the client's slot or else of the first that is free or expired.
  pub discover_answered :
      IsRequest bytes dhcpdiscover os
      → length d.lease ≤ max_ip
      → chosen ≢ max_ip
      → (reply : List ℕ) × (answer ticks stack tot_len bytes d
          ≡ go (record d { lease = (scan ticks mac 0 max_ip d.lease).1 }, reply))
        × IsReply bytes d.ip d.nm dhcpoffer chosen reply
  discover_answered r few ne =
      let e = scan-eq-choice ticks mac 0 max_ip d.lease (omega arith) in
      let (reply, a, v) =
        answer_go stack bytes d sized dhcpdiscover os r ticks tot_len _ _ dhcpoffer enough (
          discover_go ticks (msg stack bytes d sized dhcpdiscover os r) mac d
            (λ q. ne (sym e ∙ q))) in
      (reply, a, subst (λ yi. IsReply bytes d.ip d.nm dhcpoffer yi reply) e v)

  -- A well-formed DHCPREQUEST for an address on the server's net is granted, if its slot is free or
  -- the client's.
  pub request_answered :
      (a b c yi : ℕ)
      → IsRequest bytes dhcprequest os
      → payload? opt_requested_ip os ≡ some (a ∷ b ∷ c ∷ (base_ip + yi) ∷ [])
      → take 3 d.ip ≡ a ∷ b ∷ c ∷ []
      → yi < max_ip
      → usable mac (get_elem? d.lease yi) ≡ true
      → (reply : List ℕ) × (answer ticks stack tot_len bytes d
          ≡ go (record d { lease = set d.lease yi (held_by mac (ticks 0)) }, reply))
        × IsReply bytes d.ip d.nm dhcpack yi reply
  request_answered a b c yi r asked ours small u =
      let (l, e) = slot_here (get_elem? d.lease yi) u in
      let (o, behind, f, here) =
        found stack bytes d sized dhcprequest os r opt_requested_ip _ requested_ip-ne asked in
      answer_go stack bytes d sized dhcprequest os r ticks tot_len _ _ dhcpack enough (
        request_go ticks m mac d yi l (requested_go m d o a b c yi behind f here ours small) e
          (subst (λ s. usable mac s ≡ true) e u))
    where
      m : List ℕ
      m = msg stack bytes d sized dhcprequest os r

      slot_here : (s : Option Lease) → usable mac s ≡ true → (l : Lease) × (s ≡ some l)
      slot_here none v = absurd (cc)
      slot_here (some l) v = (l, refl)
