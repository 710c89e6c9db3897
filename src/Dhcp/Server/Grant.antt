-- ===== src/Dhcp/Server/Grant.antt =====
-- What DHCPDISCOVER and DHCPREQUEST do to the table, and to whom they give an address.
use pico_rfu.Prelude.{ℕ, ◌+◌, ◌<◌, ◌≡◌, ◌≢◌, ◌⊎◌, inl, inr, ap, sym, ◌∙◌}
use pico_rfu.Prelude.{some, List, true, false, arith, go}
use pico_rfu.Prelude.{>>=-eq-go, length, get_elem?, set}
use pico_rfu.Prelude.{get_elem?-set_ne, get_elem?-lt, length-set}
use pico_rfu.Prelude.{same_bytes_iff, Option-cases}
use pico_rfu.Prelude.{or_fault}
use pico_rfu.Dhcp.Lease.{Lease, max_ip, no_mac, expired, new_expiry, scan}
use pico_rfu.Dhcp.Lease.Scan.{scan_keeps, scan-usable, length-scan, usable}
use pico_rfu.Dhcp.Server.{
  Server, discover, claim, requested, grant, request, dispatch, dhcpdiscover, dhcpoffer,
}
use pico_rfu.Dhcp.Server.{dhcprequest, dhcpack}

-- A claimed lease is the client's, and was its own or free.
claim_lem :
    (mac : List ℕ) (l l' : Lease)
    → claim mac l ≡ go l'
    → (l'.mac ≡ mac) × ((l.mac ≡ mac) ⊎ (l.mac ≡ no_mac))
unfolding claim
claim_lem mac l l' h = ground (arith, same_bytes_iff l.mac mac, same_bytes_iff l.mac no_mac)

not_usable : (mac : List ℕ) (l : Lease) → l.mac ≢ mac → l.mac ≢ no_mac → usable mac (some l) ≢ true
not_usable mac l p q h = ground (arith, same_bytes_iff l.mac mac, same_bytes_iff l.mac no_mac)

module _ {Pcb : Type 0} where
  -- An offer: the table as the search leaves it, and the slot that the search found.
  pub discover_lem :
      (ticks : ℕ → ℕ) (mac : List ℕ) (d d' : Server Pcb) (yi : ℕ)
      → discover ticks mac d ≡ go (d', yi)
      → (yi ≢ max_ip)
        × (yi ≡ (scan ticks mac 0 max_ip d.lease).0)
        × (d' ≡ record d { lease = (scan ticks mac 0 max_ip d.lease).1 })
  unfolding discover
  discover_lem ticks mac d d' yi h = ground arith

  requested-lt : (msg : List ℕ) (d : Server Pcb) (yi : ℕ) → requested msg d ≡ go yi → yi < max_ip
  unfolding requested
  requested-lt msg d yi h = ground arith

  grant_lem :
      (ticks : ℕ) (mac : List ℕ) (d d' : Server Pcb) (slot yi : ℕ)
      → grant ticks mac d slot ≡ go (d', yi)
      → (l : Lease) × (get_elem? d.lease yi ≡ some l)
        × ((l.mac ≡ mac) ⊎ (l.mac ≡ no_mac))
        × (d'
            ≡ record d { lease = set d.lease yi (record { mac = mac; expiry = new_expiry ticks }) })
        × (slot ≡ yi)
  unfolding grant
  grant_lem ticks mac d d' slot yi h =
      let (l, e, h₁) = >>=-eq-go (or_fault (get_elem? d.lease slot)) _ h in
      let (l', c, h₂) = >>=-eq-go (claim mac l) _ h₁ in
      (
        l,
        ground arith,
        (claim_lem mac l l' c).1,
        ground (arith, (claim_lem mac l l' c).0),
        ground arith,
      )

  -- A grant: the slot was the client's or free, and is the client's for a day from now.
  pub request_lem :
      (ticks : ℕ) (msg mac : List ℕ) (d d' : Server Pcb) (yi : ℕ)
      → request ticks msg mac d ≡ go (d', yi)
      → (l : Lease) × (yi < max_ip)
        × (get_elem? d.lease yi ≡ some l)
        × ((l.mac ≡ mac) ⊎ (l.mac ≡ no_mac))
        × (d'
            ≡ record d { lease = set d.lease yi (record { mac = mac; expiry = new_expiry ticks }) })
  unfolding request
  request_lem ticks msg mac d d' yi h =
      let (slot, r, g) = >>=-eq-go (requested msg d) _ h in
      let (l, e, o, s, q) = grant_lem ticks mac d d' slot yi g in
      (l, rw q at (requested-lt msg d slot r), e, o, s)

  discover_addresses :
      (ticks : ℕ → ℕ) (mac : List ℕ) (d d' : Server Pcb) (yi : ℕ)
      → discover ticks mac d ≡ go (d', yi)
      → (d'.ip ≡ d.ip) × (d'.nm ≡ d.nm) × (length d'.lease ≡ length d.lease)
  unfolding discover
  discover_addresses ticks mac d d' yi h = ground (arith, length-scan ticks mac 0 max_ip d.lease)

  request_addresses :
      (ticks : ℕ) (msg mac : List ℕ) (d d' : Server Pcb) (yi : ℕ)
      → request ticks msg mac d ≡ go (d', yi)
      → (d'.ip ≡ d.ip) × (d'.nm ≡ d.nm) × (length d'.lease ≡ length d.lease)
  request_addresses ticks msg mac d d' yi h =
      let (_, _, _, _, after) = request_lem ticks msg mac d d' yi h in
      ground (arith, after, length-set d.lease yi (record { mac = mac; expiry = new_expiry ticks }))

  -- The two cases of the `switch` that send a reply.
  pub dispatch_lem :
      (kind : ℕ) (ticks : ℕ → ℕ) (msg mac : List ℕ) (d d' : Server Pcb) (yi code : ℕ)
      → dispatch kind ticks msg mac d ≡ go (d', yi, code)
      → ((discover ticks mac d ≡ go (d', yi)) × (kind ≡ dhcpdiscover) × (code ≡ dhcpoffer))
        ⊎ ((request (ticks 0) msg mac d ≡ go (d', yi)) × (kind ≡ dhcprequest) × (code ≡ dhcpack))
  unfolding dispatch
  dispatch_lem kind ticks msg mac d d' yi code h = ground arith

  -- An offer leaves every lease that has not expired.
  pub discover_stays :
      (ticks : ℕ → ℕ) (mac : List ℕ) (d d' : Server Pcb) (yi j : ℕ) (l : Lease)
      → discover ticks mac d ≡ go (d', yi)
      → get_elem? d.lease j ≡ some l
      → expired (ticks j) l ≡ false
      → get_elem? d'.lease j ≡ some l
  discover_stays ticks mac d d' yi j l h e x =
      ap (λ s. get_elem? s.lease j) (discover_lem ticks mac d d' yi h).2
      ∙ scan_keeps ticks mac 0 max_ip d.lease j l e
          (ap (λ k. expired (ticks k) l) {x = 0 + j} (omega arith) ∙ x)

  discover_keeps :
      (ticks : ℕ → ℕ) (mac : List ℕ) (d d' : Server Pcb) (yi j : ℕ) (l : Lease)
      → discover ticks mac d ≡ go (d', yi)
      → get_elem? d.lease j ≡ some l
      → l.mac ≢ mac
      → l.mac ≢ no_mac
      → expired (ticks j) l ≡ false
      → (get_elem? d'.lease j ≡ some l) × (yi ≢ j)
  discover_keeps ticks mac d d' yi j l h e p q x =
      let (some_left, found, after) = discover_lem ticks mac d d' yi h in
      let kept = discover_stays ticks mac d d' yi j l h e x in
      (
        kept,
        λ same. not_usable mac l p q (
            ap (usable mac) (sym kept ∙ ap (λ s. get_elem? s.lease j) after)
            ∙ ap (λ k. usable mac (get_elem? (scan ticks mac 0 max_ip d.lease).1 k)) (sym same)
            ∙ scan-usable ticks mac d.lease yi (sym found) some_left),
      )

  request_keeps :
      (ticks : ℕ) (msg mac : List ℕ) (d d' : Server Pcb) (yi j : ℕ) (l : Lease)
      → request ticks msg mac d ≡ go (d', yi)
      → get_elem? d.lease j ≡ some l
      → l.mac ≢ mac
      → l.mac ≢ no_mac
      → (get_elem? d'.lease j ≡ some l) × (yi ≢ j)
  request_keeps ticks msg mac d d' yi j l h e p q =
      let (m, small, at, owner, after) = request_lem ticks msg mac d d' yi h in
      let other : yi ≢ j = λ same. not_owner at same owner in
      (
        ap (λ s. get_elem? s.lease j) after
            ∙ get_elem?-set_ne d.lease yi j (record { mac = mac; expiry = new_expiry ticks }) other
            ∙ e,
        other,
      )
    where
      not_owner :
          {m : Lease}
          → get_elem? d.lease yi ≡ some m
          → yi ≡ j
          → (m.mac ≡ mac) ⊎ (m.mac ≡ no_mac)
          → ⊥
      not_owner {m} at same owner =
          let eq : m ≡ l = cc (ap (get_elem? d.lease) same) in owner_of eq owner
        where
          owner_of : m ≡ l → (m.mac ≡ mac) ⊎ (m.mac ≡ no_mac) → ⊥
          owner_of eq (inl o) = p (ap (λ r. r.mac) (sym eq) ∙ o)
          owner_of eq (inr o) = q (ap (λ r. r.mac) (sym eq) ∙ o)

  discover-lt :
      (ticks : ℕ → ℕ) (mac : List ℕ) (d d' : Server Pcb) (yi : ℕ)
      → discover ticks mac d ≡ go (d', yi)
      → yi < length d.lease
  discover-lt ticks mac d d' yi h =
      let (some_left, found, _) = discover_lem ticks mac d d' yi h in
      elim (Option-cases (get_elem? (scan ticks mac 0 max_ip d.lease).1 yi)) [
        | inl e ↦
            absurd (cc (ap (usable mac) e, scan-usable ticks mac d.lease yi (sym found) some_left))
        | inr (l, e) ↦ omega (
          arith,
          get_elem?-lt (scan ticks mac 0 max_ip d.lease).1 yi l e,
          length-scan ticks mac 0 max_ip d.lease,
        )
      ]

  request-lt :
      (ticks : ℕ) (msg mac : List ℕ) (d d' : Server Pcb) (yi : ℕ)
      → request ticks msg mac d ≡ go (d', yi)
      → yi < length d.lease
  request-lt ticks msg mac d d' yi h =
      let (l, _, e, _, _) = request_lem ticks msg mac d d' yi h in get_elem?-lt d.lease yi l e

  pub dispatch-lt :
      (kind : ℕ) (ticks : ℕ → ℕ) (msg mac : List ℕ) (d d' : Server Pcb) (yi code : ℕ)
      → dispatch kind ticks msg mac d ≡ go (d', yi, code)
      → yi < length d.lease
  dispatch-lt kind ticks msg mac d d' yi code h =
      elim (dispatch_lem kind ticks msg mac d d' yi code h) [
        | inl (c, _, _) ↦ discover-lt ticks mac d d' yi c
        | inr (c, _, _) ↦ request-lt (ticks 0) msg mac d d' yi c
      ]

  -- Neither case takes the slot of a lease that is another client's and has not expired, or gives
  -- it to this client.
  pub dispatch_keeps :
      (kind : ℕ) (ticks : ℕ → ℕ) (msg mac : List ℕ) (d d' : Server Pcb) (yi code j : ℕ) (l : Lease)
      → dispatch kind ticks msg mac d ≡ go (d', yi, code)
      → get_elem? d.lease j ≡ some l
      → l.mac ≢ mac
      → l.mac ≢ no_mac
      → expired (ticks j) l ≡ false
      → (get_elem? d'.lease j ≡ some l) × (yi ≢ j)
  dispatch_keeps kind ticks msg mac d d' yi code j l h e p q x =
      elim (dispatch_lem kind ticks msg mac d d' yi code h) [
        | inl (c, _, _) ↦ discover_keeps ticks mac d d' yi j l c e p q x
        | inr (c, _, _) ↦ request_keeps (ticks 0) msg mac d d' yi j l c e p q
      ]

  -- Neither changes the server's own addresses or the number of slots.
  pub dispatch_addresses :
      (kind : ℕ) (ticks : ℕ → ℕ) (msg mac : List ℕ) (d d' : Server Pcb) (yi code : ℕ)
      → dispatch kind ticks msg mac d ≡ go (d', yi, code)
      → (d'.ip ≡ d.ip) × (d'.nm ≡ d.nm) × (length d'.lease ≡ length d.lease)
  dispatch_addresses kind ticks msg mac d d' yi code h =
      elim (dispatch_lem kind ticks msg mac d d' yi code h) [
        | inl (c, _, _) ↦ discover_addresses ticks mac d d' yi c
        | inr (c, _, _) ↦ request_addresses (ticks 0) msg mac d d' yi c
      ]
