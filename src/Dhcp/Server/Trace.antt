-- ===== src/Dhcp/Server/Trace.antt =====
-- The server over a whole sequence of packets: an address that was granted stays its client's.
use pico_rfu.Prelude.{ℕ, ◌+◌, ◌-◌, ◌*◌, ◌%◌, ◌^◌, ◌≤◌, ◌<◌, ◌≡◌, ◌≢◌, ◌⊎◌, inl, inr}
use pico_rfu.Prelude.{ap, sym, subst, ◌∙◌}
use pico_rfu.Prelude.{some, List, false, arith, go, ignore_request}
use pico_rfu.Prelude.{
  length, get_elem?, get_elem?-set_self, get_elem?-set_ne, get_elem?-lt, set, slice,
}
use pico_rfu.Prelude.{same_bytes, same_bytes→eq, same_bytes_self, Bool-cases}
use native.Mathlib.Decide.{ℕ_discrete}
use pico_rfu.Dhcp.Lease.{Lease, max_ip, base_ip, mac_len, no_mac, expired, new_expiry}
use pico_rfu.Dhcp.Lease.{default_lease_time_s}
use pico_rfu.Dhcp.Lease.Time.{expired-new_expiry_within}
use pico_rfu.Dhcp.Server.{Server, answer, dispatch, chaddr, yiaddr}
use pico_rfu.Dhcp.Server.Grant.{
  discover_stays, request_lem, dispatch_lem, dispatch_keeps, dispatch-lt,
}
use pico_rfu.Dhcp.Server.Message.{Sized}
use pico_rfu.Dhcp.Server.Answer.{answer_lem}

-- A packet as the handler gets it: its length, the bytes copied, and what the stack held before.
pub record Packet : Type 0 where
  pub tot_len : ℕ
  pub bytes : List ℕ
  pub stack : List ℕ

-- `cyw43_hal_ticks_ms` at each reading: the milliseconds since boot in a `uint32_t`.
abbrev pub clock : (ℕ → ℕ) → ℕ → ℕ
clock times i = times i % 2 ^ 32

module _ {Pcb : Type 0} where
  -- The server after a packet was answered or ignored. A fault has no server after it.
  pub data Handles (times : ℕ → ℕ) (p : Packet) (d : Server Pcb) : Server Pcb → Type 0 where
    answered :
        {d' : Server Pcb} (reply : List ℕ)
        → answer (clock times) p.stack p.tot_len p.bytes d ≡ go (d', reply)
        → Handles times p d d'
    ignored :
        answer (clock times) p.stack p.tot_len p.bytes d ≡ ignore_request → Handles times p d d

  -- Packets handled one after the other. The handler of each reads its clock between the time when
  -- the one before it was done and the time when it is done itself.
  pub data Runs (d : Server Pcb) (t : ℕ) : Server Pcb → ℕ → Type 0 where
    start : Runs d t d t
    next :
        {d' d'' : Server Pcb} {t' t'' : ℕ}
        → Runs d t d' t'
        → (times : ℕ → ℕ) (p : Packet) → t' ≤ t''
        → ((i : ℕ) → (t' ≤ times i) × (times i ≤ t''))
        → Sized p.stack p.bytes d'
        → Handles times p d' d''
        → Runs d t d'' t''

  -- Slot `y` is the client's by a grant of time `g` or later.
  pub record Holds (mac : List ℕ) (y g : ℕ) (d : Server Pcb) (t : ℕ) : Type 0 where
    pub since : ℕ
    pub late : g ≤ since
    pub past : since ≤ t
    pub slot :
        get_elem? d.lease y ≡ some (record { mac = mac; expiry = new_expiry (since % 2 ^ 32) })

-- A lease is in force at every reading of the clock within the 24 hours of its grant.
in_force :
    (mac : List ℕ) (since now : ℕ)
    → since ≤ now
    → now ≤ since + default_lease_time_s * 1000
    → expired (now % 2 ^ 32) (record { mac = mac; expiry = new_expiry (since % 2 ^ 32) }) ≡ false
in_force mac since now h k =
    ap (λ n. expired (n % 2 ^ 32) (record { mac = mac; expiry = new_expiry (since % 2 ^ 32) }))
      {y = since + (now - since)} (omega arith)
    ∙ expired-new_expiry_within since (now - since) mac (omega arith)

module _ {Pcb : Type 0} (mac : List ℕ) (y g : ℕ) (named : mac ≢ no_mac) where
  -- The handler of another client's packet.
  dispatch_other :
      (kind : ℕ) (times : ℕ → ℕ) (msg other : List ℕ) (d d' : Server Pcb) (yi code t t' : ℕ)
      → mac ≢ other
      → Holds mac y g d t
      → t ≤ t'
      → t' ≤ g + default_lease_time_s * 1000
      → ((i : ℕ) → (t ≤ times i) × (times i ≤ t'))
      → dispatch kind (clock times) msg other d ≡ go (d', yi, code)
      → Holds mac y g d' t' × (yi ≢ y)
  dispatch_other kind times msg other d d' yi code t t' apart h le within at c =
      let kept =
        dispatch_keeps kind (clock times) msg other d d' yi code y
          (record { mac = mac; expiry = new_expiry (h.since % 2 ^ 32) }) c h.slot apart named
          (in_force mac h.since (times y) (omega (arith, h, at y)) (omega (arith, h, at y))) in
      (record { since = h.since; late = h.late; past = omega (arith, h); slot = kept.0 }, kept.1)

  renewed :
      (now : ℕ) (d d' : Server Pcb) (yi t t' : ℕ)
      → (t ≤ now) × (now ≤ t')
      → Holds mac y g d t
      → t ≤ t'
      → (l : Lease) × (yi < max_ip)
        × (get_elem? d.lease yi ≡ some l)
        × ((l.mac ≡ mac) ⊎ (l.mac ≡ no_mac))
        × (d' ≡ record d {
          lease = set d.lease yi (record { mac = mac; expiry = new_expiry (now % 2 ^ 32) });
        })
      → Holds mac y g d' t'
  renewed now d d' yi t t' at h le (l, small, e, owner, after) = elim (ℕ_discrete yi y) [
    | yes same ↦ record {
      since = now;
      late = omega (arith, h);
      past = at.1;
      slot =
          ap (λ s. get_elem? s.lease y) after
          ∙ ap (λ k. get_elem? (set d.lease k fresh) y) same
          ∙ get_elem?-set_self d.lease y fresh (get_elem?-lt d.lease y _ h.slot);
    }
    | no other ↦ record {
      since = h.since;
      late = h.late;
      past = omega (arith, h);
      slot =
          ap (λ s. get_elem? s.lease y) after ∙ get_elem?-set_ne d.lease yi y fresh other ∙ h.slot;
    }
  ]
    where
      fresh : Lease
      fresh = record { mac = mac; expiry = new_expiry (now % 2 ^ 32) }

  -- The handler of a packet of the client itself.
  dispatch_self :
      (kind : ℕ) (times : ℕ → ℕ) (msg : List ℕ) (d d' : Server Pcb) (yi code t t' : ℕ)
      → Holds mac y g d t
      → t ≤ t'
      → t' ≤ g + default_lease_time_s * 1000
      → ((i : ℕ) → (t ≤ times i) × (times i ≤ t'))
      → dispatch kind (clock times) msg mac d ≡ go (d', yi, code)
      → Holds mac y g d' t'
  dispatch_self kind times msg d d' yi code t t' h le within at c =
      elim (dispatch_lem kind (clock times) msg mac d d' yi code c) [
        | inl (o, _, _) ↦ record {
          since = h.since;
          late = h.late;
          past = omega (arith, h);
          slot =
              discover_stays (clock times) mac d d' yi y _ o h.slot
                (in_force mac h.since (times y) (omega (arith, h, at y)) (omega (arith, h, at y)));
        }
        | inr (r, _, _) ↦
            renewed (times 0) d d' yi t t' (at 0) h le
              (request_lem (clock times 0) msg mac d d' yi r)
      ]

  -- Whoever's packet it is, the client keeps the slot.
  Handles-Holds :
      (times : ℕ → ℕ) (p : Packet) (d d' : Server Pcb) (t t' : ℕ)
      → Sized p.stack p.bytes d
      → Holds mac y g d t
      → t ≤ t'
      → t' ≤ g + default_lease_time_s * 1000
      → ((i : ℕ) → (t ≤ times i) × (times i ≤ t'))
      → Handles times p d d'
      → Holds mac y g d' t'
  Handles-Holds times p d d' t t' sized h le within at (ignored e) = record {
    since = h.since;
    late = h.late;
    past = omega (arith, h);
    slot = h.slot;
  }
  Handles-Holds times p d d' t t' sized h le within at (answered reply e) =
      let a = answer_lem p.stack p.bytes d sized (clock times) p.tot_len d' reply e in
      elim (Bool-cases (same_bytes mac (slice p.bytes chaddr mac_len))) [
        | inl self ↦ dispatch_self a.kind times a.msg d d' a.yi a.code t t' h le within at (
            subst (λ m. dispatch a.kind (clock times) a.msg m d ≡ go (d', a.yi, a.code))
              (sym (same_bytes→eq _ _ self)) a.chosen)
        | inr other ↦
            (dispatch_other a.kind times a.msg (slice p.bytes chaddr mac_len) d d' a.yi a.code t t'
              (λ same. differ same other) h le within at a.chosen).0
      ]
    where
      differ :
          mac ≡ slice p.bytes chaddr mac_len
          → same_bytes mac (slice p.bytes chaddr mac_len) ≡ false
          → ⊥
      differ same other = cc (same_bytes_self mac, ap (same_bytes mac) same)

  -- Through any sequence of packets, within 24 hours of the grant.
  Runs-Holds :
      (d : Server Pcb) (t : ℕ) (d' : Server Pcb) (t' : ℕ)
      → Holds mac y g d t
      → Runs d t d' t'
      → t' ≤ g + default_lease_time_s * 1000
      → Holds mac y g d' t'
  Runs-Holds d t d' t' h start within = h
  Runs-Holds d t d' t' h (next {d' = e} {t' = s} r times p le at sized hd) within =
      Handles-Holds times p e d' s t' sized (Runs-Holds d t e s h r (omega arith)) le within at hd

  -- Let a client with a MAC address other than zeros hold slot `y` by a grant at time `g` or later.
  -- Then, whatever packets are handled in between, no packet of another client that is handled up
  -- to 24 hours after `g`, on a table of all its slots, is answered with the address of that slot,
  -- and after that packet the client still has the slot.
  pub Runs_exclusive :
      (d : Server Pcb) (t : ℕ) (d' d'' : Server Pcb) (t' t'' : ℕ) (times : ℕ → ℕ) (p : Packet)
      (reply : List ℕ)
      → Holds mac y g d t
      → length d'.lease ≡ max_ip
      → y < max_ip
      → Runs d t d' t'
      → t' ≤ t''
      → t'' ≤ g + default_lease_time_s * 1000
      → ((i : ℕ) → (t' ≤ times i) × (times i ≤ t''))
      → Sized p.stack p.bytes d'
      → mac ≢ slice p.bytes chaddr mac_len
      → answer (clock times) p.stack p.tot_len p.bytes d' ≡ go (d'', reply)
      → (get_elem? reply (yiaddr + 3) ≢ some (base_ip + y)) × Holds mac y g d'' t''
  Runs_exclusive d t d' d'' t' t'' times p reply h size small r le within at sized apart e =
      let a = answer_lem p.stack p.bytes d' sized (clock times) p.tot_len d'' reply e in
      let kept =
        dispatch_other a.kind times a.msg (slice p.bytes chaddr mac_len) d' d'' a.yi a.code t' t''
          apart (Runs-Holds d t d' t' h r (omega arith)) le within at a.chosen in
      let bound =
        dispatch-lt a.kind (clock times) a.msg (slice p.bytes chaddr mac_len) d' d'' a.yi a.code
          a.chosen in
      (
        λ same. kept.1 (
            let same_host : (base_ip + a.yi) % 256 ≡ base_ip + y = cc (a.is_reply.host, same) in
            omega arith),
        kept.0,
      )
