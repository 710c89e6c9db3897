-- ===== src/Dhcp/Server/Live.antt =====
-- Which packets `dhcp_server_process` answers: a well-formed DHCPDISCOVER while there is an address,
-- and a well-formed DHCPREQUEST for an address that is the client's or free.
use pico_rfu.Prelude.{ℕ, ◌+◌, ◌≤◌, ◌<◌, ◌≡◌, ◌≢◌, refl, ap, subst, ◌∙◌}
use pico_rfu.Prelude.{some, List, [], ◌∷◌, ◌++◌, arith, go, append_assoc}
use pico_rfu.Prelude.{length, drop, get_elem?, leb, require, slice}
use pico_rfu.Prelude.{get_elem?-of_drop, drop-of_drop}
use pico_rfu.Dhcp.Options.{opt_find, opt_end, opt_msg_type, opt_requested_ip, opt_limit}
use pico_rfu.Dhcp.Options.Find.{DhcpOption, encode, payload?, NoEnd, Finds, opt_find-encode}
use pico_rfu.Dhcp.Lease.{mac_len}
use pico_rfu.Dhcp.Server.{Server, receive, dispatch, answer}
use pico_rfu.Dhcp.Server.{chaddr, finish, respond, options, dhcp_min_size}
use pico_rfu.Dhcp.Server.Grant.{dispatch_addresses}
use pico_rfu.Dhcp.Server.Message.{Sized, received, same_client, drop-received, receive-eq-received}
use pico_rfu.Dhcp.Server.Answer.{IsReply, replied, replied-IsReply, finish_lem}

-- A packet with the options `os`, of which `opt_find` sees all, and a message type.
pub record IsRequest (bytes : List ℕ) (kind : ℕ) (os : List DhcpOption) : Type 0 where
  pub long : dhcp_min_size ≤ length bytes
  pub rest : List ℕ
  pub laid_out : drop options bytes ≡ encode os ++ (opt_end ∷ rest)
  pub no_end : NoEnd os
  pub short : length (encode os) < opt_limit
  pub typed : payload? opt_msg_type os ≡ some (kind ∷ [])

long_enough : (n : ℕ) → dhcp_min_size ≤ n → require (leb dhcp_min_size n) ≡ go tt
long_enough n h = ground arith

msg_type-ne : opt_msg_type ≢ opt_end
msg_type-ne e = cc

pub requested_ip-ne : opt_requested_ip ≢ opt_end
requested_ip-ne e = cc

-- The handler, once each of its steps goes on.
answer_steps :
    {Pcb : Type 0} (ticks : ℕ → ℕ) (stack bytes : List ℕ) (d : Server Pcb) (tot_len : ℕ)
    (m : List ℕ) (o kind : ℕ)
    → dhcp_min_size ≤ tot_len
    → receive stack bytes d ≡ go m
    → opt_find m options opt_msg_type ≡ go (some o)
    → get_elem? m (o + 2) ≡ some kind
    → answer ticks stack tot_len bytes d ≡ respond kind ticks m d
unfolding answer
answer_steps ticks stack bytes d tot_len m o kind h r f k = rw (long_enough tot_len h, r, f, k)

respond_steps :
    {Pcb : Type 0} (kind : ℕ) (ticks : ℕ → ℕ) (m mac : List ℕ) (d d' : Server Pcb) (yi code : ℕ)
    (reply : List ℕ)
    → slice m chaddr mac_len ≡ mac
    → dispatch kind ticks m mac d ≡ go (d', yi, code)
    → finish code yi m d' ≡ go reply
    → respond kind ticks m d ≡ go (d', reply)
unfolding respond
respond_steps kind ticks m mac d d' yi code reply s c f = rw (s, c, f)

module _ {Pcb : Type 0} (stack bytes : List ℕ) (d : Server Pcb) (sized : Sized stack bytes d)
    (kind : ℕ) (os : List DhcpOption) (r : IsRequest bytes kind os) where
  abbrev pub msg : List ℕ
  msg = received stack bytes d.ip

  options_here : drop options msg ≡ encode os ++ (opt_end ∷ (r.rest ++ drop (length bytes) stack))
  options_here =
      drop-received stack bytes d sized r.long
      ∙ ap (λ t. t ++ drop (length bytes) stack) r.laid_out
      ∙ append_assoc (encode os) (opt_end ∷ r.rest) (drop (length bytes) stack)

  -- Where an option of the packet is found, with what stands there.
  pub found :
      (cmd : ℕ) (payload : List ℕ)
      → cmd ≢ opt_end
      → payload? cmd os ≡ some payload
      → (o : ℕ) × (behind : List ℕ) × (opt_find msg options cmd ≡ go (some o))
        × (drop (o + 2) msg ≡ payload ++ behind)
  found cmd payload ne has =
      let (o, behind, e, f) =
        subst (Finds msg cmd (opt_find msg options cmd)) has
          (opt_find-encode msg options cmd os _ options_here r.no_end r.short ne) in
      (
        o,
        behind,
        e,
        drop-of_drop msg o 2 (o + 2) (cmd ∷ length payload ∷ []) (payload ++ behind) f refl refl,
      )

  -- The handler gets to the `switch`, with the packet's message type.
  answer-eq-respond :
      (ticks : ℕ → ℕ) (tot_len : ℕ)
      → dhcp_min_size ≤ tot_len
      → answer ticks stack tot_len bytes d ≡ respond kind ticks msg d
  answer-eq-respond ticks tot_len h =
      let (o, behind, e, f) = found opt_msg_type (kind ∷ []) msg_type-ne r.typed in
      answer_steps ticks stack bytes d tot_len msg o kind h
        (receive-eq-received stack bytes d sized r.long) e
        (get_elem?-of_drop msg (o + 2) kind behind f)

  respond_go :
      (ticks : ℕ → ℕ) (d' : Server Pcb) (yi code : ℕ)
      → dispatch kind ticks msg (slice bytes chaddr mac_len) d ≡ go (d', yi, code)
      → respond kind ticks msg d ≡ go (d', replied stack bytes d sized code yi)
  respond_go ticks d' yi code c =
      let own = dispatch_addresses kind ticks msg (slice bytes chaddr mac_len) d d' yi code c in
      respond_steps kind ticks msg (slice bytes chaddr mac_len) d d' yi code _
        (same_client stack bytes d sized r.long) c
        (finish_lem stack bytes d sized code yi d' own.0 own.1)

  -- The packet is answered as its case chose.
  pub answer_go :
      (ticks : ℕ → ℕ) (tot_len : ℕ) (d' : Server Pcb) (yi code : ℕ)
      → dhcp_min_size ≤ tot_len
      → dispatch kind ticks msg (slice bytes chaddr mac_len) d ≡ go (d', yi, code)
      → (reply : List ℕ) × (answer ticks stack tot_len bytes d ≡ go (d', reply))
        × IsReply bytes d.ip d.nm code yi reply
  answer_go ticks tot_len d' yi code h c = (
    replied stack bytes d sized code yi,
    answer-eq-respond ticks tot_len h ∙ respond_go ticks d' yi code c,
    replied-IsReply stack bytes d sized code yi r.long,
  )
