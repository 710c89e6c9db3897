-- ===== src/Dhcp/Socket/Tests.antt =====
-- ProjectFiles/dhcpserver: a client's first packets, and the whole handler over a small lwIP.
use pico_rfu.Prelude.{
  ℕ, ◌-◌, ◌≡◌, ◌≢◌, refl, sym, ◌∙◌, List, [], ◌∷◌, ◌++◌, some, replicate, Flow, go, arith, slice,
  get_elem?, length,
}
use pico_rfu.Lwip.Send.{datagram}
use pico_rfu.Lwip.Tests.{Stack, small_lwip, small_laws, with_packet}
use pico_rfu.Dhcp.Lease.{max_ip, mac_len, scan}
use pico_rfu.Dhcp.Lease.Scan.{choice}
use pico_rfu.Dhcp.Options.Find.{DhcpOption, payload?}
use pico_rfu.Dhcp.Options.{opt_requested_ip}
use pico_rfu.Dhcp.Server.{
  Server, answer, yiaddr, chaddr, dhcpdiscover, dhcprequest, dhcpoffer, dhcpack,
}
use pico_rfu.Dhcp.Server.Message.{Sized}
use pico_rfu.Dhcp.Server.Answer.{IsReply}
use pico_rfu.Dhcp.Server.Live.{IsRequest}
use pico_rfu.Dhcp.Server.Handshake.{discover_answered, held_by}
use pico_rfu.Dhcp.Server.Exchange.{offer_is_granted}
use pico_rfu.Dhcp.Server.Trace.{clock}
use pico_rfu.Dhcp.Socket.{init, process, broadcast, port_dhcp_client}
use pico_rfu.Dhcp.Socket.Packets.{process_frees, process_sends}
use pico_rfu.Dhcp.Tests.{
  other_mac, table, server, discover_bytes, packet, now, outcome, outcome_is, sized,
}

abbrev pub discover_options : List DhcpOption
discover_options = (53, 1 ∷ []) ∷ []

pub discover-IsRequest : IsRequest discover_bytes dhcpdiscover discover_options
discover-IsRequest = record {
  long = omega arith;
  rest = [];
  laid_out = refl;
  no_end = (λ e. cc (e), tt);
  short = omega arith;
  typed = refl;
}

second_slot : choice (clock now) other_mac 0 max_ip table ≡ 1
unfolding pico_rfu.Dhcp.Lease.expired pico_rfu.Dhcp.Lease.new_expiry
second_slot = refl

one_ne : ◌≢◌ {A = ℕ} 1 max_ip
one_ne e = cc

discover_answered_example :
    (reply : List ℕ) × (answer (clock now) packet.stack 244 discover_bytes server
      ≡ go (record server { lease = (scan (clock now) other_mac 0 max_ip table).1 }, reply))
    × IsReply discover_bytes server.ip server.nm dhcpoffer
        (choice (clock now) other_mac 0 max_ip table)
        reply
discover_answered_example =
    discover_answered packet.stack discover_bytes server sized discover_options (clock now) 244
      (omega arith) discover-IsRequest (omega arith) (λ e. one_ne (sym second_slot ∙ e))

-- The client asks for the address that it was offered.
abbrev request_bytes : List ℕ
request_bytes =
    1
    ∷ (replicate 27 0
        ++ (other_mac
            ++ (replicate 202 0
                ++ (99 ∷ 130 ∷ 83 ∷ 99 ∷ 53 ∷ 1 ∷ 3 ∷ 50 ∷ 4 ∷ 192 ∷ 168 ∷ 4 ∷ 17 ∷ 255 ∷ []))))

abbrev request_options : List DhcpOption
request_options = (53, 3 ∷ []) ∷ (50, 192 ∷ 168 ∷ 4 ∷ 17 ∷ []) ∷ []

asking-IsRequest : IsRequest request_bytes dhcprequest request_options
asking-IsRequest = record {
  long = omega arith;
  rest = [];
  laid_out = refl;
  no_end = (λ e. cc (e), (λ e. cc (e), tt));
  short = omega arith;
  typed = refl;
}

sized_after : Sized packet.stack request_bytes outcome.0
unfolding outcome answer pico_rfu.Dhcp.Server.receive pico_rfu.Dhcp.Options.opt_find
    pico_rfu.Dhcp.Server.respond pico_rfu.Dhcp.Server.dispatch pico_rfu.Dhcp.Server.discover scan
    pico_rfu.Dhcp.Server.finish pico_rfu.Dhcp.Server.write_options
    pico_rfu.Dhcp.Options.opt_write_u8 pico_rfu.Dhcp.Options.opt_write_n
    pico_rfu.Dhcp.Options.opt_write_u32 pico_rfu.Dhcp.Lease.new_expiry
sized_after = record { stack_size = refl; copied = omega arith; ip_size = refl; nm_size = refl }

asked : payload? opt_requested_ip request_options ≡ some (slice outcome.1 yiaddr 4)
unfolding outcome answer pico_rfu.Dhcp.Server.receive pico_rfu.Dhcp.Options.opt_find
    pico_rfu.Dhcp.Server.respond pico_rfu.Dhcp.Server.dispatch pico_rfu.Dhcp.Server.discover scan
    pico_rfu.Dhcp.Server.finish pico_rfu.Dhcp.Server.write_options
    pico_rfu.Dhcp.Options.opt_write_u8 pico_rfu.Dhcp.Options.opt_write_n
    pico_rfu.Dhcp.Options.opt_write_u32 pico_rfu.Dhcp.Lease.new_expiry
asked = refl

offer_is_granted_example :
    (d₂ : Server Unit) × (reply' : List ℕ) × (answer
        (clock now)
        packet.stack
        250
        request_bytes
        outcome.0
      ≡ go (d₂, reply'))
    × IsReply request_bytes server.ip server.nm dhcpack
        (choice (clock now) other_mac 0 max_ip table)
        reply'
    × (slice reply' yiaddr 4 ≡ slice outcome.1 yiaddr 4)
    × (get_elem? d₂.lease (choice (clock now) other_mac 0 max_ip table)
        ≡ some (held_by other_mac (clock now 0)))
offer_is_granted_example =
    offer_is_granted packet.stack discover_bytes packet.stack request_bytes server outcome.0
      discover_options request_options (clock now) (clock now) 244 250 outcome.1 sized (omega arith)
      discover-IsRequest refl (λ e. one_ne (sym second_slot ∙ e)) outcome_is sized_after
      (omega arith) asking-IsRequest refl asked

abbrev pub world : Stack
world = with_packet discover_bytes

abbrev pub fresh : Server ℕ
fresh = (init small_lwip server.ip server.nm world).0

pub fresh-Sized : Sized packet.stack discover_bytes fresh
unfolding init
fresh-Sized = record { stack_size = refl; copied = omega arith; ip_size = refl; nm_size = refl }

abbrev or_fresh : Flow (Server ℕ × List ℕ) → Server ℕ × List ℕ
or_fresh (go x) = x
or_fresh _ = (fresh, [])

abbrev first_offer : Server ℕ × List ℕ
first_offer = or_fresh (answer (clock now) packet.stack 244 discover_bytes fresh)

first_offer_is :
    answer (clock now) packet.stack 244 discover_bytes fresh ≡ go (first_offer.0, first_offer.1)
unfolding answer pico_rfu.Dhcp.Server.receive init pico_rfu.Dhcp.Options.opt_find
    pico_rfu.Dhcp.Server.respond pico_rfu.Dhcp.Server.dispatch pico_rfu.Dhcp.Server.discover scan
    pico_rfu.Dhcp.Server.finish pico_rfu.Dhcp.Server.write_options
    pico_rfu.Dhcp.Options.opt_write_u8 pico_rfu.Dhcp.Options.opt_write_n
    pico_rfu.Dhcp.Options.opt_write_u32
first_offer_is = refl

short_offer : length first_offer.1 ≡ 274
unfolding answer pico_rfu.Dhcp.Server.receive init pico_rfu.Dhcp.Options.opt_find
    pico_rfu.Dhcp.Server.respond pico_rfu.Dhcp.Server.dispatch pico_rfu.Dhcp.Server.discover scan
    pico_rfu.Dhcp.Server.finish pico_rfu.Dhcp.Server.write_options
    pico_rfu.Dhcp.Options.opt_write_u8 pico_rfu.Dhcp.Options.opt_write_n
    pico_rfu.Dhcp.Options.opt_write_u32
short_offer = refl

process_sends_example :
    (w' : Stack) × (process small_lwip (clock now) packet.stack 0 fresh world
      ≡ go (first_offer.0, w'))
    × (w'.sent ≡ datagram first_offer.1 broadcast port_dhcp_client ∷ [])
process_sends_example =
    process_sends small_lwip small_laws (clock now) packet.stack first_offer.1 0 2 fresh
      first_offer.0 world (record world { live = 2 }) first_offer_is (omega (arith, short_offer))
      refl

abbrev or_world : Flow (Server ℕ × Stack) → Server ℕ × Stack
or_world (go x) = x
or_world _ = (fresh, world)

abbrev handled : Server ℕ × Stack
handled = or_world (process small_lwip (clock now) packet.stack 0 fresh world)

handled_is : process small_lwip (clock now) packet.stack 0 fresh world ≡ go (handled.0, handled.1)
unfolding process answer pico_rfu.Dhcp.Server.receive init pico_rfu.Dhcp.Options.opt_find
    pico_rfu.Dhcp.Server.respond pico_rfu.Dhcp.Server.dispatch pico_rfu.Dhcp.Server.discover scan
    pico_rfu.Dhcp.Server.finish pico_rfu.Dhcp.Server.write_options
    pico_rfu.Dhcp.Options.opt_write_u8 pico_rfu.Dhcp.Options.opt_write_n
    pico_rfu.Dhcp.Options.opt_write_u32
handled_is = refl

process_frees_example : handled.1.live ≡ 1 - 1
process_frees_example =
    process_frees small_lwip small_laws (clock now) packet.stack 0 fresh handled.0 world handled.1
      handled_is
