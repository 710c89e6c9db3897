-- ===== src/Dhcp/Server.antt =====
-- ProjectFiles/dhcpserver/dhcpserver.c: `dhcp_server_process` up to the call that sends the reply.
-- `dhcp_msg_t` is its 548 bytes: op at 0, yiaddr at 16, chaddr at 28, options at 236.
pub mod Reply
pub mod Grant
pub mod Message
pub mod Answer
pub mod Live
pub mod Handshake
pub mod Exchange
pub mod Trace
use pico_rfu.Prelude.{ℕ, ◌+◌, ◌-◌, ◌*◌, ◌%◌, List, [], ◌∷◌, ◌++◌, Bool, Option, none, some, not}
use pico_rfu.Prelude.{Flow, go, ignore_request, fault, ◌>>=◌, ◌>>◌, require, or_ignore, or_fault}
use pico_rfu.Prelude.{read, read_n, write, slice, length, take, drop, set, get_elem?, same_bytes}
use pico_rfu.Prelude.{leb, ltb, ◌==◌, if◌then◌else◌, splice}
use pico_rfu.Dhcp.Options.{opt_find, opt_write_n, opt_write_u8, opt_write_u32, opt_subnet_mask}
use pico_rfu.Dhcp.Options.{opt_router, opt_dns, opt_requested_ip, opt_ip_lease_time, opt_msg_type}
use pico_rfu.Dhcp.Options.{opt_server_id, opt_end}
use pico_rfu.Dhcp.Lease.{Lease, base_ip, max_ip, mac_len, no_mac, new_expiry, scan}
use pico_rfu.Dhcp.Lease.{default_lease_time_s}

abbrev pub dhcpdiscover : ℕ
dhcpdiscover = 1

abbrev pub dhcpoffer : ℕ
dhcpoffer = 2

abbrev pub dhcprequest : ℕ
dhcprequest = 3

abbrev pub dhcpack : ℕ
dhcpack = 5

-- `sizeof(dhcp_msg_t)`
abbrev pub msg_size : ℕ
msg_size = 548

abbrev pub yiaddr : ℕ
yiaddr = 16

abbrev pub chaddr : ℕ
chaddr = 28

-- Behind the magic cookie.
abbrev pub options : ℕ
options = 236 + 4

abbrev pub dhcp_min_size : ℕ
dhcp_min_size = 240 + 3

-- `dhcp_server_t`: the addresses as the four bytes that they have in memory, and lwIP's `udp_pcb`.
pub record Server (Pcb : Type 0) : Type 0 where
  pub ip : List ℕ
  pub nm : List ℕ
  pub lease : List Lease
  pub udp : Option Pcb

-- Who may have the slot: the client that has it, or anyone if it is free.
unfoldable pub claim : List ℕ → Lease → Flow Lease
claim mac l =
    if same_bytes l.mac mac
    then go l
    else if same_bytes l.mac no_mac
    then go (record l { mac = mac })
    else ignore_request

module _ {Pcb : Type 0} where
  -- `case DHCPDISCOVER`: the server and the number of the address.
  unfoldable pub discover : (ℕ → ℕ) → List ℕ → Server Pcb → Flow (Server Pcb × ℕ)
  discover ticks mac d =
      let (yi, ls) = scan ticks mac 0 max_ip d.lease in
      do require (not (yi == max_ip)); go (record d { lease = ls }, yi)

  -- `case DHCPREQUEST` up to the number of the address: that of the option, if it is one of ours.
  unfoldable pub requested : List ℕ → Server Pcb → Flow ℕ
  requested msg d = do
    found ← opt_find msg options opt_requested_ip
    o ← or_ignore found
    subnet ← read_n msg (o + 2) 3
    require (same_bytes subnet (take 3 d.ip))
    host ← read msg (o + 5)
    let yi = (host + 256 - base_ip) % 256
    require (ltb yi max_ip)
    go yi

  -- The rest of it, at the time `ticks`: the slot is the client's from now on.
  unfoldable pub grant : ℕ → List ℕ → Server Pcb → ℕ → Flow (Server Pcb × ℕ)
  grant ticks mac d yi = do
    l ← or_fault (get_elem? d.lease yi)
    l' ← claim mac l
    go (record d { lease = set d.lease yi (record l' { expiry = new_expiry ticks }) }, yi)

  unfoldable pub request : ℕ → List ℕ → List ℕ → Server Pcb → Flow (Server Pcb × ℕ)
  request ticks msg mac d = do yi ← requested msg d; grant ticks mac d yi

  -- The `switch`: the server, the number of the address and the type of the reply.
  unfoldable pub dispatch : ℕ → (ℕ → ℕ) → List ℕ → List ℕ → Server Pcb → Flow (Server Pcb × ℕ × ℕ)
  dispatch kind ticks msg mac d =
      if kind == dhcpdiscover
      then (do (d', yi) ← discover ticks mac d; go (d', yi, dhcpoffer))
      else if kind == dhcprequest
      then (do (d', yi) ← request (ticks 0) msg mac d; go (d', yi, dhcpack))
      else ignore_request

  -- The options of a reply, from the message type on; returns the message and the end.
  unfoldable pub write_options : ℕ → List ℕ → Server Pcb → Flow (List ℕ × ℕ)
  write_options code msg d = do
    (m₁, o₁) ← opt_write_u8 msg options opt_msg_type code
    (m₂, o₂) ← opt_write_n m₁ o₁ opt_server_id 4 d.ip
    (m₃, o₃) ← opt_write_n m₂ o₂ opt_subnet_mask 4 d.nm
    (m₄, o₄) ← opt_write_n m₃ o₃ opt_router 4 d.ip
    (m₅, o₅) ← opt_write_n m₄ o₄ opt_dns 4 d.ip
    (m₆, o₆) ← opt_write_u32 m₅ o₅ opt_ip_lease_time default_lease_time_s
    m₇ ← write m₆ o₆ (opt_end ∷ [])
    go (m₇, o₆ + 1)

  -- The bytes to send: the message with the client's address, up to the end of its options.
  unfoldable pub finish : ℕ → ℕ → List ℕ → Server Pcb → Flow (List ℕ)
  unfolding splice
  finish code yi msg d = do
    msg' ← write msg (yiaddr + 3) (((base_ip + yi) % 256) ∷ [])
    (reply, end) ← write_options code msg' d
    go (take end reply)

  -- From the `switch` on.
  unfoldable pub respond : ℕ → (ℕ → ℕ) → List ℕ → Server Pcb → Flow (Server Pcb × List ℕ)
  respond kind ticks msg d = do
    (d', yi, code) ← dispatch kind ticks msg (slice msg chaddr mac_len) d
    reply ← finish code yi msg d'
    go (d', reply)

  -- The message in the local variable, once the packet's bytes are copied over what the stack
  -- held, and the handler has put in its opcode and address.
  unfoldable pub receive : List ℕ → List ℕ → Server Pcb → Flow (List ℕ)
  unfolding splice
  receive stack bytes d = do
    require (leb dhcp_min_size (length bytes))
    m₁ ← write (bytes ++ drop (length bytes) stack) 0 (dhcpoffer ∷ [])
    write m₁ yiaddr d.ip

  -- The handler from the packet of `tot_len` bytes, of which `bytes` were copied, to the reply:
  -- the server afterwards and the bytes to send.
  unfoldable pub answer : (ℕ → ℕ) → List ℕ → ℕ → List ℕ → Server Pcb → Flow (Server Pcb × List ℕ)
  answer ticks stack tot_len bytes d = do
    require (leb dhcp_min_size tot_len)
    msg ← receive stack bytes d
    found ← opt_find msg options opt_msg_type
    msgtype ← or_ignore found
    kind ← read msg (msgtype + 2)
    respond kind ticks msg d
