-- ===== src/AccessPoint/Tests.antt =====
-- ProjectFiles/main.cpp: an access point on a small lwIP, and its first client.
use pico_rfu.Prelude.{ℕ, ◌≡◌, ◌≢◌, refl, List, [], ◌∷◌, none, some, true, go, arith}
use pico_rfu.Lwip.{dhcp_server_process, dns_server_process}
use pico_rfu.Lwip.Send.{datagram}
use pico_rfu.Lwip.Tests.{Stack, small_lwip, small_laws, small_registers, bound, at_key}
use pico_rfu.Dhcp.Server.{Server as DhcpServer, dhcpoffer}
use pico_rfu.Dns.Server.{Server as DnsServer}
use pico_rfu.Dhcp.Server.Answer.{IsReply}
use pico_rfu.Dhcp.Server.Trace.{clock}
use pico_rfu.Dhcp.Socket.{process as dhcp_process, broadcast}
use pico_rfu.Dhcp.Tests.{packet, now, discover_bytes}
use pico_rfu.Dhcp.Socket.Tests.{world, discover_options, discover-IsRequest}
use pico_rfu.AccessPoint.{gateway, mask, start_servers}
use pico_rfu.AccessPoint.Started.{Sockets, Listens, dhcp_on, dns_on, start_servers_lem}
use pico_rfu.AccessPoint.Portal.{first_client_is_offered}

abbrev dns : DnsServer ℕ
dns = record { udp = none; ip = 0 ∷ 0 ∷ 0 ∷ 0 ∷ [] }

-- The stack as it is made ready, call by call.
abbrev one_block : Stack
one_block = record world { next = 2 }

abbrev dhcp_bound : Stack
dhcp_bound =
    bound (some 1) 67
      (record one_block { callbacks = at_key 1 dhcp_server_process one_block.callbacks })

abbrev two_blocks : Stack
two_blocks = record dhcp_bound { next = 3 }

abbrev both_bound : Stack
both_bound =
    bound (some 2) 53
      (record two_blocks { callbacks = at_key 2 dns_server_process two_blocks.callbacks })

apart : ◌≢◌ {A = ℕ} 1 2
apart e = cc

sockets : Sockets small_lwip world one_block dhcp_bound two_blocks both_bound 1 2
sockets = record {
  new_dhcp = refl;
  bound_dhcp = refl;
  new_dns = refl;
  bound_dns = refl;
  two = apart;
}

start_servers_lem_example :
    (start_servers small_lwip true dns world ≡ some (dhcp_on 1, dns_on 2, both_bound))
    × Listens small_lwip small_registers both_bound 1 dhcp_server_process 67
    × Listens small_lwip small_registers both_bound 2 dns_server_process 53
start_servers_lem_example =
    start_servers_lem small_lwip small_registers true dns world one_block dhcp_bound two_blocks
      both_bound 1 2 sockets

first_client_is_offered_example :
    (d' : DhcpServer ℕ) × (w' : Stack) × (offer : List ℕ) × (dhcp_process small_lwip
        (clock now)
        packet.stack
        0
        (dhcp_on 1)
        both_bound
      ≡ go (d', w'))
    × (w'.sent ≡ datagram offer broadcast 68 ∷ [])
    × IsReply discover_bytes gateway mask dhcpoffer 0 offer
first_client_is_offered_example =
    first_client_is_offered small_lwip small_laws 1 (clock now) packet.stack discover_options 0 2
      both_bound (record both_bound { live = 2 }) refl (omega arith) discover-IsRequest refl
