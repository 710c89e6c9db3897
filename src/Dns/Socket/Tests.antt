-- ===== src/Dns/Socket/Tests.antt =====
-- ProjectFiles/dnsserver: the whole handler over a small lwIP.
use pico_rfu.Prelude.{ℕ, ◌-◌, ◌≡◌, refl, List, [], ◌∷◌, some, go, arith}
use pico_rfu.Lwip.Send.{datagram}
use pico_rfu.Lwip.Tests.{Stack, small_lwip, small_laws, with_packet}
use pico_rfu.Dns.Server.{Server}
use pico_rfu.Dns.Socket.{process}
use pico_rfu.Dns.Socket.Packets.{process_returns, query_sends}
use pico_rfu.Dns.Tests.{address, old_stack, query, query_reply, query_answered}

abbrev world : Stack
world = with_packet query

abbrev server : Server ℕ
server = record { udp = some 1; ip = address }

-- Of a client at 192.168.4.17.
abbrev client : List ℕ
client = 192 ∷ 168 ∷ 4 ∷ 17 ∷ []

process_returns_example :
    (w' : Stack) × (process small_lwip old_stack 0 server client 5000 world ≡ go w')
    × (w'.live ≡ 1 - 1)
process_returns_example =
    process_returns small_lwip small_laws old_stack 0 server client 5000 world refl refl

query_sends_example :
    (w' : Stack) × (process small_lwip old_stack 0 server client 5000 world ≡ go w')
    × (w'.sent ≡ datagram query_reply client 5000 ∷ [])
query_sends_example =
    query_sends small_lwip small_laws old_stack query_reply 0 2 server client 5000 world
      (record world { live = 2 }) query_answered (omega arith) refl
