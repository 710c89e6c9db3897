-- ===== src/AccessPoint.antt =====
-- ProjectFiles/main.cpp, the branch of `wifi_init_task` for the access point: the two servers are
-- started one after the other, over one lwIP, with the address of the device.
mod Started
mod Portal
mod Tests
use pico_rfu.Prelude.{ℕ, List, [], ◌∷◌, Option, none, some, Bool}
use pico_rfu.Lwip.{Lwip}
use pico_rfu.Dhcp.Socket.{init as dhcp_server_init}
use pico_rfu.Dns.Socket.{init as dns_server_init}
use pico_rfu.Dhcp.Server.{Server as DhcpServer}
use pico_rfu.Dns.Server.{Server as DnsServer}

-- `gw`
abbrev pub gateway : List ℕ
gateway = 192 ∷ 168 ∷ 4 ∷ 1 ∷ []

abbrev pub mask : List ℕ
mask = 255 ∷ 255 ∷ 255 ∷ 0 ∷ []

-- The variables `dhcp` and `dns` then. There is no result where a failing `assert` ends the program.
unfoldable pub start_servers :
    (lwip : Lwip)
    → Bool
    → DnsServer lwip.Pcb
    → lwip.World
    → Option (DhcpServer lwip.Pcb × DnsServer lwip.Pcb × lwip.World)
start_servers lwip aborts dns w =
    let (dhcp, w₁) = dhcp_server_init lwip gateway mask w in
    elim (dns_server_init lwip aborts gateway dns w₁) [
      | none ↦ none
      | some (dns', w₂) ↦ some (dhcp, dns', w₂)
    ]
