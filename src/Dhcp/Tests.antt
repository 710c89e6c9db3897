-- ===== src/Dhcp/Tests.antt =====
-- ProjectFiles/dhcpserver on concrete packets and tables.
use pico_rfu.Prelude.{endless, ℕ, ◌+◌, ◌%◌, ◌^◌, ◌≡◌, ◌≢◌, refl, none, some, List, [], ◌∷◌}
use pico_rfu.Prelude.{◌++◌, arith, Flow, go, ignore_request, fault}
use pico_rfu.Prelude.{get_elem?, drop, replicate}
use pico_rfu.Dhcp.Lease.{Lease, base_ip, max_ip, no_mac, new_expiry, scan}
use pico_rfu.Dhcp.Lease.Scan.{choice, scan-eq-choice}
use pico_rfu.Dhcp.Options.{opt_end, opt_msg_type, opt_find, opt_limit}
use pico_rfu.Dhcp.Options.{find_from}
use pico_rfu.Dhcp.Options.Find.{
  find_from_enough, encode, Finds, opt_find-encode, opt_find_over_read,
}
use pico_rfu.Dhcp.Server.{
  Server, answer, write_options, dispatch, request, chaddr, yiaddr, options, dhcpack, dhcpdiscover,
}
use pico_rfu.Dhcp.Server.Message.{Sized}
use pico_rfu.Dhcp.Server.Answer.{Answered, answer_lem}
use pico_rfu.Dhcp.Server.Trace.{Packet, clock, Holds, start, Runs_exclusive}

abbrev pub mac : List ℕ
mac = 1 ∷ 2 ∷ 3 ∷ 4 ∷ 5 ∷ 6 ∷ []

abbrev pub other_mac : List ℕ
other_mac = 9 ∷ 9 ∷ 9 ∷ 9 ∷ 9 ∷ 9 ∷ []

abbrev pub free_slot : Lease
free_slot = record { mac = no_mac; expiry = 0 }

-- Slot 0 was granted at 1000 ms.
abbrev pub granted : Lease
granted = record { mac = mac; expiry = new_expiry (1000 % 2 ^ 32) }

abbrev pub table : List Lease
table = granted ∷ replicate 7 free_slot

abbrev pub server : Server Unit
server = record {
  ip = 192 ∷ 168 ∷ 4 ∷ 1 ∷ [];
  nm = 255 ∷ 255 ∷ 255 ∷ 0 ∷ [];
  lease = table;
  udp = none;
}

-- DHCPDISCOVER of the other client.
abbrev pub discover_bytes : List ℕ
discover_bytes =
    1
    ∷ (replicate 27 0
        ++ (other_mac ++ (replicate 202 0 ++ (99 ∷ 130 ∷ 83 ∷ 99 ∷ 53 ∷ 1 ∷ 1 ∷ 255 ∷ []))))

abbrev pub packet : Packet
packet = record { tot_len = 244; bytes = discover_bytes; stack = replicate 548 0 }

abbrev pub now : ℕ → ℕ
now i = 2000

abbrev pub or_default : Flow (Server Unit × List ℕ) → Server Unit × List ℕ
or_default (go x) = x
or_default ignore_request = (server, [])
or_default fault = (server, [])
or_default endless = (server, [])

unfoldable pub outcome : Server Unit × List ℕ
unfolding answer
outcome = or_default (answer (clock now) packet.stack packet.tot_len packet.bytes server)

-- The free slot 1, which does not count as expired 2000 ms after the start, is offered.
offered : get_elem? outcome.1 (yiaddr + 3) ≡ some 17
unfolding outcome pico_rfu.Dhcp.Server.receive opt_find pico_rfu.Dhcp.Server.respond dispatch
    pico_rfu.Dhcp.Server.discover scan new_expiry pico_rfu.Dhcp.Server.finish write_options
    pico_rfu.Dhcp.Options.opt_write_u8 pico_rfu.Dhcp.Options.opt_write_n
    pico_rfu.Dhcp.Options.opt_write_u32
offered = refl

pub outcome_is :
    answer (clock now) packet.stack packet.tot_len packet.bytes server ≡ go (outcome.0, outcome.1)
unfolding answer pico_rfu.Dhcp.Server.receive opt_find pico_rfu.Dhcp.Server.respond dispatch
    pico_rfu.Dhcp.Server.discover scan new_expiry pico_rfu.Dhcp.Server.finish write_options
    pico_rfu.Dhcp.Options.opt_write_u8 pico_rfu.Dhcp.Options.opt_write_n
    pico_rfu.Dhcp.Options.opt_write_u32 outcome
outcome_is = refl

holds : Holds mac 0 1000 server 2000
holds = record { since = 1000; late = omega arith; past = omega arith; slot = refl }

pub sized : Sized packet.stack packet.bytes server
sized = record { stack_size = refl; copied = omega arith; ip_size = refl; nm_size = refl }

Runs_exclusive_example :
    (get_elem? outcome.1 (yiaddr + 3) ≢ some (base_ip + 0)) × Holds mac 0 1000 outcome.0 3000
Runs_exclusive_example =
    Runs_exclusive mac 0 1000 (λ e. cc (e)) server 2000 server outcome.0 2000 3000 now packet
      outcome.1 holds refl (omega arith) start (omega arith) (omega arith)
      (λ i. (omega arith, omega arith)) sized (λ e. cc (e)) outcome_is

answer_lem_example : Answered (clock now) discover_bytes server outcome.0 outcome.1
answer_lem_example =
    answer_lem packet.stack discover_bytes server sized (clock now) 244 outcome.0 outcome.1
      outcome_is

opt_find-encode_example :
    Finds
      (drop 236 discover_bytes)
      opt_msg_type
      (opt_find (drop 236 discover_bytes) 4 opt_msg_type)
      (some (1 ∷ []))
opt_find-encode_example =
    opt_find-encode (drop 236 discover_bytes) 4 opt_msg_type ((opt_msg_type, 1 ∷ []) ∷ []) [] refl
      (λ e. cc (e), tt) (omega arith) (λ e. cc (e))

-- An option of 303 bytes of payload in sum, and then one byte.
abbrev unended : List ℕ
unended = encode ((0, replicate 250 0) ∷ (0, replicate 53 0) ∷ []) ++ (7 ∷ [])

opt_find_over_read_example : opt_find unended 0 opt_msg_type ≡ fault
opt_find_over_read_example =
    opt_find_over_read unended 0 opt_msg_type ((0, replicate 250 0) ∷ (0, replicate 53 0) ∷ []) 7
      refl (λ e. cc (e), (λ e. cc (e), tt)) refl refl (λ e. cc (e)) (λ e. cc (e))

scan-eq-choice_example : (scan now other_mac 0 max_ip table).0 ≡ choice now other_mac 0 max_ip table
scan-eq-choice_example = scan-eq-choice now other_mac 0 max_ip table (omega arith)

find_from_enough_example :
    (find_from 155 unended 0 opt_msg_type 0 ≢ endless)
    × (find_from 155 unended 0 opt_msg_type 0 ≡ find_from 400 unended 0 opt_msg_type 0)
find_from_enough_example =
    find_from_enough 155 400 unended 0 opt_msg_type 0 (omega arith) (omega arith) (omega arith)
      (omega arith)
