-- ===== src/Lib.antt =====
-- pico_rfu, a DMX remote focus unit on a Raspberry Pi Pico W: its servers, its storage, its DMX frame
-- buffer and its command language.
--
-- The device keeps its configuration in emulated EEPROM, starts an access point with a DHCP and a DNS
-- server or joins a network, serves a web interface, and turns key strings into DMX frames. `main`
-- loads the configuration before anything else runs (Config), from the EEPROM object (Eeprom);
-- `wifi_init_task` decides between access point and station (Config.Wifi) and starts the two servers
-- (Dhcp, Dns) and the tasks; the web server (Web) has its own state; `processKeys` (Keys) reads the
-- device's frame (Dmx) and gives a new one to the DMX task, which writes it to the device.
--
-- Files and sources:
--   Prelude: shared names, lists, memory accesses and how a C function runs (`Flow`): it goes on,
--     jumps to its label `ignore_request`, accesses memory outside an object, or uses up the rounds
--     that the model gives a loop (`endless`).
--   Lwip: the interface of lwIP's udp and pbuf calls that both servers use, and `Lawful`, what
--     they rely on: which calls allocate and free a packet, and which hand a datagram over;
--     `Registers`: which handler a socket calls, and its port. Lwip/Send: the sending of a buffer,
--     `dhcp_socket_sendto`, which `dns_socket_sendto` is without an interface.
--   Dhcp: ProjectFiles/dhcpserver/dhcpserver.c and .h. Options: `opt_find` and the writers. Lease: the
--     lease table, its clock arithmetic and the search of DHCPDISCOVER. Server: `dhcp_server_process`
--     in the pieces that its labels and cases make. `Dhcp.Server.answer` is the handler from the
--     packet to the bytes sent; Server/Trace: sequences of packets; Server/Handshake and
--     Server/Exchange: which packets are answered. Socket: the handler with its lwIP calls, and
--     `dhcp_server_init` and `dhcp_server_deinit`.
--   Dns: ProjectFiles/dnsserver/dnsserver.c and .h. `Dns.Server.answer` is `dns_server_process` from
--     the packet to the bytes sent. Socket: the handler with its lwIP calls, and `dns_server_init` and
--     `dns_server_deinit`.
--   Eeprom: EEPROM/src/EEPROM.cpp and EEPROM/include/EEPROM.h, `EEPROMClass`, over the interface
--     `Flash` of the SDK's `flash_range_erase` and `flash_range_program`. Refine: the store of bytes
--     that the class stands for.
--   Config: ProjectFiles/main.cpp: `rfu_config_t`, `calcCheckSum`, `loadConfig`, `write_config_task`,
--     `wifi_init_task`, and `main` up to the scheduler.
--   Dmx: DMX/src/piodmx.cpp and DMX/include/piodmx.h, the class `DMX`.
--   Keys: ProjectFiles/main.cpp, `processKeys`. Print: commands written out as key strings.
--   AccessPoint: ProjectFiles/main.cpp, the start of the two servers in `wifi_init_task`, and their
--     first client.
--   Tasks: ProjectFiles/main.cpp, `dmx_task`, `dmx_loop` and `dmxQueue`, as steps that interleave.
--   Web: ProjectFiles/include/net.h. Users, Events, Router: the web server. Sntp: the handler of the
--     SNTP connection. Packed: the table of packed files and its lookup.
--   Files: ProjectFiles/fsdata_custom.c, the bytes of the web site, ten to a row as in the source, and
--     in Image the records that chain its files. The build files do not name that source.
--
-- State is passed explicitly: a handler takes the state and returns it. A byte is a number below 256,
-- wrap-around is written out, a pointer into a buffer is its offset, and the bytes that a local array
-- holds before it is written are a parameter. The tasks are the exception: their state changes by
-- steps, `Tasks.TaskStep` for `dmx_task` and `Tasks.OtherStep` for what runs beside it, and
-- `Tasks.Reach` is what these steps reach. FreeRTOSConfig.h gives two cores; `one_core` says whether
-- the tasks share one. A write of one byte to the device is one step, and so are a test of `busy`, a
-- send, and each call on the queue.
--
-- Bounds and fuel: a loop whose rounds are used up gives `endless`, a result of its own. `opt_find`
-- moves at least two bytes in each round and stops at 308, so that 155 tests of its condition are
-- enough; the label loop of the DNS server moves at least one byte in each round, so that 300 tests
-- are enough for a message of at most 300 bytes behind a header of 12; `print_events` takes one event
-- in each round. All other loops are recursion on a list or on a number of rounds that the source
-- fixes.
--
-- Not modelled: what happens inside lwIP, mongoose, FreeRTOS, the Pico SDK and the Pico-DMX library,
-- whose results are parameters; `mongoose_task`, the timer of SNTP and the TLS options, which only call
-- mongoose; the passing of time between steps of the tasks; the contents of the packed files, which
-- are generated; the browser's pages and scripts; configuration headers; debug output.
pub mod Prelude
pub mod Lwip
pub mod Dhcp
pub mod Dns
pub mod Eeprom
pub mod Config
pub mod Dmx
pub mod Keys
pub mod Tasks
pub mod AccessPoint
pub mod Web
pub mod Files
