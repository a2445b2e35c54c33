-- ===== src/Lib.antt =====
-- Molewire is a firmware that puts a USB host (and one Wi-Fi client) behind a WireGuard tunnel. This
-- library models its packet and protocol logic; paths are from the repository's root.
--
-- The parts, and how they interact. A client's packets reach lwIP, whose route hook in src/wg.c sends
-- them into the tunnel or nowhere. The tunnel's protocol is the copy of wireguard-lwip in wireguard/.
-- In exit mode packets out of the tunnel leave by the Wi-Fi station: src/wg.c wraps the station's
-- output and input, and src/napt.c translates addresses and ports there. src/eth_csum.c fills in the
-- checksums of every frame that leaves, src/dhcp_server.c gives each client its one lease,
-- src/wifi_conn.c joins the saved networks in the order of src/wifi_pick.c, src/pcap.c keeps a copy
-- of frames for a download, and src/config.c holds the record that all of them are set up from. That
-- record is edited by the commands of src/config_proto.c, which the two consoles and the portal feed
-- with lines. src/serial_bridge.c joins a UART, a USB port and one TCP client to a party line.
--
-- The files:
--   Base: names that the others share: native numbers and their tests, lists, byte buffers,
--     the digits of machine words.
--   Napt: src/napt.c. `Napt` is the static state (table, external address, clamp, drop counter);
--     `napt_outbound` and `napt_inbound` take it with the packet and give both back. A table is a
--     function from slots to entries, the search runs over NAPT_MAX slots.
--   EthCsum: src/eth_csum.c, `eth_csum_restore` on one flat frame; `Laws` has the sum of weighted bytes
--     that a restored checksum is measured by, apart from the code's own.
--   Config: src/config.h and src/config.c, the record, the list of saved networks, and
--     the tests that the tunnel and the access point are set up. `Storage` is config_defaults,
--     config_load and config_save on the record's bytes, with the checksum of every bit.
--   Wg: src/wg.c. `Route` is wg_ip4_route_hook and the tests that it uses, `Exit` the output wrapper
--     and the input hook of the station, `Clock` wg_time_init and wireguard_tai64n_now.
--   Pcap: src/pcap.c, all its operations on the ring of bytes.
--   WifiPick: src/wifi_pick.c, the order in which the connection manager tries saved networks.
--   WifiConn: src/wifi_conn.c. `Machine` is the static state and the steps, `Task` wifi_conn_init,
--     wifi_conn_apply and wifi_conn_task; the driver's answers are the record `Radio`.
--   Dhcp: src/dhcp_server.c. `Options` is find_opt and put_opt, `Server` the two scopes, dhcp_recv
--     and dhcp_server_start.
--   SerialBridge: src/serial_bridge.c. `State` is its static data with what was written to and is
--     unread at the endpoints, `Telnet` the byte-wise telnet layer (tn_process and below), `Line`
--     the loops of serial_bridge_task, `Tcp` the callbacks of lwIP and the public functions.
--     `Framing`, `Subnegotiation` and `Delivery` say what telnet is apart from the code.
--   ConfigProto: src/config_proto.c. `Text` is its parsers, `Set` and `Routes` the keys of `set`,
--     `Command` cmd_set, `Menu` handle_main, `Line` handle_scan and config_proto_handle_line,
--     `Console` the mode, the polls of a scan, and those functions of src/wifi_scan.c that they
--     call. `Stored` is the form that the configuration is kept in.
--   SerialConsole: src/serial_console.c, serial_console_task; `Terminal` is its state around the
--     `Console` of the protocol, and each character comes with the `Answers` of its moment.
--   WifiScan: src/wifi_scan.c. `Table` is the array of results and scan_cb, which merges a beacon.
--
-- Conventions. Numbers are native; a cast or an operation that wraps is written with `% 2 ^ w`. A byte
-- buffer is a function from offsets, and its length a number beside it, so that reads and writes are
-- total. A C string is the list of its characters without the NUL. Static state is a record that an
-- operation takes and gives back. A signal strength is counted from INT16_MIN.
--
-- Fuel. `fold_carry` folds three times, which is enough for every sum of a frame (such a sum is below
-- 2 ^ 32, and three folds bring it below 2 ^ 16). `clamp_options` has 64 rounds: offsets end at 60 and
-- each round goes on by one or more. `find_loop` has as many rounds as there are bytes of options.
-- `evict_rounds` has 4097: the ring holds at most 4096 records of 16 bytes or more, and each round
-- passes one. `try_loop` has a round for each candidate that is left. The loops of serial_bridge_task
-- recur on the source's own budget of 128 bytes.
--
-- Parameters. lwIP's comparison of addresses under a mask and its byte order macros are fields of
-- `Lwip` or arguments; the time, an interface's address, and whether a flash write was done or a
-- buffer was there are arguments. What the endpoints of the serial line answer at one moment is an
-- `Env`, one for each round of a loop. `Libraries` holds the parser of addresses, base64 and the codes
-- of countries; `Answers` what the console is told by other components: callbacks that are registered,
-- the scan driver, the outcome of saving and loading, a new key pair. Functions of C's string library
-- are written out in ConfigProto.Text; `long` has 32 bits there, and `strtol` stops at its limits.
--
-- Not modelled: wireguard/, a copy of wireguard-lwip and of cryptographic code; the radio, USB and
-- flash drivers; the bring-up of the tunnel in src/wg.c; the step from the bytes of the stored record to
-- the record with texts that the other files use; the text that the console prints for its state and
-- its lists; the access point, the USB link, the portal and the debug console.
pub mod Base
pub mod Napt
pub mod EthCsum
pub mod Config
pub mod Wg
pub mod Pcap
pub mod WifiConn
pub mod Dhcp
pub mod WifiPick
pub mod SerialBridge
pub mod ConfigProto
pub mod WifiScan
pub mod SerialConsole
