-- ===== src/Wg/Tests.antt =====
-- Runs of src/wg.c, and the theorems at these inputs.
use molewire.Base.{
  ℕ, ◌+◌, ◌*◌, ◌/◌, ◌%◌, ◌^◌, ◌<◌, ◌≡◌, ◌≢◌, ◌⊎◌, ◌↔◌, refl, arith, true, false, none, some, [],
  ◌∷◌, Bytes, get_or, bit_and, ◌==◌,
}
use molewire.Napt.Packet.{ip_at}
use molewire.Napt.Table.{Napt, free_entry}
use molewire.Wg.Route.{
  Lwip, usb, ap, sta, Routing, is_own_addr, in_usb_subnet, in_ap_subnet, dest_is_local_scope,
  wg_ip4_route_hook, in_link, route_forwarded,
}
use molewire.Wg.RouteLaws.{wg_ip4_route_hook-sta_iff, wg_ip4_route_hook-clients_apart}
use molewire.Wg.Exit.{Pbuf, exit_sta_output, exit_sta_output-fails_closed}
use molewire.Wg.Clock.{
  BootRecord, be_value, wireguard_tai64n_now, wg_time_init, wg_time_init-timestamps,
  next_boot_count,
}

-- lwIP on a little-endian machine.
abbrev lwip : Lwip
lwip = record {
  net_eq = λ a b mask. bit_and a mask == bit_and b mask;
  ntohl = λ a. a % 256 * 2 ^ 24 + a / 2 ^ 8 % 256 * 2 ^ 16 + a / 2 ^ 16 % 256 * 2 ^ 8 + a / 2 ^ 24;
}

-- The address a.b.c.d in network order.
abbrev address : ℕ → ℕ → ℕ → ℕ → ℕ
address a b c d = a + b * 2 ^ 8 + c * 2 ^ 16 + d * 2 ^ 24

abbrev slash_30 : ℕ
slash_30 = address 255 255 255 252

abbrev routing : Routing
routing = record {
  usb_link = record { addr = address 10 66 0 249; mask = slash_30 };
  ap_link = some (record { addr = address 10 66 0 253; mask = slash_30 });
  sta_link = some (record { addr = address 192 168 1 7; mask = address 255 255 255 0 });
  wg_netif_added = true;
  exit_on = true;
  exit_lan_on = false;
  own_addrs = address 10 66 0 249 ∷ address 10 66 0 253 ∷ address 192 168 1 7 ∷ [];
  from_wg = true;
}

wg_ip4_route_hook-sta_iff_example :
    (wg_ip4_route_hook lwip routing (some (address 10 99 0 5)) (address 9 9 9 9) ≡ some sta) ↔ (
      (in_usb_subnet lwip routing (address 9 9 9 9) ≡ false)
      × (in_ap_subnet lwip routing (address 9 9 9 9) ≡ false)
      × (routing.exit_on ≡ true)
      × (routing.wg_netif_added ≡ true)
      × (routing.from_wg ≡ true)
      × ((routing.exit_lan_on ≡ true)
          ⊎ (dest_is_local_scope lwip routing (address 9 9 9 9) ≡ false))
      × (routing.sta_link ≢ none))
unfolding is_own_addr
wg_ip4_route_hook-sta_iff_example =
    wg_ip4_route_hook-sta_iff lwip routing (address 10 99 0 5) (address 9 9 9 9) (omega arith, refl)

-- A packet that the access point's client sends with a source of its own choice, 1.2.3.4, is
-- forwarded to the USB host.
abbrev from_client : Routing
from_client = record routing { from_wg = false }

foreign_source_to_usb :
    wg_ip4_route_hook lwip from_client (some (address 1 2 3 4)) (address 10 66 0 250) ≡ some usb
unfolding wg_ip4_route_hook is_own_addr in_link route_forwarded
foreign_source_to_usb = refl

wg_ip4_route_hook-clients_apart_example :
    let hook = wg_ip4_route_hook lwip from_client (some (address 1 2 3 4)) (address 10 66 0 250) in
    ((hook ≡ some usb) ↔ (
      (in_usb_subnet lwip from_client (address 10 66 0 250) ≡ true)
      × (in_ap_subnet lwip from_client (address 1 2 3 4) ≡ false)))
    × ((hook ≡ some ap) ↔ (
        (in_ap_subnet lwip from_client (address 10 66 0 250) ≡ true)
        × (in_usb_subnet lwip from_client (address 10 66 0 250) ≡ false)
        × (in_usb_subnet lwip from_client (address 1 2 3 4) ≡ false)))
unfolding is_own_addr
wg_ip4_route_hook-clients_apart_example =
    wg_ip4_route_hook-clients_apart lwip from_client (address 1 2 3 4) (address 10 66 0 250)
      (omega arith, refl)

abbrev no_tunnel : Routing
no_tunnel = record routing { wg_netif_added = false }

-- An IPv4 packet from 10.99.0.5.
abbrev overlay_packet : Pbuf
overlay_packet = record {
  payload = λ j.
      get_or
        (0x45 ∷ 0 ∷ 0 ∷ 32 ∷ 0 ∷ 1 ∷ 0x40 ∷ 0 ∷ 64 ∷ 17 ∷ 0x12 ∷ 0x34 ∷ 10 ∷ 99 ∷ 0 ∷ 5 ∷ 9 ∷ 9 ∷ 9
          ∷ 9 ∷ 20 ∷ 233 ∷ 0 ∷ 53 ∷ 0 ∷ 12 ∷ 0xab ∷ 0xcd ∷ [])
        j 0;
  len = 32;
}

abbrev translator : Napt
translator = record {
  table = λ i. free_entry;
  ext = record { b0 = 192; b1 = 168; b2 = 1; b3 = 7 };
  mss = 1380;
  drops = 0;
}

exit_sta_output-fails_closed_example :
    ((exit_sta_output true routing.own_addrs translator overlay_packet 5).emitted ≡ none)
    ⊎ ((q : Bytes) × ((exit_sta_output true routing.own_addrs translator overlay_packet 5).emitted
          ≡ some q)
        × (ip_at q 12 ≡ translator.ext)
        × (ip_at q 16 ≡ ip_at overlay_packet.payload 16))
unfolding is_own_addr
exit_sta_output-fails_closed_example =
    exit_sta_output-fails_closed routing.own_addrs translator overlay_packet 5 refl refl

abbrev erased : BootRecord
erased = record { magic = 0xFFFFFFFF; count = 0xFFFFFFFF }

first_boot : (wg_time_init true erased).boot_count ≡ 1
unfolding wg_time_init next_boot_count
first_boot = refl

wg_time_init-timestamps_example :
    be_value 0 (wireguard_tai64n_now (wg_time_init true erased).boot_count 4000000000)
    < be_value 0
        (wireguard_tai64n_now (wg_time_init true (wg_time_init true erased).flash).boot_count 0)
wg_time_init-timestamps_example =
    wg_time_init-timestamps erased true 4000000000 0 (omega arith) (omega arith)
      (rw first_boot (omega arith))
