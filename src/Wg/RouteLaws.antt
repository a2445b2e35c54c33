-- ===== src/Wg/RouteLaws.antt =====
-- The isolation that the route hook of src/wg.c gives, for every lwIP and every configuration.
use molewire.Base.{ℕ, ◌≡◌, ◌≢◌, ◌⊎◌, ◌↔◌, arith, true, false, none, some}
use molewire.Wg.Route.{
  Lwip, usb, ap, sta, blackhole, Routing, is_own_addr, in_usb_subnet, in_ap_subnet,
  dest_is_local_scope, station_or_blackhole, route_onward, route_forwarded, wg_ip4_route_hook,
}

module _ (lwip : Lwip) (r : Routing) (src dest : ℕ) where
  -- The packet is forwarded: its source is no address of the device.
  abbrev pub IsForwarded : Type 0
  IsForwarded = (src ≢ 0) × (is_own_addr r.own_addrs src ≡ false)

  forwarded-hook :
      IsForwarded
      → wg_ip4_route_hook lwip r (some src) dest ≡ some (route_forwarded lwip r src dest)
  unfolding wg_ip4_route_hook
  forwarded-hook h = ground arith

  -- A forwarded packet leaves by the Wi-Fi station exactly when exit mode is on, the tunnel and the
  -- station exist, the packet came in through the tunnel, the destination is on neither client link,
  -- and it is not local unless the LAN is allowed.
  pub wg_ip4_route_hook-sta_iff :
      IsForwarded
      → (wg_ip4_route_hook lwip r (some src) dest ≡ some sta) ↔ (
          (in_usb_subnet lwip r dest ≡ false)
          × (in_ap_subnet lwip r dest ≡ false)
          × (r.exit_on ≡ true)
          × (r.wg_netif_added ≡ true)
          × (r.from_wg ≡ true)
          × ((r.exit_lan_on ≡ true) ⊎ (dest_is_local_scope lwip r dest ≡ false))
          × (r.sta_link ≢ none))
  unfolding wg_ip4_route_hook route_forwarded route_onward station_or_blackhole
  wg_ip4_route_hook-sta_iff h = (λ e. ground arith, λ k. ground arith)

  -- A forwarded packet leaves by the USB host's link exactly when its destination address is in the
  -- USB subnet and its source address is not in the access point's; and by the access point's link
  -- exactly when its destination address is in the access point's subnet, not in the USB subnet, and
  -- its source address is not in the USB subnet. The interface that it came in on plays no part.
  pub wg_ip4_route_hook-clients_apart :
      IsForwarded
      → ((wg_ip4_route_hook lwip r (some src) dest ≡ some usb)
          ↔ ((in_usb_subnet lwip r dest ≡ true) × (in_ap_subnet lwip r src ≡ false)))
        × ((wg_ip4_route_hook lwip r (some src) dest ≡ some ap) ↔ (
            (in_ap_subnet lwip r dest ≡ true)
            × (in_usb_subnet lwip r dest ≡ false)
            × (in_usb_subnet lwip r src ≡ false)))
  unfolding wg_ip4_route_hook route_forwarded route_onward station_or_blackhole
  wg_ip4_route_hook-clients_apart h =
      ((λ e. ground arith, λ k. ground arith), (λ e. ground arith, λ k. ground arith))

  -- With no tunnel a forwarded packet goes to the client link that its destination is on, or nowhere.
  pub wg_ip4_route_hook-no_tunnel :
      IsForwarded
      → r.wg_netif_added ≡ false
      → (wg_ip4_route_hook lwip r (some src) dest ≡ some blackhole)
        ⊎ ((wg_ip4_route_hook lwip r (some src) dest ≡ some usb)
            × (in_usb_subnet lwip r dest ≡ true))
        ⊎ ((wg_ip4_route_hook lwip r (some src) dest ≡ some ap) × (in_ap_subnet lwip r dest ≡ true))
  unfolding wg_ip4_route_hook route_forwarded route_onward
  wg_ip4_route_hook-no_tunnel h t = ground arith

  -- The hook leaves the routing of a packet with a source to lwIP exactly when the source is unset
  -- or an address of the device.
  pub wg_ip4_route_hook-own_iff :
      (wg_ip4_route_hook lwip r (some src) dest ≡ none)
      ↔ ((src ≡ 0) ⊎ (is_own_addr r.own_addrs src ≡ true))
  unfolding wg_ip4_route_hook
  wg_ip4_route_hook-own_iff = (λ e. ground arith, λ k. ground arith)
