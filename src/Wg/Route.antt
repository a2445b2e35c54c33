-- ===== src/Wg/Route.antt =====
-- The route hook of src/wg.c. lwIP's macros are the fields of `Lwip`: the comparison of two addresses
-- under a mask, and the conversion of an address to host byte order.
use molewire.Base.{
  ℕ, ◌/◌, ◌^◌, Bool, false, not, ◌&&◌, ◌||◌, Option, none, some, List, [], ◌∷◌, bit_and, ◌==◌,
  if◌then◌else◌,
}

-- `net_eq a b mask` is lwIP's `ip4_addr_net_eq`; addresses are 32-bit numbers in network order.
pub record Lwip : Type 0 where
  pub net_eq : ℕ → ℕ → ℕ → Bool
  pub ntohl : ℕ → ℕ

-- The interfaces that the hook can name.
pub data Netif : Type 0 where
  usb ap wg sta blackhole : Netif

-- An interface's address and mask; the address 0 is lwIP's "any", for none.
pub record Link : Type 0 where
  pub addr : ℕ
  pub mask : ℕ

-- What the hook reads: the links, the flags of src/wg.c, the addresses of all interfaces that are
-- added, and the interface that the packet came in on.
pub record Routing : Type 0 where
  pub usb_link : Link
  pub ap_link : Option Link
  pub sta_link : Option Link
  pub wg_netif_added : Bool
  pub exit_on : Bool
  pub exit_lan_on : Bool
  pub own_addrs : List ℕ
  pub from_wg : Bool

-- The loop of `is_own_addr`.
unfoldable pub is_own_addr : List ℕ → ℕ → Bool
is_own_addr [] a = false
is_own_addr (n ∷ ns) a = (not (n == 0) && a == n) || is_own_addr ns a

module _ (lwip : Lwip) where
  unfoldable pub in_link : Option Link → ℕ → Bool
  in_link none a = false
  in_link (some l) a = if l.addr == 0 then false else lwip.net_eq a l.addr l.mask

  abbrev pub in_usb_subnet : Routing → ℕ → Bool
  in_usb_subnet r a = in_link (some r.usb_link) a

  abbrev pub in_ap_subnet : Routing → ℕ → Bool
  in_ap_subnet r a = in_link r.ap_link a

  -- RFC 1918, loopback, link-local and CGNAT space, of an address in host order.
  abbrev pub is_private : ℕ → Bool
  is_private h =
      h / 2 ^ 24 == 10
      || h / 2 ^ 24 == 127
      || bit_and h 0xFFF00000 == 0xAC100000
      || bit_and h 0xFFFF0000 == 0xC0A80000
      || bit_and h 0xFFFF0000 == 0xA9FE0000
      || bit_and h 0xFFC00000 == 0x64400000

  unfoldable pub dest_is_local_scope : Routing → ℕ → Bool
  dest_is_local_scope r d = is_private (lwip.ntohl d) || in_link r.sta_link d

  -- `sta_netif ? sta_netif : &blackhole_netif`
  unfoldable pub station_or_blackhole : Option Link → Netif
  station_or_blackhole none = blackhole
  station_or_blackhole (some l) = sta

  -- A packet for neither client link.
  unfoldable pub route_onward : Routing → ℕ → Netif
  route_onward r dest =
      if r.exit_on && r.wg_netif_added && r.from_wg
      then (if not r.exit_lan_on && dest_is_local_scope r dest
          then blackhole
          else station_or_blackhole r.sta_link)
      else if r.wg_netif_added
      then wg
      else blackhole

  unfoldable pub route_forwarded : Routing → ℕ → ℕ → Netif
  route_forwarded r src dest =
      if in_usb_subnet r dest
      then (if in_ap_subnet r src then blackhole else usb)
      else if in_ap_subnet r dest
      then (if in_usb_subnet r src then blackhole else ap)
      else route_onward r dest

  -- `none` for the source is no address at all; `none` as a result is "route normally".
  unfoldable pub wg_ip4_route_hook : Routing → Option ℕ → ℕ → Option Netif
  wg_ip4_route_hook r none dest = none
  wg_ip4_route_hook r (some src) dest =
      if src == 0 || is_own_addr r.own_addrs src then none else some (route_forwarded r src dest)
