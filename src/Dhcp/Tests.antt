-- ===== src/Dhcp/Tests.antt =====
-- Requests and replies of src/dhcp_server.c for a small scope.
use molewire.Base.{
  ℕ, ◌+◌, ◌-◌, ◌*◌, ◌/◌, ◌%◌, ◌^◌, ◌≤◌, ◌<◌, ◌≡◌, ◌⊎◌, inl, refl, arith, true, false, Option, none,
  some, List, [], ◌∷◌, length, ◌==◌, if◌then◌else◌, Bytes,
}
use molewire.Config.Record.{WgRoute}
use molewire.Dhcp.Options.{opt_router, opt_classless_routes, opt_msg_type, find_loop, find_opt}
use molewire.Dhcp.Server.{
  Scope, Dhcp, scope_for, ReplyType, offer, ack, wanted, reply_type, route_bytes, reply_options,
  build_reply, answer, classify, serve, recv_on, dhcp_recv, dhcp_server_start,
}
use molewire.Dhcp.OptionLaws.{lookup, Reads, bytes_of, bytes_of-At, find_opt-in_bounds}
use molewire.Dhcp.ReplyLaws.{told, reply_options-Reads, dhcp_server_start-isolated}
use molewire.Dhcp.ReplyBounds.{ArePrefixes, reply_options-fits}
use molewire.Dhcp.Handler.{Ignorable, Replied, dhcp_recv-Replied}

-- The byte order macros of a little-endian machine.
abbrev htonl : ℕ → ℕ
htonl w = w / 2 ^ 24 % 256 + w / 2 ^ 16 % 256 * 2 ^ 8 + w / 2 ^ 8 % 256 * 2 ^ 16 + w % 256 * 2 ^ 24

abbrev htons : ℕ → ℕ
htons w = w / 256 % 256 + w % 256 * 256

abbrev no_scope : Scope
no_scope = record {
  nif = 0;
  lease_addr = 0;
  lease_mask = 0;
  lease_dns = 0;
  lease_mtu = 0;
  lease_routes = λ i. record { net = 0; prefix = 0 };
  lease_route_count = 0;
  lease_link_only = false;
  leased = false;
}

abbrev lan : ℕ → WgRoute
lan i = record { net = 0x0000A8C0; prefix = 16 }

-- 10.9.0.2 on a split tunnel with two routes.
abbrev split : Scope
split = dhcp_server_start htonl htons no_scope 7 0x0200090A 30 0x0100090A 1420 (some lan) 2 false

abbrev server : Dhcp
server = record { dhcp_usb = split; dhcp_ap = no_scope }

-- A DHCPDISCOVER: the header, the cookie and option 53.
abbrev discover : Bytes
discover i =
    if i == 0
    then 1
    else if i == 1
    then 1
    else if i == 2
    then 6
    else if i == 236
    then 99
    else if i == 237
    then 130
    else if i == 238
    then 83
    else if i == 239
    then 99
    else if i == 240
    then 53
    else if i == 241
    then 1
    else if i == 242
    then 1
    else if i == 243
    then 255
    else 0

abbrev offered : List ℕ
offered = reply_options htonl htons split 0x0100090A offer

unfoldable replied : Option ReplyType
replied = elim (dhcp_recv htonl htons (λ n. 0x0100090A) server 7 true discover 244).reply [
  | none ↦ none
  | some r ↦ some r.kind
]

discover-offered : replied ≡ some offer
unfolding replied dhcp_recv recv_on serve answer classify reply_type wanted scope_for find_opt
    find_loop build_reply dhcp_server_start
discover-offered = refl

reply_options-Reads_example :
    Reads
      (bytes_of offered)
      (lookup (told htonl htons split 0x0100090A offer) opt_classless_routes)
      (find_opt (bytes_of offered) (length offered) opt_classless_routes)
reply_options-Reads_example =
    reply_options-Reads htonl htons split 0x0100090A offer (bytes_of offered) opt_classless_routes
      (bytes_of-At offered)

abbrev island : List ℕ
island =
    reply_options htonl htons
      (dhcp_server_start htonl htons no_scope 7 0x0200090A 30 0x0100090A 1420 (some lan) 2 true)
      0x0100090A ack

dhcp_server_start-isolated_example : find_opt (bytes_of island) (length island) opt_router ≡ none
dhcp_server_start-isolated_example =
    dhcp_server_start-isolated htonl htons no_scope 7 0x0200090A 30 0x0100090A 1420 (some lan) 2
      0x0100090A opt_router ack (bytes_of island) island (inl refl) refl (bytes_of-At island)

split-ArePrefixes : ArePrefixes split
unfolding dhcp_server_start
split-ArePrefixes j low = ground arith

reply_options-fits_example :
    (length (reply_options htonl htons split 0x0100090A offer) ≤ 128)
    × (length (route_bytes split.lease_routes 0x0100090A split.lease_route_count 0) ≤ 36)
reply_options-fits_example =
    reply_options-fits htonl htons no_scope 7 0x0200090A 30 0x0100090A 1420 (some lan) 2 false
      0x0100090A offer split refl split-ArePrefixes

dhcp_recv-Replied_example :
    ((dhcp_recv htonl htons (λ n. 0x0100090A) server 7 true discover 244
        ≡ record { state = server; reply = none })
      × Ignorable htonl htons server 7 true discover 244)
    ⊎ Replied htonl htons
        (λ n. 0x0100090A)
        server
        7
        discover
        244
        (dhcp_recv htonl htons (λ n. 0x0100090A) server 7 true discover 244)
dhcp_recv-Replied_example =
    dhcp_recv-Replied htonl htons (λ n. 0x0100090A) server 7 true discover 244

abbrev type_only : Bytes
type_only = bytes_of (53 ∷ 1 ∷ 1 ∷ 255 ∷ [])

type_only-found : find_opt type_only 4 opt_msg_type ≡ some 1
unfolding find_opt find_loop
type_only-found = refl

find_opt-in_bounds_example : (0 < 1) × (1 + type_only 1 < 4) × (type_only (1 - 1) ≡ opt_msg_type)
find_opt-in_bounds_example = find_opt-in_bounds type_only 4 opt_msg_type {q = 1} type_only-found
