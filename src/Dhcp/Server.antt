-- ===== src/Dhcp/Server.antt =====
-- The scopes and the handlers of src/dhcp_server.c. A 32-bit field in network order is the word that
-- the bytes of the wire are in memory; an interface is a number, 0 for none.
use molewire.Base.{
  ℕ, zero, suc, ◌+◌, ◌-◌, ◌*◌, ◌/◌, ◌%◌, ◌^◌, Bool, true, false, not, ◌&&◌, ◌||◌, Option, none,
  some, List, [], ◌∷◌, ◌++◌, min, ltb, ◌==◌, if◌then◌else◌, Bytes, word_at, word_bytes,
}
use molewire.Config.Record.{config_routes_max, WgRoute}
use molewire.Dhcp.Options.{
  opt_subnet_mask, opt_router, opt_dns, opt_mtu, opt_requested_ip, opt_lease_time, opt_msg_type,
  opt_server_id, opt_classless_routes, opt_end, find_opt, put_opt,
}

abbrev pub lease_time_s : ℕ
lease_time_s = 86400

abbrev pub header_size : ℕ
header_size = 240

-- `dhcp_server_t`
pub record Scope : Type 0 where
  pub nif : ℕ
  pub lease_addr : ℕ
  pub lease_mask : ℕ
  pub lease_dns : ℕ
  pub lease_mtu : ℕ
  pub lease_routes : ℕ → WgRoute
  pub lease_route_count : ℕ
  pub lease_link_only : Bool
  pub leased : Bool

pub record Dhcp : Type 0 where
  pub dhcp_usb : Scope
  pub dhcp_ap : Scope

pub data Which : Type 0 where
  usb_scope ap_scope : Which

unfoldable pub scope_for : Dhcp → ℕ → Option Which
scope_for d nif =
    if not (nif == 0) && nif == d.dhcp_usb.nif
    then some usb_scope
    else if not (nif == 0) && nif == d.dhcp_ap.nif
    then some ap_scope
    else none

abbrev pub scope : Dhcp → Which → Scope
scope d usb_scope = d.dhcp_usb
scope d ap_scope = d.dhcp_ap

abbrev pub set_scope : Dhcp → Which → Scope → Dhcp
set_scope d usb_scope s = record d { dhcp_usb = s }
set_scope d ap_scope s = record d { dhcp_ap = s }

pub data ReplyType : Type 0 where
  offer ack nak : ReplyType

abbrev pub reply_code : ReplyType → ℕ
reply_code offer = 2
reply_code ack = 5
reply_code nak = 6

-- The header fields that depend on the request or the scope, and the options.
pub record Reply : Type 0 where
  pub kind : ReplyType
  pub xid : ℕ
  pub flags : List ℕ
  pub yiaddr : ℕ
  pub chaddr : List ℕ
  pub options : List ℕ

-- The address that a request asks for: option 50 if it is there, else `ciaddr`.
unfoldable pub wanted : Bytes → ℕ → Option ℕ → ℕ
wanted req ciaddr none = ciaddr
wanted req ciaddr (some rip) =
    if req (header_size + rip) == 4 then word_at req (header_size + rip + 1) else ciaddr

-- The type of the reply to a message of this type, if there is one.
unfoldable pub reply_type : ℕ → ℕ → ℕ → Option ReplyType
reply_type lease_addr msg_type want =
    if msg_type == 1
    then some offer
    else if msg_type == 3
    then some (if want == 0 || want == lease_addr then ack else nak)
    else none

-- The `n` bytes of memory where the word `w` stands; a prefix of at most 32 bits asks for at most 4.
unfoldable pub octets_of : ℕ → ℕ → List ℕ
octets_of zero w = []
octets_of (suc n) w = (w % 256) ∷ octets_of n (w / 256)

-- One route of option 121, for each from `i` on.
unfoldable pub route_bytes : (ℕ → WgRoute) → ℕ → ℕ → ℕ → List ℕ
route_bytes routes sid zero i = []
route_bytes routes sid (suc left) i =
    (routes i).prefix
    ∷ (octets_of (((routes i).prefix + 7) / 8) (routes i).net
        ++ (word_bytes sid ++ route_bytes routes sid left (suc i)))

abbrev pub is_nak : ReplyType → Bool
is_nak nak = true
is_nak offer = false
is_nak ack = false

abbrev pub is_ack : ReplyType → Bool
is_ack ack = true
is_ack offer = false
is_ack nak = false

-- Router, routes or neither.
unfoldable pub put_routing : Scope → ℕ → List ℕ → List ℕ
put_routing s sid o =
    if s.lease_link_only
    then o
    else if s.lease_route_count == 0
    then put_opt o opt_router (word_bytes sid)
    else put_opt o opt_classless_routes (route_bytes s.lease_routes sid s.lease_route_count 0)

unfoldable pub put_dns : Scope → List ℕ → List ℕ
put_dns s o = if s.lease_dns == 0 then o else put_opt o opt_dns (word_bytes s.lease_dns)

-- The state, and the reply to send on the scope's link, if any.
pub record Served : Type 0 where
  pub state : Dhcp
  pub reply : Option Reply

-- The type of the reply to the message whose type option has its length byte at `mt`.
unfoldable pub classify : Scope → Bytes → ℕ → Option ℕ → Option ReplyType
classify s req optlen none = none
classify s req optlen (some mt) =
    let opts = λ (i : ℕ). req (header_size + i) in
    if opts mt == 1
    then reply_type s.lease_addr (opts (mt + 1))
        (wanted req (word_at req 12) (find_opt opts optlen opt_requested_ip))
    else none

module _ (htonl htons : ℕ → ℕ) where
  -- What a lease comes with.
  unfoldable pub put_lease : Scope → ℕ → List ℕ → List ℕ
  put_lease s sid o =
      let timed = put_opt o opt_lease_time (word_bytes (htonl lease_time_s)) in
      let masked = put_opt timed opt_subnet_mask (word_bytes s.lease_mask) in
      put_opt (put_dns s (put_routing s sid masked)) opt_mtu
        ((htons s.lease_mtu % 256) ∷ (htons s.lease_mtu / 256 % 256) ∷ [])

  unfoldable pub reply_options : Scope → ℕ → ReplyType → List ℕ
  reply_options s sid kind =
      let o =
        put_opt (put_opt [] opt_msg_type (reply_code kind ∷ [])) opt_server_id (word_bytes sid) in
      (if is_nak kind then o else put_lease s sid o) ++ (opt_end ∷ [])

  unfoldable pub build_reply : Scope → ℕ → Bytes → ReplyType → Reply
  build_reply s sid req kind = record {
    kind = kind;
    xid = word_at req 4;
    flags = req 10 ∷ req 11 ∷ [];
    yiaddr = if is_nak kind then 0 else s.lease_addr;
    chaddr =
        req 28
        ∷ req 29
        ∷ req 30
        ∷ req 31
        ∷ req 32
        ∷ req 33
        ∷ req 34
        ∷ req 35
        ∷ req 36
        ∷ req 37
        ∷ req 38
        ∷ req 39
        ∷ req 40
        ∷ req 41
        ∷ req 42
        ∷ req 43
        ∷ [];
    options = reply_options s sid kind;
  }

  -- The message type and the requested address, once the options are read; `sid` is the address of
  -- the scope's interface, and `allocated` whether there was a buffer for the reply.
  unfoldable pub answer : Dhcp → Which → ℕ → Bool → Bytes → ℕ → Option ReplyType → Served
  answer d w sid allocated req rlen none = record { state = d; reply = none }
  answer d w sid allocated req rlen (some kind) =
      if allocated
      then record {
        state = if is_ack kind then set_scope d w (record (scope d w) { leased = true }) else d;
        reply = some (build_reply (scope d w) sid req kind);
      }
      else record { state = d; reply = none }

  abbrev pub is_boot_request : Bytes → Bool
  is_boot_request req =
      req 0 == 1 && req 1 == 1 && req 2 == 6 && word_at req 236 == htonl 0x63825363

  -- `tot_len` is the length of the datagram, of which at most 600 bytes are looked at.
  unfoldable pub serve : Dhcp → Which → ℕ → Bool → Bytes → ℕ → Served
  serve d w sid allocated req tot_len =
      let rlen = min tot_len 600 in
      let opts = λ (i : ℕ). req (header_size + i) in
      if (scope d w).lease_addr == 0 || ltb tot_len (header_size + 3) || not (is_boot_request req)
      then record { state = d; reply = none }
      else answer d w sid allocated req rlen (
          classify (scope d w) req (rlen - header_size)
            (find_opt opts (rlen - header_size) opt_msg_type))

  -- The scope that the request is for, if it is for one; `addr_of` gives an interface's address.
  unfoldable pub recv_on : (ℕ → ℕ) → Dhcp → Bool → Bytes → ℕ → Option Which → Served
  recv_on addr_of d allocated req tot_len none = record { state = d; reply = none }
  recv_on addr_of d allocated req tot_len (some w) =
      serve d w (addr_of (scope d w).nif) allocated req tot_len

  unfoldable pub dhcp_recv : (ℕ → ℕ) → Dhcp → ℕ → Bool → Bytes → ℕ → Served
  dhcp_recv addr_of d nif allocated req tot_len =
      recv_on addr_of d allocated req tot_len (scope_for d nif)

  abbrev pub mask_of : ℕ → ℕ
  mask_of prefix = if prefix == 0 then 0 else htonl (0xFFFFFFFF * 2 ^ (32 - prefix) % 2 ^ 32)

  -- What `dhcp_server_start` does to the scope. The socket is opened once, and is not in the state.
  unfoldable pub dhcp_server_start :
      Scope → ℕ → ℕ → ℕ → ℕ → ℕ → Option (ℕ → WgRoute) → ℕ → Bool → Scope
  dhcp_server_start s nif host_addr prefix dns mtu routes route_count link_only =
      let count = if ltb config_routes_max route_count then config_routes_max else route_count in
      record {
        nif = nif;
        lease_addr = host_addr;
        lease_mask = mask_of prefix;
        lease_dns = if link_only then 0 else dns;
        lease_mtu = mtu;
        lease_routes = elim routes [
          | none ↦ s.lease_routes
          | some given ↦ λ i. if ltb i count then given i else s.lease_routes i
        ];
        lease_route_count = count;
        lease_link_only = link_only;
        leased = false;
      }
