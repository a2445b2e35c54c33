-- ===== src/Napt/Translate.antt =====
-- `napt_outbound` and `napt_inbound` of src/napt.c, on the state and the packet that they change.
use molewire.Base.{
  ℕ, ◌+◌, ◌-◌, ◌/◌, ◌%◌, ◌^◌, Bool, true, false, not, ◌&&◌, ◌||◌, Option, none, some, List, ◌==◌,
  ltb, leb, if◌then◌else◌, Bytes, be16,
}
use molewire.Napt.Checksum.{csum_adjust_nz, csum_adjust_udp}
use molewire.Napt.Table.{
  Ip4, Port, ip_bytes, port_bytes, ip_equal, NaptEntry, napt_max, napt_port_base, Napt, Flow, Slot,
  existing, fresh, full, search_slot, new_entry, set_entry, tcp_track, entry_live,
}
use molewire.Napt.Packet.{PktView, parse, keyfield, ip_at, port_at, put_ip, put_port, clamp_mss}

-- The state and the packet after a call, and what it returns.
pub record Outcome : Type 0 where
  pub state : Napt
  pub pkt : Bytes
  pub translated : Bool

-- `g_drops++; return false;`
abbrev pub drop : Napt → Bytes → Outcome
drop s p = record {
  state = record s { drops = (s.drops + 1) % 2 ^ 32 };
  pkt = p;
  translated = false;
}

-- The transport checksum, whose pseudo header holds the address that changes.
unfoldable pub adjust_transport : PktView → Bytes → List ℕ → List ℕ → Bytes
adjust_transport v p old new =
    if v.proto == 6
    then csum_adjust_nz p (v.ihl + 16) old new
    else if v.proto == 17
    then csum_adjust_udp p (v.ihl + 6) old new
    else p

-- Both checksums and the address at `at`, which becomes `ip`.
unfoldable pub rewrite_ip : PktView → Bytes → ℕ → Ip4 → Bytes
rewrite_ip v p at ip =
    let old = ip_bytes (ip_at p at) in
    let q = csum_adjust_nz p 10 old (ip_bytes ip) in
    put_ip (adjust_transport v q old (ip_bytes ip)) at ip

-- The transport checksum, the MSS clamp, and the port or echo id at `at`, which becomes `port`.
unfoldable pub rewrite_port : ℕ → PktView → Bytes → ℕ → Port → Bytes
rewrite_port mss v p at port =
    let old = port_bytes (port_at p at) in
    let q =
      if v.proto == 6
      then clamp_mss mss (csum_adjust_nz p (v.ihl + 16) old (port_bytes port)) v.ihl v.l4avail
          (v.ihl + 16)
      else if v.proto == 17
      then csum_adjust_udp p (v.ihl + 6) old (port_bytes port)
      else csum_adjust_nz p (v.ihl + 2) old (port_bytes port) in
    put_port q at port

-- What both paths do to the entry: `tcp_track` for TCP, and the time of use.
unfoldable pub touch_entry : PktView → NaptEntry → Bytes → ℕ → NaptEntry
touch_entry v e p now =
    let tracked = if v.proto == 6 then tcp_track e (p (v.ihl + 13)) else e in
    record tracked { last_ms = now }

abbrev pub nat_port : ℕ → Port
nat_port i = record { hi = (napt_port_base + i) / 256 % 256; lo = (napt_port_base + i) % 256 }

-- The packet and the table once a slot with entry `e` is chosen.
unfoldable pub translate_out : Napt → PktView → Bytes → ℕ → ℕ → NaptEntry → Outcome
translate_out s v p now i e =
    let q = rewrite_ip v p 12 s.ext in
    record {
      state = record s { table = set_entry s.table i (touch_entry v e q now) };
      pkt = rewrite_port s.mss v q (keyfield v true) (nat_port i);
      translated = true;
    }

abbrev pub flow_of : PktView → Bytes → Flow
flow_of v p = record { proto = v.proto; ip = ip_at p 12; port = port_at p (keyfield v true) }

unfoldable pub outbound_slot : Napt → PktView → Bytes → ℕ → Slot → Outcome
outbound_slot s v p now full = drop s p
outbound_slot s v p now (existing i) = translate_out s v p now i (s.table i)
outbound_slot s v p now (fresh i) = translate_out s v p now i (new_entry (s.table i) (flow_of v p))

unfoldable pub outbound_view : Napt → Bytes → ℕ → Option PktView → Outcome
outbound_view s p now none = drop s p
outbound_view s p now (some v) =
    if v.proto == 1 && not (p v.ihl == 8)
    then drop s p
    else outbound_slot s v p now (search_slot s.table (flow_of v p) now napt_max 0 none)

-- `!(g_ext[0] | g_ext[1] | g_ext[2] | g_ext[3])`
abbrev pub no_ext_ip : Napt → Bool
no_ext_ip s = s.ext.b0 == 0 && s.ext.b1 == 0 && s.ext.b2 == 0 && s.ext.b3 == 0

unfoldable pub napt_outbound : Napt → Bytes → ℕ → ℕ → Outcome
napt_outbound s p avail now =
    if no_ext_ip s then drop s p else outbound_view s p now (parse p avail)

abbrev pub miss : Napt → Bytes → Outcome
miss s p = record { state = s; pkt = p; translated = false }

unfoldable pub translate_in : Napt → PktView → Bytes → ℕ → ℕ → NaptEntry → Outcome
translate_in s v p now i e =
    let q = rewrite_ip v p 16 e.inner_ip in
    record {
      state = record s { table = set_entry s.table i (touch_entry v e q now) };
      pkt = rewrite_port s.mss v q (keyfield v false) e.inner_port;
      translated = true;
    }

unfoldable pub inbound_port : Napt → PktView → Bytes → ℕ → ℕ → Outcome
inbound_port s v p now port =
    let i = port - napt_port_base in
    if ltb port napt_port_base || leb (napt_port_base + napt_max) port
    then miss s p
    else if not (entry_live (s.table i) now) || not ((s.table i).proto == v.proto)
    then miss s p
    else translate_in s v p now i (s.table i)

unfoldable pub inbound_view : Napt → Bytes → ℕ → Option PktView → Outcome
inbound_view s p now none = miss s p
inbound_view s p now (some v) =
    if not (ip_equal (ip_at p 16) s.ext)
    then miss s p
    else if v.proto == 1 && not (p v.ihl == 0)
    then miss s p
    else inbound_port s v p now (be16 p (keyfield v false))

unfoldable pub napt_inbound : Napt → Bytes → ℕ → ℕ → Outcome
napt_inbound s p avail now = inbound_view s p now (parse p avail)
