-- ===== src/Napt/Packet.antt =====
-- The header view of src/napt.c, the field a mapping is keyed on, and the MSS clamp. `pkt` is the
-- byte buffer at the IPv4 header; the callers pass a buffer that is not NULL.
use molewire.Base.{
  ℕ, zero, suc, ◌+◌, ◌-◌, ◌*◌, ◌/◌, Bool, not, ◌&&◌, ◌||◌, Option, none, some, [], ◌∷◌, bit_and,
  ◌==◌, ltb, leb, if◌then◌else◌, Bytes, store, be16, put16,
}
use molewire.Napt.Checksum.{csum_adjust_nz}
use molewire.Napt.Table.{Ip4, Port}

-- `pkt_view_t`: its pointers `ip` and `l4` are the offsets 0 and `ihl`.
pub record PktView : Type 0 where
  pub ihl : ℕ
  pub proto : ℕ
  pub l4avail : ℕ

-- The bytes of the transport header that have to be present.
abbrev pub need : ℕ → ℕ
need proto = if proto == 6 then 20 else 8

-- The end of `parse`, at a header of `ihl` bytes.
unfoldable pub parse_transport : Bytes → ℕ → ℕ → Option PktView
parse_transport pkt avail ihl =
    let proto = pkt 9 in
    let l4avail = avail - ihl in
    if (proto == 6 || proto == 17 || proto == 1) && leb (need proto) l4avail
    then some (record { ihl = ihl; proto = proto; l4avail = l4avail })
    else none

abbrev pub header_length : Bytes → ℕ
header_length pkt = bit_and (pkt 0) 0x0F * 4

unfoldable pub parse : Bytes → ℕ → Option PktView
parse pkt avail =
    if ltb avail 20 || not (pkt 0 / 16 == 4)
    then none
    else if ltb (header_length pkt) 20 || ltb avail (header_length pkt)
    then none
    else if not (bit_and (pkt 6) 0x3F == 0) || not (pkt 7 == 0)
    then none
    else parse_transport pkt avail (header_length pkt)

-- `keyfield`, as an offset in the packet.
abbrev pub keyfield : PktView → Bool → ℕ
keyfield v src_side = if v.proto == 1 then v.ihl + 4 else if src_side then v.ihl else v.ihl + 2

abbrev pub ip_at : Bytes → ℕ → Ip4
ip_at p i = record { b0 = p i; b1 = p (i + 1); b2 = p (i + 2); b3 = p (i + 3) }

abbrev pub port_at : Bytes → ℕ → Port
port_at p i = record { hi = p i; lo = p (i + 1) }

-- `memcpy` of an address and of a port into the packet.
unfoldable pub put_ip : Bytes → ℕ → Ip4 → Bytes
put_ip p i a = store (store (store (store p i a.b0) (i + 1) a.b1) (i + 2) a.b2) (i + 3) a.b3

unfoldable pub put_port : Bytes → ℕ → Port → Bytes
put_port p i k = store (store p i k.hi) (i + 1) k.lo

-- The MSS option at `o`, when it is larger than the clamp.
unfoldable pub lower_mss : ℕ → Bytes → ℕ → ℕ → Bytes
lower_mss mss p csum o =
    if ltb mss (be16 p (o + 2))
    then csum_adjust_nz (put16 p (o + 2) mss) csum (p (o + 2) ∷ p (o + 3) ∷ [])
        (put16 p (o + 2) mss (o + 2) ∷ put16 p (o + 2) mss (o + 3) ∷ [])
    else p

-- The loop of `clamp_mss` at option offset `i`; each round moves it on, and `off` is at most 60.
unfoldable pub clamp_options : ℕ → ℕ → Bytes → ℕ → ℕ → ℕ → ℕ → Bytes
clamp_options zero mss p l4 off csum i = p
clamp_options (suc fuel) mss p l4 off csum i =
    let kind = p (l4 + i) in
    let olen = p (l4 + i + 1) in
    let rest = clamp_options fuel mss p l4 off csum (if kind == 1 then i + 1 else i + olen) in
    if not (ltb (i + 1) off) || kind == 0
    then p
    else if kind == 1
    then rest
    else if ltb olen 2 || ltb off (i + olen)
    then p
    else if kind == 2 && olen == 4
    then lower_mss mss p csum (l4 + i)
    else rest

abbrev pub data_offset : Bytes → ℕ → ℕ
data_offset p l4 = p (l4 + 12) / 16 * 4

unfoldable pub clamp_mss : ℕ → Bytes → ℕ → ℕ → ℕ → Bytes
clamp_mss mss p l4 l4avail csum =
    if mss == 0 || bit_and (p (l4 + 13)) 0x02 == 0
    then p
    else if leb (data_offset p l4) 20 || ltb l4avail (data_offset p l4)
    then p
    else clamp_options 64 mss p l4 (data_offset p l4) csum 20
