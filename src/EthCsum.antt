-- ===== src/EthCsum.antt =====
-- The egress checksum restoration, src/eth_csum.c: `f` is the Ethernet frame in one flat buffer of
-- `flen` bytes, and the IPv4 header stands at offset 14.
pub mod Laws
pub mod Restored
mod Tests
use molewire.Base.{
  ℕ, zero, suc, ◌+◌, ◌-◌, ◌*◌, ◌/◌, ◌%◌, ◌^◌, Bool, true, false, not, ◌&&◌, ◌||◌, bit_and, ltb, leb,
  ◌==◌, if◌then◌else◌, Bytes, be16, put16,
}
use molewire.Napt.Checksum.{fold_carry, complement16}

-- The sum of the `n` bytes from `at` on, as big-endian 16-bit words.
unfoldable pub csum_add : ℕ → Bytes → ℕ → ℕ → ℕ
csum_add sum d at zero = sum
csum_add sum d at (suc zero) = sum + d at * 256
csum_add sum d at (suc (suc n)) = csum_add (sum + be16 d at) d (at + 2) n

unfoldable pub csum_finish : ℕ → ℕ
csum_finish s = complement16 (fold_carry 3 s)

abbrev pub is_zero16 : Bytes → ℕ → Bool
is_zero16 f at = f at == 0 && f (at + 1) == 0

abbrev pub ip_header_length : Bytes → ℕ
ip_header_length f = bit_and (f 14) 0x0F * 4

abbrev pub total_length : Bytes → ℕ
total_length f = be16 f 16

-- The frame is IPv4 and its lengths fit; the sum with the total length is cast to 16 bits.
unfoldable pub is_ipv4_frame : Bytes → ℕ → Bool
is_ipv4_frame f flen =
    not (ltb flen 34 || not (f 12 == 0x08) || not (f 13 == 0x00))
    && not (
        not (f 14 / 16 == 4)
        || ltb (ip_header_length f) 20
        || ltb (total_length f) (ip_header_length f)
        || ltb flen ((14 + total_length f) % 65536))

unfoldable pub restore_header : Bytes → Bytes
restore_header f =
    if is_zero16 f 24 then put16 f 24 (csum_finish (csum_add 0 f 14 (ip_header_length f))) else f

-- The pseudo header: source and destination address, protocol and length.
abbrev pub pseudo_header : Bytes → ℕ → ℕ
pseudo_header f l4len = csum_add 0 f 26 8 + (f 23 + l4len)

unfoldable pub restore_icmp : Bytes → ℕ → ℕ → Bytes
restore_icmp f l4 l4len =
    if leb 8 l4len && is_zero16 f (l4 + 2)
    then put16 f (l4 + 2) (csum_finish (csum_add 0 f l4 l4len))
    else f

unfoldable pub restore_tcp : Bytes → ℕ → ℕ → Bytes
restore_tcp f l4 l4len =
    if leb 20 l4len && is_zero16 f (l4 + 16)
    then put16 f (l4 + 16) (csum_finish (csum_add (pseudo_header f l4len) f l4 l4len))
    else f

-- A UDP checksum of 0 means "none", so 0xFFFF goes in its place.
abbrev pub udp_form : ℕ → ℕ
udp_form c = if c == 0 then 0xFFFF else c

unfoldable pub restore_udp : Bytes → ℕ → ℕ → Bytes
restore_udp f l4 l4len =
    if leb 8 l4len && is_zero16 f (l4 + 6)
    then put16 f (l4 + 6) (udp_form (csum_finish (csum_add (pseudo_header f l4len) f l4 l4len)))
    else f

-- By protocol: ICMP, TCP or UDP.
unfoldable pub restore_transport : Bytes → ℕ → ℕ → Bytes
restore_transport f l4 l4len =
    if f 23 == 1
    then restore_icmp f l4 l4len
    else if f 23 == 6
    then restore_tcp f l4 l4len
    else if f 23 == 17
    then restore_udp f l4 l4len
    else f

abbrev pub is_fragment : Bytes → Bool
is_fragment f = not (bit_and (f 20) 0x3F == 0) || not (f 21 == 0)

-- `chained`: there is no buffer, or it goes on in another.
unfoldable pub eth_csum_restore : Bool → Bytes → ℕ → Bytes
eth_csum_restore chained f flen =
    if chained || not (is_ipv4_frame f flen)
    then f
    else let g = restore_header f in
      if is_fragment g
      then g
      else restore_transport g (14 + ip_header_length g) (total_length g - ip_header_length g)
