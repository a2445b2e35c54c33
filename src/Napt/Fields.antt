-- ===== src/Napt/Fields.antt =====
-- What `parse` of src/napt.c promises of a header, and the fields that a rewrite leaves in a packet.
use molewire.Base.{ℕ, ◌+◌, ◌*◌, ◌/◌, ◌≤◌, ◌≡◌, ◌⊎◌, arith, Bool, true, false, some, Bytes}
use molewire.Napt.Packet.{
  PktView, parse, parse_transport, need, keyfield, put_ip, put_port, ip_at, port_at,
}
use molewire.Napt.Table.{Ip4, Port}
use molewire.Napt.Frame.{MissesIp, MissesPort, rewrite_ip-ne, rewrite_port-ne}
use molewire.Napt.Translate.{rewrite_ip, rewrite_port}

pub record IsView (p : Bytes) (avail : ℕ) (v : PktView) : Type 0 where
  pub header : 20 ≤ v.ihl
  pub words : v.ihl ≡ 2 * (v.ihl / 2)
  pub fits : v.ihl + v.l4avail ≡ avail
  pub proto_is : v.proto ≡ p 9
  pub proto_known : (v.proto ≡ 6) ⊎ ((v.proto ≡ 17) ⊎ (v.proto ≡ 1))
  pub needed : need v.proto ≤ v.l4avail

pub parse-IsView : (p : Bytes) (avail : ℕ) {v : PktView} → parse p avail ≡ some v → IsView p avail v
unfolding parse parse_transport
parse-IsView p avail h = ground arith

-- The source or destination key and the checksums, options included, all lie in the packet.
pub MissesPort-behind :
    {p : Bytes} {avail : ℕ} {v : PktView} (src : Bool) (j : ℕ)
    → IsView p avail v
    → avail ≤ j
    → MissesPort v (keyfield v src) j
MissesPort-behind true j w h = ground arith
MissesPort-behind false j w h = ground arith

pub MissesIp-behind :
    {p : Bytes} {avail : ℕ} {v : PktView} (at : ℕ) (j : ℕ)
    → IsView p avail v
    → at ≤ 16
    → avail ≤ j
    → MissesIp v at j
MissesIp-behind at j w a h = ground arith

pub ip_at-put_ip : (p : Bytes) (i : ℕ) (a : Ip4) → ip_at (put_ip p i a) i ≡ a
unfolding put_ip
ip_at-put_ip p i a = ground arith

pub port_at-put_port : (p : Bytes) (i : ℕ) (k : Port) → port_at (put_port p i k) i ≡ k
unfolding put_port
port_at-put_port p i k = ground arith

pub ip_at-rewrite_ip :
    (v : PktView) (p : Bytes) (at : ℕ) (ip : Ip4) → ip_at (rewrite_ip v p at ip) at ≡ ip
unfolding rewrite_ip
ip_at-rewrite_ip v p at ip = ip_at-put_ip _ at ip

pub port_at-rewrite_port :
    (mss : ℕ) (v : PktView) (p : Bytes) (at : ℕ) (port : Port)
    → port_at (rewrite_port mss v p at port) at ≡ port
unfolding rewrite_port
port_at-rewrite_port mss v p at port = port_at-put_port _ at port

-- The address fields stand before the transport header, which is all that `rewrite_port` writes.
pub ip_at-rewrite_port :
    (mss : ℕ) (v : PktView) (p : Bytes) (src : Bool) (port : Port) (at : ℕ)
    → at ≤ 16
    → 20 ≤ v.ihl
    → ip_at (rewrite_port mss v p (keyfield v src) port) at ≡ ip_at p at
ip_at-rewrite_port mss v p src port at h w = ground (
  arith,
  rewrite_port-ne mss v p (keyfield v src) port at,
  rewrite_port-ne mss v p (keyfield v src) port (at + 1),
  rewrite_port-ne mss v p (keyfield v src) port (at + 2),
  rewrite_port-ne mss v p (keyfield v src) port (at + 3),
)

-- `rewrite_ip` leaves the other address alone.
pub ip_at-rewrite_ip_other :
    (v : PktView) (p : Bytes) (at : ℕ) (ip : Ip4) (other : ℕ)
    → (other + 4 ≤ at) ⊎ (at + 4 ≤ other)
    → (12 ≤ other) × (other ≤ 16)
    → 20 ≤ v.ihl
    → ip_at (rewrite_ip v p at ip) other ≡ ip_at p other
ip_at-rewrite_ip_other v p at ip other far h w = ground (
  arith,
  rewrite_ip-ne v p at ip other,
  rewrite_ip-ne v p at ip (other + 1),
  rewrite_ip-ne v p at ip (other + 2),
  rewrite_ip-ne v p at ip (other + 3),
)
