-- ===== src/Napt/Frame.antt =====
-- Which bytes of a packet the two paths of src/napt.c write.
use molewire.Base.{
  ℕ, zero, suc, ◌+◌, ◌≤◌, ◌<◌, ◌≡◌, ◌≢◌, ◌∙◌, ◌⊎◌, refl, arith, List, [], ◌∷◌, ◌==◌, if◌then◌else◌,
  Bytes, put16,
}
use molewire.Napt.Checksum.{csum_adjust, csum_adjust_nz, csum_adjust_udp}
use molewire.Napt.Packet.{
  ip_at, port_at, PktView, put_ip, put_port, lower_mss, clamp_options, clamp_mss, data_offset,
}
use molewire.Napt.Table.{Ip4, Port, ip_bytes, port_bytes}
use molewire.Napt.Translate.{adjust_transport, rewrite_ip, rewrite_port}

-- `j` is neither of the two bytes at `at`.
abbrev pub Misses : ℕ → ℕ → Type 0
Misses at j = (j ≢ at) × (j ≢ at + 1)

module _ (p : Bytes) (at : ℕ) (old new : List ℕ) (j : ℕ) (h : Misses at j) where
  pub csum_adjust_nz-ne : csum_adjust_nz p at old new j ≡ p j
  unfolding csum_adjust_nz csum_adjust
  csum_adjust_nz-ne = ground arith

  pub csum_adjust_udp-ne : csum_adjust_udp p at old new j ≡ p j
  unfolding csum_adjust_udp csum_adjust
  csum_adjust_udp-ne = ground arith

pub put_ip-ne : (p : Bytes) (i : ℕ) (a : Ip4) (j : ℕ) → (j < i) ⊎ (i + 4 ≤ j) → put_ip p i a j ≡ p j
unfolding put_ip
put_ip-ne p i a j h = ground arith

pub put_port-ne : (p : Bytes) (i : ℕ) (k : Port) (j : ℕ) → Misses i j → put_port p i k j ≡ p j
unfolding put_port
put_port-ne p i k j h = ground arith

module _ (mss : ℕ) (l4 off csum j : ℕ) (h : Misses csum j) where
  lower_mss-ne : (p : Bytes) (o : ℕ) → (j < o) ⊎ (o + 4 ≤ j) → lower_mss mss p csum o j ≡ p j
  unfolding lower_mss
  lower_mss-ne p o far = ground (
    arith,
    csum_adjust_nz-ne (put16 p (o + 2) mss) csum (p (o + 2) ∷ p (o + 3) ∷ [])
        (put16 p (o + 2) mss (o + 2) ∷ put16 p (o + 2) mss (o + 3) ∷ []) j h,
  )

  clamp_options-ne :
      (fuel : ℕ) (p : Bytes) (i : ℕ)
      → 20 ≤ i
      → (j < l4 + 20) ⊎ (l4 + off ≤ j)
      → clamp_options fuel mss p l4 off csum i j ≡ p j
  unfolding clamp_options
  clamp_options-ne zero p i m far = refl
  clamp_options-ne (suc fuel) p i m far = ground (
    arith,
    lower_mss-ne p (l4 + i),
    clamp_options-ne fuel p (if p (l4 + i) == 1 then i + 1 else i + p (l4 + i + 1)),
  )

-- The clamp writes the checksum and the options, and nothing behind the bytes that are present.
pub clamp_mss-ne :
    (mss : ℕ) (p : Bytes) (l4 l4avail csum j : ℕ)
    → Misses csum j
    → (j < l4 + 20) ⊎ (l4 + l4avail ≤ j)
    → clamp_mss mss p l4 l4avail csum j ≡ p j
unfolding clamp_mss
clamp_mss-ne mss p l4 l4avail csum j h far =
    ground (arith, clamp_options-ne mss l4 (data_offset p l4) csum j h 64 p 20)

-- What `rewrite_ip` can write: the address, the header checksum and the transport checksum.
abbrev pub MissesIp : PktView → ℕ → ℕ → Type 0
MissesIp v at j =
    Misses 10 j
    × ((j < at) ⊎ (at + 4 ≤ j))
    × (v.proto ≡ 6 → Misses (v.ihl + 16) j)
    × (v.proto ≡ 17 → Misses (v.ihl + 6) j)

pub adjust_transport-ne :
    (v : PktView) (p : Bytes) (old new : List ℕ) (j : ℕ)
    → (v.proto ≡ 6 → Misses (v.ihl + 16) j)
    → (v.proto ≡ 17 → Misses (v.ihl + 6) j)
    → adjust_transport v p old new j ≡ p j
unfolding adjust_transport
adjust_transport-ne v p old new j h k =
    ground (
      arith,
      csum_adjust_nz-ne p (v.ihl + 16) old new j,
      csum_adjust_udp-ne p (v.ihl + 6) old new j,
    )

pub rewrite_ip-ne :
    (v : PktView) (p : Bytes) (at : ℕ) (ip : Ip4) (j : ℕ)
    → MissesIp v at j
    → rewrite_ip v p at ip j ≡ p j
unfolding rewrite_ip
rewrite_ip-ne v p at ip j h =
    let old = ip_bytes (ip_at p at) in
    let q = csum_adjust_nz p 10 old (ip_bytes ip) in
    put_ip-ne (adjust_transport v q old (ip_bytes ip)) at ip j h.1
    ∙ adjust_transport-ne v q old (ip_bytes ip) j h.2 h.3
    ∙ csum_adjust_nz-ne p 10 old (ip_bytes ip) j h.0

-- What `rewrite_port` can write: the port or id, the transport checksum and the options.
abbrev pub MissesPort : PktView → ℕ → ℕ → Type 0
MissesPort v at j =
    Misses at j
    × (v.proto ≡ 6 → Misses (v.ihl + 16) j × ((j < v.ihl + 20) ⊎ (v.ihl + v.l4avail ≤ j)))
    × (v.proto ≡ 17 → Misses (v.ihl + 6) j)
    × (v.proto ≢ 6 → v.proto ≢ 17 → Misses (v.ihl + 2) j)

pub rewrite_port-ne :
    (mss : ℕ) (v : PktView) (p : Bytes) (at : ℕ) (port : Port) (j : ℕ)
    → MissesPort v at j
    → rewrite_port mss v p at port j ≡ p j
unfolding rewrite_port
rewrite_port-ne mss v p at port j h =
    let old = port_bytes (port_at p at) in
    let new = port_bytes port in
    let q = csum_adjust_nz p (v.ihl + 16) old new in
    let c = clamp_mss mss q v.ihl v.l4avail (v.ihl + 16) in
    ground (
      arith,
      put_port-ne
          (if v.proto == 6
            then c
            else if v.proto == 17
            then csum_adjust_udp p (v.ihl + 6) old new
            else csum_adjust_nz p (v.ihl + 2) old new)
          at port j,
      clamp_mss-ne mss q v.ihl v.l4avail (v.ihl + 16) j,
      csum_adjust_nz-ne p (v.ihl + 16) old new j,
      csum_adjust_udp-ne p (v.ihl + 6) old new j,
      csum_adjust_nz-ne p (v.ihl + 2) old new j,
    )
