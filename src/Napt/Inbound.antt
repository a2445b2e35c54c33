-- ===== src/Napt/Inbound.antt =====
-- `napt_inbound` of src/napt.c, and the two paths together.
use molewire.Base.{
  ℕ, ◌+◌, ◌-◌, ◌≤◌, ◌<◌, ◌≡◌, ◌⊎◌, ◌↔◌, inl, inr, refl, ◌∙◌, arith, Bool-cases, Option-cases, true,
  false, ◌&&◌, ◌||◌, not, some, ◌==◌, ltb, leb, Bytes, be16,
}
use molewire.Napt.Fields.{parse-IsView, MissesIp-behind, MissesPort-behind}
use molewire.Napt.Frame.{rewrite_ip-ne, rewrite_port-ne}
use molewire.Napt.Packet.{PktView, parse, keyfield, ip_at}
use molewire.Napt.Search.{ip_equal_iff}
use molewire.Napt.Table.{ip_equal, NaptEntry, napt_max, napt_port_base, Napt, entry_live}
use molewire.Napt.Translate.{
  miss, rewrite_ip, translate_in, inbound_port, inbound_view, napt_inbound,
}

-- A packet that is for the external address and the NAT port of a live entry.
pub record Hits (s : Napt) (p : Bytes) (avail now : ℕ) (v : PktView) (k : ℕ) : Type 0 where
  pub parsed : parse p avail ≡ some v
  pub slot_lt : k < napt_max
  pub address : ip_at p 16 ≡ s.ext
  pub key : be16 p (keyfield v false) ≡ napt_port_base + k
  pub echo_reply : v.proto ≡ 1 → p v.ihl ≡ 0
  pub live : entry_live (s.table k) now ≡ true
  pub proto_is : (s.table k).proto ≡ v.proto

inbound_port-add :
    (s : Napt) (v : PktView) (p : Bytes) (now k : ℕ)
    → k < napt_max
    → entry_live (s.table k) now ≡ true
    → (s.table k).proto ≡ v.proto
    → inbound_port s v p now (napt_port_base + k) ≡ translate_in s v p now k (s.table k)
unfolding inbound_port
inbound_port-add s v p now k lt live same =
    let slot : (napt_port_base + k) - napt_port_base ≡ k = omega arith in rw slot (ground arith)

inbound_port-cases :
    (s : Napt) (v : PktView) (p : Bytes) (now port : ℕ)
    → (inbound_port s v p now port ≡ miss s p)
      ⊎ ((k : ℕ) × (k < napt_max)
          × (port ≡ napt_port_base + k)
          × (entry_live (s.table k) now ≡ true)
          × ((s.table k).proto ≡ v.proto)
          × (inbound_port s v p now port ≡ translate_in s v p now k (s.table k)))
unfolding inbound_port
inbound_port-cases s v p now port =
    elim (Bool-cases (ltb port napt_port_base || leb (napt_port_base + napt_max) port)) [
      | inl out ↦ inl (rw out)
      | inr inside ↦
          let k = port - napt_port_base in
          elim (Bool-cases
            (not (entry_live (s.table k) now) || not ((s.table k).proto == v.proto))) [
              | inl stale ↦ inl (rw (inside, stale))
              | inr live ↦
                  inr (k, ground arith, ground arith, ground arith, ground arith, rw (inside, live))
            ]
    ]

-- A hit is translated back.
pub napt_inbound-Hits :
    (s : Napt) (p : Bytes) (avail now : ℕ) (v : PktView) (k : ℕ)
    → Hits s p avail now v k
    → napt_inbound s p avail now ≡ translate_in s v p now k (s.table k)
unfolding napt_inbound inbound_view
napt_inbound-Hits s p avail now v k h =
    let there = ip_equal_iff (ip_at p 16) s.ext in
    let echo : (v.proto == 1 && not (p v.ihl == 0)) ≡ false = ground (arith, h.echo_reply) in
    rw (h.parsed, there.1 h.address, echo, h.key)
      (inbound_port-add s v p now k h.slot_lt h.live h.proto_is)

-- A call misses, or the packet was for a live entry.
pub napt_inbound-cases :
    (s : Napt) (p : Bytes) (avail now : ℕ)
    → (napt_inbound s p avail now ≡ miss s p) ⊎ ((v : PktView) × (k : ℕ) × Hits s p avail now v k)
unfolding napt_inbound inbound_view
napt_inbound-cases s p avail now = elim (Option-cases (parse p avail)) [
  | inl bad ↦ inl (rw bad)
  | inr (v, parsed) ↦ elim (Bool-cases (ip_equal (ip_at p 16) s.ext)) [
    | inr other ↦ inl (rw (parsed, other))
    | inl ours ↦ elim (Bool-cases (v.proto == 1 && not (p v.ihl == 0))) [
      | inl request ↦ inl (rw (parsed, ours, request))
      | inr echo ↦ elim (inbound_port-cases s v p now (be16 p (keyfield v false))) [
        | inl missed ↦ inl (rw (parsed, ours, echo) missed)
        | inr (k, lt, key, live, same, _) ↦ inr (
          v,
          k,
          record {
            parsed = parsed;
            slot_lt = lt;
            address = (ip_equal_iff (ip_at p 16) s.ext).0 ours;
            key = key;
            echo_reply = ground arith;
            live = live;
            proto_is = same;
          },
        )
      ]
    ]
  ]
]

translate_in-translated :
    (s : Napt) (v : PktView) (p : Bytes) (now k : ℕ) (e : NaptEntry)
    → (translate_in s v p now k e).translated ≡ true
unfolding translate_in
translate_in-translated s v p now k e = refl

-- `napt_inbound` returns true exactly when the packet parses and is for the external address and
-- the NAT port of a live entry of its protocol (and no ICMP message but an echo reply).
napt_inbound-translated_iff :
    (s : Napt) (p : Bytes) (avail now : ℕ)
    → ((napt_inbound s p avail now).translated ≡ true)
      ↔ ((v : PktView) × (k : ℕ) × Hits s p avail now v k)
napt_inbound-translated_iff s p avail now = (
  λ h. elim (napt_inbound-cases s p avail now) [ inl missed ↦ cc | inr hit ↦ hit ],
  λ hit.
      rw (napt_inbound-Hits s p avail now hit.0 hit.1 hit.2)
        (translate_in-translated s hit.0 p now hit.1 (s.table hit.1)),
)

-- A call of `napt_inbound` that returns false leaves the state and the packet as they were.
napt_inbound-miss :
    (s : Napt) (p : Bytes) (avail now : ℕ)
    → (napt_inbound s p avail now).translated ≡ false
    → ((napt_inbound s p avail now).pkt ≡ p) × ((napt_inbound s p avail now).state ≡ s)
napt_inbound-miss s p avail now h = elim (napt_inbound-cases s p avail now) [
  | inl missed ↦ (rw missed refl, rw missed refl)
  | inr (v, k, hit) ↦
      cc (
        napt_inbound-Hits s p avail now v k hit,
        h,
        translate_in-translated s v p now k (s.table k),
      )
]

-- `napt_inbound` returns true exactly when the packet parses and is for the external address and
-- the NAT port of a live entry of its protocol (and no ICMP message but an echo reply), whatever the
-- external address is, 0 ("disabled" in the code's comments) included. Where it returns false, the
-- packet and the state are as they were.
pub napt_inbound-decides :
    (s : Napt) (p : Bytes) (avail now : ℕ)
    → let out = napt_inbound s p avail now in
      ((out.translated ≡ true) ↔ ((v : PktView) × (k : ℕ) × Hits s p avail now v k))
      × ((out.translated ≡ true) ⊎ ((out.pkt ≡ p) × (out.state ≡ s)))
napt_inbound-decides s p avail now = (
  napt_inbound-translated_iff s p avail now,
  elim (Bool-cases (napt_inbound s p avail now).translated) [
    | inl done ↦ inl done
    | inr refused ↦ inr (napt_inbound-miss s p avail now refused)
  ],
)

-- Whatever `napt_inbound` returns, nothing behind the bytes that are present is written.
pub napt_inbound-in_bounds :
    (s : Napt) (p : Bytes) (avail now j : ℕ) → avail ≤ j → (napt_inbound s p avail now).pkt j ≡ p j
unfolding translate_in
napt_inbound-in_bounds s p avail now j h = elim (napt_inbound-cases s p avail now) [
  | inl missed ↦ rw missed refl
  | inr (v, k, hit) ↦
      let w = parse-IsView p avail hit.parsed in
      let e = s.table k in
      rw (napt_inbound-Hits s p avail now v k hit) (
        rewrite_port-ne s.mss v (rewrite_ip v p 16 e.inner_ip) (keyfield v false) e.inner_port j
          (MissesPort-behind false j w h)
        ∙ rewrite_ip-ne v p 16 e.inner_ip j (MissesIp-behind 16 j w (omega arith) h))
]
