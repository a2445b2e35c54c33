-- ===== src/Napt/RoundTrip.antt =====
-- The two packet paths of src/napt.c together: replies come back to the host that sent.
use molewire.Base.{
  ℕ, ◌+◌, ◌≤◌, ◌<◌, ◌≡◌, ◌≢◌, ◌⊎◌, inl, refl, sym, ◌∙◌, arith, true, false, some, Bytes, be16,
}
use molewire.Napt.Fields.{
  parse-IsView, ip_at-rewrite_ip, port_at-rewrite_port, ip_at-rewrite_port, ip_at-rewrite_ip_other,
}
use molewire.Napt.Packet.{PktView, parse, keyfield, ip_at, port_at}
use molewire.Napt.Table.{
  NaptEntry, napt_max, napt_port_base, Napt, entry_live, age_ms, timeout_ms, tcp_timeout_ms,
}
use molewire.Napt.Translate.{
  Outcome, rewrite_ip, nat_port, translate_in, napt_inbound, napt_outbound,
}
use molewire.Napt.Outbound.{Masqueraded, napt_outbound-Masqueraded, napt_outbound-in_bounds}
use molewire.Napt.Inbound.{Hits, napt_inbound-Hits, napt_inbound-in_bounds}

-- The shortest of the idle timeouts, that of a closing TCP flow.
abbrev pub shortest_timeout_ms : ℕ
shortest_timeout_ms = 30000

shortest-le-timeout : (e : NaptEntry) → shortest_timeout_ms ≤ timeout_ms e
unfolding timeout_ms tcp_timeout_ms
shortest-le-timeout e = ground arith

pub entry_live_of_age :
    (e : NaptEntry) (now : ℕ)
    → e.proto ≢ 0
    → age_ms now e.last_ms < shortest_timeout_ms
    → entry_live e now ≡ true
unfolding entry_live
entry_live_of_age e now h k = ground (arith, shortest-le-timeout e)

-- A reply to a packet that went out with view `v` as `sent`.
pub record IsReply (s : Napt) (v : PktView) (sent q : Bytes) (avail : ℕ) (w : PktView)
    : Type 0 where
  pub parsed : parse q avail ≡ some w
  pub proto_is : w.proto ≡ v.proto
  pub address : ip_at q 16 ≡ ip_at sent 12
  pub key : port_at q (keyfield w false) ≡ port_at sent (keyfield v true)
  pub echo_reply : w.proto ≡ 1 → q w.ihl ≡ 0

be16_of_port_at :
    (q : Bytes) (at k : ℕ)
    → k < napt_max
    → port_at q at ≡ nat_port k
    → be16 q at ≡ napt_port_base + k
be16_of_port_at q at k lt h = ground arith

-- A reply reaches a live mapping.
reply-Hits :
    (s : Napt) (p q : Bytes) (now later availq : ℕ) (v w : PktView) (k : ℕ) (out : Outcome)
    → Masqueraded s p now v k out
    → IsReply s v out.pkt q availq w
    → (v.proto ≡ 6) ⊎ ((v.proto ≡ 17) ⊎ (v.proto ≡ 1))
    → age_ms later now < shortest_timeout_ms
    → Hits out.state q availq later w k
reply-Hits s p q now later availq v w k out m r known age = record {
  parsed = r.parsed;
  slot_lt = m.slot_lt;
  address = r.address ∙ m.source_is ∙ sym m.settings.0;
  key = be16_of_port_at q (keyfield w false) k m.slot_lt (r.key ∙ m.key_is);
  echo_reply = r.echo_reply;
  live =
      entry_live_of_age (out.state.table k) later (ground (arith, m.maps.proto_is)) (rw m.used age);
  proto_is = m.maps.proto_is ∙ sym r.proto_is;
}

translate_in_fields :
    (s : Napt) (w : PktView) (q : Bytes) (now k : ℕ) (e : NaptEntry)
    → 20 ≤ w.ihl
    → ((translate_in s w q now k e).translated ≡ true)
      × (ip_at (translate_in s w q now k e).pkt 16 ≡ e.inner_ip)
      × (port_at (translate_in s w q now k e).pkt (keyfield w false) ≡ e.inner_port)
      × (ip_at (translate_in s w q now k e).pkt 12 ≡ ip_at q 12)
unfolding translate_in
translate_in_fields s w q now k e h = (
  refl,
  ip_at-rewrite_port s.mss w (rewrite_ip w q 16 e.inner_ip) false e.inner_port 16 (omega arith) h
      ∙ ip_at-rewrite_ip w q 16 e.inner_ip,
  port_at-rewrite_port s.mss w (rewrite_ip w q 16 e.inner_ip) (keyfield w false) e.inner_port,
  ip_at-rewrite_port s.mss w (rewrite_ip w q 16 e.inner_ip) false e.inner_port 12 (omega arith) h
      ∙ ip_at-rewrite_ip_other w q 16 e.inner_ip 12 (inl (omega arith)) (omega arith) h,
)

-- A packet is sent, and a reply of its protocol (an echo reply to an echo request) parses and comes
-- to the address and port that the packet bears, within the shortest timeout: the reply is
-- translated, its destination is the inner address and port (or echo id) of the packet, and its
-- source address is as it was.
pub napt_inbound-napt_outbound :
    (s : Napt) (p q : Bytes) (avail availq now later : ℕ) (v w : PktView)
    → parse p avail ≡ some v
    → (napt_outbound s p avail now).translated ≡ true
    → IsReply s v (napt_outbound s p avail now).pkt q availq w
    → age_ms later now < shortest_timeout_ms
    → let back = napt_inbound (napt_outbound s p avail now).state q availq later in
      (back.translated ≡ true)
      × (ip_at back.pkt 16 ≡ ip_at p 12)
      × (port_at back.pkt (keyfield w false) ≡ port_at p (keyfield v true))
      × (ip_at back.pkt 12 ≡ ip_at q 12)
napt_inbound-napt_outbound s p q avail availq now later v w parsed sent r age =
    let out = napt_outbound s p avail now in
    let (k, m) = napt_outbound-Masqueraded s p avail now v parsed sent in
    let known = (parse-IsView p avail parsed).proto_known in
    let hit = reply-Hits s p q now later availq v w k out m r known age in
    let e = out.state.table k in
    let (done, to_ip, to_port, from) =
      translate_in_fields out.state w q later k e (parse-IsView q availq r.parsed).header in
    rw (napt_inbound-Hits out.state q availq later w k hit)
      (done, to_ip ∙ m.maps.ip_is, to_port ∙ m.maps.port_is, from)

-- Neither `napt_outbound` nor `napt_inbound`, whatever it returns, writes behind the bytes that are
-- present.
pub both_paths-in_bounds :
    (s : Napt) (p : Bytes) (avail now j : ℕ)
    → avail ≤ j
    → ((napt_outbound s p avail now).pkt j ≡ p j) × ((napt_inbound s p avail now).pkt j ≡ p j)
both_paths-in_bounds s p avail now j h =
    (napt_outbound-in_bounds s p avail now j h, napt_inbound-in_bounds s p avail now j h)
