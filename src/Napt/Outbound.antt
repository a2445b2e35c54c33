-- ===== src/Napt/Outbound.antt =====
-- `napt_outbound` of src/napt.c: what it does to the packet and to the table.
use molewire.Base.{
  ℕ, ◌+◌, ◌%◌, ◌^◌, ◌≤◌, ◌<◌, ◌≡◌, ◌≢◌, ◌⊎◌, inl, inr, refl, ◌∙◌, subst, arith, Bool-cases,
  Option-cases, true, false, ◌&&◌, not, none, some, ◌==◌, Bytes,
}
use molewire.Napt.Fields.{
  IsView, parse-IsView, MissesIp-behind, MissesPort-behind, ip_at-rewrite_ip, port_at-rewrite_port,
  ip_at-rewrite_port, ip_at-rewrite_ip_other,
}
use molewire.Napt.Frame.{rewrite_ip-ne, rewrite_port-ne}
use molewire.Napt.Packet.{PktView, parse, keyfield, ip_at, port_at}
use molewire.Napt.Search.{Maps, entry_matches-Maps, search_slot-existing, search_slot-fresh}
use molewire.Napt.Table.{
  NaptEntry, napt_max, Napt, Flow, Slot, existing, fresh, full, search_slot, new_entry, tcp_track,
}
use molewire.Napt.Translate.{
  Outcome, drop, rewrite_ip, touch_entry, nat_port, translate_out, flow_of, outbound_slot,
  outbound_view, no_ext_ip, napt_outbound,
}

-- The search that `napt_outbound` makes.
abbrev pub chosen : Napt → PktView → Bytes → ℕ → Slot
chosen s v p now = search_slot s.table (flow_of v p) now napt_max 0 none

-- Slot `k` was chosen, with entry `e`.
abbrev pub Chose : Slot → Napt → Flow → ℕ → NaptEntry → Type 0
Chose slot s f k e =
    (slot ≡ existing k) × (e ≡ s.table k) ⊎ (slot ≡ fresh k) × (e ≡ new_entry (s.table k) f)

-- A call that returns true.
pub record Sent (s : Napt) (p : Bytes) (avail now : ℕ) : Type 0 where
  pub view : PktView
  pub slot : ℕ
  pub entry : NaptEntry
  pub parsed : parse p avail ≡ some view
  pub chose : Chose (chosen s view p now) s (flow_of view p) slot entry
  pub result : napt_outbound s p avail now ≡ translate_out s view p now slot entry

outbound_slot-Chose :
    (s : Napt) (v : PktView) (p : Bytes) (now : ℕ) (slot : Slot)
    → (outbound_slot s v p now slot ≡ drop s p)
      ⊎ ((k : ℕ) × (e : NaptEntry) × Chose slot s (flow_of v p) k e
          × (outbound_slot s v p now slot ≡ translate_out s v p now k e))
unfolding outbound_slot
outbound_slot-Chose s v p now full = inl refl
outbound_slot-Chose s v p now (existing i) = inr (i, s.table i, inl (refl, refl), refl)
outbound_slot-Chose s v p now (fresh i) =
    inr (i, new_entry (s.table i) (flow_of v p), inr (refl, refl), refl)

-- Each call drops the packet, or sends it.
pub napt_outbound-cases :
    (s : Napt) (p : Bytes) (avail now : ℕ)
    → (napt_outbound s p avail now ≡ drop s p) ⊎ Sent s p avail now
unfolding napt_outbound outbound_view
napt_outbound-cases s p avail now = elim (Bool-cases (no_ext_ip s)) [
  | inl off ↦ inl (rw off)
  | inr on ↦ elim (Option-cases (parse p avail)) [
    | inl bad ↦ inl (rw (on, bad))
    | inr (v, parsed) ↦ elim (Bool-cases (v.proto == 1 && not (p v.ihl == 8))) [
      | inl other ↦ inl (rw (on, parsed, other))
      | inr echo ↦ elim (outbound_slot-Chose s v p now (chosen s v p now)) [
        | inl dropped ↦ inl (rw (on, parsed, echo) dropped)
        | inr (k, e, chose, sent) ↦ inr (record {
          view = v;
          slot = k;
          entry = e;
          parsed = parsed;
          chose = chose;
          result = rw (on, parsed, echo) sent;
        })
      ]
    ]
  ]
]

-- The slot is one of the table's, and its entry is a mapping of the packet's flow.
pub Chose-Maps :
    (s : Napt) (f : Flow) (now k : ℕ) (e : NaptEntry)
    → Chose (search_slot s.table f now napt_max 0 none) s f k e
    → (k < napt_max) × Maps e f
unfolding new_entry
Chose-Maps s f now k e (inl (q, same)) =
    let (low, high, hit) = search_slot-existing s.table f now napt_max 0 none q in
    (high, rw same (entry_matches-Maps (s.table k) f (ground arith)))
Chose-Maps s f now k e (inr (q, new)) = (
  ground (arith, search_slot-fresh s.table f now napt_max 0 none q),
  rw new (record { ip_is = refl; port_is = refl; proto_is = refl }),
)

translate_out-translated :
    (s : Napt) (v : PktView) (p : Bytes) (now k : ℕ) (e : NaptEntry)
    → (translate_out s v p now k e).translated ≡ true
unfolding translate_out
translate_out-translated s v p now k e = refl

pub sent_of_translated :
    (s : Napt) (p : Bytes) (avail now : ℕ)
    → (napt_outbound s p avail now).translated ≡ true
    → Sent s p avail now
sent_of_translated s p avail now h = elim (napt_outbound-cases s p avail now) [
  | inl dropped ↦ cc
  | inr sent ↦ sent
]

-- A call of `napt_outbound` that returns false leaves the packet and the state as they were, but for
-- one drop more in the count.
pub napt_outbound-fails_closed :
    (s : Napt) (p : Bytes) (avail now : ℕ)
    → (napt_outbound s p avail now).translated ≡ false
    → ((napt_outbound s p avail now).pkt ≡ p)
      × ((napt_outbound s p avail now).state ≡ record s { drops = (s.drops + 1) % 2 ^ 32 })
napt_outbound-fails_closed s p avail now h = elim (napt_outbound-cases s p avail now) [
  | inl dropped ↦ (rw dropped refl, rw dropped refl)
  | inr sent ↦ cc (sent.result, h, translate_out-translated s sent.view p now sent.slot sent.entry)
]

-- Nothing behind the bytes that are present is written.
pub napt_outbound-in_bounds :
    (s : Napt) (p : Bytes) (avail now j : ℕ) → avail ≤ j → (napt_outbound s p avail now).pkt j ≡ p j
unfolding translate_out
napt_outbound-in_bounds s p avail now j h = elim (napt_outbound-cases s p avail now) [
  | inl dropped ↦ rw dropped refl
  | inr sent ↦
      let v = sent.view in
      let w = parse-IsView p avail sent.parsed in
      rw sent.result (
        rewrite_port-ne s.mss v (rewrite_ip v p 12 s.ext) (keyfield v true) (nat_port sent.slot) j
          (MissesPort-behind true j w h)
        ∙ rewrite_ip-ne v p 12 s.ext j (MissesIp-behind 12 j w (omega arith) h))
]

-- What a translated packet and the table look like, for the flow of the packet that came in.
pub record Masqueraded (s : Napt) (p : Bytes) (now : ℕ) (v : PktView) (k : ℕ) (out : Outcome)
    : Type 0 where
  pub slot_lt : k < napt_max
  pub source_is : ip_at out.pkt 12 ≡ s.ext
  pub key_is : port_at out.pkt (keyfield v true) ≡ nat_port k
  pub destination_is : ip_at out.pkt 16 ≡ ip_at p 16
  pub maps : Maps (out.state.table k) (flow_of v p)
  pub used : (out.state.table k).last_ms ≡ now
  pub others : (j : ℕ) → j ≢ k → out.state.table j ≡ s.table j
  pub settings : (out.state.ext ≡ s.ext) × (out.state.mss ≡ s.mss) × (out.state.drops ≡ s.drops)

translate_out-Masqueraded :
    (s : Napt) (p : Bytes) (avail now : ℕ) (v : PktView) (k : ℕ) (e : NaptEntry)
    → IsView p avail v
    → k < napt_max
    → Maps e (flow_of v p)
    → Masqueraded s p now v k (translate_out s v p now k e)
unfolding translate_out touch_entry tcp_track
translate_out-Masqueraded s p avail now v k e w lt m =
    let q = rewrite_ip v p 12 s.ext in
    record {
      slot_lt = lt;
      source_is =
          ip_at-rewrite_port s.mss v q true (nat_port k) 12 (omega arith) w.header
          ∙ ip_at-rewrite_ip v p 12 s.ext;
      key_is = port_at-rewrite_port s.mss v q (keyfield v true) (nat_port k);
      destination_is =
          ip_at-rewrite_port s.mss v q true (nat_port k) 16 (omega arith) w.header
          ∙ ip_at-rewrite_ip_other v p 12 s.ext 16 (inr (omega arith)) (omega arith) w.header;
      maps = ground arith;
      used = ground arith;
      others = λ j ne. ground arith;
      settings = (refl, refl, refl);
    }

pub Sent-Masqueraded :
    (s : Napt) (p : Bytes) (avail now : ℕ) (sent : Sent s p avail now)
    → Masqueraded s p now sent.view sent.slot (napt_outbound s p avail now)
Sent-Masqueraded s p avail now sent =
    let v = sent.view in
    let (lt, m) = Chose-Maps s (flow_of v p) now sent.slot sent.entry sent.chose in
    rw sent.result (
      translate_out-Masqueraded s p avail now v sent.slot sent.entry
        (parse-IsView p avail sent.parsed) lt m)

-- A translated packet bears the external address and the NAT port of its slot, its destination is
-- as it was, and the slot's entry is now a mapping of its flow; no other entry changes.
pub napt_outbound-Masqueraded :
    (s : Napt) (p : Bytes) (avail now : ℕ) (v : PktView)
    → parse p avail ≡ some v
    → (napt_outbound s p avail now).translated ≡ true
    → (k : ℕ) × Masqueraded s p now v k (napt_outbound s p avail now)
napt_outbound-Masqueraded s p avail now v parsed h =
    let sent = sent_of_translated s p avail now h in
    let same : sent.view ≡ v = cc (sent.parsed, parsed) in
    (
      sent.slot,
      subst (λ x. Masqueraded s p now x sent.slot (napt_outbound s p avail now)) same
          (Sent-Masqueraded s p avail now sent),
    )
