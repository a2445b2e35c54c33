-- ===== src/Napt/Ports.antt =====
-- The NAT ports that src/napt.c gives out: one flow keeps its port, and no two live flows share one.
use molewire.Base.{
  ℕ, zero, suc, ◌+◌, ◌≤◌, ◌<◌, ◌≡◌, ◌≢◌, ◌⊎◌, ◌↔◌, Bool-cases, ◌&&◌, ◌==◌, inl, inr, sym, ◌∙◌, ap,
  arith, true, false, Option, none, some, if◌then◌else◌, Bytes,
}
use native.Mathlib.Decide.{dec_lt}
use molewire.Napt.Fields.{parse-IsView}
use molewire.Napt.Packet.{PktView, parse, keyfield, port_at}
use molewire.Napt.Search.{
  ip_equal_iff, port_equal_iff, Maps, Maps-entry_matches, entry_matches-Maps, found,
  search_slot-existing, search_slot-fresh, search_slot-first, search_slot-absent,
}
use molewire.Napt.Table.{
  ip_equal, port_equal, NaptEntry, napt_max, Table, Napt, Flow, Slot, existing, search_slot,
  entry_live, age_ms, first_free,
}
use molewire.Napt.Translate.{nat_port, flow_of, napt_outbound}
use molewire.Napt.Outbound.{Sent, Chose, sent_of_translated, Sent-Masqueraded, Masqueraded}
use molewire.Napt.RoundTrip.{shortest_timeout_ms, entry_live_of_age}

-- No entry that had timed out at `now` is taken for live at `later`, as the millisecond counter's
-- wrap could do.
abbrev pub StaysTimedOut : Table → ℕ → ℕ → Type 0
StaysTimedOut t now later =
    (j : ℕ) → j < napt_max → entry_live (t j) later ≡ true → entry_live (t j) now ≡ true

module _ (t : Table) (f : Flow) (now : ℕ) where
  search_slot-eq-existing :
      (left i : ℕ) (free : Option ℕ) (k : ℕ)
      → i ≤ k
      → k < i + left
      → found t f now k ≡ true
      → ((j : ℕ) → i ≤ j → j < k → found t f now j ≡ false)
      → search_slot t f now left i free ≡ existing k
  unfolding search_slot
  search_slot-eq-existing zero i free k a b hit first = absurd (omega arith)
  search_slot-eq-existing (suc left) i free k a b hit first = elim (dec_lt i k) [
    | yes later ↦ rw (first i (omega arith) later) (
        search_slot-eq-existing left (suc i)
          (if entry_live (t i) now then free else first_free free i) k later (omega arith) hit
          (λ j c d. first j (omega arith) d))
    | no here ↦ (let same : i ≡ k = omega arith in rw (same, hit))
  ]

-- Neither in the table before the call nor at the slot's own place is there another mapping.
Chose-first :
    (s : Napt) (f : Flow) (now k : ℕ) (e : NaptEntry)
    → Chose (search_slot s.table f now napt_max 0 none) s f k e
    → k < napt_max
    → (j : ℕ) → j < k
    → found s.table f now j ≡ false
Chose-first s f now k e (inl (q, _)) lt j h =
    search_slot-first s.table f now napt_max 0 none j q (omega arith) h
Chose-first s f now k e (inr (q, _)) lt j h =
    search_slot-absent s.table f now napt_max 0 none j (λ i r. cc) (omega arith) (omega arith)

Maps-unique : {e : NaptEntry} {f g : Flow} → Maps e f → Maps e g → f ≡ g
Maps-unique a b = ground arith

Chose-existing :
    (s : Napt) (f : Flow) {slot : Slot} {k i : ℕ} {e : NaptEntry}
    → Chose slot s f k e
    → slot ≡ existing i
    → k ≡ i
Chose-existing s f (inl (q, _)) h = cc
Chose-existing s f (inr (q, _)) h = cc

-- An entry that is live is chosen only as the mapping that it is.
Chose-live :
    (s : Napt) (f g : Flow) (now k : ℕ) (e : NaptEntry)
    → Chose (search_slot s.table f now napt_max 0 none) s f k e
    → entry_live (s.table k) now ≡ true
    → Maps (s.table k) g
    → g ≡ f
Chose-live s f g now k e (inl (q, same)) live m =
    let (low, high, hit) = search_slot-existing s.table f now napt_max 0 none q in
    Maps-unique m (entry_matches-Maps (s.table k) f (ground arith))
Chose-live s f g now k e (inr (q, _)) live m =
    ground (arith, search_slot-fresh s.table f now napt_max 0 none q)

same_or_other : (f g : Flow) → (f ≡ g) ⊎ (f ≢ g)
same_or_other f g =
    elim (Bool-cases (f.proto == g.proto && ip_equal f.ip g.ip && port_equal f.port g.port)) [
      | inl same ↦ inl (ground (arith, ip_equal_iff f.ip g.ip, port_equal_iff f.port g.port))
      | inr differ ↦ inr (λ e. ground (arith, ip_equal_iff f.ip g.ip, port_equal_iff f.port g.port))
    ]

-- A second packet, after `napt_outbound` sent one through slot `k`.
module _ (s : Napt) (p q : Bytes) (avail availq now later : ℕ)
    (first : (napt_outbound s p avail now).translated ≡ true)
    (second : (napt_outbound (napt_outbound s p avail now).state q availq later).translated ≡ true)
    (soon : age_ms later now < shortest_timeout_ms) (v w : PktView)
    (parsed : parse p avail ≡ some v) (parsedq : parse q availq ≡ some w) where
  abbrev after : Napt
  after = (napt_outbound s p avail now).state

  abbrev sent : Sent s p avail now
  sent = sent_of_translated s p avail now first

  abbrev resent : Sent after q availq later
  resent = sent_of_translated after q availq later second

  abbrev made : Masqueraded s p now sent.view sent.slot (napt_outbound s p avail now)
  made = Sent-Masqueraded s p avail now sent

  slot_live : entry_live (after.table sent.slot) later ≡ true
  slot_live =
      let known = (parse-IsView p avail sent.parsed).proto_known in
      entry_live_of_age (after.table sent.slot) later (ground (arith, made.maps.proto_is))
        (rw made.used soon)

  view_is : sent.view ≡ v
  view_is = cc (sent.parsed, parsed)

  viewq_is : resent.view ≡ w
  viewq_is = cc (resent.parsed, parsedq)

  flow_is : flow_of sent.view p ≡ flow_of v p
  flow_is = rw view_is

  flowq_is : flow_of resent.view q ≡ flow_of w q
  flowq_is = rw viewq_is

  key_is : port_at (napt_outbound s p avail now).pkt (keyfield v true) ≡ nat_port sent.slot
  key_is = rw view_is at made.key_is

  keyq_is :
      port_at (napt_outbound after q availq later).pkt (keyfield w true) ≡ nat_port resent.slot
  keyq_is = rw viewq_is at (Sent-Masqueraded after q availq later resent).key_is

  -- When the two packets are of one flow, the search ends at the slot of the first.
  same_slot : flow_of v p ≡ flow_of w q → StaysTimedOut s.table now later → resent.slot ≡ sent.slot
  same_slot same stays =
      let f = flow_of resent.view q in
      let k = sent.slot in
      let flows : flow_of sent.view p ≡ f = flow_is ∙ same ∙ sym flowq_is in
      let hit : found after.table f later k ≡ true =
        rw (slot_live, Maps-entry_matches (after.table k) f (rw flows at made.maps)) in
      Chose-existing after f resent.chose (
        search_slot-eq-existing after.table f later napt_max 0 none k (omega arith) made.slot_lt hit
          (λ j low h. ground (
            arith,
            made.others j (omega arith),
            stays j (omega (arith, made.slot_lt)),
            rw flows at
                (Chose-first s (flow_of sent.view p) now k sent.entry sent.chose made.slot_lt j h),
          )))

  other_slot : flow_of v p ≢ flow_of w q → resent.slot ≢ sent.slot
  other_slot differ same = differ (
      sym flow_is
      ∙ Chose-live after (flow_of resent.view q) (flow_of sent.view p) later resent.slot
          resent.entry resent.chose (rw same slot_live) (rw same made.maps)
      ∙ flowq_is)

  -- Of two packets that are sent one after the other, within the shortest timeout, of one flow: both
  -- bear the same NAT port, if no entry that had timed out at the first is live at the second.
  napt_outbound-same_port :
      flow_of v p ≡ flow_of w q
      → StaysTimedOut s.table now later
      → port_at (napt_outbound after q availq later).pkt (keyfield w true)
        ≡ port_at (napt_outbound s p avail now).pkt (keyfield v true)
  napt_outbound-same_port same stays = keyq_is ∙ ap nat_port (same_slot same stays) ∙ sym key_is

  -- Of two packets that are sent one after the other, within the shortest timeout, of different
  -- flows: they bear different NAT ports.
  napt_outbound-other_port :
      flow_of v p ≢ flow_of w q
      → port_at (napt_outbound after q availq later).pkt (keyfield w true)
        ≢ port_at (napt_outbound s p avail now).pkt (keyfield v true)
  napt_outbound-other_port differ same = ground (
    arith,
    other_slot differ,
    key_is,
    keyq_is,
    made.slot_lt,
    (Sent-Masqueraded after q availq later resent).slot_lt,
  )

  -- Of two packets that are sent one after the other, within the shortest timeout, where no entry
  -- that had timed out at the first is live at the second: they bear the same NAT port exactly when
  -- they are of one flow.
  pub napt_outbound-same_port_iff :
      StaysTimedOut s.table now later
      → (port_at (napt_outbound after q availq later).pkt (keyfield w true)
          ≡ port_at (napt_outbound s p avail now).pkt (keyfield v true))
        ↔ (flow_of v p ≡ flow_of w q)
  napt_outbound-same_port_iff stays = (
    λ one. elim (same_or_other (flow_of v p) (flow_of w q)) [
      | inl same ↦ same
      | inr differ ↦ absurd (napt_outbound-other_port differ one)
    ],
    λ same. napt_outbound-same_port same stays,
  )
