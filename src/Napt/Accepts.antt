-- ===== src/Napt/Accepts.antt =====
-- When `napt_outbound` of src/napt.c sends a packet.
use molewire.Base.{
  ℕ, ◌<◌, ◌≡◌, ◌≢◌, ◌⊎◌, inl, inr, refl, arith, true, false, ◌&&◌, not, none, some, ◌==◌, Bytes,
}
use molewire.Napt.Packet.{PktView, parse}
use molewire.Napt.Search.{found, search_slot-absent, search_slot-full}
use molewire.Napt.Table.{Napt, napt_max, Slot, existing, fresh, full, entry_live}
use molewire.Napt.Translate.{
  translate_out, flow_of, outbound_slot, outbound_view, no_ext_ip, napt_outbound,
}
use molewire.Napt.Outbound.{chosen}

outbound_slot-translated :
    (s : Napt) (v : PktView) (p : Bytes) (now : ℕ) (slot : Slot)
    → slot ≢ full
    → (outbound_slot s v p now slot).translated ≡ true
unfolding outbound_slot translate_out
outbound_slot-translated s v p now full ne = absurd (ne refl)
outbound_slot-translated s v p now (existing i) ne = refl
outbound_slot-translated s v p now (fresh i) ne = refl

-- The table has room for the flow: an entry that is not live, or the flow's own.
abbrev pub HasRoom : Napt → PktView → Bytes → ℕ → ℕ → Type 0
HasRoom s v p now k =
    (entry_live (s.table k) now ≡ false) ⊎ (found s.table (flow_of v p) now k ≡ true)

chosen-ne_full :
    (s : Napt) (v : PktView) (p : Bytes) (now k : ℕ)
    → k < napt_max
    → HasRoom s v p now k
    → chosen s v p now ≢ full
chosen-ne_full s v p now k low (inl free) e =
    let live =
      search_slot-full s.table (flow_of v p) now napt_max 0 none k e (omega arith) (omega arith) in
    cc (live, free)
chosen-ne_full s v p now k low (inr own) e =
    let missed =
      search_slot-absent s.table (flow_of v p) now napt_max 0 none k (λ j q. cc (e, q))
        (omega arith) (omega arith) in
    cc (missed, own)

-- A packet is sent: with an external address set, if it parses, is no ICMP message but an echo
-- request, and the table has an entry that is not live or that is the live mapping of its flow.
pub napt_outbound-translated :
    (s : Napt) (p : Bytes) (avail now : ℕ) (v : PktView) (k : ℕ)
    → no_ext_ip s ≡ false
    → parse p avail ≡ some v
    → (v.proto ≢ 1) ⊎ (p v.ihl ≡ 8)
    → k < napt_max
    → HasRoom s v p now k
    → (napt_outbound s p avail now).translated ≡ true
unfolding napt_outbound outbound_view
napt_outbound-translated s p avail now v k on parsed kind low room =
    let echo : v.proto == 1 && not (p v.ihl == 8) ≡ false = ground (arith, kind) in
    simp (on, parsed, echo)
      (outbound_slot-translated s v p now (chosen s v p now) (chosen-ne_full s v p now k low room))
