-- ===== src/Napt/Tests.antt =====
-- Runs of src/napt.c on a UDP datagram, a TCP segment and their replies, and the theorems at these inputs.
use molewire.Base.{
  ℕ, zero, suc, ◌%◌, ◌<◌, ◌≡◌, ◌⊎◌, ◌↔◌, inl, refl, arith, true, false, some, List, [], ◌∷◌, Bytes,
  get_or, ◌==◌, if◌then◌else◌,
}
use molewire.Napt.Checksum.{
  fold_carry, csum_words, csum_adjusted, csum_adjust, csum_adjust_nz, csum_adjust_udp,
}
use molewire.Napt.Table.{
  Napt, Flow, free_entry, tcp_timeout_ms, timeout_ms, entry_live, entry_matches, first_free,
  end_of_search, search_slot, new_entry, tcp_track,
}
use molewire.Napt.Packet.{PktView, parse, parse_transport, ip_at, port_at, put_ip, put_port}
use molewire.Napt.Translate.{
  Outcome, rewrite_ip, rewrite_port, adjust_transport, touch_entry, translate_out, outbound_slot,
  outbound_view, napt_outbound, inbound_port, inbound_view, napt_inbound, flow_of,
}
use molewire.Napt.RoundTrip.{IsReply, napt_inbound-napt_outbound, both_paths-in_bounds}
use molewire.Napt.Ports.{StaysTimedOut, napt_outbound-same_port_iff}
use molewire.Napt.Outbound.{Masqueraded, napt_outbound-fails_closed, napt_outbound-Masqueraded}
use molewire.Napt.Accepts.{napt_outbound-translated}
use molewire.Napt.Inbound.{Hits, napt_inbound-decides}
use molewire.Napt.Sums.{IsBuffer, sum_words, napt_outbound-header_sum}

abbrev buffer : List ℕ → Bytes
buffer bytes j = get_or bytes j 0

-- Every number in the list is a byte.
abbrev AllBytes : List ℕ → Type 0
AllBytes [] = Unit {0}
AllBytes (b ∷ bytes) = (b < 256) × AllBytes bytes

abbrev start : Napt
start = record {
  table = λ i. free_entry;
  ext = record { b0 = 192; b1 = 168; b2 = 1; b3 = 7 };
  mss = 1380;
  drops = 0;
}

-- 10.66.0.2:5353 to 9.9.9.9:53, UDP.
abbrev query_bytes : List ℕ
query_bytes =
    (0x45 ∷ 0 ∷ 0 ∷ 32 ∷ 0 ∷ 1 ∷ 0x40 ∷ 0 ∷ 64 ∷ 17 ∷ 0x12 ∷ 0x34 ∷ 10 ∷ 66 ∷ 0 ∷ 2 ∷ 9 ∷ 9 ∷ 9 ∷ 9
      ∷ 20 ∷ 233 ∷ 0 ∷ 53 ∷ 0 ∷ 12 ∷ 0xab ∷ 0xcd ∷ 1 ∷ 2 ∷ 3 ∷ 4 ∷ [])

abbrev query : Bytes
query = buffer query_bytes

-- 9.9.9.9:53 to 192.168.1.7:60000.
abbrev answer_bytes : List ℕ
answer_bytes =
    (0x45 ∷ 0 ∷ 0 ∷ 32 ∷ 0 ∷ 2 ∷ 0x40 ∷ 0 ∷ 64 ∷ 17 ∷ 0x22 ∷ 0x35 ∷ 9 ∷ 9 ∷ 9 ∷ 9 ∷ 192 ∷ 168 ∷ 1
      ∷ 7 ∷ 0 ∷ 53 ∷ 234 ∷ 96 ∷ 0 ∷ 12 ∷ 0xab ∷ 0xcd ∷ 1 ∷ 2 ∷ 3 ∷ 4 ∷ [])

abbrev answer : Bytes
answer = buffer answer_bytes

abbrev query_view : PktView
query_view = record { ihl = 20; proto = 17; l4avail = 12 }

query_parses : parse query 32 ≡ some query_view
unfolding parse parse_transport
query_parses = refl

answer_parses : parse answer 32 ≡ some query_view
unfolding parse parse_transport
answer_parses = refl

unfoldable query_out : Outcome
unfolding napt_outbound outbound_view parse parse_transport outbound_slot search_slot first_free
    end_of_search entry_live entry_matches timeout_ms tcp_timeout_ms translate_out new_entry
    rewrite_ip adjust_transport rewrite_port touch_entry tcp_track csum_adjust_nz csum_adjust_udp
    csum_adjust csum_adjusted csum_words fold_carry put_ip put_port
query_out = napt_outbound start query 32 1000

query_sent : (napt_outbound start query 32 1000).translated ≡ true
unfolding query_out
query_sent = refl

query_fields :
    (ip_at (napt_outbound start query 32 1000).pkt 12 ≡ start.ext)
    × (port_at (napt_outbound start query 32 1000).pkt 20 ≡ record { hi = 234; lo = 96 })
unfolding query_out
query_fields = (refl, refl)

reply : IsReply start query_view (napt_outbound start query 32 1000).pkt answer 32 query_view
unfolding query_out
reply = record { parsed = refl; proto_is = refl; address = refl; key = refl; echo_reply = λ h. cc }

napt_inbound-napt_outbound_example :
    let back = napt_inbound (napt_outbound start query 32 1000).state answer 32 1500 in
    (back.translated ≡ true)
    × (ip_at back.pkt 16 ≡ record { b0 = 10; b1 = 66; b2 = 0; b3 = 2 })
    × (port_at back.pkt 22 ≡ record { hi = 20; lo = 233 })
    × (ip_at back.pkt 12 ≡ record { b0 = 9; b1 = 9; b2 = 9; b3 = 9 })
napt_inbound-napt_outbound_example =
    napt_inbound-napt_outbound start query answer 32 32 1000 1500 query_view query_view query_parses
      query_sent reply (omega arith)

abbrev query_flow : Flow
query_flow = flow_of query_view query

-- Another host's query from the same port.
abbrev other_query : Bytes
other_query j = if j == 15 then 3 else query j

-- The state once the first query is out.
abbrev later_state : Napt
later_state = (napt_outbound start query 32 1000).state

other_parses : parse other_query 32 ≡ some query_view
unfolding parse parse_transport
other_parses = refl

query_resent : (napt_outbound later_state query 32 1500).translated ≡ true
unfolding query_out
query_resent = refl

other_sent : (napt_outbound later_state other_query 32 1500).translated ≡ true
unfolding query_out
other_sent = refl

start-StaysTimedOut : StaysTimedOut start.table 1000 1500
unfolding entry_live
start-StaysTimedOut j h live = cc

napt_outbound-same_port_iff_example :
    (port_at (napt_outbound later_state other_query 32 1500).pkt 20
      ≡ port_at (napt_outbound start query 32 1000).pkt 20)
    ↔ (flow_of query_view query ≡ flow_of query_view other_query)
napt_outbound-same_port_iff_example =
    napt_outbound-same_port_iff start query other_query 32 32 1000 1500 query_sent other_sent
      (omega arith) query_view query_view query_parses other_parses start-StaysTimedOut

-- A fragment is refused.
abbrev fragment : Bytes
fragment j = if j == 6 then 0x20 else query j

fragment_refused : (napt_outbound start fragment 32 1000).translated ≡ false
unfolding query_out
fragment_refused = refl

napt_outbound-fails_closed_example :
    ((napt_outbound start fragment 32 1000).pkt ≡ fragment)
    × ((napt_outbound start fragment 32 1000).state ≡ record start { drops = 1 })
napt_outbound-fails_closed_example =
    napt_outbound-fails_closed start fragment 32 1000 fragment_refused

napt_outbound-Masqueraded_example :
    (k : ℕ) × Masqueraded start query 1000 query_view k (napt_outbound start query 32 1000)
napt_outbound-Masqueraded_example =
    napt_outbound-Masqueraded start query 32 1000 query_view query_parses query_sent

answer-Hits : Hits later_state answer 32 1500 query_view 0
unfolding query_out
answer-Hits = record {
  parsed = refl;
  slot_lt = omega arith;
  address = refl;
  key = refl;
  echo_reply = λ h. cc;
  live = refl;
  proto_is = refl;
}

napt_inbound-decides_example :
    let out = napt_inbound later_state answer 32 1500 in
    ((out.translated ≡ true) ↔ ((v : PktView) × (k : ℕ) × Hits later_state answer 32 1500 v k))
    × ((out.translated ≡ true) ⊎ ((out.pkt ≡ answer) × (out.state ≡ later_state)))
napt_inbound-decides_example = napt_inbound-decides later_state answer 32 1500

answer_missed : (napt_inbound start answer 32 1500).translated ≡ false
unfolding napt_inbound inbound_view parse parse_transport inbound_port entry_live
answer_missed = refl

both_paths-in_bounds_example :
    ((napt_outbound start answer 32 1500).pkt 40 ≡ 0)
    × ((napt_inbound start answer 32 1500).pkt 40 ≡ 0)
both_paths-in_bounds_example = both_paths-in_bounds start answer 32 1500 40 (omega arith)

bytes_below : (bytes : List ℕ) → AllBytes bytes → IsBuffer (buffer bytes)
bytes_below [] h j = omega arith
bytes_below (b ∷ bytes) h zero = h.0
bytes_below (b ∷ bytes) h (suc j) = bytes_below bytes h.1 j

napt_outbound-header_sum_example :
    sum_words (napt_outbound start query 32 1000).pkt 0 10 % 65535 ≡ sum_words query 0 10 % 65535
napt_outbound-header_sum_example =
    napt_outbound-header_sum start query 32 1000 query_view query_parses query_sent
      (bytes_below query_bytes (omega arith)) (omega arith) refl

inner_is : (later_state.table 0).inner_ip ≡ record { b0 = 10; b1 = 66; b2 = 0; b3 = 2 }
unfolding query_out
inner_is = refl

start-free : entry_live (start.table 0) 1000 ≡ false
unfolding entry_live
start-free = refl

napt_outbound-translated_example : (napt_outbound start query 32 1000).translated ≡ true
napt_outbound-translated_example =
    napt_outbound-translated start query 32 1000 query_view 0 refl query_parses (inl (omega arith))
      (omega arith) (inl start-free)
