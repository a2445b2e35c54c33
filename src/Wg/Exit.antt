-- ===== src/Wg/Exit.antt =====
-- The station edge of exit mode in src/wg.c: the wrapper on the station's output and the hook on
-- its input, with the translator of src/napt.c behind them.
use molewire.Base.{
  ℕ, ◌+◌, ◌*◌, ◌/◌, ◌^◌, ◌≡◌, ◌⊎◌, inl, inr, Bool, Bool-cases, true, false, not, ◌&&◌, Option, none,
  some, List, leb, ◌==◌, if◌then◌else◌, Bytes,
}
use molewire.Napt.Packet.{ip_at}
use molewire.Napt.Table.{Ip4, Napt}
use molewire.Napt.Translate.{Outcome, napt_outbound, napt_inbound}
use molewire.Napt.Outbound.{sent_of_translated, Sent-Masqueraded}
use molewire.Wg.Route.{is_own_addr}

-- The first buffer of a packet: its bytes and their number.
pub record Pbuf : Type 0 where
  pub payload : Bytes
  pub len : ℕ

-- The address as lwIP keeps it: the four bytes of the wire in memory order.
abbrev pub addr_of : Ip4 → ℕ
addr_of a = a.b0 + a.b1 * 2 ^ 8 + a.b2 * 2 ^ 16 + a.b3 * 2 ^ 24

-- The translator's state, and the packet that goes on to the station, if any.
pub record StationOutput : Type 0 where
  pub state : Napt
  pub emitted : Option Bytes

unfoldable pub sent_or_swallowed : Outcome → StationOutput
sent_or_swallowed o = record {
  state = o.state;
  emitted = if o.translated then some o.pkt else none;
}

abbrev pub is_ipv4 : Pbuf → Bool
is_ipv4 p = leb 20 p.len && p.payload 0 / 16 == 4

-- The packet is exit traffic: its source is no address of the device.
abbrev pub is_exit_traffic : List ℕ → Pbuf → Bool
is_exit_traffic own p =
    not (addr_of (ip_at p.payload 12) == 0) && not (is_own_addr own (addr_of (ip_at p.payload 12)))

unfoldable pub exit_sta_output : Bool → List ℕ → Napt → Pbuf → ℕ → StationOutput
exit_sta_output exit_on own s p now =
    if exit_on && is_ipv4 p && is_exit_traffic own p
    then sent_or_swallowed (napt_outbound s p.payload p.len now)
    else record { state = s; emitted = some p.payload }

-- `from_sta` is `inp == sta_netif`. The hook never consumes the packet.
unfoldable pub wg_ip4_input_hook : Bool → Bool → Napt → Pbuf → ℕ → Outcome
wg_ip4_input_hook exit_on from_sta s p now =
    if exit_on && from_sta
    then napt_inbound s p.payload p.len now
    else record { state = s; pkt = p.payload; translated = false }

-- With exit mode on, an IPv4 packet from a source that is no address of the device leaves by the
-- station with the station's address as its source, or not at all.
pub exit_sta_output-fails_closed :
    (own : List ℕ) (s : Napt) (p : Pbuf) (now : ℕ)
    → is_ipv4 p ≡ true
    → is_exit_traffic own p ≡ true
    → ((exit_sta_output true own s p now).emitted ≡ none)
      ⊎ ((q : Bytes) × ((exit_sta_output true own s p now).emitted ≡ some q)
          × (ip_at q 12 ≡ s.ext)
          × (ip_at q 16 ≡ ip_at p.payload 16))
unfolding exit_sta_output sent_or_swallowed
exit_sta_output-fails_closed own s p now v t =
    let o = napt_outbound s p.payload p.len now in
    elim (Bool-cases o.translated) [
      | inr dropped ↦ inl (rw (v, t, dropped))
      | inl sent ↦
          let m =
            Sent-Masqueraded s p.payload p.len now
              (sent_of_translated s p.payload p.len now sent) in
          inr (o.pkt, rw (v, t, sent), m.source_is, m.destination_is)
    ]
