-- ===== src/Pcap/Tests.antt =====
-- Runs of the ring of src/pcap.c on a small frame.
use molewire.Base.{
  ℕ, ◌%◌, ◌<◌, ◌≡◌, ◌⊎◌, refl, true, false, List, [], ◌∷◌, ◌++◌, Bytes, length, drop,
}
use molewire.Pcap.Ring.{
  Ring, packet_record, wrap_for, evict, append_record, pcap_capture, pcap_clear, pcap_bytes_used,
  pcap_freeze,
}
use molewire.Pcap.Holds.{concat}
use molewire.Pcap.Run.{Run, start, capture, pcap_freeze-Run}

abbrev frame : Bytes
frame j = j % 256

abbrev started : Ring
started = record {
  ring = λ j. 0;
  head = 0;
  tail = 0;
  high = 0;
  wrapped = false;
  enabled = true;
  paused = false;
  n_packets = 0;
}

abbrev two_packets : Ring
two_packets = pcap_capture (pcap_capture (pcap_clear started) 1000001 frame 14) 2000002 frame 20

unfoldable used_now : ℕ
used_now = pcap_bytes_used two_packets

two_packets-used : used_now ≡ 66
unfolding used_now pcap_bytes_used pcap_capture pcap_clear wrap_for evict append_record
two_packets-used = refl

abbrev two_records : List (List ℕ)
two_records = packet_record 1000001 frame 14 ∷ packet_record 2000002 frame 20 ∷ []

two_packets-Run : Run two_packets two_records
unfolding pcap_capture pcap_clear wrap_for evict append_record
two_packets-Run = capture 2000002 frame 20 (capture 1000001 frame 14 (start started))

pcap_freeze-Run_example :
    (dropped : ℕ) × ((two_records ≡ []) ⊎ (dropped < length two_records))
    × ((pcap_freeze two_packets).a ++ (pcap_freeze two_packets).b
        ≡ concat (drop dropped two_records))
    × (pcap_bytes_used two_packets ≡ length (concat (drop dropped two_records)))
pcap_freeze-Run_example = pcap_freeze-Run two_packets-Run
