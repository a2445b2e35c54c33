-- ===== src/EthCsum/Tests.antt =====
-- Runs of src/eth_csum.c on frames with no checksums, and the theorems at these inputs.
use molewire.Base.{
  ℕ, zero, suc, ◌+◌, ◌%◌, ◌<◌, ◌≡◌, ◌≢◌, refl, arith, true, false, List, [], ◌∷◌, Bytes, be16,
  get_or,
}
use molewire.Napt.Sums.{IsBuffer}
use molewire.Napt.Checksum.{fold_carry}
use molewire.EthCsum.{
  is_ipv4_frame, eth_csum_restore, total_length, csum_add, csum_finish, restore_header,
  restore_transport, restore_udp,
}
use molewire.EthCsum.Laws.{byte_sum, pseudo_sum}
use molewire.EthCsum.Restored.{
  eth_csum_restore-in_bounds, eth_csum_restore-tcp_sum, eth_csum_restore-udp_sum,
  is_ipv4_frame-wraps,
}

abbrev AllBytes : List ℕ → Type 0
AllBytes [] = Unit {0}
AllBytes (b ∷ bytes) = (b < 256) × AllBytes bytes

abbrev buffer : List ℕ → Bytes
buffer bytes j = get_or bytes j 0

buffer-IsBuffer : (bytes : List ℕ) → AllBytes bytes → IsBuffer (buffer bytes)
buffer-IsBuffer [] h j = omega arith
buffer-IsBuffer (b ∷ bytes) h zero = h.0
buffer-IsBuffer (b ∷ bytes) h (suc j) = buffer-IsBuffer bytes h.1 j

-- A datagram of 11 bytes: the last has no byte to make a word with.
abbrev udp_frame_bytes : List ℕ
udp_frame_bytes =
    2 ∷ 0 ∷ 0 ∷ 0 ∷ 0 ∷ 1 ∷ 2 ∷ 0 ∷ 0 ∷ 0 ∷ 0 ∷ 2 ∷ 8 ∷ 0 ∷ 0x45 ∷ 0 ∷ 0 ∷ 31 ∷ 0 ∷ 0 ∷ 0 ∷ 0 ∷ 64
    ∷ 17 ∷ 0 ∷ 0 ∷ 10 ∷ 0 ∷ 0 ∷ 1 ∷ 10 ∷ 0 ∷ 0 ∷ 2 ∷ 0 ∷ 53 ∷ 0 ∷ 53 ∷ 0 ∷ 11 ∷ 0 ∷ 0 ∷ 7 ∷ 8 ∷ 9
    ∷ []

abbrev udp_frame : Bytes
udp_frame = buffer udp_frame_bytes

abbrev tcp_frame_bytes : List ℕ
tcp_frame_bytes =
    2 ∷ 0 ∷ 0 ∷ 0 ∷ 0 ∷ 1 ∷ 2 ∷ 0 ∷ 0 ∷ 0 ∷ 0 ∷ 2 ∷ 8 ∷ 0 ∷ 0x45 ∷ 0 ∷ 0 ∷ 40 ∷ 0 ∷ 0 ∷ 0 ∷ 0 ∷ 64
    ∷ 6 ∷ 0 ∷ 0 ∷ 10 ∷ 0 ∷ 0 ∷ 1 ∷ 10 ∷ 0 ∷ 0 ∷ 2 ∷ 0 ∷ 80 ∷ 0 ∷ 81 ∷ 0 ∷ 0 ∷ 0 ∷ 1 ∷ 0 ∷ 0 ∷ 0 ∷ 2
    ∷ 0x50 ∷ 0x10 ∷ 1 ∷ 0 ∷ 0 ∷ 0 ∷ 0 ∷ 0 ∷ []

abbrev tcp_frame : Bytes
tcp_frame = buffer tcp_frame_bytes

udp_frame-IsBuffer : IsBuffer udp_frame
udp_frame-IsBuffer = buffer-IsBuffer udp_frame_bytes (omega arith)

udp_frame_passes : is_ipv4_frame udp_frame 45 ≡ true
unfolding is_ipv4_frame
udp_frame_passes = refl

tcp_frame-IsBuffer : IsBuffer tcp_frame
tcp_frame-IsBuffer = buffer-IsBuffer tcp_frame_bytes (omega arith)

tcp_frame_passes : is_ipv4_frame tcp_frame 54 ≡ true
unfolding is_ipv4_frame
tcp_frame_passes = refl

header_restored : be16 (eth_csum_restore false udp_frame 45) 24 ≡ 0x66cc
unfolding eth_csum_restore is_ipv4_frame restore_header restore_transport restore_udp csum_finish
    csum_add fold_carry
header_restored = refl

eth_csum_restore-in_bounds_example : eth_csum_restore false udp_frame 45 45 ≡ 0
eth_csum_restore-in_bounds_example =
    eth_csum_restore-in_bounds udp_frame 45 udp_frame-IsBuffer udp_frame_passes 45 (omega arith)
      (omega arith)

eth_csum_restore-udp_sum_example :
    ((pseudo_sum (eth_csum_restore false udp_frame 45) 11
          + byte_sum (eth_csum_restore false udp_frame 45) 34 11)
        % 65535
      ≡ 0)
    × (be16 (eth_csum_restore false udp_frame 45) 40 ≢ 0)
eth_csum_restore-udp_sum_example =
    eth_csum_restore-udp_sum udp_frame 45 udp_frame-IsBuffer udp_frame_passes refl refl
      (omega arith) refl

eth_csum_restore-tcp_sum_example :
    (pseudo_sum (eth_csum_restore false tcp_frame 54) 20
        + byte_sum (eth_csum_restore false tcp_frame 54) 34 20)
      % 65535
    ≡ 0
eth_csum_restore-tcp_sum_example =
    eth_csum_restore-tcp_sum tcp_frame 54 tcp_frame-IsBuffer tcp_frame_passes refl refl
      (omega arith) refl

-- A total length of 0xFFFF in a frame of 60 bytes.
abbrev long_frame_bytes : List ℕ
long_frame_bytes = 2 ∷ 0 ∷ 0 ∷ 0 ∷ 0 ∷ 1 ∷ 2 ∷ 0 ∷ 0 ∷ 0 ∷ 0 ∷ 2 ∷ 8 ∷ 0 ∷ 0x45 ∷ 0 ∷ 255 ∷ 255 ∷ []

is_ipv4_frame-wraps_example :
    (is_ipv4_frame (buffer long_frame_bytes) 60 ≡ true)
    × (60 < 14 + total_length (buffer long_frame_bytes))
is_ipv4_frame-wraps_example =
    is_ipv4_frame-wraps (buffer long_frame_bytes) 60
      (buffer-IsBuffer long_frame_bytes (omega arith)) (omega arith) (omega arith) refl refl refl
      (omega arith)
