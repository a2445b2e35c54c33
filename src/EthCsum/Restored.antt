-- ===== src/EthCsum/Restored.antt =====
-- The frame that `eth_csum_restore` of src/eth_csum.c leaves.
use molewire.Base.{
  ℕ, ◌+◌, ◌-◌, ◌*◌, ◌%◌, ◌^◌, ◌≤◌, ◌<◌, ◌≡◌, ◌≢◌, ◌⊎◌, inl, inr, refl, sym, ◌∙◌, ap, ap₂, arith,
  Bool-cases, true, false, if◌then◌else◌, Bytes, be16, put16, be16-put16,
}
use molewire.Napt.Sums.{IsBuffer}
use molewire.EthCsum.{
  csum_add, csum_finish, is_zero16, ip_header_length, total_length, is_ipv4_frame, restore_header,
  pseudo_header, restore_icmp, restore_tcp, restore_udp, udp_form, restore_transport, is_fragment,
  eth_csum_restore,
}
use molewire.EthCsum.Laws.{
  byte_sum, pseudo_sum, pseudo_header-eq, csum_add-byte_sum, byte_sum-cong, byte_sum-le,
  byte_sum-put16, csum_finish-mod, csum_finish-lt, udp_form-mod,
}

is_zero16-be16 : (f : Bytes) (at : ℕ) → is_zero16 f at ≡ true → be16 f at ≡ 0
is_zero16-be16 f at h = ground arith

-- A checksum over `n` bytes from `at`, with `base` for the pseudo header, written at distance 2 * k.
module _ (f : Bytes) (at k n base q : ℕ) (e : q ≡ at + 2 * k) (fits : 2 * k + 2 ≤ n)
    (small : n < 65536) (b : IsBuffer f) (low : base < 2 ^ 30) (z : is_zero16 f q ≡ true) where
  abbrev whole : ℕ
  whole = csum_add base f at n

  whole-lt : whole < 2 ^ 32
  whole-lt = omega (arith, csum_add-byte_sum base f at n, byte_sum-le f at n b)

  finished_sum : (base + byte_sum (put16 f q (csum_finish whole)) at n) % 65535 ≡ 0
  finished_sum = omega (
    arith,
    csum_add-byte_sum base f at n,
    byte_sum-put16 f at k n (csum_finish whole) q e fits (csum_finish-lt whole)
        (is_zero16-be16 f q z),
    csum_finish-mod whole whole-lt,
  )

  udp_form-lt : (c : ℕ) → c < 65536 → udp_form c < 65536
  udp_form-lt c h = ground arith

  finished_udp_sum : (base + byte_sum (put16 f q (udp_form (csum_finish whole))) at n) % 65535 ≡ 0
  finished_udp_sum = omega (
    arith,
    csum_add-byte_sum base f at n,
    byte_sum-put16 f at k n (udp_form (csum_finish whole)) q e fits
        (udp_form-lt (csum_finish whole) (csum_finish-lt whole)) (is_zero16-be16 f q z),
    udp_form-mod (csum_finish whole),
    csum_finish-mod whole whole-lt,
  )

-- What the guards say of a frame that passes.
pub record IsIpv4Frame (f : Bytes) (flen : ℕ) : Type 0 where
  pub long : 34 ≤ flen
  pub header : 20 ≤ ip_header_length f
  pub lengths : ip_header_length f ≤ total_length f
  pub fits : (14 + total_length f) % 65536 ≤ flen

pub is_ipv4_frame-IsIpv4Frame :
    (f : Bytes) (flen : ℕ) → is_ipv4_frame f flen ≡ true → IsIpv4Frame f flen
unfolding is_ipv4_frame
is_ipv4_frame-IsIpv4Frame f flen h = ground arith

restore_transport-ne :
    (f : Bytes) (l4 l4len j : ℕ)
    → (j < l4) ⊎ (l4 + l4len ≤ j)
    → restore_transport f l4 l4len j ≡ f j
unfolding restore_transport restore_icmp restore_tcp restore_udp
restore_transport-ne f l4 l4len j h = ground arith

restore_header-ne : (f : Bytes) (j : ℕ) → j ≢ 24 → j ≢ 25 → restore_header f j ≡ f j
unfolding restore_header
restore_header-ne f j h k = ground arith

-- A frame that passes the guards, with its header after restoration and its transport header.
module _ (f : Bytes) (flen : ℕ) (b : IsBuffer f) (ok : is_ipv4_frame f flen ≡ true) where
  abbrev restored : Bytes
  restored = eth_csum_restore false f flen

  abbrev headed : Bytes
  headed = restore_header f

  abbrev l4 : ℕ
  l4 = 14 + ip_header_length f

  abbrev l4len : ℕ
  l4len = total_length f - ip_header_length f

  guards : IsIpv4Frame f flen
  guards = is_ipv4_frame-IsIpv4Frame f flen ok

  restored-eq : restored ≡ (if is_fragment f then headed else restore_transport headed l4 l4len)
  unfolding eth_csum_restore
  restored-eq = rw (
    ok,
    restore_header-ne f 14 (omega arith) (omega arith),
    restore_header-ne f 16 (omega arith) (omega arith),
    restore_header-ne f 17 (omega arith) (omega arith),
    restore_header-ne f 20 (omega arith) (omega arith),
    restore_header-ne f 21 (omega arith) (omega arith),
  )

  restored-headed : (j : ℕ) → (j < l4) ⊎ (l4 + l4len ≤ j) → restored j ≡ headed j
  restored-headed j h = elim (Bool-cases (is_fragment f)) [
    | inl whole ↦ rw (restored-eq, whole)
    | inr part ↦ rw (restored-eq, part) (restore_transport-ne headed l4 l4len j h)
  ]

  -- Of a frame of bytes that passes the guards: a header whose checksum is 0 leaves with one that
  -- makes the header's sum 0 modulo 65535.
  pub eth_csum_restore-header_sum :
      is_zero16 f 24 ≡ true → byte_sum restored 14 (ip_header_length f) % 65535 ≡ 0
  unfolding restore_header
  eth_csum_restore-header_sum z =
      let n = ip_header_length f in
      let small : n < 65536 = omega (arith, guards.lengths, b 16, b 17) in
      ap (λ (t : ℕ). t % 65535)
        (byte_sum-cong headed restored 14 n (λ j lo hi. restored-headed j (inl hi)))
      ∙ rw z (
          omega (
            arith,
            finished_sum f 14 5 n 0 24 refl (omega (arith, guards.header)) small b (omega arith) z,
          ))

  -- Of a frame of bytes that passes the guards, with a total length below 65522: no byte before the
  -- header checksum and no byte behind the frame is changed.
  pub eth_csum_restore-in_bounds :
      (j : ℕ) → total_length f < 65522 → (j < 24) ⊎ (flen ≤ j) → restored j ≡ f j
  eth_csum_restore-in_bounds j h far =
      restored-headed j (omega (arith, guards.header, guards.fits, guards.lengths))
      ∙ restore_header-ne f j (omega (arith, guards.long)) (omega (arith, guards.long))

  headed-IsBuffer : IsBuffer headed
  unfolding restore_header
  headed-IsBuffer j = ground (arith, b j)

  -- The pseudo header of the frame as it leaves is that of the frame before.
  pseudo-eq : pseudo_sum restored l4len ≡ pseudo_header headed l4len
  pseudo-eq =
      rw
        (
          kept 23 (omega arith),
          kept 26 (omega arith),
          kept 27 (omega arith),
          kept 28 (omega arith),
          kept 29 (omega arith),
          kept 30 (omega arith),
          kept 31 (omega arith),
          kept 32 (omega arith),
          kept 33 (omega arith),
        )
        (sym (pseudo_header-eq headed l4len))
    where
      kept : (j : ℕ) → j < 34 → restored j ≡ headed j
      kept j low = restored-headed j (inl (omega (arith, guards.header)))

  pseudo-lt : pseudo_header headed l4len < 2 ^ 30
  pseudo-lt =
      let h = headed-IsBuffer in
      omega (
        arith,
        pseudo_header-eq headed l4len,
        h 23,
        h 26,
        h 27,
        h 28,
        h 29,
        h 30,
        h 31,
        h 32,
        h 33,
        b 16,
        b 17,
      )

  l4len-lt : l4len < 65536
  l4len-lt = omega (arith, b 16, b 17)

  headed_zero : (off : ℕ) → is_zero16 f (l4 + off) ≡ true → is_zero16 headed (l4 + off) ≡ true
  headed_zero off z =
      ground
        (arith, restore_header-ne f (l4 + off), restore_header-ne f (l4 + off + 1), guards.header)

  module _ (whole : is_fragment f ≡ false) where
    restored_is : restored ≡ restore_transport headed l4 l4len
    restored_is = restored-eq ∙ rw whole

    proto_is : (p : ℕ) → f 23 ≡ p → headed 23 ≡ p
    proto_is p h = restore_header-ne f 23 (omega arith) (omega arith) ∙ h

    abbrev base : ℕ
    base = pseudo_header headed l4len

    total-eq :
        (g : Bytes)
        → restored ≡ g
        → pseudo_sum restored l4len + byte_sum restored l4 l4len ≡ base + byte_sum g l4 l4len
    total-eq g h = ap₂ ◌+◌ pseudo-eq (ap (λ x. byte_sum x l4 l4len) h)

    -- Of a frame of bytes that passes the guards and is no fragment: a TCP segment of 20 bytes or
    -- more whose checksum is 0 leaves with one that makes the sum of its 16-bit words, a last odd
    -- byte as a high one, with the addresses, the protocol and the length 0 modulo 65535.
    pub eth_csum_restore-tcp_sum :
        f 23 ≡ 6
        → 20 ≤ l4len
        → is_zero16 f (l4 + 16) ≡ true
        → (pseudo_sum restored l4len + byte_sum restored l4 l4len) % 65535 ≡ 0
    unfolding restore_transport restore_tcp
    eth_csum_restore-tcp_sum p n z =
        let g = put16 headed (l4 + 16) (csum_finish (csum_add base headed l4 l4len)) in
        let written : restore_transport headed l4 l4len ≡ g =
          ground (arith, proto_is 6 p, headed_zero 16 z) in
        omega (
          arith,
          total-eq g (restored_is ∙ written),
          finished_sum headed l4 8 l4len base (l4 + 16) refl (omega arith) l4len-lt headed-IsBuffer
              pseudo-lt (headed_zero 16 z),
        )

    -- Of a frame of bytes that passes the guards and is no fragment: a UDP datagram of 8 bytes or
    -- more whose checksum is 0 leaves with one that makes the sum of its 16-bit words, a last odd
    -- byte as a high one, with the addresses, the protocol and the length 0 modulo 65535, and that
    -- is not 0.
    pub eth_csum_restore-udp_sum :
        f 23 ≡ 17
        → 8 ≤ l4len
        → is_zero16 f (l4 + 6) ≡ true
        → ((pseudo_sum restored l4len + byte_sum restored l4 l4len) % 65535 ≡ 0)
          × (be16 restored (l4 + 6) ≢ 0)
    unfolding restore_transport restore_udp
    eth_csum_restore-udp_sum p n z =
        let c = csum_finish (csum_add base headed l4 l4len) in
        let g = put16 headed (l4 + 6) (udp_form c) in
        let written : restore_transport headed l4 l4len ≡ g =
          ground (arith, proto_is 17 p, headed_zero 6 z) in
        (
          omega (
            arith,
            total-eq g (restored_is ∙ written),
            finished_udp_sum headed l4 3 l4len base (l4 + 6) refl n l4len-lt headed-IsBuffer
                pseudo-lt (headed_zero 6 z),
          ),
          rw (restored_is ∙ written) (
              ground (
                arith,
                be16-put16 headed (l4 + 6) (udp_form c),
                csum_finish-lt (csum_add base headed l4 l4len),
              )),
        )

-- An IPv4 frame of 49 bytes or more, with a header of 20 bytes, whose total length is 65522 or more
-- passes the guards, though the packet ends behind the frame.
pub is_ipv4_frame-wraps :
    (f : Bytes) (flen : ℕ)
    → IsBuffer f
    → 49 ≤ flen
    → flen < 65536
    → f 12 ≡ 0x08
    → f 13 ≡ 0x00
    → f 14 ≡ 0x45
    → 65522 ≤ total_length f
    → (is_ipv4_frame f flen ≡ true) × (flen < 14 + total_length f)
unfolding is_ipv4_frame
is_ipv4_frame-wraps f flen b long short ety etz ver big =
    let wrapped : (14 + total_length f) % 65536 < 14 = omega (arith, b 16, b 17) in
    (rw (ety, etz, ver) (ground arith), omega arith)
