-- ===== src/Napt/Sums.antt =====
-- The checksums of a packet that src/napt.c rewrites still add up: sums of 16-bit words, modulo
-- 65535.
use molewire.Base.{
  ℕ, zero, suc, ◌+◌, ◌-◌, ◌*◌, ◌/◌, ◌%◌, ◌≤◌, ◌<◌, ◌≡◌, ◌≢◌, ◌⊎◌, inl, inr, refl, ◌∙◌, ap, ap₂,
  arith, Bool, true, false, some, Bytes, be16, be16-put16, List,
}
use molewire.Napt.Checksum.{csum_adjusted, csum_adjust, csum_adjust_nz, csum_is_zero}
use molewire.Napt.ChecksumLaws.{IsIp4, ip_words, csum_adjusted-ip, csum_adjusted-lt}
use molewire.Napt.Fields.{parse-IsView, ip_at-rewrite_ip, ip_at-rewrite_port}
use molewire.Napt.Frame.{rewrite_ip-ne, rewrite_port-ne, adjust_transport-ne, put_ip-ne}
use molewire.Napt.Packet.{PktView, parse, keyfield, ip_at}
use molewire.Napt.Table.{Ip4, Port, ip_bytes, Napt}
use molewire.Napt.Translate.{
  adjust_transport, rewrite_ip, rewrite_port, napt_outbound, nat_port, translate_out, translate_in,
  napt_inbound,
}
use molewire.Napt.Outbound.{sent_of_translated}
use molewire.Napt.Inbound.{Hits, napt_inbound-Hits}

-- The sum of `n` 16-bit words from `at` on.
abbrev pub sum_words : Bytes → ℕ → ℕ → ℕ
sum_words p at zero = 0
sum_words p at (suc n) = be16 p at + sum_words p (at + 2) n

-- Every byte of the buffer is a byte.
abbrev pub IsBuffer : Bytes → Type 0
IsBuffer p = (j : ℕ) → p j < 256

sum_words-cong :
    (p q : Bytes) (n at : ℕ)
    → ((j : ℕ) → at ≤ j → j < at + 2 * n → q j ≡ p j)
    → sum_words q at n ≡ sum_words p at n
sum_words-cong p q zero at h = refl
sum_words-cong p q (suc n) at h = omega (
  arith,
  h at (omega arith) (omega arith),
  h (at + 1) (omega arith) (omega arith),
  sum_words-cong p q n (at + 2) (λ j a b. h j (omega arith) (omega arith)),
)

csum_adjust_nz-be16 :
    (p : Bytes) (at : ℕ) (old new : List ℕ)
    → csum_is_zero p at ≡ false
    → be16 (csum_adjust_nz p at old new) at ≡ csum_adjusted (be16 p at) old new
unfolding csum_adjust_nz csum_adjust
csum_adjust_nz-be16 p at old new h =
    rw h
      (be16-put16 p at (csum_adjusted (be16 p at) old new) (csum_adjusted-lt (be16 p at) old new))

-- The header checksum that `rewrite_ip` writes.
rewrite_ip-be16 :
    (v : PktView) (p : Bytes) (at : ℕ) (ip : Ip4)
    → 12 ≤ at
    → 20 ≤ v.ihl
    → csum_is_zero p 10 ≡ false
    → be16 (rewrite_ip v p at ip) 10
      ≡ csum_adjusted (be16 p 10) (ip_bytes (ip_at p at)) (ip_bytes ip)
unfolding rewrite_ip
rewrite_ip-be16 v p at ip a w h =
    let old = ip_bytes (ip_at p at) in
    let q = csum_adjust_nz p 10 old (ip_bytes ip) in
    let r = adjust_transport v q old (ip_bytes ip) in
    let upper =
      put_ip-ne r at ip 10 (omega arith)
      ∙ adjust_transport-ne v q old (ip_bytes ip) 10 (omega arith) (omega arith) in
    let lower =
      put_ip-ne r at ip 11 (omega arith)
      ∙ adjust_transport-ne v q old (ip_bytes ip) 11 (omega arith) (omega arith) in
    ap₂ (λ a b. a * 256 + b) upper lower ∙ csum_adjust_nz-be16 p 10 old (ip_bytes ip) h

-- The words of a header that neither path writes, behind five and before none.
abbrev kept_words : Bytes → ℕ → ℕ
kept_words p n = sum_words p 0 5 + sum_words p 20 n

sum_words-header :
    (p : Bytes) (n : ℕ)
    → sum_words p 0 (10 + n)
      ≡ kept_words p n + be16 p 10 + ip_words (ip_at p 12) + ip_words (ip_at p 16)
sum_words-header p n =
    let e : 10 + n ≡ suc (suc (suc (suc (suc (suc (suc (suc (suc (suc n))))))))) = omega arith in
    rw e (omega arith)

-- Two headers that differ in the checksum and the address at `at` only.
module _ (p q : Bytes) (n c : ℕ) (ip : Ip4) (e : be16 q 10 ≡ c) where
  abbrev Same : ℕ → Type 0
  Same at = (j : ℕ) → j ≢ 10 → j ≢ 11 → (j < at) ⊎ (at + 4 ≤ j) → j < 20 + 2 * n → q j ≡ p j

  abbrev Balances : ℕ → Type 0
  Balances at = (c + ip_words ip) % 65535 ≡ (be16 p 10 + ip_words (ip_at p at)) % 65535

  kept_words-eq : (at : ℕ) → 12 ≤ at → at ≤ 16 → Same at → kept_words q n ≡ kept_words p n
  kept_words-eq at a b same =
      ap₂ ◌+◌
        (sum_words-cong p q 5 0
          (λ j low high. same j (omega arith) (omega arith) (omega arith) (omega arith)))
        (sum_words-cong p q n 20
          (λ j low high. same j (omega arith) (omega arith) (omega arith) (omega arith)))

  ip_at-other :
      (at other : ℕ)
      → Same at
      → (other + 4 ≤ at) ⊎ (at + 4 ≤ other)
      → 12 ≤ other
      → other ≤ 16
      → ip_at q other ≡ ip_at p other
  ip_at-other at other same far low high =
      ground (arith, same other, same (other + 1), same (other + 2), same (other + 3))

  sum_words-source :
      Same 12
      → ip_at q 12 ≡ ip
      → Balances 12
      → sum_words q 0 (10 + n) % 65535 ≡ sum_words p 0 (10 + n) % 65535
  sum_words-source same i m = omega (
    arith,
    sum_words-header p n,
    sum_words-header q n,
    kept_words-eq 12 (omega arith) (omega arith) same,
    ap ip_words i,
    ap ip_words (ip_at-other 12 16 same (inr (omega arith)) (omega arith) (omega arith)),
  )

  sum_words-destination :
      Same 16
      → ip_at q 16 ≡ ip
      → Balances 16
      → sum_words q 0 (10 + n) % 65535 ≡ sum_words p 0 (10 + n) % 65535
  sum_words-destination same i m = omega (
    arith,
    sum_words-header p n,
    sum_words-header q n,
    kept_words-eq 16 (omega arith) (omega arith) same,
    ap ip_words i,
    ap ip_words (ip_at-other 16 12 same (inl (omega arith)) (omega arith) (omega arith)),
  )

-- What both paths make of a packet: the address at `at`, then the port or echo id.
abbrev rewritten : ℕ → PktView → Bytes → ℕ → Ip4 → Bool → Port → Bytes
rewritten mss v p at ip src port = rewrite_port mss v (rewrite_ip v p at ip) (keyfield v src) port

module _ (mss : ℕ) (v : PktView) (p : Bytes) (ip : Ip4) (src : Bool) (port : Port) where
  rewritten-ne :
      (at j : ℕ)
      → 12 ≤ at
      → (v.proto ≡ 6) ⊎ ((v.proto ≡ 17) ⊎ (v.proto ≡ 1))
      → j < v.ihl
      → j ≢ 10
      → j ≢ 11
      → (j < at) ⊎ (at + 4 ≤ j)
      → rewritten mss v p at ip src port j ≡ p j
  rewritten-ne at j a known low h k far =
      rewrite_port-ne mss v (rewrite_ip v p at ip) (keyfield v src) port j (ground arith)
      ∙ rewrite_ip-ne v p at ip j (ground arith)

  rewritten-be16 :
      (at : ℕ)
      → 12 ≤ at
      → 20 ≤ v.ihl
      → csum_is_zero p 10 ≡ false
      → be16 (rewritten mss v p at ip src port) 10
        ≡ csum_adjusted (be16 p 10) (ip_bytes (ip_at p at)) (ip_bytes ip)
  rewritten-be16 at a w h =
      ap₂ (λ a b. a * 256 + b)
        (rewrite_port-ne mss v (rewrite_ip v p at ip) (keyfield v src) port 10 (ground arith))
        (rewrite_port-ne mss v (rewrite_ip v p at ip) (keyfield v src) port 11 (ground arith))
      ∙ rewrite_ip-be16 v p at ip a w h

-- A packet that is sent, of bytes and with a header checksum other than 0, keeps the sum of its
-- header modulo 65535, where a valid header sums to 0; the external address is one of bytes.
pub napt_outbound-header_sum :
    (s : Napt) (p : Bytes) (avail now : ℕ) (v : PktView)
    → parse p avail ≡ some v
    → (napt_outbound s p avail now).translated ≡ true
    → IsBuffer p
    → IsIp4 s.ext
    → csum_is_zero p 10 ≡ false
    → sum_words (napt_outbound s p avail now).pkt 0 (v.ihl / 2) % 65535
      ≡ sum_words p 0 (v.ihl / 2) % 65535
unfolding translate_out
napt_outbound-header_sum s p avail now v parsed h b i c =
    let sent = sent_of_translated s p avail now h in
    let w = parse-IsView p avail parsed in
    let same : sent.view ≡ v = cc (sent.parsed, parsed) in
    let n = v.ihl / 2 - 10 in
    let count : v.ihl / 2 ≡ 10 + n = omega (arith, w.words) in
    let out = rewritten s.mss v p 12 s.ext true (nat_port sent.slot) in
    let sums =
      csum_adjusted-ip (be16 p 10) (ip_at p 12) s.ext (omega (arith, b 10, b 11))
        (b 12, b 13, b 14, b 15) i in
    rw (sent.result, same, count)
      (sum_words-source p out n (csum_adjusted (be16 p 10) (ip_bytes (ip_at p 12)) (ip_bytes s.ext))
        s.ext (rewritten-be16 s.mss v p s.ext true (nat_port sent.slot) 12 (omega arith) w.header c)
        (λ j x y far low.
          rewritten-ne s.mss v p s.ext true (nat_port sent.slot) 12 j (omega arith) w.proto_known
            (omega (arith, w.words)) x y far)
        (ip_at-rewrite_port s.mss v (rewrite_ip v p 12 s.ext) true (nat_port sent.slot) 12
            (omega arith) w.header
          ∙ ip_at-rewrite_ip v p 12 s.ext)
        sums)

-- A packet that hits an entry, of bytes and with a header checksum other than 0, keeps the sum of
-- its header modulo 65535; the entry's inner address is one of bytes.
pub napt_inbound-header_sum :
    (s : Napt) (p : Bytes) (avail now : ℕ) (v : PktView) (k : ℕ)
    → Hits s p avail now v k
    → IsBuffer p
    → IsIp4 (s.table k).inner_ip
    → csum_is_zero p 10 ≡ false
    → sum_words (napt_inbound s p avail now).pkt 0 (v.ihl / 2) % 65535
      ≡ sum_words p 0 (v.ihl / 2) % 65535
unfolding translate_in
napt_inbound-header_sum s p avail now v k hit b i c =
    let w = parse-IsView p avail hit.parsed in
    let e = s.table k in
    let n = v.ihl / 2 - 10 in
    let count : v.ihl / 2 ≡ 10 + n = omega (arith, w.words) in
    let out = rewritten s.mss v p 16 e.inner_ip false e.inner_port in
    let sums =
      csum_adjusted-ip (be16 p 10) (ip_at p 16) e.inner_ip (omega (arith, b 10, b 11))
        (b 16, b 17, b 18, b 19) i in
    rw (napt_inbound-Hits s p avail now v k hit, count)
      (sum_words-destination p out n
        (csum_adjusted (be16 p 10) (ip_bytes (ip_at p 16)) (ip_bytes e.inner_ip)) e.inner_ip
        (rewritten-be16 s.mss v p e.inner_ip false e.inner_port 16 (omega arith) w.header c)
        (λ j x y far low.
          rewritten-ne s.mss v p e.inner_ip false e.inner_port 16 j (omega arith) w.proto_known
            (omega (arith, w.words)) x y far)
        (ip_at-rewrite_port s.mss v (rewrite_ip v p 16 e.inner_ip) false e.inner_port 16
            (omega arith) w.header
          ∙ ip_at-rewrite_ip v p 16 e.inner_ip)
        sums)
