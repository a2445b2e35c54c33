-- ===== src/Config/CompleteLaws.antt =====
-- What `config_ap_complete` of src/config.c accepts.
use molewire.Base.{
  ℕ, zero, suc, ◌+◌, ◌-◌, ◌*◌, ◌^◌, ◌≤◌, ◌<◌, ◌≡◌, ◌≢◌, ◌↔◌, refl, sym, ap, subst, false, [], ◌∷◌,
  ◌∙◌, arith, bit_and, bit_xor, Bool, true, ◌&&◌, &&_true, ◌==◌, ==_iff, ltb, ◌||◌, if◌then◌else◌,
  length, shr, bit_xor-shr, bit_and-mask_all, bit_and-shl, shr-lt, bit_xor-lt, bit_xor-zero,
  bit_xor_self,
}
use native.Mathlib.Decide.{dec_lt}
use native.Mathlib.Nat.{one-le-pow}
use molewire.Config.Record.{CString, Config}
use molewire.Config.Complete.{is_empty, bswap32, prefix_mask, config_ap_complete}

-- For each `p` below `n` the mask has the upper `p` of 32 bits.
abbrev masks_ok : ℕ → Bool
masks_ok zero = true
masks_ok (suc n) = (prefix_mask n == (2 ^ n - 1) * 2 ^ (32 - n)) && masks_ok n

masks_ok-eq : (n p : ℕ) → p < n → masks_ok n ≡ true → prefix_mask p ≡ (2 ^ p - 1) * 2 ^ (32 - p)
masks_ok-eq zero p h t = absurd (omega arith)
masks_ok-eq (suc n) p h t =
    let both = &&_true (prefix_mask n == (2 ^ n - 1) * 2 ^ (32 - n)) (masks_ok n) t in
    elim (dec_lt p n) [
      | yes below ↦ masks_ok-eq n p below both.1
      | no here ↦
          let same : n ≡ p = omega arith in
          subst (λ q. prefix_mask q ≡ (2 ^ q - 1) * 2 ^ (32 - q)) same
            ((==_iff (prefix_mask n) ((2 ^ n - 1) * 2 ^ (32 - n))).0 both.0)
    ]

masks : masks_ok 33 ≡ true
unfolding prefix_mask
masks = refl

bswap32-lt : (x : ℕ) → bswap32 x < 2 ^ 32
unfolding bswap32
bswap32-lt x = omega arith

product-zero : (m k : ℕ) → m * 2 ^ k ≡ 0 → m ≡ 0
product-zero zero k e = refl
product-zero (suc m) k e = absurd (grind (arith, e, one-le-pow k 2 (omega arith)))

module _ (p : ℕ) (h : p ≤ 32) (a b : ℕ) (ka : a < 2 ^ 32) (kb : b < 2 ^ 32) where
  masked_xor :
      bit_and (bit_xor a b) (prefix_mask p)
      ≡ bit_xor (shr (32 - p) a) (shr (32 - p) b) * 2 ^ (32 - p)
  masked_xor =
      let split : p + (32 - p) ≡ 32 = omega arith in
      let width = ap (λ t. 2 ^ t) split in
      let upper_a = shr-lt (32 - p) p a (omega (arith, width)) in
      let upper_b = shr-lt (32 - p) p b (omega (arith, width)) in
      let upper = bit_xor-lt p (shr (32 - p) a) (shr (32 - p) b) upper_a upper_b in
      ap (bit_and (bit_xor a b)) (masks_ok-eq 33 p (omega arith) masks)
      ∙ bit_and-shl (32 - p) (2 ^ p - 1) (bit_xor a b)
      ∙ rw
          (
            bit_xor-shr (32 - p) a b,
            bit_and-mask_all p (bit_xor (shr (32 - p) a) (shr (32 - p) b)) upper,
          )
          refl

  same_net_iff :
      ((bit_and (bit_xor a b) (prefix_mask p) == 0) ≡ true) ↔ (shr (32 - p) a ≡ shr (32 - p) b)
  same_net_iff = (
    (λ t.
        bit_xor-zero (shr (32 - p) a + shr (32 - p) b) (shr (32 - p) a) (shr (32 - p) b)
          (omega arith) (omega arith)
          (product-zero (bit_xor (shr (32 - p) a) (shr (32 - p) b)) (32 - p)
            (sym masked_xor ∙ (==_iff (bit_and (bit_xor a b) (prefix_mask p)) 0).0 t))),
    (λ e. (==_iff (bit_and (bit_xor a b) (prefix_mask p)) 0).1 (
        masked_xor
        ∙ rw (e, bit_xor_self (shr (32 - p) b) (shr (32 - p) b) (omega arith)) (omega arith))),
  )

-- The settings that bring up the access point: a name, a WPA2 password, a prefix length of a
-- subnet with hosts, and two different addresses, both set, that agree in the network part.
pub record IsUsable (c : Config) : Type 0 where
  pub named : c.ap.ssid ≢ []
  pub long : 8 ≤ length c.ap.password
  pub short : length c.ap.password ≤ 63
  pub addr_set : c.ap.addr ≢ 0
  pub client_set : c.ap.client_addr ≢ 0
  pub apart : c.ap.addr ≢ c.ap.client_addr
  pub wide : 8 ≤ c.ap.prefix
  pub narrow : c.ap.prefix ≤ 30
  pub same_net :
      shr (32 - c.ap.prefix) (bswap32 c.ap.addr) ≡ shr (32 - c.ap.prefix) (bswap32 c.ap.client_addr)

-- The early returns, for any last test `r`.
abbrev guards : CString → ℕ → ℕ → ℕ → ℕ → Bool → Bool
guards s n a b p r =
    if is_empty s || ltb n 8 || ltb 63 n
    then false
    else if a == 0 || b == 0 || a == b || ltb p 8 || ltb 30 p
    then false
    else r

module _ (s : CString) (n a b p : ℕ) (r : Bool) where
  guards_sound :
      guards s n a b p r ≡ true
      → (is_empty s ≡ false)
        × (8 ≤ n)
        × (n ≤ 63)
        × (a ≢ 0)
        × (b ≢ 0)
        × (a ≢ b)
        × (8 ≤ p)
        × (p ≤ 30)
        × (r ≡ true)
  guards_sound t = ground arith

  guards_complete :
      is_empty s ≡ false
      → 8 ≤ n
      → n ≤ 63
      → a ≢ 0
      → b ≢ 0
      → a ≢ b
      → 8 ≤ p
      → p ≤ 30
      → r ≡ true
      → guards s n a b p r ≡ true
  guards_complete h1 h2 h3 h4 h5 h6 h7 h8 h9 = ground arith

is_empty_iff : (s : CString) → (is_empty s ≡ false) ↔ (s ≢ [])
is_empty_iff [] = ground arith
is_empty_iff (x ∷ s) = ground arith

-- `config_ap_complete` accepts a configuration when and only when it is usable.
pub config_ap_complete_iff : (c : Config) → (config_ap_complete c ≡ true) ↔ IsUsable c
unfolding config_ap_complete
config_ap_complete_iff c =
    let last =
      bit_and (bit_xor (bswap32 c.ap.addr) (bswap32 c.ap.client_addr)) (prefix_mask c.ap.prefix)
      == 0 in
    let net = λ (h : c.ap.prefix ≤ 30).
      same_net_iff c.ap.prefix (omega arith) (bswap32 c.ap.addr) (bswap32 c.ap.client_addr)
        (bswap32-lt c.ap.addr) (bswap32-lt c.ap.client_addr) in
    (
      (λ t.
          let (e, l, s, a, b, d, w, n, r) =
            guards_sound c.ap.ssid (length c.ap.password) c.ap.addr c.ap.client_addr c.ap.prefix
              last t in
          record {
            named = (is_empty_iff c.ap.ssid).0 e;
            long = l;
            short = s;
            addr_set = a;
            client_set = b;
            apart = d;
            wide = w;
            narrow = n;
            same_net = (net n).0 r;
          }),
      (λ u.
          guards_complete c.ap.ssid (length c.ap.password) c.ap.addr c.ap.client_addr c.ap.prefix
            last ((is_empty_iff c.ap.ssid).1 u.named) u.long u.short u.addr_set u.client_set u.apart
            u.wide u.narrow ((net u.narrow).1 u.same_net)),
    )
