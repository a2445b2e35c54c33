-- ===== src/Wg/Clock.antt =====
-- The handshake timestamps of src/wg.c: TAI64N labels from a boot counter in flash and the uptime.
use molewire.Base.{
  ℕ, zero, suc, ◌+◌, ◌*◌, ◌/◌, ◌%◌, ◌^◌, ◌<◌, ◌≡◌, ◌⊎◌, inl, refl, ap, ◌∙◌, arith, Bool, true, List,
  [], ◌∷◌, ◌++◌, ◌==◌, if◌then◌else◌,
}

-- The two words of the boot counter's sector.
pub record BootRecord : Type 0 where
  pub magic : ℕ
  pub count : ℕ

abbrev pub bootcount_magic : ℕ
bootcount_magic = 0x43424757

unfoldable pub next_boot_count : BootRecord → ℕ
next_boot_count rec = if rec.magic == bootcount_magic then (rec.count + 1) % 2 ^ 32 else 1

-- `wg_time_init`: the counter of this boot, and the flash after it, if the write is done.
unfoldable pub wg_time_init : Bool → BootRecord → record { boot_count : ℕ; flash : BootRecord }
wg_time_init written rec = record {
  boot_count = next_boot_count rec;
  flash = if written then record { magic = bootcount_magic; count = next_boot_count rec } else rec;
}

abbrev pub tai_seconds : ℕ → ℕ → ℕ
tai_seconds boot_count millis = (0x400000000000000a + boot_count * 2 ^ 25 + millis / 1000) % 2 ^ 64

abbrev pub tai_nanos : ℕ → ℕ
tai_nanos millis = millis % 1000 * 1000000 % 2 ^ 32

-- The `n` low bytes of `v`, the highest first: the two output loops.
unfoldable pub big_endian : ℕ → ℕ → List ℕ
big_endian zero v = []
big_endian (suc n) v = (v / 2 ^ (8 * n) % 256) ∷ big_endian n v

unfoldable pub wireguard_tai64n_now : ℕ → ℕ → List ℕ
wireguard_tai64n_now boot_count millis =
    big_endian 8 (tai_seconds boot_count millis) ++ big_endian 4 (tai_nanos millis)

-- The number that a string of bytes is, the highest byte first: `memcmp` orders strings of one
-- length by it.
abbrev pub be_value : ℕ → List ℕ → ℕ
be_value acc [] = acc
be_value acc (b ∷ bs) = be_value (acc * 256 + b) bs

four_bytes : (acc v : ℕ) → v < 2 ^ 32 → be_value acc (big_endian 4 v) ≡ acc * 2 ^ 32 + v
unfolding big_endian
four_bytes acc v h = omega arith

be_value-append :
    (acc : ℕ) (xs ys : List ℕ) → be_value acc (xs ++ ys) ≡ be_value (be_value acc xs) ys
be_value-append acc [] ys = refl
be_value-append acc (x ∷ xs) ys = be_value-append (acc * 256 + x) xs ys

-- The upper four bytes of eight are those of the upper half.
eight_bytes : (v : ℕ) → v < 2 ^ 64 → be_value 0 (big_endian 8 v) ≡ v
unfolding big_endian
eight_bytes v h =
    let upper = four_bytes 0 (v / 2 ^ 32) (omega arith) in
    let lower = four_bytes (v / 2 ^ 32) (v % 2 ^ 32) (omega arith) in omega arith

timestamp_value :
    (boot_count millis : ℕ)
    → be_value 0 (wireguard_tai64n_now boot_count millis)
      ≡ tai_seconds boot_count millis * 2 ^ 32 + tai_nanos millis
unfolding wireguard_tai64n_now
timestamp_value boot_count millis =
    be_value-append 0 (big_endian 8 (tai_seconds boot_count millis))
      (big_endian 4 (tai_nanos millis))
    ∙ four_bytes (be_value 0 (big_endian 8 (tai_seconds boot_count millis))) (tai_nanos millis)
        (omega arith)
    ∙ ap (λ (t : ℕ). t * 2 ^ 32 + tai_nanos millis)
        (eight_bytes (tai_seconds boot_count millis) (omega arith))

-- Of two times of 32 bits and two 32-bit boot counters: later in the same boot, or in a later boot,
-- the timestamp is greater, in the order in which `memcmp` compares.
pub wireguard_tai64n_now-lt :
    (boot boot' millis millis' : ℕ)
    → boot' < 2 ^ 32
    → millis < 2 ^ 32
    → millis' < 2 ^ 32
    → (boot < boot') ⊎ ((boot ≡ boot') × (millis < millis'))
    → be_value 0 (wireguard_tai64n_now boot millis)
      < be_value 0 (wireguard_tai64n_now boot' millis')
wireguard_tai64n_now-lt boot boot' millis millis' b m m' later =
    omega (arith, timestamp_value boot millis, timestamp_value boot' millis')

next_boot_count-suc :
    (n : ℕ)
    → n + 1 < 2 ^ 32
    → next_boot_count (record { magic = bootcount_magic; count = n }) ≡ n + 1
unfolding next_boot_count
next_boot_count-suc n h = omega arith

-- Over a boot whose counter was written, every timestamp of the next boot is greater than every
-- one of this boot, unless the 32-bit counter wraps.
pub wg_time_init-timestamps :
    (rec : BootRecord) (written : Bool) (millis millis' : ℕ)
    → millis < 2 ^ 32
    → millis' < 2 ^ 32
    → (wg_time_init true rec).boot_count + 1 < 2 ^ 32
    → be_value 0 (wireguard_tai64n_now (wg_time_init true rec).boot_count millis)
      < be_value 0 (
          wireguard_tai64n_now
            (wg_time_init written (wg_time_init true rec).flash).boot_count
            millis')
unfolding wg_time_init
wg_time_init-timestamps rec written millis millis' m m' fits =
    wireguard_tai64n_now-lt (next_boot_count rec)
      (next_boot_count (record { magic = bootcount_magic; count = next_boot_count rec })) millis
      millis' (omega (arith, next_boot_count-suc (next_boot_count rec) fits)) m m'
      (inl (omega (arith, next_boot_count-suc (next_boot_count rec) fits)))
