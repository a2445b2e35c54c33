-- ===== src/Config/Storage.antt =====
-- Loading and saving in src/config.c. The record, in memory and in its sector of flash, is its bytes:
-- `config_t` on the device, with 4-byte words aligned to 4 and the low byte first.
use molewire.Base.{
  ℕ, zero, suc, ◌+◌, ◌-◌, ◌/◌, ◌%◌, ◌^◌, Bool, ◌&&◌, Bytes, word_at, bit_xor, get_or, ltb, leb,
  ◌==◌, if◌then◌else◌,
}
use molewire.Config.Record.{CString, config_ssid_max, config_pass_max, config_active_none}
use molewire.Config.Complete.{nonempty}

abbrev pub config_magic : ℕ
config_magic = 0x44475750

-- The offsets of the fields of `config_t`, and its size.
abbrev pub at_profile_count : ℕ
at_profile_count = 4

abbrev pub at_active : ℕ
at_active = 5

abbrev pub at_debug_enabled : ℕ
at_debug_enabled = 6

abbrev pub at_country : ℕ
at_country = 8

abbrev pub at_profiles : ℕ
at_profiles = 12

abbrev pub at_wg : ℕ
at_wg = 788

abbrev pub at_ap : ℕ
at_ap = 1048

abbrev pub at_crc32 : ℕ
at_crc32 = 1156

abbrev pub config_size : ℕ
config_size = 1160

-- In `config_v1_t` the checksum stands where the access point is now.
abbrev pub v1_at_crc32 : ℕ
v1_at_crc32 = 1048

-- The inner loop of `crc32`, once.
abbrev pub crc_bit : ℕ → ℕ
crc_bit crc = bit_xor (crc / 2) (if crc % 2 == 1 then 0xEDB88320 else 0)

unfoldable pub crc_bits : ℕ → ℕ → ℕ
crc_bits zero crc = crc
crc_bits (suc n) crc = crc_bits n (crc_bit crc)

unfoldable pub crc_bytes : ℕ → ℕ → Bytes → ℕ → ℕ
crc_bytes zero i p crc = crc
crc_bytes (suc left) i p crc = crc_bytes left (i + 1) p (crc_bits 8 (bit_xor crc (p i)))

unfoldable pub crc32 : Bytes → ℕ → ℕ
crc32 p len = bit_xor (crc_bytes len 0 p 0xFFFFFFFF) 0xFFFFFFFF % 2 ^ 32

-- A word stored at an offset.
abbrev pub put_word : Bytes → ℕ → ℕ → Bytes
put_word p i v j =
    if j == i
    then v % 256
    else if j == i + 1
    then v / 2 ^ 8 % 256
    else if j == i + 2
    then v / 2 ^ 16 % 256
    else if j == i + 3
    then v / 2 ^ 24 % 256
    else p j

abbrev pub put_byte : Bytes → ℕ → ℕ → Bytes
put_byte p i v j = if j == i then v else p j

-- `strncpy(p + i, s, n)`
abbrev pub put_text : Bytes → ℕ → ℕ → CString → Bytes
put_text p i n s j = if leb i j && ltb j (i + n) then get_or s (j - i) 0 else p j

-- What wifi_config.h, a file of the build, bakes in.
pub record Baked : Type 0 where
  pub wifi_ssid : CString
  pub wifi_password : CString
  pub wifi_country : ℕ

unfoldable pub baked_profile : Baked → Bytes → Bytes
baked_profile w p =
    if nonempty w.wifi_ssid
    then put_byte
        (put_byte
          (put_text (put_text p at_profiles (config_ssid_max - 1) w.wifi_ssid)
            (at_profiles + config_ssid_max) (config_pass_max - 1) w.wifi_password)
          at_profile_count 1)
        at_active 0
    else p

unfoldable pub config_defaults : Baked → Bytes
config_defaults w =
    let p = baked_profile w (
      put_byte (put_word (put_word (λ j. 0) 0 config_magic) at_country w.wifi_country) at_active
        config_active_none) in
    put_word p at_crc32 (crc32 p at_crc32)

-- Bytes of the flash from one offset up to another.
abbrev pub moved : Bytes → ℕ → ℕ → Bytes → Bytes
moved flash from upto p j = if leb from j && ltb j upto then flash j else p j

-- A record of version 1.0 carried over; the access point stays as the defaults have it.
unfoldable pub migrated : Baked → Bytes → Bytes
migrated w flash = moved flash at_wg v1_at_crc32 (
    moved flash at_profiles at_wg (
      moved flash at_country at_profiles
        (moved flash at_profile_count (at_debug_enabled + 1) (config_defaults w))))

unfoldable pub config_load : Baked → Bytes → Bytes
config_load w flash =
    if word_at flash 0 == config_magic
    then (if crc32 flash at_crc32 == word_at flash at_crc32
        then flash
        else if crc32 flash v1_at_crc32 == word_at flash v1_at_crc32
        then migrated w flash
        else config_defaults w)
    else config_defaults w

-- The record with its magic and its checksum.
unfoldable pub sealed : Bytes → Bytes
sealed cfg = let p = put_word cfg 0 config_magic in put_word p at_crc32 (crc32 p at_crc32)

-- The record, the flash and the result; where the write was not done the flash is as before.
unfoldable pub config_save : Bool → Bytes → Bytes → Bytes × Bytes × Bool
config_save written cfg flash =
    let p = sealed cfg in
    (p, (if written then (λ j. if ltb j config_size then p j else 0xFF) else flash), written)
