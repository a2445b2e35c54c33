-- ===== src/Config/Complete.antt =====
-- `config_wg_complete`, `config_ap_complete` and the accessors of the active profile of src/config.c.
use molewire.Base.{
  ℕ, ◌+◌, ◌-◌, ◌*◌, ◌/◌, ◌%◌, ◌^◌, bit_and, bit_xor, Bool, true, false, not, ◌&&◌, ◌||◌, none, some,
  [], ◌∷◌, length, ltb, leb, ◌==◌, if◌then◌else◌,
}
use molewire.Config.Record.{CString, Config}
use molewire.Config.Profiles.{active_profile}

-- `p ? p->ssid : ""`
unfoldable pub config_active_ssid : Config → CString
config_active_ssid c = elim (active_profile c) [ none ↦ [] | some p ↦ p.ssid ]

unfoldable pub config_active_pass : Config → CString
config_active_pass c = elim (active_profile c) [ none ↦ [] | some p ↦ p.password ]

-- `!s[0]`
abbrev pub is_empty : CString → Bool
is_empty [] = true
is_empty (x ∷ s) = false

abbrev pub nonempty : CString → Bool
nonempty [] = false
nonempty (x ∷ s) = true

unfoldable pub config_wg_complete : Config → Bool
config_wg_complete c =
    nonempty c.wg.private_key
    && nonempty c.wg.peer_public
    && nonempty c.wg.endpoint
    && not (c.wg.endpoint_port == 0)
    && not (c.wg.addr == 0)
    && not (c.wg.host_addr == 0)
    && leb 8 c.wg.prefix
    && leb c.wg.prefix 30

-- `__builtin_bswap32`
unfoldable pub bswap32 : ℕ → ℕ
bswap32 x = x % 256 * 2 ^ 24 + x / 256 % 256 * 2 ^ 16 + x / 2 ^ 16 % 256 * 256 + x / 2 ^ 24 % 256

-- `0xFFFFFFFFu << (32u - prefix)`
unfoldable pub prefix_mask : ℕ → ℕ
prefix_mask p = 0xFFFFFFFF * 2 ^ (32 - p) % 2 ^ 32

unfoldable pub config_ap_complete : Config → Bool
config_ap_complete c =
    if is_empty c.ap.ssid || ltb (length c.ap.password) 8 || ltb 63 (length c.ap.password)
    then false
    else if c.ap.addr == 0
        || c.ap.client_addr == 0
        || c.ap.addr == c.ap.client_addr
        || ltb c.ap.prefix 8
        || ltb 30 c.ap.prefix
    then false
    else bit_and (bit_xor (bswap32 c.ap.addr) (bswap32 c.ap.client_addr)) (prefix_mask c.ap.prefix)
      == 0
