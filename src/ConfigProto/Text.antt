-- ===== src/ConfigProto/Text.antt =====
-- The string functions of C that src/config_proto.c calls, and its own parsers.
use Prim.Native.Char.{code}
use Prim.Native.String.{String}
use molewire.Base.{
  ℕ, zero, suc, ◌+◌, ◌-◌, ◌*◌, ◌%◌, ◌^◌, min, Bool, true, false, not, ◌&&◌, ◌||◌, Option, none,
  some, List, [], ◌∷◌, length, get_or, take, ℤ, pos, negsuc, ltb, leb, ◌==◌, if◌then◌else◌,
}
use molewire.Config.Record.{CString}

-- A literal of the source.
abbrev pub codes : String → CString
codes String.[] = []
codes (String.◌∷◌ c s) = code c ∷ codes s

abbrev pub tolower : ℕ → ℕ
tolower c = if leb 65 c && leb c 90 then c + 32 else c

abbrev pub toupper : ℕ → ℕ
toupper c = if leb 97 c && leb c 122 then c - 32 else c

-- `strcasecmp(a, b) == 0`
unfoldable pub strcasecmp_eq : CString → CString → Bool
strcasecmp_eq [] [] = true
strcasecmp_eq (x ∷ a) (y ∷ b) = tolower x == tolower y && strcasecmp_eq a b
strcasecmp_eq _ _ = false

-- `strchr(s, c)` where the source cuts `s` there: what stands before the character and behind it.
unfoldable pub cut_at : ℕ → CString → Option (CString × CString)
cut_at c [] = none
cut_at c (x ∷ s) =
    let rest = cut_at c s in
    if x == c then some ([], s) else elim rest [ none ↦ none | some (a, b) ↦ some (x ∷ a, b) ]

-- `strncpy(dst, s, cap - 1); dst[cap - 1] = '\0';`
abbrev pub clipped : ℕ → CString → CString
clipped cap s = take (cap - 1) s

abbrev pub is_space : ℕ → Bool
is_space c = c == 32 || leb 9 c && leb c 13

abbrev pub is_digit : ℕ → Bool
is_digit c = leb 48 c && leb c 57

unfoldable pub skip_space : CString → CString
skip_space [] = []
skip_space (x ∷ s) = let rest = skip_space s in if is_space x then rest else x ∷ s

-- The sign, true for a minus, and what follows it.
unfoldable pub sign_of : CString → Bool × CString
sign_of [] = (false, [])
sign_of (x ∷ s) = if x == 45 then (true, s) else if x == 43 then (false, s) else (false, x ∷ s)

-- The digits in front, added to `n`, their count, and what follows.
unfoldable pub digits_of : ℕ → ℕ → CString → ℕ × ℕ × CString
digits_of n count [] = (n, count, [])
digits_of n count (x ∷ s) =
    let rest = digits_of (n * 10 + (x - 48)) (count + 1) s in
    if is_digit x then rest else (n, count, x ∷ s)

-- `long` has 32 bits on the device.
abbrev pub saturated : Bool → ℕ → ℤ
saturated false n = pos (min n (2 ^ 31 - 1))
saturated true zero = pos 0
saturated true (suc n) = negsuc (min n (2 ^ 31 - 1))

-- `strtol(s, &end, 10)`, with the text at `end`.
unfoldable pub strtol : CString → ℤ × CString
strtol s =
    let t = sign_of (skip_space s) in
    let d = digits_of 0 0 t.1 in if d.1 == 0 then (pos 0, s) else (saturated t.0 d.0, d.2)

-- `lo <= v && v <= hi`, and the cast of such a value to 16 bits.
abbrev pub is_between : ℕ → ℕ → ℤ → Bool
is_between lo hi (pos n) = leb lo n && leb n hi
is_between lo hi (negsuc n) = false

abbrev pub low_bits : ℕ → ℤ → ℕ
low_bits w (pos n) = n % 2 ^ w
low_bits w (negsuc n) = 2 ^ w - 1 - n % 2 ^ w

-- What the protocol takes from other libraries: `ip4addr_aton`, `wireguard_base64_decode` into a
-- buffer of 64 bytes, the codes of countries, and what stood on the stack where routes are parsed.
pub record Libraries : Type 0 where
  pub ip4addr_aton : CString → Option ℕ
  pub base64_decode : CString → Option (List ℕ)
  pub country_worldwide : ℕ
  pub country_code : ℕ → ℕ → ℕ

module _ (lib : Libraries) where
  unfoldable pub parse_country : CString → ℕ
  parse_country v =
      if strcasecmp_eq v (codes "WORLDWIDE")
      then lib.country_worldwide
      else if leb 2 (length v)
      then lib.country_code (toupper (get_or v 0 0)) (toupper (get_or v 1 0))
      else lib.country_worldwide

  unfoldable pub valid_wg_key : CString → Bool
  valid_wg_key s = elim (lib.base64_decode s) [ none ↦ false | some key ↦ length key == 32 ]

  unfoldable pub parse_ip4 : CString → ℕ
  parse_ip4 s = elim (lib.ip4addr_aton s) [ none ↦ 0 | some a ↦ a ]

-- `none` for -1.
unfoldable pub parse_index : CString → ℕ → Option ℕ
parse_index s count =
    let r = strtol s in
    if is_between 1 count r.0 && not (length r.1 == length s) && length r.1 == 0
    then some (low_bits 31 r.0 - 1)
    else none

-- The loop of `fmt_ssid`, with room for `n` characters and the NUL.
unfoldable pub fmt_ssid : ℕ → CString → CString
fmt_ssid zero s = []
fmt_ssid (suc n) [] = []
fmt_ssid (suc n) (x ∷ s) = (if leb 0x20 x && ltb x 0x7F then x else 63) ∷ fmt_ssid n s
