-- ===== src/ConfigProto/Routes.antt =====
-- `set routes` of src/config_proto.c.
use Prim.Native.String.{String}
use molewire.Base.{
  ℕ, ◌+◌, Bool, true, false, not, ◌&&◌, ◌||◌, none, some, List, [], ◌∷◌, length, get_or, leb, ◌==◌,
  if◌then◌else◌,
}
use molewire.Config.Record.{CString, config_routes_max, WgRoute, Config}
use molewire.ConfigProto.Text.{
  codes, strcasecmp_eq, cut_at, strtol, is_between, low_bits, Libraries, parse_ip4,
}
use molewire.ConfigProto.Set.{SetOut, set_wg, done, failed, with_wg}

-- `strcmp(a, b) == 0`
unfoldable pub strcmp_eq : CString → CString → Bool
strcmp_eq [] [] = true
strcmp_eq (x ∷ a) (y ∷ b) = x == y && strcmp_eq a b
strcmp_eq _ _ = false

-- The pieces between commas, `t` being what the first has so far.
unfoldable pub pieces : CString → List CString
pieces [] = [] ∷ []
pieces (x ∷ s) =
    let rest = pieces s in
    if x == 44 then [] ∷ rest else elim rest [ [] ↦ (x ∷ []) ∷ [] | p ∷ ps ↦ (x ∷ p) ∷ ps ]

pub data Parsed : Type 0 where
  bad : String → Parsed
  routes : List WgRoute → Parsed

abbrev pub cons_route : WgRoute → Parsed → Parsed
cons_route r (bad msg) = bad msg
cons_route r (routes rs) = routes (r ∷ rs)

module _ (lib : Libraries) where
  -- One piece with `n` routes before it, and the pieces behind it.
  unfoldable pub parse_route : CString → ℕ → Parsed → Parsed
  parse_route tok n rest = elim (cut_at 47 tok) [
    | none ↦ bad "ERR routes are <a.b.c.d/nn>, comma-separated\n"
    | some (addr, prefix) ↦
        let net = parse_ip4 lib addr in
        let plen = (strtol prefix).0 in
        (if net == 0 && not (strcmp_eq addr (codes "0.0.0.0")) || not (is_between 1 32 plen)
          then bad "ERR bad route (prefix 1-32)\n"
          else if leb config_routes_max n
          then bad "ERR too many routes (max 4)\n"
          else cons_route (record { net = net; prefix = low_bits 8 plen }) rest)
  ]

  -- The loop; it ends at the end of the text, also after a last comma.
  unfoldable pub parse_routes : List CString → ℕ → Parsed
  parse_routes [] n = routes []
  parse_routes ([] ∷ []) n = routes []
  parse_routes ([] ∷ q ∷ qs) n = parse_route [] n (parse_routes (q ∷ qs) (n + 1))
  parse_routes ((x ∷ p) ∷ qs) n = parse_route (x ∷ p) n (parse_routes qs (n + 1))

  -- `stack` is what the array of parsed routes held before.
  unfoldable pub store_routes : (ℕ → WgRoute) → Parsed → Config → SetOut
  store_routes stack (bad msg) c = failed c msg
  store_routes stack (routes []) c = failed c "ERR usage: set routes <a.b.c.d/nn>[,...] | off\n"
  store_routes stack (routes (r ∷ rs)) c = done set_wg (
      with_wg c
        (record c.wg { routes = λ i. get_or (r ∷ rs) i (stack i); route_count = length (r ∷ rs) }))

  unfoldable pub set_routes : (ℕ → WgRoute) → CString → Config → SetOut
  set_routes stack val c =
      if strcasecmp_eq val (codes "off")
      then done set_wg (with_wg c (record c.wg { route_count = 0 }))
      else store_routes stack (parse_routes (pieces val) 0) c
