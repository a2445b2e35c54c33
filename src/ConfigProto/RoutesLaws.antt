-- ===== src/ConfigProto/RoutesLaws.antt =====
-- What `set routes` of src/config_proto.c leaves of the configuration.
use Prim.Native.String.{String}
use molewire.Base.{
  ℕ, zero, suc, ◌+◌, ◌≤◌, ◌<◌, ◌≡◌, refl, arith, Bool, true, false, not, Option, none, some, List,
  [], ◌∷◌, length, get_or, leb, ◌&&◌, ◌||◌, ◌==◌, if◌then◌else◌,
}
use molewire.Config.Record.{CString, WgRoute, Config}
use molewire.ConfigProto.Text.{
  codes, strcasecmp_eq, cut_at, strtol, is_between, low_bits, Libraries, parse_ip4,
}
use molewire.ConfigProto.Routes.{
  Parsed, bad, routes, cons_route, pieces, strcmp_eq, parse_route, parse_routes, store_routes,
  set_routes,
}
use molewire.ConfigProto.Stored.{IsStored}
use molewire.ConfigProto.SetLaws.{Outcome, failed-Outcome, wg-Outcome, if-Outcome, low_bits-between}

-- Of parsed routes behind `n` others: the prefixes are from 1 to 32 bits, and there are 4 at most.
abbrev AreRoutes : List WgRoute → ℕ → Type 0
AreRoutes [] n = Unit {0}
AreRoutes (r ∷ rs) n = (n < 4) × (1 ≤ r.prefix) × (r.prefix ≤ 32) × AreRoutes rs (n + 1)

abbrev AreParsed : Parsed → ℕ → Type 0
AreParsed (bad msg) n = Unit {0}
AreParsed (routes rs) n = AreRoutes rs n

AreRoutes-length : (rs : List WgRoute) (n : ℕ) → n ≤ 4 → AreRoutes rs n → n + length rs ≤ 4
AreRoutes-length [] n b h = omega arith
AreRoutes-length (r ∷ rs) n b h = omega (arith, AreRoutes-length rs (n + 1) (omega arith) h.3)

AreRoutes-prefix :
    (rs : List WgRoute) (n i : ℕ) (stack : WgRoute)
    → AreRoutes rs n
    → i < length rs
    → (1 ≤ (get_or rs i stack).prefix) × ((get_or rs i stack).prefix ≤ 32)
AreRoutes-prefix [] n i stack h b = absurd (omega arith)
AreRoutes-prefix (r ∷ rs) n zero stack h b = (h.1, h.2)
AreRoutes-prefix (r ∷ rs) n (suc i) stack h b =
    AreRoutes-prefix rs (n + 1) i stack h.3 (omega arith)

cons_route-AreParsed :
    (r : WgRoute) (n : ℕ) (rest : Parsed)
    → n < 4
    → 1 ≤ r.prefix
    → r.prefix ≤ 32
    → AreParsed rest (n + 1)
    → AreParsed (cons_route r rest) n
cons_route-AreParsed r n (bad msg) a b c h = tt
cons_route-AreParsed r n (routes rs) a b c h = (a, b, c, h)

parsed_if :
    (n : ℕ) (t : Bool) (o p : Parsed)
    → (t ≡ true → AreParsed o n)
    → (t ≡ false → AreParsed p n)
    → AreParsed (if t then o else p) n
parsed_if n true o p h k = h refl
parsed_if n false o p h k = k refl

parsed_option :
    {A : Type 0} (n : ℕ) (o : Option A) (f : A → Parsed) (msg : String)
    → ((a : A) → AreParsed (f a) n)
    → AreParsed (elim o [ none ↦ bad msg | some a ↦ f a ]) n
parsed_option n none f msg k = tt
parsed_option n (some a) f msg k = k a

pub refused_or : (a b : Bool) → (a || not b) ≡ false → b ≡ true
refused_or a b h = ground arith

refused_or_left : (a b : Bool) → (a || b) ≡ false → a ≡ false
refused_or_left a b h = ground arith

module _ (lib : Libraries) where
  parse_route-AreParsed :
      (tok : CString) (n : ℕ) (rest : Parsed)
      → AreParsed rest (n + 1)
      → AreParsed (parse_route lib tok n rest) n
  unfolding parse_route
  parse_route-AreParsed tok n rest h = parsed_option n (cut_at 47 tok) _ _ (λ parts.
      let unset = parse_ip4 lib parts.0 == 0 && not (strcmp_eq parts.0 (codes "0.0.0.0")) in
      let plen = (strtol parts.1).0 in
      parsed_if n (unset || not (is_between 1 32 plen)) _ _ (λ wrong. tt)
        (λ good.
          parsed_if n (leb 4 n) _ _ (λ many. tt)
            (λ few.
              let b =
                low_bits-between 8 1 32 plen (omega arith)
                  (refused_or unset (is_between 1 32 plen) good) in
              cons_route-AreParsed
                (record { net = parse_ip4 lib parts.0; prefix = low_bits 8 plen }) n rest
                (ground arith) b.0 b.1 h)))

  parse_routes-AreParsed : (toks : List CString) (n : ℕ) → AreParsed (parse_routes lib toks n) n
  unfolding parse_routes
  parse_routes-AreParsed [] n = tt
  parse_routes-AreParsed ([] ∷ []) n = tt
  parse_routes-AreParsed ([] ∷ q ∷ qs) n =
      parse_route-AreParsed [] n (parse_routes lib (q ∷ qs) (n + 1))
        (parse_routes-AreParsed (q ∷ qs) (n + 1))
  parse_routes-AreParsed ((x ∷ p) ∷ qs) n =
      parse_route-AreParsed (x ∷ p) n (parse_routes lib qs (n + 1))
        (parse_routes-AreParsed qs (n + 1))

  module _ (val : CString) (c : Config) (h : IsStored c) where
    store_routes-Outcome :
        (stack : ℕ → WgRoute) (p : Parsed) → AreParsed p 0 → Outcome c (store_routes lib stack p c)
    unfolding store_routes
    store_routes-Outcome stack (bad msg) k = failed-Outcome c msg
    store_routes-Outcome stack (routes []) k = failed-Outcome c _
    store_routes-Outcome stack (routes (r ∷ rs)) k =
        let w = h.wg in
        wg-Outcome c h
          (record c.wg { routes = λ i. get_or (r ∷ rs) i (stack i); route_count = length (r ∷ rs) })
          (record {
            private_key = w.private_key;
            peer_public = w.peer_public;
            psk = w.psk;
            endpoint = w.endpoint;
            endpoint_port = w.endpoint_port;
            keepalive = w.keepalive;
            host_mtu = w.host_mtu;
            exit_enabled = w.exit_enabled;
            exit_lan = w.exit_lan;
            prefix = w.prefix;
            route_count = omega (arith, AreRoutes-length (r ∷ rs) 0 (omega arith) k);
            routes = λ i low. AreRoutes-prefix (r ∷ rs) 0 i (stack i) k low;
          })

    pub set_routes-Outcome : (stack : ℕ → WgRoute) → Outcome c (set_routes lib stack val c)
    unfolding set_routes
    set_routes-Outcome stack =
        if-Outcome c (strcasecmp_eq val (codes "off")) _ _
          (λ off.
            wg-Outcome c h (record c.wg { route_count = 0 })
              (let w = h.wg in
                record {
                  private_key = w.private_key;
                  peer_public = w.peer_public;
                  psk = w.psk;
                  endpoint = w.endpoint;
                  endpoint_port = w.endpoint_port;
                  keepalive = w.keepalive;
                  host_mtu = w.host_mtu;
                  exit_enabled = w.exit_enabled;
                  exit_lan = w.exit_lan;
                  prefix = w.prefix;
                  route_count = omega arith;
                  routes = λ i low. absurd (omega arith);
                }))
          (λ e.
            store_routes-Outcome stack (parse_routes lib (pieces val) 0)
              (parse_routes-AreParsed (pieces val) 0))
