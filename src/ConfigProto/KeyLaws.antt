-- ===== src/ConfigProto/KeyLaws.antt =====
-- The keys of `set` whose values other libraries read, and the whole command, in src/config_proto.c.
use Prim.Native.String.{String}
use molewire.Base.{
  ℕ, ◌≤◌, inr, refl, arith, Bool, true, false, not, Option, none, some, [], length, ◌&&◌, ◌||◌,
  ◌==◌,
}
use molewire.Config.Record.{CString, WgRoute, Config}
use molewire.ConfigProto.Text.{
  codes, strcasecmp_eq, cut_at, clipped, strtol, is_between, low_bits, Libraries, parse_ip4,
  valid_wg_key,
}
use molewire.ConfigProto.Set.{
  SetResult, set_wg, set_ap, done, failed, with_wg, with_ap, set_country, set_wg_key,
  addr_and_prefix, set_addr, set_apaddr, one_address, set_hostip, set_apclient, set_dns,
}
use molewire.ConfigProto.Command.{
  Key, ssid, pass, country, debug, key, peer, psk, endpoint, addr, hostip, dns, keepalive, mtu,
  exit, exitlan, apssid, appass, apaddr, apclient, unknown, key_of, set_key, cmd_set,
}
use molewire.ConfigProto.Stored.{IsPrefix, IsStored, length-take}
use molewire.ConfigProto.SetLaws.{
  Outcome, completed, failed-Outcome, wg-Outcome, ap-Outcome, if-Outcome, option-Outcome,
  low_bits-between, set_debug-Outcome, set_mtu-Outcome, set_exit-Outcome, set_exitlan-Outcome,
  set_keepalive-Outcome, set_endpoint-Outcome, set_apssid-Outcome, set_appass-Outcome,
  set_ap_enabled-Outcome, set_pass-Outcome, set_ssid-Outcome,
}
use molewire.ConfigProto.RoutesLaws.{refused_or, set_routes-Outcome}

module _ (lib : Libraries) where
  module _ (val : CString) (c : Config) (h : IsStored c) where
    set_country-Outcome : Outcome c (set_country lib val c)
    unfolding set_country
    set_country-Outcome =
        completed
          (record {
            valid = record { fits = h.valid.fits; active_in = h.valid.active_in };
            texts = h.texts;
            wg = h.wg;
            ap = h.ap;
            debug = h.debug;
          })
          refl refl

    set_wg_key-Outcome :
        (put : CString → Config) (allow_off : Bool)
        → ((k : CString) → length k ≤ 45 → Outcome c (done set_wg (put k)))
        → Outcome c (set_wg_key lib put val allow_off c)
    unfolding set_wg_key
    set_wg_key-Outcome put allow_off k =
        if-Outcome c (allow_off && strcasecmp_eq val (codes "off")) _ _ (λ off. k [] (omega arith))
          (λ e.
            if-Outcome c (not (valid_wg_key lib val)) _ _ (λ wrong. failed-Outcome c _)
              (λ good. k (clipped 46 val) (length-take 45 val)))

    addr_and_prefix-Outcome :
        (put : ℕ → ℕ → Config) (r : SetResult) (usage : String)
        → ((a p : ℕ) → IsPrefix p → Outcome c (done r (put a p)))
        → Outcome c (addr_and_prefix lib put r val usage c)
    unfolding addr_and_prefix
    addr_and_prefix-Outcome put r usage k = option-Outcome c (cut_at 47 val) _ _ (λ parts e.
        let p = (strtol parts.1).0 in
        if-Outcome c (parse_ip4 lib parts.0 == 0 || not (is_between 8 30 p)) _ _
          (λ wrong. failed-Outcome c _)
          (λ good. k (parse_ip4 lib parts.0) (low_bits 8 p) (
            inr (
              low_bits-between 8 8 30 p (omega arith)
                (refused_or (parse_ip4 lib parts.0 == 0) (is_between 8 30 p) good)))))

    one_address-Outcome :
        (put : ℕ → Config) (r : SetResult) (usage : String)
        → ((a : ℕ) → Outcome c (done r (put a)))
        → Outcome c (one_address lib put r val usage c)
    unfolding one_address
    one_address-Outcome put r usage k =
        if-Outcome c (parse_ip4 lib val == 0) _ _ (λ wrong. failed-Outcome c usage)
          (λ good. k (parse_ip4 lib val))

    set_dns-Outcome : Outcome c (set_dns lib val c)
    unfolding set_dns
    set_dns-Outcome =
        let plain =
          λ (a : ℕ). wg-Outcome c h (record c.wg { dns = a }) (let w = h.wg in ground arith) in
        if-Outcome c (strcasecmp_eq val (codes "off")) _ _ (λ off. plain 0)
          (λ e. one_address-Outcome (λ a. with_wg c (record c.wg { dns = a })) set_wg _ plain)

  set_key-Outcome :
      (stack : ℕ → WgRoute) (k : Key) (val : CString) (c : Config)
      → IsStored c
      → Outcome c (set_key lib stack k val c)
  unfolding set_key set_addr set_apaddr set_hostip set_apclient
  set_key-Outcome stack ssid val c h = set_ssid-Outcome val c h
  set_key-Outcome stack pass val c h = set_pass-Outcome val c h
  set_key-Outcome stack country val c h = set_country-Outcome val c h
  set_key-Outcome stack debug val c h = set_debug-Outcome val c h
  set_key-Outcome stack key val c h =
      set_wg_key-Outcome val c h (λ k. with_wg c (record c.wg { private_key = k })) false
        (λ k n. wg-Outcome c h (record c.wg { private_key = k }) (let w = h.wg in ground arith))
  set_key-Outcome stack peer val c h =
      set_wg_key-Outcome val c h (λ k. with_wg c (record c.wg { peer_public = k })) false
        (λ k n. wg-Outcome c h (record c.wg { peer_public = k }) (let w = h.wg in ground arith))
  set_key-Outcome stack psk val c h =
      set_wg_key-Outcome val c h (λ k. with_wg c (record c.wg { psk = k })) true
        (λ k n. wg-Outcome c h (record c.wg { psk = k }) (let w = h.wg in ground arith))
  set_key-Outcome stack endpoint val c h = set_endpoint-Outcome val c h
  set_key-Outcome stack addr val c h =
      addr_and_prefix-Outcome val c h (λ a p. with_wg c (record c.wg { addr = a; prefix = p }))
        set_wg _
        (λ a p n.
          wg-Outcome c h (record c.wg { addr = a; prefix = p }) (let w = h.wg in ground arith))
  set_key-Outcome stack hostip val c h =
      one_address-Outcome val c h (λ a. with_wg c (record c.wg { host_addr = a })) set_wg _
        (λ a. wg-Outcome c h (record c.wg { host_addr = a }) (let w = h.wg in ground arith))
  set_key-Outcome stack dns val c h = set_dns-Outcome val c h
  set_key-Outcome stack Key.routes val c h = set_routes-Outcome lib val c h stack
  set_key-Outcome stack keepalive val c h = set_keepalive-Outcome val c h
  set_key-Outcome stack mtu val c h = set_mtu-Outcome val c h
  set_key-Outcome stack exit val c h = set_exit-Outcome val c h
  set_key-Outcome stack exitlan val c h = set_exitlan-Outcome val c h
  set_key-Outcome stack apssid val c h = set_apssid-Outcome val c h
  set_key-Outcome stack appass val c h = set_appass-Outcome val c h
  set_key-Outcome stack apaddr val c h =
      addr_and_prefix-Outcome val c h (λ a p. with_ap c (record c.ap { addr = a; prefix = p }))
        set_ap _
        (λ a p n.
          ap-Outcome c h (record c.ap { addr = a; prefix = p }) (let w = h.ap in ground arith))
  set_key-Outcome stack apclient val c h =
      one_address-Outcome val c h (λ a. with_ap c (record c.ap { client_addr = a })) set_ap _
        (λ a. ap-Outcome c h (record c.ap { client_addr = a }) (let w = h.ap in ground arith))
  set_key-Outcome stack Key.ap val c h = set_ap_enabled-Outcome val c h
  set_key-Outcome stack unknown val c h = failed-Outcome c _

  -- Of a configuration in its form, `set` with any text is either refused, with one line of text and
  -- all as it was, or done, with no text: the configuration is in its form, and only the part that
  -- the result names was changed.
  pub cmd_set-Outcome :
      (stack : ℕ → WgRoute) (args : CString) (c : Config)
      → IsStored c
      → Outcome c (cmd_set lib stack args c)
  unfolding cmd_set
  cmd_set-Outcome stack args c h = cut (cut_at 32 args)
    where
      cut :
          (o : Option (CString × CString))
          → Outcome c (elim o [
            | none ↦ failed c "ERR usage: set <key> <value> (see help)\n"
            | some (name, val) ↦ set_key lib stack (key_of name) val c
          ])
      cut none = failed-Outcome c _
      cut (some (name, val)) = set_key-Outcome stack (key_of name) val c h
