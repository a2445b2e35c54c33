-- ===== src/ConfigProto/SetLaws.antt =====
-- What each key of `set` does to the configuration, in src/config_proto.c.
use Prim.Native.String.{String}
use native.Mathlib.Nat.{mod-eq_of_lt}
use molewire.Base.{
  ℕ, zero, suc, ◌%◌, ◌^◌, ◌≤◌, ◌<◌, ◌≡◌, ◌⊎◌, inl, inr, refl, ap, sym, subst, arith, Bool, true,
  false, not, Option, none, some, [], ◌∷◌, length, take, ℤ, pos, negsuc, ltb, leb, ◌&&◌, ◌||◌,
  if◌then◌else◌,
}
use molewire.Config.Record.{
  CString, WgConfig, ApConfig, WifiProfile, Config, config_ssid_max, config_pass_max,
}
use molewire.Config.Profiles.{set_profile, config_add_profile}
use molewire.Config.ProfileLaws.{IsValid, config_add_profile-IsValid}
use molewire.Config.Complete.{config_ap_complete}
use molewire.ConfigProto.Text.{codes, strcasecmp_eq, cut_at, clipped, strtol, is_between, low_bits}
use molewire.ConfigProto.Set.{
  SetResult, SetOut, set_err, set_wifi, set_other, set_wg, set_ap, done, failed, with_wg, with_ap,
  set_new_ssid, set_ssid, set_pass, set_debug, on_off, set_exit, set_exitlan, number_in,
  set_keepalive, set_mtu, set_endpoint, set_apssid, set_appass, set_ap_enabled,
}
use molewire.ConfigProto.Stored.{
  WgStored, ApStored, Texts, IsStored, length-take, SameButProfiles, AddedOne,
  config_add_profile-AddedOne,
}

-- What a result says was changed; nothing else was.
abbrev pub Changed : SetResult → Config → Config → Type 0
Changed set_err c d = ⊥
Changed set_wifi c d = SameButProfiles c d
Changed set_other c d = d ≡ record c { debug_enabled = d.debug_enabled }
Changed set_wg c d = d ≡ record c { wg = d.wg }
Changed set_ap c d = d ≡ record c { ap = d.ap }

-- A command either is refused, with one line of text and all as it was, or is done, with no text,
-- the configuration in its form and only the part changed that the result names.
pub data Outcome (c : Config) (o : SetOut) : Type 0 where
  refused : o.result ≡ set_err → o.cfg ≡ c → o.marked ≡ false → length o.said ≡ 1 → Outcome c o
  completed : IsStored o.cfg → Changed o.result c o.cfg → o.said ≡ [] → Outcome c o

module _ (c : Config) where
  pub failed-Outcome : (msg : String) → Outcome c (failed c msg)
  failed-Outcome msg = refused refl refl refl refl

  module _ (h : IsStored c) where
    pub wg-Outcome : (w : WgConfig) → WgStored w → Outcome c (done set_wg (with_wg c w))
    wg-Outcome w k =
        completed
          (record {
            valid = record { fits = h.valid.fits; active_in = h.valid.active_in };
            texts = h.texts;
            wg = k;
            ap = h.ap;
            debug = h.debug;
          })
          refl refl

    pub ap-Outcome : (a : ApConfig) → ApStored a → Outcome c (done set_ap (with_ap c a))
    ap-Outcome a k =
        completed
          (record {
            valid = record { fits = h.valid.fits; active_in = h.valid.active_in };
            texts = h.texts;
            wg = h.wg;
            ap = k;
            debug = h.debug;
          })
          refl refl

-- Either outcome of a test.
pub if-Outcome :
    (c : Config) (t : Bool) (o p : SetOut)
    → (t ≡ true → Outcome c o)
    → (t ≡ false → Outcome c p)
    → Outcome c (if t then o else p)
if-Outcome c true o p h k = h refl
if-Outcome c false o p h k = k refl

on_off-le : (val : CString) (flag : ℕ) → on_off val ≡ some flag → flag ≤ 1
on_off-le val flag h = ground arith

number_in-between :
    (lo hi : ℕ) (s : CString) (n : ℕ)
    → hi ≤ 65535
    → number_in lo hi s ≡ some n
    → (lo ≤ n) × (n ≤ hi)
number_in-between lo hi s n b h = between (strtol s).0 h
  where
    between :
        (v : ℤ)
        → (if is_between lo hi v then some (low_bits 16 v) else none) ≡ some n
        → (lo ≤ n) × (n ≤ hi)
    between (pos m) e = ground arith
    between (negsuc m) e = absurd (ground arith)

-- The cast of a value that passed its test.
pub low_bits-between :
    (w lo hi : ℕ) (v : ℤ)
    → hi < 2 ^ w
    → is_between lo hi v ≡ true
    → (lo ≤ low_bits w v) × (low_bits w v ≤ hi)
low_bits-between w lo hi (pos m) b h =
    let same : m % 2 ^ w ≡ m = mod-eq_of_lt (ground arith) in rw same (ground arith)
low_bits-between w lo hi (negsuc m) b h = absurd (ground arith)

-- A test on a parsed value.
pub option-Outcome :
    {A : Type 0} (c : Config) (o : Option A) (f : A → SetOut) (msg : String)
    → ((a : A) → o ≡ some a → Outcome c (f a))
    → Outcome c (elim o [ some a ↦ f a | none ↦ failed c msg ])
option-Outcome c none f msg k = failed-Outcome c msg
option-Outcome c (some a) f msg k = k a refl

pub wifi_IsStored :
    (c d : Config) → IsStored c → IsValid d → Texts d.profiles → SameButProfiles c d → IsStored d
wifi_IsStored c d h v t same = record {
  valid = v;
  texts = t;
  wg = subst (λ x. WgStored x.wg) (sym same) h.wg;
  ap = subst (λ x. ApStored x.ap) (sym same) h.ap;
  debug = subst (λ x. x.debug_enabled ≤ 1) (sym same) h.debug;
}

take-all : (n : ℕ) (s : CString) → length s ≤ n → take n s ≡ s
take-all zero [] h = refl
take-all zero (x ∷ s) h = absurd (omega arith)
take-all (suc n) [] h = refl
take-all (suc n) (x ∷ s) h = ap (λ t. x ∷ t) (take-all n s (omega arith))

module _ (val : CString) (c : Config) (h : IsStored c) where
  pub set_debug-Outcome : Outcome c (set_debug val c)
  unfolding set_debug
  set_debug-Outcome = option-Outcome c (on_off val) _ _ (λ flag e.
      completed
        (record {
          valid = record { fits = h.valid.fits; active_in = h.valid.active_in };
          texts = h.texts;
          wg = h.wg;
          ap = h.ap;
          debug = on_off-le val flag e;
        })
        refl refl)

  pub set_mtu-Outcome : Outcome c (set_mtu val c)
  unfolding set_mtu
  set_mtu-Outcome =
      if-Outcome c _ _ _ (λ e. failed-Outcome c _)
        (λ e. wg-Outcome c h _ (let k = mtu_ok (strtol val).0 e in let w = h.wg in ground arith))
    where
      mtu_ok :
          (v : ℤ)
          → (not (is_between 0 0 v) && not (is_between 576 1420 v)) ≡ false
          → (low_bits 16 v ≡ 0) ⊎ ((576 ≤ low_bits 16 v) × (low_bits 16 v ≤ 1420))
      mtu_ok (pos n) e = ground arith
      mtu_ok (negsuc n) e = absurd (ground arith)

  pub set_exit-Outcome : Outcome c (set_exit val c)
  unfolding set_exit
  set_exit-Outcome =
      option-Outcome c (on_off val) _ _
        (λ flag e. wg-Outcome c h _ (let f = on_off-le val flag e in let w = h.wg in ground arith))

  pub set_exitlan-Outcome : Outcome c (set_exitlan val c)
  unfolding set_exitlan
  set_exitlan-Outcome =
      option-Outcome c (on_off val) _ _
        (λ flag e. wg-Outcome c h _ (let f = on_off-le val flag e in let w = h.wg in ground arith))

  pub set_keepalive-Outcome : Outcome c (set_keepalive val c)
  unfolding set_keepalive
  set_keepalive-Outcome = option-Outcome c (number_in 0 65000 val) _ _ (λ k e.
      wg-Outcome c h _
        (let b = number_in-between 0 65000 val k (omega arith) e in let w = h.wg in ground arith))

  pub set_endpoint-Outcome : Outcome c (set_endpoint val c)
  unfolding set_endpoint
  set_endpoint-Outcome = option-Outcome c (cut_at 32 val) _ _ (λ parts e.
      let p = (strtol parts.1).0 in
      if-Outcome c (not (is_between 1 65535 p) || leb 64 (length parts.0)) _ _
        (λ wrong. failed-Outcome c _)
        (λ good.
          wg-Outcome c h
            (record c.wg { endpoint = clipped 64 parts.0; endpoint_port = low_bits 16 p })
            (let b = port_ok p (leb 64 (length parts.0)) good in
              let t = length-take 63 parts.0 in let w = h.wg in ground arith)))
    where
      port_ok :
          (v : ℤ) (b : Bool) → (not (is_between 1 65535 v) || b) ≡ false → low_bits 16 v ≤ 65535
      port_ok (pos n) b e = omega arith
      port_ok (negsuc n) b e = omega arith

  pub set_apssid-Outcome : Outcome c (set_apssid val c)
  unfolding set_apssid
  set_apssid-Outcome =
      ap-Outcome c h (record c.ap { ssid = clipped config_ssid_max val })
        (let s = length-take 32 val in let a = h.ap in ground arith)

  pub set_appass-Outcome : Outcome c (set_appass val c)
  unfolding set_appass
  set_appass-Outcome =
      if-Outcome c (ltb (length val) 8 || ltb 63 (length val)) _ _ (λ wrong. failed-Outcome c _)
        (λ good.
          ap-Outcome c h (record c.ap { password = clipped config_pass_max val })
            (let s = take-all 63 val (ground arith) in
              let n : 8 ≤ length val = ground arith in
              let m : length val ≤ 63 = ground arith in
              let a = h.ap in
              record {
                ssid = a.ssid;
                password = inr (rw s (n, m));
                prefix = a.prefix;
                enabled = a.enabled;
              }))

  pub set_ap_enabled-Outcome : Outcome c (set_ap_enabled val c)
  unfolding set_ap_enabled
  set_ap_enabled-Outcome =
      if-Outcome c (strcasecmp_eq val (codes "off")) _ _
        (λ off. ap-Outcome c h (record c.ap { enabled = 0 }) (let a = h.ap in ground arith))
        (λ e.
          if-Outcome c (not (strcasecmp_eq val (codes "on"))) _ _ (λ wrong. failed-Outcome c _)
            (λ on.
              if-Outcome c (not (config_ap_complete c)) _ _ (λ wrong. failed-Outcome c _)
                (λ complete.
                  ap-Outcome c h (record c.ap { enabled = 1 }) (let a = h.ap in ground arith))))

  -- A new text in the entry of the active profile.
  entry-Outcome :
      (entry : WifiProfile)
      → length entry.ssid ≤ 32
      → length entry.password ≤ 63
      → Outcome c (record {
        result = set_wifi;
        cfg = record c { profiles = set_profile c.profiles c.active entry };
        marked = true;
        said = [];
      })
  entry-Outcome entry s p =
      completed
        (wifi_IsStored c (record c { profiles = set_profile c.profiles c.active entry }) h
          (record { fits = h.valid.fits; active_in = h.valid.active_in })
          (λ j. (let t = h.texts j in ground arith)) refl)
        refl refl

  pub set_pass-Outcome : Outcome c (set_pass val c)
  unfolding set_pass
  set_pass-Outcome =
      if-Outcome c (leb c.profile_count c.active) _ _ (λ none_active. failed-Outcome c _)
        (λ e.
          entry-Outcome (record (c.profiles c.active) { password = clipped config_pass_max val })
            (h.texts c.active).0 (length-take 63 val))

  new_ssid-Outcome :
      (r : Config × ℤ)
      → IsValid r.0
      → (AddedOne c r) ⊎ ((r.1 ≡ negsuc 0) × (r.0 ≡ c))
      → Outcome c (set_new_ssid r c)
  unfolding set_new_ssid
  new_ssid-Outcome (d, negsuc n) v (inr same) = refused refl same.1 refl refl
  new_ssid-Outcome (d, pos i) v (inr same) = absurd (ground arith)
  new_ssid-Outcome (d, negsuc n) v (inl a) = absurd (let r = a.returned in ground arith)
  new_ssid-Outcome (d, pos i) v (inl a) =
      let at : i ≡ a.index = (let r = a.returned in ground arith) in
      completed
        (wifi_IsStored c (record d { active = i }) h
          (record { fits = v.fits; active_in = inl (rw at a.inside) }) a.texts
          (ap (λ (x : Config). record x { active = i }) a.rest))
        (ap (λ (x : Config). record x { active = i }) a.rest) refl

  pub set_ssid-Outcome : Outcome c (set_ssid val c)
  unfolding set_ssid
  set_ssid-Outcome =
      if-Outcome c (ltb c.active c.profile_count) _ _
        (λ e.
          entry-Outcome (record (c.profiles c.active) { ssid = clipped config_ssid_max val })
            (length-take 32 val) (h.texts c.active).1)
        (λ e.
          new_ssid-Outcome (config_add_profile c val) (config_add_profile-IsValid c val h.valid)
            (config_add_profile-AddedOne c val h.texts))
