-- ===== src/ConfigProto/JoinLaws.antt =====
-- What `set` and a join in src/config_proto.c leave of the configuration.
use molewire.Base.{
  ℕ, ◌-◌, ◌^◌, ◌<◌, ◌≡◌, ◌⊎◌, inl, inr, refl, sym, subst, arith, Bool, true, false, not, Bool-cases,
  ◌&&◌, Option, none, some, List, [], ◌∷◌, length, ℤ, pos, negsuc, ◌==◌, if◌then◌else◌,
}
use molewire.Config.Record.{CString, Config}
use molewire.Config.Profiles.{config_find_profile, config_add_profile}
use molewire.Config.ProfileLaws.{IsValid, config_add_profile-IsValid}
use molewire.Config.Lookup.{config_find_profile_lem}
use molewire.ConfigProto.Text.{is_between, low_bits, strtol, parse_index, Libraries}
use molewire.ConfigProto.Set.{SetOut}
use molewire.ConfigProto.Command.{cmd_set}
use molewire.ConfigProto.Stored.{IsStored, AddedOne, config_add_profile-AddedOne}
use molewire.ConfigProto.SetLaws.{Outcome, refused, completed, wifi_IsStored, low_bits-between}
use molewire.ConfigProto.KeyLaws.{cmd_set-Outcome}
use molewire.ConfigProto.Console.{Effect, mark_creds_unsaved, Console, Answers, does}
use molewire.ConfigProto.Menu.{
  to_config, join_profile, join_new, join_found, join_ssid, finish_set, is_err, or_plain,
}

pub record HoldsForm (k : Console) : Type 0 where
  pub form : IsStored k.cfg

pub form_if :
    (t : Bool) (j k : Console) → HoldsForm j → HoldsForm k → HoldsForm (if t then j else k)
form_if true j k h g = h
form_if false j k h g = g

-- A choice of the active profile keeps the form.
pub active-IsStored :
    (c : Config) (i : ℕ) → i < c.profile_count → IsStored c → IsStored (record c { active = i })
active-IsStored c i low h = record {
  valid = record { fits = h.valid.fits; active_in = inl low };
  texts = h.texts;
  wg = h.wg;
  ap = h.ap;
  debug = h.debug;
}

index-lt :
    (v : ℤ) (more last : Bool) (n i : ℕ)
    → n < 2 ^ 31
    → (if is_between 1 n v && more && last then some (low_bits 31 v - 1) else none) ≡ some i
    → i < n
index-lt v more last n i b h = elim (Bool-cases (is_between 1 n v)) [
  | inl good ↦ (let r = low_bits-between 31 1 n v b good in ground arith)
  | inr wrong ↦ absurd (ground arith)
]

pub parse_index-lt : (s : CString) (n i : ℕ) → n < 2 ^ 31 → parse_index s n ≡ some i → i < n
unfolding parse_index
parse_index-lt s n i b h =
    let r = strtol s in index-lt r.0 (not (length r.1 == length s)) (length r.1 == 0) n i b h

find-lt :
    (c : Config) (ssid : CString) (i : ℕ) → config_find_profile c ssid ≡ pos i → i < c.profile_count
find-lt c ssid i e = elim (config_find_profile_lem c ssid) [
  | inl (k, hit, low, same) ↦ ground arith
  | inr (missed, all) ↦ absurd (ground arith)
]

outcome_form : {c : Config} (o : SetOut) → IsStored c → Outcome c o → IsStored o.cfg
outcome_form o h (refused r same m n) = subst IsStored (sym same) h
outcome_form o h (completed k ch n) = k

pub does-form : (es : List Effect) (k : Console) → HoldsForm k → HoldsForm (does es k)
does-form es k h = record { form = h.form }

pub or_plain-form :
    (t : Bool) (o p : Option Console) (j : Console)
    → HoldsForm (or_plain o j)
    → HoldsForm (or_plain p j)
    → HoldsForm (or_plain (if t then o else p) j)
or_plain-form true o p j h k = h
or_plain-form false o p j h k = k

module _ (a : Answers) where
  join_profile-form :
      (ssid : CString) (hint : Option Bool) (p : ℕ) (k : Console)
      → p < k.cfg.profile_count
      → HoldsForm k
      → HoldsForm (join_profile a ssid hint p k)
  unfolding join_profile
  join_profile-form ssid hint p k low h =
      let same : (join_profile a ssid hint p k).cfg ≡ record k.cfg { active = p } = ground arith in
      record { form = subst IsStored (sym same) (active-IsStored k.cfg p low h.form) }

  join_new-form :
      (ssid : CString) (hint : Option Bool) (r : Config × ℤ) (k : Console)
      → IsValid r.0
      → (AddedOne k.cfg r) ⊎ ((r.1 ≡ negsuc 0) × (r.0 ≡ k.cfg))
      → HoldsForm k
      → HoldsForm (join_new a ssid hint r k)
  unfolding join_new
  join_new-form ssid hint (d, negsuc n) k v (inr same) h = record {
    form = subst IsStored (sym same.1) h.form;
  }
  join_new-form ssid hint (d, negsuc n) k v (inl r) h = absurd (let e = r.returned in ground arith)
  join_new-form ssid hint (d, pos i) k v (inr same) h = absurd (ground arith)
  join_new-form ssid hint (d, pos i) k v (inl r) h =
      let at : i ≡ r.index = (let e = r.returned in ground arith) in
      join_profile-form ssid hint i (does (mark_creds_unsaved ∷ []) (to_config d k))
        (rw at r.inside) (record { form = wifi_IsStored k.cfg d h.form v r.texts r.rest })

  pub join_ssid-form :
      (ssid : CString) (hint : Option Bool) (k : Console)
      → HoldsForm k
      → HoldsForm (join_ssid a ssid hint k)
  unfolding join_ssid join_found
  join_ssid-form ssid hint k h = found (config_find_profile k.cfg ssid) refl
    where
      found : (i : ℤ) → config_find_profile k.cfg ssid ≡ i → HoldsForm (join_found a ssid hint i k)
      found (pos p) e = join_profile-form ssid hint p k (find-lt k.cfg ssid p e) h
      found (negsuc n) e =
          join_new-form ssid hint (config_add_profile k.cfg ssid) k
            (config_add_profile-IsValid k.cfg ssid h.form.valid)
            (config_add_profile-AddedOne k.cfg ssid h.form.texts) h

  finish_set-form : (o : SetOut) (k : Console) → IsStored o.cfg → HoldsForm (finish_set a o k)
  unfolding finish_set
  finish_set-form o k h = form_if (is_err o.result) _ _ (record { form = h }) (record { form = h })

  pub set-form :
      (lib : Libraries) (args : CString) (k : Console)
      → HoldsForm k
      → HoldsForm (finish_set a (cmd_set lib a.stack args k.cfg) k)
  set-form lib args k h = finish_set-form (cmd_set lib a.stack args k.cfg) k (
      outcome_form (cmd_set lib a.stack args k.cfg) h.form
        (cmd_set-Outcome lib a.stack args k.cfg h.form))
