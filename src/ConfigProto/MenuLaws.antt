-- ===== src/ConfigProto/MenuLaws.antt =====
-- What a line does to the configuration, and how a scan of the console of src/config_proto.c ends.
use molewire.Base.{
  ℕ, ◌≤◌, ◌≡◌, refl, sym, subst, arith, Bool, true, false, not, ◌&&◌, ◌||◌, Option, none, some, [],
  ◌∷◌, ◌++◌, length, ℤ, pos, negsuc, ◌==◌, if◌then◌else◌,
}
use molewire.Config.Record.{CString}
use molewire.Config.Profiles.{config_del_profile}
use molewire.Config.ProfileLaws.{config_del_profile-IsValid}
use molewire.Config.Complete.{nonempty}
use molewire.ConfigProto.Text.{codes, strcasecmp_eq, parse_index, Libraries}
use molewire.ConfigProto.Stored.{IsStored, config_del_profile-Texts, config_del_profile-rest}
use molewire.ConfigProto.SetLaws.{wifi_IsStored}
use molewire.ConfigProto.Console.{
  say, say_text, apply_wifi, dump, leave_wifi, mode_main, Net, Console, Answers, is_scan, does,
  start_scan, started, wifi_scan_start,
}
use molewire.ConfigProto.Menu.{
  to_config, join_ssid, main_use, del_index, del_found, main_pcap, store_keypair, is_force,
  main_genkey, main_pubkey, main_reboot, main_save, main_restore, main_with, main_plain, or_plain,
  handle_main,
}
use molewire.ConfigProto.Line.{
  live_started, net_at, args_of, is_join, join_net, handle_scan, handle_words,
  config_proto_handle_line, words, trimmed,
}
use molewire.ConfigProto.JoinLaws.{
  HoldsForm, form_if, active-IsStored, parse_index-lt, does-form, or_plain-form, join_ssid-form,
  set-form,
}

-- What the other components answer fits the form too.
pub record AreSound (a : Answers) : Type 0 where
  pub stored : IsStored a.stored
  pub keypair : (priv pub_b64 : CString) → a.keypair ≡ some (priv, pub_b64) → length priv ≤ 45

module _ (a : Answers) (sound : AreSound a) where
  main_use-form : (args : CString) (k : Console) → HoldsForm k → HoldsForm (main_use a args k)
  unfolding main_use
  main_use-form args k h = used (parse_index args k.cfg.profile_count) refl
    where
      used :
          (o : Option ℕ)
          → parse_index args k.cfg.profile_count ≡ o
          → HoldsForm (elim o [
            | none ↦ does (say "ERR usage: use <n> (see list)\n" ∷ []) k
            | some i ↦
                does
                  ((if a.has_apply
                      then say "[*] applying -- re-associating\n" ∷ apply_wifi ∷ []
                      else [])
                    ++ dump ∷ [])
                  (to_config (record k.cfg { active = i }) k)
          ])
      used none e = record { form = h.form }
      used (some i) e = record {
        form =
            active-IsStored k.cfg i
              (parse_index-lt args k.cfg.profile_count i (let f = h.form.valid.fits in omega arith)
                e)
              h.form;
      }

  del_found-form : (i : ℤ) (k : Console) → HoldsForm k → HoldsForm (del_found a i k)
  unfolding del_found
  del_found-form (negsuc n) k h = record { form = h.form }
  del_found-form (pos i) k h = record {
    form =
        wifi_IsStored k.cfg (config_del_profile k.cfg (pos i)) h.form
          (config_del_profile-IsValid k.cfg (pos i) h.form.valid)
          (config_del_profile-Texts k.cfg i h.form.texts) (config_del_profile-rest k.cfg i);
  }

  main_pcap-form : (args : CString) (k : Console) → HoldsForm k → HoldsForm (main_pcap args k)
  unfolding main_pcap
  main_pcap-form args k h =
      let same : (main_pcap args k).cfg ≡ k.cfg = ground arith in
      record { form = subst IsStored (sym same) h.form }

  store_keypair-form :
      (o : Option (CString × CString)) (k : Console)
      → ((priv pub_b64 : CString) → o ≡ some (priv, pub_b64) → length priv ≤ 45)
      → HoldsForm k
      → HoldsForm (store_keypair a o k)
  unfolding store_keypair
  store_keypair-form none k n h = does-form _ k h
  store_keypair-form (some (priv, pub_b64)) k n h = record {
    form = record {
      valid = record { fits = h.form.valid.fits; active_in = h.form.valid.active_in };
      texts = h.form.texts;
      wg = (let m = n priv pub_b64 refl in let w = h.form.wg in ground arith);
      ap = h.form.ap;
      debug = h.form.debug;
    };
  }

  main_genkey-form :
      (args : Option CString) (k : Console) → HoldsForm k → HoldsForm (main_genkey a args k)
  unfolding main_genkey
  main_genkey-form args k h =
      form_if (nonempty k.cfg.wg.private_key && not (is_force args)) _ _ (does-form _ k h)
        (store_keypair-form a.keypair k sound.keypair h)

  main_pubkey-form : (k : Console) → HoldsForm k → HoldsForm (main_pubkey a k)
  unfolding main_pubkey
  main_pubkey-form k h = shown (a.pubkey k.cfg)
    where
      shown :
          (o : Option CString)
          → HoldsForm (elim o [
            | some b64 ↦ does (say_text b64 ∷ say "\n" ∷ []) k
            | none ↦
                does (say "ERR no usable private key -- genkey (or set key <b64>) first\n" ∷ []) k
          ])
      shown none = does-form _ k h
      shown (some b64) = does-form _ k h

  wifi_scan_start-cfg : (k : Console) → (wifi_scan_start a k).0.cfg ≡ k.cfg
  unfolding wifi_scan_start
  wifi_scan_start-cfg k = ground arith

  started-form : (r : Console × Bool) → HoldsForm r.0 → HoldsForm (started r)
  unfolding started
  started-form (k, true) h = record { form = h.form }
  started-form (k, false) h = record { form = h.form }

  start_scan-form : (k : Console) → HoldsForm k → HoldsForm (start_scan a k)
  unfolding start_scan
  start_scan-form k h =
      started-form (wifi_scan_start a k)
        (record { form = subst IsStored (sym (wifi_scan_start-cfg k)) h.form })

  main_plain-form :
      (cmd : CString) (args : Option CString) (k : Console)
      → HoldsForm k
      → HoldsForm (main_plain a cmd args k)
  unfolding main_plain main_reboot main_save main_restore
  main_plain-form cmd args k h = form_if (strcasecmp_eq cmd (codes "LIST")) _ _ (does-form _ k h) (
      form_if (strcasecmp_eq cmd (codes "GENKEY")) _ _ (main_genkey-form args k h) (
        form_if (strcasecmp_eq cmd (codes "PUBKEY")) _ _ (main_pubkey-form k h) (
          form_if (strcasecmp_eq cmd (codes "BOOTSEL") || strcasecmp_eq cmd (codes "REBOOT")) _ _
            (does-form _ k h)
            (form_if (strcasecmp_eq cmd (codes "SCAN")) _ _ (start_scan-form k h) (
              form_if (strcasecmp_eq cmd (codes "SAVE")) _ _ (does-form _ k h) (
                form_if (strcasecmp_eq cmd (codes "RESTORE")) _ _ (record { form = sound.stored })
                  (does-form _ k h)))))))

  main_with-form :
      (lib : Libraries) (cmd args : CString) (j k : Console)
      → HoldsForm j
      → HoldsForm k
      → HoldsForm (or_plain (main_with lib a cmd args k) j)
  unfolding main_with
  main_with-form lib cmd args j k g h =
      or_plain-form (strcasecmp_eq cmd (codes "SET")) _ _ j (set-form a lib args k h) (
        or_plain-form (strcasecmp_eq cmd (codes "LIST")) _ _ j g (
          or_plain-form (strcasecmp_eq cmd (codes "JOIN")) _ _ j
            (does-form _ (join_ssid a args none k) (join_ssid-form a args none k h))
            (or_plain-form (strcasecmp_eq cmd (codes "USE")) _ _ j (main_use-form args k h) (
              or_plain-form (strcasecmp_eq cmd (codes "DEL")) _ _ j
                (del_found-form (del_index args k.cfg) k h)
                (or_plain-form (strcasecmp_eq cmd (codes "PCAP")) _ _ j (main_pcap-form args k h)
                  g)))))

  handle_main-form :
      (lib : Libraries) (cmd : CString) (args : Option CString) (k : Console)
      → HoldsForm k
      → HoldsForm (handle_main lib a cmd args k)
  unfolding handle_main
  handle_main-form lib cmd none k h = main_plain-form cmd none k h
  handle_main-form lib cmd (some args) k h =
      main_with-form lib cmd args (main_plain a cmd (some args) k) k
        (main_plain-form cmd (some args) k h) h

  live_started-form : (r : Console × Bool) → HoldsForm r.0 → HoldsForm (live_started r)
  unfolding live_started
  live_started-form (k, true) h = record { form = h.form }
  live_started-form (k, false) h = record { form = h.form }

  join_net-form : (o : Option Net) (k : Console) → HoldsForm k → HoldsForm (join_net a o k)
  unfolding join_net
  join_net-form none k h = does-form _ k h
  join_net-form (some n) k h =
      let j : Console = record k { mode = mode_main } in
      does-form (dump ∷ []) (join_ssid a n.ssid (some n.is_open) j)
        (join_ssid-form a n.ssid (some n.is_open) j (record { form = h.form }))

  handle_scan-form :
      (cmd : CString) (args : Option CString) (k : Console)
      → HoldsForm k
      → HoldsForm (handle_scan a cmd args k)
  unfolding handle_scan
  handle_scan-form cmd args k h =
      let j = does (leave_wifi ∷ []) k in
      form_if (strcasecmp_eq cmd (codes "BACK")) _ _ (record { form = h.form })
        (form_if (strcasecmp_eq cmd (codes "SCAN")) _ _ (start_scan-form k h) (
          form_if (strcasecmp_eq cmd (codes "LIVE")) _ _
            (live_started-form (wifi_scan_start a j)
              (record { form = subst IsStored (sym (wifi_scan_start-cfg j)) h.form }))
            (form_if (is_join cmd args) _ _ (join_net-form (net_at (args_of args) k.nets) k h)
              (does-form _ k h))))

  handle_words-form :
      (lib : Libraries) (w : CString × Option CString) (k : Console)
      → HoldsForm k
      → HoldsForm (handle_words lib a w k)
  unfolding handle_words
  handle_words-form lib (cmd, args) k h =
      form_if (is_scan k.mode) _ _ (handle_scan-form cmd args k h)
        (handle_main-form lib cmd args k h)

  -- Whatever line is typed, in whatever menu: a configuration in its form is left in its form.
  pub config_proto_handle_line-form :
      (lib : Libraries) (line : CString) (k : Console)
      → IsStored k.cfg
      → IsStored (config_proto_handle_line lib a line k).cfg
  unfolding config_proto_handle_line
  config_proto_handle_line-form lib line k h =
      let g : HoldsForm k = record { form = h } in
      (form_if (length (trimmed line) == 0) _ _ (does-form _ k g)
        (handle_words-form lib (words (trimmed line)) k g)).form
