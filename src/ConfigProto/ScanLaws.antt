-- ===== src/ConfigProto/ScanLaws.antt =====
-- The polls of a scan of the console, `config_proto_poll` of src/config_proto.c.
use molewire.Base.{
  ℕ, suc, ◌+◌, ◌-◌, ◌<◌, ◌≡◌, subst, inl, inr, refl, ap, sym, ◌∙◌, arith, true, false, Bool-cases,
  List, [], ◌∷◌, ◌++◌, ltb, leb, if◌then◌else◌,
}
use molewire.ConfigProto.Console.{
  mode_scan, Effect, say, list_scan, Console, Answers, wifi_scan_start, wifi_scan_again,
  wifi_scan_poll, started, start_scan, poll_finish, poll_pass, config_proto_poll,
}

unfoldable pub polls : List Answers → Console → Console
polls [] k = k
polls (a ∷ ps) k = polls ps (config_proto_poll a k)

-- The polls that find the driver done.
unfoldable pub passes : List Answers → ℕ
passes [] = 0
passes (a ∷ ps) = let rest = passes ps in if a.scan_active then rest else suc rest

-- The driver takes each pass that it is asked for.
abbrev pub AllStart : List Answers → Type 0
AllStart [] = Unit {0}
AllStart (a ∷ ps) = (a.scan_starts ≡ true) × AllStart ps

unfoldable pub lists : List Effect → ℕ
lists [] = 0
lists (list_scan ∷ es) = suc (lists es)
lists (_ ∷ es) = lists es

pub lists-append : (es fs : List Effect) → lists (es ++ fs) ≡ lists es + lists fs
unfolding lists
lists-append [] fs = omega arith
lists-append (list_scan ∷ es) fs = omega (arith, lists-append es fs)
lists-append (e ∷ es) fs = lists-append es fs

-- A single scan that still runs.
pub record IsPassing (k : Console) : Type 0 where
  pub view : k.mode ≡ mode_scan
  pub running : k.scanning ≡ true
  pub left : 0 < k.scan_rounds

-- A single scan that is over.
pub record IsOver (k : Console) : Type 0 where
  pub view : k.mode ≡ mode_scan
  pub stopped : k.scanning ≡ false
  pub none_left : k.scan_rounds ≡ 0

over_poll : (a : Answers) (k : Console) → IsOver k → config_proto_poll a k ≡ k
unfolding config_proto_poll
over_poll a k h = let v = h.view in let n = h.none_left in ground arith

over_polls : (ps : List Answers) (k : Console) → IsOver k → polls ps k ≡ k
unfolding polls
over_polls [] k h = refl
over_polls (a ∷ ps) k h = rw (over_poll a k h) (over_polls ps k h)

-- What a single scan keeps from one poll to the next.
pub record After (j k : Console) (rounds listed : ℕ) : Type 0 where
  pub view : k.mode ≡ mode_scan
  pub running : k.scanning ≡ ltb 0 rounds
  pub left : k.scan_rounds ≡ rounds
  pub listed_times : lists k.effects ≡ lists j.effects + listed
  pub cfg_same : k.cfg ≡ j.cfg
  pub nets_same : k.nets ≡ j.nets

module _ (a : Answers) (k : Console) (h : IsPassing k) where
  busy_poll : a.scan_active ≡ true → config_proto_poll a k ≡ k
  unfolding config_proto_poll poll_pass wifi_scan_poll
  busy_poll busy = let v = h.view in let r = h.running in let n = h.left in ground arith

  pass_poll :
      a.scan_active ≡ false
      → a.scan_starts ≡ true
      → 1 < k.scan_rounds
      → After k (config_proto_poll a k) (k.scan_rounds - 1) 0
  unfolding config_proto_poll poll_pass wifi_scan_poll wifi_scan_again lists
  pass_poll over starts more =
      let v = h.view in
      let r = h.running in
      let n = h.left in
      let one = lists-append k.effects (say "." ∷ []) in
      record {
        view = ground arith;
        running = ground arith;
        left = ground arith;
        listed_times = ground arith;
        cfg_same = ground arith;
        nets_same = ground arith;
      }

  last_poll : a.scan_active ≡ false → k.scan_rounds ≡ 1 → After k (config_proto_poll a k) 0 1
  unfolding config_proto_poll poll_pass poll_finish wifi_scan_poll lists
  last_poll over last =
      let v = h.view in
      let r = h.running in
      record {
        view = ground arith;
        running = ground arith;
        left = ground arith;
        listed_times = grind (arith, lists-append);
        cfg_same = ground arith;
        nets_same = ground arith;
      }

-- Between two polls of a list, and over the whole of it.
chained :
    {j k l : Console} {m n listed more : ℕ}
    → After j k m listed
    → After k l n more
    → After j l n (listed + more)
chained f g = record {
  view = g.view;
  running = g.running;
  left = g.left;
  listed_times = (let p = f.listed_times in let q = g.listed_times in omega arith);
  cfg_same = g.cfg_same ∙ f.cfg_same;
  nets_same = g.nets_same ∙ f.nets_same;
}

stands :
    (k : Console)
    → k.mode ≡ mode_scan
    → k.scanning ≡ ltb 0 k.scan_rounds
    → After k k k.scan_rounds 0
stands k v r = record {
  view = v;
  running = r;
  left = refl;
  listed_times = omega arith;
  cfg_same = refl;
  nets_same = refl;
}

renumbered :
    {j k : Console} {m n listed more : ℕ}
    → m ≡ n
    → listed ≡ more
    → After j k m listed
    → After j k n more
renumbered p q f = record {
  view = f.view;
  running = (let r = f.running in ground arith);
  left = f.left ∙ p;
  listed_times = (let r = f.listed_times in omega arith);
  cfg_same = f.cfg_same;
  nets_same = f.nets_same;
}

abbrev once : ℕ → ℕ → ℕ
once rounds seen = if leb rounds seen then 1 else 0

-- Of a single scan that runs, with a driver that takes every pass: each poll that finds the driver
-- done takes one from the passes left. The list is printed once, when none is left, and then the
-- scan has stopped. The configuration and the results stay as they are.
pub polls-After :
    (ps : List Answers) (k : Console)
    → AllStart ps
    → IsPassing k
    → After k
        (polls ps k)
        (k.scan_rounds - passes ps)
        (if leb k.scan_rounds (passes ps) then 1 else 0)
unfolding polls passes
polls-After [] k s h =
    let n = h.left in
    renumbered (omega arith) (ground arith) (stands k h.view (let r = h.running in ground arith))
polls-After (a ∷ ps) k (s, t) h = elim (Bool-cases a.scan_active) [
  | inl busy ↦ renumbered (ground arith) (ground arith) (
      subst (λ j. After k (polls ps j) (k.scan_rounds - passes ps) (once k.scan_rounds (passes ps)))
        (sym (busy_poll a k h busy)) (polls-After ps k t h))
  | inr over ↦ elim (Bool-cases (ltb 1 k.scan_rounds)) [
    | inl more ↦
        let f = pass_poll a k h over s (ground arith) in
        let l = f.left in
        let next = polls-After ps (config_proto_poll a k) t (record {
          view = f.view;
          running = (let r = f.running in ground arith);
          left = ground arith;
        }) in
        renumbered (ground arith) (ground arith) (chained f next)
    | inr fewer ↦
        let n = h.left in
        let f = last_poll a k h over (ground arith) in
        let same =
          over_polls ps (config_proto_poll a k)
            (record { view = f.view; stopped = f.running; none_left = f.left }) in
        renumbered (ground arith) (ground arith) (subst (λ j. After k j 0 1) (sym same) f)
  ]
]

-- A scan that starts with no other under way, then polled, with a driver that takes each further pass
-- that it is asked for: at the fourth poll that finds the driver done it stops, and only then has the
-- list been printed, once.
pub start_scan-After :
    (b : Answers) (ps : List Answers) (k : Console)
    → b.scan_starts ≡ true
    → k.scanning ≡ false
    → AllStart ps
    → let j = start_scan b k in
      After j (polls ps j) (4 - passes ps) (if leb 4 (passes ps) then 1 else 0)
unfolding start_scan started wifi_scan_start
start_scan-After b ps k starts idle s =
    let j = start_scan b k in
    let r : j.scan_rounds ≡ 4 = ground arith in
    renumbered (ap (λ n. n - passes ps) r) (ap (λ n. once n (passes ps)) r) (
      polls-After ps j s
        (record { view = ground arith; running = ground arith; left = ground arith }))
