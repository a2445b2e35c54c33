-- ===== src/WifiConn/Invariant.antt =====
-- What holds in every state of the machine of src/wifi_conn.c.
use molewire.Base.{
  ℕ, zero, suc, ◌+◌, ◌-◌, ◌≤◌, ◌<◌, ◌≡◌, ◌≢◌, inl, inr, refl, sym, ◌∙◌, arith, Bool-cases, ◌&&◌,
  List, [], ◌∷◌, ℤ, pos, negsuc, ltb, ◌==◌,
}
use native.Mathlib.Decide.{dec_lt}
use molewire.Config.Record.{config_profile_max, Config}
use molewire.Config.Profiles.{config_find_profile}
use molewire.Config.ProfileLaws.{IsValid}
use molewire.WifiPick.Order.{connected, WifiProfState, wifi_pick_order}
use molewire.WifiPick.Laws.{wifi_pick_order-Ordered}
use molewire.WifiConn.Machine.{
  scan_fresh_ms, backoff_min_ms, backoff_max_ms, st_scan, Conn, ScanEntry, Radio, elapsed,
  note_result, note_results, snapshot_rssi, enter_wait, try_loop, try_from, build_and_try,
  start_cycle, try_active,
}

-- Indices stay inside the arrays of eight, the back-off inside its limits.
pub record Fits (cfg : Config) (order : ℕ → ℕ) (order_n trying backoff_ms : ℕ) : Type 0 where
  pub cfg_ok : IsValid cfg
  pub order_le : order_n ≤ config_profile_max
  pub order_in : (j : ℕ) → j < order_n → order j < config_profile_max
  pub trying_in : trying < config_profile_max
  pub backoff_in : (backoff_min_ms ≤ backoff_ms) × (backoff_ms ≤ backoff_max_ms)

abbrev pub InRange : Conn → Type 0
InRange c = Fits c.cfg c.order c.order_n c.trying c.backoff_ms

-- No profile is marked as connected.
abbrev pub Quiet : (ℕ → WifiProfState) → Type 0
Quiet prof = (i : ℕ) → (prof i).status ≢ connected

note_result-status :
    (prof : ℕ → WifiProfState) (p : ℤ) (r i : ℕ) → (note_result prof p r i).status ≡ (prof i).status
unfolding note_result
note_result-status prof (negsuc n) r i = refl
note_result-status prof (pos p) r i = ground arith

note_results-status :
    (cfg : Config) (es : List ScanEntry) (prof : ℕ → WifiProfState) (i : ℕ)
    → (note_results cfg es prof i).status ≡ (prof i).status
unfolding note_results
note_results-status cfg [] prof i = refl
note_results-status cfg (e ∷ es) prof i =
    note_results-status cfg es (note_result prof (config_find_profile cfg e.ssid) e.rssi) i
    ∙ note_result-status prof (config_find_profile cfg e.ssid) e.rssi i

pub snapshot_rssi-status :
    (es : List ScanEntry) (c : Conn) (i : ℕ)
    → ((snapshot_rssi es c).prof i).status ≡ (c.prof i).status
unfolding snapshot_rssi
snapshot_rssi-status es c i = note_results-status c.cfg es _ i ∙ ground arith

-- In range, and quiet.
abbrev pub IsSearching : Conn → Type 0
IsSearching c = InRange c × Quiet c.prof

pub snapshot_rssi-IsSearching :
    (es : List ScanEntry) (c : Conn) → IsSearching c → IsSearching (snapshot_rssi es c)
unfolding snapshot_rssi
snapshot_rssi-IsSearching es c h = (h.0, λ i e. h.1 i (sym (snapshot_rssi-status es c i) ∙ e))

pub enter_wait-IsSearching : (now : ℕ) (c : Conn) → IsSearching c → IsSearching (enter_wait now c)
unfolding enter_wait
enter_wait-IsSearching now c h = (
  record {
    cfg_ok = h.0.cfg_ok;
    order_le = h.0.order_le;
    order_in = h.0.order_in;
    trying_in = h.0.trying_in;
    backoff_in = ground (arith, h.0.backoff_in);
  },
  h.1,
)

try_loop-IsSearching :
    (left : ℕ) (radio : Radio) (now : ℕ) (c : Conn)
    → left ≡ c.order_n - c.order_ix
    → IsSearching c
    → IsSearching (try_loop left radio now c)
unfolding try_loop
try_loop-IsSearching zero radio now c e h = enter_wait-IsSearching now c h
try_loop-IsSearching (suc left) radio now c e h =
    elim (Bool-cases (radio.takes_join (c.order c.order_ix))) [
      | inl taken ↦ rw taken (
        record {
          cfg_ok = h.0.cfg_ok;
          order_le = h.0.order_le;
          order_in = h.0.order_in;
          trying_in = h.0.order_in c.order_ix (omega arith);
          backoff_in = h.0.backoff_in;
        },
        h.1,
      )
      | inr refused ↦ rw refused (
          try_loop-IsSearching left radio now (record c { order_ix = c.order_ix + 1 }) (omega arith)
            h)
    ]

pub try_from-IsSearching :
    (radio : Radio) (now : ℕ) (c : Conn) → IsSearching c → IsSearching (try_from radio now c)
unfolding try_from
try_from-IsSearching radio now c h =
    try_loop-IsSearching (c.order_n - c.order_ix) radio now c refl h

picks-in :
    (c : Conn)
    → let q = wifi_pick_order c.prof c.cfg.profile_count c.cfg.active c.rr_unseen in
      (q.n ≤ config_profile_max) × ((j : ℕ) → j < q.n → q.out j < config_profile_max)
picks-in c =
    let o = wifi_pick_order-Ordered c.prof c.cfg.profile_count c.cfg.active c.rr_unseen in
    let low = o.1 in
    let fits = o.0.fits in
    (
      omega arith,
      λ j small. elim (dec_lt j o.0.seen) [
        | yes seen ↦ omega (arith, o.0.seen_is j seen)
        | no behind ↦ elim o.0.last [
          | inl (n, below, unseen) ↦ (let e : j ≡ o.0.seen = omega arith in rw e (omega arith))
          | inr (n, none) ↦ absurd (omega arith)
        ]
      ],
    )

pub build_and_try-IsSearching :
    (radio : Radio) (now : ℕ) (c : Conn) → IsSearching c → IsSearching (build_and_try radio now c)
unfolding build_and_try
build_and_try-IsSearching radio now c h =
    let p = picks-in c in
    try_from-IsSearching radio now _ (
      record {
        cfg_ok = h.0.cfg_ok;
        order_le = p.0;
        order_in = λ j low. ground (arith, p.1 j);
        trying_in = h.0.trying_in;
        backoff_in = h.0.backoff_in;
      },
      h.1,
    )

pub start_cycle-IsSearching :
    (radio : Radio) (now : ℕ) (c : Conn) → IsSearching c → IsSearching (start_cycle radio now c)
unfolding start_cycle
start_cycle-IsSearching radio now c h = elim (Bool-cases (c.cfg.profile_count == 0)) [
  | inl empty ↦ rw empty h
  | inr some_profile ↦
      elim (Bool-cases (c.scan_ever && ltb (elapsed now c.scan_done_at) scan_fresh_ms)) [
        | inl fresh ↦
            rw (some_profile, fresh)
              (build_and_try-IsSearching radio now _
                (snapshot_rssi-IsSearching radio.results (record c { state = st_scan }) h))
        | inr stale ↦ elim (Bool-cases radio.starts_scan) [
          | inl starts ↦ rw (some_profile, stale, starts) h
          | inr refused ↦
              rw (some_profile, stale, refused)
                (enter_wait-IsSearching now (record c { state = st_scan }) h)
        ]
      ]
]

pub try_active-IsSearching :
    (radio : Radio) (now : ℕ) (c : Conn)
    → IsSearching c
    → c.cfg.active < c.cfg.profile_count
    → IsSearching (try_active radio now c)
unfolding try_active
try_active-IsSearching radio now c h low =
    let few = h.0.cfg_ok.fits in
    try_from-IsSearching radio now _ (
      record {
        cfg_ok = h.0.cfg_ok;
        order_le = omega arith;
        order_in = λ j one. ground arith;
        trying_in = h.0.trying_in;
        backoff_in = h.0.backoff_in;
      },
      h.1,
    )
