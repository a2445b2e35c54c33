-- ===== src/WifiConn/Steps.antt =====
-- Each step of src/wifi_conn.c keeps a sound state sound.
use molewire.Base.{
  ℕ, ◌-◌, ◌^◌, ◌≡◌, ◌≢◌, inl, inr, refl, sym, ap, ◌∙◌, arith, Bool, Bool-cases, true, false, not,
  ◌&&◌, List, ltb, leb, ◌==◌, if◌then◌else◌,
}
use molewire.WifiPick.Order.{WifiProfStatus, connected, nojoin, badpass, is_badpass}
use molewire.WifiConn.Machine.{
  backoff_min_ms, ConnState, st_idle, st_scan, st_try, st_wait, st_up, Conn, ScanEntry, Radio,
  elapsed, snapshot_rssi, none_connected,
}
use molewire.WifiConn.Task.{
  cleared_prof, wifi_conn_apply, decay_badpass, is_try, scan_after_wait, scan_next, scan_complete,
  drive_scan, link_lost, try_next, attempt, act, wifi_conn_task,
}
use molewire.WifiConn.Machine.{
  LinkStatus, link_other, link_badauth, link_fail, link_nonet, join_timeout_ms, badpass_retry_ms,
}
use molewire.WifiConn.Invariant.{
  Quiet, snapshot_rssi-status, IsSearching, snapshot_rssi-IsSearching, try_from-IsSearching,
  build_and_try-IsSearching, start_cycle-IsSearching, try_active-IsSearching,
}
use molewire.WifiConn.Sound.{
  IsSound, searching-IsSound, sound-Quiet, none_connected-Quiet, untried-ne_connected,
  joined-IsSound,
}

-- What holds of both values, each under its condition, holds of the choice.
pub if-elim :
    (P : Conn → Type 0) (b : Bool) {x y : Conn}
    → (b ≡ true → P x)
    → (b ≡ false → P y)
    → P (if b then x else y)
if-elim P true h k = h refl
if-elim P false h k = k refl

pub cleared-Quiet : Quiet cleared_prof
cleared-Quiet i e = untried-ne_connected e

pub apply-IsSound :
    (radio : Radio) (now : ℕ) (c : Conn) → IsSound c → IsSound (wifi_conn_apply radio now c)
unfolding wifi_conn_apply snapshot_rssi
apply-IsSound radio now c h =
    let s =
      snapshot_rssi-IsSearching radio.results (record c { prof = cleared_prof })
        (h.in_range, cleared-Quiet) in
    let d = record (snapshot_rssi radio.results (record c { prof = cleared_prof })) {
      backoff_ms = backoff_min_ms;
    } in
    let t : IsSearching d = (
      record {
        cfg_ok = h.in_range.cfg_ok;
        order_le = h.in_range.order_le;
        order_in = h.in_range.order_in;
        trying_in = h.in_range.trying_in;
        backoff_in = omega arith;
      },
      s.1,
    ) in
    if-elim IsSound (ltb c.cfg.active c.cfg.profile_count)
      (λ chosen.
        searching-IsSound _ (try_active-IsSearching radio now d t (ground (arith, chosen))))
      (λ unset. searching-IsSound (record d { state = st_wait; wait_until = now }) t)

decay-IsSound : (now : ℕ) (c : Conn) → IsSound c → IsSound (decay_badpass now c)
unfolding decay_badpass
decay-IsSound now c h = record {
  in_range = h.in_range;
  the_one = h.the_one;
  only = λ i e.
      elim (Bool-cases (
        ltb i c.cfg.profile_count
        && is_badpass (c.prof i).status
        && leb badpass_retry_ms (elapsed now (c.badpass_at i)))) [
          | inl old ↦ absurd (untried-ne_connected (rw old at e))
          | inr kept ↦ h.only i (rw kept at e)
        ];
}

snapshot_rssi-IsSound :
    (results : List ScanEntry) (c : Conn) → IsSound c → IsSound (snapshot_rssi results c)
snapshot_rssi-IsSound results c h = record {
  in_range = unfold snapshot_rssi in h.in_range;
  the_one = h.the_one;
  only = λ i e. unfold snapshot_rssi in h.only i (sym (snapshot_rssi-status results c i) ∙ e);
}

scan-ne_up : st_scan ≢ st_up
scan-ne_up e = cc

scan_next-IsSound :
    (state : ConnState) (radio : Radio) (now : ℕ) (c : Conn)
    → c.state ≡ state
    → IsSound c
    → IsSound (scan_next state radio now c)
unfolding scan_next
scan_next-IsSound st_scan radio now c is h = searching-IsSound _ (
    build_and_try-IsSearching radio now c
      (h.in_range, sound-Quiet c h (λ up. scan-ne_up (sym is ∙ up))))
scan_next-IsSound st_idle radio now c is h = h
scan_next-IsSound st_try radio now c is h = h
scan_next-IsSound st_wait radio now c is h = h
scan_next-IsSound st_up radio now c is h = h

scan_complete-IsSound :
    (radio : Radio) (now : ℕ) (c : Conn) → IsSound c → IsSound (scan_complete radio now c)
unfolding scan_complete
scan_complete-IsSound radio now c h =
    let s = snapshot_rssi-IsSound radio.results c h in
    scan_next-IsSound c.state radio now
      (record (snapshot_rssi radio.results c) {
        scan_passes_left = 0;
        scan_done_at = now;
        scan_ever = true;
      })
      (unfold snapshot_rssi in refl)
      (record { in_range = s.in_range; the_one = s.the_one; only = s.only })

drive_scan-IsSound :
    (radio : Radio) (now : ℕ) (c : Conn) → IsSound c → IsSound (drive_scan radio now c)
unfolding drive_scan
drive_scan-IsSound radio now c h =
    if-elim IsSound (ltb 0 c.scan_passes_left)
      (λ scanning.
        if-elim IsSound radio.in_progress (λ still. h)
          (λ done.
            if-elim IsSound (ltb 0 (c.scan_passes_left - 1) && radio.scans_again)
              (λ again. record { in_range = h.in_range; the_one = h.the_one; only = h.only })
              (λ complete. scan_complete-IsSound radio now c h)))
      (λ idle.
        if-elim IsSound (c.scan_requested && not (is_try c.state))
          (λ requested.
            if-elim IsSound radio.starts_scan
              (λ starts. record {
                in_range = h.in_range;
                the_one = h.the_one;
                only = λ i e. let o = h.only i e in (o.0, o.1, ap scan_after_wait o.2);
              })
              (λ refused. record { in_range = h.in_range; the_one = h.the_one; only = h.only }))
          (λ none. h))

try_next-IsSearching :
    (status : WifiProfStatus) (radio : Radio) (now : ℕ) (c : Conn)
    → IsSearching c
    → status ≢ connected
    → IsSearching (try_next status radio now c)
unfolding try_next
try_next-IsSearching status radio now c h ne = try_from-IsSearching radio now _ (
  h.0,
  λ i e. elim (Bool-cases (i == c.trying)) [
    | inl here ↦ ne (rw here at e)
    | inr other ↦ h.1 i (rw other at e)
  ],
)

attempt-IsSearching :
    (l : LinkStatus) (radio : Radio) (now : ℕ) (c : Conn)
    → IsSearching c
    → IsSearching (attempt l radio now c)
unfolding attempt
attempt-IsSearching link_badauth radio now c h =
    try_next-IsSearching badpass radio now
      (record c { badpass_at = λ j. if j == c.trying then now else c.badpass_at j }) h (λ e. cc)
attempt-IsSearching link_fail radio now c h = try_next-IsSearching nojoin radio now c h (λ e. cc)
attempt-IsSearching link_nonet radio now c h = try_next-IsSearching nojoin radio now c h (λ e. cc)
attempt-IsSearching link_other radio now c h =
    if-elim IsSearching (leb join_timeout_ms (elapsed now c.attempt_at))
      (λ late. try_next-IsSearching nojoin radio now c h (λ e. cc)) (λ early. h)

link_lost-IsSound :
    (radio : Radio) (now : ℕ) (c : Conn) → IsSound c → IsSound (link_lost radio now c)
unfolding link_lost
link_lost-IsSound radio now c h =
    let quiet = none_connected-Quiet c h in
    if-elim IsSound (ltb 0 c.fast_tries && ltb c.cfg.active c.cfg.profile_count)
      (λ fast. searching-IsSound _ (
        try_active-IsSearching radio now
          (record c { prof = none_connected c.prof; fast_tries = c.fast_tries - 1 })
          (h.in_range, quiet) (ground (arith, fast))))
      (λ slow. searching-IsSound _ (
        start_cycle-IsSearching radio now (record c { prof = none_connected c.prof })
          (h.in_range, quiet)))

searching :
    (state : ConnState) (c : Conn) → c.state ≡ state → state ≢ st_up → IsSound c → IsSearching c
searching state c is ne h = (h.in_range, sound-Quiet c h (λ up. ne (sym is ∙ up)))

act-IsSound :
    (state : ConnState) (radio : Radio) (now : ℕ) (c : Conn)
    → c.state ≡ state
    → IsSound c
    → IsSound (act state radio now c)
unfolding act
act-IsSound st_up radio now c is h =
    if-elim IsSound radio.link (λ up. h) (λ down. link_lost-IsSound radio now c h)
act-IsSound st_try radio now c is h =
    let s = searching st_try c is (λ e. cc) h in
    if-elim IsSound radio.link (λ up. joined-IsSound c s)
      (λ down. searching-IsSound _ (attempt-IsSearching radio.status radio now c s))
act-IsSound st_scan radio now c is h =
    if-elim IsSound radio.link (λ up. joined-IsSound c (searching st_scan c is (λ e. cc) h))
      (λ down. h)
act-IsSound st_wait radio now c is h =
    let s = searching st_wait c is (λ e. cc) h in
    if-elim IsSound radio.link (λ up. joined-IsSound c s)
      (λ down.
        if-elim IsSound (ltb (elapsed now c.wait_until) (2 ^ 31))
          (λ due. searching-IsSound _ (start_cycle-IsSearching radio now c s)) (λ early. h))
act-IsSound st_idle radio now c is h =
    if-elim IsSound (ltb 0 c.cfg.profile_count)
      (λ some_profile.
        searching-IsSound _
          (start_cycle-IsSearching radio now c (searching st_idle c is (λ e. cc) h)))
      (λ empty. h)

pub task-IsSound :
    (radio : Radio) (now : ℕ) (c : Conn) → IsSound c → IsSound (wifi_conn_task radio now c)
unfolding wifi_conn_task
task-IsSound radio now c h =
    let d = decay_badpass now (record c { last_tick = now }) in
    let decayed =
      decay-IsSound now (record c { last_tick = now })
        (record { in_range = h.in_range; the_one = h.the_one; only = h.only }) in
    let s = drive_scan radio now d in
    if-elim IsSound (ltb (elapsed now c.last_tick) 100) (λ soon. h)
      (λ due.
        if-elim IsSound radio.console_owns (λ owned. decayed)
          (λ free. act-IsSound s.state radio now s refl (drive_scan-IsSound radio now d decayed)))
