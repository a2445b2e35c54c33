-- ===== src/WifiConn/Sound.antt =====
-- Joins of src/wifi_conn.c: at most one profile is marked as connected.
use molewire.Base.{
  ℕ, ◌-◌, ◌<◌, ◌≡◌, ◌≢◌, inl, inr, refl, arith, Bool-cases, ◌&&◌, pos, ltb, leb, ◌==◌,
}
use molewire.Config.Record.{config_profile_max}
use molewire.Config.ProfileLaws.{config_touch_profile-IsValid}
use molewire.WifiPick.Order.{untried, connected, WifiProfState}
use molewire.WifiConn.Machine.{
  fast_retries, st_up, Conn, set_status, is_connected, none_connected, rotate, move_joined,
  mark_joined, joined,
}
use molewire.WifiConn.Invariant.{InRange, Quiet, IsSearching}

-- What holds in every state: in range, and at most one profile is marked as connected, only while
-- the machine is up.
pub record IsSound (c : Conn) : Type 0 where
  pub in_range : InRange c
  pub the_one : ℕ
  pub only :
      (i : ℕ)
      → (c.prof i).status ≡ connected
      → (i ≡ the_one) × (i < config_profile_max) × (c.state ≡ st_up)

pub searching-IsSound : (c : Conn) → IsSearching c → IsSound c
searching-IsSound c h = record { in_range = h.0; the_one = 0; only = λ i e. absurd (h.1 i e) }

pub sound-Quiet : (c : Conn) → IsSound c → c.state ≢ st_up → Quiet c.prof
sound-Quiet c h down i e = down (h.only i e).2

pub untried-ne_connected : untried ≢ connected
untried-ne_connected e = cc

pub none_connected-Quiet : (c : Conn) → IsSound c → Quiet (none_connected c.prof)
none_connected-Quiet c h i e =
    elim (Bool-cases (ltb i config_profile_max && is_connected (c.prof i).status)) [
      | inl marked ↦ untried-ne_connected (rw marked at e)
      | inr other ↦
          let was : (c.prof i).status ≡ connected = rw other at e in
          let low = (h.only i was).1 in absurd (ground (arith, other, was, low))
    ]

-- A profile that is marked while no other is.
set_status-only :
    (prof : ℕ → WifiProfState) (k : ℕ)
    → Quiet prof
    → (i : ℕ) → (set_status prof k connected i).status ≡ connected
    → i ≡ k
set_status-only prof k quiet i e = elim (Bool-cases (i == k)) [
  | inl same ↦ ground (arith, same)
  | inr other ↦ absurd (quiet i (rw other at e))
]

rotate-Quiet : (prof : ℕ → WifiProfState) (k : ℕ) → Quiet prof → Quiet (rotate prof k)
rotate-Quiet prof k quiet i e = elim (Bool-cases (i == 0)) [
  | inl first ↦ quiet k (rw first at e)
  | inr later ↦ elim (Bool-cases (leb i k)) [
    | inl moved ↦ quiet (i - 1) (rw (later, moved) at e)
    | inr still ↦ quiet i (rw (later, still) at e)
  ]
]

mark_joined-IsSound : (c : Conn) → IsSearching c → IsSound (mark_joined c)
unfolding mark_joined
mark_joined-IsSound c h = record {
  in_range = record {
    cfg_ok = h.0.cfg_ok;
    order_le = h.0.order_le;
    order_in = h.0.order_in;
    trying_in = h.0.trying_in;
    backoff_in = omega arith;
  };
  the_one = c.trying;
  only = λ i e.
      let same = set_status-only c.prof c.trying h.1 i e in
      (same, omega (arith, h.0.trying_in), refl);
}

move_joined-IsSearching : (c : Conn) → IsSearching c → IsSearching (move_joined c)
unfolding move_joined
move_joined-IsSearching c h = elim (Bool-cases (ltb 0 c.trying)) [
  | inl later ↦ rw later (
    record {
      cfg_ok = config_touch_profile-IsValid c.cfg (pos c.trying) h.0.cfg_ok;
      order_le = h.0.order_le;
      order_in = h.0.order_in;
      trying_in = omega arith;
      backoff_in = h.0.backoff_in;
    },
    rotate-Quiet c.prof c.trying h.1,
  )
  | inr first ↦ rw first h
]

pub joined-IsSound : (c : Conn) → IsSearching c → IsSound (joined c)
unfolding joined
joined-IsSound c h =
    let quiet = none_connected-Quiet c (searching-IsSound c h) in
    elim (Bool-cases (leb c.cfg.profile_count c.trying)) [
      | inl edited ↦
          rw edited (searching-IsSound (record c { state = st_up; fast_tries = fast_retries }) h)
      | inr listed ↦ rw listed (
          mark_joined-IsSound _ (
            move_joined-IsSearching
              (record c { prof = none_connected c.prof; cfg = record c.cfg { active = c.trying } })
              (
                record {
                  cfg_ok = record {
                    fits = h.0.cfg_ok.fits;
                    active_in = inl (ground (arith, listed));
                  };
                  order_le = h.0.order_le;
                  order_in = h.0.order_in;
                  trying_in = h.0.trying_in;
                  backoff_in = h.0.backoff_in;
                },
                quiet,
              )))
    ]
