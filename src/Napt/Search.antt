-- ===== src/Napt/Search.antt =====
-- The search for a slot in src/napt.c: what each of its three ends says of the table.
use molewire.Base.{
  ℕ, zero, suc, ◌+◌, ◌^◌, ◌≤◌, ◌<◌, ◌≡◌, ◌≢◌, ◌⊎◌, ◌↔◌, inl, inr, refl, arith, Bool, Bool-cases,
  true, false, ◌&&◌, Option, none, some, if◌then◌else◌,
}
use native.Mathlib.Decide.{dec_lt}
use molewire.Napt.Table.{
  Ip4, Port, ip_equal, port_equal, NaptEntry, Table, Flow, existing, fresh, full, entry_live,
  entry_matches, first_free, end_of_search, search_slot, timeout_ms, tcp_timeout_ms,
}

pub ip_equal_iff : (a b : Ip4) → (ip_equal a b ≡ true) ↔ (a ≡ b)
ip_equal_iff a b = ground arith

pub port_equal_iff : (a b : Port) → (port_equal a b ≡ true) ↔ (a ≡ b)
port_equal_iff a b = ground arith

-- The entry is a mapping of the flow.
pub record Maps (e : NaptEntry) (f : Flow) : Type 0 where
  pub ip_is : e.inner_ip ≡ f.ip
  pub port_is : e.inner_port ≡ f.port
  pub proto_is : e.proto ≡ f.proto

pub entry_matches-Maps : (e : NaptEntry) (f : Flow) → entry_matches e f ≡ true → Maps e f
unfolding entry_matches
entry_matches-Maps e f h = ground arith

pub Maps-entry_matches : (e : NaptEntry) (f : Flow) → Maps e f → entry_matches e f ≡ true
unfolding entry_matches
Maps-entry_matches e f h = ground arith

pub timeout_pos : (e : NaptEntry) → 0 < timeout_ms e
unfolding timeout_ms tcp_timeout_ms
timeout_pos e = ground arith

-- An entry that was used at this very time is live.
pub entry_live-now :
    (e : NaptEntry) (now : ℕ)
    → now < 2 ^ 32
    → e.proto ≢ 0
    → e.last_ms ≡ now
    → entry_live e now ≡ true
unfolding entry_live
entry_live-now e now b h k = ground (arith, timeout_pos e)

module _ (t : Table) (f : Flow) (now : ℕ) where
  abbrev pub found : ℕ → Bool
  found k = entry_live (t k) now && entry_matches (t k) f

  pub search_slot-existing :
      (left i : ℕ) (free : Option ℕ) {k : ℕ}
      → search_slot t f now left i free ≡ existing k
      → (i ≤ k) × (k < i + left) × (found k ≡ true)
  unfolding search_slot end_of_search
  search_slot-existing zero i free e = ground arith
  search_slot-existing (suc left) i free {k} e = ground (
    arith,
    search_slot-existing left (suc i) (if entry_live (t i) now then free else first_free free i)
        {k = k},
  )

  -- No entry before the one that is found would have done.
  pub search_slot-first :
      (left i : ℕ) (free : Option ℕ) (j : ℕ) {k : ℕ}
      → search_slot t f now left i free ≡ existing k
      → i ≤ j
      → j < k
      → found j ≡ false
  unfolding search_slot end_of_search
  search_slot-first zero i free j e a b = ground arith
  search_slot-first (suc left) i free j {k} e a b = ground (
    arith,
    search_slot-first left (suc i) (if entry_live (t i) now then free else first_free free i) j
        {k = k},
  )

  -- When no entry is found, none maps the flow.
  pub search_slot-absent :
      (left i : ℕ) (free : Option ℕ) (j : ℕ)
      → ((k : ℕ) → search_slot t f now left i free ≢ existing k)
      → i ≤ j
      → j < i + left
      → found j ≡ false
  unfolding search_slot
  search_slot-absent zero i free j e a b = absurd (omega arith)
  search_slot-absent (suc left) i free j e a b = elim (Bool-cases (found i)) [
    | inl hit ↦ absurd (e i (rw hit))
    | inr missed ↦ elim (dec_lt i j) [
      | yes later ↦
          search_slot-absent left (suc i) (if entry_live (t i) now then free else first_free free i)
            j (λ k q. e k (rw missed q)) later (omega arith)
      | no here ↦ (let same : j ≡ i = omega arith in rw same missed)
    ]
  ]

  -- A fresh slot is one of the table's, and its entry is free or timed out.
  pub search_slot-fresh :
      (left i : ℕ) (free : Option ℕ) {k : ℕ}
      → search_slot t f now left i free ≡ fresh k
      → (free ≡ some k) ⊎ ((i ≤ k) × (k < i + left) × (entry_live (t k) now ≡ false))
  unfolding search_slot end_of_search first_free
  search_slot-fresh zero i none e = ground arith
  search_slot-fresh zero i (some m) e = ground arith
  search_slot-fresh (suc left) i none {k} e = ground (
    arith,
    search_slot-fresh left (suc i) none {k = k},
    search_slot-fresh left (suc i) (some i) {k = k},
  )
  search_slot-fresh (suc left) i (some m) {k} e =
      ground (arith, search_slot-fresh left (suc i) (some m) {k = k})

  full-free : (left i : ℕ) (free : Option ℕ) → search_slot t f now left i free ≡ full → free ≡ none
  unfolding search_slot end_of_search first_free
  full-free zero i none e = refl
  full-free zero i (some m) e = cc
  full-free (suc left) i none e = refl
  full-free (suc left) i (some m) e = ground (arith, full-free left (suc i) (some m))

  -- The table is full only if every entry is live.
  pub search_slot-full :
      (left i : ℕ) (free : Option ℕ) (j : ℕ)
      → search_slot t f now left i free ≡ full
      → i ≤ j
      → j < i + left
      → entry_live (t j) now ≡ true
  unfolding search_slot end_of_search first_free
  search_slot-full zero i free j e a b = absurd (omega arith)
  search_slot-full (suc left) i none j e a b = ground (
    arith,
    search_slot-full left (suc i) none j,
    search_slot-full left (suc i) (some i) j,
    full-free left (suc i) (some i),
  )
  search_slot-full (suc left) i (some m) j e a b = ground (arith, full-free (suc left) i (some m) e)
