-- ===== src/Pcap/Run.antt =====
-- Runs of src/pcap.c: what a download gives, for any order of captures and commands.
use molewire.Base.{
  ℕ, zero, suc, ◌+◌, ◌-◌, ◌<◌, ◌≡◌, ◌⊎◌, inl, inr, refl, sym, ap, ap₂, ◌∙◌, subst, arith, Bool,
  Bool-cases, true, false, not, ◌&&◌, ◌||◌, List, [], ◌∷◌, ◌++◌, ◌==◌, if◌then◌else◌, Bytes, length,
  length-append, drop,
}
use mathlib.Core.List.{append-nil}
use molewire.Pcap.Ring.{
  rec_hdr, Ring, evict, slice, included, packet_record, wrap_for, pcap_capture, pcap_set_enabled,
  pcap_clear, pcap_bytes_used, pcap_freeze, pcap_resume,
}
use molewire.Pcap.Holds.{concat, concat-append, Holds-slice, length-slice}
use molewire.Pcap.Capture.{Holding, included_le, append_record-Linear, append_record-Lapped}
use molewire.Pcap.Room.{wrap_for-Wrapped, evict-Cleared, drop-drop}

-- Whether a frame is captured.
abbrev pub capturing : Ring → ℕ → Bool
capturing s len = s.enabled && (not s.paused && not (len == 0))

-- All that was captured since the start or the last clear, oldest first, with the ring that it led to.
pub data Run : Ring → List (List ℕ) → Type 0 where
  start : (s : Ring) → Run (pcap_clear s) []
  capture :
      {s : Ring}
      → {log : List (List ℕ)} → (us : ℕ) → (frame : Bytes) → (len : ℕ) → Run s log
      → Run
          (pcap_capture s us frame len)
          (if capturing s len then log ++ (packet_record us frame len ∷ []) else log)
  set_enabled :
      {s : Ring} → {log : List (List ℕ)} → (on : Bool) → Run s log → Run (pcap_set_enabled s on) log
  freeze : {s : Ring} → {log : List (List ℕ)} → Run s log → Run (pcap_freeze s).state log
  resume : {s : Ring} → {log : List (List ℕ)} → Run s log → Run (pcap_resume s) log
  clear : {s : Ring} → {log : List (List ℕ)} → Run s log → Run (pcap_clear s) []

-- The ring holds the log but for some of its oldest records, and never drops the newest.
pub record Recent (s : Ring) (log : List (List ℕ)) : Type 0 where
  pub dropped : ℕ
  pub kept : (log ≡ []) ⊎ (dropped < length log)
  pub holding : Holding s (drop dropped log)

-- Dropping no more than a list has leaves what is put behind it.
drop-snoc :
    (k : ℕ) (rs : List (List ℕ)) (r : List ℕ)
    → (j : ℕ) × (drop j (rs ++ (r ∷ [])) ≡ drop k rs ++ (r ∷ [])) × (j < length (rs ++ (r ∷ [])))
drop-snoc zero rs r = (0, refl, omega (arith, length-append rs (r ∷ [])))
drop-snoc (suc k) [] r = (0, refl, omega arith)
drop-snoc (suc k) (x ∷ rs) r = let d = drop-snoc k rs r in (suc d.0, d.1, omega (arith, d.2))

capture-Holding :
    (s : Ring) (recs : List (List ℕ)) (us : ℕ) (frame : Bytes) (len : ℕ)
    → Holding s recs
    → capturing s len ≡ true
    → (k : ℕ) × Holding
        (pcap_capture s us frame len)
        (drop k recs ++ (packet_record us frame len ∷ []))
unfolding pcap_capture
capture-Holding s recs us frame len v h =
    let need = rec_hdr + included len in
    let off : not s.enabled || s.paused || len == 0 ≡ false = ground arith in
    let w = wrap_for-Wrapped s recs need (omega (arith, included_le len)) v in
    let t = wrap_for s need in
    let c = evict-Cleared t (drop w.dropped recs) need w.holding w.room in
    let e = drop-drop w.dropped c.dropped recs in
    (
      w.dropped + c.dropped,
      rw (off, sym e)
          (elim c.holding [
            | inl l ↦ inl (append_record-Linear (evict t t.head need) _ us frame len c.room l)
            | inr l ↦ inr (append_record-Lapped (evict t t.head need) _ us frame len l.0 l.1)
          ]),
    )

off-unchanged :
    (s : Ring) (us : ℕ) (frame : Bytes) (len : ℕ)
    → capturing s len ≡ false
    → pcap_capture s us frame len ≡ s
unfolding pcap_capture
off-unchanged s us frame len h =
    let off : not s.enabled || s.paused || len == 0 ≡ true = ground arith in rw off refl

cleared-Holding : (s : Ring) → Holding (pcap_clear s) []
unfolding pcap_clear
cleared-Holding s =
    inl (record { flat = refl; low = refl; top = refl; fits = omega arith; held = refl })

-- The flags are not part of what the ring holds.
flags-Recent :
    (s : Ring) {log : List (List ℕ)} (on still : Bool)
    → Recent s log
    → Recent (record s { enabled = on; paused = still }) log
flags-Recent s on still v = record {
  dropped = v.dropped;
  kept = v.kept;
  holding = elim v.holding [
    | inl l ↦ inl (record { flat = l.flat; low = l.low; top = l.top; fits = l.fits; held = l.held })
    | inr l ↦ inr (record {
      old = l.old;
      new = l.new;
      lapped = l.lapped;
      apart = l.apart;
      some_old = l.some_old;
      fits = l.fits;
      held_old = l.held_old;
      held_new = l.held_new;
      both = l.both;
    })
  ];
}

-- After any run the ring holds the newest of the captured records, whole and in order.
pub Run-Recent : {s : Ring} {log : List (List ℕ)} → Run s log → Recent s log
unfolding pcap_set_enabled pcap_freeze pcap_resume
Run-Recent (start s) = record { dropped = 0; kept = inl refl; holding = cleared-Holding s }
Run-Recent (clear {s} r) = record { dropped = 0; kept = inl refl; holding = cleared-Holding s }
Run-Recent (set_enabled {s} on r) = flags-Recent s on s.paused (Run-Recent r)
Run-Recent (freeze {s} r) = flags-Recent s s.enabled true (Run-Recent r)
Run-Recent (resume {s} r) = flags-Recent s s.enabled false (Run-Recent r)
Run-Recent (capture {s} {log} us frame len r) =
    let v = Run-Recent r in
    elim (Bool-cases (capturing s len)) [
      | inl e ↦
          let c = capture-Holding s (drop v.dropped log) us frame len v.holding e in
          let d = drop-snoc (v.dropped + c.0) log (packet_record us frame len) in
          rw e (record {
            dropped = d.0;
            kept = inr d.2;
            holding =
                subst (λ z. Holding (pcap_capture s us frame len) z)
                  (ap (λ z. z ++ (packet_record us frame len ∷ [])) (drop-drop v.dropped c.0 log)
                    ∙ sym d.1)
                  c.1;
          })
      | inr e ↦ rw (e, off-unchanged s us frame len e) v
    ]

-- The bytes of the two spans are the records that the ring holds, and `pcap_stats` counts them.
pub pcap_freeze-Holding :
    (s : Ring) (recs : List (List ℕ))
    → Holding s recs
    → ((pcap_freeze s).a ++ (pcap_freeze s).b ≡ concat recs)
      × (pcap_bytes_used s ≡ length (concat recs))
unfolding pcap_freeze pcap_bytes_used
pcap_freeze-Holding s recs (inl v) =
    let all : slice s.ring 0 (s.head - 0) ≡ concat recs = Holds-slice s.ring 0 s.head recs v.held in
    (
      rw (v.flat, v.low) (append-nil (slice s.ring 0 (s.head - 0)) ∙ all),
      rw (v.flat, v.low) (sym (length-slice s.ring (s.head - 0) 0) ∙ ap length all),
    )
pcap_freeze-Holding s recs (inr v) =
    let top = Holds-slice s.ring s.tail s.high v.old v.held_old in
    let sub : s.head - 0 ≡ s.head = omega arith in
    let low : slice s.ring 0 s.head ≡ concat v.new =
      ap (slice s.ring 0) (sym sub) ∙ Holds-slice s.ring 0 s.head v.new v.held_new in
    let all : slice s.ring s.tail (s.high - s.tail) ++ slice s.ring 0 s.head ≡ concat recs =
      ap₂ ◌++◌ top low ∙ sym (concat-append v.old v.new) ∙ ap concat v.both in
    (
      simp v.lapped all,
      simp v.lapped (
          sym (
            length-append (slice s.ring s.tail (s.high - s.tail)) (slice s.ring 0 s.head)
            ∙ ap₂ ◌+◌ (length-slice s.ring (s.high - s.tail) s.tail) (length-slice s.ring s.head 0))
          ∙ ap length all),
    )

-- After any run that begins with an empty ring, a download gives the records that were captured
-- since the last clear, byte for byte and in their order, but for some of the oldest; the newest
-- is always there, and the count of `pcap_stats` is the download's length.
pub pcap_freeze-Run :
    {s : Ring} {log : List (List ℕ)}
    → Run s log
    → (dropped : ℕ) × ((log ≡ []) ⊎ (dropped < length log))
      × ((pcap_freeze s).a ++ (pcap_freeze s).b ≡ concat (drop dropped log))
      × (pcap_bytes_used s ≡ length (concat (drop dropped log)))
pcap_freeze-Run {s} {log} r =
    let v = Run-Recent r in
    let d = pcap_freeze-Holding s (drop v.dropped log) v.holding in (v.dropped, v.kept, d.0, d.1)
