-- ===== src/Pcap/Room.antt =====
-- Making room for a record in the ring of src/pcap.c: the wrap to the start and the eviction.
use molewire.Base.{
  ℕ, zero, suc, ◌+◌, ◌≤◌, ◌<◌, ◌≡◌, ◌⊎◌, inl, inr, refl, sym, ap, ◌∙◌, subst, arith, Bool-cases,
  true, List, [], ◌∷◌, ◌++◌, ltb, leb, length, drop,
}
use mathlib.Core.List.{append-nil}
use molewire.Pcap.Ring.{ring_size, snaplen, rec_hdr, Ring, evict_rounds, evict, wrap_for}
use molewire.Pcap.Holds.{Holds, Holds-le}
use molewire.Pcap.Evict.{Evicted, evict_rounds-Evicted}
use molewire.Pcap.Capture.{Linear, Lapped, Holding}

drop-append_length : (old new : List (List ℕ)) → drop (length old) (old ++ new) ≡ new
drop-append_length [] new = refl
drop-append_length (r ∷ old) new = drop-append_length old new

-- Dropping from the old records is dropping from all of them.
pub record DroppedOf (rs all : List (List ℕ)) : Type 0 where
  pub dropped : ℕ
  pub same : drop dropped all ≡ rs

drop_old : (k : ℕ) (old new : List (List ℕ)) → DroppedOf (drop k old ++ new) (old ++ new)
drop_old zero old new = record { dropped = 0; same = refl }
drop_old (suc k) [] new = record { dropped = 0; same = refl }
drop_old (suc k) (r ∷ old) new =
    let d = drop_old k old new in record { dropped = suc d.dropped; same = d.same }

pub drop-drop : (j k : ℕ) (rs : List (List ℕ)) → drop k (drop j rs) ≡ drop (j + k) rs
drop-drop zero k rs = ap (λ n. drop n rs) (omega arith)
drop-drop (suc j) zero [] = let e : suc j + 0 ≡ suc j = omega arith in rw e refl
drop-drop (suc j) (suc k) [] = let e : suc j + suc k ≡ suc (j + suc k) = omega arith in rw e refl
drop-drop (suc j) k (r ∷ rs) =
    let e : suc j + k ≡ suc (j + k) = omega arith in rw e (drop-drop j k rs)

-- The ring after a record that does not fit below the end went to the start.
pub record Wrapped (s t : Ring) (recs : List (List ℕ)) (need : ℕ) : Type 0 where
  pub dropped : ℕ
  pub holding : Holding t (drop dropped recs)
  pub room : t.head + need ≤ ring_size

pub wrap_for-Wrapped :
    (s : Ring) (recs : List (List ℕ)) (need : ℕ)
    → need ≤ rec_hdr + snaplen
    → Holding s recs
    → Wrapped s (wrap_for s need) recs need
unfolding wrap_for
wrap_for-Wrapped s recs need h v = elim (Bool-cases (ltb ring_size (s.head + need))) [
  | inr e ↦ rw e (record { dropped = 0; holding = v; room = ground arith })
  | inl e ↦ elim v [
    | inl w ↦
        rw (e, w.flat)
          (record {
            dropped = 0;
            holding = inr (record {
              old = recs;
              new = [];
              lapped = refl;
              apart = omega arith;
              some_old = ground (arith, w.low);
              fits = omega (arith, w.fits);
              held_old = subst (λ z. Holds s.ring z s.head recs) (sym w.low) w.held;
              held_new = refl;
              both = append-nil recs;
            });
            room = omega arith;
          })
    | inr w ↦
        let above : leb s.head s.tail ≡ true = ground (arith, w.apart) in
        rw (e, w.lapped, above)
          (record {
            dropped = length w.old;
            holding = inr (record {
              old = w.new;
              new = [];
              lapped = refl;
              apart = omega arith;
              some_old = ground arith;
              fits = omega (arith, w.apart, w.some_old, w.fits);
              held_old = w.held_new;
              held_new = refl;
              both =
                  append-nil w.new
                  ∙ sym (ap (drop (length w.old)) (sym w.both) ∙ drop-append_length w.old w.new);
            });
            room = omega arith;
          })
  ]
]

-- The ring after the eviction: the region at the head is free.
pub record Cleared (t : Ring) (recs : List (List ℕ)) (need : ℕ) : Type 0 where
  pub dropped : ℕ
  pub holding :
      Linear t (drop dropped recs) ⊎ (Lapped t (drop dropped recs) × (t.head + need ≤ t.tail))
  pub room : t.head + need ≤ ring_size

evict-Lapped :
    (s : Ring) (recs : List (List ℕ)) (need : ℕ)
    → Lapped s recs
    → s.head + need ≤ ring_size
    → Cleared (evict s s.head need) recs need
unfolding evict
evict-Lapped s recs need v room =
    let o =
      evict_rounds 4097 s.ring s.head s.head need
        (record { tail = s.tail; high = s.high; wrapped = true }) in
    let ev : Evicted s.ring s.head (s.head + need) s.high v.old o =
      evict_rounds-Evicted 4097 s.ring s.head s.head need s.tail s.high v.old
        (omega (arith, Holds-le s.ring s.tail s.high v.old v.held_old, v.fits)) v.apart v.some_old
        v.held_old in
    let d = drop_old ev.dropped v.old v.new in
    let all : drop d.dropped recs ≡ drop ev.dropped v.old ++ v.new =
      ap (drop d.dropped) (sym v.both) ∙ d.same in
    simp v.lapped (elim ev.rest [
      | inl w ↦ record {
        dropped = d.dropped;
        holding = inr (
          record {
            old = drop ev.dropped v.old;
            new = v.new;
            lapped = w.0;
            apart = omega (arith, w);
            some_old = subst (λ z. o.tail < z) (sym w.1) w.3;
            fits = subst (λ z. z ≤ ring_size) (sym w.1) v.fits;
            held_old = subst (λ z. Holds s.ring o.tail z (drop ev.dropped v.old)) (sym w.1) w.4;
            held_new = v.held_new;
            both = sym all;
          },
          w.2,
        );
        room = room;
      }
      | inr w ↦ record {
        dropped = d.dropped;
        holding = inl (record {
          flat = w.0;
          low = w.1;
          top = w.2;
          fits = omega arith;
          held =
              subst (λ z. Holds s.ring 0 s.head z) (sym (all ∙ ap (λ z. z ++ v.new) w.3))
                v.held_new;
        });
        room = room;
      }
    ])

pub evict-Cleared :
    (s : Ring) (recs : List (List ℕ)) (need : ℕ)
    → Holding s recs
    → s.head + need ≤ ring_size
    → Cleared (evict s s.head need) recs need
unfolding evict
evict-Cleared s recs need (inr v) room = evict-Lapped s recs need v room
evict-Cleared s recs need (inl v) room =
    simp v.flat (record { dropped = 0; holding = inl v; room = room })
