-- ===== src/Pcap/Capture.antt =====
-- Each step of src/pcap.c leaves a ring that holds whole records, oldest first.
use molewire.Base.{
  ℕ, suc, ◌+◌, ◌/◌, ◌%◌, ◌^◌, ◌≤◌, ◌<◌, ◌≡◌, ◌⊎◌, inl, inr, sym, ap, ◌∙◌, subst, arith, true, false,
  List, [], ◌∷◌, ◌++◌, Bytes, store, word_bytes, length,
}
use mathlib.Core.List.{append_assoc}
use molewire.Pcap.Ring.{
  ring_size, snaplen, rec_hdr, Ring, rec_len_at, copy_in, included, packet_record, append_record,
}
use molewire.Pcap.Holds.{Holds, Holds-cong, Holds-append, length-slice, copy_in-ne, slice-copy_in}

-- Oldest first, the records of a ring whose head has not lapped the tail, and of one whose has.
pub record Linear (s : Ring) (recs : List (List ℕ)) : Type 0 where
  pub flat : s.wrapped ≡ false
  pub low : s.tail ≡ 0
  pub top : s.high ≡ s.head
  pub fits : s.head ≤ ring_size
  pub held : Holds s.ring 0 s.head recs

pub record Lapped (s : Ring) (recs : List (List ℕ)) : Type 0 where
  pub old : List (List ℕ)
  pub new : List (List ℕ)
  pub lapped : s.wrapped ≡ true
  pub apart : s.head ≤ s.tail
  pub some_old : s.tail < s.high
  pub fits : s.high ≤ ring_size
  pub held_old : Holds s.ring s.tail s.high old
  pub held_new : Holds s.ring 0 s.head new
  pub both : old ++ new ≡ recs

abbrev pub Holding : Ring → List (List ℕ) → Type 0
Holding s recs = Linear s recs ⊎ Lapped s recs

pub length-packet_record :
    (us : ℕ) (frame : Bytes) (len : ℕ)
    → length (packet_record us frame len) ≡ rec_hdr + included len
unfolding packet_record
length-packet_record us frame len = omega (arith, length-slice frame (included len) 0)

pub included_le : (len : ℕ) → included len ≤ snaplen
included_le len = ground arith

copied_byte :
    (p : Bytes) (at : ℕ) (pre : List ℕ) (x : ℕ) (post : List ℕ)
    → copy_in p at (pre ++ (x ∷ post)) (at + length pre) ≡ x
unfolding copy_in
copied_byte p at [] x post = ground (arith, copy_in-ne (store p at x) (at + 1) post (at + 0))
copied_byte p at (y ∷ pre) x post =
    let e : at + suc (length pre) ≡ at + 1 + length pre = omega arith in
    rw e (copied_byte (store p at y) (at + 1) pre x post)

-- The record says its own length.
rec_len_at-copy_in :
    (p : Bytes) (at x0 x1 x2 x3 x4 x5 x6 x7 incl : ℕ) (xs : List ℕ)
    → incl < 2 ^ 32
    → rec_len_at (copy_in p at (x0 ∷ x1 ∷ x2 ∷ x3 ∷ x4 ∷ x5 ∷ x6 ∷ x7 ∷ (word_bytes incl ++ xs))) at
      ≡ rec_hdr + incl
unfolding rec_len_at
rec_len_at-copy_in p at x0 x1 x2 x3 x4 x5 x6 x7 incl xs h =
    let i0 = incl % 256 in
    let i1 = incl / 2 ^ 8 % 256 in
    let i2 = incl / 2 ^ 16 % 256 in
    let i3 = incl / 2 ^ 24 % 256 in
    let b0 = copied_byte p at (x0 ∷ x1 ∷ x2 ∷ x3 ∷ x4 ∷ x5 ∷ x6 ∷ x7 ∷ []) i0 (i1 ∷ i2 ∷ i3 ∷ xs) in
    let b1 = copied_byte p at (x0 ∷ x1 ∷ x2 ∷ x3 ∷ x4 ∷ x5 ∷ x6 ∷ x7 ∷ i0 ∷ []) i1 (i2 ∷ i3 ∷ xs) in
    let b2 = copied_byte p at (x0 ∷ x1 ∷ x2 ∷ x3 ∷ x4 ∷ x5 ∷ x6 ∷ x7 ∷ i0 ∷ i1 ∷ []) i2 (i3 ∷ xs) in
    let b3 = copied_byte p at (x0 ∷ x1 ∷ x2 ∷ x3 ∷ x4 ∷ x5 ∷ x6 ∷ x7 ∷ i0 ∷ i1 ∷ i2 ∷ []) i3 xs in
    rw (b0, b1, b2, b3) (omega arith)

rec_len_at-packet_record :
    (p : Bytes) (at us : ℕ) (frame : Bytes) (len : ℕ)
    → rec_len_at (copy_in p at (packet_record us frame len)) at ≡ rec_hdr + included len
unfolding packet_record
rec_len_at-packet_record p at us frame len =
    let few = included_le len in
    rec_len_at-copy_in p at _ _ _ _ _ _ _ _ (included len) _ (omega arith)

copied-Holds :
    (p : Bytes) (at us : ℕ) (frame : Bytes) (len : ℕ)
    → Holds
        (copy_in p at (packet_record us frame len))
        at
        (at + (rec_hdr + included len))
        (packet_record us frame len ∷ [])
copied-Holds p at us frame len =
    let n = length-packet_record us frame len in
    (
      slice-copy_in p at (packet_record us frame len),
      rec_len_at-packet_record p at us frame len ∙ sym n,
      ap (◌+◌ at) n,
    )

pub append_record-Linear :
    (s : Ring) (recs : List (List ℕ)) (us : ℕ) (frame : Bytes) (len : ℕ)
    → s.head + (rec_hdr + included len) ≤ ring_size
    → Linear s recs
    → Linear
        (append_record s (packet_record us frame len) (rec_hdr + included len))
        (recs ++ (packet_record us frame len ∷ []))
unfolding append_record
append_record-Linear s recs us frame len h v = record {
  flat = v.flat;
  low = v.low;
  top = ground (arith, v.flat, v.top);
  fits = h;
  held =
      Holds-append (copy_in s.ring s.head (packet_record us frame len)) 0 s.head
        (s.head + (rec_hdr + included len)) recs (packet_record us frame len ∷ [])
        (Holds-cong s.ring (copy_in s.ring s.head (packet_record us frame len)) 0 s.head recs
          (λ j a b. copy_in-ne s.ring s.head (packet_record us frame len) j (inl b)) v.held)
        (copied-Holds s.ring s.head us frame len);
}

pub append_record-Lapped :
    (s : Ring) (recs : List (List ℕ)) (us : ℕ) (frame : Bytes) (len : ℕ)
    → (v : Lapped s recs) → s.head + (rec_hdr + included len) ≤ s.tail
    → Lapped
        (append_record s (packet_record us frame len) (rec_hdr + included len))
        (recs ++ (packet_record us frame len ∷ []))
unfolding append_record
append_record-Lapped s recs us frame len v h =
    let q = copy_in s.ring s.head (packet_record us frame len) in
    let n = length-packet_record us frame len in
    let top : (append_record s (packet_record us frame len) (rec_hdr + included len)).high
        ≡ s.high =
      rw v.lapped (ground arith) in
    record {
      old = v.old;
      new = v.new ++ (packet_record us frame len ∷ []);
      lapped = v.lapped;
      apart = h;
      some_old = rw v.lapped (ground (arith, v.some_old));
      fits = ground (arith, v.lapped, v.fits);
      held_old =
          subst (λ z. Holds q s.tail z v.old) (sym top)
            (Holds-cong s.ring q s.tail s.high v.old
              (λ j a b.
                copy_in-ne s.ring s.head (packet_record us frame len) j (inr (omega (arith, n))))
              v.held_old);
      held_new =
          Holds-append q 0 s.head (s.head + (rec_hdr + included len)) v.new
            (packet_record us frame len ∷ [])
            (Holds-cong s.ring q 0 s.head v.new
              (λ j a b. copy_in-ne s.ring s.head (packet_record us frame len) j (inl b)) v.held_new)
            (copied-Holds s.ring s.head us frame len);
      both =
          sym (append_assoc v.old v.new (packet_record us frame len ∷ []))
          ∙ ap (λ z. z ++ (packet_record us frame len ∷ [])) v.both;
    }
