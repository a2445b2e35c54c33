-- ===== src/Pcap/Ring.antt =====
-- The state and the operations of src/pcap.c. The device is little-endian.
use molewire.Base.{
  ℕ, zero, suc, ◌+◌, ◌-◌, ◌*◌, ◌/◌, ◌%◌, ◌^◌, Bool, true, false, not, ◌&&◌, ◌||◌, List, [], ◌∷◌,
  ◌++◌, ltb, leb, ◌==◌, if◌then◌else◌, Bytes, store, word_bytes,
}

abbrev pub ring_size : ℕ
ring_size = 65536

abbrev pub snaplen : ℕ
snaplen = 256

abbrev pub rec_hdr : ℕ
rec_hdr = 16

pub record Ring : Type 0 where
  pub ring : Bytes
  pub head : ℕ
  pub tail : ℕ
  pub high : ℕ
  pub wrapped : Bool
  pub enabled : Bool
  pub paused : Bool
  pub n_packets : ℕ

-- The length of the record at `off`, by its own header.
unfoldable pub rec_len_at : Bytes → ℕ → ℕ
rec_len_at ring off =
    rec_hdr
    + (ring (off + 8)
        + ring (off + 9) * 2 ^ 8
        + ring (off + 10) * 2 ^ 16
        + ring (off + 11) * 2 ^ 24)

-- What `evict` changes.
pub record Oldest : Type 0 where
  pub tail : ℕ
  pub high : ℕ
  pub wrapped : Bool

-- The loop of `evict`, entered with `wrapped` set. Each round passes a record of 16 bytes or more.
unfoldable pub evict_rounds : ℕ → Bytes → ℕ → ℕ → ℕ → Oldest → Oldest
evict_rounds zero ring head from need o = o
evict_rounds (suc fuel) ring head from need o =
    let len = rec_len_at ring o.tail in
    let rest = evict_rounds fuel ring head from need (record o { tail = o.tail + len }) in
    if leb (from + need) o.tail || leb (o.tail + len) from
    then o
    else if leb o.high (o.tail + len)
    then record { tail = 0; high = head; wrapped = false }
    else rest

-- The ring holds at most 4096 records, so 4097 rounds are enough.
unfoldable pub evict : Ring → ℕ → ℕ → Ring
evict s from need =
    let o =
      evict_rounds 4097 s.ring s.head from need
        (record { tail = s.tail; high = s.high; wrapped = s.wrapped }) in
    if s.wrapped then record s { tail = o.tail; high = o.high; wrapped = o.wrapped } else s

-- `n` bytes from `at` on.
unfoldable pub slice : Bytes → ℕ → ℕ → List ℕ
slice p at zero = []
slice p at (suc n) = p at ∷ slice p (at + 1) n

-- `memcpy` of a list of bytes to `at`.
unfoldable pub copy_in : Bytes → ℕ → List ℕ → Bytes
copy_in p at [] = p
copy_in p at (x ∷ xs) = copy_in (store p at x) (at + 1) xs

abbrev pub included : ℕ → ℕ
included len = if ltb snaplen len then snaplen else len

-- The record of a frame of `len` bytes at `us` microseconds: the header and what is kept of it.
unfoldable pub packet_record : ℕ → Bytes → ℕ → List ℕ
packet_record us frame len =
    word_bytes (us / 1000000 % 2 ^ 32)
    ++ (word_bytes (us % 1000000)
        ++ (word_bytes (included len) ++ (word_bytes len ++ slice frame 0 (included len))))

-- A record that would straddle the end of the ring goes to its start.
unfoldable pub wrap_for : Ring → ℕ → Ring
wrap_for s need =
    if ltb ring_size (s.head + need)
    then record s {
      tail = if s.wrapped && leb s.head s.tail then 0 else s.tail;
      high = s.head;
      head = 0;
      wrapped = true;
    }
    else s

-- The record is written at the head.
unfoldable pub append_record : Ring → List ℕ → ℕ → Ring
append_record s bytes need = record s {
  ring = copy_in s.ring s.head bytes;
  head = s.head + need;
  high = if ltb s.high (s.head + need) && not s.wrapped then s.head + need else s.high;
  n_packets = (s.n_packets + 1) % 2 ^ 32;
}

unfoldable pub pcap_capture : Ring → ℕ → Bytes → ℕ → Ring
pcap_capture s us frame len =
    let need = rec_hdr + included len in
    let t = wrap_for s need in
    if not s.enabled || s.paused || len == 0
    then s
    else append_record (evict t t.head need) (packet_record us frame len) need

unfoldable pub pcap_set_enabled : Ring → Bool → Ring
pcap_set_enabled s on = record s { enabled = on }

unfoldable pub pcap_clear : Ring → Ring
pcap_clear s = record s { head = 0; tail = 0; high = 0; wrapped = false; n_packets = 0 }

unfoldable pub pcap_bytes_used : Ring → ℕ
pcap_bytes_used s = if s.wrapped then (s.high - s.tail) + s.head else s.head - s.tail

-- The two spans of a download, as the bytes that they hold.
pub record Download : Type 0 where
  pub state : Ring
  pub a : List ℕ
  pub b : List ℕ

unfoldable pub pcap_freeze : Ring → Download
pcap_freeze s = record {
  state = record s { paused = true };
  a =
      if s.wrapped
      then slice s.ring s.tail (s.high - s.tail)
      else slice s.ring s.tail (s.head - s.tail);
  b = if s.wrapped then slice s.ring 0 s.head else [];
}

unfoldable pub pcap_resume : Ring → Ring
pcap_resume s = record s { paused = false }

unfoldable pub pcap_global_header : List ℕ
pcap_global_header =
    word_bytes 0xA1B2C3D4
    ++ (word_bytes 0x00040002
        ++ (word_bytes 0 ++ (word_bytes 0 ++ (word_bytes snaplen ++ word_bytes 1))))
