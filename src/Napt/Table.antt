-- ===== src/Napt/Table.antt =====
-- The mapping table of src/napt.c: entries, their idle timeouts and the search for a slot.
use molewire.Base.{
  ℕ, zero, suc, ◌+◌, ◌-◌, ◌%◌, ◌^◌, Bool, not, ◌&&◌, Option, none, some, List, [], ◌∷◌, bit_and,
  ◌==◌, ltb, if◌then◌else◌,
}

-- An IPv4 address as its four bytes on the wire.
pub record Ip4 : Type 0 where
  pub b0 : ℕ
  pub b1 : ℕ
  pub b2 : ℕ
  pub b3 : ℕ

-- A port, or an ICMP echo id, as its two bytes on the wire.
pub record Port : Type 0 where
  pub hi : ℕ
  pub lo : ℕ

abbrev pub ip_bytes : Ip4 → List ℕ
ip_bytes a = a.b0 ∷ a.b1 ∷ a.b2 ∷ a.b3 ∷ []

abbrev pub port_bytes : Port → List ℕ
port_bytes k = k.hi ∷ k.lo ∷ []

-- `memcmp(a, b, 4) == 0` and `memcmp(a, b, 2) == 0`
abbrev pub ip_equal : Ip4 → Ip4 → Bool
ip_equal a b = a.b0 == b.b0 && a.b1 == b.b1 && a.b2 == b.b2 && a.b3 == b.b3

abbrev pub port_equal : Port → Port → Bool
port_equal a b = a.hi == b.hi && a.lo == b.lo

pub data NaptState : Type 0 where
  napt_st_new napt_st_established napt_st_closing : NaptState

-- `proto` is 0 for a free slot.
pub record NaptEntry : Type 0 where
  pub inner_ip : Ip4
  pub inner_port : Port
  pub last_ms : ℕ
  pub proto : ℕ
  pub state : NaptState

abbrev pub napt_max : ℕ
napt_max = 512

abbrev pub napt_port_base : ℕ
napt_port_base = 60000

abbrev pub Table : Type 0
Table = ℕ → NaptEntry

-- The file's static variables; `table` has `napt_max` entries.
pub record Napt : Type 0 where
  pub table : Table
  pub ext : Ip4
  pub mss : ℕ
  pub drops : ℕ

unfoldable pub napt_set_ext_ip : Napt → Ip4 → Napt
napt_set_ext_ip s ip = record s { ext = ip }

unfoldable pub napt_set_mss_clamp : Napt → ℕ → Napt
napt_set_mss_clamp s mss = record s { mss = mss }

abbrev pub free_entry : NaptEntry
free_entry = record {
  inner_ip = record { b0 = 0; b1 = 0; b2 = 0; b3 = 0 };
  inner_port = record { hi = 0; lo = 0 };
  last_ms = 0;
  proto = 0;
  state = napt_st_new;
}

unfoldable pub napt_reset : Napt → Napt
napt_reset s = record s { table = λ i. free_entry }

unfoldable pub tcp_timeout_ms : NaptState → ℕ
tcp_timeout_ms napt_st_established = 7200000
tcp_timeout_ms napt_st_closing = 30000
tcp_timeout_ms napt_st_new = 240000

unfoldable pub timeout_ms : NaptEntry → ℕ
timeout_ms e =
    if e.proto == 6 then tcp_timeout_ms e.state else if e.proto == 17 then 120000 else 60000

-- `(uint32_t)(now - last)`
abbrev pub age_ms : ℕ → ℕ → ℕ
age_ms now last = (now + 2 ^ 32 - last) % 2 ^ 32

unfoldable pub entry_live : NaptEntry → ℕ → Bool
entry_live e now = not (e.proto == 0) && ltb (age_ms now e.last_ms) (timeout_ms e)

-- The flow that a packet belongs to.
pub record Flow : Type 0 where
  pub proto : ℕ
  pub ip : Ip4
  pub port : Port

unfoldable pub entry_matches : NaptEntry → Flow → Bool
entry_matches e f = e.proto == f.proto && ip_equal e.inner_ip f.ip && port_equal e.inner_port f.port

-- What the search loop of `napt_outbound` ends with.
pub data Slot : Type 0 where
  existing : ℕ → Slot
  fresh : ℕ → Slot
  full : Slot

unfoldable pub first_free : Option ℕ → ℕ → Option ℕ
first_free none i = some i
first_free (some j) i = some j

unfoldable pub end_of_search : Option ℕ → Slot
end_of_search none = full
end_of_search (some j) = fresh j

-- The loop at index `i`, with `left` entries to go and the first reusable slot so far.
unfoldable pub search_slot : Table → Flow → ℕ → ℕ → ℕ → Option ℕ → Slot
search_slot t f now zero i free = end_of_search free
search_slot t f now (suc left) i free =
    let live = entry_live (t i) now in
    let rest = search_slot t f now left (suc i) (if live then free else first_free free i) in
    if live && entry_matches (t i) f then existing i else rest

unfoldable pub new_entry : NaptEntry → Flow → NaptEntry
new_entry e f = record e {
  inner_ip = f.ip;
  inner_port = f.port;
  proto = f.proto;
  state = napt_st_new;
}

-- `table[i] = e`
abbrev pub set_entry : Table → ℕ → NaptEntry → Table
set_entry t i e j = if j == i then e else t j

-- FIN or RST closes; an ACK with no SYN establishes a new flow.
unfoldable pub tcp_track_state : NaptState → ℕ → NaptState
tcp_track_state st flags =
    if not (bit_and flags 0x05 == 0)
    then napt_st_closing
    else if bit_and flags 0x12 == 0x10
    then (elim st [ napt_st_new ↦ napt_st_established | other ↦ other ])
    else st

unfoldable pub tcp_track : NaptEntry → ℕ → NaptEntry
tcp_track e flags = record e { state = tcp_track_state e.state flags }

-- The count of `napt_stats`, over the entries from `i` on.
unfoldable pub count_entries : Table → ℕ → ℕ → ℕ
count_entries t zero i = 0
count_entries t (suc left) i = (if (t i).proto == 0 then 0 else 1) + count_entries t left (suc i)

unfoldable pub napt_stats : Napt → record { entries : ℕ; drops : ℕ }
napt_stats s = record { entries = count_entries s.table napt_max 0; drops = s.drops }
