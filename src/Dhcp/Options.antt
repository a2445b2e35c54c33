-- ===== src/Dhcp/Options.antt =====
-- Options of src/dhcp_server.c: a code, a length and the value.
use molewire.Base.{
  ℕ, zero, suc, ◌+◌, Option, none, some, List, ◌∷◌, ◌++◌, length, ltb, ◌==◌, if◌then◌else◌, Bytes,
}

abbrev pub opt_pad : ℕ
opt_pad = 0

abbrev pub opt_subnet_mask : ℕ
opt_subnet_mask = 1

abbrev pub opt_router : ℕ
opt_router = 3

abbrev pub opt_dns : ℕ
opt_dns = 6

abbrev pub opt_mtu : ℕ
opt_mtu = 26

abbrev pub opt_requested_ip : ℕ
opt_requested_ip = 50

abbrev pub opt_lease_time : ℕ
opt_lease_time = 51

abbrev pub opt_msg_type : ℕ
opt_msg_type = 53

abbrev pub opt_server_id : ℕ
opt_server_id = 54

abbrev pub opt_classless_routes : ℕ
opt_classless_routes = 121

abbrev pub opt_end : ℕ
opt_end = 255

-- The loop of `find_opt`, at offset `i`; a round goes on by one or more, so `len` rounds are enough.
unfoldable pub find_loop : ℕ → Bytes → ℕ → ℕ → ℕ → Option ℕ
find_loop zero opts len code i = none
find_loop (suc fuel) opts len code i =
    let past_pad = find_loop fuel opts len code (i + 1) in
    let past_opt = find_loop fuel opts len code (i + 2 + opts (i + 1)) in
    if ltb (i + 1) len
    then (if opts i == opt_end
        then none
        else if opts i == opt_pad
        then past_pad
        else if ltb len (i + 2 + opts (i + 1))
        then none
        else if opts i == code
        then some (i + 1)
        else past_opt)
    else none

-- The offset of the length byte of option `code`.
unfoldable pub find_opt : Bytes → ℕ → ℕ → Option ℕ
find_opt opts len code = find_loop len opts len code 0

-- What has been written, with an option more.
unfoldable pub put_opt : List ℕ → ℕ → List ℕ → List ℕ
put_opt out code val = out ++ (code ∷ length val ∷ val)
