-- ===== src/Dhcp/ReplyBounds.antt =====
-- The options of every reply of src/dhcp_server.c fit in its buffers.
use molewire.Base.{
  ℕ, zero, suc, ◌+◌, ◌*◌, ◌/◌, ◌%◌, ◌≤◌, ◌<◌, ◌≡◌, inl, inr, refl, sym, ap, subst, arith, Bool,
  Bool-cases, Option, [], ◌∷◌, ◌++◌, length, length-append, ◌==◌, word_bytes,
}
use mathlib.Core.List.{append-nil}
use molewire.Config.Record.{config_routes_max, WgRoute}
use molewire.Dhcp.Options.{opt_mtu, opt_end}
use molewire.Dhcp.Server.{
  Scope, ReplyType, octets_of, route_bytes, is_nak, reply_options, dhcp_server_start,
}
use molewire.Dhcp.OptionLaws.{encode, encode-append}
use molewire.Dhcp.ReplyLaws.{option, routing_of, dns_of, told, reply_options-encode}

length-octets_of : (n w : ℕ) → length (octets_of n w) ≡ n
unfolding octets_of
length-octets_of zero w = refl
length-octets_of (suc n) w = ap suc (length-octets_of n (w / 256))

-- The prefixes are those of IPv4 networks.
abbrev pub ArePrefixes : Scope → Type 0
ArePrefixes s = (j : ℕ) → j < s.lease_route_count → (s.lease_routes j).prefix ≤ 32

length-route_bytes_le :
    (routes : ℕ → WgRoute) (sid left i : ℕ)
    → ((j : ℕ) → j < i + left → (routes j).prefix ≤ 32)
    → length (route_bytes routes sid left i) ≤ 9 * left
unfolding route_bytes
length-route_bytes_le routes sid zero i h = omega arith
length-route_bytes_le routes sid (suc left) i h =
    let rest = length-route_bytes_le routes sid left (suc i) (λ j low. h j (omega arith)) in
    let short = h i (omega arith) in
    let octets = octets_of (((routes i).prefix + 7) / 8) (routes i).net in
    let few = length-octets_of (((routes i).prefix + 7) / 8) (routes i).net in
    omega (
      arith,
      rest,
      few,
      short,
      length-append octets (word_bytes sid ++ route_bytes routes sid left (suc i)),
    )

length-routing_of_le :
    (s : Scope) (sid : ℕ)
    → s.lease_route_count ≤ config_routes_max
    → ArePrefixes s
    → length (encode (routing_of s sid)) ≤ 38
length-routing_of_le s sid h ps =
    let r =
      length-route_bytes_le s.lease_routes sid s.lease_route_count 0
        (λ j low. ps j (omega arith)) in
    let z = append-nil (route_bytes s.lease_routes sid s.lease_route_count 0) in
    elim (Bool-cases s.lease_link_only) [
      | inl alone ↦ rw alone (omega arith)
      | inr served ↦ elim (Bool-cases (s.lease_route_count == 0)) [
        | inl full ↦ rw (served, full) (omega arith)
        | inr split ↦ rw (served, split, z) (omega (arith, r))
      ]
    ]

length-dns_of_le : (s : Scope) → length (encode (dns_of s)) ≤ 6
length-dns_of_le s = ground arith

module _ (htonl htons : ℕ → ℕ) where
  fits_options :
      (s : Scope) (sid : ℕ) (kind : ReplyType)
      → s.lease_route_count ≤ config_routes_max
      → ArePrefixes s
      → length (reply_options htonl htons s sid kind) ≤ 128
  fits_options s sid kind h ps =
      let e = ap length (reply_options-encode htonl htons s sid kind) in
      let z = length-append (encode (told htonl htons s sid kind)) (opt_end ∷ []) in
      let m = option opt_mtu ((htons s.lease_mtu % 256) ∷ (htons s.lease_mtu / 256 % 256) ∷ []) in
      let d = ap length (encode-append (dns_of s) (m ∷ [])) in
      let d' = length-append (encode (dns_of s)) (encode (m ∷ [])) in
      let r = ap length (encode-append (routing_of s sid) (dns_of s ++ (m ∷ []))) in
      let r' = length-append (encode (routing_of s sid)) (encode (dns_of s ++ (m ∷ []))) in
      let few = length-routing_of_le s sid h ps in
      let small = length-dns_of_le s in
      let told_le : length (encode (told htonl htons s sid kind)) ≤ 127 =
        elim (Bool-cases (is_nak kind)) [
          | inl refused ↦ rw refused (omega arith)
          | inr leased ↦ rw leased (omega (arith, d, d', r, r', few, small))
        ] in
      omega (arith, e, z, told_le)

  -- Whatever a scope is started with, if its prefixes are of 32 bits at most, the options of every reply fit in the 128 bytes that the buffer
  -- has for them, and option 121 in the 36 bytes of its own buffer.
  pub reply_options-fits :
      (s : Scope) (nif host_addr prefix dns mtu : ℕ) (routes : Option (ℕ → WgRoute))
      (route_count : ℕ) (link_only : Bool) (sid : ℕ) (kind : ReplyType) (t : Scope)
      → t
        ≡ dhcp_server_start htonl htons s nif host_addr prefix dns mtu routes route_count link_only
      → ArePrefixes t
      → (length (reply_options htonl htons t sid kind) ≤ 128)
        × (length (route_bytes t.lease_routes sid t.lease_route_count 0) ≤ 36)
  unfolding dhcp_server_start
  reply_options-fits s nif host_addr prefix dns mtu routes route_count link_only sid kind t e ps =
      let few : t.lease_route_count ≤ config_routes_max =
        subst (λ x. x.lease_route_count ≤ config_routes_max) (sym e) (ground arith) in
      let r =
        length-route_bytes_le t.lease_routes sid t.lease_route_count 0
          (λ j low. ps j (omega arith)) in
      (fits_options t sid kind few ps, omega (arith, r, few))
