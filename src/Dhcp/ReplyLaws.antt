-- ===== src/Dhcp/ReplyLaws.antt =====
-- The replies of src/dhcp_server.c: what a client reads in them, and when they are sent.
use molewire.Base.{
  ℕ, ◌/◌, ◌%◌, ◌≡◌, ◌⊎◌, inl, inr, refl, sym, ap, ◌∙◌, subst, arith, Bool-cases, true, Option, none,
  List, [], ◌∷◌, ◌++◌, length, ◌==◌, if◌then◌else◌, Bytes, word_bytes,
}
use mathlib.Core.List.{append_assoc, append-nil}
use molewire.Config.Record.{WgRoute}
use molewire.Dhcp.Options.{
  opt_subnet_mask, opt_router, opt_dns, opt_mtu, opt_lease_time, opt_msg_type, opt_server_id,
  opt_classless_routes, opt_end, find_opt, put_opt,
}
use molewire.Dhcp.Server.{
  lease_time_s, Scope, ReplyType, reply_code, route_bytes, is_nak, put_routing, put_dns, put_lease,
  reply_options, dhcp_server_start,
}
use molewire.Dhcp.OptionLaws.{
  Opt, encode, lookup, IsLegal, At, Reads, put_opt-encode, find_opt-encode,
}

abbrev pub option : ℕ → List ℕ → Opt
option c v = record { code = c; val = v }

-- The routing that a scope stands for: none on a link of its own, a default router, or routes.
abbrev pub routing_of : Scope → ℕ → List Opt
routing_of s sid =
    if s.lease_link_only
    then []
    else if s.lease_route_count == 0
    then option opt_router (word_bytes sid) ∷ []
    else option opt_classless_routes (route_bytes s.lease_routes sid s.lease_route_count 0) ∷ []

abbrev pub dns_of : Scope → List Opt
dns_of s = if s.lease_dns == 0 then [] else option opt_dns (word_bytes s.lease_dns) ∷ []

put_routing-encode :
    (s : Scope) (sid : ℕ) (os : List Opt)
    → put_routing s sid (encode os) ≡ encode (os ++ routing_of s sid)
unfolding put_routing
put_routing-encode s sid os = elim (Bool-cases s.lease_link_only) [
  | inl alone ↦ simp alone (ap encode (sym (append-nil os)))
  | inr served ↦ elim (Bool-cases (s.lease_route_count == 0)) [
    | inl full ↦ simp (served, full) (put_opt-encode os opt_router (word_bytes sid))
    | inr split ↦
        simp (served, split)
          (put_opt-encode os opt_classless_routes
            (route_bytes s.lease_routes sid s.lease_route_count 0))
  ]
]

put_dns-encode : (s : Scope) (os : List Opt) → put_dns s (encode os) ≡ encode (os ++ dns_of s)
unfolding put_dns
put_dns-encode s os = elim (Bool-cases (s.lease_dns == 0)) [
  | inl no_dns ↦ rw no_dns (ap encode (sym (append-nil os)))
  | inr given ↦ rw given (put_opt-encode os opt_dns (word_bytes s.lease_dns))
]

IsLegal-append : (os qs : List Opt) → IsLegal os → IsLegal qs → IsLegal (os ++ qs)
IsLegal-append [] qs h k = k
IsLegal-append (o ∷ os) qs h k = (h.0, h.1, IsLegal-append os qs h.2 k)

routing_of-IsLegal : (s : Scope) (sid : ℕ) → IsLegal (routing_of s sid)
routing_of-IsLegal s sid = elim (Bool-cases s.lease_link_only) [
  | inl alone ↦ rw alone tt
  | inr served ↦ elim (Bool-cases (s.lease_route_count == 0)) [
    | inl full ↦ rw (served, full) (omega arith, omega arith, tt)
    | inr split ↦ rw (served, split) (omega arith, omega arith, tt)
  ]
]

dns_of-IsLegal : (s : Scope) → IsLegal (dns_of s)
dns_of-IsLegal s = elim (Bool-cases (s.lease_dns == 0)) [
  | inl no_dns ↦ rw no_dns tt
  | inr given ↦ rw given (omega arith, omega arith, tt)
]

module _ (htonl htons : ℕ → ℕ) where
  abbrev pub lease_of : Scope → ℕ → List Opt
  lease_of s sid =
      option opt_lease_time (word_bytes (htonl lease_time_s))
      ∷ option opt_subnet_mask (word_bytes s.lease_mask)
      ∷ (routing_of s sid
          ++ (dns_of s
              ++ (option opt_mtu ((htons s.lease_mtu % 256) ∷ (htons s.lease_mtu / 256 % 256) ∷ [])
                  ∷ [])))

  -- What a reply of this kind tells the client.
  abbrev pub told : Scope → ℕ → ReplyType → List Opt
  told s sid kind =
      option opt_msg_type (reply_code kind ∷ [])
      ∷ option opt_server_id (word_bytes sid)
      ∷ (if is_nak kind then [] else lease_of s sid)

  abbrev mtu_of : Scope → Opt
  mtu_of s = option opt_mtu ((htons s.lease_mtu % 256) ∷ (htons s.lease_mtu / 256 % 256) ∷ [])

  put_lease-encode :
      (s : Scope) (sid : ℕ) (a b : Opt)
      → put_lease htonl htons s sid (encode (a ∷ b ∷ [])) ≡ encode (a ∷ b ∷ lease_of s sid)
  unfolding put_lease
  put_lease-encode s sid a b =
      let t = option opt_lease_time (word_bytes (htonl lease_time_s)) in
      let m = option opt_subnet_mask (word_bytes s.lease_mask) in
      let timed = put_opt-encode (a ∷ b ∷ []) opt_lease_time (word_bytes (htonl lease_time_s)) in
      let masked = put_opt-encode (a ∷ b ∷ t ∷ []) opt_subnet_mask (word_bytes s.lease_mask) in
      let routed = put_routing-encode s sid (a ∷ b ∷ t ∷ m ∷ []) in
      let named = put_dns-encode s (a ∷ b ∷ t ∷ m ∷ routing_of s sid) in
      let ended =
        put_opt-encode (a ∷ b ∷ t ∷ m ∷ (routing_of s sid ++ dns_of s)) opt_mtu (mtu_of s).val in
      ap
        (λ o.
          put_opt
            (put_dns s (put_routing s sid (put_opt o opt_subnet_mask (word_bytes s.lease_mask))))
            opt_mtu (mtu_of s).val)
        timed
      ∙ ap (λ o. put_opt (put_dns s (put_routing s sid o)) opt_mtu (mtu_of s).val) masked
      ∙ ap (λ o. put_opt (put_dns s o) opt_mtu (mtu_of s).val) routed
      ∙ ap (λ o. put_opt o opt_mtu (mtu_of s).val) named
      ∙ ended
      ∙ ap (λ z. encode (a ∷ b ∷ t ∷ m ∷ z))
          (append_assoc (routing_of s sid) (dns_of s) (mtu_of s ∷ []))

  pub reply_options-encode :
      (s : Scope) (sid : ℕ) (kind : ReplyType)
      → reply_options htonl htons s sid kind ≡ encode (told s sid kind) ++ (opt_end ∷ [])
  unfolding reply_options
  reply_options-encode s sid kind =
      let a = option opt_msg_type (reply_code kind ∷ []) in
      let b = option opt_server_id (word_bytes sid) in
      let first = put_opt-encode [] opt_msg_type (reply_code kind ∷ []) in
      let second : put_opt (put_opt [] opt_msg_type (reply_code kind ∷ [])) opt_server_id
            (word_bytes sid)
          ≡ encode (a ∷ b ∷ []) =
        ap (λ o. put_opt o opt_server_id (word_bytes sid)) first
        ∙ put_opt-encode (a ∷ []) opt_server_id (word_bytes sid) in
      elim (Bool-cases (is_nak kind)) [
        | inl refused ↦ rw refused (ap (λ o. o ++ (opt_end ∷ [])) second)
        | inr leased ↦ rw leased (
            ap (λ o. put_lease htonl htons s sid o ++ (opt_end ∷ [])) second
            ∙ ap (λ o. o ++ (opt_end ∷ [])) (put_lease-encode s sid a b))
      ]

  told-IsLegal : (s : Scope) (sid : ℕ) (kind : ReplyType) → IsLegal (told s sid kind)
  told-IsLegal s sid kind = elim (Bool-cases (is_nak kind)) [
    | inl refused ↦ rw refused (omega arith, omega arith, (omega arith, omega arith, tt))
    | inr leased ↦ rw leased (
      omega arith,
      omega arith,
      (
        omega arith,
        omega arith,
        (
          omega arith,
          omega arith,
          (
            omega arith,
            omega arith,
            IsLegal-append (routing_of s sid) _ (routing_of-IsLegal s sid)
                (IsLegal-append (dns_of s) _ (dns_of-IsLegal s) (omega arith, omega arith, tt)),
          ),
        ),
      ),
    )
  ]

  -- A client that searches the options of a reply, at any place, for any code finds exactly what the
  -- scope and the kind of the reply say: message type and server, and but for a refusal the lease
  -- time, the mask, the router or the routes or neither, the resolver if there is one, and the MTU.
  pub reply_options-Reads :
      (s : Scope) (sid : ℕ) (kind : ReplyType) (p : Bytes) (c : ℕ)
      → At p 0 (reply_options htonl htons s sid kind)
      → Reads p
          (lookup (told s sid kind) c)
          (find_opt p (length (reply_options htonl htons s sid kind)) c)
  reply_options-Reads s sid kind p c at =
      let e = reply_options-encode s sid kind in
      subst (λ o. Reads p (lookup (told s sid kind) c) (find_opt p (length o) c)) (sym e)
        (find_opt-encode p c (told s sid kind) (subst (At p 0) e at) (told-IsLegal s sid kind))

  told-isolated :
      (s : Scope) (sid c : ℕ) (kind : ReplyType)
      → s.lease_link_only ≡ true
      → s.lease_dns ≡ 0
      → (c ≡ opt_router) ⊎ ((c ≡ opt_dns) ⊎ (c ≡ opt_classless_routes))
      → lookup (told s sid kind) c ≡ none
  told-isolated s sid c kind alone no_dns (inl e) = simp (alone, no_dns, e) (ground (arith, kind))
  told-isolated s sid c kind alone no_dns (inr (inl e)) =
      simp (alone, no_dns, e) (ground (arith, kind))
  told-isolated s sid c kind alone no_dns (inr (inr e)) =
      simp (alone, no_dns, e) (ground (arith, kind))

  -- On a link of its own, a client finds no router, no resolver and no route in any reply, whatever
  -- addresses, resolver and routes the scope was started with.
  pub dhcp_server_start-isolated :
      (s : Scope) (nif host_addr prefix dns mtu : ℕ) (routes : Option (ℕ → WgRoute))
      (route_count sid c : ℕ) (kind : ReplyType) (p : Bytes) (o : List ℕ)
      → (c ≡ opt_router) ⊎ ((c ≡ opt_dns) ⊎ (c ≡ opt_classless_routes))
      → o
        ≡ reply_options htonl htons
            (dhcp_server_start htonl htons s nif host_addr prefix dns mtu routes route_count true)
            sid
            kind
      → At p 0 o
      → find_opt p (length o) c ≡ none
  unfolding dhcp_server_start
  dhcp_server_start-isolated s nif host_addr prefix dns mtu routes route_count sid c kind p o which
        e at =
      let t =
        dhcp_server_start htonl htons s nif host_addr prefix dns mtu routes route_count true in
      let read = reply_options-Reads t sid kind p c (subst (At p 0) e at) in
      subst (λ x. find_opt p (length x) c ≡ none) (sym e)
        (subst (λ v. Reads p v (find_opt p (length (reply_options htonl htons t sid kind)) c))
          (told-isolated t sid c kind refl refl which) read)
