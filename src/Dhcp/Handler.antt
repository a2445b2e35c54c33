-- ===== src/Dhcp/Handler.antt =====
-- When the receive handler of src/dhcp_server.c replies, and what it changes.
use molewire.Base.{
  ℕ, ◌+◌, ◌-◌, ◌≤◌, ◌<◌, ◌≡◌, ◌≢◌, ◌⊎◌, inl, inr, refl, sym, subst, arith, Bool, Bool-cases,
  Option-cases, true, false, not, ◌||◌, Option, none, some, min, ltb, ◌==◌, if◌then◌else◌, Bytes,
  word_at,
}
use molewire.Dhcp.Options.{opt_msg_type}
use molewire.Dhcp.Server.{
  header_size, Scope, Dhcp, Which, scope_for, scope, set_scope, Reply, ReplyType, offer, ack, nak,
  is_ack, build_reply, Served, answer, classify, is_boot_request, serve, recv_on, dhcp_recv,
}
use molewire.Dhcp.Request.{Asks, request_opt, asked_for, Untyped, classify-none, classify-some}

module _ (htonl htons : ℕ → ℕ) where
  -- What `dhcp_recv` did when it replied: the datagram is a whole boot request of an Ethernet client
  -- with the options' magic, it came in on the scope's interface, the scope is in use, and the type, the address asked for and the state agree.
  pub record Replied (addr_of : ℕ → ℕ) (d : Dhcp) (nif : ℕ) (req : Bytes) (tot_len : ℕ) (r : Served)
      : Type 0 where
    pub which : Which
    pub kind : ReplyType
    pub mt : ℕ
    pub long : 243 ≤ tot_len
    pub op_is : req 0 ≡ 1
    pub htype_is : req 1 ≡ 1
    pub hlen_is : req 2 ≡ 6
    pub magic_is : word_at req 236 ≡ htonl 0x63825363
    pub came_from : scope_for d nif ≡ some which
    pub in_use : (scope d which).lease_addr ≢ 0
    pub typed : request_opt req tot_len opt_msg_type ≡ some mt
    pub asked :
        Asks (scope d which).lease_addr (req (header_size + (mt + 1))) (asked_for req tot_len) kind
    pub reply : Reply
    pub granted : kind ≢ nak → reply.yiaddr ≡ (scope d which).lease_addr
    pub refused : kind ≡ nak → reply.yiaddr ≡ 0
    pub xid_is : reply.xid ≡ word_at req 4
    pub sent : r.reply ≡ some reply
    pub reply_is :
        r.reply
        ≡ some (build_reply htonl htons (scope d which) (addr_of (scope d which).nif) req kind)
    pub state_is :
        r.state
        ≡ (if is_ack kind then set_scope d which (record (scope d which) { leased = true }) else d)

  module _ (s : Scope) (sid : ℕ) (req : Bytes) where
    reply-granted :
        (kind : ReplyType)
        → kind ≢ nak
        → (build_reply htonl htons s sid req kind).yiaddr ≡ s.lease_addr
    unfolding build_reply
    reply-granted offer ne = refl
    reply-granted ack ne = refl
    reply-granted nak ne = absurd (ne refl)

    reply-refused :
        (kind : ReplyType) → kind ≡ nak → (build_reply htonl htons s sid req kind).yiaddr ≡ 0
    unfolding build_reply
    reply-refused kind is = rw is refl

    reply-xid : (kind : ReplyType) → (build_reply htonl htons s sid req kind).xid ≡ word_at req 4
    unfolding build_reply
    reply-xid kind = refl

  answer-cases :
      (d : Dhcp) (w : Which) (sid : ℕ) (allocated : Bool) (req : Bytes) (rlen : ℕ)
      (k : Option ReplyType)
      → ((answer htonl htons d w sid allocated req rlen k ≡ record { state = d; reply = none })
          × ((k ≡ none) ⊎ (allocated ≡ false)))
        ⊎ ((kind : ReplyType) × (k ≡ some kind)
            × (answer htonl htons d w sid allocated req rlen k ≡ record {
              state =
                  if is_ack kind then set_scope d w (record (scope d w) { leased = true }) else d;
              reply = some (build_reply htonl htons (scope d w) sid req kind);
            }))
  unfolding answer
  answer-cases d w sid allocated req rlen none = inl (refl, inl refl)
  answer-cases d w sid true req rlen (some kind) = inr (kind, refl, refl)
  answer-cases d w sid false req rlen (some kind) = inl (refl, inr refl)

  -- Why a datagram gets no reply.
  abbrev pub Ignorable : Dhcp → ℕ → Bool → Bytes → ℕ → Type 0
  Ignorable d nif allocated req tot_len =
      (scope_for d nif ≡ none)
      ⊎ ((w : Which) × (scope_for d nif ≡ some w)
          × (((scope d w).lease_addr ≡ 0)
              ⊎ ((tot_len < 243)
                  ⊎ (((req 0 ≢ 1)
                        ⊎ (req 1 ≢ 1)
                        ⊎ (req 2 ≢ 6)
                        ⊎ (word_at req 236 ≢ htonl 0x63825363))
                      ⊎ (Untyped req tot_len ⊎ (allocated ≡ false))))))

  -- A datagram on the interface of the scope `w`.
  module _ (addr_of : ℕ → ℕ) (d : Dhcp) (nif : ℕ) (allocated : Bool) (req : Bytes) (tot_len : ℕ)
      (w : Which) (from : scope_for d nif ≡ some w) where
    abbrev sid : ℕ
    sid = addr_of (scope d w).nif

    abbrev served : Served
    served = serve htonl htons d w sid allocated req tot_len

    abbrev is_refused : Bool
    is_refused =
        (scope d w).lease_addr == 0
        || ltb tot_len (header_size + 3)
        || not (is_boot_request htonl htons req)

    abbrev kind_asked : Option ReplyType
    kind_asked =
        classify (scope d w) req (min tot_len 600 - header_size)
          (request_opt req tot_len opt_msg_type)

    abbrev Outcome : Served → Type 0
    Outcome r =
        ((r ≡ record { state = d; reply = none }) × Ignorable d nif allocated req tot_len)
        ⊎ Replied addr_of d nif req tot_len r

    answered :
        (kind : ReplyType)
        → is_refused ≡ false
        → kind_asked ≡ some kind
        → Replied addr_of d nif req tot_len (record {
          state = if is_ack kind then set_scope d w (record (scope d w) { leased = true }) else d;
          reply = some (build_reply htonl htons (scope d w) sid req kind);
        })
    answered kind good is =
        let (mt, at, asks) =
          classify-some (scope d w) req (min tot_len 600 - header_size)
            (request_opt req tot_len opt_msg_type) is in
        record {
          which = w;
          kind = kind;
          mt = mt;
          long = ground (arith, good);
          op_is = ground (arith, good);
          htype_is = ground (arith, good);
          hlen_is = ground (arith, good);
          magic_is = ground (arith, good);
          came_from = from;
          in_use = ground (arith, good);
          typed = at;
          asked = asks;
          reply = build_reply htonl htons (scope d w) sid req kind;
          granted = reply-granted (scope d w) sid req kind;
          refused = reply-refused (scope d w) sid req kind;
          xid_is = reply-xid (scope d w) sid req kind;
          sent = refl;
          reply_is = refl;
          state_is = refl;
        }

    untyped-Ignorable : kind_asked ≡ none → Ignorable d nif allocated req tot_len
    untyped-Ignorable e =
        let found = request_opt req tot_len opt_msg_type in
        inr (w, from, inr (inr (inr (inl (classify-none (scope d w) req tot_len found refl e)))))

    good-Outcome : is_refused ≡ false → Outcome served
    unfolding serve
    good-Outcome good = elim (answer-cases d w sid allocated req (min tot_len 600) kind_asked) [
      | inl (ignored, inl untyped) ↦ rw good (inl (ignored, untyped-Ignorable untyped))
      | inl (ignored, inr full) ↦ rw good (inl (ignored, inr (w, from, inr (inr (inr (inr full))))))
      | inr (kind, is, e) ↦ rw (good, e) (inr (answered kind good is))
    ]

    served-Outcome : Outcome served
    unfolding serve
    served-Outcome = elim (Bool-cases is_refused) [
      | inl bad ↦ rw bad (inl (refl, inr (w, from, ground (arith, bad))))
      | inr good ↦ good-Outcome good
    ]

  -- A datagram is ignored with the state as it was, for no scope in use is on its interface, it has
  -- fewer than 243 bytes, is no boot request (op 1, hardware type 1, address length 6 and the options'
  -- magic), has no type that gets a reply, or there is no buffer; or it is answered: it has 243 bytes
  -- or more and is a boot request, it came in on the interface of a scope in use, an offer answers a
  -- discovery, and an acknowledgement or a refusal answers a request, by whether the address asked
  -- for is the lease's or none. The reply repeats the request's transaction and gives the lease's
  -- address, or 0 in a refusal. Only an acknowledgement marks the scope as leased, and the other
  -- scope stays as it was.
  pub dhcp_recv-Replied :
      (addr_of : ℕ → ℕ) (d : Dhcp) (nif : ℕ) (allocated : Bool) (req : Bytes) (tot_len : ℕ)
      → ((dhcp_recv htonl htons addr_of d nif allocated req tot_len
            ≡ record { state = d; reply = none })
          × Ignorable d nif allocated req tot_len)
        ⊎ Replied addr_of d nif req tot_len
            (dhcp_recv htonl htons addr_of d nif allocated req tot_len)
  unfolding dhcp_recv recv_on
  dhcp_recv-Replied addr_of d nif allocated req tot_len = elim (Option-cases (scope_for d nif)) [
    | inl nowhere ↦ rw nowhere (inl (refl, inl refl))
    | inr (w, from) ↦
        subst
          (λ o.
            Outcome addr_of d nif allocated req tot_len w from
              (recv_on htonl htons addr_of d allocated req tot_len o))
          (sym from) (served-Outcome addr_of d nif allocated req tot_len w from)
  ]
