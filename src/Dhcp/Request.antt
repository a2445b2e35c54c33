-- ===== src/Dhcp/Request.antt =====
-- What the receive handler of src/dhcp_server.c reads of a request's options.
use molewire.Base.{
  ℕ, ◌+◌, ◌-◌, ◌≡◌, ◌≢◌, ◌⊎◌, inl, inr, refl, arith, Bool-cases, Option, none, some, min, ◌||◌,
  ◌==◌, if◌then◌else◌, Bytes, word_at,
}
use molewire.Dhcp.Options.{opt_msg_type, opt_requested_ip, find_opt}
use molewire.Dhcp.Server.{
  header_size, Scope, ReplyType, offer, ack, nak, reply_type, wanted, classify,
}

-- The message type asks for a reply of this kind.
abbrev pub Asks : ℕ → ℕ → ℕ → ReplyType → Type 0
Asks lease_addr msg_type want kind =
    ((msg_type ≡ 1) × (kind ≡ offer))
    ⊎ ((msg_type ≡ 3) × (kind ≡ (if want == 0 || want == lease_addr then ack else nak)))

reply_type-Asks :
    (lease_addr msg_type want : ℕ) {kind : ReplyType}
    → reply_type lease_addr msg_type want ≡ some kind
    → Asks lease_addr msg_type want kind
unfolding reply_type
reply_type-Asks lease_addr msg_type want e = ground arith

-- The options of a request of `tot_len` bytes, and the address that it asks for.
abbrev pub request_opt : Bytes → ℕ → ℕ → Option ℕ
request_opt req tot_len code =
    find_opt (λ i. req (header_size + i)) (min tot_len 600 - header_size) code

abbrev pub asked_for : Bytes → ℕ → ℕ
asked_for req tot_len = wanted req (word_at req 12) (request_opt req tot_len opt_requested_ip)

-- There is no message type, or one that gets no reply.
abbrev pub Untyped : Bytes → ℕ → Type 0
Untyped req tot_len =
    (request_opt req tot_len opt_msg_type ≡ none)
    ⊎ ((mt : ℕ) × (request_opt req tot_len opt_msg_type ≡ some mt)
        × ((req (header_size + mt) ≢ 1)
            ⊎ ((req (header_size + (mt + 1)) ≢ 1) × (req (header_size + (mt + 1)) ≢ 3))))

pub classify-none :
    (s : Scope) (req : Bytes) (tot_len : ℕ) (found : Option ℕ)
    → request_opt req tot_len opt_msg_type ≡ found
    → classify s req (min tot_len 600 - header_size) found ≡ none
    → Untyped req tot_len
unfolding classify reply_type
classify-none s req tot_len none is e = inl is
classify-none s req tot_len (some mt) is e = inr (mt, is, ground (arith, e))

pub classify-some :
    (s : Scope) (req : Bytes) (optlen : ℕ) (found : Option ℕ) {kind : ReplyType}
    → classify s req optlen found ≡ some kind
    → (mt : ℕ) × (found ≡ some mt)
      × Asks s.lease_addr
          (req (header_size + (mt + 1)))
          (wanted req
            (word_at req 12)
            (find_opt (λ i. req (header_size + i)) optlen opt_requested_ip))
          kind
unfolding classify
classify-some s req optlen none e = cc
classify-some s req optlen (some mt) {kind} e =
    let want =
      wanted req (word_at req 12) (find_opt (λ i. req (header_size + i)) optlen opt_requested_ip) in
    elim (Bool-cases (req (header_size + mt) == 1)) [
      | inl one ↦ (
        mt,
        refl,
        reply_type-Asks s.lease_addr (req (header_size + (mt + 1))) want ((rw one at e)),
      )
      | inr other ↦ absurd (ground (arith, e, other))
    ]
