-- ===== src/SerialBridge/Subnegotiation.antt =====
-- The COM port control of src/serial_bridge.c: its answers parse, and a request sets what it names.
use molewire.Base.{
  ℕ, ◌+◌, ◌-◌, ◌*◌, ◌%◌, ◌≤◌, ◌<◌, ◌≡◌, ◌≢◌, refl, sym, ap, ◌∙◌, arith, false, Bool-cases, inl, inr,
  Option, none, some, List, [], ◌∷◌, ◌++◌, length, length-append, ltb, lt→ltb, ◌==◌, ==_iff,
  if◌then◌else◌,
}
use mathlib.Core.List.{append-nil, append_assoc}
use molewire.SerialBridge.State.{t_data, t_sb, t_sb_iac, Bridge, Env}
use molewire.SerialBridge.Telnet.{
  tn_iac, tn_sb, tn_se, tnopt_comport, sb_max, to_state, collect, tn_step, tn_process, ack_body,
  ack_frame,
}
use molewire.SerialBridge.Line.{escaped}
use molewire.SerialBridge.Framing.{receive, encode, prepend}

pub receive-append :
    (e : Env) (xs ys : List ℕ) (b : Bridge)
    → receive e (xs ++ ys) b
      ≡ (let r = receive e xs b in let s = receive e ys r.0 in (s.0, r.1 ++ s.1))
unfolding receive
receive-append e [] ys b = refl
receive-append e (x ∷ xs) ys b = rw (receive-append e xs ys (tn_process e x b).0) (
    let r = receive e xs (tn_process e x b).0 in
    ap (λ t. ((receive e ys r.0).0, t)) (prepended (tn_process e x b).1 r.1 (receive e ys r.0).1))
  where
    prepended : (o : Option ℕ) (us vs : List ℕ) → prepend o (us ++ vs) ≡ prepend o us ++ vs
    prepended none us vs = refl
    prepended (some x) us vs = refl

-- Bytes more in the buffer of the subnegotiation.
abbrev pub collected : List ℕ → Bridge → Bridge
collected xs b = record b { tn = record b.tn { sb_buf = b.tn.sb_buf ++ xs } }

module _ (e : Env) (b : Bridge) where
  tn_process-collect :
      (x : ℕ)
      → b.tn.tn_state ≡ t_sb
      → (x == tn_iac) ≡ false
      → length b.tn.sb_buf < sb_max
      → tn_process e x b ≡ (collected (x ∷ []) b, none)
  unfolding tn_process tn_step collect
  tn_process-collect x h k n = rw (h, k, lt→ltb (length b.tn.sb_buf) 24 n) refl

  tn_process-sb_first : b.tn.tn_state ≡ t_sb → tn_process e tn_iac b ≡ (to_state t_sb_iac b, none)
  unfolding tn_process tn_step
  tn_process-sb_first h = rw h refl

  tn_process-sb_second :
      b.tn.tn_state ≡ t_sb
      → length b.tn.sb_buf < sb_max
      → tn_process e tn_iac (to_state t_sb_iac b) ≡ (collected (tn_iac ∷ []) b, none)
  unfolding tn_process tn_step collect
  tn_process-sb_second h n = rw (lt→ltb (length b.tn.sb_buf) 24 n) (
      ap
        (λ u. (
          record b { tn = record b.tn { tn_state = u; sb_buf = b.tn.sb_buf ++ tn_iac ∷ [] } },
          none,
        ))
        (sym h))

collected-collected :
    (b : Bridge) (xs ys : List ℕ)
    → ◌≡◌ {A = Bridge × List ℕ} (collected ys (collected xs b), []) (collected (xs ++ ys) b, [])
collected-collected b xs ys =
    ap (λ u. (record b { tn = record b.tn { sb_buf = u } }, [])) (append_assoc b.tn.sb_buf xs ys)

-- Inside a subnegotiation the encoding of bytes that fit is collected as those bytes.
pub receive-encode_sb :
    (e : Env) (xs : List ℕ) (b : Bridge)
    → b.tn.tn_state ≡ t_sb
    → length b.tn.sb_buf + length xs ≤ sb_max
    → receive e (encode xs) b ≡ (collected xs b, [])
unfolding receive encode escaped
receive-encode_sb e [] b h n =
    ap (λ u. (record b { tn = record b.tn { sb_buf = u } }, [])) (sym (append-nil b.tn.sb_buf))
receive-encode_sb e (x ∷ xs) b h n = elim (Bool-cases (x == tn_iac)) [
  | inl same ↦
      let doubled = (==_iff x tn_iac).0 same in
      rw
        (
          doubled,
          tn_process-sb_first e b h,
          tn_process-sb_second e b h (omega arith),
          receive-encode_sb e xs (collected (tn_iac ∷ []) b) h
              (omega (arith, length-append b.tn.sb_buf (tn_iac ∷ []))),
        )
        (collected-collected b (tn_iac ∷ []) xs)
  | inr plain ↦
      rw
        (
          plain,
          tn_process-collect e b x h plain (omega arith),
          receive-encode_sb e xs (collected (x ∷ []) b) h
              (omega (arith, length-append b.tn.sb_buf (x ∷ []))),
        )
        (collected-collected b (x ∷ []) xs)
]

ack_body-fits : (xs : List ℕ) (w : ℕ) → w ≤ 22 → w + length (ack_body w xs) ≤ 22
unfolding ack_body
ack_body-fits [] w h = omega arith
ack_body-fits (x ∷ xs) w h = ground (arith, ack_body-fits xs (w + (if x == tn_iac then 2 else 1)))

ack_body-prefix :
    (xs : List ℕ) (w : ℕ)
    → (shown rest : List ℕ) × (xs ≡ shown ++ rest)
      × (ack_body w xs ≡ encode shown)
      × (w + 2 * length xs ≤ 22 → rest ≡ [])
      × (length shown ≤ 22 - w)
unfolding ack_body encode escaped
ack_body-prefix [] w = ([], [], refl, refl, λ h. refl, omega arith)
ack_body-prefix (x ∷ xs) w = elim (Bool-cases (ltb w 21)) [
  | inl room ↦
      let (shown, rest, parts, body, all, few) =
        ack_body-prefix xs (w + (if x == tn_iac then 2 else 1)) in
      (x ∷ shown, rest, ap (λ t. x ∷ t) parts, ground arith, λ h. all (ground arith), ground arith)
  | inr full ↦ ([], x ∷ xs, refl, rw full refl, λ h. absurd (ground arith), omega arith)
]

-- The bytes of a subnegotiation for the COM port option, as far as its last.
abbrev pub opened : ℕ → List ℕ → List ℕ
opened code body = tn_iac ∷ tn_sb ∷ tnopt_comport ∷ code ∷ (body ++ tn_iac ∷ [])

-- The state in which the last byte of one is awaited.
abbrev pub awaiting_end : ℕ → List ℕ → Bridge → Bridge
awaiting_end code xs b = record b {
  tn = record b.tn { tn_state = t_sb_iac; sb_buf = tnopt_comport ∷ code ∷ xs };
}

-- The state with the option and the code collected.
abbrev collecting : ℕ → List ℕ → Bridge → Bridge
collecting code xs b = record b {
  tn = record b.tn { tn_state = t_sb; sb_buf = tnopt_comport ∷ code ∷ xs };
}

receive-begin :
    (e : Env) (code : ℕ) (body : List ℕ) (b : Bridge)
    → b.tn.tn_state ≡ t_data
    → (code == tn_iac) ≡ false
    → receive e (opened code body) b ≡ receive e (body ++ tn_iac ∷ []) (collecting code [] b)
unfolding receive tn_process tn_step collect
receive-begin e code body b h k = rw (h, k) refl

pub receive-opened :
    (e : Env) (code : ℕ) (xs : List ℕ) (b : Bridge)
    → b.tn.tn_state ≡ t_data
    → code ≢ tn_iac
    → length xs ≤ 22
    → receive e (opened code (encode xs)) b ≡ (awaiting_end code xs b, [])
unfolding receive
receive-opened e code xs b h k n =
    let plain : (code == tn_iac) ≡ false = ground arith in
    receive-begin e code (encode xs) b h plain
    ∙ receive-append e (encode xs) (tn_iac ∷ []) (collecting code [] b)
    ∙ rw
        (
          receive-encode_sb e xs (collecting code [] b) refl (omega arith),
          tn_process-sb_first e (collecting code xs b) refl,
        )
        refl

-- An answer of the COM port control fits its buffer; read by the telnet layer it is a subnegotiation
-- of the command's code plus 100 with a front part of the payload, all of it if it has nine bytes at
-- most, unless that code is 255.
pub ack_frame-parses :
    (e : Env) (cmd : ℕ) (payload : List ℕ) (b : Bridge)
    → b.tn.tn_state ≡ t_data
    → (cmd + 100) % 256 ≢ tn_iac
    → (shown rest : List ℕ) × (payload ≡ shown ++ rest)
      × (length payload ≤ 9 → rest ≡ [])
      × (length (ack_frame cmd payload) ≤ 24)
      × (ack_frame cmd payload ≡ opened ((cmd + 100) % 256) (encode shown) ++ tn_se ∷ [])
      × (receive e (opened ((cmd + 100) % 256) (encode shown)) b
          ≡ (awaiting_end ((cmd + 100) % 256) shown b, []))
unfolding ack_frame
ack_frame-parses e cmd payload b h k =
    let (shown, rest, parts, body, all, few) = ack_body-prefix payload 4 in
    (
      shown,
      rest,
      parts,
      λ n. all (omega arith),
      omega (
        arith,
        ack_body-fits payload 4,
        length-append (ack_body 4 payload) (tn_iac ∷ tn_se ∷ []),
      ),
      rw body (
          ap (λ t. tn_iac ∷ tn_sb ∷ tnopt_comport ∷ ((cmd + 100) % 256) ∷ t)
            (sym (append_assoc (encode shown) (tn_iac ∷ []) (tn_se ∷ [])))),
      receive-opened e ((cmd + 100) % 256) shown b h k (omega arith),
    )
