-- ===== src/SerialBridge/Framing.antt =====
-- The framing of src/serial_bridge.c: what it doubles on the way out it reads back on the way in.
use molewire.Base.{
  ℕ, ◌≡◌, refl, sym, ap, true, false, Bool-cases, inl, inr, Option, none, some, List, [], ◌∷◌, ◌++◌,
  ◌==◌, ==_iff,
}
use molewire.SerialBridge.State.{TnState, t_data, t_iac, Bridge, Env}
use molewire.SerialBridge.Telnet.{tn_iac, to_state, tn_step, tn_process}
use molewire.SerialBridge.Line.{escaped}

-- A byte of data in front, if there is one.
abbrev pub prepend : Option ℕ → List ℕ → List ℕ
prepend none xs = xs
prepend (some x) xs = x ∷ xs

-- A run of the telnet layer, with the data that it returns.
unfoldable pub receive : Env → List ℕ → Bridge → Bridge × List ℕ
receive e [] b = (b, [])
receive e (x ∷ xs) b =
    let r = tn_process e x b in let s = receive e xs r.0 in (s.0, prepend r.1 s.1)

-- What `fan_out` writes to a telnet client.
unfoldable pub encode : List ℕ → List ℕ
encode [] = []
encode (x ∷ xs) = escaped true x ++ encode xs

module _ (e : Env) (b : Bridge) where
  tn_process-plain :
      (x : ℕ) → b.tn.tn_state ≡ t_data → (x == tn_iac) ≡ false → tn_process e x b ≡ (b, some x)
  unfolding tn_process tn_step
  tn_process-plain x h k = rw (h, k) refl

  tn_process-first : b.tn.tn_state ≡ t_data → tn_process e tn_iac b ≡ (to_state t_iac b, none)
  unfolding tn_process tn_step
  tn_process-first h = rw h refl

  tn_process-second : tn_process e tn_iac (to_state t_iac b) ≡ (to_state t_data b, some tn_iac)
  unfolding tn_process tn_step
  tn_process-second = refl

to_state-same : (b : Bridge) (s : TnState) → b.tn.tn_state ≡ s → to_state s b ≡ b
to_state-same b s h = ap (λ t. to_state t b) (sym h)

-- The telnet layer reads the encoding of any bytes back as those bytes, and is left as it was.
pub receive-encode :
    (e : Env) (xs : List ℕ) (b : Bridge)
    → b.tn.tn_state ≡ t_data
    → receive e (encode xs) b ≡ (b, xs)
unfolding receive encode escaped
receive-encode e [] b h = refl
receive-encode e (x ∷ xs) b h = elim (Bool-cases (x == tn_iac)) [
  | inl same ↦
      let doubled = (==_iff x tn_iac).0 same in
      rw
        (
          doubled,
          tn_process-first e b h,
          tn_process-second e b,
          to_state-same b t_data h,
          receive-encode e xs b h,
        )
        refl
  | inr plain ↦ rw (plain, tn_process-plain e b x h plain, receive-encode e xs b h) refl
]
