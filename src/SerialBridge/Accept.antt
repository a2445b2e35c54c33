-- ===== src/SerialBridge/Accept.antt =====
-- Who may use the party line of src/serial_bridge.c.
use molewire.Base.{
  ℕ, ◌≡◌, ◌≢◌, refl, arith, Bool, true, false, Bool-cases, ◌⊎◌, inl, inr, Option, none, some,
}
use molewire.SerialBridge.State.{Bridge}
use molewire.SerialBridge.Telnet.{is_some}
use molewire.SerialBridge.Tcp.{bridge_accept, Err, err_ok}

-- The connection is there and came in by the USB link or the tunnel, and the line was free; now it
-- is the client, with telnet as the port says. Or one of these is not so, and nothing changed.
pub data Admission (telnet : Bool) (pcb : Option ℕ) (ok from_usb from_wg : Bool) (b : Bridge)
    (r : Bridge × Err) : Type 0 where
  admitted :
      is_some pcb ≡ true
      → ok ≡ true
      → (from_usb ≡ true) ⊎ (from_wg ≡ true)
      → b.client ≡ none
      → r.1 ≡ err_ok
      → r.0.client ≡ pcb
      → r.0.telnet_mode ≡ telnet
      → Admission telnet pcb ok from_usb from_wg b r
  refused :
      (is_some pcb ≡ false)
        ⊎ ((ok ≡ false) ⊎ (((from_usb ≡ false) × (from_wg ≡ false)) ⊎ (is_some b.client ≡ true)))
      → r.1 ≢ err_ok
      → r.0 ≡ b
      → Admission telnet pcb ok from_usb from_wg b r

none_of : (o : Option ℕ) → is_some o ≡ false → o ≡ none
none_of none h = refl
none_of (some c) h = absurd (ground arith)

-- A connection is taken exactly if it is there without an error, came in by the USB link or the
-- tunnel, and no other client holds the line; it is refused with the state as it was.
pub bridge_accept-Admission :
    (telnet : Bool) (pcb : Option ℕ) (ok from_usb from_wg : Bool) (b : Bridge)
    → Admission telnet pcb ok from_usb from_wg b (bridge_accept telnet pcb ok from_usb from_wg b)
unfolding bridge_accept
bridge_accept-Admission telnet none ok u w b = refused (inl refl) (ground arith) refl
bridge_accept-Admission telnet (some p) false u w b = refused (inr (inl refl)) (ground arith) refl
bridge_accept-Admission telnet (some p) true false false b =
    refused (inr (inr (inl (refl, refl)))) (ground arith) refl
bridge_accept-Admission telnet (some p) true true w b = elim (Bool-cases (is_some b.client)) [
  | inl busy ↦ rw busy (refused (inr (inr (inr busy))) (ground arith) refl)
  | inr free ↦ rw free (admitted refl refl (inl refl) (none_of b.client free) refl refl refl)
]
bridge_accept-Admission telnet (some p) true false true b = elim (Bool-cases (is_some b.client)) [
  | inl busy ↦ rw busy (refused (inr (inr (inr busy))) (ground arith) refl)
  | inr free ↦ rw free (admitted refl refl (inr refl) (none_of b.client free) refl refl refl)
]
