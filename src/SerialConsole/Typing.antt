-- ===== src/SerialConsole/Typing.antt =====
-- Which line the console of src/serial_console.c hands to the protocol.
use molewire.Base.{
  ◌+◌, ◌≤◌, ◌<◌, ◌≡◌, ◌⊎◌, refl, sym, ap, ap₂, ◌∙◌, arith, true, ◌||◌, List, [], ◌∷◌, ◌++◌, length,
  length-append, ◌==◌,
}
use mathlib.Core.List.{append-nil, append_assoc}
use molewire.Config.Record.{CString}
use molewire.ConfigProto.Text.{Libraries}
use molewire.ConfigProto.Console.{Effect, say, say_text, does, config_proto_prompt}
use molewire.ConfigProto.Line.{config_proto_handle_line}
use molewire.SerialConsole.Task.{
  Terminal, line_max, Typed, console_prompt, end_line, type_char, type_all,
}

-- The characters, and what each puts on the screen.
abbrev pub chars : List Typed → CString
chars [] = []
chars (c ∷ cs) = c.ch ∷ chars cs

abbrev pub echoes : List Typed → List Effect
echoes [] = []
echoes (c ∷ cs) = say_text (c.ch ∷ []) ∷ echoes cs

abbrev pub ArePrintable : List Typed → Type 0
ArePrintable [] = Unit {0}
ArePrintable (c ∷ cs) = (32 ≤ c.ch) × (c.ch < 127) × ArePrintable cs

type_char-printable :
    (lib : Libraries) (c : Typed) (t : Terminal)
    → 32 ≤ c.ch
    → c.ch < 127
    → length t.line_buf < line_max
    → type_char lib c t ≡ record t {
      line_buf = t.line_buf ++ c.ch ∷ [];
      console = does (say_text (c.ch ∷ []) ∷ []) t.console;
    }
unfolding type_char
type_char-printable lib c t low high room = ground arith

-- With more in the line and on the screen.
abbrev pub with_typed : CString → List Effect → Terminal → Terminal
with_typed s es t = record t { line_buf = t.line_buf ++ s; console = does es t.console }

type_all-typed :
    (lib : Libraries) (cs rest : List Typed) (t : Terminal)
    → ArePrintable cs
    → length t.line_buf + length cs ≤ line_max
    → type_all lib (cs ++ rest) t ≡ type_all lib rest (with_typed (chars cs) (echoes cs) t)
unfolding type_all
type_all-typed lib [] rest t p room = ap (type_all lib rest) (
    ap₂ (λ s es. record t { line_buf = s; console = record t.console { effects = es } })
      (sym (append-nil t.line_buf)) (sym (append-nil t.console.effects)))
type_all-typed lib (c ∷ cs) rest t (low, high, p) room =
    let u = with_typed (c.ch ∷ []) (say_text (c.ch ∷ []) ∷ []) t in
    ap (type_all lib (cs ++ rest)) (type_char-printable lib c t low high (omega arith))
    ∙ type_all-typed lib cs rest u p (let l = length-append t.line_buf (c.ch ∷ []) in omega arith)
    ∙ ap (type_all lib rest) (
        ap₂ (λ s es. record t { line_buf = s; console = record t.console { effects = es } })
          (append_assoc t.line_buf (c.ch ∷ []) (chars cs))
          (append_assoc t.console.effects (say_text (c.ch ∷ []) ∷ []) (echoes cs)))

-- Printable characters typed at the start of a line, at most 191, and then a carriage return or a line
-- feed: the protocol handles just this text, after its echo, and the prompt follows on an empty line.
pub type_all-handles :
    (lib : Libraries) (cs : List Typed) (enter : Typed) (t : Terminal)
    → ArePrintable cs
    → length cs ≤ line_max
    → (enter.ch ≡ 10) ⊎ (enter.ch ≡ 13)
    → t.line_buf ≡ []
    → let u = type_all lib (cs ++ enter ∷ []) t in
      let k =
        config_proto_handle_line lib enter.answers
          (chars cs)
          (does (say_text (13 ∷ 10 ∷ []) ∷ []) (does (echoes cs) t.console)) in
      (u.console ≡ does (say (config_proto_prompt k) ∷ []) k) × (u.line_buf ≡ [])
unfolding type_all type_char end_line console_prompt
type_all-handles lib cs enter t p room ends empty =
    let typed = type_all-typed lib cs (enter ∷ []) t p (rw empty (omega arith)) in
    let is_enter : (enter.ch == 10 || enter.ch == 13) ≡ true = ground arith in
    rw (typed, is_enter, empty) (refl, refl)
