-- ===== src/SerialConsole/Laws.antt =====
-- What the console of src/serial_console.c keeps, and which line it hands on.
use molewire.Base.{
  ◌-◌, ◌≤◌, ◌≡◌, refl, sym, subst, arith, Bool, true, false, not, ◌&&◌, ◌||◌, List, [], ◌∷◌, ◌++◌,
  length, length-append, ltb, leb, ◌==◌, if◌then◌else◌,
}
use molewire.ConfigProto.Text.{Libraries}
use molewire.ConfigProto.Stored.{IsStored, length-take}
use molewire.ConfigProto.Console.{
  say_text, Console, Answers, does, wifi_scan_start, wifi_scan_again, wifi_scan_poll, poll_live,
  poll_finish, poll_pass, config_proto_reset, config_proto_scanning, config_proto_poll,
  config_proto_contscan_active, config_proto_contscan_stop,
}
use molewire.ConfigProto.MenuLaws.{AreSound, config_proto_handle_line-form}
use molewire.SerialConsole.Task.{
  Terminal, line_max, Typed, console_prompt, console_banner, end_line, erase, type_char, type_all,
  greet, is_pending, identify, poll_scan, read_input, serial_console_task,
}

-- The configuration has its form and the line fits its buffer.
pub record IsKept (t : Terminal) : Type 0 where
  pub form : IsStored t.console.cfg
  pub fits : length t.line_buf ≤ line_max

config_proto_poll-cfg : (a : Answers) (k : Console) → (config_proto_poll a k).cfg ≡ k.cfg
unfolding config_proto_poll poll_live poll_pass poll_finish wifi_scan_poll wifi_scan_again
    wifi_scan_start
config_proto_poll-cfg a k = ground arith

config_proto_reset-cfg : (k : Console) → (config_proto_reset k).cfg ≡ k.cfg
unfolding config_proto_reset
config_proto_reset-cfg k = ground arith

if_IsKept : (b : Bool) (t u : Terminal) → IsKept t → IsKept u → IsKept (if b then t else u)
if_IsKept true t u h k = h
if_IsKept false t u h k = k

end_line-IsKept :
    (lib : Libraries) (a : Answers) (t : Terminal)
    → AreSound a
    → IsKept t
    → IsKept (end_line lib a t)
unfolding end_line console_prompt
end_line-IsKept lib a t sound h = record {
  form =
      config_proto_handle_line-form a sound lib t.line_buf
        (does (say_text (13 ∷ 10 ∷ []) ∷ []) t.console) h.form;
  fits = omega arith;
}

erase-IsKept : (t : Terminal) → IsKept t → IsKept (erase t)
unfolding erase
erase-IsKept t h =
    let f = h.fits in
    if_IsKept (ltb 0 (length t.line_buf)) _ _
      (record {
        form = h.form;
        fits = omega (arith, length-take (length t.line_buf - 1) t.line_buf);
      })
      h

type_char-IsKept :
    (lib : Libraries) (c : Typed) (t : Terminal)
    → AreSound c.answers
    → IsKept t
    → IsKept (type_char lib c t)
unfolding type_char
type_char-IsKept lib c t sound h =
    if_IsKept (c.ch == 10 || c.ch == 13) _ _ (end_line-IsKept lib c.answers t sound h) (
      if_IsKept (c.ch == 8 || c.ch == 127) _ _ (erase-IsKept t h)
        (room (leb 32 c.ch && ltb c.ch 127) (ltb (length t.line_buf) line_max) refl))
  where
    room :
        (b more : Bool)
        → ltb (length t.line_buf) line_max ≡ more
        → IsKept (
            if b && more
            then record t {
              line_buf = t.line_buf ++ c.ch ∷ [];
              console = does (say_text (c.ch ∷ []) ∷ []) t.console;
            }
            else t)
    room true true e = record {
      form = h.form;
      fits = (let l = length-append t.line_buf (c.ch ∷ []) in ground arith);
    }
    room true false e = h
    room false more e = h

-- Every answer that comes with a character fits the form.
abbrev pub AreAllSound : List Typed → Type 0
AreAllSound [] = Unit {0}
AreAllSound (c ∷ cs) = AreSound c.answers × AreAllSound cs

type_all-IsKept :
    (lib : Libraries) (cs : List Typed) (t : Terminal)
    → AreAllSound cs
    → IsKept t
    → IsKept (type_all lib cs t)
unfolding type_all
type_all-IsKept lib [] t sound h = h
type_all-IsKept lib (c ∷ cs) t (s, rest) h =
    type_all-IsKept lib cs (type_char lib c t) rest (type_char-IsKept lib c t s h)

greet-IsKept : (b : Bool) (t : Terminal) → IsKept t → IsKept (greet b t)
unfolding greet console_prompt
greet-IsKept b t h =
    if_IsKept (b && not t.was_connected) _ _
      (record {
        form = subst IsStored (sym (config_proto_reset-cfg t.console)) h.form;
        fits = omega arith;
      })
      (if_IsKept (not b && t.was_connected) _ _
        (record {
          form = subst IsStored (sym (config_proto_reset-cfg t.console)) h.form;
          fits = h.fits;
        })
        h)

identify-IsKept : (input : List Typed) (t : Terminal) → IsKept t → IsKept (identify input t)
unfolding identify console_banner
identify-IsKept input t h =
    if_IsKept (not t.banner_sent && is_pending input) _ _ (record { form = h.form; fits = h.fits })
      h

poll_scan-IsKept : (a : Answers) (b : Bool) (t : Terminal) → IsKept t → IsKept (poll_scan a b t)
unfolding poll_scan
poll_scan-IsKept a b t h =
    if_IsKept (b && config_proto_scanning t.console) _ _
      (record {
        form = subst IsStored (sym (config_proto_poll-cfg a t.console)) h.form;
        fits = h.fits;
      })
      h

read_input-IsKept :
    (lib : Libraries) (input : List Typed) (t : Terminal)
    → AreAllSound input
    → IsKept t
    → IsKept (read_input lib input t)
unfolding read_input console_prompt config_proto_contscan_stop
read_input-IsKept lib input t sound h =
    if_IsKept (config_proto_contscan_active t.console) _ _
      (if_IsKept (is_pending input) _ _ (record { form = h.form; fits = omega arith }) h)
      (type_all-IsKept lib input t sound h)

-- A call of `serial_console_task`, with whatever characters and whether or not a terminal is there,
-- leaves a configuration in its form in its form, and a line that fits its buffer, if a configuration
-- that is loaded has that form and a new private key has 45 characters at most.
pub serial_console_task-IsKept :
    (lib : Libraries) (a : Answers) (connected : Bool) (input : List Typed) (t : Terminal)
    → AreAllSound input
    → IsKept t
    → IsKept (serial_console_task lib a connected input t)
unfolding serial_console_task
serial_console_task-IsKept lib a connected input t sound h =
    let g = greet-IsKept connected t h in
    let u : Terminal = record (greet connected t) { was_connected = connected } in
    read_input-IsKept lib input (poll_scan a connected (identify input u)) sound (
      poll_scan-IsKept a connected (identify input u)
        (identify-IsKept input u (record { form = g.form; fits = g.fits })))
