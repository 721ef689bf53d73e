-- ===== src/Vnc/Messages/Safety.antt =====
-- What the message loop does on any input.
use dracd.Common.{
  not, Bool, if-ind, ℕ, zero, suc, ◌<◌, ◌≤◌, ◌≢◌, List, [], ◌∷◌, Outcome, ok, panics, arith, length,
  length-drop-le, ◌==◌, if◌then◌else◌,
}
use dracd.Vnc.Messages.{
  proceed, Session, Action, Round, out_of_fuel, set_pixel_format, read_pixel_format, read_key_event,
  read_mouse_event, read_count, skip_encodings, set_encodings, update_request, with_rest, key_event,
  mouse_event, dispatch, client_loop,
}
use dracd.Vnc.PixelFmt
use dracd.Vnc.PixelFmt.{PixelFmt}
use dracd.Vnc.Reader.Length
use dracd.Vnc.Reader.Length.{Shrinks}
use dracd.Vnc.Reader.{Input, read_u32}

-- A round leaves no more to read than it was given.
abbrev RoundShrinks : Round → Input → Type 0
RoundShrinks (ok (_, _, rest)) input = length rest ≤ length input
RoundShrinks (panics p) input = Unit

skip_encodings-le : (count : ℕ) (input : Input) → length (skip_encodings count input) ≤ length input
unfolding skip_encodings
skip_encodings-le zero input = omega arith
skip_encodings-le (suc count) input =
    omega (arith, skip_encodings-le count (read_u32 0 input).1, Length.read_u32-le 0 input)

read_pixel_format-Shrinks : (pf : PixelFmt) → Shrinks (read_pixel_format pf)
unfolding read_pixel_format PixelFmt.read
read_pixel_format-Shrinks pf = search Length.rules depth 40 fits 100000

read_key_event-Shrinks : Shrinks read_key_event
unfolding read_key_event
read_key_event-Shrinks = search Length.rules depth 12

read_mouse_event-Shrinks : Shrinks read_mouse_event
unfolding read_mouse_event
read_mouse_event-Shrinks = search Length.rules depth 12

read_count-Shrinks : Shrinks read_count
unfolding read_count
read_count-Shrinks = search Length.rules depth 12

set_pixel_format-le : (s : Session) (input : Input) → RoundShrinks (set_pixel_format s input) input
unfolding set_pixel_format
set_pixel_format-le s input = (read_pixel_format-Shrinks s.pf).le input

set_encodings-le : (s : Session) (input : Input) → RoundShrinks (set_encodings s input) input
unfolding set_encodings
set_encodings-le s input = omega (
  arith,
  skip_encodings-le (read_count input).0 (read_count input).1,
  read_count-Shrinks.le input,
)

with_rest-le :
    (s : Session) (r : Outcome (List Action)) (rest input : Input)
    → length rest ≤ length input
    → RoundShrinks (with_rest s r rest) input
unfolding with_rest
with_rest-le s (ok actions) rest input h = h
with_rest-le s (panics p) rest input h = tt

key_event-le : (s : Session) (input : Input) → RoundShrinks (key_event s input) input
unfolding key_event
key_event-le s input =
    with_rest-le s _ (read_key_event input).1 input (read_key_event-Shrinks.le input)

mouse_event-le : (s : Session) (input : Input) → RoundShrinks (mouse_event s input) input
unfolding mouse_event
mouse_event-le s input =
    if-ind (λ r. RoundShrinks r input) (not ((read_mouse_event input).0.0 == s.old_button_mask))
      (read_mouse_event-Shrinks.le input) (read_mouse_event-Shrinks.le input)

dispatch-le : (cmd : ℕ) (s : Session) (input : Input) → RoundShrinks (dispatch cmd s input) input
unfolding dispatch update_request
dispatch-le cmd s input = either (cmd == 0) _ _ (set_pixel_format-le s input) (
    either (cmd == 2) _ _ (set_encodings-le s input) (
      either (cmd == 3) _ _ (length-drop-le 9 input) (
        either (cmd == 4) _ _ (key_event-le s input)
          (either (cmd == 5) _ _ (mouse_event-le s input) (omega arith)))))
  where
    either :
        (b : Bool) (x y : Round)
        → RoundShrinks x input
        → RoundShrinks y input
        → RoundShrinks (if b then x else y) input
    either b x y = if-ind (λ r. RoundShrinks r input) b

-- With more fuel than bytes to read, the message loop ends: by the end of the input, or by a panic.
pub client_loop_ends :
    (fuel : ℕ) (s : Session) (input : Input)
    → length input < fuel
    → (client_loop fuel s input).1 ≢ out_of_fuel
unfolding client_loop
client_loop_ends zero s input h = elim h [ ]
client_loop_ends (suc fuel) s [] h = λ e. cc
client_loop_ends (suc fuel) s (cmd ∷ input) h =
    go (dispatch cmd s input) (dispatch-le cmd s input)
      λ s' rest le. client_loop_ends fuel s' rest (omega arith)
  where
    go :
        (r : Round)
        → RoundShrinks r input
        → ((s' : Session) (rest : Input)
            → length rest ≤ length input
            → (client_loop fuel s' rest).1 ≢ out_of_fuel)
        → (proceed (client_loop fuel) r).1 ≢ out_of_fuel
    go (panics p) _ ends = λ e. cc
    go (ok (s', actions, rest)) le ends = ends s' rest le
