-- ===== src/Vnc/Messages/Keys.antt =====
-- The keys that the message loop sends on, whatever the client sends.
use dracd.Vnc.Messages.{
  read_mouse_event, Session, Action, Round, End, set_pixel_format, set_encodings, update_request,
  press, with_rest, key_event, mouse_event, dispatch, client_loop, proceed,
}
use dracd.Common.{
  not, ℕ, zero, suc, ◌<◌, ◌≡◌, refl, inl, inr, Bool, List, [], ◌∷◌, ◌++◌, ok, panics,
  index_out_of_range, ◌==◌, if◌then◌else◌, if-ind, All,
}
use dracd.Vnc.Reader.{Input}
use dracd.Vnc.Messages.Action.{send_key}
use dracd.Keymap.{usb_keycode}
use dracd.Keymap.Lookup.{usb_keycode-Answers, usb_keycode_255}
use native.Mathlib.Decide.{ℕ_discrete}

-- A call sends a scan code below 0xe7, if it sends a key.
abbrev pub IsKey : Action → Type 0
IsKey (send_key code down) = code < 0xe7
IsKey _ = Unit

abbrev RoundKeys : Round → Type 0
RoundKeys (ok (_, actions, _)) = All IsKey actions
RoundKeys (panics p) = p ≡ index_out_of_range

press-Keys :
    (s : Session) (key down : ℕ) (rest : Input)
    → RoundKeys (with_rest s (press (usb_keycode key) down) rest)
unfolding press with_rest
press-Keys s key down rest = elim (ℕ_discrete key 255) [
  | yes e ↦ rw (e, usb_keycode_255) refl
  | no ne ↦ elim (usb_keycode-Answers key ne) [
    | inl (n, small, e) ↦ rw e (small, tt)
    | inr e ↦ rw e tt
  ]
]

mouse_event-Keys : (s : Session) (input : Input) → RoundKeys (mouse_event s input)
unfolding mouse_event
mouse_event-Keys s input =
    if-ind RoundKeys (not ((read_mouse_event input).0.0 == s.old_button_mask)) (tt, tt) (tt, tt)

dispatch-Keys : (cmd : ℕ) (s : Session) (input : Input) → RoundKeys (dispatch cmd s input)
unfolding dispatch set_pixel_format set_encodings update_request key_event
dispatch-Keys cmd s input = either (cmd == 0) _ _ tt (
    either (cmd == 2) _ _ tt (
      either (cmd == 3) _ _ (tt, tt)
        (either (cmd == 4) _ _ (press-Keys s _ _ _)
          (either (cmd == 5) _ _ (mouse_event-Keys s input) tt))))
  where
    either : (b : Bool) (x y : Round) → RoundKeys x → RoundKeys y → RoundKeys (if b then x else y)
    either b x y = if-ind RoundKeys b

All-more :
    (P : Action → Type 0) (made more : List Action) → All P made → All P more → All P (made ++ more)
All-more P [] more holds later = later
All-more P (action ∷ made) more holds later = (holds.0, All-more P made more holds.1 later)

-- The loop ends in no panic but that of an index out of range.
abbrev pub OnlyIndex : End → Type 0
OnlyIndex (End.panicked p) = p ≡ index_out_of_range
OnlyIndex _ = Unit

-- On any input, every key that the loop sends on is a scan code below 0xe7, and the loop can panic
-- only by an index out of range.
pub client_loop-Keys :
    (fuel : ℕ) (s : Session) (input : Input)
    → All IsKey (client_loop fuel s input).0 × OnlyIndex (client_loop fuel s input).1
unfolding client_loop
client_loop-Keys zero s input = (tt, tt)
client_loop-Keys (suc fuel) s [] = (tt, tt)
client_loop-Keys (suc fuel) s (cmd ∷ input) =
    go (dispatch cmd s input) (dispatch-Keys cmd s input) (client_loop-Keys fuel)
  where
    go :
        (r : Round)
        → RoundKeys r
        → ((s' : Session) (rest : Input)
            → All IsKey (client_loop fuel s' rest).0 × OnlyIndex (client_loop fuel s' rest).1)
        → All IsKey (proceed (client_loop fuel) r).0 × OnlyIndex (proceed (client_loop fuel) r).1
    go (panics p) keys ih = (tt, keys)
    go (ok (s', actions, rest)) keys ih =
        (All-more IsKey actions _ keys (ih s' rest).0, (ih s' rest).1)
