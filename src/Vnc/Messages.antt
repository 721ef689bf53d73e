-- ===== src/Vnc/Messages.antt =====
-- The message loop of handleVncConnection: the client's commands, read one by one until the input
-- ends, and what each makes the server do. The loop runs on fuel; each round takes a byte at least.
pub mod Safety
pub mod Client
pub mod Keys
use dracd.Common.{
  ℕ, zero, suc, List, [], ◌∷◌, ◌++◌, ℤ, pos, negsuc, Outcome, ok, panics, Panic, ◌==◌, not,
  if◌then◌else◌,
}
use dracd.Keymap.{usb_keycode}
use dracd.Vnc.PixelFmt
use dracd.Vnc.PixelFmt.{PixelFmt}
use dracd.Vnc.Reader.{Input, Read, pure, ◌>>=◌, ◌>>◌, skip_byte, skip, read_u8, read_u16, read_u32}

-- The state of the loop: clientCtx.pf and oldButtonMask.
pub record Session : Type 0 where
  pub pf : PixelFmt
  pub old_button_mask : ℕ

-- The calls that a message makes: sendKey, sendMouse, and a signal on sendVideoChannel.
pub data Action : Type 0 where
  send_key : (keycode down : ℕ) → Action
  send_mouse : (x y mask event : ℕ) → Action
  request_update : Action

-- A round comes to a new state, the calls that it made, and what is left to read.
abbrev pub Round : Type 0
Round = Outcome (Session × List Action × Input)

read_pixel_format : PixelFmt → Read PixelFmt
read_pixel_format old = do skip_byte; skip_byte; skip_byte; PixelFmt.read old

set_pixel_format : Session → Input → Round
set_pixel_format s input =
    let (pf, rest) = read_pixel_format s.pf input in ok (record s { pf = pf }, [], rest)

-- `for ; count > 0; count--`: each encoding is read and only logged.
skip_encodings : ℕ → Input → Input
skip_encodings zero input = input
skip_encodings (suc count) input = skip_encodings count (read_u32 0 input).1

read_count : Read ℕ
read_count = do skip_byte; read_u16 0

set_encodings : Session → Input → Round
set_encodings s input =
    let (count, rest) = read_count input in ok (s, [], skip_encodings count rest)

update_request : Session → Input → Round
update_request s input = ok (s, request_update ∷ [], (skip 9 input).1)

-- `if usbkeycode >= 0 { sendKey(...) }`
press : Outcome ℤ → ℕ → Outcome (List Action)
press (ok (pos code)) down = ok (send_key code down ∷ [])
press (ok (negsuc _)) down = ok []
press (panics p) down = panics p

with_rest : Session → Outcome (List Action) → Input → Round
with_rest s (ok actions) rest = ok (s, actions, rest)
with_rest s (panics p) rest = panics p

-- downFlag and key.
read_key_event : Read (ℕ × ℕ)
read_key_event = do down ← read_u8 0; _ ← read_u16 0; key ← read_u32 0; pure (down, key)

key_event : Session → Input → Round
key_event s input =
    let ((down, key), rest) = read_key_event input in
    with_rest s (press (usb_keycode key) down) rest

-- buttonMask, xpos and ypos.
read_mouse_event : Read (ℕ × ℕ × ℕ)
read_mouse_event = do mask ← read_u8 0; x ← read_u16 0; y ← read_u16 0; pure (mask, x, y)

mouse_event : Session → Input → Round
mouse_event s input =
    let ((mask, x, y), rest) = read_mouse_event input in
    if not (mask == s.old_button_mask)
    then ok (record s { old_button_mask = mask }, send_mouse x y mask 1 ∷ [], rest)
    else ok (s, send_mouse x y mask 0 ∷ [], rest)

-- `switch cmd`; a command of another number is only logged.
pub dispatch : ℕ → Session → Input → Round
dispatch cmd s input =
    if cmd == 0
    then set_pixel_format s input
    else if cmd == 2
    then set_encodings s input
    else if cmd == 3
    then update_request s input
    else if cmd == 4
    then key_event s input
    else if cmd == 5
    then mouse_event s input
    else ok (s, [], input)

-- How the loop ends.
pub data End : Type 0 where
  closed : Session → End
  panicked : Panic → End
  out_of_fuel : End

-- The loop after a round: it goes on with the calls that the round made in front, or has panicked.
abbrev pub proceed : (Session → Input → List Action × End) → Round → List Action × End
proceed loop (panics p) = ([], panicked p)
proceed loop (ok (s, actions, rest)) = let (more, end) = loop s rest in (actions ++ more, end)

pub client_loop : ℕ → Session → Input → List Action × End
client_loop zero s input = ([], out_of_fuel)
client_loop (suc fuel) s [] = ([], closed s)
client_loop (suc fuel) s (cmd ∷ input) = proceed (client_loop fuel) (dispatch cmd s input)
