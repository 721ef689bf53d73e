-- ===== src/Vnc/Messages/Client.antt =====
-- A client of the RFB protocol: its messages as the protocol lays them out, and what they ask of the
-- server. The loop, given the bytes, does what the messages ask.
pub mod Requests
use dracd.Common.{
  length-append, ◌≤◌, ℤ, Outcome, ◌≢◌, pos, ℕ, zero, suc, ◌<◌, ◌^◌, ◌≡◌, refl, inl, inr, ap, ◌∙◌,
  ◌⊎◌, List, [], ◌∷◌, ◌++◌, ok, ◌==◌, if◌then◌else◌, All, length, arith,
}
use dracd.Common.Bytes.{be16, be32, of_be16-be16, of_be32-be32}
use dracd.Vnc.Reader.{Input}
use dracd.Vnc.PixelFmt
use dracd.Vnc.PixelFmt.{PixelFmt, InRange, read-write}
use dracd.Vnc.Messages.{
  Session, Action, send_key, send_mouse, Round, End, closed, set_pixel_format, read_pixel_format,
  skip_encodings, read_count, set_encodings, update_request, press, with_rest, read_key_event,
  key_event, read_mouse_event, mouse_event, dispatch, client_loop, proceed,
}
use dracd.Keymap.Lookup.{usb_keycode-Answers}
use dracd.Keymap.{usb_keycode}

pub data Message : Type 0 where
  pixel_format : PixelFmt → Message
  encodings : List ℕ → Message
  framebuffer_update : (incremental x y width height : ℕ) → Message
  key : (down keysym : ℕ) → Message
  pointer : (mask x y : ℕ) → Message

all_be32 : List ℕ → List ℕ
all_be32 [] = []
all_be32 (n ∷ ns) = be32 n ++ all_be32 ns

-- The layout of a message.
encode : Message → List ℕ
encode (pixel_format p) = 0 ∷ 0 ∷ 0 ∷ 0 ∷ PixelFmt.write p
encode (encodings es) = 2 ∷ 0 ∷ (be16 (length es) ++ all_be32 es)
encode (framebuffer_update incremental x y width height) =
    3 ∷ incremental ∷ (be16 x ++ (be16 y ++ (be16 width ++ be16 height)))
encode (key down keysym) = 4 ∷ down ∷ 0 ∷ 0 ∷ be32 keysym
encode (pointer mask x y) = 5 ∷ mask ∷ (be16 x ++ be16 y)

pub encode_all : List Message → List ℕ
encode_all [] = []
encode_all (m ∷ ms) = encode m ++ encode_all ms

length-encode : (m : Message) → 0 < length (encode m)
unfolding encode
length-encode (pixel_format p) = omega arith
length-encode (encodings es) = omega arith
length-encode (framebuffer_update incremental x y width height) = omega arith
length-encode (key down keysym) = omega arith
length-encode (pointer mask x y) = omega arith

-- A message has a byte at least.
pub length-encode_all : (ms : List Message) → length ms ≤ length (encode_all ms)
unfolding encode_all
length-encode_all [] = omega arith
length-encode_all (m ∷ ms) =
    omega (arith, length-encode m, length-encode_all ms, length-append (encode m) (encode_all ms))

-- The fields fit their widths, and the key symbol is not the one that the server panics on.
abbrev pub Fits : Message → Type 0
Fits (pixel_format p) = InRange p
Fits (encodings es) = length es < 2 ^ 16
Fits (framebuffer_update incremental x y width height) = Unit
Fits (key down keysym) = (keysym < 2 ^ 32) × (keysym ≢ 255)
Fits (pointer mask x y) = (x < 2 ^ 16) × (y < 2 ^ 16)

-- The calls for a key: one, if the key symbol has a scan code.
abbrev calls_of : Outcome ℤ → ℕ → List Action
calls_of (ok (pos code)) down = send_key code down ∷ []
calls_of _ down = []

abbrev presses : ℕ → ℕ → List Action
presses down keysym = calls_of (usb_keycode keysym) down

-- The calls that a message asks for, after the button mask of the pointer message before it.
abbrev pub asks : ℕ → Message → List Action
asks old (pixel_format p) = []
asks old (encodings es) = []
asks old (framebuffer_update incremental x y width height) = Action.request_update ∷ []
asks old (key down keysym) = presses down keysym
asks old (pointer mask x y) = send_mouse x y mask (if mask == old then 0 else 1) ∷ []

-- The session after a message.
abbrev accept : Session → Message → Session
accept s (pixel_format p) = record s { pf = p }
accept s (pointer mask x y) = record s { old_button_mask = mask }
accept s _ = s

unfoldable pub asks_all : Session → List Message → List Action
asks_all s [] = []
asks_all s (m ∷ ms) = asks s.old_button_mask m ++ asks_all (accept s m) ms

pub accept_all : Session → List Message → Session
accept_all s [] = s
accept_all s (m ∷ ms) = accept_all (accept s m) ms

skip_encodings-all_be32 :
    (es : List ℕ) (rest : Input) → skip_encodings (length es) (all_be32 es ++ rest) ≡ rest
unfolding skip_encodings all_be32
skip_encodings-all_be32 [] rest = refl
skip_encodings-all_be32 (e ∷ es) rest = skip_encodings-all_be32 es rest

with_rest-press :
    (s : Session) (down keysym : ℕ) (rest : Input)
    → keysym ≢ 255
    → with_rest s (press (usb_keycode keysym) down) rest ≡ ok (s, presses down keysym, rest)
unfolding with_rest press
with_rest-press s down keysym rest ne = elim (usb_keycode-Answers keysym ne) [
  | inl (n, _, e) ↦ rw e
  | inr e ↦ rw e
]

-- One round on the bytes of a message.
round : Session → List ℕ → Round
round s [] = ok (s, [], [])
round s (cmd ∷ input) = dispatch cmd s input

set_pixel_format-write :
    (s : Session) (p : PixelFmt) (rest : Input)
    → InRange p
    → set_pixel_format s (0 ∷ 0 ∷ 0 ∷ (PixelFmt.write p ++ rest))
      ≡ ok (record s { pf = p }, [], rest)
unfolding set_pixel_format read_pixel_format
set_pixel_format-write s p rest h = rw (read-write s.pf p rest h)

set_encodings-all_be32 :
    (s : Session) (es : List ℕ) (rest : Input)
    → length es < 2 ^ 16
    → set_encodings s (0 ∷ (be16 (length es) ++ (all_be32 es ++ rest))) ≡ ok (s, [], rest)
unfolding set_encodings read_count
set_encodings-all_be32 s es rest h =
    rw (of_be16-be16 (length es) h, skip_encodings-all_be32 es rest)

key_event-presses :
    (s : Session) (down keysym : ℕ) (rest : Input)
    → keysym < 2 ^ 32
    → keysym ≢ 255
    → key_event s (down ∷ 0 ∷ 0 ∷ (be32 keysym ++ rest)) ≡ ok (s, presses down keysym, rest)
unfolding key_event read_key_event
key_event-presses s down keysym rest small ne =
    rw (of_be32-be32 keysym small) (with_rest-press s down keysym rest ne)

mouse_event-asks :
    (s : Session) (mask x y : ℕ) (rest : Input)
    → x < 2 ^ 16
    → y < 2 ^ 16
    → mouse_event s (mask ∷ (be16 x ++ (be16 y ++ rest)))
      ≡ ok (accept s (pointer mask x y), asks s.old_button_mask (pointer mask x y), rest)
unfolding mouse_event read_mouse_event
mouse_event-asks s mask x y rest hx hy = rw (of_be16-be16 x hx, of_be16-be16 y hy) (ground arith)

round-encode :
    (s : Session) (m : Message) (rest : Input)
    → Fits m
    → round s (encode m ++ rest) ≡ ok (accept s m, asks s.old_button_mask m, rest)
unfolding round encode dispatch
round-encode s (pixel_format p) rest fits = set_pixel_format-write s p rest fits
round-encode s (encodings es) rest fits = set_encodings-all_be32 s es rest fits
round-encode s (framebuffer_update incremental x y width height) rest fits =
    unfold update_request in refl
round-encode s (key down keysym) rest fits = key_event-presses s down keysym rest fits.0 fits.1
round-encode s (pointer mask x y) rest fits = mouse_event-asks s mask x y rest fits.0 fits.1

client_loop-round :
    (fuel : ℕ) (s : Session) (m : Message) (rest : Input)
    → client_loop (suc fuel) s (encode m ++ rest)
      ≡ proceed (client_loop fuel) (round s (encode m ++ rest))
unfolding client_loop round encode
client_loop-round fuel s (pixel_format p) rest = refl
client_loop-round fuel s (encodings es) rest = refl
client_loop-round fuel s (framebuffer_update incremental x y width height) rest = refl
client_loop-round fuel s (key down keysym) rest = refl
client_loop-round fuel s (pointer mask x y) rest = refl

-- Given the bytes of some messages of a client, whose fields fit and which press no key 255, the loop
-- makes exactly the calls that they ask for, in order, and ends with the session that they leave.
pub client_loop-encode_all :
    (fuel : ℕ) (s : Session) (ms : List Message)
    → All Fits ms
    → length ms < fuel
    → client_loop fuel s (encode_all ms) ≡ (asks_all s ms, closed (accept_all s ms))
unfolding encode_all asks_all accept_all
client_loop-encode_all zero s ms fits h = elim h [ ]
client_loop-encode_all (suc fuel) s [] fits h = unfold client_loop in refl
client_loop-encode_all (suc fuel) s (m ∷ ms) fits h =
    client_loop-round fuel s m (encode_all ms)
    ∙ ap (proceed (client_loop fuel)) (round-encode s m (encode_all ms) fits.0)
    ∙ ap (λ (r : List Action × End). (asks s.old_button_mask m ++ r.0, r.1))
        (client_loop-encode_all fuel (accept s m) ms fits.1 (omega arith))

skipped :
    (s : Session) (cmd : ℕ) (input : Input)
    → (cmd ≡ 1) ⊎ (5 < cmd)
    → dispatch cmd s input ≡ ok (s, [], input)
unfolding dispatch
skipped s cmd input h = ground arith

-- A command that the server does not know takes its own byte alone: what follows it, which the client
-- meant as its contents, is read as commands.
client_loop_unknown :
    (fuel : ℕ) (s : Session) (cmd : ℕ) (input : Input)
    → (cmd ≡ 1) ⊎ (5 < cmd)
    → client_loop (suc fuel) s (cmd ∷ input) ≡ client_loop fuel s input
unfolding client_loop
client_loop_unknown fuel s cmd input h = ap (proceed (client_loop fuel)) (skipped s cmd input h)
