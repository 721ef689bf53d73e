-- ===== src/Vnc/Messages/Client/Requests.antt =====
-- The requests for a frame among the messages of a client, and among the calls that they ask for.
use dracd.Common.{
  ℕ, suc, ◌≡◌, refl, ap, ◌∙◌, List, [], ◌∷◌, ◌++◌, Outcome, ok, panics, ℤ, pos, negsuc,
}
use dracd.Keymap.{usb_keycode}
use dracd.Vnc.Messages.{Session, Action, send_key, send_mouse, request_update}
use dracd.Vnc.Messages.Client.{
  Message, pixel_format, encodings, framebuffer_update, key, pointer, calls_of, asks_all,
}

-- How many of some calls ask for a frame.
unfoldable pub requests : List Action → ℕ
requests [] = 0
requests (request_update ∷ rest) = suc (requests rest)
requests (send_key keycode down ∷ rest) = requests rest
requests (send_mouse x y mask event ∷ rest) = requests rest

-- The FramebufferUpdateRequests among some messages.
unfoldable pub update_requests : List Message → ℕ
update_requests [] = 0
update_requests (framebuffer_update incremental x y width height ∷ ms) = suc (update_requests ms)
update_requests (pixel_format p ∷ ms) = update_requests ms
update_requests (encodings es ∷ ms) = update_requests ms
update_requests (key down keysym ∷ ms) = update_requests ms
update_requests (pointer mask x y ∷ ms) = update_requests ms

requests-calls_of :
    (o : Outcome ℤ) (down : ℕ) (rest : List Action)
    → requests (calls_of o down ++ rest) ≡ requests rest
unfolding requests
requests-calls_of (ok (pos code)) down rest = refl
requests-calls_of (ok (negsuc n)) down rest = refl
requests-calls_of (panics e) down rest = refl

-- The calls that messages ask for hold as many requests as the messages.
pub requests-asks_all :
    (s : Session) (ms : List Message) → requests (asks_all s ms) ≡ update_requests ms
unfolding requests update_requests asks_all
requests-asks_all s [] = refl
requests-asks_all s (pixel_format p ∷ ms) = requests-asks_all (record s { pf = p }) ms
requests-asks_all s (encodings es ∷ ms) = requests-asks_all s ms
requests-asks_all s (framebuffer_update incremental x y width height ∷ ms) =
    ap suc (requests-asks_all s ms)
requests-asks_all s (key down keysym ∷ ms) =
    requests-calls_of (usb_keycode keysym) down (asks_all s ms) ∙ requests-asks_all s ms
requests-asks_all s (pointer mask x y ∷ ms) =
    requests-asks_all (record s { old_button_mask = mask }) ms
