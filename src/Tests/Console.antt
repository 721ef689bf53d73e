-- ===== src/Tests/Console.antt =====
-- The VNC side: messages, updates and keys.
use dracd.Common.{◌≡◌, ◌≢◌, List, [], ◌∷◌, arith, All}
use dracd.Vnc.PixelFmt
use dracd.Vnc.PixelFmt.{PixelFmt}
use dracd.Vnc.Messages.{Session, closed, out_of_fuel, client_loop}
use dracd.Vnc.Messages.Client.{
  Message, pixel_format, encodings, framebuffer_update, key, pointer, encode_all, asks_all,
  accept_all, client_loop-encode_all,
}
use dracd.Vnc.Messages.Safety.{client_loop_ends}
use dracd.Vnc.Messages.Keys.{IsKey, OnlyIndex, client_loop-Keys}
use dracd.Vnc.Update.{Client}
use dracd.Vnc.Update.Viewer.{Views}
use dracd.Vnc.Update.Viewer.Shows.{Frame, send_all, images, Views-send_all}

abbrev new_session : Session
new_session = record { pf = PixelFmt.initial; old_button_mask = 0 }

-- A SetPixelFormat, two encodings, an update request, the letter a, and a click.
abbrev messages : List Message
messages =
    pixel_format PixelFmt.initial
    ∷ encodings (7 ∷ 0xffffff21 ∷ [])
    ∷ framebuffer_update 1 0 0 640 480
    ∷ key 1 b'a'
    ∷ pointer 1 320 240
    ∷ pointer 1 321 240
    ∷ []

client_loop-encode_all_example :
    client_loop 7 new_session (encode_all messages)
    ≡ (asks_all new_session messages, closed (accept_all new_session messages))
client_loop-encode_all_example =
    client_loop-encode_all 7 new_session messages (omega arith) (omega arith)

client_loop_ends_example : (client_loop 4 new_session (5 ∷ 1 ∷ 0 ∷ [])).1 ≢ out_of_fuel
client_loop_ends_example = client_loop_ends 4 new_session (5 ∷ 1 ∷ 0 ∷ []) (omega arith)

client_loop-Keys_example :
    All IsKey (client_loop 9 new_session (4 ∷ 1 ∷ 0 ∷ 0 ∷ 0 ∷ 0 ∷ 0 ∷ 97 ∷ [])).0
    × OnlyIndex (client_loop 9 new_session (4 ∷ 1 ∷ 0 ∷ 0 ∷ 0 ∷ 0 ∷ 0 ∷ 97 ∷ [])).1
client_loop-Keys_example = client_loop-Keys 9 new_session (4 ∷ 1 ∷ 0 ∷ 0 ∷ 0 ∷ 0 ∷ 0 ∷ 97 ∷ [])

abbrev frames : List Frame
frames =
    record { image = 1 ∷ 2 ∷ 3 ∷ []; width = 800; height = 600 }
    ∷ record { image = 4 ∷ []; width = 800; height = 600 }
    ∷ []

abbrev after_frames : Client
after_frames = send_all (record { width = 640; height = 480; written = [] }) frames

Views-send_all_example :
    Views
      (record { width = 640; height = 480; images = [] })
      after_frames.written
      (record { width = after_frames.width; height = after_frames.height; images = images frames })
Views-send_all_example = Views-send_all 640 480 frames (omega arith)
