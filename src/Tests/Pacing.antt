-- ===== src/Tests/Pacing.antt =====
-- A client that asks for a frame, and for another.
use dracd.Common.{◌+◌, ◌≤◌, ◌≡◌, refl, ap, suc, List, [], ◌∷◌, some, length, All, arith}
use dracd.Vnc.Messages.{request_update}
use dracd.Vnc.Messages.Client.{
  Message, framebuffer_update, encode_all, length-encode_all, asks_all, client_loop-encode_all,
  Fits,
}
use dracd.Vnc.Messages.Client.Requests.{requests, update_requests}
use dracd.Vnc.Writer
use dracd.Vnc.Writer.{Pipeline, waiting, offering, arrives, taken}
use dracd.Vnc.Pacing.{Dialogue, begun, asks_frame, goes_on, Reach, here, next}
use dracd.Vnc.Pacing.Paced.{shown_requested}
use dracd.Vnc.Pacing.Progress.{requests_served}
use dracd.Connection.{new_session}

abbrev asked : List Message
asked = framebuffer_update 0 0 0 640 480 ∷ framebuffer_update 1 0 0 640 480 ∷ []

abbrev fits : All Fits asked
fits = (tt, (tt, tt))

abbrev start : Dialogue
start = begun new_session (encode_all asked)

-- The first request comes to the writers, and a frame to the client.
abbrev wanted : Pipeline
wanted = record Writer.start { pending = 1 }

abbrev first_asked : Dialogue
first_asked = record { todo = request_update ∷ []; writers = wanted }

abbrev offered : Pipeline
offered = record wanted { phase = offering (some 4); received = 4 ∷ [] }

abbrev shown : Pipeline
shown = record offered { phase = waiting; pending = 0; released = 4 ∷ []; shown = 4 ∷ [] }

abbrev one_shown : Dialogue
one_shown = record first_asked { writers = shown }

two_calls : start.todo ≡ request_update ∷ request_update ∷ []
unfolding asks_all
two_calls =
    ap (λ r. r.0)
      (client_loop-encode_all (suc (length (encode_all asked))) new_session asked fits
        (omega (arith, length-encode_all asked)))

one_shown-Reach : Reach start one_shown
unfolding Writer.step
one_shown-Reach =
    next
      (next (next here (asks_frame start (request_update ∷ []) wanted two_calls refl))
        (goes_on first_asked (arrives (some 4)) offered tt refl))
      (goes_on (record first_asked { writers = offered }) taken shown tt refl)

shown_requested_example :
    (1 + 0 + requests (request_update ∷ []) ≡ update_requests asked) × (1 ≤ update_requests asked)
shown_requested_example = shown_requested new_session asked one_shown fits one_shown-Reach

requests_served_example :
    (e : Dialogue) × Reach one_shown e
    × (e.todo ≡ [])
    × (e.writers.pending ≡ 0)
    × (length e.writers.shown ≡ update_requests asked)
requests_served_example =
    requests_served new_session asked one_shown 5 fits one_shown-Reach (tt, refl)
