-- ===== src/Tests/Images.antt =====
-- Requests for the image of a session.
use dracd.Common.{
  ◌≤◌, ℕ, ◌≡◌, ◌≢◌, refl, inl, List, [], ◌∷◌, some, ok, true, false, arith, get_elem?,
}
use dracd.Drac.Handler
use dracd.Drac.Handler.{reader_ends, finishes, times_out}
use dracd.Drac.Video.{encode_png_ptr, save_frame_for_animation}
use dracd.Frame.{new_frame}
use dracd.Vnc.Writer
use dracd.Streaming
use dracd.Streaming.{add_picture}
use dracd.Http.{bytes, png_host_handler}
use dracd.Requests
use dracd.Requests.{
  is_closed, heard, Session, image_request, begun, lives, streams, passes, Reach, here, next,
}
use dracd.Requests.Served.{png_host_handler_served}
use dracd.Requests.Forsaken.{unreached_waits}
use dracd.Requests.Leaving.{frame_lets_go}
use dracd.Tests.Streams.{no_host, fresh, picture, png_frame, drawn}

-- A request opens a session.
abbrev first : Session
first = begun image_request no_host 0 []

-- The handler takes its signal, and it waits.
abbrev waits : Session
waits = record first { life = heard first.life 0 0 1; joining = 0; waiting = 1 }

waits-Reach : Reach first waits
waits-Reach = next here (Requests.joins first 0 0 0 refl refl refl refl)

-- The controller is not reached.
abbrev ended : Session
ended = record waits { life = record waits.life { reader_ended = true } }

abbrev unreached : Session
unreached = record waits { life = Handler.on_finished ended.life }

unreached-Reach : Reach first unreached
unfolding Handler.on_signal
unreached-Reach =
    next (next waits-Reach (lives waits ended.life (reader_ends waits.life) tt))
      (lives ended unreached.life (finishes ended.life refl refl refl) tt)

-- Half a minute later.
abbrev later : Session
later = record unreached { life = Handler.on_timeout unreached.life }

later-Reach : Reach unreached later
unfolding Handler.on_finished Handler.on_signal
later-Reach = next here (lives unreached later.life (times_out unreached.life refl) tt)

unreached_waits_example :
    (1 ≤ later.waiting)
    × (later.life.running ≡ true)
    × (later.stream.video.session.sent_first_frame ≡ false)
unfolding Handler.on_finished Handler.on_signal Handler.on_timeout
unreached_waits_example =
    unreached_waits image_request no_host 0 [] unreached later unreached-Reach refl refl refl
      (omega arith) later-Reach

-- Or its first frame comes.
abbrev joined : Session
joined = record waits { stream = record fresh { writers = Writer.start ∷ [] } }

abbrev shown : Session
shown = record waits { stream = drawn; life = record waits.life { framed = true } }

shown-Reach : Reach first shown
unfolding encode_png_ptr new_frame Handler.on_signal add_picture save_frame_for_animation
shown-Reach = next (next waits-Reach (streams waits joined.stream (Streaming.joins fresh) tt)) (
    streams joined drawn (Streaming.pictures joined.stream picture png_frame 1 (λ _. 1) refl)
      (inl refl))

shown_sent : shown.stream.video.session.sent_first_frame ≡ true
unfolding add_picture save_frame_for_animation
shown_sent = refl

shown_closed : is_closed shown.stream ≡ true
unfolding add_picture save_frame_for_animation
shown_closed = refl

frame_lets_go_example :
    (t : Session) × Reach shown t
    × (t.joining ≡ 0)
    × (t.waiting ≡ 0)
    × (t.life.others ≡ 0)
    × (t.stream ≡ drawn)
frame_lets_go_example = frame_lets_go image_request no_host 0 [] shown shown-Reach shown_sent

abbrev inside : Session
inside = record shown { life = record shown.life { waiting = 0 }; waiting = 0; let_in = 1 }

inside-Reach : Reach first inside
unfolding Handler.on_signal
inside-Reach = next shown-Reach (passes shown 0 0 refl refl shown_closed)

png_host_handler_served_example :
    (drawn.video.session.animated_frame_list ≢ [])
    × ((f : ℕ) × (image : List ℕ) × (drawn.video.session.last_png_frame ≡ some f)
        × (get_elem? drawn.images f ≡ some image)
        × (png_host_handler drawn.video ≡ ok (bytes image)))
png_host_handler_served_example =
    png_host_handler_served image_request no_host 0 [] inside inside-Reach (omega arith)
