-- ===== src/Tests/Memory.antt =====
-- The C context of a session in use.
use dracd.Drac.Handler.{frame_comes}
use dracd.Common.{inl, ◌-◌, ◌≢◌, ◌≡◌, ◌⊎◌, refl, true, false, arith}
use dracd.Contexts.{
  allocated, fine, through_nil, dangling, access, Session, client, begun, lives, connects,
  allocates, starts_video, Reach, here, next,
}
use dracd.Contexts.Alive.{used_context_alive, video_reader}
use dracd.Contexts.Ending.{context_returned}
use dracd.Contexts.Early.{input_access}
use dracd.Contexts.Dangling.{second_video_dangles}

abbrev first : Session
first = begun client

abbrev connected : Session
connected = record first { life = record first.life { has_socket = true } }

abbrev ready : Session
ready = record connected { ctx = allocated }

abbrev one : Session
one = record ready { started = 1; video = 1 }

abbrev two : Session
two = record ready { started = 2; video = 2 }

ready-Reach : Reach first ready
ready-Reach = next (next here (connects first refl refl)) (allocates connected refl refl refl)

one-Reach : Reach first one
one-Reach = next ready-Reach (starts_video ready refl refl)

two-Reach : Reach first two
two-Reach = next one-Reach (starts_video one refl refl)

-- A videoReader reads a frame.
used_context_alive_example : access allocated ≡ fine
used_context_alive_example =
    used_context_alive client one video_reader one-Reach (omega arith, omega arith)

-- A key when the controller has answered, and one when the video runs.
input_access_example :
    ((access allocated ≡ through_nil) × (ready.started ≡ 0))
    ⊎ ((access allocated ≡ fine) × (true ≡ true) × (access allocated ≡ fine))
input_access_example =
    input_access client ready one ready-Reach (omega arith)
      (next here (starts_video ready refl refl)) (omega arith)

second_video_dangles_example :
    (t : Session) × Reach two t × (t.video ≡ 1) × (access t.ctx ≡ dangling)
second_video_dangles_example = second_video_dangles client two 0 two-Reach refl refl

-- Two videoReaders run, ctrlReader reads, and the first frame has come.
abbrev framed : Session
framed = record two { life = record two.life { framed = true } }

framed-Reach : Reach first framed
framed-Reach = next two-Reach (lives two _ (frame_comes two.life) (refl, inl refl))

context_returned_example :
    (t : Session) × Reach framed t
    × (t.life.running ≡ false)
    × (t.video ≡ 0)
    × (t.ctx ≢ allocated)
    × (t.done ≡ t.started - 1)
context_returned_example = context_returned client framed framed-Reach refl
