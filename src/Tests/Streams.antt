-- ===== src/Tests/Streams.antt =====
-- The frames between the goroutines, the mailbox, and the sessions as their handlers see them.
use dracd.Common.{
  arith, ◌+◌, All, lookup, same_bytes, ℕ, ◌≡◌, refl, List, [], ◌∷◌, none, some, true, Text, pos,
  get_elem?, map,
}
use dracd.Vnc.Update.Viewer.Shows.{Fits, send_all, images}
use dracd.Drac.Video.{release_frame, save_frame_for_animation, encode_png_ptr, Picture}
use dracd.Frame.{acquire, new_frame, Frame}
use dracd.Streaming.{
  at_loop, at_send, change, acquires, release_all, Stream, opened, write, add_picture, Reach, here,
  next, joins, pictures, sends, writes,
}
use dracd.Frame.Counting.{left}
use dracd.Drac.Recents.{Credentials}
use dracd.Drac.Sessions.{Server, new_context, setup_drac_client}
use dracd.Drac.Sessions.Handling.{
  Shows, notified, channels_closed, after_join, after_leave, teardown, setup_drac_client-Step,
  teardown-Step,
}
use dracd.Drac.Handler.{Life, Step, opened_by_request}
use dracd.Vnc.Writer
use dracd.Vnc.Writer.{Pipeline, waiting, offering, requested, Event}
use dracd.Vnc.Writer.Mailbox
use dracd.Vnc.Writer.Mailbox.{Op, put, want, viewed, event, act_all, run_refines}
use dracd.Vnc.Update.{Client}
use dracd.Vnc.Update.Viewer.{Views}
use dracd.Streaming.Screens.{sent_by, step_sent, deref}
use dracd.Streaming.Screens.Told.{Matches, sent_by-Views}
use dracd.Streaming.Holding.{holders}
use dracd.Streaming.Ownership.{Reach_counted}

-- Two frames arrive, one is asked for, and the second is handed over; a request too many is refused.
abbrev ops : List Op
ops = put 5 ∷ put 6 ∷ want ∷ Op.take ∷ want ∷ []

abbrev pub no_host : Text
no_host = []

abbrev pub picture : Picture
picture = record { width = 8; height = 4; png = some (1 ∷ 2 ∷ 3 ∷ []); png_size = 3; qf = 0 }

abbrev pub png_frame : Frame
png_frame = record {
  image = 1 ∷ 2 ∷ 3 ∷ [];
  backing = true;
  width = 8;
  height = 4;
  refcount = pos 1;
  frees = 0;
}

abbrev pub fresh : Stream
fresh = opened [] 0 []

-- A client joins, and a picture comes.
abbrev pub drawn : Stream
drawn = add_picture (record fresh { writers = Writer.start ∷ [] }) picture png_frame 1 (λ _. 1)

pub drawn-Reach : Reach (opened no_host 0 []) drawn
unfolding encode_png_ptr new_frame
drawn-Reach = next (next here (joins fresh)) (pictures _ picture png_frame 1 (λ _. 1) refl)

abbrev asked : Pipeline
asked = record Writer.start { pending = 1 }

abbrev pub offered : Pipeline
offered = record asked { phase = offering (some 0); received = 0 ∷ [] }

abbrev sent_on : Pipeline
sent_on = record offered { phase = waiting; pending = 0; released = 0 ∷ []; shown = 0 ∷ [] }

-- The client asks for a frame, and then the frame comes to its writers.
abbrev asking : Stream
asking = write drawn 0 Writer.start asked

-- It is acquired for the client, and sent.
abbrev released : Stream
released = record (change asking 0 acquire) { in_hand = at_send 0 0 ∷ [] }

abbrev pub sent : Stream
sent = record (write released 0 asked offered) { in_hand = at_loop 0 ∷ [] }

pub sent-Reach : Reach (opened no_host 0 []) sent
unfolding Writer.step write add_picture release_all
sent-Reach =
    next
      (next (next drawn-Reach (writes drawn 0 Writer.start asked requested refl refl refl))
        (acquires asking [] [] 0 0 refl))
      (sends released [] [] 0 0 asked offered refl refl refl)

-- Three hold the frame: videoUpdate, lastPngFrame, and the client's writers, which offer it.
Reach_counted_example :
    (image : List ℕ) × (get_elem? sent.images 0 ≡ some image)
    × (pos 3 ≡ pos (holders sent 0))
    × ((1 ∷ 2 ∷ 3 ∷ [], 0) ≡ left (holders sent 0) true image)
unfolding write add_picture release_all save_frame_for_animation acquire release_frame
Reach_counted_example =
    Reach_counted no_host 0 [] sent 0 (record png_frame { refcount = pos 3 }) sent-Reach refl

-- The client's videoWriter takes the frame and sends it.
shown-Reach : Reach (opened no_host 0 []) (write sent 0 offered sent_on)
unfolding Writer.step write add_picture
shown-Reach = next sent-Reach (writes sent 0 offered sent_on Event.taken refl refl refl)

-- The one frame that has been sent is small enough.
shown-Fits : All Fits (sent_by shown-Reach 0)
unfolding sent_by step_sent deref shown-Reach sent-Reach drawn-Reach write add_picture release_all
    save_frame_for_animation acquire release_frame
shown-Fits = ((omega arith, omega arith, omega arith), tt)

sent_by-Views_example :
    Matches (write sent 0 offered sent_on).images sent_on.shown (sent_by shown-Reach 0)
    × (let client : Client =
          send_all (record { width = 640; height = 480; written = [] }) (sent_by shown-Reach 0) in
        Views
          (record { width = 640; height = 480; images = [] })
          client.written
          (record {
            width = client.width;
            height = client.height;
            images = images (sent_by shown-Reach 0);
          }))
unfolding write add_picture
sent_by-Views_example =
    sent_by-Views no_host 0 [] (write sent 0 offered sent_on) 0 640 480 sent_on shown-Reach refl
      shown-Fits

run_refines_example : viewed (Writer.run Writer.start (map event ops)) ≡ act_all Mailbox.empty ops
run_refines_example = run_refines ops

abbrev host : Text
host = 104 ∷ []

abbrev nobody : Credentials
nobody = record { login = []; passwd = [] }

-- A server with one session, which a request has opened.
abbrev one_session : Server
one_session = record {
  dracmap = (host, 0) ∷ [];
  contexts = record (new_context host 5) { other_client_count = pos 1 } ∷ [];
  recent_dracs = [];
  dracstates = [];
}

shown_mapped : lookup host one_session.dracmap ≡ some 0
unfolding same_bytes
shown_mapped = refl

abbrev shown : Shows one_session host 0 opened_by_request
shown = record {
  ctx = record (new_context host 5) { other_client_count = pos 1 };
  there = refl;
  clients = refl;
  others = refl;
  mapped = λ _. shown_mapped;
}

setup_drac_client-Step_example :
    Step opened_by_request (after_join (some 7) opened_by_request)
    × Shows
        (setup_drac_client one_session 9 (some 7) host nobody).0
        host
        0
        (after_join (some 7) opened_by_request)
    × ((setup_drac_client one_session 9 (some 7) host nobody).1 ≡ 0)
    × ((2 ≡ 1 + notified 0 (setup_drac_client one_session 9 (some 7) host nobody).2)
        × (channels_closed (setup_drac_client one_session 9 (some 7) host nobody).2 ≡ []))
setup_drac_client-Step_example =
    setup_drac_client-Step one_session 9 (some 7) host nobody 0 opened_by_request shown refl

-- Its request has been heard.
abbrev settled : Life
settled = record opened_by_request { signals = 0; new_others = 0 }

abbrev shown_settled : Shows one_session host 0 settled
shown_settled = record {
  ctx = shown.ctx;
  there = shown.there;
  clients = shown.clients;
  others = shown.others;
  mapped = shown.mapped;
}

teardown-Step_example :
    Step settled (after_leave none settled)
    × Shows (teardown none one_session 0).0 host 0 (after_leave none settled)
    × (1 ≡ 0 + notified 0 (teardown none one_session 0).1)
    × (channels_closed (teardown none one_session 0).1 ≡ [])
teardown-Step_example =
    teardown-Step one_session host 0 none settled shown_settled (0, refl) (omega arith)
