-- ===== src/Requests.antt =====
-- The requests for an image of a session, beside all else that happens to it: pngHostHandler and gifHostHandler
-- of http.go, which join the session and wait for its first frame, connectHandler, which joins and leaves, and
-- the handler, the readers and the clients of the session (drac.go, vnc.go).
pub mod Counts
pub mod Closing
pub mod Served
pub mod Forsaken
pub mod Leaving
use dracd.Drac.Handler.{
  signalled, on_signal, without_signal, Life, request_joins, request_leaves, frame_comes, wait_ends,
  opened_by_client, opened_by_request,
}
use dracd.Common.{ltb, ℕ, suc, ◌+◌, ◌<◌, ◌≡◌, ◌⊎◌, List, Bool, true, false, Text}
use dracd.Drac.Handler
use dracd.Drac.Sessions.{DracState}
use dracd.Streaming
use dracd.Streaming.{Stream, pictures, cleans, opened}

-- `life` is what the handler sees of the session, and `stream` are its frames. Of the requests, `joining` and
-- `arriving` count those at `dracCtx.clientEvent <- 1` of setupDracClient, from an image handler and from
-- connectHandler; `waiting` those at `<-dracCtx.firstFrameEvent`, `let_in` those behind it, and `visiting` those
-- of connectHandler that have joined. `readers` are the videoReaders that run.
pub record Session : Type 0 where
  pub life : Life
  pub stream : Stream
  pub joining : ℕ
  pub arriving : ℕ
  pub waiting : ℕ
  pub let_in : ℕ
  pub visiting : ℕ
  pub readers : ℕ

-- Who opens a session: a VNC client, a request for an image, or a visit of the connect page.
pub data Entrant : Type 0 where
  vnc_client image_request visitor : Entrant

abbrev pub begun : Entrant → Text → ℕ → List (Text × DracState) → Session
begun vnc_client host now states = record {
  life = opened_by_client;
  stream = opened host now states;
  joining = 0;
  arriving = 0;
  waiting = 0;
  let_in = 0;
  visiting = 0;
  readers = 0;
}
begun image_request host now states = record {
  life = opened_by_request;
  stream = opened host now states;
  joining = 1;
  arriving = 0;
  waiting = 0;
  let_in = 0;
  visiting = 0;
  readers = 0;
}
begun visitor host now states = record {
  life = opened_by_request;
  stream = opened host now states;
  joining = 0;
  arriving = 1;
  waiting = 0;
  let_in = 0;
  visiting = 0;
  readers = 0;
}

-- `dracCtx.otherClientCount++`, and then the request stands at the send of its signal.
abbrev pub entered : Life → Life
entered l = record l {
  others = l.others + 1;
  signals = l.signals + 1;
  new_others = l.new_others + 1;
}

-- teardownDracRequest, up to the send of its signal.
abbrev pub left : Life → ℕ → Life
left l others = record l { others = others; signals = l.signals + 1 }

-- The handler takes the signal of a request that comes. The others that come are `b` then, and those that wait `w`.
abbrev pub heard : Life → (n b w : ℕ) → Life
heard l n b w = on_signal (without_signal l n l.new_clients b w)

-- firstFrameEvent is closed.
abbrev pub is_closed : Stream → Bool
is_closed t = ltb 0 t.video.session.first_frame_closes

-- The steps of the session that are none of a request or of its frames; a signal that the handler takes is not that of
-- a request that comes.
abbrev pub IsApart : {l m : Life} → Handler.Step l m → Type 0
IsApart (request_joins l registered) = ⊥
IsApart (request_leaves l n e i) = ⊥
IsApart (frame_comes l) = ⊥
IsApart (wait_ends l n e f) = ⊥
IsApart (signalled l n a b w running e h) = (b ≡ l.new_others) × (w ≡ l.waiting)
IsApart _ = Unit

-- When a step on the frames can be: a new frame comes from ctrlReader or from a videoReader, and dracHandler
-- cleans up behind its loop.
abbrev pub Allowed : Session → {t u : Stream} → Streaming.Step t u → Type 0
Allowed s (pictures t p x ts clock e) = (s.life.reader_ended ≡ false) ⊎ (0 < s.readers)
Allowed s (cleans t) = s.life.running ≡ false
Allowed s _ = Unit

-- A step on the frames may close firstFrameEvent, which the session then sees.
pub data Step : Session → Session → Type 0 where
  asks :
      (s : Session)
      → s.life.registered ≡ true
      → Step s (record s { life = entered s.life; joining = suc s.joining })
  visits :
      (s : Session)
      → s.life.registered ≡ true
      → Step s (record s { life = entered s.life; arriving = suc s.arriving })
  joins :
      (s : Session) (n k b : ℕ)
      → s.joining ≡ suc n
      → s.life.running ≡ true
      → s.life.signals ≡ suc k
      → s.life.new_others ≡ suc b
      → Step s (record s {
        life = heard s.life k b (suc s.life.waiting);
        joining = n;
        waiting = suc s.waiting;
      })
  arrives :
      (s : Session) (n k b : ℕ)
      → s.arriving ≡ suc n
      → s.life.running ≡ true
      → s.life.signals ≡ suc k
      → s.life.new_others ≡ suc b
      → Step s (record s {
        life = heard s.life k b s.life.waiting;
        arriving = n;
        visiting = suc s.visiting;
      })
  passes :
      (s : Session) (n k : ℕ)
      → s.waiting ≡ suc n
      → s.life.waiting ≡ suc k
      → is_closed s.stream ≡ true
      → Step s
          (record s { life = record s.life { waiting = k }; waiting = n; let_in = suc s.let_in })
  answered :
      (s : Session) (n k : ℕ)
      → s.let_in ≡ suc n
      → s.life.others ≡ suc k
      → Step s (record s { life = left s.life k; let_in = n })
  departs :
      (s : Session) (n k : ℕ)
      → s.visiting ≡ suc n
      → s.life.others ≡ suc k
      → Step s (record s { life = left s.life k; visiting = n })
  lives :
      (s : Session) (m : Life) (st : Handler.Step s.life m)
      → IsApart st
      → Step s (record s { life = m })
  streams :
      (s : Session) (t : Stream) (st : Streaming.Step s.stream t)
      → Allowed s st
      → Step s (record s { stream = t; life = record s.life { framed = is_closed t } })
  opens_video :
      (s : Session) → s.life.reader_ended ≡ false → Step s (record s { readers = suc s.readers })
  closes_video : (s : Session) (n : ℕ) → s.readers ≡ suc n → Step s (record s { readers = n })

pub data Reach (s : Session) : Session → Type 0 where
  here : Reach s s
  next : {t u : Session} → Reach s t → Step t u → Reach s u
