-- ===== src/Drac/Control.antt =====
-- ctrlReader and videoReader of drac.go: the goroutines that read the two sockets of a session, and
-- what the C library makes of the bytes. What a read comes to is a list of inputs; a socket is a number,
-- and `dial k address` is the socket that the attempt k to connect gets, none for an error.
pub mod Closing
pub mod Dialling
use dracd.Common.{
  ℕ, suc, ◌+◌, List, [], ◌∷◌, ◌++◌, Option, none, some, Bool, true, false, ◌&&◌, ◌||◌, Text, ℤ, pos,
  negsuc, leb_ℤ, length, if◌then◌else◌, Outcome, ok, panics,
}
use dracd.Common.Decimal.{format}
use dracd.Common.Texts.{codes}
use dracd.Detect.{Browser, Console, eq_ℤ, get_drac_type}
use dracd.Drac.Sessions.{
  State, connected, connection_error, video_connected, video_connection_error, auth_error, ready,
}

-- The answers of incoming_data_ctrl and incoming_data_video in protocol.h.
abbrev login_failure : ℤ
login_failure = negsuc 10

abbrev login_failure_max : ℤ
login_failure_max = negsuc 29

abbrev pub need_to_connect_video : ℤ
need_to_connect_video = pos 1

abbrev pub new_frame_ready : ℤ
new_frame_ready = pos 2

abbrev pub video_is_down : ℤ
video_is_down = pos 3

abbrev is_video : ℤ → Bool
is_video r = eq_ℤ r new_frame_ready || eq_ℤ r video_is_down

-- One call of Read: what the C library answers to its bytes, none if there are none, and whether it
-- had an error.
pub record Reading : Type 0 where
  pub answer : Option ℤ
  pub failed : Bool

-- `reported` are the states that dracstates[host] was set to, in order; `opened` the video sockets for
-- which a videoReader was started; `allocated` says that AllocDracClientCtx and connect_start_ctrl were
-- called, and `ctrl_closes` counts the calls of ctrlSocket.Close here.
pub record Control : Type 0 where
  pub ctrl_socket : Option ℕ
  pub video_socket : Option ℕ
  pub reported : List State
  pub opened : List ℕ
  pub drac_type : ℤ
  pub allocated : Bool
  pub ctrl_closes : ℕ

abbrev pub fresh : Control
fresh = record {
  ctrl_socket = none;
  video_socket = none;
  reported = [];
  opened = [];
  drac_type = pos 0;
  allocated = false;
  ctrl_closes = 0;
}

abbrev pub report : State → Control → Control
report s c = record c { reported = c.reported ++ s ∷ [] }

-- NEED_TO_CONNECT_VIDEO; with whether the loop goes on.
connect_video : Control → Option ℕ → Control × Bool
connect_video c none =
    (record (report video_connection_error c) { ctrl_closes = c.ctrl_closes + 1 }, false)
connect_video c (some s) =
    (record (report video_connected c) { video_socket = some s; opened = c.opened ++ s ∷ [] }, true)

-- What follows a read; videoUpdate reports that the session is ready.
handle : (ℕ → Option ℕ) → Control → Option ℤ → Control × Bool
handle dial c none = (c, true)
handle dial c (some r) =
    if eq_ℤ r need_to_connect_video
    then connect_video c (dial (suc (length c.opened)))
    else if leb_ℤ r login_failure && leb_ℤ login_failure_max r
    then (report auth_error c, true)
    else if is_video r
    then (report ready c, true)
    else (c, true)

-- The end of a round: `loop` is what follows if neither a break nor an error of the read ends it.
abbrev pub proceed : (Control → Control × Bool) → Bool → Control × Bool → Control × Bool
proceed loop failed (c, false) = (c, true)
proceed loop true (c, true) = (c, true)
proceed loop false (c, true) = loop c

-- The loop, and whether it has ended; without an end it waits for another read.
pub ctrl_loop : (ℕ → Option ℕ) → Control → List Reading → Control × Bool
ctrl_loop dial c [] = (c, false)
ctrl_loop dial c (r ∷ rs) = proceed (λ c'. ctrl_loop dial c' rs) r.failed (handle dial c r.answer)

with_socket : (ℕ → Option ℕ) → List Reading → Control → Option ℕ → Control × Bool
with_socket dial rs c none = (report connection_error c, true)
with_socket dial rs c (some s) =
    ctrl_loop dial (report connected (record c { ctrl_socket = some s; allocated = true })) rs

-- `fmt.Sprintf("%s:%d", dracCtx.host, port)`
unfoldable pub host_port : Text → ℤ → Text
host_port host port = host ++ (codes ":" ++ format port)

detected :
    Text
    → (ℕ → Text → Option ℕ)
    → List Reading
    → Outcome (Option Console)
    → Outcome (Control × Bool)
detected host dial rs (panics p) = panics p
detected host dial rs (ok none) = ok (report connection_error fresh, true)
detected host dial rs (ok (some console)) =
    let c : Control = record fresh { drac_type = console.drac_type } in
    ok (
      with_socket (λ k. dial k (host_port host console.video_port)) rs c
        (dial 0 (host_port host console.ctrl_port)))

-- How ctrlReader stands: whether it is past its loop, which video socket it has then closed, and for how
-- many videoReaders it has waited.
pub record Finish : Type 0 where
  pub control : Control
  pub ended : Bool
  pub closed : Option ℕ
  pub waited : ℕ

-- `if dracCtx.videoSocket != nil { ... }`
finish : Control × Bool → Finish
finish (c, false) = record { control = c; ended = false; closed = none; waited = 0 }
finish (c, true) = record {
  control = c;
  ended = true;
  closed = c.video_socket;
  waited = elim c.video_socket [ none ↦ 0 | some _ ↦ 1 ];
}

finished : Outcome (Control × Bool) → Outcome Finish
finished (panics p) = panics p
finished (ok r) = ok (finish r)

-- ctrlReader.
unfoldable pub ctrl_reader :
    Browser → (host login passwd : Text) → (ℕ → Text → Option ℕ) → List Reading → Outcome Finish
unfolding finished detected with_socket ctrl_loop handle connect_video finish get_drac_type
ctrl_reader browse host login passwd dial rs =
    finished (detected host dial rs (get_drac_type browse host login passwd).0)

-- `if r == C.NEW_FRAME_READY || r == C.VIDEO_IS_DOWN`, for the calls of videoUpdate.
update_of : Option ℤ → List ℤ
update_of none = []
update_of (some r) = if is_video r then r ∷ [] else []

-- videoReader: the answers for which it calls videoUpdate, and whether its loop has ended, at the first
-- error of a read.
pub video_reader : List Reading → List ℤ × Bool
video_reader [] = ([], false)
video_reader (r ∷ rs) =
    let (updates, ended) = video_reader rs in
    if r.failed then (update_of r.answer, true) else (update_of r.answer ++ updates, ended)
