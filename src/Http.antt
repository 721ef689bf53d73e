-- ===== src/Http.antt =====
-- http.go: the handlers of the HTTP server, as functions of the shared state of drac.go. What a request
-- carries, and what the HTTP library makes of it, is an input. A handler runs under dracmapLock, or calls
-- functions that do, one after the other; what others do in between is not in these functions.
pub mod Assets
pub mod Connect
pub mod Cookies
pub mod Listing
pub mod Kill
pub mod Image
pub mod Routes
use dracd.Common.{
  ℕ, suc, List, [], ◌∷◌, ◌++◌, Option, none, some, Bool, true, false, ◌||◌, Text, ℤ, lookup,
  get_elem?, if◌then◌else◌, Outcome, ok, panics, nil_dereference, type_assertion, ◌>>=◌,
}
use dracd.Common.Texts.{codes}
use dracd.Frame.{Frame, slice}
use dracd.Drac.Recents.{RecentDracEntry, Credentials, get_recent_drac}
use dracd.Drac.Sessions.{
  State, connecting, connected, video_connected, ready, connection_error, video_connection_error,
  auth_error, DracCtx, Server, Effect,
}
use dracd.Drac.Sessions.Visiting.{visit}
use dracd.Drac.Video.{Video}
use dracd.Gif.{encode_gif}

-- What a handler writes: a text, an error with its status code, some bytes, or the connect page with its
-- list of recent hosts and the host to connect to.
pub data Response : Type 0 where
  text : Text → Response
  error : ℕ → Response
  bytes : List ℕ → Response
  page : List RecentDracEntry → Text → Response

-- The strings that DracState.State holds.
abbrev pub state_text : State → Text
state_text connecting = codes "connecting"
state_text connected = codes "connected"
state_text video_connected = codes "video connected"
state_text ready = codes "ready"
state_text connection_error = codes "connection error"
state_text video_connection_error = codes "video connection error"
state_text auth_error = codes "auth error"

-- `fmt.Fprintf(w, "{\"status\":\"%s\"}", state)`
abbrev pub status : Text → Text
status state = codes "{\"status\":\"" ++ (state ++ codes "\"}")

-- statusHandler.
pub status_handler : Server → Text → Response
status_handler s ip = elim (lookup ip s.dracstates) [
  | none ↦ text (status (codes "disconnected"))
  | some drac ↦ text (status (state_text drac.state))
]

-- What connectHandler reads of a request: whether it is a POST, the form's values, the strings that its
-- JSON holds under the same names, and whether it says X-Requested-With: XMLHttpRequest.
pub record ConnectRequest : Type 0 where
  pub is_post : Bool
  pub form_host : Text
  pub form_login : Text
  pub form_password : Text
  pub json_host : Option Text
  pub json_login : Option Text
  pub json_password : Option Text
  pub is_ajax : Bool

abbrev pub is_empty : Text → Bool
is_empty [] = true
is_empty (c ∷ t) = false

-- `s, _ = v.(string)`
abbrev or_empty : Option Text → Text
or_empty none = []
or_empty (some t) = t

-- `host = data["host"].(string)` panics without a string there.
json_credentials : Option Text → ConnectRequest → Outcome (Text × Credentials)
json_credentials none r = panics type_assertion
json_credentials (some host) r =
    ok (host, record { login = or_empty r.json_login; passwd = or_empty r.json_password })

given_credentials : ConnectRequest → Outcome (Text × Credentials)
given_credentials r =
    if is_empty r.form_host
    then json_credentials r.json_host r
    else ok (r.form_host, record { login = r.form_login; passwd = r.form_password })

abbrev stored : RecentDracEntry → Credentials
stored de = record { login = de.username; passwd = de.password }

-- `if login == "" || password == ""`: both come from the recent hosts; none if the host is not there.
complete_credentials : Server → Text → Credentials → Option Credentials
complete_credentials s host c =
    if is_empty c.login || is_empty c.passwd
    then elim (get_recent_drac host s.recent_dracs) [ none ↦ none | some de ↦ some (stored de) ]
    else some c

-- `dracmap[host] != nil`
abbrev pub is_connected : Server → Text → Bool
is_connected s host = elim (lookup host s.dracmap) [ none ↦ false | some id ↦ true ]

-- The loop over recentDracs, from the number `i` on; `format` is StartTime.Format.
pub listing : Server → (ℕ → Text) → ℕ → List RecentDracEntry → List RecentDracEntry
listing s format i [] = []
listing s format i (de ∷ rest) =
    record de { connected = is_connected s de.host; formatted_time = format de.start_time; id = i }
    ∷ listing s format (suc i) rest

abbrev pub connect_page : Server → (ℕ → Text) → Text → Response
connect_page s format host = page (listing s format 0 s.recent_dracs) host

-- setupDracClient and teardownDracRequest, and then the answer.
connect : Server → ℕ → (ℕ → Text) → Bool → Text → Credentials → Server × List Effect × Response
connect s now format is_ajax host c =
    let (s', effects) = visit s now host c in
    (
      s',
      effects,
      if is_ajax then text (status (codes "connecting")) else connect_page s' format host,
    )

with_complete :
    Server → ℕ → (ℕ → Text) → Bool → Text → Option Credentials → Server × List Effect × Response
with_complete s now format is_ajax host none = (s, [], text (status (codes "need credentials")))
with_complete s now format is_ajax host (some c) = connect s now format is_ajax host c

with_given :
    Server
    → ℕ
    → (ℕ → Text)
    → Bool
    → Outcome (Text × Credentials)
    → Outcome (Server × List Effect × Response)
with_given s now format is_ajax (panics p) = panics p
with_given s now format is_ajax (ok (host, c)) =
    ok (with_complete s now format is_ajax host (complete_credentials s host c))

-- connectHandler, at the time `now`.
unfoldable pub connect_handler :
    Server → ℕ → (ℕ → Text) → ConnectRequest → Outcome (Server × List Effect × Response)
unfolding connect with_given with_complete given_credentials json_credentials complete_credentials
connect_handler s now format r =
    if r.is_post
    then with_given s now format r.is_ajax (given_credentials r)
    else ok (s, [], connect_page s format [])

-- `drac.ctrlSocket.Close()`, of the session that the map holds.
close_socket : Option DracCtx → Outcome (List ℕ)
close_socket none = ok []
close_socket (some c) = elim c.ctrl_socket [ none ↦ panics nil_dereference | some s ↦ ok (s ∷ []) ]

session_of : Server → Option ℕ → Option DracCtx
session_of s none = none
session_of s (some id) = get_elem? s.contexts id

-- killSessionHandler: the sockets that it closes, and its answer.
pub kill_session_handler : Server → Text → Outcome (List ℕ × Response)
kill_session_handler s host = do
  closed ← if is_empty host then ok [] else close_socket (session_of s (lookup host s.dracmap))
  ok (closed, text (codes "ok!\n"))

-- `w.Write(dracCtx.lastPngFrame.data)`
write_frame : Option Frame → Outcome Response
write_frame none = panics nil_dereference
write_frame (some x) = ok (bytes x.image)

frame_of : List Frame → Option ℕ → Option Frame
frame_of frames none = none
frame_of frames (some f) = get_elem? frames f

-- pngHostHandler behind its wait for the first frame, with the session and its frames at that time.
unfoldable pub png_host_handler : Video → Outcome Response
unfolding write_frame frame_of
png_host_handler v = elim v.session.animated_frame_list [
  | [] ↦ ok (error 500)
  | f ∷ fs ↦ write_frame (frame_of v.frames v.session.last_png_frame)
]

-- gifHostHandler behind its wait; `write_gif` is what the C library makes of the frames, a buffer and the
-- size that it reports.
unfoldable pub gif_host_handler :
    Video → ℕ → (List (ℕ × ℤ) → Option (List ℕ) × ℤ) → Outcome Response
gif_host_handler v now write_gif = elim v.session.animated_frame_list [
  | [] ↦ ok (error 500)
  | f ∷ fs ↦ do
    frames ← encode_gif now (f ∷ fs)
    written ← slice (write_gif frames).0 (write_gif frames).1
    ok (bytes written)
]

-- wsHandler: an error, or nothing if the upgrade fails, or a VNC connection to the host.
pub data WsOutcome : Type 0 where
  refused : Response → WsOutcome
  not_upgraded : WsOutcome
  serves_vnc : Text → WsOutcome

pub ws_handler : (is_get upgrades : Bool) → Text → WsOutcome
ws_handler is_get upgrades ip =
    if is_get then (if upgrades then serves_vnc ip else not_upgraded) else refused (error 405)
