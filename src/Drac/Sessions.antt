-- ===== src/Drac/Sessions.antt =====
-- The shared state of drac.go: the map of sessions, the sessions themselves, the recent hosts and the
-- states that are reported; and the functions that join, leave and finish a session. Each runs under
-- dracmapLock, so it is one step. A *DracCtx is its index among the sessions, a client its number.
pub mod Sharing
pub mod Leaving
pub mod Visiting
pub mod Handling
pub mod Signals
pub mod Finishing
pub mod History
pub mod Crowd
use dracd.Common.{
  ℕ, List, [], ◌∷◌, ◌++◌, Option, none, some, Bool, true, false, Text, ℤ, pos, succ_ℤ, pred_ℤ,
  length, get_elem?, modify, lookup, insert, if◌then◌else◌, ◌==◌, leb_ℤ, leb, delete, ◌&&◌,
}
use dracd.Drac.Recents.{RecentDracEntry, Credentials, remember}

-- The values of DracState.State.
pub data State : Type 0 where
  connecting connected video_connected ready : State
  connection_error video_connection_error auth_error : State

pub record DracState : Type 0 where
  pub state : State
  pub time : ℕ

-- A quantized frame of the C library, and when it came.
pub record AnimatedFrame : Type 0 where
  pub qf : ℕ
  pub ts : ℕ

-- `first_frame_closes` counts the calls of close(firstFrameEvent); sockets, the C context and frames
-- are numbers.
pub record DracCtx : Type 0 where
  pub ctrl_socket : Option ℕ
  pub video_socket : Option ℕ
  pub ctx : Option ℕ
  pub vnc_clients : List ℕ
  pub host : Text
  pub drac_type : ℤ
  pub sent_first_frame : Bool
  pub first_frame_closes : ℕ
  pub start_time : ℕ
  pub other_client_count : ℤ
  pub last_png_frame : Option ℕ
  pub animated_frame_list : List AnimatedFrame

pub record Server : Type 0 where
  pub dracmap : List (Text × ℕ)
  pub contexts : List DracCtx
  pub recent_dracs : List RecentDracEntry
  pub dracstates : List (Text × DracState)

-- What goes out of such a step: the connecting image to a client's videoChannel, the start of a
-- handler, a signal on clientEvent, the closing of a client's videoChannel.
pub data Effect : Type 0 where
  greets : ℕ → Effect
  starts : ℕ → Credentials → Effect
  notifies : ℕ → Effect
  closes : ℕ → Effect

abbrev pub new_context : Text → ℕ → DracCtx
new_context host now = record {
  ctrl_socket = none;
  video_socket = none;
  ctx = none;
  vnc_clients = [];
  host = host;
  drac_type = pos 0;
  sent_first_frame = false;
  first_frame_closes = 0;
  start_time = now;
  other_client_count = pos 0;
  last_png_frame = none;
  animated_frame_list = [];
}

-- `vncCtx.videoChannel <- newFrameFromBytes(connecting_png, 640, 480)`, for a client.
abbrev greeting : Option ℕ → List Effect
greeting none = []
greeting (some client) = greets client ∷ []

-- The session counts the client, or the request that is not one.
abbrev pub joined : Option ℕ → DracCtx → DracCtx
joined (some client) c = record c { vnc_clients = c.vnc_clients ++ client ∷ [] }
joined none c = record c { other_client_count = succ_ℤ c.other_client_count }

abbrev pub join : Server → ℕ → Option ℕ → Server
join s id client = record s { contexts = modify s.contexts id (joined client) }

-- The host has no session: a new one, in front of the recent hosts, with a handler of its own.
open_session : Server → ℕ → Option ℕ → Text → Credentials → Server × ℕ × List Effect
open_session s now client host given =
    let (c, recents) = remember host now given s.recent_dracs in
    let id : ℕ = length s.contexts in
    let s' : Server = record {
      dracmap = insert host id s.dracmap;
      contexts = s.contexts ++ new_context host now ∷ [];
      recent_dracs = recents;
      dracstates = insert host (record { state = connecting; time = now }) s.dracstates;
    } in
    (join s' id client, id, greeting client ++ (starts id c ∷ notifies id ∷ []))

-- `vncCtx != nil && !dracCtx.sentFirstFrame`
abbrev late_greeting : Option DracCtx → Option ℕ → List Effect
late_greeting none client = []
late_greeting (some c) client = if c.sent_first_frame then [] else greeting client

share_session : Server → ℕ → Option ℕ → Server × ℕ × List Effect
share_session s id client =
    (join s id client, id, late_greeting (get_elem? s.contexts id) client ++ (notifies id ∷ []))

-- By what the map holds for the host.
abbrev enter : Option ℕ → Server → ℕ → Option ℕ → Text → Credentials → Server × ℕ × List Effect
enter none s now client host given = open_session s now client host given
enter (some id) s now client host given = share_session s id client

-- setupDracClient, for a VNC client or for another request.
pub setup_drac_client : Server → ℕ → Option ℕ → Text → Credentials → Server × ℕ × List Effect
setup_drac_client s now client host given = enter (lookup host s.dracmap) s now client host given

-- The first element that is the client is removed; then the loop breaks.
pub remove_client : ℕ → List ℕ → List ℕ
remove_client client [] = []
remove_client client (v ∷ vs) =
    let rest = remove_client client vs in if v == client then vs else v ∷ rest

unfoldable pub has_client : ℕ → List ℕ → Bool
has_client client [] = false
has_client client (v ∷ vs) = if v == client then true else has_client client vs

-- The session without the client, or without the request that is not one.
abbrev pub left : Option ℕ → DracCtx → DracCtx
left (some client) c = record c { vnc_clients = remove_client client c.vnc_clients }
left none c = record c { other_client_count = pred_ℤ c.other_client_count }

abbrev pub leave : Server → ℕ → Option ℕ → Server
leave s id client = record s { contexts = modify s.contexts id (left client) }

-- teardownDracRequest.
pub teardown_drac_request : Server → ℕ → Server × List Effect
teardown_drac_request s id = (leave s id none, notifies id ∷ [])

abbrev closing : Option DracCtx → ℕ → List Effect
closing none client = []
closing (some c) client = if has_client client c.vnc_clients then closes client ∷ [] else []

-- teardownDracClient, for a client in the session `id`.
pub teardown_drac_client : Server → ℕ → ℕ → Server × List Effect
teardown_drac_client s id client =
    (leave s id (some client), closing (get_elem? s.contexts id) client ++ (notifies id ∷ []))

-- `dracCtx.otherClientCount <= 0 && dracCtx.vncClients.Len() <= 0`
abbrev pub is_unused : DracCtx → Bool
is_unused c = leb_ℤ c.other_client_count (pos 0) && leb (length c.vnc_clients) 0

-- What dracHandler does on dracFinishedEvent, for its session: the server, the clients whose connections
-- teardownVncClient closes, and whether it breaks out of its loop.
pub finish_session : Server → DracCtx → Server × List ℕ × Bool
finish_session s c = (
  record s { dracmap = delete c.host s.dracmap },
  if is_unused c then [] else c.vnc_clients,
  is_unused c,
)
