-- ===== src/Tests/Web.antt =====
-- The handlers of the HTTP server, its routes, and the sockets that the C library writes to.
use dracd.Common.{
  lookup, take, ok, get_elem?, ◌≡◌, refl, List, [], ◌∷◌, ◌++◌, none, some, true, false, Text, arith,
  same_bytes,
}
use dracd.Glue.Sockets.{ctrl, glue_write_data}
use dracd.Glue.Sockets.Writing.{glue_write_data_lem}
use dracd.Drac.Recents.{recall, push, RecentDracEntry, get_recent_drac}
use dracd.Drac.Sessions.{connecting, DracCtx, Server, starts, notifies, new_context}
use dracd.Common.Texts.{codes}
use dracd.Drac.Sessions.Sharing.{IsValid}
use dracd.Drac.Sessions.Visiting.{Keeps, visit}
use dracd.Glue.{Refs, ClientCtx, alloc_drac_client_ctx}
use dracd.Glue.Table.{Alive, fresh, allocated}
use dracd.Http.{text, status, ConnectRequest, connect_handler}
use dracd.Http.Connect.{connect_handler-Keeps}
use dracd.Http.Routes.{asset, Router, IsMux, routes}
use dracd.Http.Routes.Serving.{matches, first_match}
use dracd.Http.Assets.{Texts, Sent, asset_handlers}
use dracd.Http.Assets.Typed.{files, type_of, serve_typed}

abbrev host : Text
host = 104 ∷ []

-- A host that was used before and has no session now.
abbrev recent : RecentDracEntry
recent = record {
  host = host;
  username = 117 ∷ [];
  password = 112 ∷ [];
  start_time = 3;
  connected = false;
  formatted_time = [];
  id = 0;
}

abbrev idle : Server
idle = record { dracmap = []; contexts = []; recent_dracs = recent ∷ []; dracstates = [] }

idle-IsValid : IsValid idle
unfolding get_recent_drac
idle-IsValid = record {
  registered = λ host id e. absurd (cc);
  distinct = (refl, tt);
  ten = omega arith;
}

-- A form that names the host only: its credentials are those of the recent entry.
abbrev form : ConnectRequest
form = record {
  is_post = true;
  form_host = host;
  form_login = [];
  form_password = [];
  json_host = none;
  json_login = none;
  json_password = none;
  is_ajax = true;
}

abbrev visited : Server
visited = record {
  dracmap = (host, 0) ∷ [];
  contexts = new_context host 9 ∷ [];
  recent_dracs = record recent { start_time = 9 } ∷ [];
  dracstates = (host, record { state = connecting; time = 9 }) ∷ [];
}

connect_handler-Keeps_example : IsValid visited × Keeps idle visited
unfolding connect_handler get_recent_drac same_bytes visit push recall
connect_handler-Keeps_example =
    connect_handler-Keeps idle visited 9 (λ t. []) form
      (starts 0 (record { login = 117 ∷ []; passwd = 112 ∷ [] }) ∷ notifies 0 ∷ notifies 0 ∷ [])
      (text (status (codes "connecting"))) idle-IsValid refl

-- A router that follows its documentation.
abbrev mux : Router
mux = record { matches = matches; serve = first_match }

mux-IsMux : IsMux mux
unfolding matches first_match
mux-IsMux = record {
  exact = λ t path. refl;
  around = λ prefix suffix path line. refl;
  none_left = λ path. refl;
  first = λ t h rest path. refl;
}

abbrev texts : Texts
texts = record {
  include_util_js = [];
  include_webutil_js = [];
  include_base64_js = [];
  include_websock_js = [];
  include_des_js = [];
  include_keysymdef_js = [];
  include_keyboard_js = [];
  include_input_js = [];
  include_display_js = [];
  include_jsunzip_js = [];
  include_rfb_js = 7 ∷ [];
  include_keysym_js = [];
  include_base_css = [];
}

serve_typed_example :
    (sent : Sent) × (mux.serve (routes true) (codes "/include/rfb.js") ≡ some (asset 10, []))
    × (get_elem? (asset_handlers texts) 10 ≡ some sent)
    × (sent.content_type ≡ type_of (codes "/include/rfb.js"))
    × (lookup (codes "/include/rfb.js") (files texts) ≡ some sent.body)
serve_typed_example = serve_typed mux mux-IsMux true texts 10 (codes "/include/rfb.js") refl

-- Two sessions, each with a context of the C library and a control socket.
abbrev no_sessions : Refs
no_sessions = record { table = []; next_id = 0 }

abbrev one : Refs × ClientCtx
one = alloc_drac_client_ctx no_sessions 0 6

abbrev two : Refs × ClientCtx
two = alloc_drac_client_ctx one.0 1 5

abbrev contexts : List DracCtx
contexts =
    record (new_context host 1) { ctrl_socket = some 50 }
    ∷ record (new_context (105 ∷ []) 2) { ctrl_socket = some 60 }
    ∷ []

two-Alive : Alive two.0 (((two.1, 1) ∷ []) ++ (one.1, 0) ∷ [])
two-Alive = allocated 1 5 (allocated 0 6 (fresh refl))

glue_write_data_lem_example :
    glue_write_data ctrl two.0 contexts one.1 (some (7 ∷ 8 ∷ 9 ∷ [])) 2
    ≡ ok (50, take 2 (7 ∷ 8 ∷ 9 ∷ []))
glue_write_data_lem_example =
    glue_write_data_lem ((two.1, 1) ∷ []) [] one.1 0 ctrl contexts
      (record (new_context host 1) { ctrl_socket = some 50 }) 50 (7 ∷ 8 ∷ 9 ∷ []) 2 two-Alive refl
      refl (omega arith)
