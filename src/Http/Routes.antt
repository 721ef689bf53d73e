-- ===== src/Http/Routes.antt =====
-- ServeHttp of http.go and routeAssets of assets.go: the table of routes. The router is a parameter.
pub mod Serving
pub mod Hosts
use dracd.Common.{
  ◌+◌, ℕ, ◌-◌, ◌≡◌, List, [], ◌∷◌, ◌++◌, Option, none, some, Bool, true, false, ◌&&◌, Text, length,
  take, drop, leb, ◌==◌, same_bytes, if◌then◌else◌,
}
use Prim.Native.String.{String}
use dracd.Common.Texts.{codes, has_prefix}

-- A path that is written out, or one with a host in it: prefix{ip:.*}suffix.
pub data Template : Type 0 where
  exactly : Text → Template
  around_host : (prefix suffix : Text) → Template

-- The handlers that are registered. An asset has its place in `assets`.
pub data Handler : Type 0 where
  connect kill status websockify gif png : Handler
  asset : ℕ → Handler

abbrev pub Route : Type 0
Route = Template × Handler

abbrev pub at_path : String → Handler → Route
at_path path h = (exactly (codes path), h)

abbrev pub at_host : String → String → Handler → Route
at_host prefix suffix h = (around_host (codes prefix) (codes suffix), h)

-- routeAssets, in its order.
abbrev pub asset_paths : List Text
asset_paths =
    codes "/include/util.js"
    ∷ codes "/include/webutil.js"
    ∷ codes "/include/base64.js"
    ∷ codes "/include/websock.js"
    ∷ codes "/include/des.js"
    ∷ codes "/include/keysymdef.js"
    ∷ codes "/include/keyboard.js"
    ∷ codes "/include/input.js"
    ∷ codes "/include/display.js"
    ∷ codes "/include/jsunzip.js"
    ∷ codes "/include/rfb.js"
    ∷ codes "/include/keysym.js"
    ∷ codes "/include/base.css"
    ∷ []

abbrev pub number_assets : ℕ → List Text → List Route
number_assets i [] = []
number_assets i (path ∷ paths) = (exactly path, asset i) ∷ number_assets (i + 1) paths

abbrev pub asset_routes : List Route
asset_routes = number_assets 0 asset_paths

-- `if GIF_SUPPORT_ENABLED { ... }`
abbrev pub gif_routes : Bool → List Route
gif_routes true = at_host "/" ".gif" gif ∷ []
gif_routes false = []

-- ServeHttp.
abbrev pub routes : Bool → List Route
routes gif_support =
    at_path "/" connect
    ∷ at_path "/killsession" kill
    ∷ at_host "/status/" "" status
    ∷ at_host "/websockify/" "" websockify
    ∷ (gif_routes gif_support ++ (at_host "/" ".png" png ∷ asset_routes))

abbrev pub has_suffix : Text → Text → Bool
has_suffix suffix t =
    leb (length suffix) (length t) && same_bytes (drop (length t - length suffix) t) suffix

abbrev pub has_newline : Text → Bool
has_newline [] = false
has_newline (c ∷ t) = if c == 10 then true else has_newline t

-- The host in a path, if the path is of that form.
unfoldable pub between : Text → Text → Text → Option Text
unfolding has_prefix same_bytes
between prefix suffix path =
    let rest : Text = drop (length prefix) path in
    if has_prefix prefix path && has_suffix suffix rest
    then some (take (length rest - length suffix) rest)
    else none

-- The first route that matches, or a later one.
abbrev pub choose : Option Text → Handler → Option (Handler × Text) → Option (Handler × Text)
choose none h later = later
choose (some host) h later = some (h, host)

-- The router: the handler for a path, with the host that was found in the path.
pub record Router : Type 0 where
  pub matches : Template → Text → Option Text
  pub serve : List Route → Text → Option (Handler × Text)

-- The documented behaviour of the router, for a path that it has cleaned: the first route that matches
-- serves it, a path that is written out matches itself, and `.*` matches anything but a line's end.
pub record IsMux (r : Router) : Type 0 where
  pub exact :
      (t path : Text) → r.matches (exactly t) path ≡ (if same_bytes t path then some [] else none)
  pub around :
      (prefix suffix path : Text)
      → has_newline path ≡ false
      → r.matches (around_host prefix suffix) path ≡ between prefix suffix path
  pub none_left : (path : Text) → r.serve [] path ≡ none
  pub first :
      (t : Template) (h : Handler) (rest : List Route) (path : Text)
      → r.serve ((t, h) ∷ rest) path ≡ choose (r.matches t path) h (r.serve rest path)
