-- ===== src/Http/Assets/Typed.antt =====
-- What a request for an asset is answered with.
use dracd.Common.{
  List, ◌∷◌, Option, lookup, ap, sym, ℕ, ◌≡◌, refl, [], map, some, Bool, Text, get_elem?,
  if◌then◌else◌, matched, same_bytes,
}
use dracd.Common.Texts.{codes}
use dracd.Http.Assets.{Texts, Sent, asset_handlers}
use dracd.Http.Routes.{asset, asset_paths, has_suffix, routes, Router, IsMux}
use dracd.Http.Routes.Serving.{serve_asset}

-- The type that a path's suffix asks for.
abbrev pub type_of : Text → Text
type_of path =
    if has_suffix (codes ".css") path then codes "text/css" else codes "application/javascript"

-- The texts by the paths of their files.
abbrev pub files : Texts → List (Text × Text)
files texts =
    (codes "/include/base64.js", texts.include_base64_js)
    ∷ (codes "/include/des.js", texts.include_des_js)
    ∷ (codes "/include/display.js", texts.include_display_js)
    ∷ (codes "/include/input.js", texts.include_input_js)
    ∷ (codes "/include/jsunzip.js", texts.include_jsunzip_js)
    ∷ (codes "/include/keyboard.js", texts.include_keyboard_js)
    ∷ (codes "/include/keysym.js", texts.include_keysym_js)
    ∷ (codes "/include/keysymdef.js", texts.include_keysymdef_js)
    ∷ (codes "/include/rfb.js", texts.include_rfb_js)
    ∷ (codes "/include/util.js", texts.include_util_js)
    ∷ (codes "/include/websock.js", texts.include_websock_js)
    ∷ (codes "/include/webutil.js", texts.include_webutil_js)
    ∷ (codes "/include/base.css", texts.include_base_css)
    ∷ []

-- What is to be sent for a path.
abbrev wanted : Texts → Text → Text × Option Text
wanted texts path = (type_of path, lookup path (files texts))

abbrev given : Sent → Text × Option Text
given x = (x.content_type, some x.body)

handlers_typed : (texts : Texts) → map given (asset_handlers texts) ≡ map (wanted texts) asset_paths
unfolding same_bytes
handlers_typed texts = refl

module _ (r : Router) (mux : IsMux r) (gif_support : Bool) (texts : Texts) where
  -- With a router that does what is documented, and with or without GIF support, each of the assets is served
  -- at its path by a handler that sends the text of the file with that path, whichever routes stand in front, with
  -- the Content-Type of a style sheet exactly if the path ends in .css, and else that of a script.
  pub serve_typed :
      (i : ℕ) (path : Text)
      → get_elem? asset_paths i ≡ some path
      → (sent : Sent) × (r.serve (routes gif_support) path ≡ some (asset i, []))
        × (get_elem? (asset_handlers texts) i ≡ some sent)
        × (sent.content_type ≡ type_of path)
        × (lookup path (files texts) ≡ some sent.body)
  serve_typed i path e =
      let (sent, there, typed) =
        matched given (wanted texts) (asset_handlers texts) asset_paths i path
          (handlers_typed texts) e in
      (
        sent,
        serve_asset r mux gif_support i path e,
        there,
        ap (λ t. t.0) typed,
        sym (ap (λ t. t.1) typed),
      )
