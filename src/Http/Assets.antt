-- ===== src/Http/Assets.antt =====
-- assets.go: a handler for each text that the program carries with it. The texts are those of the noVNC client,
-- a library of its own, and are a parameter.
pub mod Typed
use dracd.Common.{List, [], ◌∷◌, Text}
use dracd.Common.Texts.{codes}

pub record Texts : Type 0 where
  pub include_util_js : Text
  pub include_webutil_js : Text
  pub include_base64_js : Text
  pub include_websock_js : Text
  pub include_des_js : Text
  pub include_keysymdef_js : Text
  pub include_keyboard_js : Text
  pub include_input_js : Text
  pub include_display_js : Text
  pub include_jsunzip_js : Text
  pub include_rfb_js : Text
  pub include_keysym_js : Text
  pub include_base_css : Text

-- What a handler sends: the header Content-Type, and the body.
pub record Sent : Type 0 where
  pub content_type : Text
  pub body : Text

abbrev pub include_util_js_handler : Texts → Sent
include_util_js_handler texts = record {
  content_type = codes "application/javascript";
  body = texts.include_util_js;
}

abbrev pub include_webutil_js_handler : Texts → Sent
include_webutil_js_handler texts = record {
  content_type = codes "application/javascript";
  body = texts.include_webutil_js;
}

abbrev pub include_base64_js_handler : Texts → Sent
include_base64_js_handler texts = record {
  content_type = codes "application/javascript";
  body = texts.include_base64_js;
}

abbrev pub include_websock_js_handler : Texts → Sent
include_websock_js_handler texts = record {
  content_type = codes "application/javascript";
  body = texts.include_websock_js;
}

abbrev pub include_des_js_handler : Texts → Sent
include_des_js_handler texts = record {
  content_type = codes "application/javascript";
  body = texts.include_des_js;
}

abbrev pub include_keysymdef_js_handler : Texts → Sent
include_keysymdef_js_handler texts = record {
  content_type = codes "application/javascript";
  body = texts.include_keysymdef_js;
}

abbrev pub include_keyboard_js_handler : Texts → Sent
include_keyboard_js_handler texts = record {
  content_type = codes "application/javascript";
  body = texts.include_keyboard_js;
}

abbrev pub include_input_js_handler : Texts → Sent
include_input_js_handler texts = record {
  content_type = codes "application/javascript";
  body = texts.include_input_js;
}

abbrev pub include_display_js_handler : Texts → Sent
include_display_js_handler texts = record {
  content_type = codes "application/javascript";
  body = texts.include_display_js;
}

abbrev pub include_jsunzip_js_handler : Texts → Sent
include_jsunzip_js_handler texts = record {
  content_type = codes "application/javascript";
  body = texts.include_jsunzip_js;
}

abbrev pub include_rfb_js_handler : Texts → Sent
include_rfb_js_handler texts = record {
  content_type = codes "application/javascript";
  body = texts.include_rfb_js;
}

abbrev pub include_keysym_js_handler : Texts → Sent
include_keysym_js_handler texts = record {
  content_type = codes "application/javascript";
  body = texts.include_keysym_js;
}

abbrev pub include_base_css_handler : Texts → Sent
include_base_css_handler texts = record {
  content_type = codes "text/css";
  body = texts.include_base_css;
}

-- The handlers that routeAssets registers, in its order.
abbrev pub asset_handlers : Texts → List Sent
asset_handlers texts =
    include_util_js_handler texts
    ∷ include_webutil_js_handler texts
    ∷ include_base64_js_handler texts
    ∷ include_websock_js_handler texts
    ∷ include_des_js_handler texts
    ∷ include_keysymdef_js_handler texts
    ∷ include_keyboard_js_handler texts
    ∷ include_input_js_handler texts
    ∷ include_display_js_handler texts
    ∷ include_jsunzip_js_handler texts
    ∷ include_rfb_js_handler texts
    ∷ include_keysym_js_handler texts
    ∷ include_base_css_handler texts
    ∷ []
