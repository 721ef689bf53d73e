-- ===== src/Http/Cookies.antt =====
-- SetupSession of http.go: what it keeps in the session of a browser.
use dracd.Common.{Option, none, some, Text}
use dracd.Common.Texts.{codes}

-- session.Options.Path and the values that SetupSession sets; the library keeps the rest.
pub record Session : Type 0 where
  pub path : Text
  pub csrf_token : Option Text
  pub user : Option Text

-- A new token is made only if there is none; `token` is the random one in hexadecimal.
abbrev pub keep_token : Text → Option Text → Text
keep_token token none = token
keep_token token (some old) = old

pub setup_session : Text → Session → Text → Session
setup_session token s user = record {
  path = codes "/";
  csrf_token = some (keep_token token s.csrf_token);
  user = some user;
}
