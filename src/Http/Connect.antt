-- ===== src/Http/Connect.antt =====
-- What a request for the connect page does to the server, and how it is answered.
use dracd.Common.{
  ◌⊎◌, if-ind, ℕ, ◌≡◌, refl, subst, List, [], ◌∷◌, Option, none, some, Bool, true, false, Text,
  lookup, Outcome, ok, panics, arith, if◌then◌else◌, inl, inr,
}
use dracd.Common.Texts.{codes}
use dracd.Drac.Recents.{Credentials, get_recent_drac}
use dracd.Drac.Sessions.{Server, Effect, notifies}
use dracd.Drac.Sessions.Sharing.{IsValid}
use dracd.Drac.Sessions.Visiting.{visit_known, Keeps, visit-Keeps}
use dracd.Http.{
  Response, text, status, ConnectRequest, is_empty, given_credentials, complete_credentials,
  connect_page, connect, with_complete, with_given, connect_handler,
}

abbrev Preserves : Server → Outcome (Server × List Effect × Response) → Type 0
Preserves s (ok (t, effects, answer)) = IsValid t × Keeps s t
Preserves s (panics p) = Unit

with_given-Preserves :
    (s : Server) (now : ℕ) (format : ℕ → Text) (is_ajax : Bool)
    (given : Outcome (Text × Credentials))
    → IsValid s
    → Preserves s (with_given s now format is_ajax given)
unfolding with_given with_complete connect
with_given-Preserves s now format is_ajax (panics p) v = tt
with_given-Preserves s now format is_ajax (ok (host, c)) v = go (complete_credentials s host c)
  where
    go : (o : Option Credentials) → Preserves s (ok (with_complete s now format is_ajax host o))
    go none = (v, λ id ctx e. e)
    go (some c') = visit-Keeps s now host c' v

-- Whatever a request for the connect page carries, if the handler does not panic, the server stays valid,
-- and every session that was there is as it was: the same clients are in it, and as many requests.
pub connect_handler-Keeps :
    (s t : Server) (now : ℕ) (format : ℕ → Text) (r : ConnectRequest) (effects : List Effect)
    (answer : Response)
    → IsValid s
    → connect_handler s now format r ≡ ok (t, effects, answer)
    → IsValid t × Keeps s t
unfolding connect_handler
connect_handler-Keeps s t now format r effects answer v e = subst (Preserves s) e (
    if-ind (Preserves s) r.is_post
      (with_given-Preserves s now format r.is_ajax (given_credentials r) v) (v, λ id ctx q. q))

-- A form for a host that has a session, with both credentials, changes nothing: the session's handler is
-- signalled for the request's coming and its going, and the answer says that the host connects, or is the
-- page for it.
connect_handler_known :
    (s : Server) (now : ℕ) (format : ℕ → Text) (r : ConnectRequest) (id : ℕ)
    → r.is_post ≡ true
    → is_empty r.form_host ≡ false
    → is_empty r.form_login ≡ false
    → is_empty r.form_password ≡ false
    → lookup r.form_host s.dracmap ≡ some id
    → connect_handler s now format r
      ≡ ok (
        s,
        notifies id ∷ notifies id ∷ [],
        if r.is_ajax then text (status (codes "connecting")) else connect_page s format r.form_host,
      )
unfolding connect_handler with_given with_complete given_credentials complete_credentials connect
connect_handler_known s now format r id post host login password e =
    rw (post, host, login, password)
      (rw
        (visit_known s now r.form_host (record { login = r.form_login; passwd = r.form_password })
          id e)
        refl)

-- Without both credentials in the form, and with no recent entry for its host, nothing is done, and the
-- answer asks for them.
connect_handler_asks :
    (s : Server) (now : ℕ) (format : ℕ → Text) (r : ConnectRequest)
    → r.is_post ≡ true
    → is_empty r.form_host ≡ false
    → (is_empty r.form_login ≡ true) ⊎ (is_empty r.form_password ≡ true)
    → get_recent_drac r.form_host s.recent_dracs ≡ none
    → connect_handler s now format r ≡ ok (s, [], text (status (codes "need credentials")))
unfolding connect_handler with_given with_complete given_credentials complete_credentials
connect_handler_asks s now format r post host (inl login) e = rw (post, host, login, e) refl
connect_handler_asks s now format r post host (inr password) e = ground (arith, e)
