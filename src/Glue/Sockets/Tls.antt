-- ===== src/Glue/Sockets/Tls.antt =====
-- What the start of TLS does to a session's socket, in the two builds.
use dracd.Common.{
  ℕ, ◌≡◌, refl, ap, List, ◌∷◌, ◌++◌, Option, none, some, Bool, get_elem?, modify, Outcome, ok,
  arith, ◌>>=◌, if◌then◌else◌,
}
use dracd.Drac.Sessions.{DracCtx}
use dracd.Glue.{Refs, ClientCtx, get_drac_ctx}
use dracd.Glue.Table.{Alive, Alive-Resolves}
use dracd.Glue.Sockets.Writing.{Resolves-append, session_of_lem}
use dracd.Glue.Sockets.{
  Channel, socket_of, with_socket, dereference, session_of, set_socket, finish_tls, glue_start_ssl,
  with_client, glue_start_openssl,
}

-- As long as openssl.Client gives the connection that tls.Client would, the build with OpenSSL does what
-- the other one does.
glue_start_openssl_eq :
    (channel : Channel) (r : Refs) (contexts : List DracCtx) (ctx : ClientCtx)
    (client : Option ℕ → ℕ) (handshake : ℕ → Outcome Bool)
    → glue_start_openssl channel r contexts ctx (λ s. some (client s)) handshake
      ≡ glue_start_ssl channel r contexts ctx client handshake
unfolding glue_start_openssl glue_start_ssl with_client
glue_start_openssl_eq channel r contexts ctx client handshake = go (session_of r contexts ctx)
  where
    go :
        (o : Option DracCtx)
        → (dereference o >>= λ session.
            with_client channel r contexts ctx handshake
              (some (client (socket_of channel session))))
          ≡ (dereference o >>= λ session.
              finish_tls channel r contexts ctx handshake (client (socket_of channel session)))
    go none = refl
    go (some session) = refl

set_socket_lem :
    (channel : Channel) (r : Refs) (contexts : List DracCtx) (ctx : ClientCtx) (s d : ℕ)
    → get_drac_ctx r ctx ≡ some d
    → set_socket channel r contexts ctx s ≡ modify contexts d (with_socket channel s)
set_socket_lem channel r contexts ctx s d found = ground arith

-- For a context that was allocated and not freed: after a handshake without an error the TLS connection on
-- its session's socket is the session's socket, and every other session is as it was; after one with an
-- error nothing has changed.
glue_start_ssl_lem :
    {r : Refs} (front back : List (ClientCtx × ℕ)) (ctx : ClientCtx) (d : ℕ) (channel : Channel)
    (contexts : List DracCtx) (client : Option ℕ → ℕ) (handshake : ℕ → Outcome Bool)
    (session : DracCtx) (done : Bool)
    → Alive r (front ++ (ctx, d) ∷ back)
    → get_elem? contexts d ≡ some session
    → handshake (client (socket_of channel session)) ≡ ok done
    → glue_start_ssl channel r contexts ctx client handshake
      ≡ ok (
          if done
          then modify contexts d (with_socket channel (client (socket_of channel session)))
          else contexts)
unfolding glue_start_ssl finish_tls
glue_start_ssl_lem {r} front back ctx d channel contexts client handshake session done alive there
      shook =
    let found = Resolves-append r front back ctx d (Alive-Resolves alive) in
    let s : ℕ = client (socket_of channel session) in
    rw (session_of_lem r contexts ctx d session found there, shook)
      (ap (λ (cs : List DracCtx). ok (if done then cs else contexts))
        (set_socket_lem channel r contexts ctx s d found))
