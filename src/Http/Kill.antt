-- ===== src/Http/Kill.antt =====
-- What the request to kill a session comes to.
use dracd.Common.{
  ℕ, ◌≡◌, refl, List, Option, none, some, false, Text, lookup, get_elem?, Outcome, ok, panics,
  Panic, nil_dereference, arith, ◌↔◌, Option-cases, inl, inr, ◌>>=◌,
}
use dracd.Common.Texts.{codes}
use dracd.Drac.Sessions.{DracCtx, Server}
use dracd.Http.{Response, text, is_empty, close_socket, session_of, kill_session_handler}

-- The session of a host has no control socket: its controller has not been reached yet.
abbrev pub Unreached : Server → Text → Type 0
Unreached s host =
    (id : ℕ) × (c : DracCtx) × (lookup host s.dracmap ≡ some id)
    × (get_elem? s.contexts id ≡ some c)
    × (c.ctrl_socket ≡ none)

session-panics :
    (s : Server) (host : Text) (o : Option ℕ)
    → lookup host s.dracmap ≡ o
    → (close_socket (session_of s o) ≡ panics nil_dereference) ↔ Unreached s host
unfolding close_socket session_of
session-panics s host none e = (λ q. absurd (cc), λ (id, c, found, there, nil). absurd (cc))
session-panics s host (some id) e = elim (Option-cases (get_elem? s.contexts id)) [
  | inl missing ↦ (λ q. absurd (ground arith), λ (i, c, found, there, nil). absurd (ground arith))
  | inr (c, there) ↦
      (λ q. (id, c, e, there, ground arith), λ (i, d, found, there', nil). ground arith)
]

bind-panics :
    (m : Outcome (List ℕ)) (answer : Response) (p : Panic)
    → (◌>>=◌ {B = List ℕ × Response} m (λ closed. ok (closed, answer)) ≡ panics p) ↔ (m ≡ panics p)
bind-panics (ok closed) answer p = (λ q. absurd (cc), λ q. absurd (cc))
bind-panics (panics x) answer p = (λ q. cc, λ q. cc)

-- The request to kill the session of a host makes the handler panic exactly when the host has a session
-- whose controller has not been reached.
kill_session_handler_panics_iff :
    (s : Server) (host : Text)
    → is_empty host ≡ false
    → (kill_session_handler s host ≡ panics nil_dereference) ↔ Unreached s host
unfolding kill_session_handler
kill_session_handler_panics_iff s host named =
    let closing = session-panics s host (lookup host s.dracmap) refl in
    let bound =
      bind-panics (close_socket (session_of s (lookup host s.dracmap))) (text (codes "ok!\n"))
        nil_dereference in
    rw named (λ q. closing.0 (bound.0 q), λ u. bound.1 (closing.1 u))
