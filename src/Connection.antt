-- ===== src/Connection.antt =====
-- handleVncConnection of vnc.go from end to end: the handshake, the session of the host, the message loop
-- and the deferred teardown.
pub mod Client
pub mod Any
use dracd.Common.{
  ℕ, suc, List, [], ◌∷◌, ◌++◌, Option, none, some, Bool, true, false, Text, length, get_elem?, ◌&&◌,
  if◌then◌else◌,
}
use dracd.Drac.Recents.{Credentials}
use dracd.Drac.Sessions.{DracCtx, Server, Effect, setup_drac_client, teardown_drac_client}
use dracd.Vnc.PixelFmt
use dracd.Vnc.Reader.{Input}
use dracd.Vnc.Handshake.{handshake}
use dracd.Vnc.Messages.{
  Session, Action, send_key, send_mouse, request_update, End, closed, panicked, out_of_fuel,
  client_loop,
}

-- How a connection ends: the client is turned away, the message loop is left, or the whole program ends at a key
-- or mouse message, where the C library reads through a nil context.
pub data Ending : Type 0 where
  turned_away : Ending
  left_loop : End → Ending
  program_ended : Ending

-- What was written by the handshake, the server behind it, what went out of the session functions, the calls
-- of the messages, and whether videoWriterStopSignal was sent.
pub record Connection : Type 0 where
  pub written : List ℕ
  pub server : Server
  pub effects : List Effect
  pub actions : List Action
  pub stop_sent : Bool
  pub ending : Ending

-- clientCtx.pf and oldButtonMask.
abbrev pub new_session : Session
new_session = record { pf = PixelFmt.initial; old_button_mask = 0 }

abbrev pub no_credentials : Credentials
no_credentials = record { login = []; passwd = [] }

-- A panic leaves the function before `videoWriterStopSignal <- 1`.
abbrev pub stops : End → Bool
stops (closed s) = true
stops (panicked p) = false
stops out_of_fuel = false

-- dracCtx.ctx of a session.
abbrev pub ctx_in : Option DracCtx → Option ℕ
ctx_in none = none
ctx_in (some c) = c.ctx

-- The calls that pass dracCtx.ctx to the C library.
abbrev passes_ctx : Action → Bool
passes_ctx (send_key keycode down) = true
passes_ctx (send_mouse x y mask event) = true
passes_ctx request_update = false

abbrev is_nil : Option ℕ → Bool
is_nil none = true
is_nil (some _) = false

-- The calls of the messages, one after the other, where `servers k` is the server at the call k: those that are made,
-- and whether the program is still there behind them.
pub call_all : (ℕ → Server) → (id k : ℕ) → List Action → List Action × Bool
call_all servers id k [] = ([], true)
call_all servers id k (a ∷ rest) =
    let (made, alive) = call_all servers id (suc k) rest in
    if passes_ctx a && is_nil (ctx_in (get_elem? (servers k).contexts id))
    then ([], false)
    else (a ∷ made, alive)

-- The connection behind its message loop, where `s` is the server then. A program that has ended defers nothing.
abbrev pub behind_loop :
    Bool → Server → (id client : ℕ) → List ℕ → List Effect → List Action → End → Connection
behind_loop true s id client out joining actions end =
    let (s', leaving) = teardown_drac_client s id client in
    record {
      written = out;
      server = s';
      effects = joining ++ leaving;
      actions = actions;
      stop_sent = stops end;
      ending = left_loop end;
    }
behind_loop false s id client out joining actions end = record {
  written = out;
  server = s;
  effects = joining;
  actions = actions;
  stop_sent = false;
  ending = program_ended;
}

-- From `setupDracClient` on, which `teardownDracClient` is deferred behind. What the others have done to the server
-- before the call k of the client's messages is `meanwhile k`.
pub serve : (ℕ → Server → Server) → Server → ℕ → ℕ → Text → List ℕ → Input → Connection
serve meanwhile s now client host out input =
    let (s', id, joining) = setup_drac_client s now (some client) host no_credentials in
    let (actions, end) = client_loop (suc (length input)) new_session input in
    let (made, alive) = call_all (λ k. meanwhile k s') id 0 actions in
    behind_loop alive (meanwhile (length actions) s') id client out joining made end

pub greeted : (ℕ → Server → Server) → Server → ℕ → ℕ → Text → List ℕ × Option Input → Connection
greeted meanwhile s now client host (out, none) = record {
  written = out;
  server = s;
  effects = [];
  actions = [];
  stop_sent = false;
  ending = turned_away;
}
greeted meanwhile s now client host (out, some input) = serve meanwhile s now client host out input

pub handle_vnc_connection : (ℕ → Server → Server) → Server → ℕ → ℕ → Text → Input → Connection
handle_vnc_connection meanwhile s now client host input =
    greeted meanwhile s now client host (handshake host input)
