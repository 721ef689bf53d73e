-- ===== src/Glue/Sockets.antt =====
-- The callbacks of the C library in glue.go, glue_gossl.go and glue_openssl.go, and the calls into it that
-- pass a client's input on: each finds its session by the id in the C context. Sessions lie in a list,
-- sockets are numbers.
pub mod Writing
pub mod Tls
use dracd.Common.{
  Bool, if◌then◌else◌, ℕ, ◌%◌, ◌^◌, List, Option, none, some, ℤ, pos, get_elem?, modify, Outcome,
  ok, panics, nil_dereference, ◌>>=◌,
}
use dracd.Frame.{slice}
use dracd.Drac.Sessions.{DracCtx}
use dracd.Glue.{Refs, ClientCtx, get_drac_ctx}

-- The two sockets of a session.
pub data Channel : Type 0 where
  ctrl video : Channel

abbrev pub socket_of : Channel → DracCtx → Option ℕ
socket_of ctrl c = c.ctrl_socket
socket_of video c = c.video_socket

abbrev pub with_socket : Channel → ℕ → DracCtx → DracCtx
with_socket ctrl s c = record c { ctrl_socket = some s }
with_socket video s c = record c { video_socket = some s }

-- A nil pointer or interface is not called or dereferenced.
abbrev pub dereference {ℓ} : {A : Type ℓ} → Option A → Outcome A
dereference none = panics nil_dereference
dereference (some a) = ok a

abbrev pub session_of : Refs → List DracCtx → ClientCtx → Option DracCtx
session_of r contexts ctx = elim (get_drac_ctx r ctx) [
  | none ↦ none
  | some d ↦ get_elem? contexts d
]

-- GlueWriteDataCtrl and GlueWriteDataVideo: the socket that is written to, and what is written.
pub glue_write_data :
    Channel → Refs → List DracCtx → ClientCtx → Option (List ℕ) → ℕ → Outcome (ℕ × List ℕ)
glue_write_data channel r contexts ctx buffer size = do
  bytes ← slice buffer (pos size)
  session ← dereference (session_of r contexts ctx)
  socket ← dereference (socket_of channel session)
  ok (socket, bytes)

-- GlueReadDataCtrl and GlueReadDataVideo are not used by the C library, and give 0.
pub glue_read_data : ℕ → ℤ
glue_read_data size = pos 0

abbrev pub set_socket : Channel → Refs → List DracCtx → ClientCtx → ℕ → List DracCtx
set_socket channel r contexts ctx s = elim (get_drac_ctx r ctx) [
  | none ↦ contexts
  | some d ↦ modify contexts d (with_socket channel s)
]

-- From the handshake on: without an error the session's socket becomes the TLS connection.
finish_tls :
    Channel → Refs → List DracCtx → ClientCtx → (ℕ → Outcome Bool) → ℕ → Outcome (List DracCtx)
finish_tls channel r contexts ctx handshake tls_conn = do
  done ← handshake tls_conn
  ok (if done then set_socket channel r contexts ctx tls_conn else contexts)

-- GlueStartSslCtrl and GlueStartSslVideo of glue_gossl.go. `client` is tls.Client, the TLS connection on a
-- socket, and `handshake` says whether its handshake succeeds.
pub glue_start_ssl :
    Channel
    → Refs
    → List DracCtx
    → ClientCtx
    → (Option ℕ → ℕ)
    → (ℕ → Outcome Bool)
    → Outcome (List DracCtx)
glue_start_ssl channel r contexts ctx client handshake = do
  session ← dereference (session_of r contexts ctx)
  finish_tls channel r contexts ctx handshake (client (socket_of channel session))

with_client :
    Channel
    → Refs
    → List DracCtx
    → ClientCtx
    → (ℕ → Outcome Bool)
    → Option ℕ
    → Outcome (List DracCtx)
with_client channel r contexts ctx handshake none = ok contexts
with_client channel r contexts ctx handshake (some tls_conn) =
    finish_tls channel r contexts ctx handshake tls_conn

-- The same of glue_openssl.go, where openssl.Client may have an error of its own.
pub glue_start_openssl :
    Channel
    → Refs
    → List DracCtx
    → ClientCtx
    → (Option ℕ → Option ℕ)
    → (ℕ → Outcome Bool)
    → Outcome (List DracCtx)
glue_start_openssl channel r contexts ctx client handshake = do
  session ← dereference (session_of r contexts ctx)
  with_client channel r contexts ctx handshake (client (socket_of channel session))

-- The arguments of C.send_key and C.send_mouse. A C.int holds every uint16.
pub send_key : (keycode keydown : ℕ) → ℕ × ℕ
send_key keycode keydown = (keycode % 2 ^ 32, keydown)

pub send_mouse : (x y button_mask button_event : ℕ) → ℕ × ℕ × ℕ × ℕ
send_mouse x y button_mask button_event = (x, y, button_mask, button_event)
