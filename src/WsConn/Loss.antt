-- ===== src/WsConn/Loss.antt =====
-- Read gives the beginning of a message, and no later Read gives its rest.
use dracd.Common.{ℕ, ◌≤◌, ◌≡◌, ◌∙◌, List, [], ◌∷◌, ◌++◌, some, length}
use dracd.WsConn.{
  WebSocket, Status, create_ws_conn, read_from, with_next, with_reader, read_body, read, reads,
}

-- The documented behaviour of the websocket library, with `rest` the messages that NextReader has not
-- reached: NextReader goes on to the next message and gives its reader, whether or not the message before
-- it was read to its end; a reader gives at most as many bytes as are asked for, from the message on.
pub record IsFramed (lib : WebSocket) : Type 1 where
  pub rest : lib.Conn → List (List ℕ)
  pub reads_message : lib.Reader → List ℕ → lib.Conn → Type 0
  pub next_message :
      (conn : lib.Conn) (m : List ℕ) (ms : List (List ℕ))
      → rest conn ≡ m ∷ ms
      → (kind : ℕ) × (reader : lib.Reader) × (conn' : lib.Conn) × (lib.next_reader conn
          ≡ (some (kind, reader), conn'))
        × reads_message reader m conn'
        × (rest conn' ≡ ms)
  pub read_message :
      (conn : lib.Conn) (reader : lib.Reader) (m : List ℕ) (n : ℕ)
      → reads_message reader m conn
      → (bytes later : List ℕ) × (status : Status) × (conn' : lib.Conn) × (lib.read reader n conn
          ≡ (bytes, status, conn'))
        × (m ≡ bytes ++ later)
        × (length bytes ≤ n)
        × (rest conn' ≡ rest conn)

-- Each chunk is the beginning of its message, and at most n bytes long.
pub data Beginnings (n : ℕ) : List (List ℕ) → List (List ℕ) → Type 0 where
  nothing : Beginnings n [] []
  chunk :
      {bytes m : List ℕ} {chunks ms : List (List ℕ)} (later : List ℕ)
      → m ≡ bytes ++ later
      → length bytes ≤ n
      → Beginnings n chunks ms
      → Beginnings n (bytes ∷ chunks) (m ∷ ms)

module _ (lib : WebSocket) (framed : IsFramed lib) where
  open framed use {rest, next_message, read_message}

  -- With k messages to come, k reads of n bytes give one chunk of each, its beginning: what a message has
  -- beyond n bytes is never read.
  pub reads-Beginnings :
      (ms : List (List ℕ)) (n : ℕ) (conn : lib.Conn)
      → rest conn ≡ ms
      → Beginnings n (reads lib (length ms) (create_ws_conn lib) n conn) ms
  unfolding reads read read_body with_reader with_next read_from create_ws_conn
  reads-Beginnings [] n conn e = nothing
  reads-Beginnings (m ∷ ms) n conn e =
      let (kind, reader, conn1, next, has, left) = next_message conn m ms e in
      let (bytes, later, status, conn2, got, whole, small, same) =
        read_message conn1 reader m n has in
      rw (next, got) (chunk later whole small (reads-Beginnings ms n conn2 (same ∙ left)))
