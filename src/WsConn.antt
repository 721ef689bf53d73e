-- ===== src/WsConn.antt =====
-- wsconn.go: a websocket as a net.Conn. The websocket library is a parameter: a connection, which its
-- calls change, and readers of single messages. The methods have value receivers, so what they assign to
-- the fields of `w` is lost when they return.
pub mod Loss
use dracd.Common.{
  ℕ, zero, suc, List, [], ◌∷◌, Option, none, some, Bool, true, false, length, Text, Outcome, panics,
  unimplemented,
}

-- What a call of the library comes to.
pub data Status : Type 0 where
  fine end_of_file failed : Status

-- The library's calls that wsconn.go makes.
pub record WebSocket : Type 1 where
  pub Conn : Type 0
  pub Reader : Type 0
  pub next_reader : Conn → Option (ℕ × Reader) × Conn
  pub read : Reader → ℕ → Conn → List ℕ × Status × Conn
  pub write_message : List ℕ → Conn → Bool × Conn
  pub close : Conn → Bool × Conn
  pub set_read_deadline : ℕ → Conn → Bool × Conn
  pub set_write_deadline : ℕ → Conn → Bool × Conn
  pub local_addr : Conn → Text
  pub remote_addr : Conn → Text

module _ (lib : WebSocket) where
  open lib use {Conn, Reader}

  -- The struct but its connection, which is a pointer and so shared by the copies.
  pub record Fields : Type 0 where
    pub reader : Option Reader
    pub message_type : ℕ

  pub create_ws_conn : Fields
  create_ws_conn = record { reader = none; message_type = 0 }

  -- From `w.reader.Read(b)` on, and the fields of the copy `w` at the return.
  read_from : Fields → Reader → ℕ → Conn → Fields × List ℕ × Status × Conn
  read_from w reader n conn =
      let (bytes, status, conn') = lib.read reader n conn in
      (
        record w {
          reader = elim status [ end_of_file ↦ none | fine ↦ some reader | failed ↦ some reader ];
        },
        bytes,
        status,
        conn',
      )

  with_next : Fields → ℕ → Option (ℕ × Reader) × Conn → Fields × List ℕ × Status × Conn
  with_next w n (none, conn) = (w, [], failed, conn)
  with_next w n (some (kind, reader), conn) =
      read_from (record w { message_type = kind; reader = some reader }) reader n conn

  with_reader : Option Reader → Fields → ℕ → Conn → Fields × List ℕ × Status × Conn
  with_reader none w n conn = with_next w n (lib.next_reader conn)
  with_reader (some reader) w n conn = read_from w reader n conn

  -- The body of Read on its copy of the struct.
  read_body : Fields → ℕ → Conn → Fields × List ℕ × Status × Conn
  read_body w n conn = with_reader w.reader w n conn

  -- Read, as its caller sees it: the struct is as before.
  pub read : Fields → ℕ → Conn → Fields × List ℕ × Status × Conn
  read w n conn = let (_, bytes, status, conn') = read_body w n conn in (w, bytes, status, conn')

  -- Write: the number of bytes written, none for an error.
  pub write : List ℕ → Conn → Option ℕ × Conn
  write b conn =
      let (done, conn') = lib.write_message b conn in
      (elim done [ true ↦ some (length b) | false ↦ none ], conn')

  -- Close, the addresses, SetReadDeadline and SetWriteDeadline pass on to the library.
  pub close : Conn → Bool × Conn
  close = lib.close

  pub set_read_deadline : ℕ → Conn → Bool × Conn
  set_read_deadline = lib.set_read_deadline

  pub set_write_deadline : ℕ → Conn → Bool × Conn
  set_write_deadline = lib.set_write_deadline

  pub local_addr : Conn → Text
  local_addr = lib.local_addr

  pub remote_addr : Conn → Text
  remote_addr = lib.remote_addr

  -- SetDeadline.
  pub set_deadline : ℕ → Conn → Outcome (Bool × Conn)
  set_deadline ts conn = panics unimplemented

  -- Some reads of n bytes, one after the other, as long as they do not fail.
  pub reads : ℕ → Fields → ℕ → Conn → List (List ℕ)
  reads zero w n conn = []
  reads (suc k) w n conn = let (w', bytes, _, conn') = read w n conn in bytes ∷ reads k w' n conn'
