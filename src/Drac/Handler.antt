-- ===== src/Drac/Handler.antt =====
-- dracHandler, the goroutine that watches over one session, beside those that join and leave it and
-- the control reader that ends. What runs under dracmapLock is one step; a goroutine at
-- `dracCtx.clientEvent <- 1` waits until the handler's select takes its signal.
pub mod Lifetime
pub mod Winding
use dracd.Common.{ℕ, suc, ◌+◌, ◌≤◌, Bool, true, false, ◌&&◌, ◌||◌, ◌≡◌, leb, if◌then◌else◌}

-- One session. `clients` and `others` are vncClients.Len() and otherClientCount, `registered` says that
-- dracmap holds the session, `signals` counts the goroutines at the send on clientEvent: of them `new_clients`
-- and `new_others` are still in setupDracClient, and the others leave. `waiting` are the requests for an image at
-- `<-dracCtx.firstFrameEvent`, and `framed` says that this channel is closed. `reader_ended` says that ctrlReader is at its send on dracFinishedEvent or past it, and `running` that the handler
-- is in its loop.
pub record Life : Type 0 where
  pub clients : ℕ
  pub others : ℕ
  pub registered : Bool
  pub signals : ℕ
  pub new_clients : ℕ
  pub new_others : ℕ
  pub waiting : ℕ
  pub framed : Bool
  pub reader_ended : Bool
  pub finished : Bool
  pub has_socket : Bool
  pub socket_closed : Bool
  pub running : Bool

-- `dracCtx.otherClientCount <= 0 && dracCtx.vncClients.Len() <= 0`
abbrev pub is_idle : Life → Bool
is_idle l = leb l.others 0 && leb l.clients 0

-- `case <-dracFinishedEvent`: the session leaves the map; the loop ends if nobody is in the session, and
-- else the clients' connections are closed.
unfoldable pub on_finished : Life → Life
on_finished l = record l {
  finished = true;
  registered = false;
  running = if is_idle l then false else true;
}

-- `case <-dracCtx.clientEvent`.
unfoldable pub on_signal : Life → Life
on_signal l = record l { running = if l.finished && is_idle l then false else true }

-- `case <-time.After(time.Second * 30)`: with nobody in the session its control socket is closed.
unfoldable pub on_timeout : Life → Life
on_timeout l = record l { socket_closed = l.socket_closed || (is_idle l && l.has_socket) }

-- Whose signal the handler takes, where `n` are left of the signals: a client's that goes on to its message loop, a
-- request's for an image, which goes on to wait for the first frame, a request's of the connect page, or one of
-- someone that leaves. `a`, `b` and `w` are the counts of the new clients, of the new requests and of those that wait
-- behind it.
pub data Heard (l : Life) (n a b w : ℕ) : Type 0 where
  of_client : l.new_clients ≡ suc a → l.new_others ≡ b → l.waiting ≡ w → Heard l n a b w
  of_image : l.new_clients ≡ a → l.new_others ≡ suc b → suc l.waiting ≡ w → Heard l n a b w
  of_visitor : l.new_clients ≡ a → l.new_others ≡ suc b → l.waiting ≡ w → Heard l n a b w
  of_leaver : l.new_clients ≡ a → l.new_others ≡ b → l.waiting ≡ w → a + b ≤ n → Heard l n a b w

-- The session behind the receive on clientEvent.
abbrev pub without_signal : Life → (n a b w : ℕ) → Life
without_signal l n a b w = record l { signals = n; new_clients = a; new_others = b; waiting = w }

-- What can happen next. Only those leave whose own first signal has been taken, and a request for an image
-- only behind its wait. Only a session in the map can be joined.
pub data Step : Life → Life → Type 0 where
  client_joins :
      (l : Life)
      → l.registered ≡ true
      → Step l (record l {
        clients = l.clients + 1;
        signals = l.signals + 1;
        new_clients = l.new_clients + 1;
      })
  request_joins :
      (l : Life)
      → l.registered ≡ true
      → Step l (record l {
        others = l.others + 1;
        signals = l.signals + 1;
        new_others = l.new_others + 1;
      })
  client_leaves :
      (l : Life) (n : ℕ)
      → l.clients ≡ suc n
      → l.new_clients ≤ n
      → Step l (record l { clients = n; signals = l.signals + 1 })
  request_leaves :
      (l : Life) (n : ℕ)
      → l.others ≡ suc n
      → l.new_others + l.waiting ≤ n
      → Step l (record l { others = n; signals = l.signals + 1 })
  frame_comes : (l : Life) → Step l (record l { framed = true })
  wait_ends :
      (l : Life) (n : ℕ) → l.waiting ≡ suc n → l.framed ≡ true → Step l (record l { waiting = n })
  socket_opens : (l : Life) → Step l (record l { has_socket = true })
  reader_ends : (l : Life) → Step l (record l { reader_ended = true })
  finishes :
      (l : Life)
      → l.running ≡ true
      → l.reader_ended ≡ true
      → l.finished ≡ false
      → Step l (on_finished l)
  signalled :
      (l : Life) (n a b w : ℕ)
      → l.running ≡ true
      → l.signals ≡ suc n
      → Heard l n a b w
      → Step l (on_signal (without_signal l n a b w))
  times_out : (l : Life) → l.running ≡ true → Step l (on_timeout l)

pub data Reach (l : Life) : Life → Type 0 where
  here : Reach l l
  next : {m n : Life} → Reach l m → Step m n → Reach l n

-- A session as setupDracClient opens it for a VNC client, and for a request.
abbrev pub opened_by_client : Life
opened_by_client = record {
  clients = 1;
  others = 0;
  registered = true;
  signals = 1;
  new_clients = 1;
  new_others = 0;
  waiting = 0;
  framed = false;
  reader_ended = false;
  finished = false;
  has_socket = false;
  socket_closed = false;
  running = true;
}

abbrev pub opened_by_request : Life
opened_by_request = record opened_by_client {
  clients = 0;
  others = 1;
  new_clients = 0;
  new_others = 1;
}
