-- ===== src/Disconnect.antt =====
-- A client that goes, beside the frames that are on their way to it: handleVncConnection and its deferred
-- teardownDracClient, the two video writers of vnc.go, and the loop of videoUpdate in drac.go, which sends
-- on a client's videoChannel without dracmapLock.
pub mod Quiet
pub mod Crash
use dracd.Common.{ℕ, ◌≡◌, List, [], ◌∷◌, ◌++◌, none, some, Bool, true, false, Panic}
use dracd.Vnc.Writer
use dracd.Vnc.Writer.{
  Pipeline, Event, arrives, requested, taken, stops, writer_stops, moved, crashed,
}

-- Where handleVncConnection stands: in its message loop, at `videoWriterStopSignal <- 1`, in the deferred
-- teardownDracClient before it has the lock, or behind it.
pub data Main : Type 0 where
  in_loop at_stop at_teardown gone : Main

-- `listed` says that the client is in vncClients, and `sending` are the frames of the goroutines that stand
-- at `vncClient.videoChannel <- frame` for this client.
pub record Link : Type 0 where
  pub main : Main
  pub writers : Pipeline
  pub listed : Bool
  pub channel_closed : Bool
  pub sending : List ℕ

-- The client behind setupDracClient.
abbrev pub joined : Link
joined = record {
  main = in_loop;
  writers = Writer.start;
  listed = true;
  channel_closed = false;
  sending = [];
}

-- What the writers do without videoChannel and the stop signal of handleVncConnection.
abbrev pub IsOwn : Event → Type 0
IsOwn requested = Unit
IsOwn taken = Unit
IsOwn writer_stops = Unit
IsOwn _ = ⊥

pub data Step : Link → Link → Type 0 where
  comes_to :
      (l : Link) (f : ℕ) → l.listed ≡ true → Step l (record l { sending = l.sending ++ f ∷ [] })
  hands_over :
      (l : Link) (front back : List ℕ) (f : ℕ) (q : Pipeline)
      → l.sending ≡ front ++ f ∷ back
      → l.channel_closed ≡ false
      → Writer.step l.writers (arrives (some f)) ≡ moved q
      → Step l (record l { writers = q; sending = front ++ back })
  goes_on :
      (l : Link) (e : Event) (q : Pipeline)
      → IsOwn e
      → Writer.step l.writers e ≡ moved q
      → Step l (record l { writers = q })
  ends : (l : Link) → l.main ≡ in_loop → Step l (record l { main = at_stop })
  signals :
      (l : Link) (q : Pipeline)
      → l.main ≡ at_stop
      → Writer.step l.writers stops ≡ moved q
      → Step l (record l { main = at_teardown; writers = q })
  panics : (l : Link) → l.main ≡ in_loop → Step l (record l { main = at_teardown })
  tears_down :
      (l : Link)
      → l.main ≡ at_teardown
      → Step l (record l { main = gone; listed = false; channel_closed = true })
  takes_nil :
      (l : Link) (q : Pipeline)
      → l.channel_closed ≡ true
      → Writer.step l.writers (arrives none) ≡ moved q
      → Step l (record l { writers = q })

pub data Reach (l : Link) : Link → Type 0 where
  here : Reach l l
  next : {m n : Link} → Reach l m → Step m n → Reach l n

-- What makes the program crash: a send on the closed channel, or a nil frame that the writers dereference.
pub data Crashes (l : Link) : Type 0 where
  send_on_closed : (f : ℕ) (fs : List ℕ) → l.channel_closed ≡ true → l.sending ≡ f ∷ fs → Crashes l
  nil_frame :
      (x : Panic)
      → l.channel_closed ≡ true
      → Writer.step l.writers (arrives none) ≡ crashed x
      → Crashes l
