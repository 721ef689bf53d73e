-- ===== src/Vnc/Pacing.antt =====
-- The message loop of handleVncConnection beside the two video writers of its client (vnc.go). A request for an
-- update is handed from the one to the other on sendVideoChannel, which has no buffer.
pub mod Paced
pub mod Progress
use dracd.Common.{suc, ◌≡◌, List, [], ◌∷◌, length}
use dracd.Vnc.Messages.{Session, Action, send_key, send_mouse, request_update, client_loop}
use dracd.Vnc.Reader.{Input}
use dracd.Vnc.Writer
use dracd.Vnc.Writer.Owing.{IsOwn}
use dracd.Vnc.Writer.{Pipeline, Event, requested, stops, moved}

-- `todo` are the calls of the message loop that are still to be made.
pub record Dialogue : Type 0 where
  pub todo : List Action
  pub writers : Pipeline

-- The loop on some input, with the writers as handleVncConnection starts them.
abbrev pub begun : Session → Input → Dialogue
begun s input = record {
  todo = (client_loop (suc (length input)) s input).0;
  writers = Writer.start;
}

-- A call that goes to the C library.
abbrev pub IsInput : Action → Type 0
IsInput (send_key keycode down) = Unit
IsInput (send_mouse x y mask event) = Unit
IsInput request_update = ⊥

-- Behind its loop handleVncConnection sends the stop signal.
pub data Step : Dialogue → Dialogue → Type 0 where
  sends_input :
      (d : Dialogue) (a : Action) (rest : List Action)
      → d.todo ≡ a ∷ rest
      → IsInput a
      → Step d (record d { todo = rest })
  asks_frame :
      (d : Dialogue) (rest : List Action) (q : Pipeline)
      → d.todo ≡ request_update ∷ rest
      → Writer.step d.writers requested ≡ moved q
      → Step d (record { todo = rest; writers = q })
  goes_on :
      (d : Dialogue) (e : Event) (q : Pipeline)
      → IsOwn e
      → Writer.step d.writers e ≡ moved q
      → Step d (record d { writers = q })
  ends :
      (d : Dialogue) (q : Pipeline)
      → d.todo ≡ []
      → Writer.step d.writers stops ≡ moved q
      → Step d (record d { writers = q })

pub data Reach (d : Dialogue) : Dialogue → Type 0 where
  here : Reach d d
  next : {e f : Dialogue} → Reach d e → Step e f → Reach d f
