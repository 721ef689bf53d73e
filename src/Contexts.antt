-- ===== src/Contexts.antt =====
-- The memory of a session's C context (glue.go): ctrlReader allocates it and dracHandler frees it, and ctrlReader,
-- the videoReaders (drac.go) and the message loops of the clients (vnc.go) pass it to the C library.
pub mod Soundness
pub mod Alive
pub mod Ending
pub mod Early
pub mod Dangling
use dracd.Common.{ℕ, suc, ◌<◌, ◌≡◌, ◌⊎◌, true, false}
use dracd.Drac.Handler
use dracd.Drac.Handler.{
  Life, frame_comes, socket_opens, reader_ends, opened_by_client, opened_by_request,
}

-- dracCtx.ctx: nil, a context, or a pointer to one that is freed.
pub data Context : Type 0 where
  unset allocated freed : Context

-- What a function of the C library comes to, which reads through the pointer.
pub data Access : Type 0 where
  fine through_nil dangling : Access

pub access : Context → Access
access unset = through_nil
access allocated = fine
access freed = dangling

-- `started` counts the videoReaders that ctrlReader has started, `video` those in their loops, and `done` those at
-- `videoFinishedEvent <- 1`.
pub record Session : Type 0 where
  pub life : Life
  pub ctx : Context
  pub started : ℕ
  pub video : ℕ
  pub done : ℕ

-- Who opens a session.
pub data Opener : Type 0 where
  client request : Opener

abbrev pub opening : Opener → Life
opening client = opened_by_client
opening request = opened_by_request

-- A session as setupDracClient opens it.
abbrev pub begun : Opener → Session
begun o = record { life = opening o; ctx = unset; started = 0; video = 0; done = 0 }

-- The steps of the session that ctrlReader has no part in, and its first frame, which the C library brings to
-- ctrlReader or to a videoReader. A reader that has ended does not end again.
abbrev pub IsApart : Session → {l m : Life} → Handler.Step l m → Type 0
IsApart s (socket_opens l) = ⊥
IsApart s (reader_ends l) = ⊥
IsApart s (frame_comes l) = (s.ctx ≡ allocated) × ((s.life.reader_ended ≡ false) ⊎ (0 < s.video))
IsApart s _ = Unit

pub data Step : Session → Session → Type 0 where
  lives :
      (s : Session) (m : Life) (st : Handler.Step s.life m)
      → IsApart s st
      → Step s (record s { life = m })
  connects :
      (s : Session)
      → s.life.reader_ended ≡ false
      → s.ctx ≡ unset
      → Step s (record s { life = record s.life { has_socket = true } })
  allocates :
      (s : Session)
      → s.life.reader_ended ≡ false
      → s.life.has_socket ≡ true
      → s.ctx ≡ unset
      → Step s (record s { ctx = allocated })
  starts_video :
      (s : Session)
      → s.life.reader_ended ≡ false
      → s.ctx ≡ allocated
      → Step s (record s { started = suc s.started; video = suc s.video })
  stops_video :
      (s : Session) (n : ℕ) → s.video ≡ suc n → Step s (record s { video = n; done = suc s.done })
  ends_alone :
      (s : Session)
      → s.life.reader_ended ≡ false
      → s.started ≡ 0
      → Step s (record s { life = record s.life { reader_ended = true } })
  ends_after_video :
      (s : Session) (n : ℕ)
      → s.life.reader_ended ≡ false
      → s.done ≡ suc n
      → Step s (record s { life = record s.life { reader_ended = true }; done = n })
  frees :
      (s : Session) → s.life.running ≡ false → s.ctx ≡ allocated → Step s (record s { ctx = freed })

pub data Reach (s : Session) : Session → Type 0 where
  here : Reach s s
  next : {t u : Session} → Reach s t → Step t u → Reach s u
