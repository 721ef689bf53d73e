-- ===== src/Requests/Counts.antt =====
-- The requests of a session, as its handler counts them.
use dracd.Common.{ℕ, suc, Bool, refl, ◌+◌, ◌≡◌, inl, inr, List, true, Text, arith}
use dracd.Drac.Handler
use dracd.Drac.Handler.{
  Life, of_image, of_visitor, on_finished, on_signal, on_timeout, client_joins, request_joins,
  client_leaves, request_leaves, frame_comes, wait_ends, socket_opens, reader_ends, finishes,
  signalled, times_out, opened_by_client, opened_by_request,
}
use dracd.Drac.Handler.Lifetime
use dracd.Drac.Handler.Lifetime.{Step-IsValid, Reach_served}
use dracd.Drac.Sessions.{DracState}
use dracd.Requests.{
  is_closed, Session, Entrant, vnc_client, image_request, visitor, begun, IsApart, Step, asks,
  visits, joins, arrives, passes, answered, departs, lives, streams, opens_video, closes_video,
  Reach, here, next,
}

-- Everyone that the handler counts is at one place, and a finished session has no ctrlReader.
pub record Counted (s : Session) : Type 0 where
  pub valid : Lifetime.IsValid s.life
  pub counted : s.life.others ≡ s.joining + s.arriving + s.waiting + s.let_in + s.visiting
  pub asking : s.life.new_others ≡ s.joining + s.arriving
  pub waits : s.life.waiting ≡ s.waiting
  pub reader : s.life.finished ≡ true → s.life.reader_ended ≡ true

-- What a step of the session that is none of a request does.
pub apart-others : {l m : Life} (st : Handler.Step l m) → IsApart st → m.others ≡ l.others
unfolding on_finished on_signal on_timeout
apart-others (client_joins l r) a = ground arith
apart-others (request_joins l r) a = absurd a
apart-others (client_leaves l n e i) a = ground arith
apart-others (request_leaves l n e i) a = absurd a
apart-others (frame_comes l) a = ground arith
apart-others (wait_ends l n e f) a = ground arith
apart-others (socket_opens l) a = ground arith
apart-others (reader_ends l) a = ground arith
apart-others (finishes l r e f) a = ground arith
apart-others (signalled l n b c w r e h') a = ground arith
apart-others (times_out l r) a = ground arith

apart-asking :
    {l m : Life} (st : Handler.Step l m)
    → IsApart st
    → (m.new_others ≡ l.new_others) × (m.waiting ≡ l.waiting)
unfolding on_finished on_signal on_timeout
apart-asking (client_joins l r) a = (refl, refl)
apart-asking (request_joins l r) a = absurd a
apart-asking (client_leaves l n e i) a = (refl, refl)
apart-asking (request_leaves l n e i) a = absurd a
apart-asking (frame_comes l) a = absurd a
apart-asking (wait_ends l n e f) a = absurd a
apart-asking (socket_opens l) a = (refl, refl)
apart-asking (reader_ends l) a = (refl, refl)
apart-asking (finishes l r e f) a = (refl, refl)
apart-asking (signalled l n b c w r e h) a = a
apart-asking (times_out l r) a = (refl, refl)

-- What the frames leave of the session.
framed-IsValid :
    (l : Life) (b : Bool) → Lifetime.IsValid l → Lifetime.IsValid (record l { framed = b })
framed-IsValid l b v = ground arith

waited-IsValid :
    (l : Life) (n : ℕ)
    → l.waiting ≡ suc n
    → Lifetime.IsValid l
    → Lifetime.IsValid (record l { waiting = n })
waited-IsValid l n e v = ground arith

ends_read :
    {l m : Life} (st : Handler.Step l m)
    → (l.finished ≡ true → l.reader_ended ≡ true)
    → m.finished ≡ true
    → m.reader_ended ≡ true
unfolding on_finished on_signal on_timeout
ends_read (client_joins l r) h f = ground arith
ends_read (request_joins l r) h f = ground arith
ends_read (client_leaves l n e i) h f = ground arith
ends_read (request_leaves l n e i) h f = ground arith
ends_read (frame_comes l) h f = ground arith
ends_read (wait_ends l n e f') h f = ground arith
ends_read (socket_opens l) h f = ground arith
ends_read (reader_ends l) h f = ground arith
ends_read (finishes l r e g) h f = ground arith
ends_read (signalled l n b c w r e h') h f = ground arith
ends_read (times_out l r) h f = ground arith

pub Step-Counted : {s t : Session} → Step s t → Counted s → Counted t
unfolding on_signal
Step-Counted (asks s r) h = ground (arith, Step-IsValid (request_joins s.life r) h.valid)
Step-Counted (visits s r) h = ground (arith, Step-IsValid (request_joins s.life r) h.valid)
Step-Counted (joins s n k b w r e o) h =
    let took =
      signalled s.life k s.life.new_clients b (suc s.life.waiting) r e (of_image refl o refl) in
    ground (arith, Step-IsValid took h.valid)
Step-Counted (arrives s n k b w r e o) h =
    let took =
      signalled s.life k s.life.new_clients b s.life.waiting r e (of_visitor refl o refl) in
    ground (arith, Step-IsValid took h.valid)
Step-Counted (passes s n k w l c) h = ground (arith, waited-IsValid s.life k l h.valid)
Step-Counted (answered s n k i o) h =
    ground (arith, Step-IsValid (request_leaves s.life k o (omega arith)) h.valid)
Step-Counted (departs s n k i o) h =
    ground (arith, Step-IsValid (request_leaves s.life k o (omega arith)) h.valid)
Step-Counted (lives s m st a) h =
    ground
      (arith, Step-IsValid st h.valid, apart-others st a, apart-asking st a, ends_read st h.reader)
Step-Counted (streams s t st a) h = ground (arith, framed-IsValid s.life (is_closed t) h.valid)
Step-Counted (opens_video s r) h = ground arith
Step-Counted (closes_video s n r) h = ground arith

begun-Counted :
    (e : Entrant) (host : Text) (now : ℕ) (states : List (Text × DracState))
    → Counted (begun e host now states)
begun-Counted vnc_client host now states =
    ground (arith, Reach_served opened_by_client (inl Handler.here))
begun-Counted image_request host now states =
    ground (arith, Reach_served opened_by_request (inr Handler.here))
begun-Counted visitor host now states =
    ground (arith, Reach_served opened_by_request (inr Handler.here))

pub Reach-Counted :
    (e : Entrant) (host : Text) (now : ℕ) (states : List (Text × DracState)) {s : Session}
    → Reach (begun e host now states) s
    → Counted s
Reach-Counted e host now states here = begun-Counted e host now states
Reach-Counted e host now states (next r st) = Step-Counted st (Reach-Counted e host now states r)
