-- ===== src/Vnc/Writer/Mailbox.antt =====
-- What the two goroutines promise together, as long as they are not stopped: a mailbox with room for one
-- frame, in which a newer frame takes the place of an older one, and from which a frame goes out for each
-- request.
use dracd.Common.{
  ℕ, ◌+◌, ◌-◌, ◌≡◌, refl, ap, ◌∙◌, List, [], ◌∷◌, ◌++◌, map, Option, none, some, true, arith, ltb,
  if◌then◌else◌,
}
use dracd.Vnc.Writer.{
  Phase, waiting, offering, stopping, stopped, Pipeline, start, Event, arrives, requested, taken,
  Next, moved, blocked, crashed, step, and_then, run,
}

-- `latest` is the frame in the box, `wanted` the requests to be answered, `sent` what went out.
pub record Mailbox : Type 0 where
  pub latest : Option ℕ
  pub wanted : ℕ
  pub sent : List ℕ

abbrev pub empty : Mailbox
empty = record { latest = none; wanted = 0; sent = [] }

pub data Op : Type 0 where
  put : ℕ → Op
  want : Op
  take : Op

-- Nothing can be taken from an empty box, or without a request.
unfoldable pub act : Mailbox → Op → Option Mailbox
act m (put f) = some (record m { latest = some f })
act m want = some (record m { wanted = m.wanted + 1 })
act m take = elim m.latest [
  | none ↦ none
  | some f ↦
      if ltb 0 m.wanted
      then some (record { latest = none; wanted = m.wanted - 1; sent = m.sent ++ f ∷ [] })
      else none
]

abbrev pub bind : Option Mailbox → (Mailbox → Option Mailbox) → Option Mailbox
bind none f = none
bind (some m) f = f m

unfoldable pub act_all : Mailbox → List Op → Option Mailbox
unfolding act
act_all m [] = some m
act_all m (o ∷ os) = bind (act m o) (λ m'. act_all m' os)

abbrev pub event : Op → Event
event (put f) = arrives (some f)
event want = requested
event take = taken

abbrev content : Phase → Option ℕ
content (offering frame) = frame
content _ = none

-- The goroutines as a mailbox, without their bookkeeping of references.
abbrev pub view : Pipeline → Mailbox
view p = record { latest = content p.phase; wanted = p.pending; sent = p.shown }

-- `none` if the goroutines cannot take the event.
abbrev pub viewed : Next → Option Mailbox
viewed (moved p) = some (view p)
viewed blocked = none
viewed (crashed e) = none

abbrev IsRunning : Phase → Type 0
IsRunning waiting = Unit
IsRunning (offering (some f)) = Unit
IsRunning _ = ⊥

abbrev Runs : Pipeline → Type 0
Runs p = IsRunning p.phase × (p.writing ≡ true)

abbrev RunsOn : Next → Type 0
RunsOn (moved p) = Runs p
RunsOn blocked = Unit
RunsOn (crashed e) = ⊥

step-act :
    (p : Pipeline) (ph : Phase) (o : Op)
    → p.phase ≡ ph
    → IsRunning ph
    → p.writing ≡ true
    → (viewed (step p (event o)) ≡ act (view p) o) × RunsOn (step p (event o))
unfolding step act
step-act p waiting (put f) e h w = ground arith
step-act p waiting want e h w = ground arith
step-act p waiting take e h w = ground arith
step-act p (offering none) o e h w = absurd h
step-act p (offering (some f)) (put g) e h w = ground arith
step-act p (offering (some f)) want e h w = ground arith
step-act p (offering (some f)) take e h w = ground arith
step-act p stopping o e h w = absurd h
step-act p stopped o e h w = absurd h

run-act_all :
    (p : Pipeline) (os : List Op) → Runs p → viewed (run p (map event os)) ≡ act_all (view p) os
unfolding run act_all
run-act_all p [] h = refl
run-act_all p (o ∷ os) h =
    let (same, on) = step-act p p.phase o refl h.0 h.1 in
    go (step p (event o)) on (λ q. run-act_all q os) ∙ ap (λ m. bind m (λ m'. act_all m' os)) same
  where
    go :
        (r : Next)
        → RunsOn r
        → ((q : Pipeline) → Runs q → viewed (run q (map event os)) ≡ act_all (view q) os)
        → viewed (and_then r (λ q. run q (map event os))) ≡ bind (viewed r) (λ m. act_all m os)
    go (moved q) on rest = rest q on
    go blocked on rest = refl
    go (crashed x) on rest = absurd on

-- From their start, the goroutines take exactly the arrivals, requests and hand-overs that the mailbox
-- does, and then stand as the mailbox does.
pub run_refines : (os : List Op) → viewed (run start (map event os)) ≡ act_all empty os
run_refines os = run-act_all start os (tt, refl)
