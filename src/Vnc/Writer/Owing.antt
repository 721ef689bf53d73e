-- ===== src/Vnc/Writer/Owing.antt =====
-- The frames that the two goroutines have sent, and those that they have still to send.
use dracd.Common.{
  ℕ, suc, ◌+◌, ◌-◌, ◌≡◌, refl, subst, [], ◌∷◌, ◌++◌, none, some, true, length, length-append, arith,
}
use dracd.Vnc.Writer.{
  Phase, waiting, offering, stopping, stopped, Pipeline, Event, arrives, requested, taken, stops,
  writer_stops, Next, moved, replace, show, stop, arrive, take_frame, stop_buffer, stop_writer,
  step,
}

-- An event that is neither a request nor the stop signal; the channel of the frames is open.
abbrev pub IsOwn : Event → Type 0
IsOwn (arrives (some f)) = Unit
IsOwn taken = Unit
IsOwn writer_stops = Unit
IsOwn _ = ⊥

-- Each frame that was sent and each that is pending.
abbrev pub owed : Pipeline → ℕ
owed p = length p.shown + p.pending

-- bufferedVideoWriter is in its loop, with a frame or without one, and videoWriter runs.
abbrev pub IsIn : Phase → Type 0
IsIn waiting = Unit
IsIn (offering (some f)) = Unit
IsIn _ = ⊥

abbrev pub IsServing : Pipeline → Type 0
IsServing p = IsIn p.phase × (p.writing ≡ true)

abbrev Owes : Pipeline → Next → Type 0
Owes p (moved q) = (owed q ≡ owed p) × (IsServing p → IsServing q)
Owes p _ = Unit

owes : (p : Pipeline) (ph : Phase) (e : Event) → p.phase ≡ ph → IsOwn e → Owes p (step p e)
unfolding step arrive replace take_frame show stop_writer
owes p ph requested q o = absurd o
owes p ph stops q o = absurd o
owes p ph (arrives none) q o = absurd o
owes p waiting (arrives (some f)) q o = rw q (refl, λ h. (tt, h.1))
owes p (offering none) (arrives (some f)) q o = rw q tt
owes p (offering (some g)) (arrives (some f)) q o = rw q (refl, λ h. (tt, h.1))
owes p stopping (arrives (some f)) q o = rw q tt
owes p stopped (arrives (some f)) q o = rw q tt
owes p waiting taken q o = rw q tt
owes p (offering none) taken q o = ground arith
owes p (offering (some f)) taken q o = ground (arith, length-append p.shown (f ∷ []))
owes p stopping taken q o = rw q tt
owes p stopped taken q o = rw q tt
owes p waiting writer_stops q o = rw q tt
owes p (offering f) writer_stops q o = rw q tt
owes p stopping writer_stops q o = ground arith
owes p stopped writer_stops q o = rw q tt

-- Such an event leaves what is owed, and whether the goroutines serve.
pub step-owed :
    (p q : Pipeline) (e : Event)
    → IsOwn e
    → step p e ≡ moved q
    → (owed q ≡ owed p) × (IsServing p → IsServing q)
step-owed p q e o m = subst (Owes p) m (owes p p.phase e refl o)

-- A request is owed a frame.
pub requested-owed :
    (p q : Pipeline)
    → step p requested ≡ moved q
    → (owed q ≡ suc (owed p)) × (IsServing p → IsServing q)
unfolding step
requested-owed p q m = ground arith

-- The stop signal changes nothing of it.
StopOwes : Pipeline → Next → Type 0
StopOwes p (moved q) = owed q ≡ owed p
StopOwes p _ = Unit

stop_owes : (p : Pipeline) (ph : Phase) → p.phase ≡ ph → StopOwes p (step p stops)
unfolding step stop_buffer stop StopOwes
stop_owes p waiting e = rw e refl
stop_owes p (offering f) e = rw e refl
stop_owes p stopping e = rw e tt
stop_owes p stopped e = rw e tt

pub stops-owed : (p q : Pipeline) → step p stops ≡ moved q → owed q ≡ owed p
unfolding StopOwes
stops-owed p q m = subst (StopOwes p) m (stop_owes p p.phase refl)

-- While videoWriter runs, it takes each request.
pub requested-moves :
    (p : Pipeline)
    → p.writing ≡ true
    → step p requested ≡ moved (record p { pending = p.pending + 1 })
unfolding step
requested-moves p w = rw w refl

pub arrives-moves :
    (p : Pipeline) (f : ℕ)
    → p.phase ≡ waiting
    → step p (arrives (some f))
      ≡ moved (record p { phase = offering (some f); received = p.received ++ f ∷ [] })
unfolding step arrive
arrives-moves p f e = rw e refl

-- With a frame and a request, the frame can be sent.
pub taken-moves :
    (p : Pipeline) (f n : ℕ)
    → p.phase ≡ offering (some f)
    → p.writing ≡ true
    → p.pending ≡ suc n
    → (q : Pipeline) × (step p taken ≡ moved q)
      × (q.phase ≡ waiting)
      × (q.writing ≡ true)
      × (q.pending ≡ n)
unfolding step take_frame show
taken-moves p f n e w k = (
  record p {
    phase = waiting;
    pending = p.pending - 1;
    released = p.released ++ f ∷ [];
    shown = p.shown ++ f ∷ [];
  },
  rw e (ground (arith, w, k)),
  refl,
  w,
  omega (arith, k),
)
