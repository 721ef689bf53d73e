-- ===== src/Vnc/Writer/Stopped.antt =====
-- bufferedVideoWriter past its loop.
use dracd.Common.{
  ℕ, ◌≡◌, refl, subst, ap, Option, none, some, arith, ◌⊎◌, inl, inr, nil_dereference,
}
use dracd.Vnc.Writer.{
  Phase, waiting, offering, stopping, stopped, Pipeline, Event, arrives, requested, taken, stops,
  writer_stops, Next, moved, blocked, crashed, replace, stop, arrive, take_frame, stop_buffer,
  stop_writer, step,
}

-- It receives nothing from videoChannel any more.
abbrev pub IsStopped : Phase → Type 0
IsStopped stopping = Unit
IsStopped stopped = Unit
IsStopped _ = ⊥

arrive_blocks :
    (p : Pipeline) (ph : Phase) (new : Option ℕ)
    → p.phase ≡ ph
    → IsStopped ph
    → step p (arrives new) ≡ blocked
unfolding step arrive
arrive_blocks p waiting new e h = absurd h
arrive_blocks p (offering f) new e h = absurd h
arrive_blocks p stopping new e h = rw e
arrive_blocks p stopped new e h = rw e

pub stopped_blocks :
    (p : Pipeline) (new : Option ℕ) → IsStopped p.phase → step p (arrives new) ≡ blocked
stopped_blocks p new h = arrive_blocks p p.phase new refl h

abbrev StaysStopped : Next → Type 0
StaysStopped (moved q) = IsStopped q.phase
StaysStopped _ = Unit

stays :
    (p : Pipeline) (ph : Phase) (e : Event) → p.phase ≡ ph → IsStopped ph → StaysStopped (step p e)
unfolding step arrive take_frame stop_buffer stop_writer
stays p waiting e q h = absurd h
stays p (offering f) e q h = absurd h
stays p stopping (arrives new) q h = ground arith
stays p stopping requested q h = ground arith
stays p stopping taken q h = ground arith
stays p stopping stops q h = ground arith
stays p stopping writer_stops q h = ground arith
stays p stopped (arrives new) q h = ground arith
stays p stopped requested q h = ground arith
stays p stopped taken q h = ground arith
stays p stopped stops q h = ground arith
stays p stopped writer_stops q h = ground arith

-- It stays there.
pub step-IsStopped :
    (p q : Pipeline) (e : Event) → IsStopped p.phase → step p e ≡ moved q → IsStopped q.phase
step-IsStopped p q e h m = subst StaysStopped m (stays p p.phase e refl h)

ends : (p : Pipeline) (ph : Phase) → p.phase ≡ ph → StaysStopped (step p stops)
unfolding step stop_buffer stop
ends p waiting e = ground arith
ends p (offering f) e = ground arith
ends p stopping e = ground arith
ends p stopped e = ground arith

-- The stop signal takes it there.
pub stops-IsStopped : (p q : Pipeline) → step p stops ≡ moved q → IsStopped q.phase
stops-IsStopped p q m = subst StaysStopped m (ends p p.phase refl)

accepts :
    (p : Pipeline) (ph : Phase)
    → p.phase ≡ ph
    → ¬ IsStopped ph
    → (q : Pipeline) × (step p stops ≡ moved q)
unfolding step stop_buffer stop
accepts p waiting e h = (_, ap (λ ph. stop_buffer ph p) e)
accepts p (offering f) e h = (_, ap (λ ph. stop_buffer ph p) e)
accepts p stopping e h = absurd (h tt)
accepts p stopped e h = absurd (h tt)

-- Before, it takes the stop signal.
pub stops_moves : (p : Pipeline) → ¬ IsStopped p.phase → (q : Pipeline) × (step p stops ≡ moved q)
stops_moves p h = accepts p p.phase refl h

-- What a nil frame does: a crash at once, or at the next one.
abbrev pub NilCrashes : Pipeline → Type 0
NilCrashes p =
    (step p (arrives none) ≡ crashed nil_dereference)
    ⊎ ((q : Pipeline) × (step p (arrives none) ≡ moved q)
        × (step q (arrives none) ≡ crashed nil_dereference))

takes_nil : (p : Pipeline) (ph : Phase) → p.phase ≡ ph → ¬ IsStopped ph → NilCrashes p
unfolding step arrive replace
takes_nil p waiting e h = inr (_, ap (λ ph. arrive ph p none) e, refl)
takes_nil p (offering none) e h = inl (ap (λ ph. arrive ph p none) e)
takes_nil p (offering (some f)) e h = inr (_, ap (λ ph. arrive ph p none) e, refl)
takes_nil p stopping e h = absurd (h tt)
takes_nil p stopped e h = absurd (h tt)

-- Without the stop signal, two nil frames are one too many.
pub nil_crashes : (p : Pipeline) → ¬ IsStopped p.phase → NilCrashes p
nil_crashes p h = takes_nil p p.phase refl h
