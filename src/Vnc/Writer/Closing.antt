-- ===== src/Vnc/Writer/Closing.antt =====
-- The end of the two goroutines, and what a closed videoChannel does to them.
use dracd.Common.{
  All, subst, inl, inr, ◌⊎◌, ℕ, ◌≡◌, ◌≢◌, refl, List, [], ◌∷◌, ◌++◌, Option, none, some, true,
  false, arith, nil_dereference, Panic,
}
use dracd.Vnc.Writer.{
  Phase, waiting, offering, stopped, Pipeline, start, Event, arrives, requested, taken, stops,
  writer_stops, Next, moved, blocked, crashed, references, replace, show, stop, arrive, take_frame,
  stop_buffer, stop_writer, step, and_then, run,
}

-- If videoChannel is closed before the stop signal, bufferedVideoWriter takes a nil frame from it, and
-- its next receive makes it panic.
closed_channel_crashes :
    (p : Pipeline)
    → p.phase ≡ waiting
    → run p (arrives none ∷ arrives none ∷ []) ≡ crashed nil_dereference
unfolding run step arrive replace
closed_channel_crashes p e = ground arith

-- No nil frame arrives.
abbrev IsOpen : Event → Type 0
IsOpen (arrives none) = ⊥
IsOpen _ = Unit

-- The frame that is buffered is a frame.
abbrev HasFrame : Phase → Type 0
HasFrame (offering none) = ⊥
HasFrame _ = Unit

abbrev Sound : Next → Type 0
Sound (moved q) = HasFrame q.phase
Sound blocked = Unit
Sound (crashed x) = ⊥

step-Sound :
    (p : Pipeline) (ph : Phase) (e : Event)
    → p.phase ≡ ph
    → HasFrame ph
    → IsOpen e
    → Sound (step p e)
unfolding step arrive replace show stop take_frame stop_buffer stop_writer
step-Sound p (offering none) e q h o = absurd h
step-Sound p ph (arrives none) q h o = absurd o
step-Sound p ph (arrives (some f)) q h o = ground arith
step-Sound p ph requested q h o = ground arith
step-Sound p ph taken q h o = ground arith
step-Sound p ph stops q h o = ground arith
step-Sound p ph writer_stops q h o = ground arith

run-Sound : (p : Pipeline) (es : List Event) → HasFrame p.phase → All IsOpen es → Sound (run p es)
unfolding run
run-Sound p [] h o = h
run-Sound p (e ∷ es) h o =
    go (step p e) (step-Sound p p.phase e refl h o.0) (λ q k. run-Sound q es k o.1)
  where
    go :
        (r : Next)
        → Sound r
        → ((q : Pipeline) → HasFrame q.phase → Sound (run q es))
        → Sound (and_then r (λ q. run q es))
    go (moved q) k rest = rest q k
    go blocked k rest = tt
    go (crashed x) k rest = k

-- As long as videoChannel is not closed, no sequence of events makes the goroutines panic.
run_safe : (es : List Event) (x : Panic) → All IsOpen es → run start es ≢ crashed x
run_safe es x o e = subst Sound e (run-Sound start es tt o)

-- A stop signal to a running pipeline is taken in each of its selects, and then the writer's is: both
-- goroutines end, and what is held is released.
stops_ends :
    (p : Pipeline) (frame : Option ℕ)
    → (p.phase ≡ waiting) × (frame ≡ none) ⊎ (p.phase ≡ offering frame)
    → p.writing ≡ true
    → run p (stops ∷ writer_stops ∷ [])
      ≡ moved
          (record p { phase = stopped; writing = false; released = p.released ++ references frame })
unfolding run step stop_buffer stop stop_writer
stops_ends p frame (inl (e, n)) w = ground arith
stops_ends p frame (inr e) w = ground arith
