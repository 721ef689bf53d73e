-- ===== src/Vnc/Writer/Showing.antt =====
-- What a step of the two goroutines sends to the client.
use dracd.Common.{
  ℕ, ◌<◌, ◌≡◌, ◌⊎◌, inl, inr, refl, sym, subst, ap, ◌∙◌, List, [], ◌∷◌, ◌++◌, append-nil, none,
  some, length, drop, drop-length, arith, count,
}
use dracd.Vnc.Writer.{
  Phase, waiting, offering, stopping, stopped, Pipeline, Event, arrives, requested, taken, stops,
  writer_stops, Next, moved, replace, stop, arrive, stop_buffer, stop_writer, step,
}
use dracd.Vnc.Writer.Balance.{held, taken-held}

-- The references that the step from one state to another has sent.
abbrev pub newly_shown : (before after : Pipeline) → List ℕ
newly_shown p q = drop (length p.shown) q.shown

newly_shown_none : (p q : Pipeline) → q.shown ≡ p.shown → newly_shown p q ≡ []
newly_shown_none p q e =
    ap (drop (length p.shown)) (e ∙ sym (append-nil p.shown)) ∙ drop-length p.shown []

abbrev ShowsNone : Pipeline → Next → Type 0
ShowsNone p (moved q) = q.shown ≡ p.shown
ShowsNone p _ = Unit

abbrev IsOther : Event → Type 0
IsOther taken = ⊥
IsOther _ = Unit

shows_none :
    (p : Pipeline) (ph : Phase) (e : Event) → p.phase ≡ ph → IsOther e → ShowsNone p (step p e)
unfolding step arrive replace stop_buffer stop stop_writer
shows_none p waiting (arrives new) q o = rw q refl
shows_none p (offering none) (arrives new) q o = rw q tt
shows_none p (offering (some f)) (arrives new) q o = rw q refl
shows_none p stopping (arrives new) q o = rw q tt
shows_none p stopped (arrives new) q o = rw q tt
shows_none p ph requested q o = ground arith
shows_none p ph taken q o = absurd o
shows_none p waiting stops q o = rw q refl
shows_none p (offering f) stops q o = rw q refl
shows_none p stopping stops q o = rw q tt
shows_none p stopped stops q o = rw q tt
shows_none p waiting writer_stops q o = rw q tt
shows_none p (offering f) writer_stops q o = rw q tt
shows_none p stopping writer_stops q o = ground arith
shows_none p stopped writer_stops q o = rw q tt

-- A step sends nothing, or one frame that was held.
abbrev pub ShowsOne : (p q : Pipeline) → Type 0
ShowsOne p q =
    ((newly_shown p q ≡ []) × (q.shown ≡ p.shown))
    ⊎ ((f : ℕ) × (newly_shown p q ≡ f ∷ [])
        × (q.shown ≡ p.shown ++ f ∷ [])
        × (0 < count f (held p.phase)))

other : (p q : Pipeline) (e : Event) → IsOther e → step p e ≡ moved q → ShowsOne p q
other p q e o m =
    let same = subst (ShowsNone p) m (shows_none p p.phase e refl o) in
    inl (newly_shown_none p q same, same)

pub step-ShowsOne : (p q : Pipeline) (e : Event) → step p e ≡ moved q → ShowsOne p q
step-ShowsOne p q (arrives new) m = other p q (arrives new) tt m
step-ShowsOne p q requested m = other p q requested tt m
step-ShowsOne p q taken m =
    let (f, shown, holds) = taken-held p q m in
    inr (f, ap (drop (length p.shown)) shown ∙ drop-length p.shown (f ∷ []), shown, holds)
step-ShowsOne p q stops m = other p q stops tt m
step-ShowsOne p q writer_stops m = other p q writer_stops tt m
