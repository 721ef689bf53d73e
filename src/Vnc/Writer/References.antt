-- ===== src/Vnc/Writer/References.antt =====
-- The references to frames that the two goroutines hold and give back.
use native.Mathlib.Nat.{add-zero, zero-add, add_assoc}
use dracd.Common.{
  ◌<◌, ◌⊎◌, inl, inr, subst, ℕ, ◌+◌, ◌≡◌, refl, List, [], ◌∷◌, ◌++◌, Option, none, some, arith,
  length, length-append, append-nil,
}
use dracd.Vnc.Writer.{
  Phase, waiting, offering, stopping, stopped, Pipeline, start, Event, arrives, requested, taken,
  stops, writer_stops, Next, moved, blocked, crashed, references, replace, show, stop, arrive,
  take_frame, stop_buffer, stop_writer, step, and_then, run,
}
use dracd.Vnc.Writer.Balance.{held}

-- Each reference received was released or is held, in order; each image sent answers a request.
record Inv (p : Pipeline) (requests : ℕ) : Type 0 where
  kept : p.received ≡ p.released ++ held p.phase
  answered : length p.shown + p.pending ≡ requests

abbrev count : Event → ℕ
count requested = 1
count _ = 0

-- The requests among some events.
pub requests_in : List Event → ℕ
requests_in [] = 0
requests_in (e ∷ es) = count e + requests_in es

-- A property of the pipeline that a step leads to.
abbrev Ensures : (Pipeline → Type 0) → Next → Type 0
Ensures P (moved q) = P q
Ensures P blocked = Unit
Ensures P (crashed e) = Unit

module _ {p : Pipeline} {n : ℕ} (h : Inv p n) where
  arrive-Inv :
      (ph : Phase) (new : Option ℕ) → p.phase ≡ ph → Ensures (λ q. Inv q n) (arrive ph p new)
  unfolding arrive replace
  arrive-Inv waiting new e = ground (arith, h.kept, append-nil p.released)
  arrive-Inv (offering none) new e = tt
  arrive-Inv (offering (some f)) new e = ground (arith, h.kept)
  arrive-Inv stopping new e = tt
  arrive-Inv stopped new e = tt

  show-Inv :
      (f : Option ℕ) → p.phase ≡ offering f → 0 < p.pending → Ensures (λ q. Inv q n) (show p f)
  unfolding show
  show-Inv none e some_pending = tt
  show-Inv (some f) e some_pending =
      ground (arith, h.kept, append-nil (p.released ++ f ∷ []), length-append p.shown (f ∷ []))

  take_frame-Inv : (ph : Phase) → p.phase ≡ ph → Ensures (λ q. Inv q n) (take_frame ph p)
  unfolding take_frame
  take_frame-Inv waiting e = tt
  take_frame-Inv (offering f) e = ground (arith, show-Inv f e)
  take_frame-Inv stopping e = tt
  take_frame-Inv stopped e = tt

  stop_buffer-Inv : (ph : Phase) → p.phase ≡ ph → Ensures (λ q. Inv q n) (stop_buffer ph p)
  unfolding stop_buffer stop
  stop_buffer-Inv waiting e =
      ground (arith, h.kept, append-nil p.released, append-nil (p.released ++ []))
  stop_buffer-Inv (offering f) e = ground (arith, h.kept, append-nil (p.released ++ references f))
  stop_buffer-Inv stopping e = tt
  stop_buffer-Inv stopped e = tt

  stop_writer-Inv : (ph : Phase) → p.phase ≡ ph → Ensures (λ q. Inv q n) (stop_writer ph p)
  unfolding stop_writer
  stop_writer-Inv waiting e = tt
  stop_writer-Inv (offering f) e = tt
  stop_writer-Inv stopping e = ground (arith, h.kept)
  stop_writer-Inv stopped e = tt

step-Inv :
    (p : Pipeline) (e : Event) (n : ℕ) → Inv p n → Ensures (λ q. Inv q (n + count e)) (step p e)
unfolding step
step-Inv p (arrives new) n h = rw (add-zero n) (arrive-Inv h p.phase new refl)
step-Inv p requested n h = ground (arith, h.kept)
step-Inv p taken n h = rw (add-zero n) (take_frame-Inv h p.phase refl)
step-Inv p stops n h = rw (add-zero n) (stop_buffer-Inv h p.phase refl)
step-Inv p writer_stops n h = rw (add-zero n) (stop_writer-Inv h p.phase refl)

run-Inv :
    (p : Pipeline) (es : List Event) (n : ℕ)
    → Inv p n
    → Ensures (λ q. Inv q (n + requests_in es)) (run p es)
unfolding run requests_in
run-Inv p [] n h = rw (add-zero n) h
run-Inv p (e ∷ es) n h = go (step p e) (step-Inv p e n h) (λ q. run-Inv q es (n + count e))
  where
    go :
        (r : Next)
        → Ensures (λ q. Inv q (n + count e)) r
        → ((q : Pipeline)
            → Inv q (n + count e)
            → Ensures (λ t. Inv t (n + count e + requests_in es)) (run q es))
        → Ensures (λ q. Inv q (n + (count e + requests_in es))) (and_then r (λ q. run q es))
    go (moved q) hq rest = rw (← add_assoc n (count e) (requests_in es)) (rest q hq)
    go blocked hq rest = tt
    go (crashed x) hq rest = tt

start-Inv : Inv start 0
start-Inv = record { kept = refl; answered = refl }

Ensures-moved : (P : Pipeline → Type 0) (r : Next) (p : Pipeline) → r ≡ moved p → Ensures P r → P p
Ensures-moved P r p e h = subst (Ensures P) e h

reached : (es : List Event) (p : Pipeline) → run start es ≡ moved p → Inv p (requests_in es)
reached es p e =
    Ensures-moved (λ q. Inv q (requests_in es)) (run start es) p e
      (rw zero-add at (run-Inv start es 0 start-Inv))

-- After any events that the goroutines take, each image sent answers one request, and the requests that
-- are not answered are pending.
shown_answers :
    (es : List Event) (p : Pipeline)
    → run start es ≡ moved p
    → length p.shown + p.pending ≡ requests_in es
shown_answers es p e = (reached es p e).answered

-- Once bufferedVideoWriter is at its last send or has ended, every reference that came in has been
-- released, once each and in the order of arrival.
run_releases :
    (es : List Event) (p : Pipeline)
    → run start es ≡ moved p
    → (p.phase ≡ stopping) ⊎ (p.phase ≡ stopped)
    → p.released ≡ p.received
run_releases es p e (inl h) = ground (arith, (reached es p e).kept, append-nil p.released)
run_releases es p e (inr h) = ground (arith, (reached es p e).kept, append-nil p.released)

show_latest :
    (p q : Pipeline) (ph : Phase) (n : ℕ)
    → p.phase ≡ ph
    → Inv p n
    → take_frame ph p ≡ moved q
    → (f : ℕ) × (front : List ℕ) × (p.received ≡ front ++ f ∷ []) × (q.shown ≡ p.shown ++ f ∷ [])
unfolding take_frame show
show_latest p q waiting n e h t = absurd (cc)
show_latest p q (offering none) n e h t = absurd (ground arith)
show_latest p q (offering (some f)) n e h t = (f, p.released, ground (arith, h.kept), ground arith)
show_latest p q stopping n e h t = absurd (cc)
show_latest p q stopped n e h t = absurd (cc)

-- The frame that is sent to the client is the last one that arrived.
taken_latest :
    (es : List Event) (p q : Pipeline)
    → run start es ≡ moved p
    → step p taken ≡ moved q
    → (f : ℕ) × (front : List ℕ) × (p.received ≡ front ++ f ∷ []) × (q.shown ≡ p.shown ++ f ∷ [])
unfolding step
taken_latest es p q e t = show_latest p q p.phase (requests_in es) refl (reached es p e) t
