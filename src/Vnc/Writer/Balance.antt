-- ===== src/Vnc/Writer/Balance.antt =====
-- What a step of the two goroutines does to the references that they hold.
use dracd.Common.{
  ◌<◌, ltb, if-ind, ℕ, ◌+◌, ◌≡◌, refl, sym, subst, List, [], ◌∷◌, ◌++◌, append-nil, Option, none,
  some, length, drop, drop-length, arith, count,
}
use dracd.Vnc.Writer.{
  Phase, waiting, offering, stopping, stopped, Pipeline, Event, arrives, requested, taken, stops,
  writer_stops, Next, moved, blocked, crashed, references, replace, show, stop, arrive, take_frame,
  stop_buffer, stop_writer, step,
}

-- The references that the goroutines hold.
abbrev pub held : Phase → List ℕ
held (offering frame) = references frame
held _ = []

-- The references that an event brings.
abbrev pub received_by : Event → List ℕ
received_by (arrives frame) = references frame
received_by _ = []

-- The references that the step from one state to another has released.
abbrev pub newly : (before after : Pipeline) → List ℕ
newly p q = drop (length p.released) q.released

-- The step has released `fs`, and what was held and received is still held or was released.
abbrev Accounts : Pipeline → Event → List ℕ → Pipeline → Type 0
Accounts p e fs q =
    (q.released ≡ p.released ++ fs)
    × ((g : ℕ)
        → count g (held p.phase) + count g (received_by e) ≡ count g (held q.phase) + count g fs)

abbrev AccountsFor : Pipeline → Event → Next → Type 0
AccountsFor p e (moved q) = (fs : List ℕ) × Accounts p e fs q
AccountsFor p e blocked = Unit
AccountsFor p e (crashed x) = Unit

module _ (p : Pipeline) where
  same_released : p.released ≡ p.released ++ []
  same_released = sym (append-nil p.released)

  arrive-Accounts :
      (ph : Phase) (new : Option ℕ) → p.phase ≡ ph → AccountsFor p (arrives new) (arrive ph p new)
  unfolding arrive replace
  arrive-Accounts waiting new e = ([], (same_released, λ g. rw e (omega arith)))
  arrive-Accounts (offering none) new e = tt
  arrive-Accounts (offering (some f)) new e = (f ∷ [], (refl, λ g. rw e (omega arith)))
  arrive-Accounts stopping new e = tt
  arrive-Accounts stopped new e = tt

  show-Accounts : (f : Option ℕ) → p.phase ≡ offering f → AccountsFor p taken (show p f)
  unfolding show
  show-Accounts none e = tt
  show-Accounts (some f) e = (f ∷ [], (refl, λ g. rw e (omega arith)))

  take_frame-Accounts : (ph : Phase) → p.phase ≡ ph → AccountsFor p taken (take_frame ph p)
  unfolding take_frame
  take_frame-Accounts waiting e = tt
  take_frame-Accounts (offering f) e =
      if-ind (AccountsFor p taken) p.writing
        (if-ind (AccountsFor p taken) (ltb 0 p.pending) (show-Accounts f e) tt) tt
  take_frame-Accounts stopping e = tt
  take_frame-Accounts stopped e = tt

  stop_buffer-Accounts : (ph : Phase) → p.phase ≡ ph → AccountsFor p stops (stop_buffer ph p)
  unfolding stop_buffer stop
  stop_buffer-Accounts waiting e = ([], (refl, λ g. rw e (omega arith)))
  stop_buffer-Accounts (offering f) e = (references f, (refl, λ g. rw e (omega arith)))
  stop_buffer-Accounts stopping e = tt
  stop_buffer-Accounts stopped e = tt

  stop_writer-Accounts : (ph : Phase) → p.phase ≡ ph → AccountsFor p writer_stops (stop_writer ph p)
  unfolding stop_writer
  stop_writer-Accounts waiting e = tt
  stop_writer-Accounts (offering f) e = tt
  stop_writer-Accounts stopping e =
      if-ind (AccountsFor p writer_stops) p.writing ([], (same_released, λ g. rw e (omega arith)))
        tt
  stop_writer-Accounts stopped e = tt

  step-Accounts : (e : Event) → AccountsFor p e (step p e)
  unfolding step
  step-Accounts (arrives new) = arrive-Accounts p.phase new refl
  step-Accounts requested =
      if-ind (AccountsFor p requested) p.writing ([], (same_released, λ g. refl)) tt
  step-Accounts taken = take_frame-Accounts p.phase refl
  step-Accounts stops = stop_buffer-Accounts p.phase refl
  step-Accounts writer_stops = stop_writer-Accounts p.phase refl

-- What was held and received is still held or was newly released, each reference as often as before.
pub count-step :
    (p q : Pipeline) (e : Event) (g : ℕ)
    → step p e ≡ moved q
    → count g (held p.phase) + count g (received_by e)
      ≡ count g (held q.phase) + count g (newly p q)
count-step p q e g h =
    let (fs, (extended, balanced)) = subst (AccountsFor p e) h (step-Accounts p e) in
    rw (extended, drop-length p.released fs) (balanced g)

take_frame-held :
    (p q : Pipeline) (ph : Phase)
    → p.phase ≡ ph
    → take_frame ph p ≡ moved q
    → (f : ℕ) × (q.shown ≡ p.shown ++ f ∷ []) × (0 < count f (held p.phase))
unfolding take_frame show
take_frame-held p q waiting e h = absurd (cc)
take_frame-held p q (offering none) e h = absurd (ground arith)
take_frame-held p q (offering (some f)) e h = (f, ground arith, rw e (ground arith))
take_frame-held p q stopping e h = absurd (cc)
take_frame-held p q stopped e h = absurd (cc)

-- A frame that videoWriter takes was held.
pub taken-held :
    (p q : Pipeline)
    → step p taken ≡ moved q
    → (f : ℕ) × (q.shown ≡ p.shown ++ f ∷ []) × (0 < count f (held p.phase))
unfolding step
taken-held p q h = take_frame-held p q p.phase refl h
