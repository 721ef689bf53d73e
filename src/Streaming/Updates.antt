-- ===== src/Streaming/Updates.antt =====
-- videoUpdate, as a run of the steps of its goroutine.
use dracd.Common.{
  ℕ, ◌≡◌, List, [], ◌∷◌, Option, none, some, Bool, true, false, ok, panics, Panic, Outcome, length,
  get_elem?, if◌then◌else◌,
}
use dracd.Frame.{Frame, new_frame, acquire, release}
use dracd.Drac.Video.{Picture, Video, encode_png_ptr, Call, report_ready}
use dracd.Drac.Video
use dracd.Vnc.Writer
use dracd.Vnc.Writer.{Pipeline, Next, arrives, moved, blocked, crashed}
use dracd.Streaming.{
  Stream, Hand, at_loop, at_send, change, write, acquires, sends, releases, reports, Reach,
}

-- How far a goroutine comes with its calls: to their end, to a send that no select of the client's writers takes,
-- with the calls from there on, or to a send on a channel that teardownDracClient has closed. Or the writers
-- themselves panic on what they get.
pub data Progress : Type 0 where
  finished : Stream → Progress
  stands : (calls : List Call) → Stream → Progress
  send_on_closed : (client : ℕ) → Stream → Progress
  writers_crash : Panic → Progress

-- The stream with the goroutine at `h`, and the others at `others`.
abbrev pub at : Hand → List Hand → Stream → Stream
at h others s = record s { in_hand = h ∷ others }

-- Where a goroutine that has acquired the frame `f` stands, with the calls that it goes on to.
abbrev standing : List Call → ℕ → Hand
standing (Video.sends c g ∷ rest) f = at_send f c
standing _ f = at_loop f

-- What comes of a send, by what the client's writers do with the frame.
abbrev after_step : Progress → (Pipeline → Progress) → Next → Progress
after_step wait go (moved q) = go q
after_step wait go blocked = wait
after_step wait go (crashed e) = writers_crash e

abbrev send : ℕ → Progress → (Pipeline → Pipeline → Progress) → Option Pipeline → Progress
send f wait go none = wait
send f wait go (some p) = after_step wait (go p) (Writer.step p (arrives (some f)))

-- The calls of one goroutine, as long as nothing stops it; `closed` says which channels are closed, and `others` is
-- where the other goroutines stand.
pub run_calls : (ℕ → Bool) → List Hand → List Call → Stream → Progress
run_calls closed others [] s = finished s
run_calls closed others (Video.acquires f ∷ calls) s =
    run_calls closed others calls (at (standing calls f) others (change s f acquire))
run_calls closed others (Video.sends c f ∷ calls) s =
    if closed c
    then send_on_closed c s
    else send f (stands (Video.sends c f ∷ calls) s)
        (λ p q. run_calls closed others calls (at (at_loop f) others (write s c p q)))
        (get_elem? s.writers c)
run_calls closed others (Video.releases f ∷ calls) s =
    run_calls closed others calls (record (change s f release) { in_hand = others })
run_calls closed others (Video.reports now ∷ calls) s =
    run_calls closed others calls (record s { video = report_ready now s.video })

-- How a run of the calls of videoUpdate ends that comes from `s`, with the frame `f`: finished, with no reference in
-- hand but those that the others have; or at the send to a client, with its own reference and that client's, where
-- the send is not taken or the channel is closed; or the writers crash at what it sends.
abbrev pub Ends : Stream → (ℕ → Bool) → ℕ → List Hand → Progress → Type 0
Ends s closed f others (finished t) = Reach s t × (t.in_hand ≡ others)
Ends s closed f others (stands calls t) =
    Reach s t
    × ((c : ℕ) × (rest : List Call) × (calls ≡ Video.sends c f ∷ rest)
        × (closed c ≡ false)
        × (t.in_hand ≡ at_send f c ∷ others))
Ends s closed f others (send_on_closed c t) =
    Reach s t × (closed c ≡ true) × (t.in_hand ≡ at_send f c ∷ others)
Ends s closed f others (writers_crash e) =
    (t : Stream) × (c : ℕ) × (p : Pipeline) × Reach s t
    × (t.in_hand ≡ at_send f c ∷ others)
    × (get_elem? t.writers c ≡ some p)
    × (Writer.step p (arrives (some f)) ≡ crashed e)

-- What an update with a picture comes to: its frame and its session, with a reference in hand to the frame, and then
-- a run of its calls; or the panic of newFrame.
abbrev pub Runs : Stream → (ℕ → Bool) → Picture → Outcome (Video × List Call × List ℕ) → Type 0
Runs s closed p (ok (v, calls, freed)) =
    (t : Stream) × Reach s t
    × (t.video ≡ v)
    × (t.in_hand ≡ at_loop (length s.video.frames) ∷ s.in_hand)
    × (t.writers ≡ s.writers)
    × Ends s closed (length s.video.frames) s.in_hand (run_calls closed s.in_hand calls t)
Runs s closed p (panics x) =
    new_frame (encode_png_ptr p).0 (encode_png_ptr p).1 p.width p.height ≡ panics x
