-- ===== src/Vnc/Pacing/Progress.antt =====
-- The message loop and the writers do not stand in each other's way.
use dracd.Common.{
  ℕ, zero, suc, ◌+◌, ◌≡◌, refl, sym, subst, List, [], ◌∷◌, ◌++◌, some, none, length, All, arith, ap,
}
use dracd.Vnc.Messages.{Session, Action, send_key, send_mouse, request_update}
use dracd.Vnc.Messages.Client.{Message, encode_all, Fits}
use dracd.Vnc.Messages.Client.Requests.{requests, update_requests}
use dracd.Vnc.Writer.{Phase, waiting, offering, stopping, stopped, Pipeline, arrives, taken}
use dracd.Vnc.Writer.Owing.{IsIn, IsServing, requested-moves, arrives-moves, taken-moves}
use dracd.Vnc.Pacing.{Dialogue, begun, sends_input, asks_frame, goes_on, Reach, here, next}
use dracd.Vnc.Pacing.Paced.{Paced, Reach-Paced, begun-Paced}

-- A later state, with the writers in their loops.
record Later (d : Dialogue) (todo : List Action) : Type 0 where
  dialogue : Dialogue
  reach : Reach d dialogue
  calls : dialogue.todo ≡ todo
  serving : IsServing dialogue.writers

module _ (d : Dialogue) where
  all_called : (todo : List Action) → Later d todo → Later d []
  all_called [] a = a
  all_called (send_key keycode down ∷ rest) a = all_called rest (record {
    dialogue = record a.dialogue { todo = rest };
    reach = next a.reach (sends_input a.dialogue (send_key keycode down) rest a.calls tt);
    calls = refl;
    serving = a.serving;
  })
  all_called (send_mouse x y mask event ∷ rest) a = all_called rest (record {
    dialogue = record a.dialogue { todo = rest };
    reach = next a.reach (sends_input a.dialogue (send_mouse x y mask event) rest a.calls tt);
    calls = refl;
    serving = a.serving;
  })
  all_called (request_update ∷ rest) a =
      let p : Pipeline = a.dialogue.writers in
      let q : Pipeline = record p { pending = p.pending + 1 } in
      let moves = requested-moves p a.serving.1 in
      all_called rest (record {
        dialogue = record { todo = rest; writers = q };
        reach = next a.reach (asks_frame a.dialogue rest q a.calls moves);
        calls = refl;
        serving = a.serving;
      })

  -- With one frame in the hands of bufferedVideoWriter, or none, the next request can be answered.
  one_served :
      (n f : ℕ) (a : Later d []) (ph : Phase)
      → a.dialogue.writers.phase ≡ ph
      → IsIn ph
      → a.dialogue.writers.pending ≡ suc n
      → (b : Later d []) × (b.dialogue.writers.pending ≡ n)
  one_served n f a waiting e i k =
      let p : Pipeline = a.dialogue.writers in
      let o : Pipeline = record p { phase = offering (some f); received = p.received ++ f ∷ [] } in
      let (q, moves, phase, writing, pending) = taken-moves o f n refl a.serving.1 k in
      let offered : Dialogue = record a.dialogue { writers = o } in
      (
        record {
          dialogue = record a.dialogue { writers = q };
          reach =
              next (next a.reach (goes_on a.dialogue (arrives (some f)) o tt (arrives-moves p f e)))
                (goes_on offered taken q tt moves);
          calls = a.calls;
          serving = (subst IsIn (sym phase) tt, writing);
        },
        pending,
      )
  one_served n f a (offering none) e i k = absurd i
  one_served n f a (offering (some g)) e i k =
      let (q, moves, phase, writing, pending) =
        taken-moves a.dialogue.writers g n e a.serving.1 k in
      (
        record {
          dialogue = record a.dialogue { writers = q };
          reach = next a.reach (goes_on a.dialogue taken q tt moves);
          calls = a.calls;
          serving = (subst IsIn (sym phase) tt, writing);
        },
        pending,
      )
  one_served n f a stopping e i k = absurd i
  one_served n f a stopped e i k = absurd i

  all_served :
      (n f : ℕ) (a : Later d [])
      → a.dialogue.writers.pending ≡ n
      → (b : Later d []) × (b.dialogue.writers.pending ≡ 0)
  all_served zero f a k = (a, k)
  all_served (suc n) f a k =
      let (b, left) = one_served n f a a.dialogue.writers.phase refl a.serving.0 k in
      all_served n f b left

settled :
    (n : ℕ) (e : Dialogue)
    → Paced n e
    → e.todo ≡ []
    → e.writers.pending ≡ 0
    → length e.writers.shown ≡ n
unfolding requests
settled n e h nothing none_left = omega (arith, h.account, ap requests nothing, none_left)

-- From every state that a client that follows the protocol and its writers can come to before the stop signal,
-- the message loop can make all its calls, and if frames come, each of the client's requests is answered: as many
-- frames have then been sent as were asked for.
pub requests_served :
    (s : Session) (ms : List Message) (d : Dialogue) (f : ℕ)
    → All Fits ms
    → Reach (begun s (encode_all ms)) d
    → IsServing d.writers
    → (e : Dialogue) × Reach d e
      × (e.todo ≡ [])
      × (e.writers.pending ≡ 0)
      × (length e.writers.shown ≡ update_requests ms)
requests_served s ms d f fits r serving =
    let start : Later d d.todo = record {
      dialogue = d;
      reach = here;
      calls = refl;
      serving = serving;
    } in
    let called = all_called d d.todo start in
    let (end, none_left) = all_served d called.dialogue.writers.pending f called refl in
    let paced = Reach-Paced end.reach (Reach-Paced r (begun-Paced s ms fits)) in
    (
      end.dialogue,
      end.reach,
      end.calls,
      none_left,
      settled (update_requests ms) end.dialogue paced end.calls none_left,
    )
